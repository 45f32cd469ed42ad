-- ===== src/Config/Parse.antt =====
-- `ia_configinit` and `ia_configparse` of src/ia_config.c, over the options that getopt gives. The
-- copies of strings get their memory, and what is logged is left out.
use ioarena.Base.{
  ℕ, ◌^◌, Bool, true, false, not, ◌&&◌, ◌||◌, Option, none, some, List, [], ◌∷◌, ◌++◌, take, leb,
  ◌==◌, if◌then◌else◌,
}
use mathlib.Core.Logic.{ite}
use ioarena.Base.Text.{codes}
use ioarena.Bench.{Benchmark, Benchmark-discrete}
use ioarena.Config.Names.{SyncMode, WalMode, ia_str2syncmode, ia_str2walmode, ia_benchmark}

-- `struct iaconfig`; an int is a 32-bit word. Of a driver only whether it takes options is kept.
pub record IaConfig : Type 0 where
  pub driver : Option (List ℕ)
  pub takes_options : Bool
  pub path : List ℕ
  pub benchmark : List ℕ
  pub drv_opts : List (List ℕ)
  pub benchmark_list : Benchmark → Bool
  pub ksize : ℕ
  pub vsize : ℕ
  pub count : ℕ
  pub syncmode : SyncMode
  pub walmode : WalMode
  pub rthr : ℕ
  pub wthr : ℕ
  pub batch_length : ℕ
  pub nrepeat : ℕ
  pub kvseed : ℕ
  pub csv_prefix : Option (List ℕ)
  pub binary : Bool
  pub separate : Bool
  pub ignore_keynotfound : Bool
  pub continuous_completing : Bool

-- `ia_configinit`
unfoldable pub ia_configinit : IaConfig
ia_configinit = record {
  driver = none;
  takes_options = false;
  path = codes "./_ioarena";
  benchmark = codes "set, get";
  drv_opts = [];
  benchmark_list = λ b. false;
  ksize = 16;
  vsize = 32;
  count = 1000000;
  syncmode = SyncMode.ia_lazy;
  walmode = WalMode.ia_wal_indef;
  rthr = 0;
  wthr = 0;
  batch_length = 500;
  nrepeat = 1;
  kvseed = 42;
  csv_prefix = none;
  binary = false;
  separate = false;
  ignore_keynotfound = false;
  continuous_completing = false;
}

-- What getopt returns, with `optarg`; `opt_other` is a letter that it does not know.
pub data Opt : Type 0 where
  opt_D opt_o opt_T opt_B opt_p opt_n opt_k opt_v opt_C opt_m opt_l opt_r opt_w : List ℕ → Opt
  opt_i opt_c opt_h opt_other : Opt

-- The results 0, 1 (help was asked for) and -1.
pub data Parse : Type 0 where
  ready : IaConfig → Parse
  helped failed : Parse

abbrev pub or_failed {ℓ} : {A : Type ℓ} → Option A → (A → Parse) → Parse
or_failed none f = failed
or_failed (some a) f = f a

-- strtok(..., ", "), with the letters of the token that is being read, in order.
unfoldable pub tokens : (token : List ℕ) → List ℕ → List (List ℕ)
tokens [] [] = []
tokens (t ∷ ts) [] = (t ∷ ts) ∷ []
tokens [] (c ∷ cs) =
    let skip = tokens [] cs in
    let grow = tokens (c ∷ []) cs in if c == 44 || c == 32 then skip else grow
tokens (t ∷ ts) (c ∷ cs) =
    let next = tokens [] cs in
    let grow = tokens (t ∷ (ts ++ c ∷ [])) cs in
    if c == 44 || c == 32 then (t ∷ ts) ∷ next else grow

abbrev pub mark : (Benchmark → Bool) → Benchmark → Benchmark → Bool
mark f b c = ite (Benchmark-discrete b c) true (f c)

-- The loop over the names of benchmarks; `none` is an unknown name.
unfoldable pub select : List (List ℕ) → (Benchmark → Bool) → Option (Benchmark → Bool)
select [] f = some f
select (p ∷ ps) f = elim (ia_benchmark p) [ none ↦ none | some b ↦ select ps (mark f b) ]

-- The checks of the key size and of the benchmarks. `buf` holds 127 characters.
unfoldable pub select_all : IaConfig → Parse
select_all c =
    if c.ksize == 0 || leb (2 ^ 31) c.ksize
    then failed
    else or_failed (select (tokens [] (take 127 c.benchmark)) c.benchmark_list)
        (λ f. ready (record c { benchmark_list = f }))

abbrev pub is_empty : List (List ℕ) → Bool
is_empty [] = true
is_empty (o ∷ os) = false

-- What is checked once the options are read.
unfoldable pub finish_parse : IaConfig → Parse
finish_parse c = elim c.driver [
  | none ↦ failed
  | some d ↦ if not (is_empty c.drv_opts) && not c.takes_options then failed else select_all c
]

module _ (driver_for : List ℕ → Option Bool) (atoi atoll : List ℕ → ℕ) where
  -- `ia_configparse`; `driver_for` is `ia_get_driver_for`, and tells whether the driver takes options.
  unfoldable pub ia_configparse : IaConfig → List Opt → Parse
  ia_configparse c [] = finish_parse c
  ia_configparse c (opt_D a ∷ os) = elim (driver_for a) [
    | none ↦ failed
    | some t ↦ ia_configparse (record c { driver = some a; takes_options = t }) os
  ]
  ia_configparse c (opt_o a ∷ os) = ia_configparse (record c { drv_opts = c.drv_opts ++ a ∷ [] }) os
  ia_configparse c (opt_T a ∷ os) = ia_configparse (record c { benchmark = a }) os
  ia_configparse c (opt_B a ∷ os) = ia_configparse (record c { benchmark = a }) os
  ia_configparse c (opt_p a ∷ os) = ia_configparse (record c { path = a }) os
  ia_configparse c (opt_n a ∷ os) = ia_configparse (record c { count = atoll a }) os
  ia_configparse c (opt_k a ∷ os) = ia_configparse (record c { ksize = atoi a }) os
  ia_configparse c (opt_v a ∷ os) = ia_configparse (record c { vsize = atoi a }) os
  ia_configparse c (opt_C a ∷ os) = ia_configparse (record c { csv_prefix = some a }) os
  ia_configparse c (opt_m a ∷ os) = elim (ia_str2syncmode a) [
    | none ↦ failed
    | some m ↦ ia_configparse (record c { syncmode = m }) os
  ]
  ia_configparse c (opt_l a ∷ os) = elim (ia_str2walmode a) [
    | none ↦ failed
    | some m ↦ ia_configparse (record c { walmode = m }) os
  ]
  ia_configparse c (opt_r a ∷ os) = ia_configparse (record c { rthr = atoi a }) os
  ia_configparse c (opt_w a ∷ os) = ia_configparse (record c { wthr = atoi a }) os
  ia_configparse c (opt_i ∷ os) = ia_configparse (record c { ignore_keynotfound = true }) os
  ia_configparse c (opt_c ∷ os) = ia_configparse (record c { continuous_completing = true }) os
  ia_configparse c (opt_h ∷ os) = helped
  ia_configparse c (opt_other ∷ os) = failed
