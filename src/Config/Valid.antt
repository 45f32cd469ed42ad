-- ===== src/Config/Valid.antt =====
-- The settings that `ia_configparse` of src/ia_config.c accepts.
use mathlib.Core.Path.{subst}
use ioarena.Base.{
  ℕ, ◌^◌, ◌<◌, ◌≡◌, inl, inr, refl, Bool, Bool-cases, true, false, not, ◌&&◌, ◌||◌, Option, none,
  some, Option-cases, List, [], ◌∷◌, ◌++◌, take, leb, ◌==◌, if◌then◌else◌, arith,
}
use ioarena.Bench.{Benchmark}
use ioarena.Config.Names.{ia_benchmark, ia_str2syncmode, ia_str2walmode}
use ioarena.Config.Parse.{
  IaConfig, Parse, ready, helped, failed, or_failed, tokens, mark, select, select_all, is_empty,
  finish_parse, Opt, opt_D, opt_o, opt_T, opt_B, opt_p, opt_n, opt_k, opt_v, opt_C, opt_m, opt_l,
  opt_r, opt_w, opt_i, opt_c, opt_h, opt_other, ia_configparse,
}

-- Each text names a benchmark.
abbrev pub AllKnown : List (List ℕ) → Type 0
AllKnown [] = Unit
AllKnown (p ∷ ps) = ((b : Benchmark) × (ia_benchmark p ≡ some b)) × AllKnown ps

-- There is a driver, it takes options if some are given, the key size is positive as an int, and all
-- benchmarks that are named are known.
pub record IsValid (c : IaConfig) : Type 0 where
  pub chosen : (d : List ℕ) × (c.driver ≡ some d)
  pub options : (not (is_empty c.drv_opts) && not c.takes_options) ≡ false
  pub ksize : (0 < c.ksize) × (c.ksize < 2 ^ 31)
  pub known : AllKnown (tokens [] (take 127 c.benchmark))

abbrev OnReady : Parse → Type 0
OnReady (ready c) = IsValid c
OnReady helped = Unit
OnReady failed = Unit

abbrev OnSome : Option (Benchmark → Bool) → Type 0 → Type 0
OnSome none P = Unit
OnSome (some f) P = P

both : (o : Option (Benchmark → Bool)) (P Q : Type 0) → P → OnSome o Q → OnSome o (P × Q)
both none P Q p q = tt
both (some f) P Q p q = (p, q)

select-AllKnown : (ps : List (List ℕ)) (f : Benchmark → Bool) → OnSome (select ps f) (AllKnown ps)
unfolding select
select-AllKnown [] f = tt
select-AllKnown (p ∷ ps) f = elim (Option-cases (ia_benchmark p)) [
  | inl e ↦ rw (e, select) tt
  | inr known ↦
      let (b, e) = known in
      rw (e, select)
        (both (select ps (mark f b)) ((x : Benchmark) × Path (Option Benchmark) (some b) (some x))
          (AllKnown ps) (b, refl) (select-AllKnown ps (mark f b)))
]

select_all-OnReady :
    (c : IaConfig) (d : List ℕ)
    → c.driver ≡ some d
    → (not (is_empty c.drv_opts) && not c.takes_options) ≡ false
    → OnReady (select_all c)
unfolding select_all
select_all-OnReady c d e taken = elim (Bool-cases (c.ksize == 0 || leb (2 ^ 31) c.ksize)) [
  | inl bad ↦ rw bad tt
  | inr good ↦ rw good (
      selected (select (tokens [] (take 127 c.benchmark)) c.benchmark_list) (ground arith)
        (select-AllKnown (tokens [] (take 127 c.benchmark)) c.benchmark_list))
]
  where
    selected :
        (o : Option (Benchmark → Bool))
        → (0 < c.ksize) × (c.ksize < 2 ^ 31)
        → OnSome o (AllKnown (tokens [] (take 127 c.benchmark)))
        → OnReady (or_failed o (λ f. ready (record c { benchmark_list = f })))
    selected none size known = tt
    selected (some f) size known = record {
      chosen = (d, e);
      options = taken;
      ksize = size;
      known = known;
    }

finish_parse-OnReady : (c : IaConfig) → OnReady (finish_parse c)
unfolding finish_parse
finish_parse-OnReady c = go c.driver refl
  where
    allowed :
        (d : List ℕ) (refused : Bool)
        → c.driver ≡ some d
        → (not (is_empty c.drv_opts) && not c.takes_options) ≡ refused
        → OnReady (if refused then failed else select_all c)
    allowed d true e taken = tt
    allowed d false e taken = select_all-OnReady c d e taken

    go :
        (o : Option (List ℕ))
        → c.driver ≡ o
        → OnReady (elim o [
          | none ↦ failed
          | some d ↦
              if not (is_empty c.drv_opts) && not c.takes_options then failed else select_all c
        ])
    go none e = tt
    go (some d) e = allowed d (not (is_empty c.drv_opts) && not c.takes_options) e refl

module _ (driver_for : List ℕ → Option Bool) (atoi atoll : List ℕ → ℕ) where
  parse-OnReady :
      (c : IaConfig) (os : List Opt) → OnReady (ia_configparse driver_for atoi atoll c os)
  unfolding ia_configparse
  parse-OnReady c [] = finish_parse-OnReady c
  parse-OnReady c (opt_D a ∷ os) = elim (Option-cases (driver_for a)) [
    | inl e ↦ rw (e, ia_configparse) tt
    | inr found ↦
        rw (found.1, ia_configparse)
          (parse-OnReady (record c { driver = some a; takes_options = found.0 }) os)
  ]
  parse-OnReady c (opt_o a ∷ os) = parse-OnReady (record c { drv_opts = c.drv_opts ++ a ∷ [] }) os
  parse-OnReady c (opt_T a ∷ os) = parse-OnReady (record c { benchmark = a }) os
  parse-OnReady c (opt_B a ∷ os) = parse-OnReady (record c { benchmark = a }) os
  parse-OnReady c (opt_p a ∷ os) = parse-OnReady (record c { path = a }) os
  parse-OnReady c (opt_n a ∷ os) = parse-OnReady (record c { count = atoll a }) os
  parse-OnReady c (opt_k a ∷ os) = parse-OnReady (record c { ksize = atoi a }) os
  parse-OnReady c (opt_v a ∷ os) = parse-OnReady (record c { vsize = atoi a }) os
  parse-OnReady c (opt_C a ∷ os) = parse-OnReady (record c { csv_prefix = some a }) os
  parse-OnReady c (opt_m a ∷ os) = elim (Option-cases (ia_str2syncmode a)) [
    | inl e ↦ rw (e, ia_configparse) tt
    | inr found ↦ rw (found.1, ia_configparse) (parse-OnReady (record c { syncmode = found.0 }) os)
  ]
  parse-OnReady c (opt_l a ∷ os) = elim (Option-cases (ia_str2walmode a)) [
    | inl e ↦ rw (e, ia_configparse) tt
    | inr found ↦ rw (found.1, ia_configparse) (parse-OnReady (record c { walmode = found.0 }) os)
  ]
  parse-OnReady c (opt_r a ∷ os) = parse-OnReady (record c { rthr = atoi a }) os
  parse-OnReady c (opt_w a ∷ os) = parse-OnReady (record c { wthr = atoi a }) os
  parse-OnReady c (opt_i ∷ os) = parse-OnReady (record c { ignore_keynotfound = true }) os
  parse-OnReady c (opt_c ∷ os) = parse-OnReady (record c { continuous_completing = true }) os
  parse-OnReady c (opt_h ∷ os) = tt
  parse-OnReady c (opt_other ∷ os) = tt

  -- Settings that `ia_configparse` accepts, from any settings and options, have a driver, which takes
  -- options if some are given, a key size that is positive as an int, and only known names of
  -- benchmarks in the first 127 characters of their list.
  pub ia_configparse-IsValid :
      (c c' : IaConfig) (os : List Opt)
      → ia_configparse driver_for atoi atoll c os ≡ ready c'
      → IsValid c'
  ia_configparse-IsValid c c' os e = subst OnReady e (parse-OnReady c os)
