-- ===== src/Drivers/Mdbx/Settings.antt =====
-- Lists of settings as the loop of ia_mdbx_option of src/drivers/ia_mdbx.c reads them.
use ioarena.Base.{
  ℕ, zero, suc, ◌≤◌, ◌≡◌, ◌≢◌, refl, ap, ◌∙◌, arith, true, false, List, [], ◌∷◌, length, ◌<◌, ◌⊎◌,
  inl, inr,
}
use mathlib.Core.Path.{subst}
use ioarena.Base.Text.{codes}
use ioarena.Kv.Fill.{done, ◌>>=◌}
use ioarena.Config.OptionBool.{Code}
use ioarena.Drivers.Mdbx.{MdbxOpts}
use ioarena.Drivers.Mdbx.Options.{
  MdbxOption, set_option, Parsing, try_option, option_round, option_loop, ia_mdbx_option,
  option_result,
}
use ioarena.Base.Bytes.{same_bytes}
use ioarena.Drivers.Mdbx.Print.{
  Setting, print, apply_all, print_starts, Reads, try_own, try_other, try_ended,
}

option_discrete : Discrete MdbxOption
option_discrete = hlevel

tries : List MdbxOption → Parsing → Parsing
tries [] st = st
tries (q ∷ qs) st = tries qs (try_option q st)

abbrev Among : MdbxOption → List MdbxOption → Type 0
Among o [] = ⊥
Among o (q ∷ qs) = (o ≡ q) ⊎ Among o qs

-- The head's option is one of those that are tried.
abbrev HeadAmong : List MdbxOption → List Setting → Type 0
HeadAmong qs [] = ⊥
HeadAmong qs (s ∷ l) = Among s.0 qs

-- What trying some options one after the other leaves to read: the same settings in all, and fewer if
-- the head's option is among them.
record Advances (qs : List MdbxOption) (l : List Setting) (g : MdbxOpts) (st : Parsing)
    : Type 0 where
  rest : List Setting
  globals : MdbxOpts
  reads : Reads globals rest st
  same : apply_all rest globals ≡ apply_all l g
  shorter : length rest ≤ length l
  taken : HeadAmong qs l → length rest < length l

nothing_tried : (l : List Setting) → HeadAmong [] l → length l < length l
nothing_tried [] m = absurd m
nothing_tried (s ∷ l) m = absurd m

tries-Advances :
    (qs : List MdbxOption) (l : List Setting) (g : MdbxOpts) (st : Parsing)
    → Reads g l st
    → Advances qs l g (tries qs st)
unfolding tries
tries-Advances [] l g st h = record {
  rest = l;
  globals = g;
  reads = h;
  same = refl;
  shorter = omega arith;
  taken = nothing_tried l;
}
tries-Advances (q ∷ qs) [] g st h =
    let r = tries-Advances qs [] g (try_option q st) (try_ended q g st h) in
    record {
      rest = r.rest;
      globals = r.globals;
      reads = r.reads;
      same = r.same;
      shorter = r.shorter;
      taken = λ m. elim m [ ];
    }
tries-Advances (q ∷ qs) (s ∷ l) g st h = elim (option_discrete s.0 q) [
  | yes own ↦
      let r =
        tries-Advances qs l (set_option s.0 s.1 g) (try_option q st) (
          subst (λ o. Reads (set_option s.0 s.1 g) l (try_option o st)) own (try_own s l g st h)) in
      let less : length r.rest < suc (length l) = ground (arith, r.shorter) in
      record {
        rest = r.rest;
        globals = r.globals;
        reads = r.reads;
        same = r.same;
        shorter = omega (arith, less);
        taken = λ m. less;
      }
  | no other ↦
      let r = tries-Advances qs (s ∷ l) g (try_option q st) (try_other q s l g st other h) in
      record {
        rest = r.rest;
        globals = r.globals;
        reads = r.reads;
        same = r.same;
        shorter = r.shorter;
        taken = λ m. elim m [ inl e ↦ absurd (other e) | inr later ↦ r.taken later ];
      }
]

abbrev all_options : List MdbxOption
all_options =
    MdbxOption.o_liforeclaim ∷ MdbxOption.o_coalesce ∷ MdbxOption.o_exclusive
    ∷ MdbxOption.o_pageperturb ∷ MdbxOption.o_nomeminit ∷ MdbxOption.o_nordahead
    ∷ MdbxOption.o_nometasync ∷ []

every_option : (o : MdbxOption) → Among o all_options
every_option o = ground arith

round-tries : (st : Parsing) → option_round st ≡ tries all_options st
unfolding option_round tries
round-tries st = refl

pub loop_round :
    (fuel : ℕ) (g : MdbxOpts) (arg : List ℕ) (x : ℕ) (xs : List ℕ)
    → arg ≡ x ∷ xs
    → let st = option_round (record { code = Code.go_on; globals = g; arg = arg }) in
      option_loop (suc fuel) Code.go_on arg g ≡ option_loop fuel st.code st.arg st.globals
unfolding option_loop
loop_round fuel g arg x xs e = rw e refl

no_help :
    (arg : List ℕ) (x : ℕ) (xs : List ℕ)
    → arg ≡ x ∷ xs
    → x ≢ 45
    → same_bytes arg (codes "--help") ≡ false
unfolding same_bytes
no_help arg x xs e ne = rw e (ground arith)

-- As many rounds as there are settings are enough.
option_loop-Reads :
    (fuel : ℕ) (l : List Setting) (g : MdbxOpts) (st : Parsing)
    → length l ≤ fuel
    → Reads g l st
    → (end : Parsing) × (option_loop fuel st.code st.arg st.globals ≡ done end)
      × (end.code ≡ Code.ended)
      × (end.globals ≡ apply_all l g)
unfolding option_loop Reads
option_loop-Reads fuel [] g st enough h = rw (h.0, option_loop) (_, refl, refl, h.1)
option_loop-Reads zero (s ∷ l) g st enough h = absurd (omega arith)
option_loop-Reads (suc fuel) (s ∷ l) g st enough h =
    let start : Parsing = record { code = Code.go_on; globals = g; arg = print (s ∷ l) } in
    let (x, xs, e, _) = print_starts s l in
    let r = tries-Advances all_options (s ∷ l) g start refl in
    let less : length r.rest ≤ fuel = omega (arith, r.taken (every_option s.0), enough) in
    let (end, runs, code, globals) =
      option_loop-Reads fuel r.rest r.globals (tries all_options start) less r.reads in
    (
      end,
      ap (λ (p : Parsing). option_loop (suc fuel) p.code p.arg p.globals) h
          ∙ loop_round fuel g (print (s ∷ l)) x xs e
          ∙ ap (λ (p : Parsing). option_loop fuel p.code p.arg p.globals) (round-tries start)
          ∙ runs,
      code,
      globals ∙ r.same,
    )

ended_result :
    (end : Parsing) (g : MdbxOpts)
    → end.code ≡ Code.ended
    → end.globals ≡ g
    → done (option_result end) ≡ done (true, g)
ended_result end g code globals = rw code (ap (λ t. done (true, t)) globals)

pub option_loop-print :
    (fuel : ℕ) (l : List Setting) (g : MdbxOpts)
    → l ≢ []
    → length l ≤ fuel
    → ia_mdbx_option fuel false (print l) g ≡ done (true, apply_all l g)
unfolding ia_mdbx_option Reads
option_loop-print fuel [] g ne enough = absurd (ne refl)
option_loop-print fuel (s ∷ l) g ne enough =
    let (x, xs, e, no_dash) = print_starts s l in
    let (end, runs, code, globals) =
      option_loop-Reads fuel (s ∷ l) g
        (record { code = Code.go_on; globals = g; arg = print (s ∷ l) }) enough refl in
    rw (no_help (print (s ∷ l)) x xs e no_dash) (
      ap (λ r. r >>= λ st. done (option_result st)) runs
      ∙ ended_result end (apply_all (s ∷ l) g) code globals)
