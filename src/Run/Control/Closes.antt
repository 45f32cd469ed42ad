-- ===== src/Run/Control/Closes.antt =====
-- What it takes for the parts of a run of src/ia.c to get to their ends.
use ioarena.Base.{
  ℕ, ◌≡◌, inl, inr, refl, ap, arith, Bool, true, false, Bool-cases, ◌||◌, Option, none, some, List,
  [], ◌∷◌, ◌++◌, ◌+◌, ◌==◌, length,
}
use mathlib.Core.Path.{subst}
use ioarena.Bench.{Benchmark}
use ioarena.Histogram.State.{Global}
use ioarena.Histogram.State as State
use ioarena.Histogram.Merge.{Verdict, ia_histogram_checkpoint}
use ioarena.Kv.Fill.{Globals}
use ioarena.Doer.Driver.{Rc, success, not_found, failure, and_then}
use ioarena.Doer.Masks.{Mask, some_bit}
use ioarena.Doer.Init.{Ready}
use ioarena.Run.{Spawn, Spread, ia_spread}
use ioarena.Run.Covers.{given, MasksOf, spread-covers}
use ioarena.Run.Control.{
  at_least_0, threads_for, Calls, spawns, Outcome, returns, exits, aborts, uneven, completes,
  after_checkpoint, together, run_end, everyone, failed_after, or_exit, or_return, run_main,
  run_waiting,
}

abbrev pub AllFulfil : (fulfil : Ready → Rc) → List Ready → Type 0
AllFulfil fulfil [] = Unit
AllFulfil fulfil (d ∷ ds) = (fulfil d ≡ success) × AllFulfil fulfil ds

failed_after-AllFulfil :
    (fulfil : Ready → Rc) (doers : List Ready)
    → failed_after fulfil doers ≡ success
    → AllFulfil fulfil doers
unfolding failed_after
failed_after-AllFulfil fulfil [] h = tt
failed_after-AllFulfil fulfil (d ∷ ds) h =
    both (fulfil d) (failed_after fulfil ds) h (failed_after-AllFulfil fulfil ds)
  where
    both :
        {P : Type 0} (rc rest : Rc)
        → and_then rc rest (λ code. code) ≡ success
        → (rest ≡ success → P)
        → (rc ≡ success) × P
    both success rest h f = (refl, f h)
    both not_found rest h f = absurd (ground arith)
    both (failure code) rest h f = absurd (ground arith)

-- A run that completes has passed the test.
abbrev pub Completes : Outcome → Option Ready → List Ready → Type 0
Completes o here doers = o ≡ completes here doers

pub or_exit-inv :
    (rc : Rc) (o : Outcome) {here : Option Ready} {doers : List Ready}
    → Completes (or_exit rc o) here doers
    → (rc ≡ success) × Completes o here doers
or_exit-inv success o h = (refl, h)
or_exit-inv not_found o h = absurd (ground arith)
or_exit-inv (failure code) o h = absurd (ground arith)

pub or_return-inv :
    (rc : Rc) (o : Outcome) {here : Option Ready} {doers : List Ready}
    → Completes (or_return rc o) here doers
    → (rc ≡ success) × Completes o here doers
or_return-inv success o h = (refl, h)
or_return-inv not_found o h = absurd (ground arith)
or_return-inv (failure code) o h = absurd (ground arith)

pub given-append :
    (xs ys : List Ready) (b : Benchmark) → given (xs ++ ys) b ≡ (given xs b || given ys b)
given-append [] ys b = refl
given-append (x ∷ xs) ys b = rw (given-append xs ys b) (assoc (x.benchmask b) _ _)
  where
    assoc : (p q r : Bool) → (p || (q || r)) ≡ ((p || q) || r)
    assoc p q r = ground arith

given-within :
    (separate : Bool) (set : Mask) (ds : List Ready) (b : Benchmark)
    → MasksOf separate set ds
    → given ds b ≡ true
    → set b ≡ true
given-within separate set [] b masks h = absurd (ground arith)
given-within separate set (d ∷ ds) b masks h = elim (Bool-cases (d.benchmask b)) [
  | inl on ↦ masks.0.1 b on
  | inr off ↦ given-within separate set ds b masks.1 (rw off at h)
]

pub some_bit-none : (r : Mask) → some_bit r ≡ false → (b : Benchmark) → r b ≡ false
some_bit-none r h b = ground arith

-- Equal truth values.
same_truth : (p q : Bool) → (p ≡ true → q ≡ true) → (q ≡ true → p ≡ true) → p ≡ q
same_truth p q f g = ground arith

module _ (sector_start : ℕ → ℕ → ℕ → ℕ) (g : Globals) (vsize : ℕ) (separate : Bool) where
  -- The benchmarks of a set: left in the rotator or given to some doer.
  pub spread-exact :
      (set : Mask) (answer : ℕ → Spawn) (n nth key_space : ℕ)
      → let r =
          ia_spread sector_start g vsize separate set
            (spawns answer (at_least_0 (threads_for set n)))
            (record { nth = nth; rotator = set; key_space = key_space; doers = [] }) in
        r.0 ≡ success → (b : Benchmark) → (r.1.rotator b || given r.1.doers b) ≡ set b
  unfolding ia_spread spawns
  spread-exact set answer n nth key_space ok b = elim (Bool-cases (some_bit set)) [
    | inr none_set ↦ rw none_set (or_false (set b))
    | inl asked ↦
        let (covered, within, masks) =
          spread-covers sector_start g vsize separate set
            (spawns answer (at_least_0 (threads_for set n))) nth key_space asked ok in
        same_truth _ _
          (λ h. elim (Bool-cases (left b)) [
            | inl stays ↦ within b stays
            | inr gone ↦ given-within separate set doers b masks (rw gone at h)
          ])
          (λ h. elim (covered b h) [
            | inl stays ↦ rw stays refl
            | inr runs ↦ rw runs (or_true (left b))
          ])
  ]
    where
      or_false : (x : Bool) → (x || false) ≡ x
      or_false x = ground arith

      or_true : (x : Bool) → (x || true) ≡ true
      or_true x = ground arith

      after : Spread
      after =
          (ia_spread sector_start g vsize separate set
            (spawns answer (at_least_0 (threads_for set n)))
            (record { nth = nth; rotator = set; key_space = key_space; doers = [] })).1

      left : Mask
      left = after.rotator

      doers : List Ready
      doers = after.doers

abbrev here_of : Option Ready → Outcome → Option Ready
here_of o (returns rc) = o
here_of o exits = o
here_of o aborts = o
here_of o uneven = o
here_of o (completes here doers) = here

abbrev doers_of : List Ready → Outcome → List Ready
doers_of ds (returns rc) = ds
doers_of ds exits = ds
doers_of ds aborts = ds
doers_of ds uneven = ds
doers_of ds (completes here doers) = doers

-- What completing says of the last part of a run: who the doers are, and that all of them succeed.
pub record Closes (q : Calls) (asked : Mask) (threads ds : List Ready) (here : Option Ready)
    : Type 0 where
  pub closes_with : ds ≡ threads
  pub closes_given : (b : Benchmark) → given (everyone here ds) b ≡ (asked b || given threads b)
  pub closes_well : AllFulfil q.fulfil (everyone here ds)

after_checkpoint-inv :
    (r : State.Outcome (Verdict × Global)) (o : Outcome) {here : Option Ready} {doers : List Ready}
    → Completes (after_checkpoint r o) here doers
    → Completes o here doers
after_checkpoint-inv (State.returned r) o h = h
after_checkpoint-inv State.fatal o h = absurd (ground arith)
after_checkpoint-inv State.stuck o h = absurd (ground arith)

together-inv :
    (count : ℕ) (threads : List Ready) (o : Outcome) {here : Option Ready} {doers : List Ready}
    → Completes (together count threads o) here doers
    → Completes o here doers
together-inv count threads o h = elim (Bool-cases (count == length threads + 1)) [
  | inl even ↦ rw even at h
  | inr odd ↦ absurd (never (rw odd at h))
]
  where
    never : {here' : Option Ready} {doers' : List Ready} → uneven ≡ completes here' doers' → ⊥
    never e = ground arith

-- The last part of a run.
run_end-inv :
    (q : Calls) (o here : Option Ready) (threads doers : List Ready)
    → Completes (run_end q o threads) here doers
    → (failed_after q.fulfil threads ≡ success) × Completes (completes o threads) here doers
unfolding run_end
run_end-inv q o here threads doers h =
    let (others, ended) = or_exit-inv (failed_after q.fulfil threads) _ h in
    (others, after_checkpoint-inv (ia_histogram_checkpoint q.clock 0 q.globals) _ ended)

pub run_main-Closes :
    (q : Calls) (asked : Mask) (count : ℕ) (o : Option Ready) (threads ds : List Ready)
    (here : Option Ready)
    → ((d : Ready) → o ≡ some d → d.benchmask ≡ asked)
    → Completes (run_main q count o threads) here ds
    → Closes q asked threads ds here
unfolding run_main
run_main-Closes q asked count none threads ds here mask h = absurd (ground arith)
run_main-Closes q asked count (some d) threads ds here mask h =
    let (_, h1) = or_exit-inv q.rusage_start _ h in
    let (well, h2) = or_exit-inv (q.fulfil d) _ (together-inv count threads _ h1) in
    let (_, h3) = or_exit-inv q.rusage_fihish _ h2 in
    let (others, h4) = run_end-inv q (some d) here threads ds h3 in
    let same : some d ≡ here = ap (here_of here) h4 in
    let all : threads ≡ ds = ap (doers_of ds) h4 in
    subst (λ o'. Closes q asked threads ds o') same
      (subst (λ l. Closes q asked threads l (some d)) all
        (record {
          closes_with = refl;
          closes_given = λ b. ap (λ m. m b || given threads b) (mask d refl);
          closes_well = (well, failed_after-AllFulfil q.fulfil threads others);
        }))

pub run_waiting-Closes :
    (q : Calls) (asked : Mask) (count : ℕ) (threads ds : List Ready) (here : Option Ready)
    → ((b : Benchmark) → asked b ≡ false)
    → Completes (run_waiting q count threads) here ds
    → Closes q asked threads ds here
unfolding run_waiting
run_waiting-Closes q asked count threads ds here none_left h =
    let (_, h1) = or_exit-inv q.rusage_start _ h in
    let (_, h2) = or_exit-inv q.rusage_fihish _ (together-inv count threads _ h1) in
    let (others, h3) = run_end-inv q none here threads ds h2 in
    let same : none ≡ here = ap (here_of here) h3 in
    let all : threads ≡ ds = ap (doers_of ds) h3 in
    subst (λ o'. Closes q asked threads ds o') same
      (subst (λ l. Closes q asked threads l none) all
        (record {
          closes_with = refl;
          closes_given = λ b. rw (none_left b) refl;
          closes_well = failed_after-AllFulfil q.fulfil threads others;
        }))
