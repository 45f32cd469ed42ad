-- ===== src/Doer/Fulfil/Completes.antt =====
-- A doer of src/ia_benchmark.c that meets no error completes its passes.
use ioarena.Base.{
  ℕ, zero, suc, ◌+◌, ◌*◌, ◌≤◌, ◌<◌, ◌≡◌, refl, sym, ap, ◌∙◌, inl, inr, arith, Bool, true, false,
  Bool-cases, some, List, [], ◌∷◌, ◌==◌, if◌then◌else◌,
}
use ioarena.Bench.{Benchmark}
use ioarena.Kv.Fill.{Globals, Run, done}
use ioarena.Kv.Pool.Serve.{IsServable}
use ioarena.Doer.Driver.{Rc, success, Driver, Conf, Doer}
use ioarena.Doer.Single.{IsSingle, Recorded, Recorded-then}
use ioarena.Doer.Succeeds.{Works, run_benchmark-succeeds}
use ioarena.Doer.Masks.{Mask, all_benchmarks}
use ioarena.Doer.Fulfil.{
  Passes, Fulfilled, Threads, bench_loop, goes_on, raise, pass_loop, give_options, fulfil_with,
  ia_doer_fulfil, fulfil_made,
}

-- The operations of one pass.
abbrev pub work : (count : ℕ) → Mask → List Benchmark → ℕ
work count mask [] = 0
work count mask (b ∷ bs) = let rest = work count mask bs in if mask b then count + rest else rest

module _ {Ctx : Type 0} (driver : Driver Ctx) (conf : Conf) (g : Globals) (allocated : Bool)
    (mask : Mask) where
  -- The driver and the sizes let each benchmark of the mask run to its end.
  abbrev pub Serves : Type 0
  Serves = (b : Benchmark) → mask b ≡ true → IsSingle b × Works driver conf b

  bench_loop-succeeds :
      (bs : List Benchmark) (d : Doer Ctx)
      → Serves
      → IsServable g (d.gen_a).vsize
      → let n = work conf.count mask bs in
        (d' : Doer Ctx) × (bench_loop driver conf g allocated bs mask success d
          ≡ done (success, d'))
        × Recorded n n n d d'
  unfolding bench_loop
  bench_loop-succeeds [] d w s = (
    d,
    refl,
    record { begun = omega arith; ended = omega arith; added = omega arith; size = refl },
  )
  bench_loop-succeeds (b ∷ bs) d w s = elim (Bool-cases (mask b)) [
    | inr off ↦
        let (d', e, r) = bench_loop-succeeds bs d w s in (d', rw (off, bench_loop) e, rw off r)
    | inl on ↦
        let (single, works) = w b on in
        let (d1, e1, r1) = run_benchmark-succeeds driver conf g allocated b d single s works in
        let (d', e, r) = bench_loop-succeeds bs d1 w (rw r1.size s) in
        (d', rw (on, bench_loop) (rw e1 e), rw on (Recorded-then _ _ _ _ _ _ d d1 d' r1 r))
  ]

  goes :
      (p : Passes) (count : ℕ) → count < p.nrepeat → goes_on driver conf g allocated p count ≡ true
  goes p count h = ground arith

  stops :
      (p : Passes) (count : ℕ)
      → p.continuous_completing ≡ false
      → p.nrepeat ≤ count
      → goes_on driver conf g allocated p count ≡ false
  stops p count once h = ground arith

  raised_once :
      (p : Passes) (count raised fuel : ℕ)
      → p.nrepeat ≡ count + suc fuel
      → (if fuel == 0
          then raise driver conf g allocated p count raised
          else raise driver conf g allocated p count raised + 1)
        ≡ (if suc fuel == 0 then raised else raised + 1)
  raised_once p count raised fuel h = ground arith

  one_more : (fuel w : ℕ) → w + fuel * w ≡ suc fuel * w
  one_more fuel w = omega arith

  pass_step :
      (fuel count raised : ℕ) (p : Passes) (d d1 : Doer Ctx)
      → goes_on driver conf g allocated p count ≡ true
      → bench_loop driver conf g allocated all_benchmarks mask success d ≡ done (success, d1)
      → p.others_failed (count + 1) ≡ false
      → pass_loop driver conf g allocated (suc fuel) p mask count raised d
        ≡ pass_loop driver conf g allocated fuel p mask
            (count + 1)
            (raise driver conf g allocated p count raised)
            d1
  unfolding pass_loop
  pass_step fuel count raised p d d1 more e fine =
      let up = raise driver conf g allocated p count raised in
      rw (more, pass_loop)
        (rw e (
          ap
            (λ t. elim t as (λ x. Run (Rc × ℕ × Doer Ctx)) [
              | true ↦ done (success, up, d1)
              | false ↦ pass_loop driver conf g allocated fuel p mask (count + 1) up d1
            ])
            fine))

  pass_loop-completes :
      (fuel count raised : ℕ) (p : Passes) (d : Doer Ctx)
      → p.continuous_completing ≡ false
      → ((n : ℕ) → p.others_failed n ≡ false)
      → Serves
      → IsServable g (d.gen_a).vsize
      → p.nrepeat ≡ count + fuel
      → let n = fuel * work conf.count mask all_benchmarks in
        (d' : Doer Ctx) × (raised' : ℕ) × (pass_loop driver conf g allocated fuel p mask count
            raised d
          ≡ done (success, raised', d'))
        × (raised' ≡ (if fuel == 0 then raised else raised + 1))
        × Recorded n n n d d'
  unfolding pass_loop
  pass_loop-completes zero count raised p d once fine w s enough = (
    d,
    raised,
    rw (stops p count once (omega arith), pass_loop) refl,
    refl,
    record { begun = omega arith; ended = omega arith; added = omega arith; size = refl },
  )
  pass_loop-completes (suc fuel) count raised p d once fine w s enough =
      let (d1, e1, r1) = bench_loop-succeeds all_benchmarks d w s in
      let (d', raised', e, up, r) =
        pass_loop-completes fuel (count + 1) (raise driver conf g allocated p count raised) p d1
          once fine w (rw r1.size s) (omega arith) in
      (
        d',
        raised',
        pass_step fuel count raised p d d1 (goes p count (omega arith)) e1 (fine (count + 1)) ∙ e,
        up ∙ raised_once p count raised fuel enough,
        rw (sym (one_more fuel (work conf.count mask all_benchmarks)))
            (Recorded-then _ _ _ _ _ _ d d1 d' r1 r),
      )

  options_given :
      (t : Threads Ctx)
      → ((x : Ctx) (arg : List ℕ) → (t.option x arg).0 ≡ success)
      → (drv_opts : List (List ℕ)) (c : Ctx)
      → (c' : Ctx) × (give_options driver conf g allocated t drv_opts c ≡ (true, c'))
  unfolding give_options
  options_given t takes [] c = (c, refl)
  options_given t takes (arg ∷ args) c =
      let (c', e) = options_given t takes args (t.option c arg).1 in
      (c', rw (takes c arg, give_options) e)

  fulfilled :
      (p : Passes) (t : Threads Ctx) (m : Mask) (d : Doer Ctx) (c : Ctx) (r : Rc × ℕ × Doer Ctx)
      → pass_loop driver conf g allocated p.nrepeat p m 0 0 (record d { ctx = c }) ≡ done r
      → fulfil_with driver conf g allocated p.nrepeat p t m d (true, c)
        ≡ done (record {
          rc = r.0;
          raised = r.1;
          doer = record r.2 { ctx = t.thread_dispose (r.2).ctx };
          disposed = true;
        })
  unfolding fulfil_with
  fulfilled p t m d c r e = rw e refl

  -- A doer whose driver makes it a context and takes every option, with key and value sizes that the
  -- generator can fill, a mask of benchmarks that set, delete or get, all of which the driver serves,
  -- no other doer that fails, and passes that are not to go on until the others are done:
  -- `ia_doer_fulfil` returns 0 after exactly `nrepeat` passes, in which it has measured `nrepeat` times
  -- `count` operations for each benchmark of the mask; it has raised `doers_done` once, or not at all
  -- where `nrepeat` is 0, and has disposed of its context.
  pub doer_fulfil-completes :
      (p : Passes) (t : Threads Ctx) (c : Ctx) (drv_opts : List (List ℕ)) (d : Doer Ctx)
      → t.thread_new ≡ some c
      → ((x : Ctx) (arg : List ℕ) → (t.option x arg).0 ≡ success)
      → p.continuous_completing ≡ false
      → ((n : ℕ) → p.others_failed n ≡ false)
      → Serves
      → IsServable g (d.gen_a).vsize
      → let n = p.nrepeat * work conf.count mask all_benchmarks in
        (f : Fulfilled Ctx) × (ia_doer_fulfil driver conf g allocated p.nrepeat p t drv_opts mask d
          ≡ done f)
        × (f.rc ≡ success)
        × (f.raised ≡ (if p.nrepeat == 0 then 0 else 1))
        × (f.disposed ≡ true)
        × Recorded n n n d f.doer
  unfolding ia_doer_fulfil fulfil_made
  doer_fulfil-completes p t c drv_opts d made takes once fine w s =
      let (c', given) = options_given t takes drv_opts c in
      let (d', raised, e, up, r) =
        pass_loop-completes p.nrepeat 0 0 p (record d { ctx = c' }) once fine w s (omega arith) in
      (
        record {
          rc = success;
          raised = raised;
          doer = record d' { ctx = t.thread_dispose (d').ctx };
          disposed = true;
        },
        ap (fulfil_made driver conf g allocated p.nrepeat p t drv_opts mask d) made
            ∙ ap (fulfil_with driver conf g allocated p.nrepeat p t mask d) given
            ∙ fulfilled p t mask d c' _ e,
        refl,
        up,
        refl,
        record { begun = r.begun; ended = r.ended; added = r.added; size = r.size },
      )
