-- ===== src/Doer/Ends.antt =====
-- How the single-operation benchmarks of src/ia_benchmark.c end, and what they record.
use ioarena.Base.{
  ℕ, zero, suc, ◌+◌, ◌≤◌, ◌<◌, ◌≡◌, ◌≢◌, inl, inr, refl, ◌∙◌, Bool, false, Bool-cases, ltb, arith,
}
use ioarena.Bench.{Benchmark}
use ioarena.Kv.Fill.{Globals, Run, done}
use ioarena.Kv.Pool.Serve.{IsServable}
use ioarena.Doer.Driver.{Rc, success, Driver, Conf, Call, Doer, note}
use ioarena.Doer.Turn.{again, turn_single}
use ioarena.Doer.Single.{IsSingle, Recorded, Recorded-then, turn_single-Recorded}
use ioarena.Doer.Run.{turn, run_loop, ia_run_benchmark}

module _ {Ctx : Type 0} (driver : Driver Ctx) (conf : Conf) (g : Globals) where
  pub turn-eq-single :
      (allocated : Bool) (b : Benchmark) (i : ℕ) (d : Doer Ctx)
      → IsSingle b
      → turn driver conf g allocated b i d ≡ turn_single driver conf g b i d
  unfolding turn
  turn-eq-single allocated Benchmark.ia_set i d single = refl
  turn-eq-single allocated Benchmark.ia_delete i d single = refl
  turn-eq-single allocated Benchmark.ia_get i d single = refl
  turn-eq-single allocated Benchmark.ia_batch i d single = elim single [ ]
  turn-eq-single allocated Benchmark.ia_crud i d single = elim single [ ]
  turn-eq-single allocated Benchmark.ia_iterate i d single = elim single [ ]

  -- What the rounds from `i` on come to.
  pub Finishes : (i : ℕ) → Doer Ctx → Run (Rc × Doer Ctx) → Type 0
  Finishes i d r =
      (rc : Rc) × (d' : Doer Ctx) × (n : ℕ) × (r ≡ done (rc, d'))
      × Recorded n n n d d'
      × (i + n ≤ conf.count)
      × (rc ≡ success → i + n ≡ conf.count)

  loop_over : (i : ℕ) (d : Doer Ctx) → i ≡ conf.count → Finishes i d (done (success, d))
  unfolding Finishes
  loop_over i d met = (
    success,
    d,
    0,
    refl,
    record { begun = omega arith; ended = omega arith; added = omega arith; size = refl },
    omega arith,
    λ ok. omega arith,
  )

  one_more :
      (i : ℕ) (d d1 : Doer Ctx) (r : Run (Rc × Doer Ctx))
      → Recorded 1 1 1 d d1
      → Finishes (i + 1) d1 r
      → Finishes i d r
  unfolding Finishes
  one_more i d d1 r first (rc, d2, n, e, rest, within, full) = (
    rc,
    d2,
    1 + n,
    e,
    Recorded-then 1 1 1 n n n d d1 d2 first rest,
    omega (arith, within),
    λ ok. omega (arith, full ok),
  )

  stopped :
      (i : ℕ) (d d1 : Doer Ctx) (rc : Rc)
      → i < conf.count
      → rc ≢ success
      → Recorded 1 1 1 d d1
      → Finishes i d (done (rc, d1))
  unfolding Finishes
  stopped i d d1 rc below failed first =
      (rc, d1, 1, refl, first, omega arith, λ ok. absurd (failed ok))

  run_loop-Finishes :
      (allocated : Bool) (b : Benchmark) (fuel i : ℕ) (d : Doer Ctx)
      → IsSingle b
      → IsServable g (d.gen_a).vsize
      → i ≤ conf.count
      → conf.count ≤ i + fuel
      → Finishes i d (run_loop driver conf g allocated b fuel (again success i) d)
  unfolding run_loop
  run_loop-Finishes allocated b zero i d single s below enough =
      let full : ltb i conf.count ≡ false = ground arith in
      rw (full, run_loop) (loop_over i d (omega arith))
  run_loop-Finishes allocated b (suc fuel) i d single s below enough =
      elim (Bool-cases (ltb i conf.count)) [
        | inr full ↦ rw (full, run_loop) (loop_over i d (ground arith))
        | inl more ↦
            let lower : i < conf.count = ground arith in
            let (t, d1, e, first, way) = turn_single-Recorded driver conf g b i d s in
            let turned : turn driver conf g allocated b i d ≡ done (t, d1) =
              turn-eq-single allocated b i d single ∙ e in
            elim way [
              | inl on ↦
                  let s1 : IsServable g (d1.gen_a).vsize = rw first.size s in
                  rw (more, run_loop)
                    (rw turned (
                      rw on (
                        one_more i d d1
                          (run_loop driver conf g allocated b fuel (again success (i + 1)) d1) first
                          (run_loop-Finishes allocated b fuel (i + 1) d1 single s1 (omega arith)
                            (omega arith)))))
              | inr off ↦
                  let (rc, left, failed) = off in
                  rw (more, run_loop)
                    (rw turned (rw (left, run_loop) (stopped i d d1 rc lower failed first)))
            ]
      ]

  -- For a benchmark that sets, deletes or gets, key and value sizes that the generator can fill, and
  -- any driver, `ia_run_benchmark` returns. It has called the driver's `begin`, the driver's `done`
  -- and `ia_histogram_add` equally often, at most `count` times, and `count` times if it returns 0.
  pub run_benchmark-Recorded :
      (allocated : Bool) (b : Benchmark) (d : Doer Ctx)
      → IsSingle b
      → IsServable g (d.gen_a).vsize
      → (rc : Rc) × (d' : Doer Ctx) × (n : ℕ) × (ia_run_benchmark driver conf g allocated b d
          ≡ done (rc, d'))
        × Recorded n n n d d'
        × (n ≤ conf.count)
        × (rc ≡ success → n ≡ conf.count)
  unfolding ia_run_benchmark Finishes
  run_benchmark-Recorded allocated b d single s =
      let (rc, d', n, e, r, within, full) =
        run_loop-Finishes allocated b conf.count 0 (note (Call.call_reset b) d) single s
          (omega arith) (omega arith) in
      (
        rc,
        note Call.call_merge d',
        n,
        rw e refl,
        record { begun = r.begun; ended = r.ended; added = r.added; size = r.size },
        omega (arith, within),
        λ ok. omega (arith, full ok),
      )
