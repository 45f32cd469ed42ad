-- ===== src/Doer/Succeeds.antt =====
-- Which drivers let a benchmark of src/ia_benchmark.c run to its end.
use ioarena.Base.{
  ℕ, zero, suc, ◌+◌, ◌≤◌, ◌≡◌, inl, inr, refl, sym, ◌∙◌, ap, Bool, false, not, Bool-cases, ltb,
  arith,
}
use ioarena.Bench.{Benchmark}
use ioarena.Kv.Fill.{Globals, Run, done, running, overflow}
use ioarena.Kv.Gen.{IaKv, advance}
use ioarena.Kv.Pool.Serve.{IsServable, kvgen_get_returns}
use ioarena.Doer.Driver.{Rc, success, Driver, Conf, Call, Doer, note, begin, next, finish, forgive}
use ioarena.Doer.Turn.{again, is_set, single_ops, turn_single}
use ioarena.Doer.Run.{turn, run_loop, ia_run_benchmark}
use ioarena.Doer.Single.{IsSingle, Recorded, single_ops-Recorded}
use ioarena.Doer.Ends.{turn-eq-single, run_benchmark-Recorded}

-- `begin` and `done` succeed, and `next` does or, where that is ignored, finds no key.
pub record Works {Ctx : Type 0} (driver : Driver Ctx) (conf : Conf) (b : Benchmark) : Type 0 where
  pub begins : (c : Ctx) → (driver.begin c b).0 ≡ success
  pub finishes : (c : Ctx) → (driver.finish c b).0 ≡ success
  pub serves : (c : Ctx) (kv : IaKv) → forgive conf (driver.next c b kv).0 ≡ success

done_injective {ℓ} : {A : Type ℓ} (x y : A) → done x ≡ done y → x ≡ y
done_injective {A = A} x y e = ap result e
  where
    result : Run A → A
    result (done r) = r
    result overflow = x
    result running = x

module _ {Ctx : Type 0} (driver : Driver Ctx) (conf : Conf) (g : Globals) where
  single_ops-again :
      (b : Benchmark) (i : ℕ) (a : IaKv) (d : Doer Ctx)
      → Works driver conf b
      → (single_ops driver conf g b i a d).0 ≡ again success (i + 1)
  unfolding single_ops begin next finish
  single_ops-again b i a d w = rw (w.begins d.ctx) (rw (w.serves _ a) (rw (w.finishes _) refl))

  turn_single-again :
      (b : Benchmark) (i : ℕ) (d : Doer Ctx)
      → IsServable g (d.gen_a).vsize
      → Works driver conf b
      → (d' : Doer Ctx) × (turn_single driver conf g b i d ≡ done (again success (i + 1), d'))
        × ((d'.gen_a).vsize ≡ (d.gen_a).vsize)
  unfolding turn_single
  turn_single-again b i d s w =
      let (kv, e) = kvgen_get_returns g d.gen_a (not (is_set b)) s in
      let served : Doer Ctx = record d { gen_a = advance g d.gen_a } in
      let r : Recorded 1 1 1 served (single_ops driver conf g b i kv served).1 =
        single_ops-Recorded driver conf g b i kv served in
      (
        (single_ops driver conf g b i kv served).1,
        rw e (
            ap (λ t. done (t, (single_ops driver conf g b i kv served).1))
              (single_ops-again b i kv served w)),
        r.size,
      )

  run_loop-succeeds :
      (allocated : Bool) (b : Benchmark) (fuel i : ℕ) (d : Doer Ctx)
      → IsSingle b
      → IsServable g (d.gen_a).vsize
      → Works driver conf b
      → conf.count ≤ i + fuel
      → (d' : Doer Ctx) × (run_loop driver conf g allocated b fuel (again success i) d
          ≡ done (success, d'))
  unfolding run_loop
  run_loop-succeeds allocated b zero i d single s w enough =
      let full : ltb i conf.count ≡ false = ground arith in (d, rw (full, run_loop) refl)
  run_loop-succeeds allocated b (suc fuel) i d single s w enough =
      elim (Bool-cases (ltb i conf.count)) [
        | inr full ↦ (d, rw (full, run_loop) refl)
        | inl more ↦
            let (d1, e, size) = turn_single-again b i d s w in
            let s1 : IsServable g (d1.gen_a).vsize = rw size s in
            let (d', rest) =
              run_loop-succeeds allocated b fuel (i + 1) d1 single s1 w (omega arith) in
            let turned : turn driver conf g allocated b i d ≡ done (again success (i + 1), d1) =
              turn-eq-single driver conf g allocated b i d single ∙ e in
            (d', rw (more, run_loop) (rw turned rest))
      ]

  -- For a benchmark that sets, deletes or gets, key and value sizes that the generator can fill, and a
  -- driver whose `begin` and `done` succeed and whose `next` succeeds or, with `ignore_keynotfound`,
  -- finds no key, `ia_run_benchmark` returns 0 and has measured exactly `count` operations, each with
  -- one `begin` and one `done`.
  pub run_benchmark-succeeds :
      (allocated : Bool) (b : Benchmark) (d : Doer Ctx)
      → IsSingle b
      → IsServable g (d.gen_a).vsize
      → Works driver conf b
      → (d' : Doer Ctx) × (ia_run_benchmark driver conf g allocated b d ≡ done (success, d'))
        × Recorded conf.count conf.count conf.count d d'
  unfolding ia_run_benchmark
  run_benchmark-succeeds allocated b d single s w =
      let (d1, e1) =
        run_loop-succeeds allocated b conf.count 0 (note (Call.call_reset b) d) single s w
          (omega arith) in
      let ended : Doer Ctx = note Call.call_merge d1 in
      let succeeded : ia_run_benchmark driver conf g allocated b d ≡ done (success, ended) =
        rw e1 refl in
      let (rc, d', n, e, r, within, full) =
        run_benchmark-Recorded driver conf g allocated b d single s in
      let same : Path (Run (Rc × Doer Ctx)) (done (success, ended)) (done (rc, d')) =
        sym succeeded ∙ e in
      let both : Path (Rc × Doer Ctx) (success, ended) (rc, d') =
        done_injective (success, ended) (rc, d') same in
      let ok : success ≡ rc = ap (λ p. p.0) both in
      let at : ended ≡ d' = ap (λ p. p.1) both in
      let n_is : n ≡ conf.count = full (sym ok) in (ended, succeeded, rw (n_is, sym at) at r)
