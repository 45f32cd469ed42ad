-- ===== src/Doer/Run.antt =====
-- `ia_run_benchmark` of src/ia_benchmark.c: the rounds, from `ia_histogram_reset` to
-- `ia_histogram_merge`.
use ioarena.Base.{ℕ, zero, suc, Bool, true, false, ltb}
use ioarena.Bench.{Benchmark}
use ioarena.Kv.Fill.{Globals, Run, done, running, ◌>>=◌}
use ioarena.Doer.Driver.{Rc, success, not_found, failure, Driver, Conf, Call, Doer, note}
use ioarena.Doer.Turn.{Turn, bailout, again, turn_single, turn_crud, turn_batch, turn_iterate}

module _ {Ctx : Type 0} (driver : Driver Ctx) (conf : Conf) (g : Globals) (allocated : Bool) where
  -- switch (bench)
  unfoldable pub turn : Benchmark → (i : ℕ) → Doer Ctx → Run (Turn × Doer Ctx)
  turn Benchmark.ia_set i d = turn_single driver conf g Benchmark.ia_set i d
  turn Benchmark.ia_delete i d = turn_single driver conf g Benchmark.ia_delete i d
  turn Benchmark.ia_get i d = turn_single driver conf g Benchmark.ia_get i d
  turn Benchmark.ia_crud i d = turn_crud driver conf g i d
  turn Benchmark.ia_batch i d = turn_batch driver conf g allocated i d
  turn Benchmark.ia_iterate i d = turn_iterate driver conf g i d

  -- for (i = 0; rc == 0 && i < count;), from what the round before has left on
  unfoldable pub run_loop : Benchmark → (fuel : ℕ) → Turn → Doer Ctx → Run (Rc × Doer Ctx)
  run_loop b fuel (bailout rc) d = done (rc, d)
  run_loop b fuel (again not_found i) d = done (not_found, d)
  run_loop b fuel (again (failure code) i) d = done (failure code, d)
  run_loop b zero (again success i) d = elim (ltb i conf.count) [
    | true ↦ running
    | false ↦ done (success, d)
  ]
  run_loop b (suc fuel) (again success i) d = elim (ltb i conf.count) [
    | true ↦ turn b i d >>= λ r. run_loop b fuel r.0 r.1
    | false ↦ done (success, d)
  ]

  -- Each round raises `i` or ends the loop, so `count` rounds are enough.
  unfoldable pub ia_run_benchmark : Benchmark → Doer Ctx → Run (Rc × Doer Ctx)
  ia_run_benchmark b d =
      run_loop b conf.count (again success 0) (note (Call.call_reset b) d) >>= λ r.
      done (r.0, note Call.call_merge r.1)
