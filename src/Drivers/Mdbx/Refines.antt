-- ===== src/Drivers/Mdbx/Refines.antt =====
-- src/drivers/ia_mdbx.c behaves like a table of keys and values.
use ioarena.Base.{◌≡◌, ◌≢◌, sym, Bool}
use mathlib.Core.Path.{subst}
use ioarena.Bench.{Benchmark}
use ioarena.Kv.Gen.{IaKv}
use ioarena.Kv.Fill.{Globals}
use ioarena.Doer.Driver.{Rc, success, Conf, Doer}
use ioarena.Doer.Run.{ia_run_benchmark}
use ioarena.Doer.Simulate.{Simulation, Agree, BothRun}
use ioarena.Doer.Simulate.Runs.{EndAgree, run_benchmark-simulates}
use ioarena.Drivers.Lmdb.{mdb_success, LmdbContext}
use ioarena.Drivers.Mdbx.{MdbxEngine, ia_mdbx}
use ioarena.Drivers.Mdbx.Calls.{begin-same, done-same, next-same}
use ioarena.Drivers.Store.{Store, store_driver, store_next}
use ioarena.Drivers.Store.Engine.{IsStore}
use ioarena.Drivers.Store.Refines.{Holds, Serving, begin-Serving, next-Serving, finish-Serving}

module _ {S : Type 0} (e : MdbxEngine S) (l : IsStore e.calls)
    (aborts : (s : S) → e.abort_rc s ≡ mdb_success)
    (resets : (s : S) → e.reset_rc s ≡ mdb_success) where
  -- The driver over such an engine, against the table.
  abbrev pub mdbx_simulation :
      (b : Benchmark) → b ≢ Benchmark.ia_iterate → Simulation (ia_mdbx e) store_driver b
  mdbx_simulation b ne = record {
    Idle = Holds e.calls l;
    Open = Serving e.calls l b;
    begins = λ c m h.
        subst
          (λ (r : Rc × LmdbContext S).
            (r.0 ≡ success) × (success ≡ success) × Serving e.calls l b r.1 m)
          (sym (begin-same e c b aborts)) (begin-Serving e.calls l b ne c m h);
    nexts = λ c m op kv does h.
        subst
          (λ (r : Rc × IaKv × LmdbContext S).
            (r.0 ≡ (store_next m op kv).0)
            × (r.1 ≡ (store_next m op kv).1)
            × Serving e.calls l b r.2 (store_next m op kv).2)
          (sym (next-same e c op kv)) (next-Serving e.calls l b op c m kv does h);
    finishes = λ c m h.
        subst (λ (r : Rc × LmdbContext S). (r.0 ≡ success) × Holds e.calls l r.1 m)
          (sym (done-same e c b resets)) (finish-Serving e.calls l b c m h);
  }

  -- For a benchmark other than iterate, `ia_run_benchmark` on src/drivers/ia_mdbx.c behaves as on a
  -- table, where the engine begins, puts, commits, aborts and resets without errors, holds the table's
  -- keys and values at the start and has nothing uncommitted: both runs return or neither does, with
  -- equal codes, the same calls in the same order and the same generators, and then again the engine
  -- holds the table's keys and values.
  pub mdbx_refines-store :
      (conf : Conf) (g : Globals) (allocated : Bool) (b : Benchmark) (ne : b ≢ Benchmark.ia_iterate)
      → (c : Doer (LmdbContext S)) (d : Doer Store) → Agree (Holds e.calls l) c d
      → BothRun
          (EndAgree (mdbx_simulation b ne) conf g allocated)
          (ia_run_benchmark (ia_mdbx e) conf g allocated b c)
          (ia_run_benchmark store_driver conf g allocated b d)
  mdbx_refines-store conf g allocated b ne c d h =
      run_benchmark-simulates (mdbx_simulation b ne) conf g allocated c d ne h
