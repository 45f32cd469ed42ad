-- ===== src/Drivers/Unqlite/Refines.antt =====
-- src/drivers/ia_unqlite.c behaves like a table of keys and values.
use ioarena.Base.{ℕ, ◌≡◌, ◌≢◌, refl, ◌∙◌, ap, arith, Option, none, some, List, Bool}
use ioarena.Bench.{Benchmark}
use ioarena.Kv.Gen.{IaKv}
use ioarena.Kv.Fill.{Globals}
use ioarena.Doer.Driver.{success, Conf, Doer}
use ioarena.Doer.Run.{ia_run_benchmark}
use ioarena.Doer.Simulate.{Does, Simulation, Agree, BothRun}
use ioarena.Doer.Simulate.Runs.{EndAgree, run_benchmark-simulates}
use ioarena.Drivers.Lmdb.{value_bytes}
use ioarena.Drivers.Store.{Store, store_driver, found_or_not, assign, unassign, store_next}
use ioarena.Drivers.Unqlite.{
  Unq, unq_ok, unq_notfound, UnqEngine, UnqContext, unq_rc, unq_enoent, ia_unqlite,
  ia_unqlite_begin, ia_unqlite_next, ia_unqlite_done,
}

abbrev pub unq_answer : Option (List ℕ) → Unq
unq_answer none = unq_notfound
unq_answer (some v) = unq_ok

-- An engine that holds a table and meets no errors; what is written is seen before the commit too.
pub record IsUnqTable {S : Type 0} (e : UnqEngine S) : Type 0 where
  pub contents : S → Store
  pub begins : (s : S) → ((e.begin_txn s).0 ≡ unq_ok) × (contents (e.begin_txn s).1 ≡ contents s)
  pub commits : (s : S) → ((e.commit s).0 ≡ unq_ok) × (contents (e.commit s).1 ≡ contents s)
  pub stores :
      (k v : List ℕ) (s : S)
      → ((e.store k v s).0 ≡ unq_ok) × (contents (e.store k v s).1 ≡ assign k v (contents s))
  pub removes :
      (k : List ℕ) (s : S)
      → ((e.remove k s).0 ≡ unq_answer (contents s k))
        × (contents (e.remove k s).1 ≡ unassign k (contents s))
  pub fetches :
      (k : List ℕ) (s : S)
      → ((e.fetch k s).0 ≡ unq_answer (contents s k)) × (contents (e.fetch k s).1 ≡ contents s)

answer-rc : (o : Option (List ℕ)) → unq_enoent (unq_answer o) ≡ found_or_not o
answer-rc none = refl
answer-rc (some v) = refl

module _ {S : Type 0} (e : UnqEngine S) (l : IsUnqTable e) where
  abbrev pub HoldsTable : UnqContext S → Store → Type 0
  HoldsTable c m = l.contents c.engine ≡ m

  pub begin-Holds :
      (b : Benchmark)
      → b ≢ Benchmark.ia_iterate
      → (c : UnqContext S) (m : Store) → HoldsTable c m
      → ((ia_unqlite_begin e c b).0 ≡ success)
        × (success ≡ success)
        × HoldsTable (ia_unqlite_begin e c b).1 m
  unfolding ia_unqlite_begin
  begin-Holds Benchmark.ia_get ne c m h = (refl, refl, h)
  begin-Holds Benchmark.ia_set ne c m h = (refl, refl, h)
  begin-Holds Benchmark.ia_delete ne c m h = (refl, refl, h)
  begin-Holds Benchmark.ia_crud ne c m h =
      let r = l.begins c.engine in (ap unq_rc r.0, refl, r.1 ∙ h)
  begin-Holds Benchmark.ia_batch ne c m h =
      let r = l.begins c.engine in (ap unq_rc r.0, refl, r.1 ∙ h)
  begin-Holds Benchmark.ia_iterate ne c m h = absurd (ne refl)

  pub next-Holds :
      (b : Benchmark) (c : UnqContext S) (m : Store) (op : Benchmark) (kv : IaKv)
      → Does b op
      → HoldsTable c m
      → ((ia_unqlite_next e c op kv).0 ≡ (store_next m op kv).0)
        × ((ia_unqlite_next e c op kv).1 ≡ (store_next m op kv).1)
        × HoldsTable (ia_unqlite_next e c op kv).2 (store_next m op kv).2
  unfolding ia_unqlite_next
  next-Holds b c m Benchmark.ia_set kv does h =
      let r = l.stores kv.k (value_bytes kv.v) c.engine in
      (ap unq_rc r.0, refl, r.1 ∙ ap (assign kv.k (value_bytes kv.v)) h)
  next-Holds b c m Benchmark.ia_delete kv does h =
      let r = l.removes kv.k c.engine in
      (
        ap unq_enoent r.0
            ∙ answer-rc (l.contents c.engine kv.k)
            ∙ ap (λ t. found_or_not (t kv.k)) h,
        refl,
        r.1 ∙ ap (unassign kv.k) h,
      )
  next-Holds b c m Benchmark.ia_get kv does h =
      let r = l.fetches kv.k c.engine in
      (
        ap unq_enoent r.0
            ∙ answer-rc (l.contents c.engine kv.k)
            ∙ ap (λ t. found_or_not (t kv.k)) h,
        refl,
        r.1 ∙ h,
      )
  next-Holds b c m Benchmark.ia_iterate kv does h = absurd (ground arith)
  next-Holds b c m Benchmark.ia_batch kv does h = absurd (ground arith)
  next-Holds b c m Benchmark.ia_crud kv does h = absurd (ground arith)

  pub done-Holds :
      (b : Benchmark)
      → b ≢ Benchmark.ia_iterate
      → (c : UnqContext S) (m : Store) → HoldsTable c m
      → ((ia_unqlite_done e c b).0 ≡ success) × HoldsTable (ia_unqlite_done e c b).1 m
  unfolding ia_unqlite_done
  done-Holds Benchmark.ia_get ne c m h = (refl, h)
  done-Holds Benchmark.ia_set ne c m h = (refl, h)
  done-Holds Benchmark.ia_delete ne c m h = (refl, h)
  done-Holds Benchmark.ia_crud ne c m h = let r = l.commits c.engine in (ap unq_rc r.0, r.1 ∙ h)
  done-Holds Benchmark.ia_batch ne c m h = let r = l.commits c.engine in (ap unq_rc r.0, r.1 ∙ h)
  done-Holds Benchmark.ia_iterate ne c m h = absurd (ne refl)

  abbrev pub unqlite_simulation :
      (b : Benchmark) → b ≢ Benchmark.ia_iterate → Simulation (ia_unqlite e) store_driver b
  unqlite_simulation b ne = record {
    Idle = HoldsTable;
    Open = HoldsTable;
    begins = begin-Holds b ne;
    nexts = next-Holds b;
    finishes = done-Holds b ne;
  }

  -- For a benchmark other than iterate, `ia_run_benchmark` on src/drivers/ia_unqlite.c behaves as on a
  -- table, over an engine without errors that holds the table's keys and values at the start: both
  -- runs return or neither does, with equal codes, the same calls in the same order and the same
  -- generators, and then again the engine holds the table's keys and values.
  pub unqlite_refines-store :
      (conf : Conf) (g : Globals) (allocated : Bool) (b : Benchmark) (ne : b ≢ Benchmark.ia_iterate)
      → (c : Doer (UnqContext S)) (d : Doer Store) → Agree HoldsTable c d
      → BothRun
          (EndAgree (unqlite_simulation b ne) conf g allocated)
          (ia_run_benchmark (ia_unqlite e) conf g allocated b c)
          (ia_run_benchmark store_driver conf g allocated b d)
  unqlite_refines-store conf g allocated b ne c d h =
      run_benchmark-simulates (unqlite_simulation b ne) conf g allocated c d ne h
