-- ===== src/Drivers/Store/Refines.antt =====
-- src/drivers/ia_lmdb.c behaves like a table of keys and values.
use ioarena.Base.{
  ℕ, ◌≡◌, ◌≢◌, refl, sym, ◌∙◌, ap, arith, Bool, true, false, Bool-cases, inl, inr, Option, none,
  some, List,
}
use mathlib.Core.Path.{subst}
use ioarena.Bench.{Benchmark}
use ioarena.Kv.Gen.{IaKv}
use ioarena.Kv.Fill.{Globals}
use ioarena.Doer.Driver.{success, Conf, Doer}
use ioarena.Doer.Run.{ia_run_benchmark}
use ioarena.Doer.Simulate.{Does, Simulation, Agree, BothRun}
use ioarena.Doer.Simulate.Runs.{EndAgree, run_benchmark-simulates}
use ioarena.Drivers.Handle.{is_set}
use ioarena.Drivers.Lmdb.{
  MdbEngine, LmdbContext, ia_lmdb, ia_lmdb_begin, ia_lmdb_done, ia_lmdb_next, lmdb_begin_write,
  lmdb_begin_read, lmdb_renew_txn, lmdb_done_write, lmdb_done_read, enoent_or_minus, drop_cursor,
  drop_txn, begin_txn, zero_or_minus, value_bytes,
}
use ioarena.Drivers.Store.{Store, store_driver, found_or_not, assign, unassign, store_next}
use ioarena.Drivers.Store.Engine.{IsStore, mdb_answer}

module _ {S : Type 0} (e : MdbEngine S) (l : IsStore e) where
  -- The engine holds the table and nothing in it waits for a commit.
  abbrev pub Holds : LmdbContext S → Store → Type 0
  Holds c m = (l.contents c.engine ≡ m) × l.Clean c.engine

  drop_cursor-Holds : (c : LmdbContext S) (m : Store) → Holds c m → Holds (drop_cursor e c) m
  drop_cursor-Holds c m h = ground (arith, l.closed c.engine h.1)

  drop_txn-Holds : (c : LmdbContext S) (m : Store) → Holds c m → Holds (drop_txn e c) m
  drop_txn-Holds c m h = ground (arith, l.aborted c.engine h.1)

  -- A transaction that begins in a clean state does, and sees the table.
  begin_txn-Holds :
      (rdonly : Bool) (c : LmdbContext S) (m : Store)
      → Holds c m
      → let r = zero_or_minus e (begin_txn e rdonly c) in (r.0 ≡ success) × Holds r.1 m
  begin_txn-Holds rdonly c m h = ground (arith, l.begun rdonly c.engine h.1)

  begin_write-Holds :
      (c : LmdbContext S) (m : Store)
      → Holds c m
      → ((lmdb_begin_write e c).0 ≡ success) × Holds (lmdb_begin_write e c).1 m
  unfolding lmdb_begin_write
  begin_write-Holds c m h = begin_txn-Holds false _ m (drop_txn-Holds _ m (drop_cursor-Holds c m h))

  renew_txn-Holds : (c : LmdbContext S) (m : Store) → Holds c m → Holds (lmdb_renew_txn e c) m
  unfolding lmdb_renew_txn
  renew_txn-Holds c m h =
      let r = l.renewed c.engine h.1 in ground (arith, r, l.aborted (e.txn_renew c.engine).1 r.1)

  begin_read-Holds :
      (c : LmdbContext S) (m : Store)
      → Holds c m
      → ((lmdb_begin_read e c).0 ≡ success) × Holds (lmdb_begin_read e c).1 m
  unfolding lmdb_begin_read
  begin_read-Holds c m h =
      let r = renew_txn-Holds c m h in
      elim (Bool-cases (is_set (lmdb_renew_txn e c).txn)) [
        | inl kept ↦ rw kept (refl, r)
        | inr gone ↦ rw gone (begin_txn-Holds true _ m r)
      ]

  -- What the operations keep: a set or delete leaves writes that wait for the commit.
  put-Holds :
      (c : LmdbContext S) (m : Store) (kv : IaKv)
      → l.contents c.engine ≡ m
      → let r = ia_lmdb_next e c Benchmark.ia_set kv in
        (r.0 ≡ success) × (r.1 ≡ kv) × (l.contents r.2.engine ≡ assign kv.k (value_bytes kv.v) m)
  unfolding ia_lmdb_next
  put-Holds c m kv h =
      let w = l.was_put kv.k (value_bytes kv.v) c.engine in
      ground (arith, w, ap (assign kv.k (value_bytes kv.v)) h)

  answer-rc : (o : Option (List ℕ)) → enoent_or_minus (mdb_answer o) ≡ found_or_not o
  answer-rc none = refl
  answer-rc (some v) = refl

  del-Holds :
      (c : LmdbContext S) (m : Store) (kv : IaKv)
      → l.contents c.engine ≡ m
      → let r = ia_lmdb_next e c Benchmark.ia_delete kv in
        (r.0 ≡ found_or_not (m kv.k)) × (r.1 ≡ kv) × (l.contents r.2.engine ≡ unassign kv.k m)
  unfolding ia_lmdb_next
  del-Holds c m kv h =
      let w = l.deleted kv.k c.engine in
      (
        ap enoent_or_minus w.0
            ∙ answer-rc (l.contents c.engine kv.k)
            ∙ ap (λ t. found_or_not (t kv.k)) h,
        refl,
        w.1 ∙ ap (unassign kv.k) h,
      )

  get-Holds :
      (c : LmdbContext S) (m : Store) (kv : IaKv)
      → l.contents c.engine ≡ m
      → let r = ia_lmdb_next e c Benchmark.ia_get kv in
        (r.0 ≡ found_or_not (m kv.k)) × (r.1 ≡ kv) × (l.contents r.2.engine ≡ m)
  unfolding ia_lmdb_next
  get-Holds c m kv h =
      let w = l.got kv.k c.engine in
      (
        ap enoent_or_minus w.0
            ∙ answer-rc (l.contents c.engine kv.k)
            ∙ ap (λ t. found_or_not (t kv.k)) h,
        refl,
        w.1 ∙ h,
      )

  done_write-Holds :
      (c : LmdbContext S) (m : Store)
      → l.contents c.engine ≡ m
      → ((lmdb_done_write e c).0 ≡ success) × Holds (lmdb_done_write e c).1 m
  unfolding lmdb_done_write
  done_write-Holds c m h = ground (arith, l.committed c.engine)

  done_read-Holds :
      (c : LmdbContext S) (m : Store)
      → Holds c m
      → ((lmdb_done_read e c).0 ≡ success) × Holds (lmdb_done_read e c).1 m
  unfolding lmdb_done_read
  done_read-Holds c m h = ground (arith, l.was_reset c.engine h.1)

  -- What holds within a transaction of a benchmark.
  abbrev pub Serving : Benchmark → LmdbContext S → Store → Type 0
  Serving Benchmark.ia_get c m = Holds c m
  Serving Benchmark.ia_set c m = l.contents c.engine ≡ m
  Serving Benchmark.ia_delete c m = l.contents c.engine ≡ m
  Serving Benchmark.ia_crud c m = l.contents c.engine ≡ m
  Serving Benchmark.ia_batch c m = l.contents c.engine ≡ m
  Serving Benchmark.ia_iterate c m = ⊥

  pub begin-Serving :
      (b : Benchmark)
      → b ≢ Benchmark.ia_iterate
      → (c : LmdbContext S) (m : Store) → Holds c m
      → ((ia_lmdb_begin e c b).0 ≡ success)
        × (success ≡ success)
        × Serving b (ia_lmdb_begin e c b).1 m
  unfolding ia_lmdb_begin
  begin-Serving Benchmark.ia_set ne c m h = let r = begin_write-Holds c m h in (r.0, refl, r.1.0)
  begin-Serving Benchmark.ia_delete ne c m h = let r = begin_write-Holds c m h in (r.0, refl, r.1.0)
  begin-Serving Benchmark.ia_crud ne c m h = let r = begin_write-Holds c m h in (r.0, refl, r.1.0)
  begin-Serving Benchmark.ia_batch ne c m h = let r = begin_write-Holds c m h in (r.0, refl, r.1.0)
  begin-Serving Benchmark.ia_get ne c m h = let r = begin_read-Holds c m h in (r.0, refl, r.1)
  begin-Serving Benchmark.ia_iterate ne c m h = absurd (ne refl)

  -- An operation on a table that may have writes which wait.
  step-Serving :
      (op : Benchmark) (c : LmdbContext S) (m : Store) (kv : IaKv)
      → Does Benchmark.ia_crud op
      → l.contents c.engine ≡ m
      → ((ia_lmdb_next e c op kv).0 ≡ (store_next m op kv).0)
        × ((ia_lmdb_next e c op kv).1 ≡ (store_next m op kv).1)
        × (l.contents (ia_lmdb_next e c op kv).2.engine ≡ (store_next m op kv).2)
  step-Serving Benchmark.ia_set c m kv does h = put-Holds c m kv h
  step-Serving Benchmark.ia_delete c m kv does h = del-Holds c m kv h
  step-Serving Benchmark.ia_get c m kv does h = get-Holds c m kv h
  step-Serving Benchmark.ia_crud c m kv does h = elim does [ ]
  step-Serving Benchmark.ia_batch c m kv does h = elim does [ ]
  step-Serving Benchmark.ia_iterate c m kv does h = elim does [ ]

  only_get : (op : Benchmark) → Does Benchmark.ia_get op → op ≡ Benchmark.ia_get
  only_get op does = ground arith

  within_crud : (b op : Benchmark) → Does b op → Does Benchmark.ia_crud op
  within_crud b op does = ground arith

  get_clean :
      (c : LmdbContext S) (kv : IaKv)
      → l.Clean c.engine
      → l.Clean (ia_lmdb_next e c Benchmark.ia_get kv).2.engine
  unfolding ia_lmdb_next
  get_clean c kv h = l.got_clean kv.k c.engine h

  pub next-Serving :
      (b op : Benchmark) (c : LmdbContext S) (m : Store) (kv : IaKv)
      → Does b op
      → Serving b c m
      → ((ia_lmdb_next e c op kv).0 ≡ (store_next m op kv).0)
        × ((ia_lmdb_next e c op kv).1 ≡ (store_next m op kv).1)
        × Serving b (ia_lmdb_next e c op kv).2 (store_next m op kv).2
  next-Serving Benchmark.ia_get op c m kv does h =
      subst
        (λ o.
          ((ia_lmdb_next e c o kv).0 ≡ (store_next m o kv).0)
          × ((ia_lmdb_next e c o kv).1 ≡ (store_next m o kv).1)
          × Holds (ia_lmdb_next e c o kv).2 (store_next m o kv).2)
        (sym (only_get op does))
        (let r = get-Holds c m kv h.0 in (r.0, r.1, (r.2, get_clean c kv h.1)))
  next-Serving Benchmark.ia_set op c m kv does h =
      step-Serving op c m kv (within_crud Benchmark.ia_set op does) h
  next-Serving Benchmark.ia_delete op c m kv does h =
      step-Serving op c m kv (within_crud Benchmark.ia_delete op does) h
  next-Serving Benchmark.ia_crud op c m kv does h = step-Serving op c m kv does h
  next-Serving Benchmark.ia_batch op c m kv does h =
      step-Serving op c m kv (within_crud Benchmark.ia_batch op does) h
  next-Serving Benchmark.ia_iterate op c m kv does h = elim h [ ]

  pub finish-Serving :
      (b : Benchmark) (c : LmdbContext S) (m : Store)
      → Serving b c m
      → ((ia_lmdb_done e c b).0 ≡ success) × Holds (ia_lmdb_done e c b).1 m
  unfolding ia_lmdb_done
  finish-Serving Benchmark.ia_set c m h = done_write-Holds c m h
  finish-Serving Benchmark.ia_delete c m h = done_write-Holds c m h
  finish-Serving Benchmark.ia_crud c m h = done_write-Holds c m h
  finish-Serving Benchmark.ia_batch c m h = done_write-Holds c m h
  finish-Serving Benchmark.ia_get c m h = done_read-Holds c m h
  finish-Serving Benchmark.ia_iterate c m h = elim h [ ]

  -- The driver over such an engine, against the table.
  abbrev pub lmdb_simulation :
      (b : Benchmark) → b ≢ Benchmark.ia_iterate → Simulation (ia_lmdb e) store_driver b
  lmdb_simulation b ne = record {
    Idle = Holds;
    Open = Serving b;
    begins = begin-Serving b ne;
    nexts = λ c m op kv does h. next-Serving b op c m kv does h;
    finishes = finish-Serving b;
  }

  -- For a benchmark other than iterate, `ia_run_benchmark` on src/drivers/ia_lmdb.c behaves as on a
  -- table, where the engine begins, puts and commits without errors, holds the
  -- table's keys and values at the start and has nothing uncommitted: both runs return or neither
  -- does, with equal codes, the same calls in the same order and the same generators, and then again
  -- the engine holds the table's keys and values.
  pub lmdb_refines-store :
      (conf : Conf) (g : Globals) (allocated : Bool) (b : Benchmark) (ne : b ≢ Benchmark.ia_iterate)
      → (c : Doer (LmdbContext S)) (d : Doer Store) → Agree Holds c d
      → BothRun
          (EndAgree (lmdb_simulation b ne) conf g allocated)
          (ia_run_benchmark (ia_lmdb e) conf g allocated b c)
          (ia_run_benchmark store_driver conf g allocated b d)
  lmdb_refines-store conf g allocated b ne c d h =
      run_benchmark-simulates (lmdb_simulation b ne) conf g allocated c d ne h
