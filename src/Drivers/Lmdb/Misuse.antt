-- ===== src/Drivers/Lmdb/Misuse.antt =====
-- Where src/drivers/ia_lmdb.c passes a freed or null handle to the engine.
use ioarena.Base.{◌≡◌, ◌≢◌, refl, true, false, arith}
use ioarena.Bench.{Benchmark}
use ioarena.Kv.Gen.{IaKv}
use ioarena.Doer.Driver.{success}
use ioarena.Drivers.Handle.{null}
use ioarena.Drivers.Lmdb.{
  MdbEngine, LmdbContext, ia_lmdb_begin, ia_lmdb_done, ia_lmdb_next, ia_lmdb_thread_dispose,
  lmdb_begin_write, lmdb_begin_read, lmdb_begin_iterate, lmdb_renew_txn, lmdb_renew_cursor,
  lmdb_done_write, lmdb_done_read,
}
use ioarena.Drivers.Lmdb.Owned.{Owned, done_well}

module _ {S : Type 0} (e : MdbEngine S) where
  -- `misused` stays.
  pub begin_read-stays :
      (c : LmdbContext S) → c.misused ≡ true → (lmdb_begin_read e c).1.misused ≡ true
  unfolding lmdb_begin_read lmdb_renew_txn
  begin_read-stays c m = ground arith

  pub begin_iterate-stays :
      (c : LmdbContext S) → c.misused ≡ true → (lmdb_begin_iterate e c).1.misused ≡ true
  unfolding lmdb_begin_iterate lmdb_renew_cursor
  begin_iterate-stays c m = ground arith

  pub begin-stays :
      (c : LmdbContext S) (b : Benchmark)
      → c.misused ≡ true
      → (ia_lmdb_begin e c b).1.misused ≡ true
  unfolding ia_lmdb_begin lmdb_begin_write
  begin-stays c Benchmark.ia_set m = ground arith
  begin-stays c Benchmark.ia_batch m = ground arith
  begin-stays c Benchmark.ia_crud m = ground arith
  begin-stays c Benchmark.ia_delete m = ground arith
  begin-stays c Benchmark.ia_get m = begin_read-stays c m
  begin-stays c Benchmark.ia_iterate m = ground (
    arith,
    begin_read-stays c m,
    begin_iterate-stays (lmdb_begin_read e c).1 (begin_read-stays c m),
  )

  pub next-stays :
      (c : LmdbContext S) (b : Benchmark) (kv : IaKv)
      → c.misused ≡ true
      → (ia_lmdb_next e c b kv).2.misused ≡ true
  unfolding ia_lmdb_next
  next-stays c Benchmark.ia_set kv m = ground arith
  next-stays c Benchmark.ia_delete kv m = ground arith
  next-stays c Benchmark.ia_get kv m = ground arith
  next-stays c Benchmark.ia_iterate kv m = ground arith
  next-stays c Benchmark.ia_batch kv m = m
  next-stays c Benchmark.ia_crud kv m = m

  pub done-stays :
      (c : LmdbContext S) (b : Benchmark) → c.misused ≡ true → (ia_lmdb_done e c b).1.misused ≡ true
  unfolding ia_lmdb_done lmdb_done_write lmdb_done_read
  done-stays c Benchmark.ia_set m = ground arith
  done-stays c Benchmark.ia_delete m = ground arith
  done-stays c Benchmark.ia_get m = ground arith
  done-stays c Benchmark.ia_iterate m = ground arith
  done-stays c Benchmark.ia_batch m = ground arith
  done-stays c Benchmark.ia_crud m = ground arith

  pub dispose-stays :
      (c : LmdbContext S) → c.misused ≡ true → (ia_lmdb_thread_dispose e c).misused ≡ true
  unfolding ia_lmdb_thread_dispose
  dispose-stays c m = ground arith

  -- A commit that fails has freed the transaction, which is then aborted.
  pub done-fails :
      (c : LmdbContext S) (b : Benchmark)
      → done_well e c b ≡ false
      → (ia_lmdb_done e c b).1.misused ≡ true
  unfolding ia_lmdb_done lmdb_done_write
  done-fails c Benchmark.ia_set fails = ground arith
  done-fails c Benchmark.ia_delete fails = ground arith
  done-fails c Benchmark.ia_batch fails = ground arith
  done-fails c Benchmark.ia_crud fails = ground arith
  done-fails c Benchmark.ia_get fails = absurd (ground arith)
  done-fails c Benchmark.ia_iterate fails = absurd (ground arith)

  -- A `begin` that fails leaves no transaction, from handles that are in order.
  pub begin-null :
      (c : LmdbContext S) (b : Benchmark)
      → Owned e c
      → b ≢ Benchmark.ia_iterate
      → (ia_lmdb_begin e c b).0 ≢ success
      → (ia_lmdb_begin e c b).1.txn ≡ null
  unfolding ia_lmdb_begin lmdb_begin_write lmdb_begin_read lmdb_renew_txn
  begin-null c Benchmark.ia_set o ne fails = ground arith
  begin-null c Benchmark.ia_batch o ne fails = ground arith
  begin-null c Benchmark.ia_crud o ne fails = ground arith
  begin-null c Benchmark.ia_delete o ne fails = ground arith
  begin-null c Benchmark.ia_get o ne fails = ground arith
  begin-null c Benchmark.ia_iterate o ne fails = absurd (ne refl)

  pub done-null :
      (c : LmdbContext S) (b : Benchmark) → c.txn ≡ null → (ia_lmdb_done e c b).1.misused ≡ true
  unfolding ia_lmdb_done lmdb_done_write lmdb_done_read
  done-null c Benchmark.ia_set n = ground arith
  done-null c Benchmark.ia_delete n = ground arith
  done-null c Benchmark.ia_get n = ground arith
  done-null c Benchmark.ia_iterate n = ground arith
  done-null c Benchmark.ia_batch n = ground arith
  done-null c Benchmark.ia_crud n = ground arith

  pub set-null :
      (c : LmdbContext S) (kv : IaKv)
      → c.txn ≡ null
      → (ia_lmdb_next e c Benchmark.ia_set kv).2.misused ≡ true
  unfolding ia_lmdb_next
  set-null c kv n = ground arith
