-- ===== src/Drivers/Lmdb/Owned.antt =====
-- The handles of a context of src/drivers/ia_lmdb.c while each call goes well.
use ioarena.Base.{◌≡◌, ◌≢◌, Bool, true, false, arith}
use ioarena.Bench.{Benchmark}
use ioarena.Kv.Gen.{IaKv}
use ioarena.Doer.Driver.{success}
use ioarena.Drivers.Handle.{valid, freed}
use ioarena.Drivers.Lmdb.{
  is_success, MdbEngine, LmdbContext, ia_lmdb_begin, ia_lmdb_done, ia_lmdb_next,
  ia_lmdb_thread_dispose, lmdb_begin_write, lmdb_begin_read, lmdb_begin_iterate, lmdb_renew_txn,
  lmdb_renew_cursor, lmdb_done_write, lmdb_done_read,
}

-- Where a context is: between benchmarks, or within one.
pub data Phase : Type 0 where
  idle : Phase
  begun : Benchmark → Phase

module _ {S : Type 0} (e : MdbEngine S) where
  -- No handle has been misused, and none that was freed is kept.
  pub record Owned (c : LmdbContext S) : Type 0 where
    pub unharmed : c.misused ≡ false
    pub txn_kept : c.txn ≢ freed
    pub cursor_kept : c.cursor ≢ freed

  pub begin_write-Owned :
      (c : LmdbContext S)
      → Owned c
      → Owned (lmdb_begin_write e c).1
        × ((lmdb_begin_write e c).0 ≡ success → (lmdb_begin_write e c).1.txn ≡ valid)
  unfolding lmdb_begin_write
  begin_write-Owned c o = ground arith

  pub renew_txn-Owned : (c : LmdbContext S) → Owned c → Owned (lmdb_renew_txn e c)
  unfolding lmdb_renew_txn
  renew_txn-Owned c o = ground arith

  pub begin_read-Owned :
      (c : LmdbContext S)
      → Owned c
      → Owned (lmdb_begin_read e c).1
        × ((lmdb_begin_read e c).0 ≡ success → (lmdb_begin_read e c).1.txn ≡ valid)
  unfolding lmdb_begin_read
  begin_read-Owned c o = ground (arith, renew_txn-Owned c o)

  -- The cursor is renewed or opened within the read transaction.
  pub begin_iterate-Owned :
      (c : LmdbContext S)
      → Owned c
      → c.txn ≡ valid
      → Owned (lmdb_begin_iterate e c).1
        × ((lmdb_begin_iterate e c).1.txn ≡ valid)
        × ((lmdb_begin_iterate e c).0 ≡ success → (lmdb_begin_iterate e c).1.cursor ≡ valid)
  unfolding lmdb_begin_iterate lmdb_renew_cursor
  begin_iterate-Owned c o t = ground arith

  -- What the handles are while the driver is idle, and between a `begin` that has succeeded and `done`.
  abbrev pub InPhase : LmdbContext S → Phase → Type 0
  InPhase c idle = Owned c
  InPhase c (begun b) = Owned c × (c.txn ≡ valid) × (b ≡ Benchmark.ia_iterate → c.cursor ≡ valid)

  pub begin-InPhase :
      (c : LmdbContext S) (b : Benchmark)
      → Owned c
      → Owned (ia_lmdb_begin e c b).1
        × ((ia_lmdb_begin e c b).0 ≡ success → InPhase (ia_lmdb_begin e c b).1 (begun b))
  unfolding ia_lmdb_begin
  begin-InPhase c Benchmark.ia_set o = ground (arith, begin_write-Owned c o)
  begin-InPhase c Benchmark.ia_batch o = ground (arith, begin_write-Owned c o)
  begin-InPhase c Benchmark.ia_crud o = ground (arith, begin_write-Owned c o)
  begin-InPhase c Benchmark.ia_delete o = ground (arith, begin_write-Owned c o)
  begin-InPhase c Benchmark.ia_get o = ground (arith, begin_read-Owned c o)
  begin-InPhase c Benchmark.ia_iterate o =
      ground (arith, begin_read-Owned c o, begin_iterate-Owned (lmdb_begin_read e c).1)

  -- The operations that a doer asks for within a benchmark.
  abbrev pub Asks : Benchmark → Benchmark → Type 0
  Asks b Benchmark.ia_iterate = b ≡ Benchmark.ia_iterate
  Asks b Benchmark.ia_set = b ≢ Benchmark.ia_iterate
  Asks b Benchmark.ia_delete = b ≢ Benchmark.ia_iterate
  Asks b Benchmark.ia_get = b ≢ Benchmark.ia_iterate
  Asks b Benchmark.ia_batch = ⊥
  Asks b Benchmark.ia_crud = ⊥

  pub next-InPhase :
      (c : LmdbContext S) (b op : Benchmark) (kv : IaKv)
      → Asks b op
      → InPhase c (begun b)
      → InPhase (ia_lmdb_next e c op kv).2 (begun b)
  unfolding ia_lmdb_next
  next-InPhase c b Benchmark.ia_set kv asks o = ground arith
  next-InPhase c b Benchmark.ia_delete kv asks o = ground arith
  next-InPhase c b Benchmark.ia_get kv asks o = ground arith
  next-InPhase c b Benchmark.ia_iterate kv asks o = ground arith
  next-InPhase c b Benchmark.ia_batch kv asks o = elim asks [ ]
  next-InPhase c b Benchmark.ia_crud kv asks o = elim asks [ ]

  -- The commit that `done` asks for succeeds; a get or iterate asks for none.
  abbrev pub done_well : LmdbContext S → Benchmark → Bool
  done_well c Benchmark.ia_get = true
  done_well c Benchmark.ia_iterate = true
  done_well c Benchmark.ia_set = is_success (e.txn_commit c.engine).0
  done_well c Benchmark.ia_delete = is_success (e.txn_commit c.engine).0
  done_well c Benchmark.ia_batch = is_success (e.txn_commit c.engine).0
  done_well c Benchmark.ia_crud = is_success (e.txn_commit c.engine).0

  pub done-Owned :
      (c : LmdbContext S) (b : Benchmark)
      → done_well c b ≡ true
      → InPhase c (begun b)
      → Owned (ia_lmdb_done e c b).1
  unfolding ia_lmdb_done lmdb_done_write lmdb_done_read
  done-Owned c Benchmark.ia_set commits o = ground arith
  done-Owned c Benchmark.ia_delete commits o = ground arith
  done-Owned c Benchmark.ia_get commits o = ground arith
  done-Owned c Benchmark.ia_iterate commits o = ground arith
  done-Owned c Benchmark.ia_batch commits o = ground arith
  done-Owned c Benchmark.ia_crud commits o = ground arith

  pub dispose-Owned :
      (c : LmdbContext S)
      → Owned c
      → ((ia_lmdb_thread_dispose e c).misused ≡ false)
        × ((ia_lmdb_thread_dispose e c).txn ≢ valid)
        × ((ia_lmdb_thread_dispose e c).cursor ≢ valid)
  unfolding ia_lmdb_thread_dispose
  dispose-Owned c o = ground arith
