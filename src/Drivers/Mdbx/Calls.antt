-- ===== src/Drivers/Mdbx/Calls.antt =====
-- src/drivers/ia_mdbx.c against src/drivers/ia_lmdb.c.
use ioarena.Base.{◌≡◌, refl, Bool-cases, inl, inr, ap}
use ioarena.Bench.{Benchmark}
use ioarena.Kv.Gen.{IaKv}
use ioarena.Drivers.Lmdb.{
  mdb_success, LmdbContext, ia_lmdb_begin, ia_lmdb_done, ia_lmdb_next, ia_lmdb_thread_dispose,
  lmdb_begin_write, lmdb_begin_read, lmdb_begin_iterate, lmdb_renew_txn, lmdb_done_write,
  lmdb_done_read, drop_cursor, is_success,
}
use ioarena.Drivers.Mdbx.{
  MdbxEngine, ia_mdbx_begin, ia_mdbx_done, ia_mdbx_next, ia_mdbx_thread_dispose, mdbx_begin_write,
  mdbx_begin_read, mdbx_begin_iterate, mdbx_renew_txn, mdbx_done_write, mdbx_done_read,
}
use ioarena.Drivers.Handle.{is_set}
use ioarena.Doer.Driver.{Rc, success}

module _ {S : Type 0} (e : MdbxEngine S) where
  begin_write-same :
      (c : LmdbContext S)
      → ((s : S) → e.abort_rc s ≡ mdb_success)
      → mdbx_begin_write e c ≡ lmdb_begin_write e.calls c
  unfolding mdbx_begin_write lmdb_begin_write
  begin_write-same c aborts = elim (Bool-cases (is_set (drop_cursor e.calls c).txn)) [
    | inl there ↦ rw there (rw (aborts (drop_cursor e.calls c).engine) refl)
    | inr none ↦ rw none refl
  ]

  -- A renewal leaves the same context, and its code is a success.
  renew_txn-same :
      (c : LmdbContext S)
      → ((s : S) → e.abort_rc s ≡ mdb_success)
      → mdbx_renew_txn e c ≡ (mdb_success, lmdb_renew_txn e.calls c)
  unfolding mdbx_renew_txn lmdb_renew_txn
  renew_txn-same c aborts = elim (Bool-cases (is_set c.txn)) [
    | inl there ↦ elim (Bool-cases (is_success (e.calls.txn_renew c.engine).0)) [
      | inl renewed ↦ rw (there, renewed) refl
      | inr failed ↦ rw (there, failed) (rw (aborts (e.calls.txn_renew c.engine).1) refl)
    ]
    | inr none ↦ rw none refl
  ]

  begin_read-same :
      (c : LmdbContext S)
      → ((s : S) → e.abort_rc s ≡ mdb_success)
      → mdbx_begin_read e c ≡ lmdb_begin_read e.calls c
  unfolding mdbx_begin_read lmdb_begin_read
  begin_read-same c aborts = rw (renew_txn-same c aborts) refl

  pub begin-same :
      (c : LmdbContext S) (b : Benchmark)
      → ((s : S) → e.abort_rc s ≡ mdb_success)
      → ia_mdbx_begin e c b ≡ ia_lmdb_begin e.calls c b
  unfolding ia_mdbx_begin ia_lmdb_begin mdbx_begin_iterate lmdb_begin_iterate
  begin-same c Benchmark.ia_set aborts = begin_write-same c aborts
  begin-same c Benchmark.ia_batch aborts = begin_write-same c aborts
  begin-same c Benchmark.ia_crud aborts = begin_write-same c aborts
  begin-same c Benchmark.ia_delete aborts = begin_write-same c aborts
  begin-same c Benchmark.ia_get aborts = begin_read-same c aborts
  begin-same c Benchmark.ia_iterate aborts =
      ap
        (λ (r : Rc × LmdbContext S). elim r.0 as (λ x. Rc × LmdbContext S) [
          | success ↦ mdbx_begin_iterate e r.1
          | _ ↦ r
        ])
        (begin_read-same c aborts)

  done_read-same :
      (c : LmdbContext S)
      → ((s : S) → e.reset_rc s ≡ mdb_success)
      → mdbx_done_read e c ≡ lmdb_done_read e.calls c
  unfolding mdbx_done_read lmdb_done_read
  done_read-same c resets = rw (resets c.engine) refl

  pub done-same :
      (c : LmdbContext S) (b : Benchmark)
      → ((s : S) → e.reset_rc s ≡ mdb_success)
      → ia_mdbx_done e c b ≡ ia_lmdb_done e.calls c b
  unfolding ia_mdbx_done ia_lmdb_done mdbx_done_write lmdb_done_write
  done-same c Benchmark.ia_set resets = refl
  done-same c Benchmark.ia_batch resets = refl
  done-same c Benchmark.ia_crud resets = refl
  done-same c Benchmark.ia_delete resets = refl
  done-same c Benchmark.ia_get resets = done_read-same c resets
  done-same c Benchmark.ia_iterate resets = done_read-same c resets

  pub next-same :
      (c : LmdbContext S) (op : Benchmark) (kv : IaKv)
      → ia_mdbx_next e c op kv ≡ ia_lmdb_next e.calls c op kv
  unfolding ia_mdbx_next ia_lmdb_next
  next-same c Benchmark.ia_set kv = refl
  next-same c Benchmark.ia_batch kv = refl
  next-same c Benchmark.ia_crud kv = refl
  next-same c Benchmark.ia_delete kv = refl
  next-same c Benchmark.ia_get kv = refl
  next-same c Benchmark.ia_iterate kv = refl

  dispose-same : (c : LmdbContext S) → ia_mdbx_thread_dispose e c ≡ ia_lmdb_thread_dispose e.calls c
  unfolding ia_mdbx_thread_dispose ia_lmdb_thread_dispose
  dispose-same c = refl

  -- Over an engine whose aborts and resets succeed, the mdbx driver makes the same calls of it as the
  -- lmdb driver, with the same codes, pairs and handles, whatever the other calls answer: for every
  -- benchmark at `begin` and `done`, for every operation of `next`, and when the context is disposed of.
  pub mdbx-lmdb :
      (c : LmdbContext S)
      → ((s : S) → e.abort_rc s ≡ mdb_success)
      → ((s : S) → e.reset_rc s ≡ mdb_success)
      → ((b : Benchmark)
          → (ia_mdbx_begin e c b ≡ ia_lmdb_begin e.calls c b)
            × (ia_mdbx_done e c b ≡ ia_lmdb_done e.calls c b))
        × ((op : Benchmark) (kv : IaKv) → ia_mdbx_next e c op kv ≡ ia_lmdb_next e.calls c op kv)
        × (ia_mdbx_thread_dispose e c ≡ ia_lmdb_thread_dispose e.calls c)
  mdbx-lmdb c aborts resets = (
    λ b. (begin-same c b aborts, done-same c b resets),
    λ op kv. next-same c op kv,
    dispose-same c,
  )
