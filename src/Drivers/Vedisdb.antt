-- ===== src/Drivers/Vedisdb.antt =====
-- src/drivers/ia_vedisdb.c, over any engine with the interface of Vedis. What is logged is left out,
-- and so are the values that it reads into a buffer of its own.
use ioarena.Base.{ℕ, Bool, true, false, List, ◌++◌, if◌then◌else◌}
use ioarena.Base.Text.{codes}
use ioarena.Bench.{Benchmark}
use ioarena.Kv.Gen.{IaKv}
use ioarena.Doer.Driver.{Rc, success, not_found, failure, Driver, and_then}
use ioarena.Doer.Turn.{minus_one}
use ioarena.Drivers.Lmdb.{value_bytes}

-- VEDIS_OK, VEDIS_NOTFOUND, VEDIS_BUSY or another code.
pub data Ved : Type 0 where
  ved_ok ved_notfound ved_busy : Ved
  ved_other : ℕ → Ved

-- The engine's functions on its state; `open_db` returns an int that the driver passes on.
pub record VedisEngine (S : Type 0) : Type 0 where
  pub lib_init : S → Rc × S
  pub open_db : (path : List ℕ) → S → Rc × S
  pub close_db : S → S
  pub lib_shutdown : S → S
  pub begin_txn : S → Ved × S
  pub commit : S → Ved × S
  pub rollback : S → S
  pub kv_store : (k v : List ℕ) → S → Ved × S
  pub kv_delete : (k : List ℕ) → S → Ved × S
  pub kv_fetch : (k : List ℕ) → S → Ved × S

-- EBUSY
abbrev pub ebusy : Rc
ebusy = failure 16

-- rc = (rc == VEDIS_OK ? 0 : -1);
abbrev pub ved_rc : Ved → Rc
ved_rc ved_ok = success
ved_rc ved_notfound = minus_one
ved_rc ved_busy = minus_one
ved_rc (ved_other code) = minus_one

-- case IA_DELETE: the code is 0 or -1 before it is compared, and VEDIS_NOTFOUND and VEDIS_BUSY are
-- other numbers.
abbrev pub ved_delete_rc : Ved → Rc
ved_delete_rc code = and_then (ved_rc code) success (λ rc. minus_one)

-- case IA_GET:
abbrev pub ved_get_rc : Ved → Rc
ved_get_rc ved_ok = success
ved_get_rc ved_notfound = not_found
ved_get_rc ved_busy = ebusy
ved_get_rc (ved_other code) = minus_one

module _ {S : Type 0} (e : VedisEngine S) where
  -- `ia_vedisdb_open`, for the sync and wal modes that there are, which it ignores: the result, whether
  -- there is private data, and the engine's state
  unfoldable pub ia_vedisdb_open : (allocated : Bool) (datadir : List ℕ) → S → Rc × Bool × S
  ia_vedisdb_open false datadir s = (minus_one, false, s)
  ia_vedisdb_open true datadir s =
      let r = e.lib_init s in
      let opened = e.open_db (datadir ++ codes "/test.vedisdb") r.1 in
      and_then r.0 (opened.0, true, opened.1) (λ rc. (minus_one, true, r.1))

  -- `ia_vedisdb_close`
  unfoldable pub ia_vedisdb_close : (priv : Bool) → S → S
  ia_vedisdb_close priv s = if priv then e.lib_shutdown (e.close_db s) else s

  -- The context of a thread holds nothing: it is the engine's state.
  abbrev pub ved_begin_txn : S → Rc × S
  ved_begin_txn s = let r = e.begin_txn s in (ved_rc r.0, r.1)

  unfoldable pub ia_vedisdb_begin : S → Benchmark → Rc × S
  ia_vedisdb_begin s Benchmark.ia_batch = ved_begin_txn s
  ia_vedisdb_begin s Benchmark.ia_crud = ved_begin_txn s
  ia_vedisdb_begin s Benchmark.ia_set = (success, s)
  ia_vedisdb_begin s Benchmark.ia_delete = (success, s)
  ia_vedisdb_begin s Benchmark.ia_iterate = (success, s)
  ia_vedisdb_begin s Benchmark.ia_get = (success, s)

  -- case IA_BATCH: case IA_CRUD: of `ia_vedisdb_done`; only what is busy is rolled back.
  abbrev pub ved_committed : Ved × S → Rc × S
  ved_committed (ved_ok, s) = (success, s)
  ved_committed (ved_busy, s) = (minus_one, e.rollback s)
  ved_committed (ved_notfound, s) = (minus_one, s)
  ved_committed (ved_other code, s) = (minus_one, s)

  unfoldable pub ia_vedisdb_done : S → Benchmark → Rc × S
  ia_vedisdb_done s Benchmark.ia_batch = ved_committed (e.commit s)
  ia_vedisdb_done s Benchmark.ia_crud = ved_committed (e.commit s)
  ia_vedisdb_done s Benchmark.ia_set = (success, s)
  ia_vedisdb_done s Benchmark.ia_delete = (success, s)
  ia_vedisdb_done s Benchmark.ia_iterate = (success, s)
  ia_vedisdb_done s Benchmark.ia_get = (success, s)

  unfoldable pub ia_vedisdb_next : S → Benchmark → IaKv → Rc × IaKv × S
  ia_vedisdb_next s Benchmark.ia_set kv =
      let r = e.kv_store kv.k (value_bytes kv.v) s in (ved_rc r.0, kv, r.1)
  ia_vedisdb_next s Benchmark.ia_delete kv =
      let r = e.kv_delete kv.k s in (ved_delete_rc r.0, kv, r.1)
  ia_vedisdb_next s Benchmark.ia_get kv = let r = e.kv_fetch kv.k s in (ved_get_rc r.0, kv, r.1)
  ia_vedisdb_next s Benchmark.ia_iterate kv = (failure 38, kv, s)
  ia_vedisdb_next s Benchmark.ia_batch kv = (minus_one, kv, s)
  ia_vedisdb_next s Benchmark.ia_crud kv = (minus_one, kv, s)

  -- iadriver ia_vedisdb
  abbrev pub ia_vedisdb : Driver S
  ia_vedisdb = record { begin = ia_vedisdb_begin; next = ia_vedisdb_next; finish = ia_vedisdb_done }
