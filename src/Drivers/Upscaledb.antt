-- ===== src/Drivers/Upscaledb.antt =====
-- src/drivers/ia_upscaledb.c, over any engine with the interface of upscaledb. What is logged is left
-- out.
use ioarena.Base.{ℕ, length, Bool, true, false, Option, none, some, List, ◌++◌, if◌then◌else◌}
use ioarena.Base.Text.{codes}
use ioarena.Bench.{Benchmark}
use ioarena.Config.Names.{SyncMode, WalMode}
use ioarena.Kv.Gen.{IaKv}
use ioarena.Doer.Driver.{Rc, success, not_found, Driver}
use ioarena.Doer.Turn.{minus_one}
use ioarena.Drivers.Lmdb.{value_bytes}
use ioarena.Drivers.Unqlite.{DbPointer, uninitialised, opened}

-- UPS_SUCCESS, UPS_KEY_NOT_FOUND or another status.
pub data Ups : Type 0 where
  ups_success ups_key_not_found : Ups
  ups_error : ℕ → Ups

-- The flags of ups_env_create that the driver uses.
pub data UpsFlag : Type 0 where
  enable_transactions enable_fsync flush_transactions_immediately disable_recovery : UpsFlag

-- The engine's functions on its state; those that make a transaction or a cursor tell whether they leave
-- its pointer set. A record that is found is its data, NULL or not, and its size.
pub record UpsEngine (S : Type 0) : Type 0 where
  pub env_create : (filename : List ℕ) → (UpsFlag → Bool) → S → Ups × S
  pub env_create_db : S → Ups × S
  pub db_close : S → S
  pub env_close : S → S
  pub cursor_create : S → Bool × S
  pub cursor_close : S → S
  pub cursor_move : S → Ups × IaKv × S
  pub txn_begin : S → Bool × S
  pub txn_commit : S → Ups × S
  pub txn_abort : S → S
  pub db_insert : (k v : List ℕ) → S → Ups × S
  pub db_erase : (k : List ℕ) → S → Ups × S
  pub db_find : (k : List ℕ) → S → Ups × List ℕ × S

-- `struct iaprivate`: either pointer as malloc has left it or as the engine has.
pub record UpsPrivate : Type 0 where
  pub env : DbPointer
  pub db : DbPointer

-- `struct iacontext`, with the engine's state: whether the pointers are set.
pub record UpsContext (S : Type 0) : Type 0 where
  pub txn : Bool
  pub cursor : Bool
  pub engine : S

abbrev pub is_ups_success : Ups → Bool
is_ups_success ups_success = true
is_ups_success ups_key_not_found = false
is_ups_success (ups_error code) = false

-- if (st != UPS_SUCCESS) goto bailout;
abbrev pub ups_rc : Ups → Rc
ups_rc ups_success = success
ups_rc ups_key_not_found = minus_one
ups_rc (ups_error code) = minus_one

-- if (st == UPS_KEY_NOT_FOUND) return ENOENT; goto bailout;
abbrev pub ups_enoent : Ups → Rc
ups_enoent ups_success = success
ups_enoent ups_key_not_found = not_found
ups_enoent (ups_error code) = minus_one

-- The flags of the environment.
unfoldable pub ups_flags : SyncMode → WalMode → UpsFlag → Bool
ups_flags sync wal UpsFlag.enable_transactions = true
ups_flags SyncMode.ia_sync wal UpsFlag.enable_fsync = true
ups_flags SyncMode.ia_sync wal UpsFlag.flush_transactions_immediately = true
ups_flags SyncMode.ia_lazy wal UpsFlag.enable_fsync = false
ups_flags SyncMode.ia_lazy wal UpsFlag.flush_transactions_immediately = false
ups_flags SyncMode.ia_nosync wal UpsFlag.enable_fsync = false
ups_flags SyncMode.ia_nosync wal UpsFlag.flush_transactions_immediately = false
ups_flags sync WalMode.ia_wal_indef UpsFlag.disable_recovery = false
ups_flags sync WalMode.ia_wal_on UpsFlag.disable_recovery = false
ups_flags sync WalMode.ia_wal_off UpsFlag.disable_recovery = true

module _ {S : Type 0} (e : UpsEngine S) where
  -- `ia_upscaledb_open`: whether it returns 0, the private data and the engine's state; `named` tells
  -- whether asprintf gives a name.
  unfoldable pub ia_upscaledb_open :
      (allocated named : Bool) (datadir : List ℕ)
      → SyncMode
      → WalMode
      → S
      → Bool × Option UpsPrivate × S
  ia_upscaledb_open false named datadir sync wal s = (false, none, s)
  ia_upscaledb_open true false datadir sync wal s =
      (false, some (record { env = uninitialised; db = uninitialised }), s)
  ia_upscaledb_open true true datadir sync wal s =
      let r = e.env_create (datadir ++ codes "/test.db") (ups_flags sync wal) s in
      let made = e.env_create_db r.1 in
      if is_ups_success r.0
      then (is_ups_success made.0, some (record { env = opened; db = opened }), made.1)
      else (false, some (record { env = opened; db = uninitialised }), r.1)

  -- `ia_upscaledb_close`, and whether the engine is given a pointer that was never set
  unfoldable pub ia_upscaledb_close : Option UpsPrivate → S → Bool × S
  ia_upscaledb_close none s = (false, s)
  ia_upscaledb_close (some self) s = elim self.db [
    | uninitialised ↦ (true, s)
    | opened ↦ (false, e.env_close (e.db_close s))
  ]

  -- `ia_upscaledb_thread_new`: `none` is NULL; and `ia_upscaledb_thread_dispose`, with the engine's
  -- state after it
  abbrev pub ia_upscaledb_thread_new : (allocated : Bool) → S → Option (UpsContext S)
  ia_upscaledb_thread_new false s = none
  ia_upscaledb_thread_new true s = some (record { txn = false; cursor = false; engine = s })

  unfoldable pub ia_upscaledb_thread_dispose : UpsContext S → S
  ia_upscaledb_thread_dispose c =
      let s = if c.cursor then e.cursor_close c.engine else c.engine in
      if c.txn then e.txn_abort s else s

  -- case IA_BATCH: case IA_CRUD: and case IA_ITERATE: of `ia_upscaledb_begin`, where the pointer is
  -- tested
  abbrev pub ups_begin_txn : UpsContext S → Rc × UpsContext S
  ups_begin_txn c =
      let r = e.txn_begin c.engine in
      if r.0
      then (success, record c { txn = true; engine = r.1 })
      else (minus_one, record c { txn = false; engine = r.1 })

  abbrev pub ups_begin_cursor : UpsContext S → Rc × UpsContext S
  ups_begin_cursor c =
      let r = e.cursor_create c.engine in
      if r.0
      then (success, record c { cursor = true; engine = r.1 })
      else (minus_one, record c { cursor = false; engine = r.1 })

  unfoldable pub ia_upscaledb_begin : UpsContext S → Benchmark → Rc × UpsContext S
  ia_upscaledb_begin c Benchmark.ia_get = (success, c)
  ia_upscaledb_begin c Benchmark.ia_set = (success, c)
  ia_upscaledb_begin c Benchmark.ia_delete = (success, c)
  ia_upscaledb_begin c Benchmark.ia_iterate = ups_begin_cursor c
  ia_upscaledb_begin c Benchmark.ia_batch = ups_begin_txn c
  ia_upscaledb_begin c Benchmark.ia_crud = ups_begin_txn c

  -- if (ctx->txn) { st = ups_txn_commit(...); ... }, which keeps the pointer where the commit fails
  abbrev pub ups_commit : UpsContext S → Rc × UpsContext S
  ups_commit c =
      let r = e.txn_commit c.engine in
      if c.txn
      then (if is_ups_success r.0
          then (success, record c { txn = false; engine = r.1 })
          else (minus_one, record c { engine = r.1 }))
      else (success, c)

  unfoldable pub ia_upscaledb_done : UpsContext S → Benchmark → Rc × UpsContext S
  ia_upscaledb_done c Benchmark.ia_get = (success, c)
  ia_upscaledb_done c Benchmark.ia_set = (success, c)
  ia_upscaledb_done c Benchmark.ia_delete = (success, c)
  ia_upscaledb_done c Benchmark.ia_iterate =
      if c.cursor
      then (success, record c { cursor = false; engine = e.cursor_close c.engine })
      else (success, c)
  ia_upscaledb_done c Benchmark.ia_crud = ups_commit c
  ia_upscaledb_done c Benchmark.ia_batch = ups_commit c

  -- case IA_GET: of `ia_upscaledb_next`; where no key is found `value` is as it was, all 0.
  abbrev pub ups_found : IaKv → UpsContext S → Ups × List ℕ × S → Rc × IaKv × UpsContext S
  ups_found kv c (ups_success, v, s) =
      (success, record kv { v = some v; vsize = length v }, record c { engine = s })
  ups_found kv c (ups_key_not_found, v, s) =
      (success, record kv { v = none; vsize = 0 }, record c { engine = s })
  ups_found kv c (ups_error code, v, s) = (minus_one, kv, record c { engine = s })

  -- case IA_ITERATE:
  abbrev pub ups_moved : IaKv → UpsContext S → Ups × IaKv × S → Rc × IaKv × UpsContext S
  ups_moved kv c (ups_success, pair, s) = (success, pair, record c { engine = s })
  ups_moved kv c (ups_key_not_found, pair, s) = (not_found, kv, record c { engine = s })
  ups_moved kv c (ups_error code, pair, s) = (minus_one, kv, record c { engine = s })

  unfoldable pub ia_upscaledb_next : UpsContext S → Benchmark → IaKv → Rc × IaKv × UpsContext S
  ia_upscaledb_next c Benchmark.ia_set kv =
      let r = e.db_insert kv.k (value_bytes kv.v) c.engine in
      (ups_rc r.0, kv, record c { engine = r.1 })
  ia_upscaledb_next c Benchmark.ia_delete kv =
      let r = e.db_erase kv.k c.engine in (ups_enoent r.0, kv, record c { engine = r.1 })
  ia_upscaledb_next c Benchmark.ia_get kv = ups_found kv c (e.db_find kv.k c.engine)
  ia_upscaledb_next c Benchmark.ia_iterate kv = ups_moved kv c (e.cursor_move c.engine)
  ia_upscaledb_next c Benchmark.ia_batch kv = (minus_one, kv, c)
  ia_upscaledb_next c Benchmark.ia_crud kv = (minus_one, kv, c)

  -- iadriver ia_upscaledb
  abbrev pub ia_upscaledb : Driver (UpsContext S)
  ia_upscaledb = record {
    begin = ia_upscaledb_begin;
    next = ia_upscaledb_next;
    finish = ia_upscaledb_done;
  }
