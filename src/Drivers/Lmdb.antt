-- ===== src/Drivers/Lmdb.antt =====
-- src/drivers/ia_lmdb.c, over any engine with the interface of LMDB. A handle that the engine frees is
-- `freed` until the driver sets its pointer anew; what is logged is left out.
mod Engine
pub mod Handles
pub mod Owned
pub mod Misuse
unfoldable pub use Engine.*
use ioarena.Base.{
  ℕ, Bool, true, false, not, ◌||◌, ◌&&◌, Option, none, some, List, [], if◌then◌else◌,
}
use ioarena.Bench.{Benchmark}
use ioarena.Config.Names.{SyncMode, WalMode}
use ioarena.Kv.Gen.{IaKv}
use ioarena.Doer.Driver.{Rc, success, not_found, Driver}
use ioarena.Doer.Turn.{minus_one, no_kv}
use ioarena.Drivers.Handle.{Handle, null, valid, freed, is_set, is_valid}

-- `struct iaprivate`: whether `env` is set, and whether `dbi` is not INVALID_DBI.
pub record LmdbPrivate : Type 0 where
  pub env : Bool
  pub dbi : Bool

-- `struct iacontext`, with the engine's state. `misused` tells whether a null or freed handle has been
-- passed to the engine, or a valid one overwritten.
pub record LmdbContext (S : Type 0) : Type 0 where
  pub txn : Handle
  pub cursor : Handle
  pub misused : Bool
  pub engine : S

-- The bytes of a value; a null pointer of size 0 has none.
abbrev pub value_bytes : Option (List ℕ) → List ℕ
value_bytes none = []
value_bytes (some v) = v

-- MDB_NOTFOUND is ENOENT, and any other error is -1.
abbrev pub enoent_or_minus : Mdb → Rc
enoent_or_minus mdb_success = success
enoent_or_minus mdb_notfound = not_found
enoent_or_minus (mdb_error code) = minus_one

module _ {S : Type 0} (env : MdbEnv S) where
  -- mdb_env_open and what follows, once the wal mode is known
  unfoldable pub lmdb_env_open : (datadir : List ℕ) → SyncMode → S → Bool × S
  lmdb_env_open datadir sync s =
      let r = env.env_open datadir (with_nordahead (lmdb_modeflags sync)) s in (is_success r.0, r.1)

  -- `ia_lmdb_open`: whether it returns 0, the private data and the engine's state.
  unfoldable pub ia_lmdb_open :
      (allocated : Bool) (datadir : List ℕ) → SyncMode → WalMode → S → Bool × Option LmdbPrivate × S
  ia_lmdb_open false datadir sync wal s = (false, none, s)
  ia_lmdb_open true datadir sync wal s =
      let created = env.env_create s in
      let sized = env.env_set_mapsize lmdb_mapsize created.1 in
      let opened = lmdb_env_open datadir sync sized.1 in
      if not (is_success created.0)
      then (false, some (record { env = false; dbi = false }), created.1)
      else if not (is_success sized.0)
      then (false, some (record { env = true; dbi = false }), sized.1)
      else elim wal [
        | WalMode.ia_wal_on ↦ (false, some (record { env = true; dbi = false }), sized.1)
        | WalMode.ia_wal_indef ↦ (opened.0, some (record { env = true; dbi = false }), opened.1)
        | WalMode.ia_wal_off ↦ (opened.0, some (record { env = true; dbi = false }), opened.1)
      ]

  -- `ia_lmdb_close`
  unfoldable pub ia_lmdb_close : Option LmdbPrivate → S → S
  ia_lmdb_close none s = s
  ia_lmdb_close (some self) s =
      let s' = if self.dbi then env.dbi_close s else s in if self.env then env.env_close s' else s'

module _ {S : Type 0} (e : MdbEngine S) where
  -- `ia_lmdb_thread_new`: `none` is NULL.
  unfoldable pub ia_lmdb_thread_new :
      (allocated : Bool) → LmdbPrivate → S → Option (LmdbContext S) × LmdbPrivate × S
  ia_lmdb_thread_new allocated self s =
      let context : S → Option (LmdbContext S) = λ s'.
        if allocated
        then some (record { txn = null; cursor = null; misused = false; engine = s' })
        else none in
      let begun = e.txn_begin false s in
      let opened = e.dbi_open begun.1 in
      let aborted = e.txn_abort opened.1 in
      if self.dbi
      then (context s, self, s)
      else if not (is_success begun.0)
      then (none, self, begun.1)
      else if not (is_success opened.0)
      then (none, self, aborted)
      else (context aborted, record self { dbi = true }, aborted)

  -- The calls of the engine on a context's handles.
  abbrev pub check : Handle → LmdbContext S → LmdbContext S
  check h c = record c { misused = c.misused || not (is_valid h) }

  abbrev pub close_cursor : LmdbContext S → LmdbContext S
  close_cursor c = record (check c.cursor c) { cursor = freed; engine = e.cursor_close c.engine }

  abbrev pub abort_txn : LmdbContext S → LmdbContext S
  abort_txn c = record (check c.txn c) { txn = freed; engine = e.txn_abort c.engine }

  abbrev pub begin_txn : (rdonly : Bool) → LmdbContext S → Mdb × LmdbContext S
  begin_txn rdonly c =
      let r = e.txn_begin rdonly c.engine in
      (
        r.0,
        record c {
          txn = (if is_success r.0 then valid else c.txn);
          misused = c.misused || (is_success r.0 && is_valid c.txn);
          engine = r.1;
        },
      )

  abbrev pub open_cursor : LmdbContext S → Mdb × LmdbContext S
  open_cursor c =
      let r = e.cursor_open c.engine in
      (
        r.0,
        record (check c.txn c) {
          cursor = (if is_success r.0 then valid else c.cursor);
          engine = r.1;
        },
      )

  -- if (ctx->cursor) { mdb_cursor_close; ctx->cursor = NULL; }
  abbrev pub drop_cursor : LmdbContext S → LmdbContext S
  drop_cursor c = if is_set c.cursor then record (close_cursor c) { cursor = null } else c

  -- if (ctx->txn) { mdb_txn_abort; ctx->txn = NULL; }
  abbrev pub drop_txn : LmdbContext S → LmdbContext S
  drop_txn c = if is_set c.txn then record (abort_txn c) { txn = null } else c

  -- `ia_lmdb_thread_dispose`, with what is left of the context
  unfoldable pub ia_lmdb_thread_dispose : LmdbContext S → LmdbContext S
  ia_lmdb_thread_dispose c =
      let c' = if is_set c.cursor then close_cursor c else c in
      if is_set c'.txn then abort_txn c' else c'

  -- 0, or -1 from `bailout`
  abbrev pub zero_or_minus : Mdb × LmdbContext S → Rc × LmdbContext S
  zero_or_minus (mdb_success, c) = (success, c)
  zero_or_minus (mdb_notfound, c) = (minus_one, c)
  zero_or_minus (mdb_error code, c) = (minus_one, c)

  -- case IA_SET: case IA_BATCH: case IA_CRUD: case IA_DELETE: of `ia_lmdb_begin`
  unfoldable pub lmdb_begin_write : LmdbContext S → Rc × LmdbContext S
  lmdb_begin_write c = zero_or_minus (begin_txn false (drop_txn (drop_cursor c)))

  -- if (ctx->txn) { rc = mdb_txn_renew(ctx->txn); ... }
  unfoldable pub lmdb_renew_txn : LmdbContext S → LmdbContext S
  lmdb_renew_txn c =
      let r = e.txn_renew c.engine in
      let c' = record (check c.txn c) { engine = r.1 } in
      if is_set c.txn
      then (if is_success r.0 then c' else record (abort_txn c') { txn = null })
      else c

  -- case IA_ITERATE: case IA_GET: up to the read transaction
  unfoldable pub lmdb_begin_read : LmdbContext S → Rc × LmdbContext S
  lmdb_begin_read c =
      let c' = lmdb_renew_txn c in
      if is_set c'.txn then (success, c') else zero_or_minus (begin_txn true c')

  -- if (ctx->cursor) { rc = mdb_cursor_renew(ctx->txn, ctx->cursor); ... }
  unfoldable pub lmdb_renew_cursor : LmdbContext S → LmdbContext S
  lmdb_renew_cursor c =
      let r = e.cursor_renew c.engine in
      let c' = record (check c.cursor (check c.txn c)) { engine = r.1 } in
      if is_set c.cursor
      then (if is_success r.0 then c' else record (close_cursor c') { cursor = null })
      else c

  -- if (step == IA_ITERATE)
  unfoldable pub lmdb_begin_iterate : LmdbContext S → Rc × LmdbContext S
  lmdb_begin_iterate c =
      let c' = lmdb_renew_cursor c in
      if is_set c'.cursor then (success, c') else zero_or_minus (open_cursor c')

  unfoldable pub ia_lmdb_begin : LmdbContext S → Benchmark → Rc × LmdbContext S
  ia_lmdb_begin c Benchmark.ia_set = lmdb_begin_write c
  ia_lmdb_begin c Benchmark.ia_batch = lmdb_begin_write c
  ia_lmdb_begin c Benchmark.ia_crud = lmdb_begin_write c
  ia_lmdb_begin c Benchmark.ia_delete = lmdb_begin_write c
  ia_lmdb_begin c Benchmark.ia_get = lmdb_begin_read c
  ia_lmdb_begin c Benchmark.ia_iterate =
      let r = lmdb_begin_read c in elim r.0 [ success ↦ lmdb_begin_iterate r.1 | _ ↦ r ]

  -- The commit of a write, which frees the transaction also where it fails.
  unfoldable pub lmdb_done_write : LmdbContext S → Rc × LmdbContext S
  lmdb_done_write c =
      let r = e.txn_commit c.engine in
      let c' = record (check c.txn c) { txn = freed; engine = r.1 } in
      if is_success r.0
      then (success, record c' { txn = null })
      else (minus_one, record (abort_txn c') { txn = null })

  unfoldable pub lmdb_done_read : LmdbContext S → Rc × LmdbContext S
  lmdb_done_read c = (success, record (check c.txn c) { engine = e.txn_reset c.engine })

  unfoldable pub ia_lmdb_done : LmdbContext S → Benchmark → Rc × LmdbContext S
  ia_lmdb_done c Benchmark.ia_set = lmdb_done_write c
  ia_lmdb_done c Benchmark.ia_batch = lmdb_done_write c
  ia_lmdb_done c Benchmark.ia_crud = lmdb_done_write c
  ia_lmdb_done c Benchmark.ia_delete = lmdb_done_write c
  ia_lmdb_done c Benchmark.ia_get = lmdb_done_read c
  ia_lmdb_done c Benchmark.ia_iterate = lmdb_done_read c

  unfoldable pub ia_lmdb_next : LmdbContext S → Benchmark → IaKv → Rc × IaKv × LmdbContext S
  ia_lmdb_next c Benchmark.ia_set kv =
      let r = e.put kv.k (value_bytes kv.v) c.engine in
      let r' = zero_or_minus (r.0, record (check c.txn c) { engine = r.1 }) in (r'.0, kv, r'.1)
  ia_lmdb_next c Benchmark.ia_delete kv =
      let r = e.del kv.k c.engine in
      (enoent_or_minus r.0, kv, record (check c.txn c) { engine = r.1 })
  ia_lmdb_next c Benchmark.ia_get kv =
      let r = e.get kv.k c.engine in
      (enoent_or_minus r.0, kv, record (check c.txn c) { engine = r.1 })
  ia_lmdb_next c Benchmark.ia_iterate kv =
      let r = e.cursor_get c.engine in
      let c' = record (check c.cursor c) { engine = r.2 } in
      elim r.0 [
        | mdb_success ↦ (success, r.1, c')
        | mdb_notfound ↦ (not_found, no_kv, c')
        | mdb_error code ↦ (minus_one, kv, c')
      ]
  ia_lmdb_next c Benchmark.ia_batch kv = (minus_one, kv, c)
  ia_lmdb_next c Benchmark.ia_crud kv = (minus_one, kv, c)

  -- iadriver ia_lmdb
  abbrev pub ia_lmdb : Driver (LmdbContext S)
  ia_lmdb = record { begin = ia_lmdb_begin; next = ia_lmdb_next; finish = ia_lmdb_done }
