-- ===== src/Drivers/Mdbx.antt =====
-- src/drivers/ia_mdbx.c, over any engine with the interface of libmdbx: that of LMDB, but for the codes
-- that aborts and resets return. Its context has the same two pointers. What is logged is left out.
mod Modes
pub mod Calls
pub mod Options
pub mod Print
pub mod Settings
pub mod Flags
pub mod Refines
pub mod Unknown
unfoldable pub use Modes.*
use ioarena.Base.{ℕ, ◌*◌, Bool, true, false, not, ◌||◌, Option, none, some, List, if◌then◌else◌}
use ioarena.Bench.{Benchmark}
use ioarena.Config.Names.{SyncMode, WalMode}
use ioarena.Kv.Gen.{IaKv}
use ioarena.Doer.Driver.{Rc, success, not_found, Driver}
use ioarena.Doer.Turn.{minus_one, no_kv}
use ioarena.Drivers.Handle.{null, freed, is_set}
use ioarena.Drivers.Lmdb.{
  Mdb, mdb_success, mdb_notfound, mdb_error, MdbEngine, LmdbContext, is_success, close_cursor,
  abort_txn, begin_txn, open_cursor, drop_cursor, check, zero_or_minus, value_bytes,
  enoent_or_minus, lmdb_renew_cursor,
}

-- The arguments of mdbx_env_set_geometry; `none` is -1.
pub record Geometry : Type 0 where
  pub size_lower : ℕ
  pub size_now : ℕ
  pub size_upper : ℕ
  pub growth_step : ℕ
  pub shrink_threshold : ℕ
  pub pagesize : Option ℕ

abbrev pub giga : ℕ
giga = 1073741824

abbrev pub mega : ℕ
mega = 1048576

abbrev pub mdbx_geometry : Geometry
mdbx_geometry = record {
  size_lower = 4 * giga;
  size_now = 4 * giga;
  size_upper = 128 * giga;
  growth_step = 64 * mega;
  shrink_threshold = 128 * mega;
  pagesize = none;
}

-- The engine's functions on an environment.
pub record MdbxEnv (S : Type 0) : Type 0 where
  pub env_create : S → Mdb × S
  pub env_set_geometry : Geometry → S → Mdb × S
  pub env_open : (datadir : List ℕ) → (MdbxFlag → Bool) → S → Mdb × S
  pub env_close : S → S
  pub dbi_close : S → S

-- Its functions on transactions and cursors, with the codes of those that LMDB gives none for.
pub record MdbxEngine (S : Type 0) : Type 0 where
  pub calls : MdbEngine S
  pub abort_rc : S → Mdb
  pub reset_rc : S → Mdb

-- `struct iaprivate`: whether `env` is set, and whether `dbi` is not INVALID_DBI.
pub record MdbxPrivate : Type 0 where
  pub has_env : Bool
  pub has_dbi : Bool

module _ {S : Type 0} (env : MdbxEnv S) where
  -- `ia_mdbx_open`: whether it returns 0, the private data and the engine's state.
  unfoldable pub ia_mdbx_open :
      (allocated : Bool) (datadir : List ℕ)
      → SyncMode
      → WalMode
      → MdbxOpts
      → S
      → Bool × Option MdbxPrivate × S
  ia_mdbx_open false datadir sync wal globals s = (false, none, s)
  ia_mdbx_open true datadir sync wal globals s =
      let created = env.env_create s in
      let sized = env.env_set_geometry mdbx_geometry created.1 in
      let opened = env.env_open datadir (mdbx_modeflags sync wal globals) sized.1 in
      if not (is_success created.0)
      then (false, some (record { has_env = false; has_dbi = false }), created.1)
      else if not (is_success sized.0)
      then (false, some (record { has_env = true; has_dbi = false }), sized.1)
      else (is_success opened.0, some (record { has_env = true; has_dbi = false }), opened.1)

  -- `ia_mdbx_close`
  unfoldable pub ia_mdbx_close : Option MdbxPrivate → S → S
  ia_mdbx_close none s = s
  ia_mdbx_close (some self) s =
      let s' = if self.has_dbi then env.dbi_close s else s in
      if self.has_env then env.env_close s' else s'

module _ {S : Type 0} (e : MdbxEngine S) where
  -- `ia_mdbx_thread_new`: `none` is NULL.
  unfoldable pub ia_mdbx_thread_new :
      (allocated : Bool) → MdbxPrivate → S → Option (LmdbContext S) × MdbxPrivate × S
  ia_mdbx_thread_new allocated self s =
      let context : S → Option (LmdbContext S) = λ s'.
        if allocated
        then some (record { txn = null; cursor = null; misused = false; engine = s' })
        else none in
      let begun = e.calls.txn_begin true s in
      let opened = e.calls.dbi_open begun.1 in
      let aborted = e.calls.txn_abort opened.1 in
      if self.has_dbi
      then (context s, self, s)
      else if not (is_success begun.0)
      then (none, self, begun.1)
      else if not (is_success opened.0)
      then (none, self, aborted)
      else (context aborted, record self { has_dbi = true }, aborted)

  -- `ia_mdbx_thread_dispose`, with what is left of the context
  unfoldable pub ia_mdbx_thread_dispose : LmdbContext S → LmdbContext S
  ia_mdbx_thread_dispose c =
      let c' = if is_set c.cursor then close_cursor e.calls c else c in
      if is_set c'.txn then abort_txn e.calls c' else c'

  -- rc = mdbx_txn_abort(ctx->txn); ctx->txn = NULL;
  abbrev pub mdbx_abort : LmdbContext S → Mdb × LmdbContext S
  mdbx_abort c = (e.abort_rc c.engine, record (abort_txn e.calls c) { txn = null })

  -- case IA_SET: case IA_BATCH: case IA_CRUD: case IA_DELETE: of `ia_mdbx_begin`
  unfoldable pub mdbx_begin_write : LmdbContext S → Rc × LmdbContext S
  mdbx_begin_write c =
      let c' = drop_cursor e.calls c in
      let dropped : Mdb × LmdbContext S =
        if is_set c'.txn then mdbx_abort c' else (mdb_success, c') in
      if is_success dropped.0
      then zero_or_minus e.calls (begin_txn e.calls false dropped.1)
      else (minus_one, dropped.1)

  -- if (ctx->txn) { rc = mdbx_txn_renew(ctx->txn); ... }
  unfoldable pub mdbx_renew_txn : LmdbContext S → Mdb × LmdbContext S
  mdbx_renew_txn c =
      let r = e.calls.txn_renew c.engine in
      let c' = record (check e.calls c.txn c) { engine = r.1 } in
      if is_set c.txn
      then (if is_success r.0 then (mdb_success, c') else mdbx_abort c')
      else (mdb_success, c)

  -- case IA_ITERATE: case IA_GET: up to the read transaction
  unfoldable pub mdbx_begin_read : LmdbContext S → Rc × LmdbContext S
  mdbx_begin_read c =
      let r = mdbx_renew_txn c in
      if not (is_success r.0)
      then (minus_one, r.1)
      else if is_set r.1.txn
      then (success, r.1)
      else zero_or_minus e.calls (begin_txn e.calls true r.1)

  -- if (step == IA_ITERATE), with the cursor renewed as for LMDB
  unfoldable pub mdbx_begin_iterate : LmdbContext S → Rc × LmdbContext S
  mdbx_begin_iterate c =
      let c' = lmdb_renew_cursor e.calls c in
      if is_set c'.cursor then (success, c') else zero_or_minus e.calls (open_cursor e.calls c')

  unfoldable pub ia_mdbx_begin : LmdbContext S → Benchmark → Rc × LmdbContext S
  ia_mdbx_begin c Benchmark.ia_set = mdbx_begin_write c
  ia_mdbx_begin c Benchmark.ia_batch = mdbx_begin_write c
  ia_mdbx_begin c Benchmark.ia_crud = mdbx_begin_write c
  ia_mdbx_begin c Benchmark.ia_delete = mdbx_begin_write c
  ia_mdbx_begin c Benchmark.ia_get = mdbx_begin_read c
  ia_mdbx_begin c Benchmark.ia_iterate =
      let r = mdbx_begin_read c in elim r.0 [ success ↦ mdbx_begin_iterate r.1 | _ ↦ r ]

  -- The commit of a write, which frees the transaction also where it fails.
  unfoldable pub mdbx_done_write : LmdbContext S → Rc × LmdbContext S
  mdbx_done_write c =
      let r = e.calls.txn_commit c.engine in
      let c' = record (check e.calls c.txn c) { txn = freed; engine = r.1 } in
      if is_success r.0 then (success, record c' { txn = null }) else (minus_one, (mdbx_abort c').1)

  unfoldable pub mdbx_done_read : LmdbContext S → Rc × LmdbContext S
  mdbx_done_read c =
      zero_or_minus e.calls (
        e.reset_rc c.engine,
        record (check e.calls c.txn c) { engine = e.calls.txn_reset c.engine },
      )

  unfoldable pub ia_mdbx_done : LmdbContext S → Benchmark → Rc × LmdbContext S
  ia_mdbx_done c Benchmark.ia_set = mdbx_done_write c
  ia_mdbx_done c Benchmark.ia_batch = mdbx_done_write c
  ia_mdbx_done c Benchmark.ia_crud = mdbx_done_write c
  ia_mdbx_done c Benchmark.ia_delete = mdbx_done_write c
  ia_mdbx_done c Benchmark.ia_get = mdbx_done_read c
  ia_mdbx_done c Benchmark.ia_iterate = mdbx_done_read c

  unfoldable pub ia_mdbx_next : LmdbContext S → Benchmark → IaKv → Rc × IaKv × LmdbContext S
  ia_mdbx_next c Benchmark.ia_set kv =
      let r = e.calls.put kv.k (value_bytes kv.v) c.engine in
      let r' = zero_or_minus e.calls (r.0, record (check e.calls c.txn c) { engine = r.1 }) in
      (r'.0, kv, r'.1)
  ia_mdbx_next c Benchmark.ia_delete kv =
      let r = e.calls.del kv.k c.engine in
      (enoent_or_minus r.0, kv, record (check e.calls c.txn c) { engine = r.1 })
  ia_mdbx_next c Benchmark.ia_get kv =
      let r = e.calls.get kv.k c.engine in
      (enoent_or_minus r.0, kv, record (check e.calls c.txn c) { engine = r.1 })
  ia_mdbx_next c Benchmark.ia_iterate kv =
      let r = e.calls.cursor_get c.engine in
      let c' = record (check e.calls c.cursor c) { engine = r.2 } in
      elim r.0 [
        | mdb_success ↦ (success, r.1, c')
        | mdb_notfound ↦ (not_found, no_kv, c')
        | mdb_error code ↦ (minus_one, kv, c')
      ]
  ia_mdbx_next c Benchmark.ia_batch kv = (minus_one, kv, c)
  ia_mdbx_next c Benchmark.ia_crud kv = (minus_one, kv, c)

  -- iadriver ia_mdbx
  abbrev pub ia_mdbx : Driver (LmdbContext S)
  ia_mdbx = record { begin = ia_mdbx_begin; next = ia_mdbx_next; finish = ia_mdbx_done }
