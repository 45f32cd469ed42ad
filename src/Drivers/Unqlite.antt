-- ===== src/Drivers/Unqlite.antt =====
-- src/drivers/ia_unqlite.c, over any engine with the interface of UnQLite. What is logged is left out,
-- and so are the values that it reads into a buffer of its own.
pub mod Refines
use ioarena.Base.{ℕ, Bool, true, false, Option, none, some, List, ◌++◌, if◌then◌else◌}
use ioarena.Base.Text.{codes}
use ioarena.Bench.{Benchmark}
use ioarena.Config.Names.{WalMode}
use ioarena.Kv.Gen.{IaKv}
use ioarena.Doer.Driver.{Rc, success, not_found, Driver}
use ioarena.Doer.Turn.{minus_one}
use ioarena.Drivers.Lmdb.{value_bytes}

-- UNQLITE_OK, UNQLITE_NOTFOUND, UNQLITE_EOF or another code.
pub data Unq : Type 0 where
  unq_ok unq_notfound unq_eof : Unq
  unq_error : ℕ → Unq

-- The engine's functions on its state; `cursor_key` gives what it has written over a key.
pub record UnqEngine (S : Type 0) : Type 0 where
  pub open_db : (omit_journaling : Bool) (filename : List ℕ) → S → Unq × S
  pub close_db : S → S
  pub begin_txn : S → Unq × S
  pub commit : S → Unq × S
  pub cursor_init : S → Unq × S
  pub cursor_release : S → S
  pub cursor_next : S → Unq × S
  pub cursor_key : (k : List ℕ) (ksize : ℕ) → S → Unq × List ℕ × S
  pub cursor_data : S → Unq × S
  pub store : (k v : List ℕ) → S → Unq × S
  pub remove : (k : List ℕ) → S → Unq × S
  pub fetch : (k : List ℕ) → S → Unq × S

-- `self->db`: as malloc has left it, or as unqlite_open has.
pub data DbPointer : Type 0 where
  uninitialised opened : DbPointer

-- `struct iacontext`, with the engine's state: whether `cursor` is set.
pub record UnqContext (S : Type 0) : Type 0 where
  pub cursor : Bool
  pub engine : S

-- if (st != UNQLITE_OK) goto bailout;
abbrev pub unq_rc : Unq → Rc
unq_rc unq_ok = success
unq_rc unq_notfound = minus_one
unq_rc unq_eof = minus_one
unq_rc (unq_error code) = minus_one

-- if (st == UNQLITE_NOTFOUND) return ENOENT; goto bailout;
abbrev pub unq_enoent : Unq → Rc
unq_enoent unq_ok = success
unq_enoent unq_notfound = not_found
unq_enoent unq_eof = minus_one
unq_enoent (unq_error code) = minus_one

-- UNQLITE_OPEN_OMIT_JOURNALING
abbrev pub omits_journaling : WalMode → Bool
omits_journaling WalMode.ia_wal_indef = false
omits_journaling WalMode.ia_wal_on = false
omits_journaling WalMode.ia_wal_off = true

-- st == UNQLITE_OK
abbrev pub is_ok : Unq → Bool
is_ok unq_ok = true
is_ok unq_notfound = false
is_ok unq_eof = false
is_ok (unq_error code) = false

module _ {S : Type 0} (e : UnqEngine S) where
  -- `ia_unqlite_open`: whether it returns 0, the private data and the engine's state; `named` tells
  -- whether asprintf gives a name.
  unfoldable pub ia_unqlite_open :
      (allocated named : Bool) (datadir : List ℕ) → WalMode → S → Bool × Option DbPointer × S
  ia_unqlite_open false named datadir wal s = (false, none, s)
  ia_unqlite_open true false datadir wal s = (false, some uninitialised, s)
  ia_unqlite_open true true datadir wal s =
      let r = e.open_db (omits_journaling wal) (datadir ++ codes "/test.db") s in
      (is_ok r.0, some opened, r.1)

  -- `ia_unqlite_close`, and whether the engine is given a pointer that was never set
  unfoldable pub ia_unqlite_close : Option DbPointer → S → Bool × S
  ia_unqlite_close none s = (false, s)
  ia_unqlite_close (some uninitialised) s = (true, s)
  ia_unqlite_close (some opened) s = (false, e.close_db s)

  -- `ia_unqlite_thread_new`: `none` is NULL; and `ia_unqlite_thread_dispose`, with the engine's state
  abbrev pub ia_unqlite_thread_new : (allocated : Bool) → S → Option (UnqContext S)
  ia_unqlite_thread_new false s = none
  ia_unqlite_thread_new true s = some (record { cursor = false; engine = s })

  abbrev pub ia_unqlite_thread_dispose : UnqContext S → S
  ia_unqlite_thread_dispose c = if c.cursor then e.cursor_release c.engine else c.engine

  -- unqlite_begin and unqlite_commit, with the result of the driver
  abbrev pub unq_begin_txn : UnqContext S → Rc × UnqContext S
  unq_begin_txn c = let r = e.begin_txn c.engine in (unq_rc r.0, record c { engine = r.1 })

  abbrev pub unq_commit : UnqContext S → Rc × UnqContext S
  unq_commit c = let r = e.commit c.engine in (unq_rc r.0, record c { engine = r.1 })

  unfoldable pub ia_unqlite_begin : UnqContext S → Benchmark → Rc × UnqContext S
  ia_unqlite_begin c Benchmark.ia_get = (success, c)
  ia_unqlite_begin c Benchmark.ia_set = (success, c)
  ia_unqlite_begin c Benchmark.ia_delete = (success, c)
  ia_unqlite_begin c Benchmark.ia_iterate =
      let r = e.cursor_init c.engine in
      if is_ok r.0
      then (success, record { cursor = true; engine = r.1 })
      else (minus_one, record c { engine = r.1 })
  ia_unqlite_begin c Benchmark.ia_batch = unq_begin_txn c
  ia_unqlite_begin c Benchmark.ia_crud = unq_begin_txn c

  unfoldable pub ia_unqlite_done : UnqContext S → Benchmark → Rc × UnqContext S
  ia_unqlite_done c Benchmark.ia_get = (success, c)
  ia_unqlite_done c Benchmark.ia_set = (success, c)
  ia_unqlite_done c Benchmark.ia_delete = (success, c)
  ia_unqlite_done c Benchmark.ia_iterate =
      if c.cursor
      then (success, record { cursor = false; engine = e.cursor_release c.engine })
      else (success, c)
  ia_unqlite_done c Benchmark.ia_crud = unq_commit c
  ia_unqlite_done c Benchmark.ia_batch = unq_commit c

  -- case IA_ITERATE: of `ia_unqlite_next`, once the cursor has moved, and once its key has been read
  abbrev pub unq_data : IaKv → UnqContext S → Unq → Rc × IaKv × UnqContext S
  unq_data kv c unq_ok =
      let r = e.cursor_data c.engine in (unq_rc r.0, kv, record c { engine = r.1 })
  unq_data kv c unq_notfound = (minus_one, kv, c)
  unq_data kv c unq_eof = (minus_one, kv, c)
  unq_data kv c (unq_error code) = (minus_one, kv, c)

  abbrev pub unq_moved : IaKv → UnqContext S → Unq → Rc × IaKv × UnqContext S
  unq_moved kv c unq_ok =
      let r = e.cursor_key kv.k kv.ksize c.engine in
      unq_data (record kv { k = r.1 }) (record c { engine = r.2 }) r.0
  unq_moved kv c unq_notfound = (not_found, kv, c)
  unq_moved kv c unq_eof = (not_found, kv, c)
  unq_moved kv c (unq_error code) = (minus_one, kv, c)

  unfoldable pub ia_unqlite_next : UnqContext S → Benchmark → IaKv → Rc × IaKv × UnqContext S
  ia_unqlite_next c Benchmark.ia_set kv =
      let r = e.store kv.k (value_bytes kv.v) c.engine in
      (unq_rc r.0, kv, record c { engine = r.1 })
  ia_unqlite_next c Benchmark.ia_delete kv =
      let r = e.remove kv.k c.engine in (unq_enoent r.0, kv, record c { engine = r.1 })
  ia_unqlite_next c Benchmark.ia_get kv =
      let r = e.fetch kv.k c.engine in (unq_enoent r.0, kv, record c { engine = r.1 })
  ia_unqlite_next c Benchmark.ia_iterate kv =
      let r = e.cursor_next c.engine in unq_moved kv (record c { engine = r.1 }) r.0
  ia_unqlite_next c Benchmark.ia_batch kv = (minus_one, kv, c)
  ia_unqlite_next c Benchmark.ia_crud kv = (minus_one, kv, c)

  -- iadriver ia_unqlite
  abbrev pub ia_unqlite : Driver (UnqContext S)
  ia_unqlite = record { begin = ia_unqlite_begin; next = ia_unqlite_next; finish = ia_unqlite_done }
