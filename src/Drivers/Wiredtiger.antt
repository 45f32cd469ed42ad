-- ===== src/Drivers/Wiredtiger.antt =====
-- src/drivers/ia_wiredtiger.c, over any engine with the interface of WiredTiger. What is logged is left
-- out, and so are the settings of sessions and cursors that nothing sets.
pub mod Durable
use ioarena.Base.{ℕ, Bool, true, false, ◌&&◌, not, Option, none, some, List, ◌++◌, if◌then◌else◌}
use ioarena.Base.Text.{codes}
use ioarena.Bench.{Benchmark}
use ioarena.Config.Names.{SyncMode, WalMode}
use ioarena.Kv.Gen.{IaKv}
use ioarena.Doer.Driver.{Rc, success, not_found, failure, Driver, and_then}
use ioarena.Doer.Turn.{minus_one}
use ioarena.Drivers.Lmdb.{value_bytes}

-- What a call of the engine returns: 0, WT_NOTFOUND or another code.
pub data Wt : Type 0 where
  wt_ok wt_notfound : Wt
  wt_error : ℕ → Wt

-- The engine's functions on its state. What `checkpoint` returns the driver passes on as it is.
pub record WtEngine (S : Type 0) : Type 0 where
  pub open_connection : (datadir config : List ℕ) → S → Wt × S
  pub open_session : S → Wt × S
  pub create_table : (name config : List ℕ) → S → Wt × S
  pub close_session : S → Wt × S
  pub close_connection : S → S
  pub open_cursor : (name : List ℕ) → S → Wt × S
  pub close_cursor : S → S
  pub begin_transaction : S → Wt × S
  pub commit_transaction : S → Wt × S
  pub rollback_transaction : S → S
  pub checkpoint : S → Rc × S
  pub reset : S → Wt × S
  pub insert : (k v : List ℕ) → S → Wt × S
  pub remove : (k : List ℕ) → S → Wt × S
  pub search : (k : List ℕ) → S → Wt × S
  pub move_next : S → Wt × S
  pub get_key : S → Wt × List ℕ × ℕ × S
  pub get_value : S → Wt × List ℕ × ℕ × S

abbrev pub is_wt_ok : Wt → Bool
is_wt_ok wt_ok = true
is_wt_ok wt_notfound = false
is_wt_ok (wt_error code) = false

-- `struct iaprivate`: whether `conn` is set, and `need_checkpoints`.
pub record WtPrivate : Type 0 where
  pub conn : Bool
  pub need_checkpoints : Bool

-- `struct iacontext`, with the engine's state: whether the two pointers are set, and `transaction`.
pub record WtContext (S : Type 0) : Type 0 where
  pub session : Bool
  pub cursor : Bool
  pub transaction : Bool
  pub engine : S

-- The settings of the connection.
abbrev pub durability_config : SyncMode → List ℕ
durability_config SyncMode.ia_sync = codes "transaction_sync=(enabled=true),checkpoint_sync=true"
durability_config SyncMode.ia_lazy =
    codes "transaction_sync=(enabled=true,method=none),checkpoint_sync=true"
durability_config SyncMode.ia_nosync =
    codes "transaction_sync=(enabled=false),checkpoint_sync=false"

abbrev pub wal_config : WalMode → List ℕ
wal_config WalMode.ia_wal_indef = codes ""
wal_config WalMode.ia_wal_on = codes "log=(enabled=true),"
wal_config WalMode.ia_wal_off = codes "log=(enabled=false),"

abbrev pub wt_config : SyncMode → WalMode → List ℕ
wt_config sync wal = codes "create,cache_size=1Gb," ++ (wal_config wal ++ durability_config sync)

-- if (syncmode == IA_SYNC && walmode != IA_WAL_ON)
abbrev pub needs_checkpoints : SyncMode → WalMode → Bool
needs_checkpoints SyncMode.ia_sync WalMode.ia_wal_on = false
needs_checkpoints SyncMode.ia_sync WalMode.ia_wal_indef = true
needs_checkpoints SyncMode.ia_sync WalMode.ia_wal_off = true
needs_checkpoints SyncMode.ia_lazy wal = false
needs_checkpoints SyncMode.ia_nosync wal = false

abbrev pub table_name : List ℕ
table_name = codes "table:test"

abbrev pub table_config : List ℕ
table_config =
    codes "split_pct=100,leaf_item_max=1KB,type=lsm,internal_page_max=4KB,leaf_page_max=4KB"

-- if (rc != 0) goto bailout; with what `bailout` returns
abbrev pub wt_rc : Wt → Rc
wt_rc wt_ok = success
wt_rc wt_notfound = minus_one
wt_rc (wt_error code) = minus_one

module _ {S : Type 0} (e : WtEngine S) where
  -- `bailout` of `ia_wt_open` with a session, which is rolled back and closed
  abbrev pub give_up : S → S
  give_up s = (e.close_session (e.rollback_transaction s)).1

  -- `ia_wt_open` once the connection is open: whether it returns 0
  unfoldable pub wt_open_table : S → Bool × S
  wt_open_table s =
      let session = e.open_session s in
      let created = e.create_table table_name table_config session.1 in
      let closed = e.close_session created.1 in
      if not (is_wt_ok session.0)
      then (false, session.1)
      else if not (is_wt_ok created.0)
      then (false, give_up created.1)
      else if not (is_wt_ok closed.0)
      then (false, give_up closed.1)
      else (true, closed.1)

  -- `ia_wt_open`: whether it returns 0, the private data and the engine's state
  unfoldable pub ia_wt_open :
      (allocated : Bool) (datadir : List ℕ) → SyncMode → WalMode → S → Bool × Option WtPrivate × S
  ia_wt_open false datadir sync wal s = (false, none, s)
  ia_wt_open true datadir sync wal s =
      let r = e.open_connection datadir (wt_config sync wal) s in
      let t = wt_open_table r.1 in
      let self : (conn : Bool) → Option WtPrivate =
        λ conn. some (record { conn = conn; need_checkpoints = needs_checkpoints sync wal }) in
      if is_wt_ok r.0 then (t.0, self true, t.1) else (false, self false, r.1)

  -- `ia_wt_close`
  unfoldable pub ia_wt_close : Option WtPrivate → S → S
  ia_wt_close none s = s
  ia_wt_close (some self) s = if self.conn then e.close_connection s else s

  -- `ia_wiredtiger_thread_dispose`, with the engine's state after it
  unfoldable pub ia_wiredtiger_thread_dispose : WtContext S → S
  ia_wiredtiger_thread_dispose c =
      let s = if c.cursor then e.close_cursor c.engine else c.engine in
      let s' = if c.transaction then e.rollback_transaction s else s in
      if c.session then (e.close_session s').1 else s

  -- `ia_wiredtiger_thread_new`: `none` is NULL.
  unfoldable pub ia_wiredtiger_thread_new : (allocated : Bool) → S → Option (WtContext S) × S
  ia_wiredtiger_thread_new false s = (none, s)
  ia_wiredtiger_thread_new true s =
      let opened = e.open_session s in
      let moved = e.open_cursor table_name opened.1 in
      let made : (session cursor : Bool) → S → WtContext S = λ session cursor s'. record {
        session = session;
        cursor = cursor;
        transaction = false;
        engine = s';
      } in
      if not (is_wt_ok opened.0)
      then (none, ia_wiredtiger_thread_dispose (made false false opened.1))
      else if not (is_wt_ok moved.0)
      then (none, ia_wiredtiger_thread_dispose (made true false moved.1))
      else (some (made true true moved.1), moved.1)

  -- case IA_BATCH: case IA_CRUD: of `ia_wiredtiger_begin`
  abbrev pub wt_begin_txn : WtContext S → Rc × WtContext S
  wt_begin_txn c =
      let r = e.begin_transaction c.engine in
      if is_wt_ok r.0
      then (success, record c { transaction = true; engine = r.1 })
      else (minus_one, record c { engine = r.1 })

  unfoldable pub ia_wiredtiger_begin : WtContext S → Benchmark → Rc × WtContext S
  ia_wiredtiger_begin c Benchmark.ia_batch = wt_begin_txn c
  ia_wiredtiger_begin c Benchmark.ia_crud = wt_begin_txn c
  ia_wiredtiger_begin c Benchmark.ia_set = (success, c)
  ia_wiredtiger_begin c Benchmark.ia_delete = (success, c)
  ia_wiredtiger_begin c Benchmark.ia_get = (success, c)
  ia_wiredtiger_begin c Benchmark.ia_iterate =
      let r = e.reset c.engine in (wt_rc r.0, record c { engine = r.1 })

  module _ (self : WtPrivate) where
    -- case IA_DELETE: case IA_SET: and what falls through to it
    unfoldable pub wt_checkpoint : WtContext S → Rc × WtContext S
    wt_checkpoint c =
        let r = e.checkpoint c.engine in
        if self.need_checkpoints then (r.0, record c { engine = r.1 }) else (success, c)

    -- case IA_BATCH: case IA_CRUD: once the commit has been tried; what fails is rolled back
    abbrev pub wt_committed : WtContext S → Wt × S → Rc × WtContext S
    wt_committed c (wt_ok, s) = wt_checkpoint (record c { transaction = false; engine = s })
    wt_committed c (wt_notfound, s) =
        (minus_one, record c { transaction = false; engine = e.rollback_transaction s })
    wt_committed c (wt_error code, s) =
        (minus_one, record c { transaction = false; engine = e.rollback_transaction s })

    unfoldable pub wt_commit : WtContext S → Rc × WtContext S
    wt_commit c =
        if c.transaction then wt_committed c (e.commit_transaction c.engine) else wt_checkpoint c

    unfoldable pub ia_wiredtiger_done : WtContext S → Benchmark → Rc × WtContext S
    ia_wiredtiger_done c Benchmark.ia_batch = wt_commit c
    ia_wiredtiger_done c Benchmark.ia_crud = wt_commit c
    ia_wiredtiger_done c Benchmark.ia_delete = wt_checkpoint c
    ia_wiredtiger_done c Benchmark.ia_set = wt_checkpoint c
    ia_wiredtiger_done c Benchmark.ia_iterate = (success, c)
    ia_wiredtiger_done c Benchmark.ia_get = (success, c)

  -- case IA_GET: of `ia_wiredtiger_next` once the key has been searched for; what get_value returns is
  -- not looked at.
  abbrev pub wt_found : IaKv → WtContext S → Wt × S → Rc × IaKv × WtContext S
  wt_found kv c (wt_ok, s) =
      let r = e.get_value s in
      (success, record kv { v = some r.1; vsize = r.2 }, record c { engine = r.3 })
  wt_found kv c (wt_notfound, s) = (not_found, kv, record c { engine = s })
  wt_found kv c (wt_error code, s) = (minus_one, kv, record c { engine = s })

  -- case IA_ITERATE: once the cursor has moved
  unfoldable pub wt_read : IaKv → WtContext S → S → Rc × IaKv × WtContext S
  wt_read kv c s =
      let k = e.get_key s in
      let v = e.get_value k.3 in
      if not (is_wt_ok k.0)
      then (minus_one, kv, record c { engine = k.3 })
      else if not (is_wt_ok v.0)
      then (minus_one, kv, record c { engine = v.3 })
      else (
        success,
        record { ksize = k.2; vsize = v.2; k = k.1; v = some v.1 },
        record c { engine = v.3 },
      )

  abbrev pub wt_moved : IaKv → WtContext S → Wt × S → Rc × IaKv × WtContext S
  wt_moved kv c (wt_ok, s) = wt_read kv c s
  wt_moved kv c (wt_notfound, s) = (not_found, kv, record c { engine = s })
  wt_moved kv c (wt_error code, s) = (minus_one, kv, record c { engine = s })

  unfoldable pub ia_wiredtiger_next : WtContext S → Benchmark → IaKv → Rc × IaKv × WtContext S
  ia_wiredtiger_next c Benchmark.ia_set kv =
      let r = e.insert kv.k (value_bytes kv.v) c.engine in
      (wt_rc r.0, kv, record c { engine = r.1 })
  ia_wiredtiger_next c Benchmark.ia_delete kv =
      let r = e.remove kv.k c.engine in (wt_rc r.0, kv, record c { engine = r.1 })
  ia_wiredtiger_next c Benchmark.ia_get kv = wt_found kv c (e.search kv.k c.engine)
  ia_wiredtiger_next c Benchmark.ia_iterate kv = wt_moved kv c (e.move_next c.engine)
  ia_wiredtiger_next c Benchmark.ia_batch kv = (minus_one, kv, c)
  ia_wiredtiger_next c Benchmark.ia_crud kv = (minus_one, kv, c)

  -- iadriver ia_wt
  abbrev pub ia_wt : WtPrivate → Driver (WtContext S)
  ia_wt self = record {
    begin = ia_wiredtiger_begin;
    next = ia_wiredtiger_next;
    finish = ia_wiredtiger_done self;
  }
