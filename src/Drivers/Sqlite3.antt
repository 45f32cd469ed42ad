-- ===== src/Drivers/Sqlite3.antt =====
-- src/drivers/ia_sqlite3.c, over any engine with the interface of SQLite. Rows that are selected go
-- nowhere; what is logged is left out.
pub mod Closed
use ioarena.Base.{
  ℕ, Bool, true, false, not, ◌||◌, Option, none, some, List, [], ◌∷◌, ◌++◌, take, if◌then◌else◌,
  ◌+◌, ◌==◌,
}
use ioarena.Base.Text.{codes}
use ioarena.Bench.{Benchmark}
use ioarena.Config.Names.{SyncMode, WalMode}
use ioarena.Kv.Gen.{IaKv}
use ioarena.Doer.Driver.{Rc, success, not_found, failure, Driver, and_then}
use ioarena.Doer.Turn.{minus_one}
use ioarena.Drivers.Handle.{Handle, null, valid, freed, is_valid, is_set}
use ioarena.Drivers.Lmdb.{value_bytes}

-- What sqlite3_open comes to: it also gives a connection where it fails, but for want of memory.
pub data Connecting : Type 0 where
  connected failed_open no_memory : Connecting

-- The engine's functions on its state, with whether they return SQLITE_OK (SQLITE_DONE for `step`).
-- `close_db` is sqlite3_close where it closes the connection.
pub record SqliteEngine (S : Type 0) : Type 0 where
  pub open_db : (path : List ℕ) → S → Connecting × S
  pub close_db : S → S
  pub exec : (sql : List ℕ) → S → Bool × S
  pub prepare : (sql : List ℕ) → S → Bool × S
  pub bind_blob : (value : List ℕ) → S → Bool × S
  pub step : S → Bool × S
  pub finalize : S → S

-- `struct iaprivate`, with the engine's state: `misused` tells whether a freed connection has been
-- passed to the engine, and `statements` how many prepared ones have not been finalized. The context of
-- a thread holds nothing.
pub record SqliteState (S : Type 0) : Type 0 where
  pub db : Handle
  pub misused : Bool
  pub statements : ℕ
  pub engine : S

-- What sqlite3_open writes to `self->db`, and whether it returns 0.
abbrev pub connection : Connecting → Handle
connection connected = valid
connection failed_open = valid
connection no_memory = null

abbrev pub is_connected : Connecting → Bool
is_connected connected = true
is_connected failed_open = false
is_connected no_memory = false

-- What snprintf leaves in cmd_buf.
abbrev pub in_buffer : List ℕ → List ℕ
in_buffer sql = take 1023 sql

abbrev pub pragma_sync : SyncMode → List ℕ
pragma_sync SyncMode.ia_sync = codes "PRAGMA synchronous=2;"
pragma_sync SyncMode.ia_lazy = codes "PRAGMA synchronous=1;"
pragma_sync SyncMode.ia_nosync = codes "PRAGMA synchronous=0;"

abbrev pub pragma_wal : WalMode → List ℕ
pragma_wal WalMode.ia_wal_indef = []
pragma_wal WalMode.ia_wal_on = codes "PRAGMA journal_mode=WAL;"
pragma_wal WalMode.ia_wal_off = codes "PRAGMA journal_mode=OFF;"

abbrev pub create_table : List ℕ
create_table = codes "CREATE TABLE IF NOT EXISTS benchmark_t(key TEXT PRIMARY KEY, value BLOB)"

-- ENOSYS
abbrev pub enosys : Rc
enosys = failure 38

-- `text k` is what "%s" reads from a key on.
module _ (text : List ℕ → List ℕ) where
  abbrev pub quoted : List ℕ → List ℕ
  quoted k = 34 ∷ (text k ++ 34 ∷ [])

  unfoldable pub sql_insert : (k : List ℕ) → List ℕ
  sql_insert k =
      in_buffer
        (codes "INSERT INTO benchmark_t (key, value) VALUES(" ++ (quoted k ++ codes ", ?);"))

  unfoldable pub sql_delete : (k : List ℕ) → List ℕ
  sql_delete k = in_buffer (codes "DELETE FROM benchmark_t WHERE key = " ++ (quoted k ++ codes ";"))

  unfoldable pub sql_select : (k : List ℕ) → List ℕ
  sql_select k =
      in_buffer (codes "SELECT * FROM benchmark_t WHERE key = " ++ (quoted k ++ codes ";"))

module _ {S : Type 0} (e : SqliteEngine S) where
  -- The calls of the engine on the connection.
  abbrev pub sq_check : SqliteState S → SqliteState S
  sq_check c = record c { misused = c.misused || not (is_valid c.db) }

  -- sqlite3_close: nothing for a null connection, and SQLITE_BUSY while a prepared statement is left.
  abbrev pub sq_close_at : Handle → SqliteState S → SqliteState S
  sq_close_at null c = c
  sq_close_at freed c = record c { misused = true }
  sq_close_at valid c =
      if c.statements == 0 then record c { db = freed; engine = e.close_db c.engine } else c

  abbrev pub sq_close : SqliteState S → SqliteState S
  sq_close c = sq_close_at c.db c

  abbrev pub sq_exec : List ℕ → SqliteState S → Bool × SqliteState S
  sq_exec sql c = let r = e.exec sql c.engine in (r.0, record (sq_check c) { engine = r.1 })

  -- if (rc != SQLITE_OK) { sqlite3_close(self->db); goto bailout; }
  abbrev pub close_unless : Bool × SqliteState S → Bool × SqliteState S
  close_unless (true, c) = (true, c)
  close_unless (false, c) = (false, sq_close c)

  -- The statements of `ia_sqlite3_open`, up to the first that fails.
  unfoldable pub run_all : List (List ℕ) → SqliteState S → Bool × SqliteState S
  run_all [] c = (true, c)
  run_all (sql ∷ rest) c =
      let r = close_unless (sq_exec sql c) in
      let more = run_all rest r.1 in if r.0 then more else (false, r.1)

  -- `ia_sqlite3_open`: whether it returns 0, and the private data
  unfoldable pub ia_sqlite3_open :
      (allocated : Bool) (datadir : List ℕ) → SyncMode → WalMode → S → Bool × Option (SqliteState S)
  ia_sqlite3_open false datadir sync wal s = (false, none)
  ia_sqlite3_open true datadir sync wal s =
      let r = e.open_db (datadir ++ codes "/test.sqlite") s in
      let c : SqliteState S = record {
        db = connection r.0;
        misused = false;
        statements = 0;
        engine = r.1;
      } in
      let opened = close_unless (is_connected r.0, c) in
      let ran = run_all (pragma_sync sync ∷ pragma_wal wal ∷ create_table ∷ []) opened.1 in
      if opened.0 then (ran.0, some ran.1) else (false, some opened.1)

  -- `ia_sqlite3_close`
  unfoldable pub ia_sqlite3_close : SqliteState S → SqliteState S
  ia_sqlite3_close c = if is_set c.db then sq_close c else c

  -- "BEGIN;" or "COMMIT;" of a crud or batch
  abbrev pub sq_transact : List ℕ → SqliteState S → Rc × SqliteState S
  sq_transact sql c = let r = sq_exec sql c in if r.0 then (success, r.1) else (minus_one, r.1)

  unfoldable pub ia_sqlite3_begin : SqliteState S → Benchmark → Rc × SqliteState S
  ia_sqlite3_begin c Benchmark.ia_crud = sq_transact (codes "BEGIN;") c
  ia_sqlite3_begin c Benchmark.ia_batch = sq_transact (codes "BEGIN;") c
  ia_sqlite3_begin c Benchmark.ia_set = (success, c)
  ia_sqlite3_begin c Benchmark.ia_delete = (success, c)
  ia_sqlite3_begin c Benchmark.ia_iterate = (success, c)
  ia_sqlite3_begin c Benchmark.ia_get = (success, c)

  unfoldable pub ia_sqlite3_done : SqliteState S → Benchmark → Rc × SqliteState S
  ia_sqlite3_done c Benchmark.ia_crud = sq_transact (codes "COMMIT;") c
  ia_sqlite3_done c Benchmark.ia_batch = sq_transact (codes "COMMIT;") c
  ia_sqlite3_done c Benchmark.ia_set = (success, c)
  ia_sqlite3_done c Benchmark.ia_delete = (success, c)
  ia_sqlite3_done c Benchmark.ia_iterate = (success, c)
  ia_sqlite3_done c Benchmark.ia_get = (success, c)

  -- case IA_DELETE: and case IA_GET:
  unfoldable pub sq_run : List ℕ → SqliteState S → Rc × SqliteState S
  sq_run sql c =
      let r = close_unless (sq_exec sql c) in if r.0 then (success, r.1) else (minus_one, r.1)

  module _ (text : List ℕ → List ℕ) where
    -- case IA_SET: of `ia_sqlite3_next`; only a statement that has been carried out is finalized.
    unfoldable pub sq_set : SqliteState S → IaKv → Rc × SqliteState S
    sq_set c kv =
        let prepared = e.prepare (sql_insert text kv.k) c.engine in
        let bound = e.bind_blob (value_bytes kv.v) prepared.1 in
        let stepped = e.step bound.1 in
        let open_one : S → SqliteState S =
          λ s. record (sq_check c) { statements = c.statements + 1; engine = s } in
        if not prepared.0
        then (minus_one, record (sq_check c) { engine = prepared.1 })
        else if not bound.0
        then (minus_one, open_one bound.1)
        else if not stepped.0
        then (minus_one, open_one stepped.1)
        else (success, record (sq_check c) { engine = e.finalize stepped.1 })

    unfoldable pub ia_sqlite3_next : SqliteState S → Benchmark → IaKv → Rc × IaKv × SqliteState S
    ia_sqlite3_next c Benchmark.ia_set kv = let r = sq_set c kv in (r.0, kv, r.1)
    ia_sqlite3_next c Benchmark.ia_delete kv =
        let r = sq_run (sql_delete text kv.k) c in (r.0, kv, r.1)
    ia_sqlite3_next c Benchmark.ia_get kv =
        let r = sq_run (sql_select text kv.k) c in (r.0, kv, r.1)
    ia_sqlite3_next c Benchmark.ia_iterate kv = (enosys, kv, c)
    ia_sqlite3_next c Benchmark.ia_batch kv = (minus_one, kv, c)
    ia_sqlite3_next c Benchmark.ia_crud kv = (minus_one, kv, c)

    -- iadriver ia_sqlite3
    abbrev pub ia_sqlite3 : Driver (SqliteState S)
    ia_sqlite3 = record {
      begin = ia_sqlite3_begin;
      next = ia_sqlite3_next;
      finish = ia_sqlite3_done;
    }
