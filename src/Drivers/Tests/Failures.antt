-- ===== src/Drivers/Tests/Failures.antt =====
-- What drivers of src/drivers make of missing keys and of failures, at concrete inputs.
use ioarena.Base.{ℕ, ◌≡◌, ◌≢◌, refl, arith, true, false, not, ◌&&◌, some, List, []}
use ioarena.Bench.{Benchmark}
use ioarena.Config.Names.{SyncMode, WalMode}
use ioarena.Config.Parse.{ready}
use ioarena.Doer.Driver.{success, failure, Doer, Conf}
use ioarena.Doer.Turn.{bailout, again, minus_one, single_ops}
use ioarena.Drivers.Handle.{valid, null}
use ioarena.Drivers.Sqlite3.{
  connected, SqliteEngine, SqliteState, ia_sqlite3_open, ia_sqlite3_close, ia_sqlite3_next,
}
use ioarena.Drivers.Sqlite3.Closed.{sqlite_open-closes, sqlite_next-closes}
use ioarena.Drivers.Wiredtiger.{WtEngine, WtPrivate, WtContext, wt_ok, wt_notfound, ia_wt}
use ioarena.Drivers.Vedisdb.{VedisEngine, ved_ok, ved_notfound, ia_vedisdb, ia_vedisdb_open}
use ioarena.Drivers.Sophia.{SophiaEngine, SophiaContext, sp_null, sp_no_bytes, no_txn, ia_sophia}
use ioarena.Drivers.Upscaledb.{UpsEngine, UpsContext, ups_success, ups_key_not_found, ia_upscaledb}
use ioarena.Drivers.Missing.{missing_key-results}
use ioarena.Drivers.Tests.{printable_keys, doer_of, pair_of}
use ioarena.Run.Control.Tests.{settings}
use ioarena.Main.{InitCalls, ia_init}
use ioarena.Main.Opened.{vedisdb_open-unseen}

-- SQLite engines without a state: one that opens but refuses every statement.
abbrev refusing : SqliteEngine Unit
refusing = record {
  open_db = λ path s. (connected, s);
  close_db = λ s. s;
  exec = λ sql s. (false, s);
  prepare = λ sql s. (false, s);
  bind_blob = λ v s. (false, s);
  step = λ s. (false, s);
  finalize = λ s. s;
}

sqlite_open-closes_example :
    let r = ia_sqlite3_open refusing true [] SyncMode.ia_lazy WalMode.ia_wal_on tt in
    (c : SqliteState Unit) × (r.1 ≡ some c)
    × (c.misused ≡ false)
    × ((ia_sqlite3_close refusing c).misused ≡ not r.0 && true)
    × (true ≡ false → (r.0 ≡ false) × ((ia_sqlite3_close refusing c).db ≡ null))
sqlite_open-closes_example = sqlite_open-closes refusing [] SyncMode.ia_lazy WalMode.ia_wal_on tt

abbrev in_use : SqliteState Unit
in_use = record { db = valid; misused = false; statements = 0; engine = tt }

abbrev as_text : List ℕ → List ℕ
as_text k = k

sqlite_next-closes_example :
    let r = ia_sqlite3_next refusing as_text in_use Benchmark.ia_delete (pair_of 1) in
    (false ≡ true → (r.0 ≡ success) × ((r.2).db ≡ valid))
    × (false ≡ false → r.0 ≡ minus_one)
    × ((ia_sqlite3_close refusing r.2).misused ≡ true)
sqlite_next-closes_example =
    sqlite_next-closes refusing as_text Benchmark.ia_delete in_use (pair_of 1) tt refl refl

-- Engines that find no key.
abbrev wt_empty : WtEngine Unit
wt_empty = record {
  open_connection = λ dir config s. (wt_ok, s);
  open_session = λ s. (wt_ok, s);
  create_table = λ name config s. (wt_ok, s);
  close_session = λ s. (wt_ok, s);
  close_connection = λ s. s;
  open_cursor = λ name s. (wt_ok, s);
  close_cursor = λ s. s;
  begin_transaction = λ s. (wt_ok, s);
  commit_transaction = λ s. (wt_ok, s);
  rollback_transaction = λ s. s;
  checkpoint = λ s. (success, s);
  reset = λ s. (wt_ok, s);
  insert = λ k v s. (wt_ok, s);
  remove = λ k s. (wt_notfound, s);
  search = λ k s. (wt_notfound, s);
  move_next = λ s. (wt_notfound, s);
  get_key = λ s. (wt_ok, [], 0, s);
  get_value = λ s. (wt_ok, [], 0, s);
}

-- It also fails to open its database, with the code 77.
abbrev vedis_empty : VedisEngine Unit
vedis_empty = record {
  lib_init = λ s. (success, s);
  open_db = λ path s. (failure 77, s);
  close_db = λ s. s;
  lib_shutdown = λ s. s;
  begin_txn = λ s. (ved_ok, s);
  commit = λ s. (ved_ok, s);
  rollback = λ s. s;
  kv_store = λ k v s. (ved_ok, s);
  kv_delete = λ k s. (ved_notfound, s);
  kv_fetch = λ k s. (ved_notfound, s);
}

abbrev sophia_empty : SophiaEngine Unit
sophia_empty = record {
  env = λ s. (true, s);
  set_option = λ o s. s;
  open_env = λ s. (success, s);
  destroy_env = λ s. (success, s);
  begin_txn = λ s. (true, s);
  cursor = λ s. (true, s);
  document = λ s. s;
  destroy_object = λ s. s;
  destroy_txn = λ s. s;
  destroy_cursor = λ s. s;
  commit = λ s. (success, s);
  set = λ within k v s. (success, s);
  delete = λ within k s. (success, s);
  get = λ k s. (sp_null, s);
  next_of = λ s. (sp_null, s);
  string_of = λ field s. (sp_no_bytes, s);
}

abbrev ups_empty : UpsEngine Unit
ups_empty = record {
  env_create = λ name flags s. (ups_success, s);
  env_create_db = λ s. (ups_success, s);
  db_close = λ s. s;
  env_close = λ s. s;
  cursor_create = λ s. (true, s);
  cursor_close = λ s. s;
  cursor_move = λ s. (ups_key_not_found, pair_of 0, s);
  txn_begin = λ s. (true, s);
  txn_commit = λ s. (ups_success, s);
  txn_abort = λ s. s;
  db_insert = λ k v s. (ups_success, s);
  db_erase = λ k s. (ups_key_not_found, s);
  db_find = λ k s. (ups_key_not_found, [], s);
}

abbrev lenient : Conf
lenient = record { count = 10; batch_length = 5; ignore_keynotfound = true }

abbrev wt_doer : Doer (WtContext Unit)
wt_doer = doer_of (record { session = true; cursor = true; transaction = false; engine = tt })

abbrev vedis_doer : Doer Unit
vedis_doer = doer_of tt

abbrev sophia_doer : Doer (SophiaContext Unit)
sophia_doer = doer_of (record { cursor = false; entry = false; txn = no_txn; engine = tt })

abbrev ups_doer : Doer (UpsContext Unit)
ups_doer = doer_of (record { txn = false; cursor = false; engine = tt })

abbrev unlogged : WtPrivate
unlogged = record { conn = true; need_checkpoints = false }

missing_key-results_example :
    ((single_ops
        (ia_wt wt_empty unlogged)
        lenient
        printable_keys
        Benchmark.ia_delete
        0
        (pair_of 1)
        wt_doer).0
      ≡ bailout minus_one)
    × ((single_ops
          (ia_vedisdb vedis_empty)
          lenient
          printable_keys
          Benchmark.ia_delete
          0
          (pair_of 1)
          vedis_doer).0
        ≡ bailout minus_one)
    × ((single_ops
          (ia_sophia sophia_empty)
          lenient
          printable_keys
          Benchmark.ia_get
          0
          (pair_of 1)
          sophia_doer).0
        ≡ again success 1)
    × ((single_ops
          (ia_upscaledb ups_empty)
          lenient
          printable_keys
          Benchmark.ia_get
          0
          (pair_of 1)
          ups_doer).0
        ≡ again success 1)
missing_key-results_example =
    missing_key-results lenient printable_keys 0 (pair_of 1) wt_empty vedis_empty sophia_empty
      ups_empty unlogged wt_doer vedis_doer sophia_doer ups_doer refl refl refl refl

abbrev calls_of : InitCalls
calls_of = record {
  configinit = success;
  rusage = success;
  option = λ arg. success;
  opened = failure 77;
}

not_minus_one : failure 77 ≢ minus_one
not_minus_one e = ground arith

vedis_returns : calls_of.opened ≡ (ia_vedisdb_open vedis_empty true [] tt).0
unfolding ia_vedisdb_open
vedis_returns = refl

vedisdb_open-unseen_example :
    (calls_of.opened ≡ failure 77) × ((ia_init calls_of (ready settings)).0 ≡ success)
vedisdb_open-unseen_example =
    vedisdb_open-unseen vedis_empty [] tt calls_of settings refl refl refl (λ arg. refl)
      vedis_returns not_minus_one
