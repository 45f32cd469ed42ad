-- ===== src/Drivers/Tests/Others.antt =====
-- The models of the other drivers of src/drivers at concrete inputs.
use ioarena.Base.{
  ℕ, suc, ◌+◌, ◌-◌, ◌≤◌, ◌<◌, ◌≡◌, ◌≢◌, refl, arith, true, false, not, none, some, [], ◌∷◌, ◌==◌,
}
use ioarena.Bench.{Benchmark}
use ioarena.Config.Names.{SyncMode, WalMode}
use ioarena.Kv.Fill.{done}
use ioarena.Doer.Driver.{Rc, success, not_found, Doer, Conf}
use ioarena.Doer.Run.{ia_run_benchmark}
use ioarena.Doer.Simulate.{Agree, BothRun}
use ioarena.Doer.Simulate.Runs.{EndAgree}
use ioarena.Doer.Turn.{iterate_loop}
use ioarena.Doer.Iterate.{iterate_loop-visits}
use ioarena.Drivers.Store.{Store, no_keys, assign, unassign, store_driver}
use ioarena.Drivers.Leveldb.{LevelEngine, LevelContext, ia_leveldb}
use ioarena.Drivers.Leveldb.Iterate.{IsIterator, level_cursor}
use ioarena.Drivers.Unqlite.{UnqEngine, UnqContext, unq_ok, ia_unqlite}
use ioarena.Drivers.Unqlite.Refines.{
  IsUnqTable, unq_answer, HoldsTable, unqlite_simulation, unqlite_refines-store,
}
use ioarena.Drivers.Wiredtiger.{
  WtEngine, WtPrivate, WtContext, wt_ok, wt_notfound, wt_open_table, ia_wt_open, wt_checkpoint,
  wt_commit, ia_wiredtiger_done,
}
use ioarena.Drivers.Wiredtiger.Durable.{Checkpoints, wt_open-done_durable}
use ioarena.Drivers.Tests.{settings, printable_keys, doer_of}

-- An engine that is a table.
abbrev unq_table : UnqEngine Store
unq_table = record {
  open_db = λ omit name s. (unq_ok, s);
  close_db = λ s. s;
  begin_txn = λ s. (unq_ok, s);
  commit = λ s. (unq_ok, s);
  cursor_init = λ s. (unq_ok, s);
  cursor_release = λ s. s;
  cursor_next = λ s. (unq_ok, s);
  cursor_key = λ k size s. (unq_ok, k, s);
  cursor_data = λ s. (unq_ok, s);
  store = λ k v s. (unq_ok, assign k v s);
  remove = λ k s. (unq_answer (s k), unassign k s);
  fetch = λ k s. (unq_answer (s k), s);
}

abbrev is_unq_table : IsUnqTable unq_table
is_unq_table = record {
  contents = λ s. s;
  begins = λ s. (refl, refl);
  commits = λ s. (refl, refl);
  stores = λ k v s. (refl, refl);
  removes = λ k s. (refl, refl);
  fetches = λ k s. (refl, refl);
}

not_iterate : Benchmark.ia_crud ≢ Benchmark.ia_iterate
not_iterate e = ground arith

abbrev unq_doer : Doer (UnqContext Store)
unq_doer = doer_of (record { cursor = false; engine = no_keys })

abbrev store_doer : Doer Store
store_doer = doer_of no_keys

same_start : Agree (HoldsTable unq_table is_unq_table) unq_doer store_doer
same_start = record { contexts = refl; gen_a = refl; gen_b = refl; calls = refl }

unqlite_refines-store_example :
    BothRun
      (EndAgree
        (unqlite_simulation unq_table is_unq_table Benchmark.ia_crud not_iterate)
        settings
        printable_keys
        true)
      (ia_run_benchmark
        (ia_unqlite unq_table)
        settings
        printable_keys
        true
        Benchmark.ia_crud
        unq_doer)
      (ia_run_benchmark store_driver settings printable_keys true Benchmark.ia_crud store_doer)
unqlite_refines-store_example =
    unqlite_refines-store unq_table is_unq_table settings printable_keys true Benchmark.ia_crud
      not_iterate unq_doer store_doer same_start

-- An engine with a table and the one that a crash leaves, which a checkpoint writes.
abbrev Saved : Type 0
Saved = Store × Store

abbrev checkpointed : WtEngine Saved
checkpointed = record {
  open_connection = λ dir config s. (wt_ok, s);
  open_session = λ s. (wt_ok, s);
  create_table = λ name config s. (wt_ok, s);
  close_session = λ s. (wt_ok, s);
  close_connection = λ s. s;
  open_cursor = λ name s. (wt_ok, s);
  close_cursor = λ s. s;
  begin_transaction = λ s. (wt_ok, s);
  commit_transaction = λ s. (wt_ok, s);
  rollback_transaction = λ s. s;
  checkpoint = λ s. (success, (s.0, s.0));
  reset = λ s. (wt_ok, s);
  insert = λ k v s. (wt_ok, (assign k v s.0, s.1));
  remove = λ k s. (wt_notfound, s);
  search = λ k s. (wt_notfound, s);
  move_next = λ s. (wt_notfound, s);
  get_key = λ s. (wt_ok, [], 0, s);
  get_value = λ s. (wt_ok, [], 0, s);
}

abbrev are_saved : Checkpoints checkpointed
are_saved = record { contents = λ s. s.0; durable = λ s. s.1; saves = λ s ok. refl }

abbrev checks : WtPrivate
checks = record { conn = true; need_checkpoints = true }

abbrev one_written : WtContext Saved
one_written = record {
  session = true;
  cursor = true;
  transaction = true;
  engine = (assign (1 ∷ []) (7 ∷ []) no_keys, no_keys);
}

no_log : WalMode.ia_wal_off ≢ WalMode.ia_wal_on
no_log e = ground arith

opens_in_sync :
    (ia_wt_open checkpointed true [] SyncMode.ia_sync WalMode.ia_wal_off (no_keys, no_keys)).1
    ≡ some checks
unfolding ia_wt_open wt_open_table
opens_in_sync = refl

commits : (ia_wiredtiger_done checkpointed checks one_written Benchmark.ia_crud).0 ≡ success
unfolding ia_wiredtiger_done wt_commit wt_checkpoint
commits = refl

wt_open-done_durable_example :
    let s = (ia_wiredtiger_done checkpointed checks one_written Benchmark.ia_crud).1.engine in
    s.1 ≡ s.0
wt_open-done_durable_example =
    wt_open-done_durable checkpointed are_saved [] WalMode.ia_wal_off (no_keys, no_keys) checks
      one_written Benchmark.ia_crud no_log opens_in_sync tt commits

-- An engine whose state is the number of pairs that an iterator has to go.
abbrev counting : LevelEngine ℕ Unit
counting = record {
  create_iterator = λ s. (true, s);
  iter_seek_to_first = λ s. s;
  iter_valid = λ s. not (s == 0);
  iter_key = λ s. (0, []);
  iter_next = λ s. s - 1;
  iter_destroy = λ s. s;
  writebatch_create = some tt;
  writebatch_put = λ k v b. b;
  writebatch_delete = λ k b. b;
  write = λ b s. (true, s);
  put = λ k v s. (true, s);
  delete = λ k s. (true, s);
  get = λ k s. (true, none, 0, s);
}

counts_down : (s n : ℕ) → s ≡ suc n → (not (s == 0) ≡ true) × (s - 1 ≡ n)
counts_down s n e = ground arith

counts_out : (s : ℕ) → s ≡ 0 → not (s == 0) ≡ false
counts_out s e = ground arith

abbrev is_iterator : IsIterator counting
is_iterator = record { left = λ s. s; passes = counts_down; stops = counts_out }

abbrev three_to_go : Doer (LevelContext ℕ Unit)
three_to_go = doer_of (record { it = true; batch = none; result = none; engine = 3 })

abbrev ten : Conf
ten = record { count = 10; batch_length = 5; ignore_keynotfound = false }

-- Of ten operations four are made, from the first on.
iterate_loop-visits_example :
    (rc : Rc) × (i' : ℕ) × (d' : Doer (LevelContext ℕ Unit)) × (iterate_loop
        (ia_leveldb counting)
        ten
        printable_keys
        10
        success
        0
        three_to_go
      ≡ done (rc, i', d'))
    × (0 + 3 < 10 → (rc ≡ not_found) × (i' ≡ 0 + 3 + 1))
    × (10 ≤ 0 + 3 → (rc ≡ success) × (i' ≡ 10))
unfolding level_cursor
iterate_loop-visits_example =
    iterate_loop-visits (ia_leveldb counting) (level_cursor counting is_iterator) ten printable_keys
      9 0 3 three_to_go refl refl
