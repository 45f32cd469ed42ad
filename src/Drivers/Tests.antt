-- ===== src/Drivers/Tests.antt =====
-- Runs of the models of src/drivers, and their theorems at concrete inputs.
mod Mdbx
mod Leveldb
mod Others
mod Failures
use ioarena.Base.{
  ℕ, ◌≡◌, ◌≢◌, refl, true, false, none, some, List, [], ◌∷◌, replicate, arith, inl, ap, ◌++◌,
}
use ioarena.Bench.{Benchmark}
use ioarena.Kv.Gen.{IaKv}
use ioarena.Kv.Sbox.{sbox_size}
use ioarena.Kv.Fill.{Globals, done, running}
use ioarena.Kv.Pool.Serve.{IsServable}
use ioarena.Doer.Driver.{success, Conf, Doer}
use ioarena.Doer.Turn.{minus_one, no_kv, single_ops, crud_ops, again}
use ioarena.Doer.Run.{ia_run_benchmark}
use ioarena.Doer.Quadruple.{ia_quadruple}
use ioarena.Doer.Single.{Recorded}
use ioarena.Doer.Simulate.{Agree, BothRun}
use ioarena.Doer.Simulate.Runs.{EndAgree, run_benchmark-simulates}
use ioarena.Drivers.Handle.{null, valid}
use ioarena.Drivers.Lmdb.{
  Mdb, mdb_success, mdb_notfound, mdb_error, MdbEngine, LmdbContext, ia_lmdb, ia_lmdb_begin,
  ia_lmdb_done, ia_lmdb_thread_dispose, ia_lmdb_next, lmdb_begin_write,
}
use ioarena.Drivers.Lmdb.Owned.{idle}
use ioarena.Drivers.Lmdb.Handles.{Session, lmdb_handles}
use ioarena.Drivers.Store.{Store, no_keys, assign, unassign, store_driver}
use ioarena.Drivers.Store.Engine.{IsStore, mdb_answer}
use ioarena.Drivers.Store.Crud.{quadruple-table}
use ioarena.Drivers.Store.Refines.{Holds, lmdb_simulation, lmdb_refines-store}
use ioarena.Base.Text.{codes}
use ioarena.Base.Bytes.{same_bytes}
use ioarena.Config.Names.{SyncMode, WalMode}
use ioarena.Drivers.Mdbx.{
  MdbxEngine, MdbxOpts, MdbxFlag, ia_mdbx, ia_mdbx_begin, ia_mdbx_done, ia_mdbx_next,
  ia_mdbx_thread_dispose, mdbx_modeflags,
}
use ioarena.Drivers.Mdbx.Options.{MdbxOption, ia_mdbx_option, option_name}
use ioarena.Drivers.Mdbx.Print.{Setting, print, differ}
use ioarena.Drivers.Mdbx.Flags.{
  flag_of, base_flags, no_opts, or_default, last_value, mdbx_option-flags,
}
use ioarena.Drivers.Mdbx.Unknown.{mdbx_option_never}
use ioarena.Drivers.Mdbx.Calls.{mdbx-lmdb}
use ioarena.Drivers.Mdbx.Refines.{mdbx_simulation, mdbx_refines-store}
use ioarena.Drivers.Leveldb.{LevelEngine, LevelContext, ia_leveldb}
use ioarena.Drivers.Leveldb.Crud.{IsTable, leveldb_crud-table}
use ioarena.Drivers.Plain.{PlainContext, ia_dummy, ia_debug, plain_drivers-succeed}

-- The committed table, and the one that the current transaction sees.
abbrev pub Tables : Type 0
Tables = Store × Store

-- An engine of one client, whose commits answer `code`, and whose `begin` answers `opening`.
abbrev pub table_engine : (opening code : Mdb) → MdbEngine Tables
table_engine opening code = record {
  dbi_open = λ s. (mdb_success, s);
  txn_begin = λ rdonly s. (opening, s);
  txn_abort = λ s. (s.0, s.0);
  txn_commit = λ s. (code, (s.1, s.1));
  txn_renew = λ s. (mdb_success, s);
  txn_reset = λ s. (s.0, s.0);
  cursor_open = λ s. (mdb_success, s);
  cursor_renew = λ s. (mdb_success, s);
  cursor_close = λ s. s;
  cursor_get = λ s. (mdb_notfound, no_kv, s);
  put = λ k v s. (mdb_success, (s.0, assign k v s.1));
  del = λ k s. (mdb_answer (s.1 k), (s.0, unassign k s.1));
  get = λ k s. (mdb_answer (s.1 k), s);
}

abbrev pub sound_engine : MdbEngine Tables
sound_engine = table_engine mdb_success mdb_success

abbrev pub is_store : IsStore sound_engine
is_store = record {
  contents = λ s. s.1;
  Clean = λ s. s.0 ≡ s.1;
  begun = λ rdonly s h. (refl, refl, h);
  aborted = λ s h. (h, refl);
  committed = λ s. (refl, refl, refl);
  renewed = λ s h. (refl, h);
  was_reset = λ s h. (h, refl);
  closed = λ s h. (refl, h);
  was_put = λ k v s. (refl, refl);
  deleted = λ k s. (refl, refl);
  got = λ k s. (refl, refl);
  got_clean = λ k s h. h;
}

abbrev pub opened : LmdbContext Tables
opened = record { txn = null; cursor = null; misused = false; engine = (no_keys, no_keys) }

abbrev pub pair_of : (key : ℕ) → IaKv
pair_of key = record { ksize = 1; vsize = 1; k = key ∷ []; v = some (7 ∷ []) }

abbrev pub settings : Conf
settings = record { count = 100; batch_length = 10; ignore_keynotfound = false }

abbrev pub printable_keys : Globals
printable_keys = record {
  printable = true;
  ksize = 16;
  width = 4;
  nsectors = 1;
  period = 1000000;
  sbox = replicate sbox_size 0;
}

abbrev pub doer_of : {C : Type 0} → C → Doer C
doer_of ctx = record {
  ctx = ctx;
  gen_a = record { base = 0; serial = 0; vsize = 32; vage = 0; pair_bytes = 50 };
  gen_b = record { base = 1000000; serial = 0; vsize = 32; vage = 0; pair_bytes = 50 };
  calls = [];
}

printable-IsServable : IsServable printable_keys 32
printable-IsServable = record {
  width = (omega arith, omega arith);
  key = record { positive = omega arith; form = inl refl };
  value = record { positive = omega arith; form = inl refl };
}

abbrev pub set_begun : LmdbContext Tables
set_begun = (ia_lmdb_begin sound_engine opened Benchmark.ia_set).1

abbrev pub set_done : LmdbContext Tables
set_done =
    (ia_lmdb_done sound_engine (ia_lmdb_next sound_engine set_begun Benchmark.ia_set (pair_of 1)).2
      Benchmark.ia_set).1

-- An engine whose commits fail with code 28.
abbrev pub full_engine : MdbEngine Tables
full_engine = table_engine mdb_success (mdb_error 28)

abbrev pub set_begun_full : LmdbContext Tables
set_begun_full = (ia_lmdb_begin full_engine opened Benchmark.ia_set).1

abbrev pub set_asked_full : LmdbContext Tables
set_asked_full = (ia_lmdb_next full_engine set_begun_full Benchmark.ia_set (pair_of 1)).2

-- A set whose commit fails.
abbrev pub set_failed : LmdbContext Tables
set_failed = (ia_lmdb_done full_engine set_asked_full Benchmark.ia_set).1

set_session : Session full_engine set_failed idle true
unfolding ia_lmdb_begin lmdb_begin_write ia_lmdb_next
set_session = Session.ends set_asked_full Benchmark.ia_set false (
    Session.asks _ Benchmark.ia_set Benchmark.ia_set (pair_of 1) false
      (Session.begins opened Benchmark.ia_set false (Session.opens (no_keys, no_keys)) refl)
      (ground arith))

lmdb_handles_example :
    (set_failed.misused ≡ true)
    × ((ia_lmdb_thread_dispose full_engine set_failed).misused ≡ true)
    × (true ≡ false
        → ((ia_lmdb_thread_dispose full_engine set_failed).txn ≢ valid)
          × ((ia_lmdb_thread_dispose full_engine set_failed).cursor ≢ valid))
lmdb_handles_example = lmdb_handles full_engine set_failed idle true set_session

-- An engine whose transactions do not begin, with code 12.
abbrev pub shut_engine : MdbEngine Tables
shut_engine = table_engine (mdb_error 12) mdb_success

shut_begin : (ia_lmdb_begin shut_engine opened Benchmark.ia_set).0 ≢ success
unfolding ia_lmdb_begin lmdb_begin_write
shut_begin = ground arith

abbrev pub first_or_zero : List ℕ → ℕ
first_or_zero [] = 0
first_or_zero (x ∷ xs) = x

pub keys_differ : (pair_of 1).k ≢ (pair_of 2).k
keys_differ e = ground (arith, ap (first_or_zero) e)

pub doers-Agree : Agree (Holds sound_engine is_store) (doer_of opened) (doer_of no_keys)
doers-Agree = record { contexts = (refl, refl); gen_a = refl; gen_b = refl; calls = refl }

pub crud_not_iterate : Benchmark.ia_crud ≢ Benchmark.ia_iterate
crud_not_iterate = ground arith

lmdb_refines-store_example :
    BothRun
      (EndAgree
        (lmdb_simulation sound_engine is_store Benchmark.ia_crud crud_not_iterate)
        settings
        printable_keys
        true)
      (ia_run_benchmark
        (ia_lmdb sound_engine)
        settings
        printable_keys
        true
        Benchmark.ia_crud
        (doer_of opened))
      (ia_run_benchmark store_driver settings printable_keys true Benchmark.ia_crud
        (doer_of no_keys))
lmdb_refines-store_example =
    lmdb_refines-store sound_engine is_store settings printable_keys true Benchmark.ia_crud
      crud_not_iterate (doer_of opened) (doer_of no_keys) doers-Agree

abbrev pub plain_doer : Doer PlainContext
plain_doer = doer_of (record { field = 0 })
