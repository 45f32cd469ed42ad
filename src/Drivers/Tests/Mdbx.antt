-- ===== src/Drivers/Tests/Mdbx.antt =====
-- The model of src/drivers/ia_mdbx.c at concrete inputs.
use ioarena.Base.{◌≡◌, ◌≢◌, refl, true, false, List, [], ◌∷◌, arith, ◌++◌}
use ioarena.Bench.{Benchmark}
use ioarena.Kv.Gen.{IaKv}
use ioarena.Kv.Fill.{done, running}
use ioarena.Doer.Run.{ia_run_benchmark}
use ioarena.Doer.Simulate.{BothRun}
use ioarena.Doer.Simulate.Runs.{EndAgree}
use ioarena.Drivers.Lmdb.{
  mdb_success, ia_lmdb_begin, ia_lmdb_done, ia_lmdb_thread_dispose, ia_lmdb_next,
}
use ioarena.Drivers.Store.{no_keys, store_driver}
use ioarena.Base.Text.{codes}
use ioarena.Base.Bytes.{same_bytes}
use ioarena.Config.Names.{SyncMode, WalMode}
use ioarena.Drivers.Mdbx.{
  MdbxEngine, MdbxOpts, MdbxFlag, ia_mdbx, ia_mdbx_begin, ia_mdbx_done, ia_mdbx_next,
  ia_mdbx_thread_dispose, mdbx_modeflags,
}
use ioarena.Drivers.Mdbx.Options.{MdbxOption, ia_mdbx_option, option_name}
use ioarena.Drivers.Mdbx.Print.{Setting, print, differ}
use ioarena.Drivers.Mdbx.Flags.{
  flag_of, base_flags, no_opts, or_default, last_value, mdbx_option-flags,
}
use ioarena.Drivers.Mdbx.Unknown.{mdbx_option_never}
use ioarena.Drivers.Mdbx.Calls.{mdbx-lmdb}
use ioarena.Drivers.Mdbx.Refines.{mdbx_simulation, mdbx_refines-store}
use ioarena.Drivers.Tests.{
  Tables, sound_engine, is_store, opened, settings, printable_keys, doer_of, doers-Agree,
  crud_not_iterate,
}

-- The same engine with the interface of libmdbx, whose aborts and resets succeed.
abbrev sound_mdbx : MdbxEngine Tables
sound_mdbx = record {
  calls = sound_engine;
  abort_rc = λ s. mdb_success;
  reset_rc = λ s. mdb_success;
}

aborts_succeed : (s : Tables) → mdb_success ≡ mdb_success
aborts_succeed s = refl

mdbx-lmdb_example :
    ((b : Benchmark)
      → (ia_mdbx_begin sound_mdbx opened b ≡ ia_lmdb_begin sound_engine opened b)
        × (ia_mdbx_done sound_mdbx opened b ≡ ia_lmdb_done sound_engine opened b))
    × ((op : Benchmark) (kv : IaKv)
        → ia_mdbx_next sound_mdbx opened op kv ≡ ia_lmdb_next sound_engine opened op kv)
    × (ia_mdbx_thread_dispose sound_mdbx opened ≡ ia_lmdb_thread_dispose sound_engine opened)
mdbx-lmdb_example = mdbx-lmdb sound_mdbx opened aborts_succeed aborts_succeed

mdbx_refines-store_example :
    BothRun
      (EndAgree
        (mdbx_simulation sound_mdbx is_store aborts_succeed aborts_succeed Benchmark.ia_crud
          crud_not_iterate)
        settings
        printable_keys
        true)
      (ia_run_benchmark
        (ia_mdbx sound_mdbx)
        settings
        printable_keys
        true
        Benchmark.ia_crud
        (doer_of opened))
      (ia_run_benchmark store_driver settings printable_keys true Benchmark.ia_crud
        (doer_of no_keys))
mdbx_refines-store_example =
    mdbx_refines-store sound_mdbx is_store aborts_succeed aborts_succeed settings printable_keys
      true Benchmark.ia_crud crud_not_iterate (doer_of opened) (doer_of no_keys) doers-Agree

-- NOMEMINIT=ON,EXCLUSIVE=OFF,NOMEMINIT=OFF
abbrev three_settings : List Setting
three_settings =
    (MdbxOption.o_nomeminit, true)
    ∷ (MdbxOption.o_exclusive, false)
    ∷ (MdbxOption.o_nomeminit, false)
    ∷ []

three_printed : print three_settings ≡ codes "NOMEMINIT=ON,EXCLUSIVE=OFF,NOMEMINIT=OFF"
three_printed = refl

three_some : three_settings ≢ []
three_some = ground arith

mdbx_option-flags_example :
    (g : MdbxOpts) × (ia_mdbx_option 3 false (print three_settings) no_opts ≡ done (true, g))
    × ((o : MdbxOption)
        → mdbx_modeflags SyncMode.ia_lazy WalMode.ia_wal_off g (flag_of o)
          ≡ or_default
              (last_value o three_settings)
              (base_flags SyncMode.ia_lazy WalMode.ia_wal_off (flag_of o)))
    × ((f : MdbxFlag)
        → ((o : MdbxOption) → flag_of o ≢ f)
        → mdbx_modeflags SyncMode.ia_lazy WalMode.ia_wal_off g f
          ≡ base_flags SyncMode.ia_lazy WalMode.ia_wal_off f)
mdbx_option-flags_example =
    mdbx_option-flags 3 three_settings SyncMode.ia_lazy WalMode.ia_wal_off three_some (omega arith)

sync_some : codes "SYNC" ++ codes "=ON" ≢ []
sync_some = ground arith

sync_no_help : same_bytes (codes "SYNC" ++ codes "=ON") (codes "--help") ≡ false
unfolding same_bytes
sync_no_help = refl

sync_unknown : (q : MdbxOption) → differ (codes "SYNC") (option_name q) ≡ true
sync_unknown q = ground arith

mdbx_option_never_example :
    ia_mdbx_option 1000 false (codes "SYNC" ++ codes "=ON") no_opts ≡ running
mdbx_option_never_example =
    mdbx_option_never 1000 (codes "SYNC") (codes "=ON") no_opts sync_some sync_no_help sync_unknown
