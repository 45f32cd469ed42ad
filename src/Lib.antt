-- ===== src/Lib.antt =====
-- ioarena is a benchmark of embedded storage engines. A run reads its settings, makes doers
-- (threads or the main thread itself), and lets each call a storage driver over and over with keys
-- and values of a generator; histograms gather the latencies, and a checkpoint writes a line per
-- second.
--
-- The parts that are modelled, and where:
--   * src/ia_kv.c, in Kv: ia_kvgen_setup (Kv/Setup), the substitution box of kv_sbox_init
--     (Kv/Sbox), the injection kv_mod2n_injection (Kv/Mix), kv_fill and kv_pair (Kv/Fill), the
--     generator ia_kvgen_init and ia_kvgen_get (Kv/Gen), and the pool ia_kvpool_init and
--     ia_kvpool_pull (Kv/Pool). Their child modules and Kv/Keys hold the proofs.
--   * src/ia_histogram.c, in Histogram: the table and the search for a bucket (Histogram/Buckets),
--     the records and ia_histogram_reset, _init, _destroy, _enable and ia_global_init
--     (Histogram/State), ia_histogram_checkpoint, _merge_locked and _merge (Histogram/Merge),
--     ia_histogram_add (Histogram/Add). Histogram/Sync is about the doers that share a checkpoint,
--     Histogram/Tally about what the counts add up to.
--   * src/ia_benchmark.c, in Doer: what a benchmark sees of struct iadriver (Doer/Driver),
--     ia_quadruple (Doer/Quadruple), the cases of the switch of ia_run_benchmark (Doer/Turn) and its
--     loop (Doer/Run), ia_doer_init (Doer/Init) and ia_doer_fulfil (Doer/Fulfil); the sets of
--     benchmarks are in Doer/Masks. A storage driver is a record of functions on its own context.
--   * src/ia_config.c, in Config: the names of modes and benchmarks (Config/Names), ia_configinit
--     and ia_configparse over the options that getopt gives (Config/Parse), and ia_parse_option_bool
--     (Config/OptionBool).
--   * src/ia.c, in Run: ia_spread, which gives benchmarks and key spaces to the doers, and ia_run
--     around it (Run/Control).
--   * src/ia_main.c, in Main: main with ia_init and ia_free of src/ia.c, and the substitute for
--     pthread_barrier (Main/Barrier), whose threads take steps in any order.
--   * src/drivers, in Drivers: ia_lmdb.c over any engine (Drivers/Lmdb), which handles it passes
--     to the engine (Drivers/Lmdb/Handles, over Drivers/Lmdb/Owned and Drivers/Lmdb/Misuse), ia_mdbx.c (Drivers/Mdbx) with its
--     options (Drivers/Mdbx/Options, and Print, Settings and Flags beside it), ia_leveldb.c
--     (Drivers/Leveldb) and ia_rocksdb.c (Drivers/Rocksdb) with the open and close of both
--     (Drivers/Leveldb/Open), ia_wiredtiger.c, ia_sqlite3.c, ia_sophia.c, ia_forestdb.c,
--     ia_upscaledb.c, ia_unqlite.c, ia_vedisdb.c and ia_iowow.c in the files named after them, and
--     ia_dummy.c and ia_debug.c (Drivers/Plain). Drivers/Missing compares what they make of a key
--     that is not there, Drivers/Sqlite3/Closed is about the connections that are closed twice,
--     Drivers/Wiredtiger/Durable about what a checkpoint saves. Drivers/Store is the table of keys
--     and values that a driver stands for; Doer/Simulate says when a benchmark cannot tell two drivers apart.
--   * src/ia_time.h in Time, and the enumeration of benchmarks of src/ioarena.h in Bench.
--   * Base holds Boolean tests, lists, C strings, machine words and the laws of bitwise exclusive
--     or.
--
-- How the parts meet: Doer calls the generator and the pool of Kv; its calls of the driver and of
-- the histogram are kept as a list, in the order in which they are made. Histogram/Tally/Run gives
-- the calls of the histogram that one such run makes.
--
-- Numbers: unsigned words are natural numbers with the wrap-around written out (u8 to u64). A
-- clock, rand_r, the memory allocator, the outcome of a lock, and the floating-point steps of the
-- key setup are parameters. A structure behind a pointer is passed in and returned. The C int
-- counters of doers are natural numbers.
--
-- Loops: those with a counter are recursion on it. The search for a bucket has as fuel the size of
-- the table, since each round narrows the range that is searched; the doubling of kv_fill has six
-- steps, and its outer loop the length; the loop over settings of ia_mdbx_option has as many rounds
-- as it is given; the loop over a benchmark has the number of operations, since a round raises its
-- counter or ends it; the passes of ia_doer_fulfil have nrepeat rounds, which is enough where a
-- doer need not wait for the others.
--
-- Not modelled: what is printed and logged, CSV files and the floating-point figures in them,
-- getopt and the printing of settings (src/ia_config.c), the clock (src/ia_time.c), the
-- interleaving of the doers of one run (the model of ia_run takes what each returns, and the state
-- of the histograms that they leave), what a run does whose barriers do not count as many threads as
-- there are (with a negative -r or -w), and resource usage (src/ia_rusage.c). The storage engines are parameters: what a theorem asks of one is named
-- (IsStore, IsTable, IsUnqTable, Checkpoints, HasCursor). Each call of the
-- histogram is one step: the mutex and the atomic counters of the source are taken to make it so.
pub mod Base
pub mod Time
pub mod Bench
pub mod Kv
pub mod Histogram
pub mod Doer
pub mod Config
pub mod Drivers
pub mod Run
pub mod Main
