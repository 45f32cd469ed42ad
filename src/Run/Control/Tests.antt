-- ===== src/Run/Control/Tests.antt =====
-- Runs of the model of `ia_run` of src/ia.c, and its theorems at concrete inputs.
use ioarena.Base.{
  ℕ, ◌≡◌, ◌≤◌, refl, true, false, Option, none, some, List, [], ◌∷◌, arith, replicate, length,
}
use ioarena.Bench.{Benchmark}
use ioarena.Config.Names.{SyncMode, WalMode}
use ioarena.Config.Parse.{IaConfig}
use ioarena.Kv.Sbox.{sbox_size}
use ioarena.Kv.Fill.{Globals, kvpair_bytes}
use ioarena.Kv.Gen.{KvGen, kvgen_init}
use ioarena.Kv.Setup.{kvgen_setup, check_ksize, choose_width, globals_for}
use ioarena.Doer.Driver.{success}
use ioarena.Doer.Masks.{Mask}
use ioarena.Doer.Init.{Ready, init_with_a, init_with_b, ia_doer_init}
use ioarena.Run.{Spawn, Spread, start_thread, spread_one, ia_spread}
use ioarena.Run.Covers.{given}
use ioarena.Histogram.State.{ia_global_init}
use ioarena.Histogram.Merge.{ia_histogram_checkpoint, write_checkpoint}
use ioarena.Histogram.Sync.System.{no_global, starts}
use ioarena.Run.Control.{
  Calls, spawns, completes, failed_after, run_end, run_waiting, Platform, set_rd, set_wr, setup,
  request, spread_readers, spread_writers, run_left, run_doers, run_set_up, ia_run,
}
use ioarena.Run.Control.Closes.{AllFulfil}
use ioarena.Run.Control.Covers.{ia_run-does_all}
use ioarena.Run.Control.Completes.{AllGood, ia_run-completes}
use ioarena.Run.Control.Bounds.{SpacesIn, run-key_spaces}

-- Natural numbers for the doubles, where all keys are long enough.
abbrev pub platform : Platform
platform = record {
  sector_start = λ period sector sectors. 0;
  round = λ n. n;
  log_gt = λ top base ksize. false;
  rand_r = λ seed. (0, seed);
  now = 0;
  sbox = replicate sbox_size 0;
}

-- set, crud and get, by one reader and two writers
abbrev pub asked : Mask
asked Benchmark.ia_set = true
asked Benchmark.ia_batch = false
asked Benchmark.ia_crud = true
asked Benchmark.ia_delete = false
asked Benchmark.ia_iterate = false
asked Benchmark.ia_get = true

abbrev pub settings : IaConfig
settings = record {
  driver = some [];
  takes_options = false;
  path = [];
  benchmark = [];
  drv_opts = [];
  benchmark_list = asked;
  ksize = 16;
  vsize = 32;
  count = 1000;
  syncmode = SyncMode.ia_lazy;
  walmode = WalMode.ia_wal_indef;
  rthr = 1;
  wthr = 2;
  batch_length = 500;
  nrepeat = 1;
  kvseed = 42;
  csv_prefix = none;
  binary = false;
  separate = false;
  ignore_keynotfound = false;
  continuous_completing = false;
}

abbrev good_spawn : Spawn
good_spawn = record {
  doer_memory = true;
  gen_a_memory = true;
  gen_b_memory = true;
  thread_rc = success;
}

abbrev pub good_calls : Calls
good_calls = record {
  barrier_start = λ count. success;
  barrier_fihish = λ count. success;
  reader = λ n. good_spawn;
  writer = λ n. good_spawn;
  gen_a_memory = true;
  gen_b_memory = true;
  rusage_start = success;
  rusage_fihish = success;
  fulfil = λ d. success;
  globals = ia_global_init 5 no_global;
  clock = 9;
}

all_good : AllGood good_calls
all_good = record {
  barriers = λ count low high. (refl, refl);
  readers = λ n. record { has_doer = refl; has_gen_a = refl; has_gen_b = refl; starts = refl };
  writers = λ n. record { has_doer = refl; has_gen_a = refl; has_gen_b = refl; starts = refl };
  gens = (refl, refl);
  usages = (refl, refl);
  fulfils = λ d. refl;
  histograms = starts 5;
}

-- What the generator is set up with: four key spaces of 1000 keys each.
abbrev pub two_bytes : Globals
two_bytes =
    globals_for platform.round platform.log_gt platform.rand_r platform.now platform.sbox
      (request platform settings) 2

set_up : setup platform (request platform settings) ≡ some two_bytes
unfolding kvgen_setup check_ksize choose_width
set_up = refl

ia_run-completes_example :
    (here : Option Ready) × (doers : List Ready) × (ia_run platform settings good_calls
      ≡ completes here doers)
ia_run-completes_example =
    ia_run-completes platform settings good_calls two_bytes Benchmark.ia_crud all_good (omega arith)
      refl set_up

-- One doer has get, and two have set and crud; nothing is left to the main thread.
abbrev gen_at : (base : ℕ) → KvGen
gen_at base = record { base = base; serial = 0; vsize = 32; vage = 0; pair_bytes = 50 }

abbrev doer_at : (nth key_space : ℕ) → Mask → KvGen → Option KvGen → Ready
doer_at nth key_space mask a b = record {
  nth = nth;
  benchmask = mask;
  key_space = key_space;
  key_sequence = nth;
  gen_a = a;
  gen_b = b;
}

abbrev of_reader : Ready
of_reader = doer_at 1 0 (set_rd asked) (gen_at 0) none

abbrev of_writer : Ready
of_writer = doer_at 2 2 (set_wr asked) (gen_at 2000) (some (gen_at 3000))

abbrev of_last_writer : Ready
of_last_writer = doer_at 3 4 (set_wr asked) (gen_at 4000) (some (gen_at 5000))

run_ends :
    ia_run platform settings good_calls
    ≡ completes none (of_last_writer ∷ of_writer ∷ of_reader ∷ [])
unfolding ia_run run_set_up run_doers run_left run_waiting spread_readers spread_writers spawns
    ia_spread spread_one start_thread ia_doer_init init_with_a init_with_b kvgen_init kvpair_bytes
    failed_after run_end ia_histogram_checkpoint write_checkpoint ia_global_init no_global
    kvgen_setup check_ksize choose_width globals_for
run_ends = refl

ia_run-does_all_example :
    ((b : Benchmark) → given (of_last_writer ∷ of_writer ∷ of_reader ∷ []) b ≡ asked b)
    × AllFulfil (λ d. success) (of_last_writer ∷ of_writer ∷ of_reader ∷ [])
ia_run-does_all_example =
    ia_run-does_all platform settings good_calls (of_last_writer ∷ of_writer ∷ of_reader ∷ []) none
      run_ends

readers_start : (spread_readers platform settings two_bytes good_calls).0 ≡ success
unfolding spread_readers spawns ia_spread spread_one start_thread ia_doer_init init_with_a
    init_with_b kvgen_init
readers_start = refl

abbrev after_readers : Spread
after_readers = (spread_readers platform settings two_bytes good_calls).1

abbrev after_writers : Spread
after_writers = (spread_writers platform settings two_bytes good_calls after_readers).1

writers_start : (spread_writers platform settings two_bytes good_calls after_readers).0 ≡ success
unfolding spread_readers spread_writers spawns ia_spread spread_one start_thread ia_doer_init
    init_with_a init_with_b kvgen_init
writers_start = refl

run-key_spaces_example :
    SpacesIn 0 0 after_readers.doers
    × SpacesIn 1 4 after_writers.doers
    × (length after_writers.doers ≡ 2)
    × (2 ≤ after_writers.key_space)
run-key_spaces_example =
    run-key_spaces platform settings two_bytes good_calls readers_start writers_start
