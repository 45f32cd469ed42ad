-- ===== src/Doer/Tests.antt =====
-- Runs of the model of src/ia_benchmark.c, and its theorems at concrete inputs.
use ioarena.Base.{ℕ, ◌≤◌, ◌≡◌, inl, refl, true, false, [], ◌∷◌, replicate, arith, some}
use ioarena.Bench.{Benchmark}
use ioarena.Kv.Sbox.{sbox_size}
use ioarena.Kv.Fill.{Globals, done}
use ioarena.Kv.Pool.Serve.{IsServable}
use ioarena.Doer.Driver.{
  Rc, success, not_found, failure, Driver, Conf, call_add, call_begin, Doer, begin,
}
use ioarena.Doer.Turn.{no_kv, bailout, crud_ops}
use ioarena.Doer.Masks.{Mask}
use ioarena.Doer.Fulfil.{Passes, Threads, Fulfilled, ia_doer_fulfil}
use ioarena.Doer.Fulfil.Completes.{Serves, doer_fulfil-completes}
use ioarena.Doer.Run.{ia_run_benchmark}
use ioarena.Doer.Single.{Recorded}
use ioarena.Doer.Ends.{run_benchmark-Recorded}
use ioarena.Doer.Succeeds.{Works, run_benchmark-succeeds}

-- A driver that keeps nothing and never finds a key.
abbrev empty_driver : Driver Unit
empty_driver = record {
  begin = λ c b. (success, c);
  next = λ c b kv. (not_found, kv, c);
  finish = λ c b. (success, c);
}

abbrev forgiving : Conf
forgiving = record { count = 1000; batch_length = 500; ignore_keynotfound = true }

abbrev strict : Conf
strict = record { count = 1000; batch_length = 500; ignore_keynotfound = false }

abbrev printable_keys : Globals
printable_keys = record {
  printable = true;
  ksize = 16;
  width = 4;
  nsectors = 1;
  period = 1000000;
  sbox = replicate sbox_size 0;
}

abbrev doer : Doer Unit
doer = record {
  ctx = tt;
  gen_a = record { base = 0; serial = 0; vsize = 32; vage = 0; pair_bytes = 50 };
  gen_b = record { base = 1000000; serial = 0; vsize = 32; vage = 0; pair_bytes = 50 };
  calls = [];
}

doer-IsServable : IsServable printable_keys 32
doer-IsServable = record {
  width = (omega arith, omega arith);
  key = record { positive = omega arith; form = inl refl };
  value = record { positive = omega arith; form = inl refl };
}

empty_driver-Works : Works empty_driver forgiving Benchmark.ia_get
empty_driver-Works = record { begins = λ c. refl; finishes = λ c. refl; serves = λ c kv. refl }

run_benchmark-Recorded_example :
    (rc : Rc) × (d' : Doer Unit) × (n : ℕ) × (ia_run_benchmark empty_driver strict printable_keys
        true Benchmark.ia_get doer
      ≡ done (rc, d'))
    × Recorded n n n doer d'
    × (n ≤ 1000)
    × (rc ≡ success → n ≡ 1000)
run_benchmark-Recorded_example =
    run_benchmark-Recorded empty_driver strict printable_keys true Benchmark.ia_get doer tt
      doer-IsServable

run_benchmark-succeeds_example :
    (d' : Doer Unit) × (ia_run_benchmark empty_driver forgiving printable_keys true Benchmark.ia_get
        doer
      ≡ done (success, d'))
    × Recorded 1000 1000 1000 doer d'
run_benchmark-succeeds_example =
    run_benchmark-succeeds empty_driver forgiving printable_keys true Benchmark.ia_get doer tt
      doer-IsServable empty_driver-Works

-- A driver that cannot begin, with code 5.
abbrev closed_driver : Driver Unit
closed_driver = record {
  begin = λ c b. (failure 5, c);
  next = λ c b kv. (success, kv, c);
  finish = λ c b. (success, c);
}

-- In `crud` the doer calls neither `next` nor `done` then, and measures the volume all the same.
closed_crud :
    crud_ops closed_driver strict printable_keys 0 no_kv no_kv doer
    ≡ (bailout (failure 5), record doer { calls = call_add 0 ∷ call_begin Benchmark.ia_crud ∷ [] })
unfolding crud_ops begin
closed_crud = refl

abbrev only_get : Mask
only_get Benchmark.ia_get = true
only_get Benchmark.ia_set = false
only_get Benchmark.ia_batch = false
only_get Benchmark.ia_crud = false
only_get Benchmark.ia_delete = false
only_get Benchmark.ia_iterate = false

abbrev three_passes : Passes
three_passes = record {
  nrepeat = 3;
  continuous_completing = false;
  others_busy = λ n. true;
  others_failed = λ n. false;
}

abbrev empty_threads : Threads Unit
empty_threads = record {
  thread_new = some tt;
  thread_dispose = λ c. c;
  option = λ c arg. (success, c);
}

empty_driver-Serves : Serves empty_driver forgiving printable_keys true only_get
empty_driver-Serves Benchmark.ia_get on = (tt, empty_driver-Works)
empty_driver-Serves Benchmark.ia_set on = absurd (ground arith)
empty_driver-Serves Benchmark.ia_batch on = absurd (ground arith)
empty_driver-Serves Benchmark.ia_crud on = absurd (ground arith)
empty_driver-Serves Benchmark.ia_delete on = absurd (ground arith)
empty_driver-Serves Benchmark.ia_iterate on = absurd (ground arith)

doer_fulfil-completes_example :
    (f : Fulfilled Unit) × (ia_doer_fulfil empty_driver forgiving printable_keys true 3 three_passes
        empty_threads
        ((1 ∷ []) ∷ [])
        only_get
        doer
      ≡ done f)
    × (f.rc ≡ success)
    × (f.raised ≡ 1)
    × (f.disposed ≡ true)
    × Recorded 3000 3000 3000 doer f.doer
doer_fulfil-completes_example =
    doer_fulfil-completes empty_driver forgiving printable_keys true only_get three_passes
      empty_threads tt ((1 ∷ []) ∷ []) doer refl (λ x arg. refl) refl (λ n. refl)
      empty_driver-Serves doer-IsServable
