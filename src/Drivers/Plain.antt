-- ===== src/Drivers/Plain.antt =====
-- src/drivers/ia_dummy.c and src/drivers/ia_debug.c, whose functions touch no storage: what the
-- second prints is left out.
use ioarena.Base.{ℕ, ◌≡◌, refl, Bool, true, false, Option, none, some}
use ioarena.Bench.{Benchmark}
use ioarena.Kv.Gen.{IaKv}
use ioarena.Kv.Fill.{Globals, done}
use ioarena.Kv.Pool.Serve.{IsServable}
use ioarena.Doer.Driver.{Rc, success, Driver, Conf, Doer}
use ioarena.Doer.Turn.{minus_one}
use ioarena.Doer.Run.{ia_run_benchmark}
use ioarena.Doer.Single.{IsSingle, Recorded}
use ioarena.Doer.Succeeds.{Works, run_benchmark-succeeds}

-- `struct iacontext`, zeroed by calloc and never read.
pub record PlainContext : Type 0 where
  pub field : ℕ

-- `none` is NULL.
abbrev pub ia_dummy_thread_new : (allocated : Bool) → Option PlainContext
ia_dummy_thread_new true = some (record { field = 0 })
ia_dummy_thread_new false = none

unfoldable pub ia_dummy_begin : PlainContext → Benchmark → Rc × PlainContext
ia_dummy_begin c Benchmark.ia_set = (success, c)
ia_dummy_begin c Benchmark.ia_batch = (success, c)
ia_dummy_begin c Benchmark.ia_crud = (success, c)
ia_dummy_begin c Benchmark.ia_delete = (success, c)
ia_dummy_begin c Benchmark.ia_iterate = (success, c)
ia_dummy_begin c Benchmark.ia_get = (success, c)

unfoldable pub ia_dummy_done : PlainContext → Benchmark → Rc × PlainContext
ia_dummy_done c Benchmark.ia_set = (success, c)
ia_dummy_done c Benchmark.ia_batch = (success, c)
ia_dummy_done c Benchmark.ia_crud = (success, c)
ia_dummy_done c Benchmark.ia_delete = (success, c)
ia_dummy_done c Benchmark.ia_iterate = (success, c)
ia_dummy_done c Benchmark.ia_get = (success, c)

unfoldable pub ia_dummy_next : PlainContext → Benchmark → IaKv → Rc × IaKv × PlainContext
ia_dummy_next c Benchmark.ia_set kv = (success, kv, c)
ia_dummy_next c Benchmark.ia_delete kv = (success, kv, c)
ia_dummy_next c Benchmark.ia_iterate kv = (success, kv, c)
ia_dummy_next c Benchmark.ia_get kv = (success, kv, c)
ia_dummy_next c Benchmark.ia_batch kv = (minus_one, kv, c)
ia_dummy_next c Benchmark.ia_crud kv = (minus_one, kv, c)

-- iadriver ia_dummy
abbrev pub ia_dummy : Driver PlainContext
ia_dummy = record { begin = ia_dummy_begin; next = ia_dummy_next; finish = ia_dummy_done }

unfoldable pub ia_debug_begin : PlainContext → Benchmark → Rc × PlainContext
ia_debug_begin c Benchmark.ia_set = (success, c)
ia_debug_begin c Benchmark.ia_batch = (success, c)
ia_debug_begin c Benchmark.ia_crud = (success, c)
ia_debug_begin c Benchmark.ia_delete = (success, c)
ia_debug_begin c Benchmark.ia_iterate = (success, c)
ia_debug_begin c Benchmark.ia_get = (success, c)

unfoldable pub ia_debug_done : PlainContext → Benchmark → Rc × PlainContext
ia_debug_done c Benchmark.ia_set = (success, c)
ia_debug_done c Benchmark.ia_batch = (success, c)
ia_debug_done c Benchmark.ia_crud = (success, c)
ia_debug_done c Benchmark.ia_delete = (success, c)
ia_debug_done c Benchmark.ia_iterate = (success, c)
ia_debug_done c Benchmark.ia_get = (success, c)

unfoldable pub ia_debug_next : PlainContext → Benchmark → IaKv → Rc × IaKv × PlainContext
ia_debug_next c Benchmark.ia_set kv = (success, kv, c)
ia_debug_next c Benchmark.ia_get kv = (success, kv, c)
ia_debug_next c Benchmark.ia_delete kv = (success, kv, c)
ia_debug_next c Benchmark.ia_iterate kv = (success, kv, c)
ia_debug_next c Benchmark.ia_batch kv = (minus_one, kv, c)
ia_debug_next c Benchmark.ia_crud kv = (minus_one, kv, c)

-- iadriver ia_debug
abbrev pub ia_debug : Driver PlainContext
ia_debug = record { begin = ia_debug_begin; next = ia_debug_next; finish = ia_debug_done }

dummy-Works : (conf : Conf) (b : Benchmark) → IsSingle b → Works ia_dummy conf b
unfolding ia_dummy_begin ia_dummy_done ia_dummy_next
dummy-Works conf Benchmark.ia_set one = record {
  begins = λ c. refl;
  finishes = λ c. refl;
  serves = λ c kv. refl;
}
dummy-Works conf Benchmark.ia_delete one = record {
  begins = λ c. refl;
  finishes = λ c. refl;
  serves = λ c kv. refl;
}
dummy-Works conf Benchmark.ia_get one = record {
  begins = λ c. refl;
  finishes = λ c. refl;
  serves = λ c kv. refl;
}
dummy-Works conf Benchmark.ia_iterate one = elim one [ ]
dummy-Works conf Benchmark.ia_crud one = elim one [ ]
dummy-Works conf Benchmark.ia_batch one = elim one [ ]

debug-Works : (conf : Conf) (b : Benchmark) → IsSingle b → Works ia_debug conf b
unfolding ia_debug_begin ia_debug_done ia_debug_next
debug-Works conf Benchmark.ia_set one = record {
  begins = λ c. refl;
  finishes = λ c. refl;
  serves = λ c kv. refl;
}
debug-Works conf Benchmark.ia_delete one = record {
  begins = λ c. refl;
  finishes = λ c. refl;
  serves = λ c kv. refl;
}
debug-Works conf Benchmark.ia_get one = record {
  begins = λ c. refl;
  finishes = λ c. refl;
  serves = λ c kv. refl;
}
debug-Works conf Benchmark.ia_iterate one = elim one [ ]
debug-Works conf Benchmark.ia_crud one = elim one [ ]
debug-Works conf Benchmark.ia_batch one = elim one [ ]

-- With the dummy or the debug driver, key and value sizes that the generator can fill, and a benchmark
-- that sets, deletes or gets, `ia_run_benchmark` returns 0 and has measured exactly `count`
-- operations, whether or not missing keys are ignored.
pub plain_drivers-succeed :
    (conf : Conf) (g : Globals) (allocated : Bool) (b : Benchmark) (d : Doer PlainContext)
    → IsSingle b
    → IsServable g (d.gen_a).vsize
    → ((d' : Doer PlainContext) × (ia_run_benchmark ia_dummy conf g allocated b d
          ≡ done (success, d'))
        × Recorded conf.count conf.count conf.count d d')
      × ((d' : Doer PlainContext) × (ia_run_benchmark ia_debug conf g allocated b d
            ≡ done (success, d'))
          × Recorded conf.count conf.count conf.count d d')
plain_drivers-succeed conf g allocated b d one s = (
  run_benchmark-succeeds ia_dummy conf g allocated b d one s (dummy-Works conf b one),
  run_benchmark-succeeds ia_debug conf g allocated b d one s (debug-Works conf b one),
)
