-- ===== src/Doer/Masks.antt =====
-- Sets of benchmarks, of src/ia_benchmark.c: a `long` used as a set of bits.
use ioarena.Base.{Bool, true, false, ◌&&◌, ◌||◌, List, [], ◌∷◌}
use ioarena.Bench.{Benchmark}

abbrev pub Mask : Type 0
Mask = Benchmark → Bool

-- for (bench = IA_SET; bench < IA_MAX; bench++)
abbrev pub all_benchmarks : List Benchmark
all_benchmarks =
    Benchmark.ia_set ∷ Benchmark.ia_batch ∷ Benchmark.ia_crud ∷ Benchmark.ia_delete
    ∷ Benchmark.ia_iterate ∷ Benchmark.ia_get ∷ []

abbrev pub bench_mask_write : Mask
bench_mask_write Benchmark.ia_set = true
bench_mask_write Benchmark.ia_batch = true
bench_mask_write Benchmark.ia_crud = true
bench_mask_write Benchmark.ia_delete = true
bench_mask_write Benchmark.ia_iterate = false
bench_mask_write Benchmark.ia_get = false

abbrev pub bench_mask_2keyspace : Mask
bench_mask_2keyspace Benchmark.ia_set = false
bench_mask_2keyspace Benchmark.ia_batch = true
bench_mask_2keyspace Benchmark.ia_crud = true
bench_mask_2keyspace Benchmark.ia_delete = false
bench_mask_2keyspace Benchmark.ia_iterate = false
bench_mask_2keyspace Benchmark.ia_get = false

-- a & b, as a condition
abbrev pub meet : Mask → Mask → Bool
meet a b =
    (a Benchmark.ia_set && b Benchmark.ia_set)
    || ((a Benchmark.ia_batch && b Benchmark.ia_batch)
        || ((a Benchmark.ia_crud && b Benchmark.ia_crud)
            || ((a Benchmark.ia_delete && b Benchmark.ia_delete)
                || ((a Benchmark.ia_iterate && b Benchmark.ia_iterate)
                    || (a Benchmark.ia_get && b Benchmark.ia_get)))))

-- a == 0
abbrev pub some_bit : Mask → Bool
some_bit a = meet a a

-- 1l << b, and a & ~b
unfoldable pub bit_of : Benchmark → Mask
bit_of Benchmark.ia_set Benchmark.ia_set = true
bit_of Benchmark.ia_batch Benchmark.ia_batch = true
bit_of Benchmark.ia_crud Benchmark.ia_crud = true
bit_of Benchmark.ia_delete Benchmark.ia_delete = true
bit_of Benchmark.ia_iterate Benchmark.ia_iterate = true
bit_of Benchmark.ia_get Benchmark.ia_get = true
bit_of b c = false

abbrev pub without : Mask → Mask → Mask
without a b c = elim (b c) [ true ↦ false | false ↦ a c ]
