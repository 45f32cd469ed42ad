-- ===== src/Bench.antt =====
-- The benchmarks of src/ioarena.h, and their names and sets in src/ia_config.c and
-- src/ia_benchmark.c. `IA_MAX` is the `none` of an optional benchmark.
use ioarena.Base.{ℕ}

-- `iabenchmark`
pub data Benchmark : Type 0 where
  ia_set ia_batch ia_crud ia_delete ia_iterate ia_get : Benchmark

-- The value of the enumerator.
pub order : Benchmark → ℕ
order ia_set = 0
order ia_batch = 1
order ia_crud = 2
order ia_delete = 3
order ia_iterate = 4
order ia_get = 5

unfoldable pub Benchmark-discrete : Discrete Benchmark
Benchmark-discrete = hlevel
