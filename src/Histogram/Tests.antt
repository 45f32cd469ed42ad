-- ===== src/Histogram/Tests.antt =====
-- Runs of the model of src/ia_histogram.c, and its theorems at concrete inputs.
use ioarena.Base.{ℕ, ◌+◌, ◌<◌, ◌≡◌, ◌≢◌, refl, true, List, [], ◌∷◌, length, some, arith}
use ioarena.Bench.{Benchmark, Benchmark-discrete}
use ioarena.Histogram.Buckets.{
  bound, search, scan, find_bucket, ia_histogram_buckets, st_histogram_count,
}
use ioarena.Histogram.Buckets.Search.{Encloses, find_bucket-Encloses}
use ioarena.Histogram.State.{
  IaHistogram, Global, returned, zeroed, no_buckets, ia_global_init, ia_histogram_enable,
  ia_histogram_init, ia_histogram_reset, ia_histogram_destroy,
}
use ioarena.Histogram.Add.{ia_histogram_add}
use ioarena.Histogram.Merge.{written, settle, ia_histogram_checkpoint, ia_histogram_merge}
use ioarena.Histogram.Sync.{InSync}
use ioarena.Histogram.Sync.System.{
  no_global, Shared, enables, joins, resets, leaves, leaves_unused, Reach, starts, goes_on,
  Reach-InSync, Reach-calls_return, Reach-last_checkpoint,
}
use ioarena.Histogram.Tally.{TalliedSince, Tallied}
use ioarena.Histogram.Tally.Add.{Counted, add-counts_once}
use ioarena.Histogram.Tally.Run.{Measurement, measure_run, measure_run-counts_all}

-- The globals of a run that measures `get`, before and after its doer is made.
abbrev opened : Global
opened = ia_histogram_enable 6 Benchmark.ia_get (ia_global_init 5 no_global)

abbrev joined : Global
joined = (ia_histogram_init opened).1

abbrev doer : IaHistogram
doer = ia_histogram_reset 7 Benchmark.ia_get (ia_histogram_init opened).0

abbrev left : Global
left = (ia_histogram_destroy doer joined).1

abbrev shared : Global → (doers left_behind : List IaHistogram) → Shared
shared g ds gone = record { global = g; doers = ds; left_behind = gone }

run_opens : Reach (shared opened [] [])
run_opens = goes_on (starts 5) (enables 6 Benchmark.ia_get (ia_global_init 5 no_global) [] [])

run_begins : Reach (shared joined (doer ∷ []) [])
run_begins =
    goes_on (goes_on run_opens (joins opened [] []))
      (resets 7 Benchmark.ia_get joined [] (ia_histogram_init opened).0 [] [])

doer-ran : doer.enabled ≡ 42
unfolding ia_histogram_reset
doer-ran = refl

run_ends : Reach (shared left [] [])
run_ends = goes_on run_begins (leaves joined [] doer [] [] doer-ran)

-- A run whose only doer fails before its first benchmark.
abbrev unused : IaHistogram
unused = (ia_histogram_init opened).0

abbrev left_unused : Global
left_unused = (ia_histogram_destroy unused joined).1

unused-idle : unused.enabled ≢ 42
unfolding ia_histogram_init zeroed
unused-idle = λ e. omega arith

run_ends_unused : Reach (shared left_unused [] (unused ∷ []))
run_ends_unused =
    goes_on (goes_on run_opens (joins opened [] []))
      (leaves_unused joined [] unused [] [] unused-idle)

Reach-InSync_example : InSync left_unused (unused ∷ [])
Reach-InSync_example = Reach-InSync run_ends_unused

Reach-calls_return_example :
    ((r : IaHistogram × Global) × (ia_histogram_add true 30 20 10 4 doer joined ≡ returned r))
    × ((r : IaHistogram × Global) × (ia_histogram_merge true 30 20 doer joined ≡ returned r))
Reach-calls_return_example =
    Reach-calls_return joined [] doer [] [] true 30 20 10 4 run_begins (omega arith)

Reach-last_checkpoint_example :
    ia_histogram_checkpoint 90 0 left
    ≡ returned (
      written,
      record left {
        checkpoint_ns = 90;
        per_bench = λ b. settle (left.per_bench b);
        doers_merged = 0;
        merge_evo = left.merge_evo + 1;
      },
    )
Reach-last_checkpoint_example = Reach-last_checkpoint left 90 [] run_ends

-- A doer that has merged into the first checkpoint.
abbrev waiting : IaHistogram
waiting = record doer { merge_evo = 1 }

waiting-merged : waiting.merge_evo ≡ no_global.merge_evo + 1
unfolding no_global
waiting-merged = refl

doer-TalliedSince : TalliedSince doer
unfolding ia_histogram_reset zeroed no_buckets
doer-TalliedSince = record { size = refl; total = refl }

opened-Tallied : Tallied (joined.per_bench Benchmark.ia_get)
unfolding Benchmark-discrete ia_histogram_init ia_histogram_enable ia_global_init no_global
    ia_histogram_reset zeroed no_buckets
opened-Tallied = record { size = refl; total = refl; on = ground arith }

opened-empty : (joined.per_bench Benchmark.ia_get).acc.n ≡ 0
unfolding Benchmark-discrete ia_histogram_init ia_histogram_enable ia_global_init no_global
    ia_histogram_reset zeroed
opened-empty = refl

doer-measures : doer.bench ≡ Benchmark.ia_get
unfolding ia_histogram_reset
doer-measures = refl

doer-empty : (doer.acc.n ≡ 0) × (doer.last.n ≡ 0)
unfolding ia_histogram_reset zeroed
doer-empty = (refl, refl)

its_bench-Tallied : Tallied (joined.per_bench doer.bench)
its_bench-Tallied = rw doer-measures opened-Tallied

its_bench-empty : (joined.per_bench doer.bench).acc.n ≡ 0
its_bench-empty = rw doer-measures opened-empty

add-counts_once_example :
    (r : IaHistogram × Global) × (ia_histogram_add true 30 20 10 4 doer joined ≡ returned r)
    × Counted 1 doer joined r
    × InSync r.1 (r.0 ∷ [])
add-counts_once_example =
    add-counts_once true 30 20 10 4 doer joined [] (omega arith) (Reach-InSync run_begins)
      doer-TalliedSince its_bench-Tallied (omega (arith, doer-empty))
      (omega (arith, doer-empty, its_bench-empty))

-- Two operations, the second of which ends 20 ms after the doer's reset, so that it merges.
abbrev two : List Measurement
two =
    record { locks = true; clock = 30; now = 20; t0 = 10; volume = 4 }
    ∷ record { locks = true; clock = 30; now = 20000020; t0 = 20000000; volume = 4 }
    ∷ []

measure_run-counts_all_example :
    (d' : IaHistogram) × (g' : Global) × (measure_run 8 two 20000040 20000030 Benchmark.ia_get doer
        joined
      ≡ returned (d', g'))
    × ((g'.per_bench Benchmark.ia_get).acc.n
        ≡ (joined.per_bench Benchmark.ia_get).acc.n + length two)
    × Tallied (g'.per_bench Benchmark.ia_get)
    × InSync g' (d' ∷ [])
measure_run-counts_all_example =
    measure_run-counts_all 8 two 20000040 20000030 Benchmark.ia_get doer joined []
      (omega arith, (omega arith, tt)) (omega arith) (Reach-InSync run_begins) opened-Tallied
      (omega (arith, opened-empty))

find_bucket-Encloses_example :
    (i : ℕ) × (find_bucket 1000 ≡ some i)
    × Encloses bound 1000 i
    × (i < st_histogram_count)
    × ((j : ℕ) → j < st_histogram_count → Encloses bound 1000 j → j ≡ i)
find_bucket-Encloses_example = find_bucket-Encloses 1000 (omega arith)

-- 1000 ns, the largest latency of its bucket.
found_by_search : find_bucket 1000 ≡ some 32
unfolding find_bucket search scan bound ia_histogram_buckets
found_by_search = refl
