-- ===== src/Histogram/State.antt =====
-- The records of src/ia_histogram.h and `struct global` of src/ia_histogram.c, and the operations
-- that begin and end a histogram's life. Each runs in one step, as the mutex and the atomic
-- additions make it. The CSV file is left out.
use mathlib.Core.Logic.{ite}
use ioarena.Base.{ℕ, ◌+◌, ◌-◌, ◌==◌, List, replicate, if◌then◌else◌}
use ioarena.Bench.{Benchmark, Benchmark-discrete}
use ioarena.Histogram.Buckets.{st_histogram_count}

-- `struct iastat`
pub record IaStat : Type 0 where
  pub latency_sum_ns : ℕ
  pub latency_sum_square : ℕ
  pub n : ℕ
  pub volume_sum : ℕ

abbrev pub no_stat : IaStat
no_stat = record { latency_sum_ns = 0; latency_sum_square = 0; n = 0; volume_sum = 0 }

-- `struct iahistogram`
pub record IaHistogram : Type 0 where
  pub checkpoint_ns : ℕ
  pub begin_ns : ℕ
  pub end_ns : ℕ
  pub bench : Benchmark
  pub enabled : ℕ
  pub whole_min : ℕ
  pub whole_max : ℕ
  pub last : IaStat
  pub min : ℕ
  pub max : ℕ
  pub acc : IaStat
  pub buckets : List ℕ
  pub merge_evo : ℕ

-- ~0ull
abbrev pub no_latency : ℕ
no_latency = 0xffff_ffff_ffff_ffff

unfoldable pub no_buckets : List ℕ
no_buckets = replicate st_histogram_count 0

-- `struct global`
pub record Global : Type 0 where
  pub starting_point : ℕ
  pub checkpoint_ns : ℕ
  pub per_bench : Benchmark → IaHistogram
  pub doers_active : ℕ
  pub doers_merged : ℕ
  pub merge_evo : ℕ

-- `ia_fatal` aborts; `stuck` is a search that has not ended with its fuel.
pub data Outcome {ℓ} (A : Type ℓ) : Type ℓ where
  returned : A → Outcome A
  fatal stuck : Outcome A

infixl 5 ◌>>=◌
abbrev pub ◌>>=◌ {ℓ κ} : {A : Type ℓ} {B : Type κ} → Outcome A → (A → Outcome B) → Outcome B
returned a >>= f = f a
fatal >>= f = fatal
stuck >>= f = stuck

abbrev pub update : (Benchmark → IaHistogram) → Benchmark → IaHistogram → Benchmark → IaHistogram
update f b h c = ite (Benchmark-discrete b c) h (f c)

-- memset(h, 0, sizeof(*h)), with `merge_evo` as it is set afterwards
unfoldable pub zeroed : (merge_evo : ℕ) → IaHistogram
zeroed evo = record {
  checkpoint_ns = 0;
  begin_ns = 0;
  end_ns = 0;
  bench = Benchmark.ia_set;
  enabled = 0;
  whole_min = 0;
  whole_max = 0;
  last = no_stat;
  min = 0;
  max = 0;
  acc = no_stat;
  buckets = no_buckets;
  merge_evo = evo;
}

-- `ia_histogram_reset`, at the time `now`
unfoldable pub ia_histogram_reset : (now : ℕ) → Benchmark → IaHistogram → IaHistogram
unfolding zeroed
ia_histogram_reset now b h = record (zeroed h.merge_evo) {
  min = no_latency;
  whole_min = no_latency;
  checkpoint_ns = now;
  bench = b;
  enabled = 42;
}

-- `ia_histogram_init`
unfoldable pub ia_histogram_init : Global → IaHistogram × Global
unfolding zeroed
ia_histogram_init g = (zeroed g.merge_evo, record g { doers_active = g.doers_active + 1 })

-- `ia_histogram_destroy`
unfoldable pub ia_histogram_destroy : IaHistogram → Global → IaHistogram × Global
ia_histogram_destroy h g =
    if h.enabled == 42
    then (
      record h { enabled = 0 },
      if h.merge_evo == g.merge_evo + 1
          then record g { doers_merged = g.doers_merged - 1; doers_active = g.doers_active - 1 }
          else record g { doers_active = g.doers_active - 1 },
    )
    else (h, g)

-- `ia_histogram_enable`, at the time `now`
unfoldable pub ia_histogram_enable : (now : ℕ) → Benchmark → Global → Global
ia_histogram_enable now b g =
    if (g.per_bench b).enabled == 0
    then record g { per_bench = update g.per_bench b (ia_histogram_reset now b (g.per_bench b)) }
    else g

-- `ia_global_init`, at the time `now`
unfoldable pub ia_global_init : (now : ℕ) → Global → Global
ia_global_init now g = record g { starting_point = now; checkpoint_ns = now }
