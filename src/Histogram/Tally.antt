-- ===== src/Histogram/Tally.antt =====
-- What the counts of src/ia_histogram.c add up to.
pub mod Sums
pub mod Merge
pub mod Add
pub mod Run
use ioarena.Base.{ℕ, ◌+◌, ◌≤◌, ◌≡◌, ◌≢◌, length}
use ioarena.Histogram.Buckets.{st_histogram_count}
use ioarena.Histogram.State.{IaHistogram}
use Sums.{sum}

-- The buckets of a doer's histogram hold what it has counted since its last merge.
pub record TalliedSince (d : IaHistogram) : Type 0 where
  pub size : length d.buckets ≡ st_histogram_count
  pub total : sum d.buckets + d.last.n ≡ d.acc.n

-- The buckets of a benchmark's histogram hold all that it has counted.
pub record Tallied (h : IaHistogram) : Type 0 where
  pub size : length h.buckets ≡ st_histogram_count
  pub total : sum h.buckets ≡ h.acc.n
  pub on : h.enabled ≢ 0
