-- ===== src/Histogram/Add.antt =====
-- `ia_histogram_add` of src/ia_histogram.c.
use ioarena.Base.{
  ℕ, ◌+◌, ◌*◌, ◌==◌, Bool, none, some, get_or, set, ltb, leb, ◌&&◌, u64, if◌then◌else◌,
}
use ioarena.Histogram.Buckets.{find_bucket}
use ioarena.Histogram.State.{
  IaHistogram, no_latency, no_buckets, Global, Outcome, returned, stuck, ◌>>=◌,
}
use ioarena.Histogram.Merge.{sub64, interval_merge, ia_histogram_merge_locked}

-- The statements up to the search for the bucket.
unfoldable pub observe : (now t0 volume : ℕ) → IaHistogram → IaHistogram
observe now t0 volume h =
    let latency = sub64 now t0 in
    record h {
      begin_ns = (if h.begin_ns == 0 then t0 else h.begin_ns);
      end_ns = now;
      acc = record {
        latency_sum_ns = u64 (h.acc.latency_sum_ns + latency);
        latency_sum_square = u64 (h.acc.latency_sum_square + u64 (latency * latency));
        n = u64 (h.acc.n + 1);
        volume_sum = u64 (h.acc.volume_sum + volume);
      };
      min = (if ltb latency h.min then latency else h.min);
      max = (if ltb h.max latency then latency else h.max);
    }

-- h->buckets[mid]++
unfoldable pub count_in : ℕ → IaHistogram → IaHistogram
count_in i h = record h { buckets = set h.buckets i (u64 (get_or h.buckets i 0 + 1)) }

-- What is set anew once the histogram has been merged.
unfoldable pub start_over : (now : ℕ) → IaHistogram → IaHistogram
start_over now h = record h {
  checkpoint_ns = now;
  min = no_latency;
  max = 0;
  last = h.acc;
  buckets = no_buckets;
}

-- From the test of the merge interval on; `locks` tells whether `pthread_mutex_trylock` succeeds.
unfoldable pub merge_if_due :
    (locks : Bool) (clock now : ℕ) → IaHistogram → Global → Outcome (IaHistogram × Global)
merge_if_due locks clock now h g =
    if leb interval_merge (sub64 now h.checkpoint_ns) && (h.merge_evo == g.merge_evo && locks)
    then (ia_histogram_merge_locked clock now h g >>= λ r. returned (start_over now r.0, r.1))
    else returned (h, g)

-- `ia_histogram_add`, at the time `now`
unfoldable pub ia_histogram_add :
    (locks : Bool) (clock now t0 volume : ℕ) → IaHistogram → Global → Outcome (IaHistogram × Global)
ia_histogram_add locks clock now t0 volume h g = elim (find_bucket (sub64 now t0)) [
  | none ↦ stuck
  | some i ↦ merge_if_due locks clock now (count_in i (observe now t0 volume h)) g
]
