-- ===== src/Histogram/Buckets.antt =====
-- The bounds of the buckets in src/ia_histogram.c and the search for a latency's bucket, the
-- `while (1)` of `ia_histogram_add`.
pub mod Search
use ioarena.Base.{
  ℕ, zero, suc, true, false, ◌+◌, ◌-◌, ◌*◌, ◌/◌, Option, none, some, List, [], ◌∷◌, ◌++◌, map,
  get_or, ltb, ◌==◌, if◌then◌else◌,
}
use ioarena.Time

-- ST_HISTOGRAM_COUNT
abbrev pub st_histogram_count : ℕ
st_histogram_count = 167

-- LINE_12_100(M)
line_12_100 : ℕ → List ℕ
line_12_100 m =
    map (λ k. m * k)
      (12 ∷ 14 ∷ 16 ∷ 18 ∷ 20 ∷ 25 ∷ 30 ∷ 35 ∷ 40 ∷ 45 ∷ 50 ∷ 60 ∷ 70 ∷ 80 ∷ 90 ∷ 100 ∷ [])

unfoldable pub ia_histogram_buckets : List ℕ
unfolding line_12_100
ia_histogram_buckets =
    9 ∷ line_12_100 1
    ++ (line_12_100 10
        ++ (line_12_100 100
            ++ (line_12_100 Time.us
                ++ (line_12_100 (Time.us * 10)
                    ++ (line_12_100 (Time.us * 100)
                        ++ (line_12_100 Time.ms
                            ++ (line_12_100 (Time.ms * 10)
                                ++ (line_12_100 (Time.ms * 100)
                                    ++ (line_12_100 Time.s
                                        ++ (Time.s * 5 * 60
                                            ∷ Time.s * 30 * 60
                                            ∷ Time.s * 3600 * 4
                                            ∷ Time.s * 3600 * 8
                                            ∷ Time.s * 3600 * 24
                                            ∷ 0xffff_ffff_ffff_ffff
                                            ∷ []))))))))))

unfoldable pub bound : ℕ → ℕ
bound i = get_or ia_histogram_buckets i 0

module _ (bound : ℕ → ℕ) (latency : ℕ) where
  -- for (mid = end; mid > begin; mid--), with `mid - begin` rounds left
  unfoldable pub scan : (rounds begin : ℕ) → ℕ
  scan zero begin = begin
  scan (suc rounds) begin =
      let below = scan rounds begin in
      if ltb (bound (begin + rounds)) latency then begin + suc rounds else below

  -- `none` is a loop that has not ended with the fuel.
  unfoldable pub search : (fuel begin end : ℕ) → Option ℕ
  search zero begin end = none
  search (suc fuel) begin end =
      let mid = begin / 2 + end / 2 in
      elim (mid == begin) [
        | true ↦ some (scan (end - begin) begin)
        | false ↦
            search fuel (if ltb (bound (mid - 1)) latency then mid else begin)
              (if ltb (bound (mid - 1)) latency then end else mid)
      ]

unfoldable pub find_bucket : (latency : ℕ) → Option ℕ
find_bucket latency = search bound latency st_histogram_count 0 (st_histogram_count - 1)

-- The bounds that `ia_histogram_print` shows for a bucket.
pub printed_from : ℕ → ℕ
printed_from i = if ltb 0 i then bound (i - 1) else 0

pub printed_to : ℕ → ℕ
printed_to i = bound i - 1
