-- ===== src/Profile/Tests.antt =====
-- The theorems on src/runtime_profile.rs after three durations.
use marreta_lang.Base.{◌≡◌, ◌+◌, ◌*◌, refl, arith, [], ◌∷◌}
use marreta_lang.Profile.{
  PhaseStats, new_stats, position, add_one, record_duration, buckets_us, percentile_us,
  first_reached,
}
use marreta_lang.Profile.Histogram.{
  IsStats, IsPercentile, record_duration-IsStats, percentile_us-IsPercentile,
}

abbrev measured : PhaseStats
measured = record {
  count = 3;
  total_us = 60019;
  max_us = 60000;
  buckets = 1 ∷ 1 ∷ 0 ∷ 0 ∷ 0 ∷ 0 ∷ 0 ∷ 0 ∷ 0 ∷ 0 ∷ 0 ∷ 0 ∷ 0 ∷ 0 ∷ 0 ∷ 0 ∷ 0 ∷ 1 ∷ [];
}

three-measured : record_duration 60000 (record_duration 12 (record_duration 7 new_stats)) ≡ measured
unfolding position add_one
three-measured = refl

median-measured : percentile_us measured 3 50 ≡ 25
unfolding percentile_us first_reached
median-measured = refl

measured-IsStats : IsStats measured
measured-IsStats = (refl, refl, omega arith)

record_duration-IsStats_example :
    IsStats (record_duration 800 measured) × ((record_duration 800 measured).count ≡ 3 + 1)
record_duration-IsStats_example =
    record_duration-IsStats 800 measured measured-IsStats (omega arith)

percentile_us-IsPercentile_example :
    IsPercentile (3 * 50) measured.buckets buckets_us (percentile_us measured 3 50)
percentile_us-IsPercentile_example =
    percentile_us-IsPercentile measured 50 measured-IsStats (ground arith) (omega arith)
      (omega arith)
