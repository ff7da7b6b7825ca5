-- ===== src/Profile.antt =====
-- src/runtime_profile.rs: `PhaseStats`, the histogram of the durations of a phase. The atomic
-- counters are numbers below 2 ^ 64 that wrap around, as `fetch_add` and the arithmetic of a release
-- build do, and each call runs without another one in between; `update_max`, which tries again as
-- long as it is disturbed, then tries once.
pub mod Histogram
mod Tests
use marreta_lang.Base.{
  ℕ, zero, suc, ◌+◌, ◌*◌, ◌/◌, ◌%◌, Bool, true, false, List, [], ◌∷◌, map, if◌then◌else◌, Option,
  none, some, leb, ltb, ◌==◌, ◌-◌, length,
}

abbrev pub u64_size : ℕ
u64_size = 18446744073709551616

abbrev pub u64_max : ℕ
u64_max = 18446744073709551615

abbrev pub wrap : ℕ → ℕ
wrap n = n % u64_size

abbrev pub buckets_us : List ℕ
buckets_us =
    10 ∷ 25 ∷ 50 ∷ 75 ∷ 100 ∷ 150 ∷ 200 ∷ 300 ∷ 500 ∷ 750 ∷ 1000 ∷ 1500 ∷ 2000 ∷ 3000 ∷ 5000 ∷ 10000
    ∷ 25000 ∷ u64_max ∷ []

pub record PhaseStats : Type 0 where
  pub count : ℕ
  pub total_us : ℕ
  pub max_us : ℕ
  pub buckets : List ℕ

abbrev pub new_stats : PhaseStats
new_stats = record { count = 0; total_us = 0; max_us = 0; buckets = map (λ b. 0) buckets_us }

-- `iter().position(|upper| micros <= *upper)`
unfoldable pub position : ℕ → List ℕ → Option ℕ
position micros [] = none
position micros (upper ∷ uppers) =
    let later = position micros uppers in
    if leb micros upper then some 0 else elim later [ none ↦ none | some i ↦ some (suc i) ]

abbrev pub or_last : Option ℕ → ℕ
or_last none = length buckets_us - 1
or_last (some i) = i

-- `self.buckets[bucket].fetch_add(1, ..)`
unfoldable pub add_one : ℕ → List ℕ → List ℕ
add_one i [] = []
add_one zero (b ∷ bs) = wrap (b + 1) ∷ bs
add_one (suc i) (b ∷ bs) = b ∷ add_one i bs

abbrev pub as_u64 : ℕ → ℕ
as_u64 micros = if leb micros u64_max then micros else u64_max

abbrev pub updated_max : ℕ → ℕ → ℕ
updated_max current micros = if ltb current micros then micros else current

abbrev pub record_micros : ℕ → PhaseStats → PhaseStats
record_micros micros s = record {
  count = wrap (s.count + 1);
  total_us = wrap (s.total_us + micros);
  max_us = updated_max s.max_us micros;
  buckets = add_one (or_last (position micros buckets_us)) s.buckets;
}

-- The duration in microseconds may be larger than a `u64`.
abbrev pub record_duration : ℕ → PhaseStats → PhaseStats
record_duration micros s = record_micros (as_u64 micros) s

-- `((count * percentile).saturating_add(99) / 100).max(1)`
abbrev pub at_least_one : ℕ → ℕ
at_least_one n = if n == 0 then 1 else n

abbrev pub target_of : ℕ → ℕ → ℕ
target_of count percentile = at_least_one (as_u64 (wrap (count * percentile) + 99) / 100)

-- The loop over the buckets: the bound of the first with which the target is reached.
unfoldable pub first_reached : ℕ → ℕ → List ℕ → List ℕ → Option ℕ
first_reached seen target (b ∷ bs) (upper ∷ uppers) =
    let later = first_reached (wrap (seen + b)) target bs uppers in
    if leb target (wrap (seen + b)) then some upper else later
first_reached seen target _ _ = none

abbrev pub or_max : Option ℕ → ℕ
or_max none = u64_max
or_max (some u) = u

unfoldable pub percentile_us : PhaseStats → ℕ → ℕ → ℕ
percentile_us s count percentile =
    if count == 0
    then 0
    else or_max (first_reached 0 (target_of count percentile) s.buckets buckets_us)
