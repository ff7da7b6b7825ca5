-- ===== src/Profile/Histogram.antt =====
-- src/runtime_profile.rs: what the buckets hold, and which of their bounds a percentile is.
use marreta_lang.Base.{
  ℕ, zero, suc, ◌+◌, ◌*◌, ◌/◌, ◌≤◌, ◌<◌, ◌≡◌, ◌≢◌, ◌⊎◌, refl, ap, ◌∙◌, false, List, [], ◌∷◌, ◌++◌,
  some, leb, ◌==◌, length, arith, Bool-cases, inl, inr, Option-cases,
}
use marreta_lang.Profile.{
  PhaseStats, u64_size, wrap, buckets_us, position, or_last, add_one, as_u64, record_duration,
  target_of, at_least_one, first_reached, percentile_us,
}

abbrev pub total : List ℕ → ℕ
total [] = 0
total (b ∷ bs) = b + total bs

-- There is a bucket for each bound, and together they hold all that was recorded.
abbrev pub IsStats : PhaseStats → Type 0
IsStats s = (length s.buckets ≡ 18) × (total s.buckets ≡ s.count) × (s.count < u64_size)

add_one-length : (i : ℕ) (bs : List ℕ) → length (add_one i bs) ≡ length bs
unfolding add_one
add_one-length i [] = refl
add_one-length zero (b ∷ bs) = refl
add_one-length (suc i) (b ∷ bs) = ap suc (add_one-length i bs)

add_one-total :
    (i : ℕ) (bs : List ℕ)
    → i < length bs
    → total bs + 1 < u64_size
    → total (add_one i bs) ≡ total bs + 1
unfolding add_one
add_one-total i [] h k = omega (arith, h)
add_one-total zero (b ∷ bs) h k = omega (arith, k)
add_one-total (suc i) (b ∷ bs) h k =
    let rest = add_one-total i bs (omega (arith, h)) (omega (arith, k)) in omega (arith, rest)

position_lt :
    (micros : ℕ) (uppers : List ℕ) (i : ℕ) → position micros uppers ≡ some i → i < length uppers
unfolding position
position_lt micros [] i h = cc
position_lt micros (u ∷ uppers) i h = elim (Option-cases (position micros uppers)) [
  | inl e ↦ ground arith
  | inr (j, e) ↦ let below = position_lt micros uppers j e in ground arith
]

or_last_lt : (micros : ℕ) → or_last (position micros buckets_us) < 18
or_last_lt micros = elim (Option-cases (position micros buckets_us)) [
  | inl e ↦ let last : 17 < 18 = omega arith in rw e last
  | inr (i, e) ↦ rw e (position_lt micros buckets_us i e)
]

-- A duration that is recorded goes into one bucket: there is still a bucket for each bound, and
-- together they hold the count, which is one more, as long as it does not wrap around.
pub record_duration-IsStats :
    (micros : ℕ) (s : PhaseStats)
    → IsStats s
    → s.count + 1 < u64_size
    → IsStats (record_duration micros s) × ((record_duration micros s).count ≡ s.count + 1)
record_duration-IsStats micros s (len, sum, h) k =
    let i = or_last (position (as_u64 micros) buckets_us) in
    let plain : wrap (s.count + 1) ≡ s.count + 1 = omega (arith, k) in
    let added =
      add_one-total i s.buckets (rw len (or_last_lt (as_u64 micros))) (omega (arith, sum, k)) in
    (
      (add_one-length i s.buckets ∙ len, omega (arith, added, plain, sum), omega (arith, plain, k)),
      plain,
    )

-- Where the target is reached: fewer lie in the buckets before.
abbrev IsReached : ℕ → ℕ → List ℕ → List ℕ → ℕ → Type 0
IsReached seen target bs uppers u =
    (before after : List ℕ) × (b : ℕ) × (bounds higher : List ℕ) × (bs ≡ before ++ (b ∷ after))
    × (uppers ≡ bounds ++ (u ∷ higher))
    × (length before ≡ length bounds)
    × (seen + total before < target)
    × (target ≤ seen + total before + b)

first_reached-later :
    (seen target b u v : ℕ) (bs uppers : List ℕ)
    → wrap (seen + b) ≡ seen + b
    → leb target (seen + b) ≡ false
    → first_reached (seen + b) target bs uppers ≡ some v
    → first_reached seen target (b ∷ bs) (u ∷ uppers) ≡ some v
unfolding first_reached
first_reached-later seen target b u v bs uppers plain e found = rw (plain, e) found

first_reached-IsReached :
    (seen target : ℕ) (bs uppers : List ℕ)
    → seen < target
    → target ≤ seen + total bs
    → seen + total bs < u64_size
    → length bs ≡ length uppers
    → (u : ℕ) × (first_reached seen target bs uppers ≡ some u) × IsReached seen target bs uppers u
unfolding first_reached
first_reached-IsReached seen target [] uppers h k l m = absurd (omega (arith, h, k))
first_reached-IsReached seen target (b ∷ bs) [] h k l m = absurd (omega (arith, m))
first_reached-IsReached seen target (b ∷ bs) (u ∷ uppers) h k l m =
    let plain : wrap (seen + b) ≡ seen + b = omega (arith, l) in
    elim (Bool-cases (leb target (seen + b))) [
      | inl e ↦ (
        u,
        rw (plain, e),
        ([], bs, b, [], uppers, refl, refl, refl, omega (arith, h), ground arith),
      )
      | inr e ↦
          let (v, found, (before, after, c, bounds, higher, split, cut, same, below, enough)) =
            first_reached-IsReached (seen + b) target bs uppers (ground arith) (omega (arith, k))
              (omega (arith, l)) (omega (arith, m)) in
          (
            v,
            first_reached-later seen target b u v bs uppers plain e found,
            (
              b ∷ before,
              after,
              c,
              u ∷ bounds,
              higher,
              ap (λ xs. b ∷ xs) split,
              ap (λ xs. u ∷ xs) cut,
              ap suc same,
              omega (arith, below),
              omega (arith, enough),
            ),
          )
    ]

share_le : (n percentile : ℕ) → percentile ≤ 100 → n * percentile ≤ 100 * n
share_le zero percentile h = omega arith
share_le (suc n) percentile h = let fewer = share_le n percentile h in omega (arith, fewer, h)

as_u64-plain : (n : ℕ) → n + 99 < u64_size → as_u64 (wrap n + 99) ≡ n + 99
as_u64-plain n h = let plain : wrap n ≡ n = omega (arith, h) in rw plain (ground arith)

at_least_one_lt : (n : ℕ) → 0 < at_least_one n
at_least_one_lt n = ground arith

at_least_one_le : (n count : ℕ) → n ≤ count → count ≢ 0 → at_least_one n ≤ count
at_least_one_le n count h k = ground arith

hundredth_le : (n count : ℕ) → n ≤ 100 * count → (n + 99) / 100 ≤ count
hundredth_le n count h = omega (arith, h)

-- With the bucket of the bound, `share` of the durations, in hundredths, and one at least is reached;
-- without it, less, or none lies in the buckets before.
abbrev pub IsPercentile : ℕ → List ℕ → List ℕ → ℕ → Type 0
IsPercentile share bs uppers u =
    (before after : List ℕ) × (b : ℕ) × (bounds higher : List ℕ) × (bs ≡ before ++ (b ∷ after))
    × (uppers ≡ bounds ++ (u ∷ higher))
    × (length before ≡ length bounds)
    × ((total before ≡ 0) ⊎ (100 * total before < share))
    × (share ≤ 100 * (total before + b))
    × (0 < total before + b)

-- Fewer than the hundredth part, rounded up, and one at least.
below_share : (n share : ℕ) → n < at_least_one ((share + 99) / 100) → (n ≡ 0) ⊎ (100 * n < share)
below_share n share h = elim (Bool-cases (((share + 99) / 100) == 0)) [
  | inl e ↦ inl (ground arith)
  | inr e ↦ inr (ground arith)
]

above_share : (n share : ℕ) → at_least_one ((share + 99) / 100) ≤ n → (share ≤ 100 * n) × (0 < n)
above_share n share h = elim (Bool-cases (((share + 99) / 100) == 0)) [
  | inl e ↦ (ground arith, ground arith)
  | inr e ↦ (ground arith, ground arith)
]

IsReached-IsPercentile :
    (share target : ℕ) (bs uppers : List ℕ) (u : ℕ)
    → target ≡ at_least_one ((share + 99) / 100)
    → IsReached 0 target bs uppers u
    → IsPercentile share bs uppers u
IsReached-IsPercentile share target bs uppers u e
      (before, after, b, bounds, higher, split, cut, same, below, enough) =
    let first : total before < target = omega (arith, below) in
    let then_enough : target ≤ total before + b = omega (arith, enough) in
    let (reached, some_duration) = above_share (total before + b) share (rw e at then_enough) in
    (
      before,
      after,
      b,
      bounds,
      higher,
      split,
      cut,
      same,
      below_share (total before) share (rw e at first),
      reached,
      some_duration,
    )

-- In a histogram of which the buckets hold all that was recorded, and which is not empty, a
-- percentile of at most 100 is the bound of a bucket: with that bucket, at least that percentage of
-- the durations, and at least one, is reached, and the buckets before it hold a smaller percentage,
-- or nothing, as long as the product does not overflow.
pub percentile_us-IsPercentile :
    (s : PhaseStats) (percentile : ℕ)
    → IsStats s
    → s.count ≢ 0
    → percentile ≤ 100
    → s.count * percentile + 99 < u64_size
    → IsPercentile (s.count * percentile) s.buckets buckets_us (percentile_us s s.count percentile)
unfolding percentile_us
percentile_us-IsPercentile s percentile (len, sum, h) k p l =
    let target = target_of s.count percentile in
    let most : target ≤ s.count = rw (as_u64-plain (s.count * percentile) l) (
      at_least_one_le ((s.count * percentile + 99) / 100) s.count
        (hundredth_le (s.count * percentile) s.count (share_le s.count percentile p)) k) in
    let (u, found, reached) =
      first_reached-IsReached 0 target s.buckets buckets_us
        (at_least_one_lt (as_u64 (wrap (s.count * percentile) + 99) / 100))
        (omega (arith, most, sum)) (omega (arith, sum, h)) len in
    let some_count : (s.count == 0) ≡ false = ground (arith, k) in
    let same : target ≡ at_least_one ((s.count * percentile + 99) / 100) =
      ap (λ n. at_least_one (n / 100)) (as_u64-plain (s.count * percentile) l) in
    rw (some_count, found)
      (IsReached-IsPercentile (s.count * percentile) target s.buckets buckets_us u same reached)
