-- ===== src/Text/Decimal.antt =====
-- Decimal numerals: `u64::from_str`, and the printing of a number by `format!`.
use marreta_lang.Base.{
  ℕ, zero, suc, ◌+◌, ◌-◌, ◌*◌, ◌/◌, ◌%◌, ◌^◌, ◌<◌, ◌≡◌, ◌≢◌, refl, ◌∙◌, true, [], ◌∷◌, ◌++◌, arith,
  ltb, ◌==◌, if◌then◌else◌, Option, none, some, all, Bool-cases, inl, inr, all-append,
}
use marreta_lang.Text.{Text, is_ascii_digit}

-- The digits of a number below 10 ^ fuel, the most significant first.
unfoldable pub digits : ℕ → ℕ → Text
digits zero n = []
digits (suc fuel) n =
    let more = digits fuel (n / 10) ++ ((n % 10 + b'0') ∷ []) in
    if ltb n 10 then (n + b'0') ∷ [] else more

-- `format!("{}", n)`
unfoldable pub show : ℕ → Text
show n = digits (suc n) n

-- The loop of `from_str_radix`: each step is checked against the bound.
unfoldable pub checked_decimal : ℕ → ℕ → Text → Option ℕ
checked_decimal bound acc [] = some acc
checked_decimal bound acc (c ∷ cs) =
    let next = 10 * acc + (c - b'0') in
    let more = checked_decimal bound next cs in
    if is_ascii_digit c then (if ltb next bound then more else none) else none

abbrev pub strip_plus : Text → Text
strip_plus [] = []
strip_plus (c ∷ cs) = if c == b'+' then cs else c ∷ cs

abbrev pub nonempty_decimal : ℕ → Text → Option ℕ
nonempty_decimal bound [] = none
nonempty_decimal bound (c ∷ cs) = checked_decimal bound 0 (c ∷ cs)

abbrev pub u64_bound : ℕ
u64_bound = 2 ^ 64

-- `str::parse::<u64>().ok()`: one leading plus sign is allowed.
unfoldable pub parse_u64 : Text → Option ℕ
parse_u64 t = nonempty_decimal u64_bound (strip_plus t)

checked_decimal-append :
    (bound acc : ℕ) (s t : Text) {n : ℕ}
    → checked_decimal bound acc s ≡ some n
    → checked_decimal bound acc (s ++ t) ≡ checked_decimal bound n t
unfolding checked_decimal
checked_decimal-append bound acc [] t {n} h = ground arith
checked_decimal-append bound acc (c ∷ s) t {n} h =
    let rest = checked_decimal-append bound (10 * acc + (c - b'0')) s t {n = n} in
    elim (Bool-cases (is_ascii_digit c)) [
      | inl digit ↦ elim (Bool-cases (ltb (10 * acc + (c - b'0')) bound)) [
        | inl fits ↦ rw (digit, fits) (rest (rw (digit, fits) at h))
        | inr large ↦ cc (rw (digit, large) at h)
      ]
      | inr other ↦ cc (rw other at h)
    ]

checked_decimal-digits :
    (bound fuel n : ℕ) → n < fuel → n < bound → checked_decimal bound 0 (digits fuel n) ≡ some n
unfolding checked_decimal digits
checked_decimal-digits bound zero n h k = absurd (omega arith)
checked_decimal-digits bound (suc fuel) n h k = elim (Bool-cases (ltb n 10)) [
  | inl small ↦ rw small (ground arith)
  | inr large ↦ rw large (
      checked_decimal-append bound 0 (digits fuel (n / 10)) ((n % 10 + b'0') ∷ [])
        (checked_decimal-digits bound fuel (n / 10) (ground arith) (omega arith))
      ∙ ground arith)
]

pub all-digits : (fuel n : ℕ) → all is_ascii_digit (digits fuel n) ≡ true
unfolding digits
all-digits zero n = refl
all-digits (suc fuel) n = elim (Bool-cases (ltb n 10)) [
  | inl small ↦ rw small ground arith
  | inr large ↦
      rw large
        (all-append is_ascii_digit (digits fuel (n / 10)) _ (all-digits fuel (n / 10)) ground arith)
]

append_last-ne_nil : (s : Text) (c : ℕ) → s ++ (c ∷ []) ≢ []
append_last-ne_nil [] c e = cc
append_last-ne_nil (d ∷ s) c e = cc

pub digits-ne_nil : (fuel n : ℕ) → digits (suc fuel) n ≢ []
unfolding digits
digits-ne_nil fuel n e = elim (Bool-cases (ltb n 10)) [
  | inl small ↦ cc (rw small at e)
  | inr large ↦ append_last-ne_nil (digits fuel (n / 10)) _ (rw large at e)
]

pub all-show : (n : ℕ) → all is_ascii_digit (show n) ≡ true
unfolding show
all-show n = all-digits (suc n) n

pub show-ne_nil : (n : ℕ) → show n ≢ []
unfolding show
show-ne_nil n = digits-ne_nil n n

strip_plus-digits : (t : Text) → all is_ascii_digit t ≡ true → strip_plus t ≡ t
strip_plus-digits [] h = refl
strip_plus-digits (c ∷ t) h = ground arith

nonempty_decimal-eq :
    (bound : ℕ) (t : Text) → t ≢ [] → nonempty_decimal bound t ≡ checked_decimal bound 0 t
nonempty_decimal-eq bound [] h = absurd (h refl)
nonempty_decimal-eq bound (c ∷ t) h = refl

-- `u64::from_str` reads what `format!` prints.
pub parse_u64-show : (n : ℕ) → n < u64_bound → parse_u64 (show n) ≡ some n
unfolding parse_u64
parse_u64-show n h = rw (strip_plus-digits (show n) (all-show n)) (
    nonempty_decimal-eq u64_bound (show n) (show-ne_nil n)
    ∙ unfold show in checked_decimal-digits u64_bound (suc n) n (omega arith) h)

pub parse_u64-plus : (t : Text) → all is_ascii_digit t ≡ true → parse_u64 (b'+' ∷ t) ≡ parse_u64 t
unfolding parse_u64
parse_u64-plus t h = rw (strip_plus-digits t h)
