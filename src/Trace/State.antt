-- ===== src/Trace/State.antt =====
-- src/trace_context.rs: what `sanitize_tracestate` lets through.
use marreta_lang.Base.{
  ℕ, zero, suc, ◌≤◌, ◌≡◌, ◌≢◌, refl, Bool, true, false, ◌||◌, List, [], ◌∷◌, arith, Option, none,
  some, all, any, is_empty, length, Bool-cases, inl, inr, if_ind, OnSome, OnSome-some,
}
use marreta_lang.Text.{Text, codes, split, join, byte_len, is_ascii_control}
use marreta_lang.Trace.{
  is_valid_tracestate_entry, keep_entries, pop, too_large, shrink, joined, sanitize_text,
  sanitize_tracestate,
}

abbrev all_valid : List Text → Bool
all_valid = all is_valid_tracestate_entry

keep_entries-valid : (ps : List Text) → all_valid (keep_entries ps) ≡ true
unfolding keep_entries
keep_entries-valid [] = refl
keep_entries-valid (p ∷ ps) = ground (arith, keep_entries-valid ps)

all-pop : (p : Text → Bool) (es : List Text) → all p es ≡ true → all p (pop es) ≡ true
all-pop p [] h = refl
all-pop p (e ∷ []) h = refl
all-pop p (e ∷ f ∷ es) h = ground (arith, all-pop p (f ∷ es))

all-shrink :
    (p : Text → Bool) (fuel : ℕ) (es : List Text) → all p es ≡ true → all p (shrink fuel es) ≡ true
unfolding shrink
all-shrink p zero es h = h
all-shrink p (suc fuel) es h = ground (arith, all-shrink p fuel (pop es) (all-pop p es h))

length-pop : (es : List Text) (n : ℕ) → length es ≤ suc n → length (pop es) ≤ n
length-pop [] n h = omega arith
length-pop (e ∷ []) n h = omega arith
length-pop (e ∷ f ∷ es) zero h = absurd (omega arith)
length-pop (e ∷ f ∷ es) (suc n) h = omega (arith, length-pop (f ∷ es) n (omega arith))

-- The fuel of `shrink` is enough: its result is small.
shrink-small : (fuel : ℕ) (es : List Text) → length es ≤ fuel → too_large (shrink fuel es) ≡ false
unfolding shrink
shrink-small zero [] h = unfold join byte_len in refl
shrink-small zero (e ∷ es) h = absurd (omega arith)
shrink-small (suc fuel) es h = elim (Bool-cases (too_large es)) [
  | inl large ↦ rw large (shrink-small fuel (pop es) (length-pop es fuel h))
  | inr small ↦ rw small small
]

-- The value that is sent on: its entries are valid, and it keeps within the limits.
pub record IsTracestate (value : Text) : Type 0 where
  pub entries : List Text
  pub nonempty : entries ≢ []
  pub written : value ≡ join (codes ",") entries
  pub valid : all is_valid_tracestate_entry entries ≡ true
  pub few : length entries ≤ 32
  pub short : byte_len value ≤ 512

joined-IsTracestate :
    (es : List Text) → all_valid es ≡ true → too_large es ≡ false → OnSome IsTracestate (joined es)
joined-IsTracestate [] h k = tt
joined-IsTracestate (e ∷ es) h k = record {
  entries = e ∷ es;
  nonempty = λ x. cc;
  written = refl;
  valid = h;
  few = ground arith;
  short = ground arith;
}

sanitize_text-IsTracestate : (value : Text) → OnSome IsTracestate (sanitize_text value)
unfolding sanitize_text
sanitize_text-IsTracestate value =
    let entries = keep_entries (split b',' value) in
    if_ind (OnSome IsTracestate) (is_empty value || any is_ascii_control value) tt (
      joined-IsTracestate (shrink (length entries) entries)
        (all-shrink is_valid_tracestate_entry (length entries) entries
          (keep_entries-valid (split b',' value)))
        (shrink-small (length entries) entries (omega arith)))

-- What is passed on of a tracestate header is a list of at least one and at most 32 valid entries
-- between commas, of at most 512 bytes together.
pub sanitize_tracestate-IsTracestate :
    (header : Option Text) {value : Text}
    → sanitize_tracestate header ≡ some value
    → IsTracestate value
unfolding sanitize_tracestate
sanitize_tracestate-IsTracestate none h = cc
sanitize_tracestate-IsTracestate (some text) h =
    OnSome-some IsTracestate _ (sanitize_text-IsTracestate text) h
