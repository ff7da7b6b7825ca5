-- ===== src/Db/Identifier/Safety.antt =====
-- src/db/query_builder.rs: what `quote_identifier` lets into the SQL text.
use marreta_lang.Base.{
  ℕ, Bool, within, ◌||◌, ◌==◌, ◌≡◌, ◌↔◌, refl, sym, ◌∙◌, true, ◌&&◌, List, [], ◌∷◌, ◌++◌, arith,
  all, Bool-cases, inl, inr, and-eq_true,
}
use marreta_lang.Base.Results.{ok, ok-injective}
use marreta_lang.Text.{Text, codes, split, join, join-split, split-append, split-lacks, lacks}
use marreta_lang.Text.Trim.{trim}
use marreta_lang.Db.Identifier.{
  is_segment_char, segment_ok, in_quotes, one_or_two, quote_segments, quote_identifier,
}

abbrev pub is_letter : ℕ → Bool
is_letter c = within b'A' b'Z' c || within b'a' b'z' c || c == b'_'

abbrev pub is_letter_or_digit : ℕ → Bool
is_letter_or_digit c = is_letter c || within b'0' b'9' c

-- `[A-Za-z_][A-Za-z0-9_]*`
abbrev pub IsSegment : Text → Type 0
IsSegment s =
    (first : ℕ) × (others : Text) × (s ≡ first ∷ others)
    × (is_letter first ≡ true)
    × (all is_letter_or_digit others ≡ true)

-- A name of one or two segments, and its quoted form.
pub data Quoted (name out : Text) : Type 0 where
  plain : (s : Text) → IsSegment s → name ≡ s → out ≡ in_quotes s → Quoted name out
  qualified :
      (s t : Text)
      → IsSegment s
      → IsSegment t
      → name ≡ s ++ (b'.' ∷ t)
      → out ≡ in_quotes s ++ (b'.' ∷ in_quotes t)
      → Quoted name out

all-segment_char : (s : Text) → all is_segment_char s ≡ all is_letter_or_digit s
all-segment_char [] = refl
all-segment_char (c ∷ s) = ground (arith, all-segment_char s)

segment_ok-cons :
    (c : ℕ) (s : Text) → segment_ok (c ∷ s) ≡ (is_letter c && all is_letter_or_digit s)
unfolding segment_ok
segment_ok-cons c s = ground (arith, all-segment_char s)

segment_ok-IsSegment : (s : Text) → segment_ok s ≡ true → IsSegment s
segment_ok-IsSegment [] h = unfold segment_ok in cc h
segment_ok-IsSegment (c ∷ s) h =
    let (first, others) =
      and-eq_true (is_letter c) (all is_letter_or_digit s) (sym (segment_ok-cons c s) ∙ h) in
    (c, s, refl, first, others)

IsSegment-segment_ok : (s : Text) → IsSegment s → segment_ok s ≡ true
IsSegment-segment_ok s (c, others, e, h, k) = rw (e, segment_ok-cons c others, h, k)

segment-lacks_dot : (s : Text) → segment_ok s ≡ true → lacks b'.' s ≡ true
unfolding segment_ok
segment-lacks_dot [] h = refl
segment-lacks_dot (c ∷ s) h = ground (arith, chars s)
  where
    chars : (s : Text) → all is_segment_char s ≡ true → lacks b'.' s ≡ true
    chars [] h = refl
    chars (c ∷ s) h = ground (arith, chars s)

quote_segments-one :
    (trimmed s : Text) → segment_ok s ≡ true → quote_segments trimmed (s ∷ []) ≡ ok (in_quotes s)
unfolding quote_segments join
quote_segments-one trimmed s h = rw h

quote_segments-two :
    (trimmed s t : Text)
    → segment_ok s ≡ true
    → segment_ok t ≡ true
    → quote_segments trimmed (s ∷ t ∷ []) ≡ ok (in_quotes s ++ (b'.' ∷ in_quotes t))
unfolding quote_segments join
quote_segments-two trimmed s t h k = rw (h, k)

segment_case :
    (trimmed : Text) (segments : List Text) {out : Text}
    → quote_segments trimmed segments ≡ ok out
    → all segment_ok segments ≡ true
unfolding quote_segments
segment_case trimmed segments h =
    elim (Bool-cases (one_or_two segments && all segment_ok segments)) [
      | inl shaped ↦ (and-eq_true (one_or_two segments) (all segment_ok segments) shaped).1
      | inr other ↦ cc (rw other at h)
    ]

quote_segments-Quoted :
    (trimmed : Text) (segments : List Text) {out : Text}
    → quote_segments trimmed segments ≡ ok out
    → Quoted (join (codes ".") segments) out
quote_segments-Quoted trimmed [] h = unfold quote_segments in cc h
quote_segments-Quoted trimmed (s ∷ []) {out} h =
    let good = (and-eq_true (segment_ok s) true (segment_case trimmed (s ∷ []) h)).0 in
    Quoted.plain s (segment_ok-IsSegment s good) (unfold join in refl)
      (sym (ok-injective (in_quotes s) out (sym (quote_segments-one trimmed s good) ∙ h)))
quote_segments-Quoted trimmed (s ∷ t ∷ []) {out} h =
    let both =
      and-eq_true (segment_ok s) (segment_ok t && true) (segment_case trimmed (s ∷ t ∷ []) h) in
    let good = (and-eq_true (segment_ok t) true both.1).0 in
    Quoted.qualified s t (segment_ok-IsSegment s both.0) (segment_ok-IsSegment t good)
      (unfold join in refl)
      (sym (ok-injective _ out (sym (quote_segments-two trimmed s t both.0 good) ∙ h)))
quote_segments-Quoted trimmed (s ∷ t ∷ u ∷ segments) h = unfold quote_segments in cc h

Quoted-quote_segments :
    (name : Text) {out : Text} → Quoted name out → quote_segments name (split b'.' name) ≡ ok out
Quoted-quote_segments name (Quoted.plain s p e f) =
    let h = IsSegment-segment_ok s p in
    rw (e, f, split-lacks b'.' s (segment-lacks_dot s h)) (quote_segments-one s s h)
Quoted-quote_segments name (Quoted.qualified s t p q e f) =
    let h = IsSegment-segment_ok s p in
    let k = IsSegment-segment_ok t q in
    rw
      (
        e,
        f,
        split-append b'.' s t (segment-lacks_dot s h),
        split-lacks b'.' t (segment-lacks_dot t k),
      )
      (quote_segments-two (s ++ (b'.' ∷ t)) s t h k)

-- quote_identifier accepts exactly the names of one or two segments of letters, digits and
-- underscores that begin with no digit, with whitespace around them, and returns their quoted form.
pub quote_identifier_iff :
    (raw out : Text) → (quote_identifier raw ≡ ok out) ↔ Quoted (trim raw) out
unfolding quote_identifier
quote_identifier_iff raw out = (
  λ h.
      rw (join-split b'.' (trim raw)) at
        (quote_segments-Quoted (trim raw) (split b'.' (trim raw)) h),
  Quoted-quote_segments (trim raw),
)
