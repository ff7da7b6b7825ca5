-- ===== src/Version/Laws.antt =====
-- src/version.rs: which texts `parse_version` and `parse_requires_marreta` read as which versions.
use marreta_lang.Base.{
  ℕ, ◌<◌, ◌≡◌, refl, ap, ◌∙◌, Bool, true, false, not, ◌||◌, [], ◌∷◌, ◌++◌, arith, some, all, any,
  ◌==◌, and_true, and-eq_true, all-append,
}
use marreta_lang.Text.{
  Text, codes, strip_prefix_append, split, split-append, split-lacks, lacks, is_ascii_digit,
  is_whitespace, is_whitespace-printable,
}
use marreta_lang.Text.Trim.{all_whitespace, no_whitespace, trim-around}
use marreta_lang.Text.Decimal.{show, all-show, parse_u64-show, parse_u64-plus, u64_bound}
use marreta_lang.Version.{parse_parts, parse_version, skip_space, parse_requires_marreta}

-- `MAJOR.MINOR.PATCH`
abbrev pub version_text : ℕ → ℕ → ℕ → Text
version_text a b c = show a ++ (b'.' ∷ (show b ++ (b'.' ∷ show c)))

digits-lack_dot : (t : Text) → all is_ascii_digit t ≡ true → lacks b'.' t ≡ true
digits-lack_dot [] h = refl
digits-lack_dot (c ∷ t) h = ground (arith, digits-lack_dot t)

split-version :
    (s t u : Text)
    → all is_ascii_digit t ≡ true
    → all is_ascii_digit u ≡ true
    → lacks b'.' s ≡ true
    → split b'.' (s ++ (b'.' ∷ (t ++ (b'.' ∷ u)))) ≡ s ∷ t ∷ u ∷ []
split-version s t u h k l =
    split-append b'.' s (t ++ (b'.' ∷ u)) l
    ∙ ap (◌∷◌ s) (
        split-append b'.' t u (digits-lack_dot t h)
        ∙ ap (◌∷◌ t) (split-lacks b'.' u (digits-lack_dot u k)))

-- A version with parts below 2 ^ 64 is read back from its text.
pub parse_version-text :
    (a b c : ℕ)
    → a < u64_bound
    → b < u64_bound
    → c < u64_bound
    → parse_version (version_text a b c) ≡ some (a, b, c)
unfolding parse_version parse_parts
parse_version-text a b c ha hb hc = rw (
  split-version (show a) (show b) (show c) (all-show b) (all-show c)
      (digits-lack_dot (show a) (all-show a)),
  parse_u64-show a ha,
  parse_u64-show b hb,
  parse_u64-show c hc,
)

-- A plus sign in front of a version with parts below 2 ^ 64 is read too, though it is no part of
-- MAJOR.MINOR.PATCH.
pub parse_version-plus :
    (a b c : ℕ)
    → a < u64_bound
    → b < u64_bound
    → c < u64_bound
    → parse_version (b'+' ∷ version_text a b c) ≡ some (a, b, c)
unfolding parse_version parse_parts
parse_version-plus a b c ha hb hc = rw (
  split-version (b'+' ∷ show a) (show b) (show c) (all-show b) (all-show c)
      (digits-lack_dot (show a) (all-show a)),
  parse_u64-plus (show a) (all-show a),
  parse_u64-show a ha,
  parse_u64-show b hb,
  parse_u64-show c hc,
)

abbrev is_version_char : ℕ → Bool
is_version_char c = is_ascii_digit c || c == b'.'

version_chars : (t : Text) → all is_ascii_digit t ≡ true → all is_version_char t ≡ true
version_chars [] h = refl
version_chars (c ∷ t) h = ground (arith, version_chars t)

version_text-chars : (a b c : ℕ) → all is_version_char (version_text a b c) ≡ true
version_text-chars a b c =
    all-append is_version_char (show a) _ (version_chars (show a) (all-show a)) (
      all-append is_version_char (show b) _ (version_chars (show b) (all-show b))
        (version_chars (show c) (all-show c)))

version_char-printable : (c : ℕ) → is_version_char c ≡ true → (0x20 < c) × (c < 0x7f)
version_char-printable c h = ground arith

chars-no_whitespace : (t : Text) → all is_version_char t ≡ true → no_whitespace t ≡ true
chars-no_whitespace [] h = refl
chars-no_whitespace (c ∷ t) h =
    let (first, rest) = and-eq_true (is_version_char c) (all is_version_char t) h in
    let (low, high) = version_char-printable c first in
    rw (is_whitespace-printable c low high) (chars-no_whitespace t rest)

any-no_whitespace : (t : Text) → no_whitespace t ≡ true → any is_whitespace t ≡ false
any-no_whitespace [] h = refl
any-no_whitespace (c ∷ t) h = ground (arith, any-no_whitespace t)

skip_space-chars : (t : Text) → all is_version_char t ≡ true → skip_space t ≡ t
skip_space-chars [] h = refl
skip_space-chars (c ∷ t) h = ground arith

-- The setting >=MAJOR.MINOR.PATCH with parts below 2 ^ 64 is read as its version, with any
-- whitespace around it.
pub parse_requires_marreta-text :
    (before after : Text) (a b c : ℕ)
    → all_whitespace before ≡ true
    → all_whitespace after ≡ true
    → a < u64_bound
    → b < u64_bound
    → c < u64_bound
    → parse_requires_marreta (before ++ ((codes ">=" ++ version_text a b c) ++ after))
      ≡ some (a, b, c)
unfolding parse_requires_marreta
parse_requires_marreta-text before after a b c hw kw ha hb hc =
    let version = version_text a b c in
    let chars = version_text-chars a b c in
    let plain = chars-no_whitespace version chars in
    rw
      (
        trim-around before b'>' (b'=' ∷ version) after hw kw (
            and_true (ap not (is_whitespace-printable b'>' (omega arith) (omega arith)))
              (and_true (ap not (is_whitespace-printable b'=' (omega arith) (omega arith))) plain)),
        strip_prefix_append (codes ">=") version,
        skip_space-chars version chars,
        any-no_whitespace version plain,
      )
      (parse_version-text a b c ha hb hc)
