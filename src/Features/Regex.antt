-- ===== src/Features/Regex.antt =====
-- The regular expression of src/feature_flags.rs, `FEATURE_NAME_REGEX`, as a relation.
use marreta_lang.Base.{ℕ, ◌≡◌, Bool, true, [], ◌∷◌, ◌++◌, ◌==◌}
use marreta_lang.Text.{Text, is_ascii_lowercase}
use marreta_lang.Features.{is_name_char}

pub data Regex : Type 0 where
  class : (ℕ → Bool) → Regex
  seq : Regex → Regex → Regex
  star : Regex → Regex

pub data Matches : Regex → Text → Type 0 where
  match_class : {p : ℕ → Bool} {c : ℕ} → p c ≡ true → Matches (class p) (c ∷ [])
  match_seq :
      {r s : Regex} {t u v : Text} → Matches r u → Matches s v → t ≡ u ++ v → Matches (seq r s) t
  match_nil : {r : Regex} → Matches (star r) []
  match_more :
      {r : Regex} {t u v : Text}
      → Matches r u
      → Matches (star r) v
      → t ≡ u ++ v
      → Matches (star r) t

-- `[a-z0-9]+`
abbrev pub name_chars : Regex
name_chars = seq (class is_name_char) (star (class is_name_char))

abbrev pub is_underscore : ℕ → Bool
is_underscore c = c == b'_'

-- `^[a-z][a-z0-9]*(_[a-z0-9]+)*$`
abbrev pub feature_name_regex : Regex
feature_name_regex =
    seq (class is_ascii_lowercase)
      (seq (star (class is_name_char)) (star (seq (class is_underscore) name_chars)))
