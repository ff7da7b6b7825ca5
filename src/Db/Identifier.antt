-- ===== src/Db/Identifier.antt =====
-- src/db/query_builder.rs: the guard of SQL identifiers.
pub mod Safety
use marreta_lang.Base.{
  ℕ, Bool, true, false, not, ◌&&◌, ◌||◌, List, [], ◌∷◌, ◌++◌, map, ltb, ◌==◌, if◌then◌else◌, Option,
  none, some, all, any, length,
}
use marreta_lang.Base.Results.{Result, ok, err, ◌>>=◌}
use marreta_lang.Text.{
  Text, codes, text_eq, split, join, is_ascii_alphabetic, is_ascii_alphanumeric,
}
use marreta_lang.Text.Trim.{trim}

-- The two codes of `DbIdentifierError`, with the identifier that the message names.
pub data DbError : Type 0 where
  invalid_identifier : Text → DbError
  unknown_column : Text → DbError

abbrev pub is_segment_char : ℕ → Bool
is_segment_char c = is_ascii_alphanumeric c || c == b'_'

abbrev pub is_segment_start : ℕ → Bool
is_segment_start c = is_ascii_alphabetic c || c == b'_'

unfoldable pub segment_ok : Text → Bool
segment_ok [] = false
segment_ok (c ∷ cs) = is_segment_start c && all is_segment_char cs

-- `format!("\"{}\"", s)`
abbrev pub in_quotes : Text → Text
in_quotes s = b'"' ∷ (s ++ b'"' ∷ [])

-- `matches!(segments.len(), 1 | 2)`
abbrev pub one_or_two : List Text → Bool
one_or_two (s ∷ []) = true
one_or_two (s ∷ t ∷ []) = true
one_or_two _ = false

unfoldable pub quote_segments : Text → List Text → Result DbError Text
quote_segments trimmed segments =
    if not (one_or_two segments && all segment_ok segments)
    then err (invalid_identifier trimmed)
    else ok (join (codes ".") (map in_quotes segments))

unfoldable pub quote_identifier : Text → Result DbError Text
quote_identifier raw = quote_segments (trim raw) (split b'.' (trim raw))

-- The known columns of a table, as a set.
abbrev pub Columns : Type 0
Columns = Option (List Text)

abbrev pub contains_column : List Text → Text → Bool
contains_column cols c = any (text_eq c) cols

abbrev pub has_dot : Text → Bool
has_dot = any (λ c. c == b'.')

unfoldable pub check_known : Text → Columns → Text → Result DbError Text
check_known trimmed none quoted = ok quoted
check_known trimmed (some cols) quoted =
    if not (has_dot trimmed) && not (contains_column cols trimmed)
    then err (unknown_column trimmed)
    else ok quoted

unfoldable pub validate_column : Text → Columns → Result DbError Text
validate_column raw known = quote_identifier raw >>= check_known (trim raw) known
