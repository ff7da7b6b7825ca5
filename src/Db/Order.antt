-- ===== src/Db/Order.antt =====
-- src/db/query_builder.rs: `build_order_by`.
pub mod Safety
use marreta_lang.Base.{
  ℕ, Bool, true, false, not, ◌&&◌, ◌||◌, List, [], ◌∷◌, ◌++◌, if◌then◌else◌, is_empty,
}
use marreta_lang.Base.Results.{Result, ok, err, ◌>>=◌}
use marreta_lang.Text.{Text, codes, text_eq, split, join, uppercase}
use marreta_lang.Text.Trim.{trim}
use marreta_lang.Text.Words.{split_whitespace}
use marreta_lang.Db.Identifier.{DbError, invalid_identifier, Columns, validate_column}

abbrev pub is_direction : Text → Bool
is_direction dir = text_eq (uppercase dir) (codes "ASC") || text_eq (uppercase dir) (codes "DESC")

-- One part between commas, by its words.
unfoldable pub render_words : Text → Columns → List Text → Result DbError Text
render_words part known (col ∷ []) = validate_column col known
render_words part known (col ∷ dir ∷ []) =
    if not (is_direction dir)
    then err (invalid_identifier part)
    else (validate_column col known >>= λ quoted. ok (quoted ++ (b' ' ∷ dir)))
render_words part known _ = err (invalid_identifier (trim part))

unfoldable pub render_parts : Columns → List Text → Result DbError (List Text)
render_parts known [] = ok []
render_parts known (part ∷ parts) = render_words part known (split_whitespace part) >>= λ r.
    render_parts known parts >>= λ rs. ok (r ∷ rs)

abbrev pub join_rendered : Text → List Text → Result DbError Text
join_rendered order [] = err (invalid_identifier order)
join_rendered order (r ∷ rs) = ok (join (codes ", ") (r ∷ rs))

unfoldable pub build_order_by : Text → Columns → Result DbError Text
build_order_by order known = render_parts known (split b',' order) >>= join_rendered order
