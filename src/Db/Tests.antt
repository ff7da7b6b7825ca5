-- ===== src/Db/Tests.antt =====
-- The theorems on src/db/query_builder.rs at concrete queries. A value is a list of numbers here,
-- which is a `Value::List` unless it has one element.
use marreta_lang.Base.{
  ℕ, ◌≡◌, ◌≢◌, ◌↔◌, ◌+◌, refl, false, List, [], ◌∷◌, ◌++◌, Option, none, some, length,
}
use marreta_lang.Base.Results.{ok}
use marreta_lang.Text.{Text, codes, split, join, text_eq, is_whitespace, to_ascii_uppercase}
use marreta_lang.Text.Trim.{trim, trim_start, trim_end}
use marreta_lang.Text.Words.{split_where, nonempty_parts}
use marreta_lang.Text.Decimal.{show, digits}
use marreta_lang.Db.Identifier.{
  segment_ok, quote_segments, quote_identifier, check_known, validate_column,
}
use marreta_lang.Db.Identifier.Safety.{Quoted, quote_identifier_iff}
use marreta_lang.Db.Order.{build_order_by, render_words, render_parts}
use marreta_lang.Db.Order.Safety.{AllItems, build_order_by_safe}
use marreta_lang.Db.Query.{
  ℤ, FilterOp, FilterClause, JoinKind, QueryState, validate_columns, filter_clauses, build_select,
  numbered_clauses, set_clauses, build_update, build_delete, where_sql,
}
use marreta_lang.Db.Query.Update.{AreSets, AreNumbered, build_update-slots, build_delete-slots}

abbrev one_each : List ℕ → List (List ℕ)
one_each [] = []
one_each (n ∷ ns) = (n ∷ []) ∷ one_each ns

abbrev as_list : List ℕ → Option (List (List ℕ))
as_list (n ∷ []) = none
as_list ns = some (one_each ns)

abbrev filters : List (FilterClause (List ℕ))
filters =
    record { column = codes "status"; op = FilterOp.in_list; value = 7 ∷ 8 ∷ 9 ∷ [] }
    ∷ record { column = codes "o.total"; op = FilterOp.gte; value = 100 ∷ [] }
    ∷ []

abbrev query : QueryState (List ℕ)
query = record {
  table = codes "orders";
  filters = filters;
  joins = record { kind = JoinKind.left; table = codes "users"; on = codes "user_id" } ∷ [];
  select_cols = codes "id" ∷ codes "total" ∷ [];
  order_by = some (codes "total desc, id");
  limit = some (ℤ.pos 10);
  offset = some (ℤ.negsuc 4);
  count = false;
  known_columns = some (codes "id" ∷ codes "total" ∷ codes "status" ∷ []);
}

abbrev query_sql : Text
query_sql =
    codes
      "SELECT \"id\", \"total\" FROM orders LEFT JOIN users ON orders.user_id = users.id WHERE \"status\" IN ($1, $2, $3) AND \"o\".\"total\" >= $4 ORDER BY \"total\" desc, \"id\" LIMIT 10 OFFSET -5"

abbrev query_params : List (List ℕ)
query_params = (7 ∷ []) ∷ (8 ∷ []) ∷ (9 ∷ []) ∷ (100 ∷ []) ∷ []

update-built :
    build_update (codes "orders") (codes "status" ∷ codes "total" ∷ []) filters none
    ≡ ok (
      codes
          "UPDATE orders SET \"status\" = $1, \"total\" = $2 WHERE \"status\" IN $3 AND \"o\".\"total\" >= $4",
      3,
    )
unfolding build_select filter_clauses validate_columns validate_column quote_identifier
    quote_segments segment_ok check_known build_order_by render_parts render_words split_where
    nonempty_parts split join text_eq is_whitespace to_ascii_uppercase trim_start trim_end show
    digits numbered_clauses set_clauses build_update build_delete
update-built = refl

delete-built :
    build_delete (codes "orders") filters none
    ≡ ok (codes "DELETE FROM orders WHERE \"status\" IN $1 AND \"o\".\"total\" >= $2", 1)
unfolding build_select filter_clauses validate_columns validate_column quote_identifier
    quote_segments segment_ok check_known build_order_by render_parts render_words split_where
    nonempty_parts split join text_eq is_whitespace to_ascii_uppercase trim_start trim_end show
    digits numbered_clauses set_clauses build_update build_delete
delete-built = refl

order-built :
    build_order_by (codes "total desc, id") query.known_columns
    ≡ ok (codes "\"total\" desc, \"id\"")
unfolding build_select filter_clauses validate_columns validate_column quote_identifier
    quote_segments segment_ok check_known build_order_by render_parts render_words split_where
    nonempty_parts split join text_eq is_whitespace to_ascii_uppercase trim_start trim_end show
    digits numbered_clauses set_clauses build_update build_delete
order-built = refl

quote_identifier_iff_example :
    (quote_identifier (codes " o.total") ≡ ok (codes "\"o\".\"total\""))
    ↔ Quoted (trim (codes " o.total")) (codes "\"o\".\"total\"")
quote_identifier_iff_example = quote_identifier_iff (codes " o.total") (codes "\"o\".\"total\"")

build_order_by_safe_example :
    (items : List Text) × (items ≢ [])
    × (codes "\"total\" desc, \"id\"" ≡ join (codes ", ") items)
    × AllItems query.known_columns items
build_order_by_safe_example =
    build_order_by_safe (codes "total desc, id") query.known_columns order-built

build_update-slots_example :
    (3 ≡ length (codes "status" ∷ codes "total" ∷ []) + 1)
    × (sets wheres : List Text) × AreSets (codes "status" ∷ codes "total" ∷ []) 1 sets
    × AreNumbered 3 filters wheres
    × (codes
          "UPDATE orders SET \"status\" = $1, \"total\" = $2 WHERE \"status\" IN $3 AND \"o\".\"total\" >= $4"
        ≡ codes "UPDATE "
          ++ (codes "orders" ++ (codes " SET " ++ (join (codes ", ") sets ++ where_sql wheres))))
build_update-slots_example =
    build_update-slots (codes "orders") (codes "status" ∷ codes "total" ∷ []) filters none
      update-built

build_delete-slots_example :
    (◌≡◌ {A = ℕ} 1 1)
    × (wheres : List Text) × AreNumbered 1 filters wheres
    × (codes "DELETE FROM orders WHERE \"status\" IN $1 AND \"o\".\"total\" >= $2"
        ≡ codes "DELETE FROM " ++ (codes "orders" ++ where_sql wheres))
build_delete-slots_example = build_delete-slots (codes "orders") filters none delete-built
