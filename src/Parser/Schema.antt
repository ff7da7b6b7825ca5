-- ===== src/Parser/Schema.antt =====
-- src/parser.rs: schemas, the types of their fields, and authentication providers.
use marreta_lang.Base.{
  ℕ, zero, suc, ◌==◌, Bool, true, false, ◌&&◌, ◌||◌, Option, none, some, List, [], ◌∷◌, ◌++◌,
  if◌then◌else◌, length,
}
use marreta_lang.Base.Results.{timeout}
use marreta_lang.Text.{Text, codes, text_eq}
use marreta_lang.Token.Kind.{TokenKind, Token}
use marreta_lang.Syntax.{
  Statement, AuthProvider, AuthProviderField, AuthProviderFields, auth_provider_fields,
}
use marreta_lang.Syntax.Types.{SchemaType, SchemaField}
use marreta_lang.Parser.State.{check, sees, peeks, current_kind, words, lexeme, unexpected_token}
use marreta_lang.Parser.Action.{
  Parse, ◌>>=◌, ◌>>◌, pure, gets, throw, advance, unexpected, skip_newlines, expect, expect_string,
  expect_name, expect_identifier, at_current, collect, while_loop, loop,
}
use marreta_lang.Parser.Calls.{Calls, prec_none}
use marreta_lang.Parser.Blocks.{before, skip_one}

abbrev pub seen : Text → List Text → Bool
seen value [] = false
seen value (v ∷ vs) = text_eq value v || seen value vs

abbrev pub is_empty : Text → Bool
is_empty [] = true
is_empty (_ ∷ _) = false

abbrev fault : Text → Text → Token → Parse (List Text × Bool)
fault expected got at = throw (unexpected_token (words expected) (lexeme got) at.line at.column)

-- What a round of the loop does with its value; the set `seen` holds the values.
unfoldable pub enum_value : Token → List Text → Text → Parse (List Text × Bool)
enum_value at values value =
    if is_empty value
    then fault (codes "non-empty enum string value") (codes "\"\"") at
    else if seen value values
    then fault (codes "unique enum string values") value at
    else (do
      closing ← gets (check TokenKind.right_bracket)
      if closing
          then pure (values ++ value ∷ [], false)
          else (do expect TokenKind.comma; pure (values ++ value ∷ [], true)))

abbrev pub enum_round : Token → List Text → Parse (List Text × Bool)
enum_round at values = expect_string >>= enum_value at values

abbrev pub no_value : Token → Parse SchemaType
no_value at = throw (
    unexpected_token (words (codes "at least one enum string value")) (lexeme (codes "]")) at.line
      at.column)

unfoldable pub parse_enum_schema_type : Parse SchemaType
parse_enum_schema_type = at_current λ t. do
  advance
  expect TokenKind.left_bracket
  empty ← gets (check TokenKind.right_bracket)
  if empty then no_value t else (do
    values ← loop (enum_round t) []
    expect TokenKind.right_bracket
    pure (SchemaType.enum_type values))

abbrev pub one_type : SchemaType → Parse SchemaType
one_type type = advance >> pure type

abbrev pub reference_type : Parse SchemaType
reference_type = do schema_name ← expect_identifier; pure (SchemaType.reference schema_name)

abbrev expected_type : Text
expected_type =
    codes
      "schema type (string, integer, float, decimal, boolean, instant, date, time, duration, interval, enum, list, map, or schema name)"

-- `list` or `list of TYPE`; `inner` is the recursive call.
abbrev pub list_type : Parse SchemaType → Parse SchemaType
list_type inner = do
  advance
  typed ← gets (sees TokenKind.of)
  if typed
      then (do advance; type ← inner; pure (SchemaType.typed_list type))
      else pure SchemaType.list_type

unfoldable pub schema_type_at : Parse SchemaType → TokenKind → Parse SchemaType
schema_type_at inner TokenKind.type_string = one_type SchemaType.string_type
schema_type_at inner TokenKind.type_integer = one_type SchemaType.integer_type
schema_type_at inner TokenKind.type_float = one_type SchemaType.float_type
schema_type_at inner (TokenKind.identifier name) =
    if text_eq name (codes "decimal")
    then one_type SchemaType.decimal_type
    else if text_eq name (codes "enum")
    then parse_enum_schema_type
    else if text_eq name (codes "list")
    then list_type inner
    else if text_eq name (codes "map")
    then one_type SchemaType.map_type
    else reference_type
schema_type_at inner TokenKind.type_boolean = one_type SchemaType.boolean_type
schema_type_at inner TokenKind.type_instant = one_type SchemaType.instant_type
schema_type_at inner TokenKind.type_date = one_type SchemaType.date_type
schema_type_at inner TokenKind.time = one_type SchemaType.time_type
schema_type_at inner TokenKind.type_duration = one_type SchemaType.duration_type
schema_type_at inner TokenKind.type_interval = one_type SchemaType.interval_type
schema_type_at inner TokenKind.map = one_type SchemaType.map_type
schema_type_at inner _ = unexpected (words expected_type)

-- The second part of the pair that the source returns is always false, and is never used.
unfoldable pub schema_type_on : ℕ → Parse SchemaType
schema_type_on zero s = timeout
schema_type_on (suc fuel) s = (gets current_kind >>= schema_type_at (schema_type_on fuel)) s

-- The fuel is one for each token that is left, and one more.
unfoldable pub parse_schema_type : Parse SchemaType
parse_schema_type s = schema_type_on (suc (length s.rest)) s

-- `trim_end_matches('?')`
unfoldable pub trim_marks : Text → Text
trim_marks [] = []
trim_marks (c ∷ cs) =
    let rest = trim_marks cs in if c == b'?' && is_empty rest then [] else c ∷ rest

abbrev pub ends_with_mark : Text → Bool
ends_with_mark [] = false
ends_with_mark (c ∷ []) = c == b'?'
ends_with_mark (_ ∷ c ∷ cs) = ends_with_mark (c ∷ cs)

unfoldable pub schema_field : Text → SchemaType → SchemaField
schema_field raw_name type = record {
  name = if ends_with_mark raw_name then trim_marks raw_name else raw_name;
  field_type = type;
  optional = ends_with_mark raw_name;
}

-- The local variables `db_table` and `fields`.
abbrev pub SchemaParts : Type 0
SchemaParts = Option Text × List SchemaField

unfoldable pub schema_item : SchemaParts → Parse SchemaParts
schema_item (db_table, fields) = do
  directive ← gets (λ s. sees TokenKind.db s && peeks TokenKind.colon s)
  if directive
      then (do
        advance
        expect TokenKind.colon
        table_name ← expect_name
        skip_newlines
        pure (some table_name, fields))
      else (do
        raw_name ← expect_name
        expect TokenKind.colon
        type ← parse_schema_type
        skip_newlines
        pure (db_table, fields ++ schema_field raw_name type ∷ []))

unfoldable pub parse_schema : Parse Statement
parse_schema = at_current λ t. do
  advance
  name ← expect_identifier
  expect TokenKind.newline
  expect TokenKind.indent
  skip_newlines
  (db_table, fields) ← while_loop (λ _. before TokenKind.dedent) schema_item (none, [])
  expect TokenKind.dedent
  pure (Statement.schema name db_table fields t.line t.column)

unfoldable pub auth_provider_of : Text → Text → AuthProviderFields → Token → Parse Statement
auth_provider_of kind name fields at =
    if text_eq kind (codes "jwt")
    then pure (Statement.auth_provider (AuthProvider.jwt name fields) at.line at.column)
    else if text_eq kind (codes "api_key")
    then pure (Statement.auth_provider (AuthProvider.api_key name fields) at.line at.column)
    else throw (unexpected_token (words (codes "jwt or api_key")) (lexeme kind) at.line at.column)

module _ (calls : Calls) where
  unfoldable pub provider_field : Parse AuthProviderField
  provider_field = at_current λ t. do
    name ← expect_name
    expect TokenKind.colon
    value ← calls.expression prec_none
    skip_one TokenKind.comma
    skip_newlines
    pure (AuthProviderField.auth_provider_field name value t.line t.column)

  unfoldable pub parse_auth_provider : Parse Statement
  parse_auth_provider = at_current λ t. do
    advance
    kind ← expect_identifier
    name ← expect_identifier
    expect TokenKind.left_brace
    skip_newlines
    fields ← collect (before TokenKind.right_brace) provider_field
    expect TokenKind.right_brace
    auth_provider_of kind name (auth_provider_fields fields) t
