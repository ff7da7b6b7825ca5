-- ===== src/Syntax/Types.antt =====
-- src/ast.rs: the parts of the syntax tree that hold no expression.
use marreta_lang.Base.{ℕ, Bool, true, false, Option, none, some, List, [], ◌∷◌, ◌++◌, if◌then◌else◌}
use marreta_lang.Text.{Text, codes}

pub data HttpVerb : Type 0 where
  get post put patch delete : HttpVerb

-- `impl Display for HttpVerb`
unfoldable pub http_verb_text : HttpVerb → Text
http_verb_text HttpVerb.get = codes "GET"
http_verb_text HttpVerb.post = codes "POST"
http_verb_text HttpVerb.put = codes "PUT"
http_verb_text HttpVerb.patch = codes "PATCH"
http_verb_text HttpVerb.delete = codes "DELETE"

pub record RouteAuth : Type 0 where
  pub provider : Text
  pub line : ℕ
  pub column : ℕ

pub data ReplyContentType : Type 0 where
  json html text : ReplyContentType

pub data TakeKind : Type 0 where
  payload query headers form raw : TakeKind

unfoldable pub take_kind_eq : TakeKind → TakeKind → Bool
take_kind_eq TakeKind.payload TakeKind.payload = true
take_kind_eq TakeKind.query TakeKind.query = true
take_kind_eq TakeKind.headers TakeKind.headers = true
take_kind_eq TakeKind.form TakeKind.form = true
take_kind_eq TakeKind.raw TakeKind.raw = true
take_kind_eq _ _ = false

pub record TakeBinding : Type 0 where
  pub kind : TakeKind
  pub name : Text
  pub schema : Option Text

unfoldable pub binding_for : List TakeBinding → TakeKind → Option TakeBinding
unfolding take_kind_eq
binding_for [] kind = none
binding_for (b ∷ bs) kind = if take_kind_eq b.kind kind then some b else binding_for bs kind

abbrev schema_of : Option TakeBinding → Option Text
schema_of none = none
schema_of (some b) = b.schema

-- Its `find` is that of `binding_for`.
unfoldable pub payload_schema : List TakeBinding → Option Text
unfolding binding_for
payload_schema bindings = schema_of (binding_for bindings TakeKind.payload)

pub record ParamDef : Type 0 where
  pub name : Text
  pub schema : Option Text

pub data SchemaType : Type 0 where
  string_type integer_type float_type decimal_type boolean_type instant_type : SchemaType
  date_type time_type duration_type interval_type list_type map_type : SchemaType
  enum_type : List Text → SchemaType
  reference : Text → SchemaType
  typed_list : SchemaType → SchemaType

pub record SchemaField : Type 0 where
  pub name : Text
  pub field_type : SchemaType
  pub optional : Bool

-- `values.map(|value| format!("\"{}\"", value)).join(", ")`
unfoldable pub quoted_values : List Text → Text
quoted_values [] = []
quoted_values (v ∷ []) = codes "\"" ++ v ++ codes "\""
quoted_values (v ∷ w ∷ vs) = codes "\"" ++ v ++ codes "\", " ++ quoted_values (w ∷ vs)

-- `impl Display for SchemaType`
unfoldable pub schema_type_text : SchemaType → Text
unfolding quoted_values
schema_type_text SchemaType.string_type = codes "string"
schema_type_text SchemaType.integer_type = codes "integer"
schema_type_text SchemaType.float_type = codes "float"
schema_type_text SchemaType.decimal_type = codes "decimal"
schema_type_text SchemaType.boolean_type = codes "boolean"
schema_type_text SchemaType.instant_type = codes "instant"
schema_type_text SchemaType.date_type = codes "date"
schema_type_text SchemaType.time_type = codes "time"
schema_type_text SchemaType.duration_type = codes "duration"
schema_type_text SchemaType.interval_type = codes "interval"
schema_type_text SchemaType.list_type = codes "list"
schema_type_text SchemaType.map_type = codes "map"
schema_type_text (SchemaType.enum_type values) = codes "enum [" ++ quoted_values values ++ codes "]"
schema_type_text (SchemaType.reference name) = name
schema_type_text (SchemaType.typed_list inner) = codes "list of " ++ schema_type_text inner

pub data BinaryOperator : Type 0 where
  add subtract multiply divide modulo equal not_equal greater less : BinaryOperator
  greater_equal less_equal contained_in and or : BinaryOperator

pub data UnaryOperator : Type 0 where
  negate not : UnaryOperator
