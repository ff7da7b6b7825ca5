-- ===== src/Parser/Lawful/Types.antt =====
-- src/parser.rs: the types of schema fields that the parser accepts.
use marreta_lang.Base.{
  ℕ, zero, suc, ◌≡◌, refl, Bool, true, false, ◌&&◌, ◌||◌, none, List, [], ◌∷◌, ◌++◌, all, arith,
  and_true, and-eq_true, length,
}
use marreta_lang.Text.{Text, codes, text_eq, text_eq_iff}
use marreta_lang.Token.Kind.{TokenKind, Token}
use marreta_lang.Syntax.Types.{SchemaType, SchemaField}
use marreta_lang.Parser.Action.{Parse}
use marreta_lang.Parser.Schema.{
  seen, is_empty, enum_value, parse_enum_schema_type, schema_type_at, schema_type_on,
  parse_schema_type, schema_field, SchemaParts, schema_item, parse_schema,
}
use marreta_lang.Parser.Lawful.{
  distinct_values, nonempty_values, lawful_type, lawful, exportable, Gives, Gives-pure, Gives-throw,
  Gives-if, Gives-then, Gives-bind, Gives-while_loop, Gives-loop,
}

seen-snoc : (v w : Text) (vs : List Text) → seen v (vs ++ w ∷ []) ≡ (seen v vs || text_eq v w)
seen-snoc v w [] = ground arith
seen-snoc v w (u ∷ vs) = rw (seen-snoc v w vs) (ground arith)

text_eq_comm : (v w : Text) → text_eq v w ≡ text_eq w v
text_eq_comm v w = ground (arith, text_eq_iff v w, text_eq_iff w v)

distinct_values-snoc :
    (vs : List Text) (w : Text)
    → distinct_values vs ≡ true
    → is_empty w ≡ false
    → seen w vs ≡ false
    → distinct_values (vs ++ w ∷ []) ≡ true
distinct_values-snoc [] w h full fresh = rw full refl
distinct_values-snoc (v ∷ vs) w h full fresh =
    ground (arith, seen-snoc v w vs, text_eq_comm v w, distinct_values-snoc vs w)

nonempty_values-snoc : (vs : List Text) (w : Text) → nonempty_values (vs ++ w ∷ []) ≡ true
nonempty_values-snoc [] w = refl
nonempty_values-snoc (v ∷ vs) w = refl

Distinct : List Text → Type 0
Distinct values = distinct_values values ≡ true

enum_value-Gives :
    (at : Token) (values : List Text) (value : Text)
    → distinct_values values ≡ true
    → Gives
        (λ r. (distinct_values r.0 ≡ true) × (lawful_type (SchemaType.enum_type r.0) ≡ true))
        (enum_value at values value)
unfolding enum_value
enum_value-Gives at values value h =
    Gives-if (is_empty value) (λ e. Gives-throw _)
      λ full.
        Gives-if (seen value values) (λ e. Gives-throw _)
          λ fresh.
            let grown = distinct_values-snoc values value h full fresh in
            let whole = and_true (nonempty_values-snoc values value) grown in
            Gives-then _ λ closing.
              Gives-if closing (λ e. Gives-pure _ (grown, whole))
                λ e. Gives-then _ λ u. Gives-pure _ (grown, whole)

Gives-parse_enum : Gives (λ t. lawful_type t ≡ true) parse_enum_schema_type
unfolding parse_enum_schema_type
Gives-parse_enum = Gives-then _ λ t. Gives-then _ λ u. Gives-then _ λ v. Gives-then _ λ empty.
    Gives-if empty (λ e. Gives-throw _)
      λ e.
        Gives-bind
          (Gives-loop (λ vs. distinct_values vs ≡ true)
            (λ values h. Gives-then _ λ value. enum_value-Gives t values value h) [] refl)
          λ values h. Gives-then _ λ w. Gives-pure _ h

schema_type_at-Gives :
    (inner : Parse SchemaType)
    → Gives (λ t. lawful_type t ≡ true) inner
    → (kind : TokenKind) → Gives (λ t. lawful_type t ≡ true) (schema_type_at inner kind)
unfolding schema_type_at
schema_type_at-Gives inner gives TokenKind.type_string = Gives-then _ λ u. Gives-pure _ refl
schema_type_at-Gives inner gives TokenKind.type_integer = Gives-then _ λ u. Gives-pure _ refl
schema_type_at-Gives inner gives TokenKind.type_float = Gives-then _ λ u. Gives-pure _ refl
schema_type_at-Gives inner gives TokenKind.type_boolean = Gives-then _ λ u. Gives-pure _ refl
schema_type_at-Gives inner gives TokenKind.type_instant = Gives-then _ λ u. Gives-pure _ refl
schema_type_at-Gives inner gives TokenKind.type_date = Gives-then _ λ u. Gives-pure _ refl
schema_type_at-Gives inner gives TokenKind.time = Gives-then _ λ u. Gives-pure _ refl
schema_type_at-Gives inner gives TokenKind.type_duration = Gives-then _ λ u. Gives-pure _ refl
schema_type_at-Gives inner gives TokenKind.type_interval = Gives-then _ λ u. Gives-pure _ refl
schema_type_at-Gives inner gives TokenKind.map = Gives-then _ λ u. Gives-pure _ refl
schema_type_at-Gives inner gives (TokenKind.identifier name) =
    Gives-if (text_eq name (codes "decimal")) (λ e. Gives-then _ λ u. Gives-pure _ refl)
      λ e.
        Gives-if (text_eq name (codes "enum")) (λ f. Gives-parse_enum)
          λ f.
            Gives-if (text_eq name (codes "list"))
              (λ g. Gives-then _ λ u. Gives-then _ λ typed.
                Gives-if typed (λ h. Gives-then _ λ v. Gives-bind gives λ t k. Gives-pure _ k)
                  λ h. Gives-pure _ refl)
              λ g.
                Gives-if (text_eq name (codes "map")) (λ h. Gives-then _ λ u. Gives-pure _ refl)
                  λ h. Gives-then _ λ schema_name. Gives-pure _ refl
schema_type_at-Gives inner gives _ = Gives-then _ λ t. Gives-throw _

schema_type_on-Gives : (fuel : ℕ) → Gives (λ t. lawful_type t ≡ true) (schema_type_on fuel)
unfolding schema_type_on
schema_type_on-Gives zero = record { run = λ s. tt }
schema_type_on-Gives (suc fuel) = record {
  run = (Gives-then _ (schema_type_at-Gives (schema_type_on fuel) (schema_type_on-Gives fuel))).run;
}

Gives-schema_type : Gives (λ t. lawful_type t ≡ true) parse_schema_type
unfolding parse_schema_type
Gives-schema_type = record { run = λ s. (schema_type_on-Gives (suc (length s.rest))).run s }

abbrev lawful_fields : List SchemaField → Bool
lawful_fields = all (λ f. lawful_type f.field_type)

lawful_fields-snoc :
    (fs : List SchemaField) (f : SchemaField)
    → lawful_fields fs ≡ true
    → lawful_type f.field_type ≡ true
    → lawful_fields (fs ++ f ∷ []) ≡ true
lawful_fields-snoc [] f h k = rw k refl
lawful_fields-snoc (g ∷ fs) f h k =
    let (one, rest) = and-eq_true (lawful_type g.field_type) (lawful_fields fs) h in
    and_true one (lawful_fields-snoc fs f rest k)

schema_item-Gives :
    (parts : SchemaParts)
    → lawful_fields parts.1 ≡ true
    → Gives (λ r. lawful_fields r.1 ≡ true) (schema_item parts)
unfolding schema_item schema_field
schema_item-Gives (db_table, fields) h = Gives-then _ λ directive.
    Gives-if directive
      (λ e.
        Gives-then _ λ u. Gives-then _ λ v. Gives-then _ λ table. Gives-then _ λ w. Gives-pure _ h)
      λ e. Gives-then _ λ raw. Gives-then _ λ u.
        Gives-bind Gives-schema_type
          λ type k. Gives-then _ λ v. Gives-pure _ (lawful_fields-snoc fields _ h k)

pub Gives-parse_schema : Gives (λ s. (exportable s && lawful s) ≡ true) parse_schema
unfolding parse_schema lawful
Gives-parse_schema = Gives-then _ λ t. Gives-then _ λ u. Gives-then _ λ name. Gives-then _ λ v.
    Gives-then _ λ w. Gives-then _ λ x.
      Gives-bind (Gives-while_loop _ schema_item-Gives (none, []) refl)
        λ parts h. Gives-then _ λ y. Gives-pure _ h
