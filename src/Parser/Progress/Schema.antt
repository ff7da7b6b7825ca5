-- ===== src/Parser/Progress/Schema.antt =====
-- src/parser.rs: schemas and authentication providers take a token.
use marreta_lang.Base.{ℕ, zero, suc, ◌≡◌, refl, true, none, List, [], arith, length}
use marreta_lang.Text.{Text, codes, text_eq}
use marreta_lang.Token.Kind.{TokenKind, Token}
use marreta_lang.Syntax.{AuthProviderFields}
use marreta_lang.Syntax.Types.{SchemaType}
use marreta_lang.Parser.Action.{Parse, loop, while_loop}
use marreta_lang.Parser.Calls.{Calls}
use marreta_lang.Parser.Blocks.{before}
use marreta_lang.Parser.Schema.{
  enum_value, enum_round, parse_enum_schema_type, schema_type_at, schema_type_on, parse_schema_type,
  SchemaParts, schema_item, parse_schema, auth_provider_of, provider_field, parse_auth_provider,
}
use marreta_lang.Parser.Progress.{
  Keeps, Eats, EatsOn, Eats-bind, Eats-if, Eats→EatsOn, EatsOn-gets, EatsOn-if, Keeps-pure,
}
use marreta_lang.Parser.Progress.Actions.{
  At, EatsOn-first_suc, EatsOn-unexpected, Eats-kind, Eats-gets,
}
use marreta_lang.Parser.Progress.Loops.{Eats-loop, Keeps-while_loop}
use marreta_lang.Parser.Progress.Expects.{keeps_rules, eats_rules, Eats-expect_identifier}
use marreta_lang.Parser.Progress.Blocks.{Good}

Keeps-enum_value :
    {n : ℕ} (at : Token) (values : List Text) (value : Text) → Keeps n (enum_value at values value)
unfolding enum_value
Keeps-enum_value at values value = search keeps_rules depth 12

enum_loop : {n : ℕ} (at : Token) → Eats n (loop (enum_round at) [])
enum_loop at = Eats-loop (λ values. search (eats_rules, Keeps-enum_value)) []

EatsOn-parse_enum :
    {n : ℕ} (name : Text) → EatsOn (At (TokenKind.identifier name)) (suc n) parse_enum_schema_type
unfolding parse_enum_schema_type
EatsOn-parse_enum name =
    EatsOn-gets _ λ t. EatsOn-first_suc refl λ u. search (keeps_rules, enum_loop) depth 12

-- `inner` is called behind a token.
schema_type_at-EatsOn :
    {n : ℕ} (inner : Parse SchemaType)
    → Eats n inner
    → (kind : TokenKind) → EatsOn (At kind) (suc n) (schema_type_at inner kind)
unfolding schema_type_at
schema_type_at-EatsOn inner eats TokenKind.type_string = EatsOn-first_suc refl λ u. Keeps-pure _
schema_type_at-EatsOn inner eats TokenKind.type_integer = EatsOn-first_suc refl λ u. Keeps-pure _
schema_type_at-EatsOn inner eats TokenKind.type_float = EatsOn-first_suc refl λ u. Keeps-pure _
schema_type_at-EatsOn inner eats TokenKind.type_boolean = EatsOn-first_suc refl λ u. Keeps-pure _
schema_type_at-EatsOn inner eats TokenKind.type_instant = EatsOn-first_suc refl λ u. Keeps-pure _
schema_type_at-EatsOn inner eats TokenKind.type_date = EatsOn-first_suc refl λ u. Keeps-pure _
schema_type_at-EatsOn inner eats TokenKind.time = EatsOn-first_suc refl λ u. Keeps-pure _
schema_type_at-EatsOn inner eats TokenKind.type_duration = EatsOn-first_suc refl λ u. Keeps-pure _
schema_type_at-EatsOn inner eats TokenKind.type_interval = EatsOn-first_suc refl λ u. Keeps-pure _
schema_type_at-EatsOn inner eats TokenKind.map = EatsOn-first_suc refl λ u. Keeps-pure _
schema_type_at-EatsOn inner eats (TokenKind.identifier name) =
    EatsOn-if (text_eq name (codes "decimal")) (EatsOn-first_suc refl λ u. Keeps-pure _) (
      EatsOn-if (text_eq name (codes "enum")) (EatsOn-parse_enum name) (
        EatsOn-if (text_eq name (codes "list"))
          (EatsOn-first_suc refl λ u. search (keeps_rules, eats) depth 8)
          (EatsOn-if (text_eq name (codes "map")) (EatsOn-first_suc refl λ u. Keeps-pure _)
            (Eats→EatsOn (Eats-bind Eats-expect_identifier λ schema_name. Keeps-pure _)))))
schema_type_at-EatsOn inner eats _ = EatsOn-unexpected _

schema_type_on-Eats : (fuel : ℕ) → Eats fuel (schema_type_on fuel)
unfolding schema_type_on
schema_type_on-Eats zero = record { run = λ s ready h. absurd (omega arith) }
schema_type_on-Eats (suc fuel) = record {
  run = λ s ready h.
      (Eats-kind (schema_type_at-EatsOn (schema_type_on fuel) (schema_type_on-Eats fuel))).run s
        ready h;
}

Eats-parse_schema_type : {n : ℕ} → Eats n parse_schema_type
unfolding parse_schema_type
Eats-parse_schema_type = record {
  run = λ s ready h. (schema_type_on-Eats (suc (length s.rest))).run s ready (omega arith);
}

schema_item-EatsOn :
    {n : ℕ} (parts : SchemaParts)
    → EatsOn (λ s. before TokenKind.dedent s ≡ true) n (schema_item parts)
unfolding schema_item
schema_item-EatsOn (db_table, fields) = Eats→EatsOn (
    Eats-gets _ λ directive.
      Eats-if directive (search eats_rules depth 10)
        (search (eats_rules, Eats-parse_schema_type) depth 10))

schema_loop : {n : ℕ} → Keeps n (while_loop (λ _. before TokenKind.dedent) schema_item (none, []))
schema_loop = Keeps-while_loop schema_item-EatsOn (none, [])

pub EatsOn-parse_schema : {n : ℕ} → EatsOn (At TokenKind.schema) (suc n) parse_schema
unfolding parse_schema
EatsOn-parse_schema =
    EatsOn-gets _ λ t. EatsOn-first_suc refl λ u. search (keeps_rules, schema_loop) depth 20

Keeps-auth_provider_of :
    {n : ℕ} (kind name : Text) (config : AuthProviderFields) (at : Token)
    → Keeps n (auth_provider_of kind name config at)
unfolding auth_provider_of
Keeps-auth_provider_of kind name config at = search keeps_rules

module _ {n : ℕ} {c : Calls} (good : Good n c) where
  Eats-provider_field : Eats n (provider_field c)
  unfolding provider_field
  Eats-provider_field = Eats-gets _ λ t. search (eats_rules, good.expression) depth 12

  pub EatsOn-parse_auth_provider :
      (name : Text) → EatsOn (At (TokenKind.identifier name)) (suc n) (parse_auth_provider c)
  unfolding parse_auth_provider
  EatsOn-parse_auth_provider name = EatsOn-gets _ λ t.
      EatsOn-first_suc refl
        λ u. search (keeps_rules, Eats-provider_field, Keeps-auth_provider_of) depth 20
