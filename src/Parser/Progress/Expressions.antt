-- ===== src/Parser/Progress/Expressions.antt =====
-- src/parser.rs: an expression takes a token.
use marreta_lang.Base.{
  ℕ, suc, ◌<◌, ◌≡◌, refl, Bool, true, false, not, Option, none, some, List, and-eq_true, arith,
  Bool-cases, inl, inr,
}
use marreta_lang.Text.{Text}
use marreta_lang.Token.Kind.{TokenKind, Token}
use marreta_lang.Syntax.{Expression}
use marreta_lang.Syntax.Types.{BinaryOperator}
use marreta_lang.Parser.State.{is_at_end, is_eof, is_some, current_kind}
use marreta_lang.Parser.Action.{◌>>=◌, gets, pure}
use marreta_lang.Parser.Calls.{Calls}
use marreta_lang.Parser.Expressions.{
  keyword_identifier, keyword_or_error, parse_task_call, arguments_in_parens, parse_identifier,
  parse_fail_expression, prefix_at, parse_prefix, operation, parse_subscript, parse_member,
  operation_or_left, infix_at, parse_infix, infix_round, binds, parse_response_schema,
  parse_rescue_modifier, parse_expression, continued_from, maybe_parse_pipeline,
  current_infix_precedence, precedence_of, token_to_binop,
}
use marreta_lang.Parser.Progress.{
  Keeps, Eats, EatsOn, Keeps-bind, Eats-bind_suc, EatsOn-gets, EatsOn-if, Keeps-gets, Keeps-pure,
}
use marreta_lang.Parser.Progress.Actions.{
  At, When, EatsOn-first, EatsOn-first_suc, EatsOn-unexpected, Eats-kind, Keeps-advance,
  Keeps-skip_newlines,
}
use marreta_lang.Parser.Progress.Loops.{Keeps-while_loop}
use marreta_lang.Parser.Progress.Expects.{keeps_rules}
use marreta_lang.Parser.Progress.Rewinds.{
  Rewinds, Rewinds-Keeps, Rewinds-if, Rewinds-rewind, Rewinds-bind, Keeps-saved,
}
use marreta_lang.Parser.Progress.Blocks.{
  Good, Keeps-parse_argument_list, Keeps-schema_constructor, EatsOn-parse_list_literal,
  EatsOn-parse_map_literal, EatsOn-parse_if_expression, EatsOn-parse_match_expression,
}
use marreta_lang.Parser.Progress.Stages.{
  EatsOn-parse_pipeline_stages, Keeps-parse_pipeline_stages, EatsOn-parse_broadcast,
  Keeps-parse_broadcast,
}
use marreta_lang.Parser.Progress.Queues.{EatsOn-parse_queue, EatsOn-parse_topic}

-- A keyword that is read as an identifier is not Eof.
keyword-EatsOn :
    {n : ℕ} (kind : TokenKind)
    → (is_eof kind ≡ true → keyword_identifier kind ≡ none)
    → (word : Option Text) → keyword_identifier kind ≡ word
    → EatsOn (At kind) (suc n) (keyword_or_error word)
keyword-EatsOn kind eof (some name) e =
    EatsOn-first_suc
      (elim (Bool-cases (is_eof kind)) [ inl f ↦ absurd (let g = eof f in cc) | inr f ↦ f ])
      λ u. Keeps-pure _
keyword-EatsOn kind eof none e = EatsOn-unexpected _

abbrev is_operator : TokenKind → Bool
is_operator TokenKind.left_bracket = false
is_operator TokenKind.dot = false
is_operator TokenKind.pipeline = false
is_operator TokenKind.broadcast = false
is_operator _ = true

-- A token that binds has an operator, or is one of the four others.
binds_operator :
    (kind : TokenKind)
    → 0 < precedence_of kind
    → is_operator kind ≡ true
    → (is_some (token_to_binop kind) ≡ true) × (is_eof kind ≡ false)
unfolding token_to_binop
binds_operator TokenKind.eof h four = absurd (omega arith)
binds_operator _ h four = ground arith

module _ {n : ℕ} {c : Calls} (good : Good n c) where
  EatsOn-parse_task_call : EatsOn (At TokenKind.task) (suc n) (parse_task_call c)
  unfolding parse_task_call
  EatsOn-parse_task_call = EatsOn-gets _ λ called.
      EatsOn-if called (EatsOn-first_suc refl λ u. search keeps_rules depth 12)
        (EatsOn-unexpected _)

  Keeps-arguments : Keeps n (arguments_in_parens c)
  Keeps-arguments = search (keeps_rules, Keeps-parse_argument_list) depth 10

  EatsOn-parse_identifier :
      (name : Text) → EatsOn (At (TokenKind.identifier name)) (suc n) (parse_identifier c name)
  unfolding parse_identifier
  EatsOn-parse_identifier name =
      EatsOn-first_suc refl
        λ u. search (keeps_rules, Keeps-schema_constructor, Keeps-arguments) depth 12

  EatsOn-fail_expression : EatsOn (At TokenKind.fail) (suc n) (parse_fail_expression c)
  unfolding parse_fail_expression
  EatsOn-fail_expression = EatsOn-first_suc refl λ u. search (keeps_rules, good.expression) depth 10

  unary-rest : (e : Expression → Expression) → Keeps n (c.expression 8 >>= λ x. pure (e x))
  unary-rest e = search (keeps_rules, good.expression)

  prefix_at-EatsOn : (kind : TokenKind) → EatsOn (At kind) (suc n) (prefix_at c kind)
  unfolding prefix_at keyword_identifier
  prefix_at-EatsOn (TokenKind.integer k) = EatsOn-first_suc refl λ u. Keeps-pure _
  prefix_at-EatsOn (TokenKind.float x) = EatsOn-first_suc refl λ u. Keeps-pure _
  prefix_at-EatsOn (TokenKind.string_literal s) = EatsOn-first_suc refl λ u. Keeps-pure _
  prefix_at-EatsOn TokenKind.true = EatsOn-first_suc refl λ u. Keeps-pure _
  prefix_at-EatsOn TokenKind.false = EatsOn-first_suc refl λ u. Keeps-pure _
  prefix_at-EatsOn TokenKind.null = EatsOn-first_suc refl λ u. Keeps-pure _
  prefix_at-EatsOn TokenKind.not = EatsOn-first_suc refl λ u. search (keeps_rules, good.expression)
  prefix_at-EatsOn TokenKind.minus =
      EatsOn-first_suc refl λ u. search (keeps_rules, good.expression)
  prefix_at-EatsOn TokenKind.left_paren =
      EatsOn-first_suc refl λ u. search (keeps_rules, good.expression)
  prefix_at-EatsOn TokenKind.left_bracket = EatsOn-parse_list_literal good
  prefix_at-EatsOn TokenKind.left_brace = EatsOn-parse_map_literal good
  prefix_at-EatsOn TokenKind.task = EatsOn-parse_task_call
  prefix_at-EatsOn (TokenKind.identifier name) = EatsOn-parse_identifier name
  prefix_at-EatsOn TokenKind.match = EatsOn-parse_match_expression good
  prefix_at-EatsOn TokenKind.if_kw = EatsOn-parse_if_expression good
  prefix_at-EatsOn TokenKind.queue = EatsOn-parse_queue good
  prefix_at-EatsOn TokenKind.topic = EatsOn-parse_topic good
  prefix_at-EatsOn TokenKind.fail = EatsOn-fail_expression
  prefix_at-EatsOn kind = keyword-EatsOn _ (λ e. cc) _ refl

  Eats-parse_prefix : Eats (suc n) (parse_prefix c)
  unfolding parse_prefix
  Eats-parse_prefix = Eats-kind prefix_at-EatsOn

  operation-EatsOn :
      (kind : TokenKind) (prec : ℕ) (left : Expression) (operator : BinaryOperator)
      → is_eof kind ≡ false
      → EatsOn (At kind) n (operation c prec left operator)
  operation-EatsOn kind prec left operator h =
      EatsOn-first h λ u. search (keeps_rules, good.expression)

  EatsOn-parse_subscript :
      (left : Expression) → EatsOn (At TokenKind.left_bracket) n (parse_subscript c left)
  unfolding parse_subscript
  EatsOn-parse_subscript left = EatsOn-first refl λ u. search (keeps_rules, good.expression)

  EatsOn-parse_member : (left : Expression) → EatsOn (At TokenKind.dot) n (parse_member c left)
  unfolding parse_member
  EatsOn-parse_member left = EatsOn-first refl λ u. search (keeps_rules, Keeps-arguments) depth 12

  Keeps-operation_or_left :
      (prec : ℕ) (left : Expression) (o : Option BinaryOperator)
      → Keeps n (operation_or_left c prec left o)
  Keeps-operation_or_left prec left none = search keeps_rules
  Keeps-operation_or_left prec left (some operator) = search (keeps_rules, good.expression)

  Keeps-parse_member : (left : Expression) → Keeps n (parse_member c left)
  unfolding parse_member
  Keeps-parse_member left = search (keeps_rules, Keeps-arguments) depth 12

  Keeps-parse_subscript : (left : Expression) → Keeps n (parse_subscript c left)
  unfolding parse_subscript
  Keeps-parse_subscript left = search (keeps_rules, good.expression)

  Keeps-infix_at :
      (prec : ℕ) (left : Expression) (kind : TokenKind) → Keeps n (infix_at c prec left kind)
  unfolding infix_at
  Keeps-infix_at prec left TokenKind.left_bracket = Keeps-parse_subscript left
  Keeps-infix_at prec left TokenKind.dot = Keeps-parse_member left
  Keeps-infix_at prec left TokenKind.pipeline = Keeps-parse_pipeline_stages good left
  Keeps-infix_at prec left TokenKind.broadcast = Keeps-parse_broadcast good left
  Keeps-infix_at prec left kind = Keeps-operation_or_left prec left (token_to_binop _)

  Keeps-parse_infix : (prec : ℕ) (left : Expression) → Keeps n (parse_infix c prec left)
  unfolding parse_infix
  Keeps-parse_infix prec left = search (keeps_rules, Keeps-infix_at)

  operation_or_left-EatsOn :
      (kind : TokenKind) (prec : ℕ) (left : Expression) (o : Option BinaryOperator)
      → is_eof kind ≡ false
      → is_some o ≡ true
      → EatsOn (At kind) n (operation_or_left c prec left o)
  operation_or_left-EatsOn kind prec left none h bound = absurd (cc)
  operation_or_left-EatsOn kind prec left (some operator) h bound =
      operation-EatsOn kind prec left operator h

  infix_at-EatsOn :
      (prec : ℕ) (left : Expression) (kind : TokenKind)
      → 0 < precedence_of kind
      → EatsOn (At kind) n (infix_at c prec left kind)
  unfolding infix_at token_to_binop
  infix_at-EatsOn prec left TokenKind.left_bracket h = EatsOn-parse_subscript left
  infix_at-EatsOn prec left TokenKind.dot h = EatsOn-parse_member left
  infix_at-EatsOn prec left TokenKind.pipeline h = EatsOn-parse_pipeline_stages good left
  infix_at-EatsOn prec left TokenKind.broadcast h = EatsOn-parse_broadcast good left
  infix_at-EatsOn prec left kind h =
      let (bound, inside) = binds_operator kind h refl in
      operation_or_left-EatsOn kind prec left (token_to_binop kind) inside bound

  infix_round-EatsOn :
      (min : ℕ) (left : Expression) → EatsOn (When (binds min left)) n (infix_round c left)
  unfolding parse_infix ◌>>=◌ gets current_infix_precedence
  infix_round-EatsOn min left = record {
    run = λ s on ready h.
        let (inside, above) = and-eq_true (not (is_at_end s)) _ on in
        let positive : 0 < precedence_of (current_kind s) = ground arith in
        (infix_at-EatsOn _ left (current_kind s) positive).run s refl ready h;
  }

  Keeps-response_schema : (min : ℕ) (left : Expression) → Keeps n (parse_response_schema min left)
  unfolding parse_response_schema
  Keeps-response_schema min left = search keeps_rules depth 10

  Keeps-rescue_modifier : (min : ℕ) (left : Expression) → Keeps n (parse_rescue_modifier c min left)
  unfolding parse_rescue_modifier
  Keeps-rescue_modifier min left = search (keeps_rules, good.expression) depth 10

  pub Eats-parse_expression : (min : ℕ) → Eats (suc n) (parse_expression c min)
  unfolding parse_expression
  Eats-parse_expression min = Eats-bind_suc Eats-parse_prefix λ first.
      Keeps-bind (Keeps-while_loop (infix_round-EatsOn min) first)
        λ left. search (keeps_rules, Keeps-response_schema, Keeps-rescue_modifier)

  Rewinds-continued :
      (saved : List Token) (e : Expression) → Rewinds saved n (continued_from c saved e)
  Rewinds-continued saved e = Rewinds-bind (Keeps-gets _) λ piped.
      Rewinds-bind (Keeps-gets _) λ broadcast.
        Rewinds-if piped (Rewinds-Keeps (Keeps-parse_pipeline_stages good e)) (
          Rewinds-if broadcast (Rewinds-Keeps (Keeps-parse_infix _ e))
            (Rewinds-rewind _ (Keeps-pure e)))

  pub Keeps-maybe_pipeline : (e : Expression) → Keeps n (maybe_parse_pipeline c e)
  unfolding maybe_parse_pipeline
  Keeps-maybe_pipeline e = Keeps-saved λ saved. Rewinds-bind Keeps-skip_newlines λ u.
      Rewinds-bind (Keeps-gets _) λ indented.
        Rewinds-if indented (Rewinds-bind Keeps-advance λ v. Rewinds-continued saved e)
          (Rewinds-continued saved e)
