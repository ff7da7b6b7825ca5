-- ===== src/Parser/Expressions.antt =====
-- src/parser.rs: expressions by precedence.
mod Tables
mod Queues
unfoldable pub use Tables.*
unfoldable pub use Queues.*
use marreta_lang.Base.{
  ℕ, ◌==◌, ltb, Bool, true, false, not, ◌&&◌, Option, none, some, List, [], ◌∷◌, if◌then◌else◌,
}
use marreta_lang.Text.{Text, codes, text_eq}
use marreta_lang.Token.Kind.{TokenKind, Token}
use marreta_lang.Syntax.{
  Expression, Argument, MaybeExpression, some_expression, no_expression, arguments,
}
use marreta_lang.Syntax.Types.{BinaryOperator, UnaryOperator}
use marreta_lang.Parser.State.{Parser, check, sees, peeks, is_at_end, current_kind, words}
use marreta_lang.Parser.Action.{
  Parse, ◌>>=◌, ◌>>◌, pure, gets, advance, unexpected, skip_newlines, rewind, expect, expect_name,
  expect_identifier, expect_integer, while_loop,
}
use marreta_lang.Parser.Calls.{
  Calls, prec_none, prec_or, prec_and, prec_equality, prec_comparison, prec_addition,
  prec_multiplication, prec_unary, prec_call,
}
use marreta_lang.Parser.Blocks.{
  parse_argument_list, parse_list_literal, parse_map_literal, parse_schema_constructor,
  parse_match_expression, parse_if_expression,
}
use marreta_lang.Parser.Stages.{parse_pipeline_stages, parse_broadcast}

abbrev pub one_token : Expression → Parse Expression
one_token e = advance >> pure e

-- The arm `_`, and those of the keywords that are read as identifiers.
abbrev pub keyword_or_error : Option Text → Parse Expression
keyword_or_error (some name) = one_token (Expression.identifier name)
keyword_or_error none = unexpected (words (codes "expression"))

unfoldable pub is_http_client_method_call : Expression → Bool
is_http_client_method_call (Expression.method_call (Expression.identifier name) _ _) =
    text_eq name (codes "http_client")
is_http_client_method_call _ = false

-- `as NAME` behind a call of the HTTP client.
unfoldable pub parse_response_schema : ℕ → Expression → Parse Expression
parse_response_schema min_prec left = do
  found ← gets (sees TokenKind.as_kw)
  if min_prec == prec_none && found && is_http_client_method_call left
      then (do
        advance
        schema_name ← expect_identifier
        pure (Expression.http_client_response_schema left schema_name))
      else pure left

module _ (calls : Calls) where
  abbrev pub unary : UnaryOperator → Parse Expression
  unary operator = do
    advance
    operand ← calls.expression prec_unary
    pure (Expression.unary_op operator operand)

  abbrev pub grouped : Parse Expression
  grouped = do advance; e ← calls.expression prec_none; expect TokenKind.right_paren; pure e

  -- The arm of `task (`, and the arm `_`.
  unfoldable pub parse_task_call : Parse Expression
  parse_task_call = do
    called ← gets (peeks TokenKind.left_paren)
    if called
        then (do
          advance
          advance
          name ← expect_identifier
          expect TokenKind.right_paren
          pure (Expression.task_call name))
        else unexpected (words (codes "expression"))

  abbrev pub arguments_in_parens : Parse (List Argument)
  arguments_in_parens = do
    advance
    args ← parse_argument_list calls
    expect TokenKind.right_paren
    pure args

  -- The arm of an identifier.
  unfoldable pub parse_identifier : Text → Parse Expression
  parse_identifier name = do
    advance
    braced ← gets (check TokenKind.left_brace)
    called ← gets (check TokenKind.left_paren)
    if braced
        then parse_schema_constructor calls name
        else if called
        then (do args ← arguments_in_parens; pure (Expression.function_call name (arguments args)))
        else pure (Expression.identifier name)

  -- The arm of `fail`.
  unfoldable pub parse_fail_expression : Parse Expression
  parse_fail_expression = do
    advance
    code ← expect_integer
    expect TokenKind.comma
    message ← calls.expression prec_none
    pure (
        Expression.function_call (codes "__fail__") (
          arguments
            (Argument.positional (Expression.integer code) ∷ Argument.positional message ∷ [])))

  unfoldable pub prefix_at : TokenKind → Parse Expression
  prefix_at (TokenKind.integer n) = one_token (Expression.integer n)
  prefix_at (TokenKind.float x) = one_token (Expression.float x)
  prefix_at (TokenKind.string_literal s) = one_token (Expression.string_literal s)
  prefix_at TokenKind.true = one_token (Expression.boolean true)
  prefix_at TokenKind.false = one_token (Expression.boolean false)
  prefix_at TokenKind.null = one_token Expression.null
  prefix_at TokenKind.not = unary UnaryOperator.not
  prefix_at TokenKind.minus = unary UnaryOperator.negate
  prefix_at TokenKind.left_paren = grouped
  prefix_at TokenKind.left_bracket = parse_list_literal calls
  prefix_at TokenKind.left_brace = parse_map_literal calls
  prefix_at TokenKind.task = parse_task_call
  prefix_at (TokenKind.identifier name) = parse_identifier name
  prefix_at TokenKind.match = parse_match_expression calls
  prefix_at TokenKind.if_kw = parse_if_expression calls
  prefix_at TokenKind.queue = parse_queue calls
  prefix_at TokenKind.topic = parse_topic calls
  prefix_at TokenKind.fail = parse_fail_expression
  prefix_at kind = keyword_or_error (keyword_identifier kind)

  unfoldable pub parse_prefix : Parse Expression
  parse_prefix = gets current_kind >>= prefix_at

  -- The arms of the binary operators, with `in`.
  abbrev pub operation : ℕ → Expression → BinaryOperator → Parse Expression
  operation prec left operator = do
    advance
    right ← calls.expression prec
    pure (Expression.binary_op left operator right)

  unfoldable pub parse_subscript : Expression → Parse Expression
  parse_subscript left = do
    advance
    key ← calls.expression prec_none
    expect TokenKind.right_bracket
    pure (Expression.subscript left key)

  unfoldable pub parse_member : Expression → Parse Expression
  parse_member left = do
    advance
    name ← expect_name
    called ← gets (check TokenKind.left_paren)
    if called
        then (do
          args ← arguments_in_parens
          pure (Expression.method_call left name (arguments args)))
        else pure (Expression.property_access left name)

  abbrev pub operation_or_left : ℕ → Expression → Option BinaryOperator → Parse Expression
  operation_or_left prec left none = pure left
  operation_or_left prec left (some operator) = operation prec left operator

  unfoldable pub infix_at : ℕ → Expression → TokenKind → Parse Expression
  infix_at prec left TokenKind.left_bracket = parse_subscript left
  infix_at prec left TokenKind.dot = parse_member left
  infix_at prec left TokenKind.pipeline = parse_pipeline_stages calls left
  infix_at prec left TokenKind.broadcast = parse_broadcast calls left
  infix_at prec left kind = operation_or_left prec left (token_to_binop kind)

  unfoldable pub parse_infix : ℕ → Expression → Parse Expression
  parse_infix prec left = gets current_kind >>= infix_at prec left

  -- A round of the loop of `parse_expression`.
  abbrev pub infix_round : Expression → Parse Expression
  infix_round left = do prec ← gets current_infix_precedence; parse_infix prec left

  -- `rescue EXPR`
  unfoldable pub parse_rescue_modifier : ℕ → Expression → Parse Expression
  parse_rescue_modifier min_prec left = do
    found ← gets (sees TokenKind.rescue)
    if min_prec == prec_none && found
        then (do
          advance
          handler ← calls.expression prec_none
          pure (Expression.rescue left handler))
        else pure left

  unfoldable pub parse_expression : ℕ → Parse Expression
  parse_expression min_prec = do
    first ← parse_prefix
    left ← while_loop (binds min_prec) infix_round first
    response ← parse_response_schema min_prec left
    parse_rescue_modifier min_prec response

  abbrev pub continued : List Token → Expression → Bool → Bool → Parse Expression
  continued saved e piped broadcast =
      if piped
      then parse_pipeline_stages calls e
      else if broadcast
      then parse_infix prec_or e
      else (do rewind saved; pure e)

  -- Behind the Indent, if there is one.
  abbrev pub continued_from : List Token → Expression → Parse Expression
  continued_from saved e = do
    piped ← gets (check TokenKind.pipeline)
    broadcast ← gets (check TokenKind.broadcast)
    continued saved e piped broadcast

  unfoldable pub maybe_parse_pipeline : Expression → Parse Expression
  maybe_parse_pipeline e = do
    saved ← gets (λ s. s.rest)
    skip_newlines
    indented ← gets (check TokenKind.indent)
    if indented then (do advance; continued_from saved e) else continued_from saved e
