-- ===== src/Parser/Simple.antt =====
-- src/parser.rs: assignments, guards, loops, transactions, and the statements that end a route.
use marreta_lang.Base.{ℕ, Bool, true, false, ◌||◌, if◌then◌else◌}
use marreta_lang.Text.{Text, codes, text_eq}
use marreta_lang.Token.Kind.{TokenKind, Token}
use marreta_lang.Syntax.{
  Expression, Statement, MaybeExpression, some_expression, no_expression, statements,
}
use marreta_lang.Syntax.Types.{UnaryOperator, ReplyContentType}
use marreta_lang.Parser.State.{check, sees, is_identifier, words, lexeme, unexpected_token}
use marreta_lang.Parser.Action.{
  Parse, ◌>>=◌, ◌>>◌, pure, gets, throw, advance, set_inside, skip_newlines, expect,
  expect_identifier, expect_integer, expect_string, at_current, collect,
}
use marreta_lang.Parser.Calls.{Calls, prec_none}
use marreta_lang.Parser.Blocks.{
  parse_indented, parse_match_expression, parse_if_expression, parse_as, before, block_item,
}
use marreta_lang.Parser.Expressions.{maybe_parse_pipeline}

-- `nack`, its optional `requeue`, and the condition.
unfoldable pub parse_requeue : MaybeExpression → Token → Parse Statement
parse_requeue condition at = do
  advance
  requeue ← gets (check TokenKind.requeue)
  if requeue
      then (do advance; pure (Statement.nack true condition at.line at.column))
      else pure (Statement.nack false condition at.line at.column)

unfoldable pub parse_nack : Parse Statement
parse_nack = at_current λ t. parse_requeue no_expression t

abbrev pub html_or_text : Text → Parse ReplyContentType
html_or_text name =
    if text_eq name (codes "html")
    then advance >> pure ReplyContentType.html
    else if text_eq name (codes "text")
    then advance >> pure ReplyContentType.text
    else pure ReplyContentType.json

-- `[html|text]`
unfoldable pub parse_content_type : Parse ReplyContentType
parse_content_type =
    at_current
      λ t. if is_identifier t.kind then html_or_text t.lexeme else pure ReplyContentType.json

-- `fail CODE, "MSG"`, behind `else`
abbrev pub error_reply : Parse (ℕ × Text)
error_reply = do
  expect TokenKind.fail
  error_code ← expect_integer
  expect TokenKind.comma
  error_message ← expect_string
  pure (error_code, error_message)

module _ (calls : Calls) where
  abbrev pub branching_value : Bool → Parse Expression
  branching_value matched =
      if matched then parse_match_expression calls else parse_if_expression calls

  -- `name = match ...` or `name = if ...`
  abbrev pub branching_assignment : Text → Token → Bool → Parse Statement
  branching_assignment name at matched = do
    e ← branching_value matched
    value ← maybe_parse_pipeline calls e
    pure (Statement.assignment name value at.line at.column)

  abbrev pub plain_assignment : Text → Token → Parse Statement
  plain_assignment name at = do
    e ← calls.expression prec_none
    guarded ← gets (sees TokenKind.if_kw)
    if guarded
        then (do
          advance
          condition ← calls.expression prec_none
          pure (Statement.conditional_assignment name e condition at.line at.column))
        else (do
          value ← maybe_parse_pipeline calls e
          pure (Statement.assignment name value at.line at.column))

  -- What follows the name.
  abbrev pub assignment_rest : Text → Token → Parse Statement
  assignment_rest name at = do
    expect TokenKind.assign
    matched ← gets (sees TokenKind.match)
    branches ← gets (sees TokenKind.if_kw)
    if matched || branches then branching_assignment name at matched else plain_assignment name at

  unfoldable pub parse_assignment : Parse Statement
  parse_assignment = at_current λ t. do name ← expect_identifier; assignment_rest name t

  abbrev negated : Expression → MaybeExpression
  negated condition = some_expression (Expression.unary_op UnaryOperator.not condition)

  abbrev pub else_raise : Expression → Token → Parse Statement
  else_raise condition at = do
    advance
    message ← calls.expression prec_none
    pure (Statement.raise message (negated condition) at.line at.column)

  abbrev pub else_fail : Expression → Token → Parse Statement
  else_fail condition at = do
    (error_code, error_message) ← error_reply
    pure (Statement.require condition error_code error_message at.line at.column)

  unfoldable pub parse_require : Parse Statement
  parse_require = at_current λ t. do
    advance
    condition ← calls.expression prec_none
    expect TokenKind.else_kw
    nacks ← gets (sees TokenKind.nack)
    raises ← gets (sees TokenKind.raise)
    if nacks
        then parse_requeue (negated condition) t
        else if raises
        then else_raise condition t
        else else_fail condition t

  unfoldable pub parse_reject : Parse Statement
  parse_reject = at_current λ t. do
    advance
    condition ← calls.expression prec_none
    expect TokenKind.else_kw
    (error_code, error_message) ← error_reply
    pure (Statement.reject condition error_code error_message t.line t.column)

  unfoldable pub parse_while : Parse Statement
  parse_while = at_current λ t. do
    advance
    condition ← calls.expression prec_none
    body ← parse_indented calls
    pure (Statement.while condition (statements body) t.line t.column)

  unfoldable pub parse_transaction : Parse Statement
  parse_transaction = at_current λ t. do
    nested ← gets (λ s. s.inside_transaction)
    if nested
        then throw (
            unexpected_token
              (words (codes "statement (not transaction — nested transactions are not allowed)"))
              (lexeme (codes "transaction")) t.line t.column)
        else (do
          advance
          expect TokenKind.newline
          expect TokenKind.indent
          set_inside true
          skip_newlines
          body ← collect (before TokenKind.dedent) (block_item calls)
          set_inside false
          expect TokenKind.dedent
          pure (Statement.transaction (statements body) t.line t.column))

  -- `[if CONDITION]`
  abbrev pub suffix_if : Parse MaybeExpression
  suffix_if = do
    guarded ← gets (sees TokenKind.if_kw)
    if guarded
        then (do advance; e ← calls.expression prec_none; pure (some_expression e))
        else pure no_expression

  unfoldable pub parse_raise : Parse Statement
  parse_raise = at_current λ t. do
    advance
    message ← calls.expression prec_none
    condition ← suffix_if
    pure (Statement.raise message condition t.line t.column)

  abbrev pub extra_headers : Parse MaybeExpression
  extra_headers = do
    found ← gets (sees TokenKind.comma)
    if found
        then (do advance; e ← calls.expression prec_none; pure (some_expression e))
        else pure no_expression

  unfoldable pub parse_reply : Parse Statement
  parse_reply = at_current λ t. do
    advance
    content_type ← parse_content_type
    status_code ← calls.expression prec_none
    response_schema ← parse_as
    expect TokenKind.comma
    body ← calls.expression prec_none
    headers ← extra_headers
    pure (Statement.reply status_code content_type body response_schema headers t.line t.column)

  unfoldable pub parse_fail : Parse Statement
  parse_fail = at_current λ t. do
    advance
    status_code ← expect_integer
    expect TokenKind.comma
    message ← calls.expression prec_none
    pure (Statement.fail status_code message t.line t.column)
