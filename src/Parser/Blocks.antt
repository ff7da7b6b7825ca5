-- ===== src/Parser/Blocks.antt =====
-- src/parser.rs: blocks of statements, `match`, `if`, the literals of lists, maps and schemas, and
-- arguments.
use marreta_lang.Base.{
  Bool, true, false, not, ◌&&◌, Option, none, some, List, [], ◌∷◌, ◌++◌, if◌then◌else◌,
}
use marreta_lang.Text.{Text}
use marreta_lang.Token.Kind.{TokenKind}
use marreta_lang.Syntax.{
  Expression, Statement, TaskBody, MatchArm, MatchPattern, Argument, some_body, no_body,
  expressions, statements, pairs, match_arms,
}
use marreta_lang.Parser.State.{
  Parser, check, sees, peeks, is_at_end, current_kind, reserved_word_as_name,
}
use marreta_lang.Parser.Action.{
  Parse, ◌>>=◌, ◌>>◌, pure, gets, advance, skip_newlines, expect, expect_identifier, expect_name,
  collect, while_loop, loop,
}
use marreta_lang.Parser.Calls.{Calls, prec_none}

-- `!self.check(&kind) && !self.is_at_end()`
abbrev pub before : TokenKind → Parser → Bool
before kind s = not (check kind s) && not (is_at_end s)

-- `[as NAME]`
unfoldable pub parse_as : Parse (Option Text)
parse_as = do
  found ← gets (sees TokenKind.as_kw)
  if found then (do advance; name ← expect_identifier; pure (some name)) else pure none

module _ (calls : Calls) where
  -- `body.push(self.parse_statement()?); self.skip_newlines();`
  abbrev pub block_item : Parse Statement
  block_item = do statement ← calls.statement; skip_newlines; pure statement

  -- The statements of a block, behind the Indent that opens it, and its Dedent.
  unfoldable pub parse_block : Parse (List Statement)
  parse_block = do
    skip_newlines
    body ← collect (before TokenKind.dedent) block_item
    expect TokenKind.dedent
    pure body

  -- `expect(Newline)`, `expect(Indent)`, and the block.
  unfoldable pub parse_indented : Parse (List Statement)
  parse_indented = do expect TokenKind.newline; expect TokenKind.indent; parse_block

-- `body_stmts.pop()`: the last statement, if it is an expression, is the value of the body. The first
-- list holds the statements before those of the second.
unfoldable pub body_from : List Statement → List Statement → TaskBody
body_from passed [] = TaskBody.block (statements passed) Expression.null
body_from passed (Statement.expression_statement e line column ∷ []) =
    TaskBody.block (statements passed) e
body_from passed (s ∷ ss) = body_from (passed ++ s ∷ []) ss

-- `if !self.check(&kind) { self.expect(TokenKind::Comma)?; }`
abbrev pub comma_before : TokenKind → Parse (Unit {0})
comma_before kind = do
  closing ← gets (check kind)
  if closing then pure tt else expect TokenKind.comma

-- `if self.check(&kind) { self.advance(); }`
abbrev pub skip_one : TokenKind → Parse (Unit {0})
skip_one kind = do found ← gets (check kind); if found then advance else pure tt

abbrev pub named_at : TokenKind → Parser → Option Text
named_at (TokenKind.identifier name) s = some name
named_at _ s = reserved_word_as_name s

abbrev pub argument_name : Parser → Option Text
argument_name s = if peeks TokenKind.colon s then named_at (current_kind s) s else none

abbrev pub constructor_goes_on : List (Text × Expression) × Bool → Parser → Bool
constructor_goes_on (fields, broken) s = not broken && before TokenKind.right_brace s

module _ (calls : Calls) where
  unfoldable pub parse_expression_block_body : Parse TaskBody
  parse_expression_block_body = do body ← parse_indented calls; pure (body_from [] body)

  unfoldable pub parse_task_like_body : Parse TaskBody
  parse_task_like_body = do
    inline ← gets (sees TokenKind.fat_arrow)
    if inline
        then (do advance; e ← calls.expression prec_none; pure (TaskBody.inline e))
        else parse_expression_block_body

  unfoldable pub parse_else : Parse TaskBody
  parse_else = do
    chained ← gets (check TokenKind.if_kw)
    if chained
        then (do nested ← calls.if_expression; pure (TaskBody.inline nested))
        else parse_expression_block_body

  -- What follows the condition.
  abbrev pub if_rest : Expression → Parse Expression
  if_rest condition = do
    then_branch ← parse_expression_block_body
    otherwise ← gets (check TokenKind.else_kw)
    if otherwise
        then (do
          advance
          else_branch ← parse_else
          pure (Expression.conditional condition then_branch (some_body else_branch)))
        else pure (Expression.conditional condition then_branch no_body)

  unfoldable pub parse_if_expression : Parse Expression
  parse_if_expression = do advance; condition ← calls.expression prec_none; if_rest condition

  abbrev match_pattern : Parse MatchPattern
  match_pattern = do
    default ← gets (sees TokenKind.fallback)
    if default
        then (do advance; pure MatchPattern.fallback)
        else (do e ← calls.expression prec_none; pure (MatchPattern.literal e))

  unfoldable pub parse_match_arm : Parse MatchArm
  parse_match_arm = do
    pattern ← match_pattern
    expect TokenKind.arrow
    value ← calls.expression prec_none
    skip_newlines
    pure (MatchArm.match_arm pattern value)

  unfoldable pub parse_match_expression : Parse Expression
  parse_match_expression = do
    advance
    subject ← calls.expression prec_none
    expect TokenKind.newline
    expect TokenKind.indent
    skip_newlines
    arms ← collect (before TokenKind.dedent) parse_match_arm
    expect TokenKind.dedent
    pure (Expression.match subject (match_arms arms))

  abbrev list_item : Parse Expression
  list_item = do e ← calls.expression prec_none; comma_before TokenKind.right_bracket; pure e

  unfoldable pub parse_list_literal : Parse Expression
  parse_list_literal = do
    advance
    elements ← collect (before TokenKind.right_bracket) list_item
    expect TokenKind.right_bracket
    pure (Expression.list (expressions elements))

  -- `KEY: EXPR`
  abbrev pub pair : Parse (Text × Expression)
  pair = do
    key ← expect_name
    expect TokenKind.colon
    value ← calls.expression prec_none
    pure (key, value)

  abbrev map_item : Parse (Text × Expression)
  map_item = do p ← pair; comma_before TokenKind.right_brace; pure p

  unfoldable pub parse_map_literal : Parse Expression
  parse_map_literal = do
    advance
    items ← collect (before TokenKind.right_brace) map_item
    expect TokenKind.right_brace
    pure (Expression.map_literal (pairs items))

  abbrev pub constructor_tail : List (Text × Expression) → Parse (List (Text × Expression) × Bool)
  constructor_tail fields = do
    field ← pair
    skip_one TokenKind.comma
    skip_newlines
    pure (fields ++ field ∷ [], false)

  -- A round of the loop, that may `break`: then the flag is set.
  unfoldable pub constructor_round :
      List (Text × Expression) × Bool → Parse (List (Text × Expression) × Bool)
  constructor_round (fields, broken) = do
    skip_newlines
    closing ← gets (check TokenKind.right_brace)
    if closing then pure (fields, true) else constructor_tail fields

  unfoldable pub parse_schema_constructor : Text → Parse Expression
  parse_schema_constructor schema_name = do
    expect TokenKind.left_brace
    (fields, _) ← while_loop constructor_goes_on constructor_round ([], false)
    expect TokenKind.right_brace
    pure (Expression.schema_constructor schema_name (pairs fields))

  unfoldable pub argument_round : List Argument → Option Text → Parse (List Argument × Bool)
  argument_round args (some name) = do
    advance
    advance
    value ← calls.expression prec_none
    closing ← gets (check TokenKind.right_paren)
    if closing
        then pure (args ++ Argument.named name value ∷ [], false)
        else (do expect TokenKind.comma; pure (args ++ Argument.named name value ∷ [], true))
  argument_round args none = do
    e ← calls.expression prec_none
    comma_before TokenKind.right_paren
    closing ← gets (check TokenKind.right_paren)
    pure (args ++ Argument.positional e ∷ [], not closing)

  abbrev pub next_argument : List Argument → Parse (List Argument × Bool)
  next_argument args = do name ← gets argument_name; argument_round args name

  unfoldable pub parse_argument_list : Parse (List Argument)
  parse_argument_list = do
    empty ← gets (check TokenKind.right_paren)
    if empty then pure [] else loop next_argument []
