-- ===== src/Parser/Statements.antt =====
-- src/parser.rs: the dispatch on statements, tasks, exports, and `parse`.
use marreta_lang.Base.{
  ℕ, zero, suc, ◌*◌, Bool, not, ◌&&◌, ◌||◌, List, [], ◌∷◌, if◌then◌else◌, length,
}
use marreta_lang.Base.Results.{Result, ok, err, panic, timeout}
use marreta_lang.Text.{Text, codes, text_eq}
use marreta_lang.Token.Kind.{TokenKind, Token}
use marreta_lang.Syntax.{Statement}
use marreta_lang.Syntax.Types.{ParamDef}
use marreta_lang.Parser.State.{
  ParseError, sees, check, peeks, peek_kind, holds_kind, is_at_end, is_identifier, is_word_kind,
  is_string_literal, is_reserved_word_token, current_kind, words, lexeme, unexpected_token,
  unexpected_indentation, new,
}
use marreta_lang.Parser.Action.{
  Parse, Outcome, ◌>>=◌, ◌>>◌, pure, gets, throw, advance, skip_newlines, expect, expect_identifier,
  at_current, collect,
}
use marreta_lang.Parser.Calls.{Calls, prec_none}
use marreta_lang.Parser.Blocks.{parse_as, parse_task_like_body, parse_if_expression, block_item}
use marreta_lang.Parser.Expressions.{parse_expression}
use marreta_lang.Parser.Simple.{
  parse_assignment, parse_require, parse_reject, parse_while, parse_transaction, parse_raise,
  parse_nack, parse_reply, parse_fail,
}
use marreta_lang.Parser.Scenario.{parse_scenario}
use marreta_lang.Parser.Schema.{parse_schema, parse_auth_provider}
use marreta_lang.Parser.Route.{parse_route, parse_on}

abbrev pub param : Parse ParamDef
param = do
  name ← expect_identifier
  schema ← parse_as
  pure (record { name = name; schema = schema })

abbrev pub next_param : Parse ParamDef
next_param = do advance; param

unfoldable pub parse_param_list : Parse (List ParamDef)
parse_param_list = do
  empty ← gets (check TokenKind.right_paren)
  if empty then pure [] else (do
    first ← param
    params ← collect (check TokenKind.comma) next_param
    pure (first ∷ params))

abbrev pub indexed : List Token → Parse Token
indexed [] s = panic
indexed (t ∷ _) s = ok (t, s)

-- `self.tokens[self.pos]`
unfoldable pub token_at_pos : Parse Token
token_at_pos s = indexed s.rest s

abbrev refused : Text → Text → Token → Parse Statement
refused expected got at = throw (unexpected_token (words expected) (lexeme got) at.line at.column)

abbrev pub no_export : Token → Parse Statement
no_export at = do
  t ← token_at_pos
  refused (codes "task, schema, or assignment after export") t.lexeme at

abbrev pub bad_indent : Parse Statement
bad_indent = at_current λ t. throw (unexpected_indentation t.line)

abbrev pub exported : Parse Statement → Parse Statement
exported item = do inner ← item; pure (Statement.export inner)

abbrev is_scheme : TokenKind → Bool
is_scheme kind = is_word_kind (codes "jwt") kind || is_word_kind (codes "api_key") kind

module _ (calls : Calls) where
  unfoldable pub parse_task_def : Parse Statement
  parse_task_def = at_current λ t. do
    advance
    name ← expect_identifier
    expect TokenKind.left_paren
    params ← parse_param_list
    expect TokenKind.right_paren
    body ← parse_task_like_body calls
    pure (Statement.task_def name params body t.line t.column)

  -- The arms on an identifier, and those behind the keywords.
  abbrev pub export_other : Token → TokenKind → Parse Statement
  export_other at kind = do
    assigns ← gets (peeks TokenKind.assign)
    reserved ← gets is_reserved_word_token
    if assigns && (is_identifier kind || reserved)
        then exported (parse_assignment calls)
        else no_export at

  abbrev pub export_route : Token → Parse Statement
  export_route at = do
    assigns ← gets (peeks TokenKind.assign)
    reserved ← gets is_reserved_word_token
    if assigns && reserved
        then exported (parse_assignment calls)
        else refused (codes "task, schema, or assignment") (codes "route") at

  unfoldable pub export_at : Token → TokenKind → Parse Statement
  export_at at TokenKind.task = exported parse_task_def
  export_at at TokenKind.schema = exported parse_schema
  export_at at TokenKind.route = export_route at
  export_at at kind = export_other at kind

  unfoldable pub parse_export : Parse Statement
  parse_export = do at ← token_at_pos; advance; kind ← gets current_kind; export_at at kind

  abbrev pub expression_statement : Parse Statement
  expression_statement = at_current λ t. do
    e ← calls.expression prec_none
    pure (Statement.expression_statement e t.line t.column)

  -- The arms on an identifier.
  unfoldable pub word_statement : Text → Parse Statement
  word_statement name = do
    scheme ← gets (λ s. holds_kind is_scheme (peek_kind s))
    titled ← gets (λ s. holds_kind is_string_literal (peek_kind s))
    assigns ← gets (peeks TokenKind.assign)
    if text_eq name (codes "auth") && scheme
        then parse_auth_provider calls
        else if text_eq name (codes "scenario") && titled
        then parse_scenario calls
        else if assigns
        then parse_assignment calls
        else expression_statement

  -- The arms behind those on an identifier.
  unfoldable pub other_statement : Parse Statement
  other_statement = do
    reserved ← gets is_reserved_word_token
    assigns ← gets (peeks TokenKind.assign)
    indented ← gets (sees TokenKind.indent)
    if reserved && assigns
        then parse_assignment calls
        else if indented
        then bad_indent
        else expression_statement

  unfoldable pub statement_at : TokenKind → Parse Statement
  statement_at TokenKind.require = parse_require calls
  statement_at TokenKind.reject = parse_reject calls
  statement_at TokenKind.while = parse_while calls
  statement_at TokenKind.task = parse_task_def
  statement_at TokenKind.route = parse_route calls
  statement_at TokenKind.schema = parse_schema
  statement_at TokenKind.reply = parse_reply calls
  statement_at TokenKind.fail = parse_fail calls
  statement_at TokenKind.export = parse_export
  statement_at TokenKind.transaction = parse_transaction calls
  statement_at TokenKind.raise = parse_raise calls
  statement_at TokenKind.on = parse_on calls
  statement_at TokenKind.nack = parse_nack
  statement_at (TokenKind.identifier name) = word_statement name
  statement_at _ = other_statement

  unfoldable pub parse_statement : Parse Statement
  parse_statement = gets current_kind >>= statement_at

-- A method that calls itself again, through the others, has one unit of fuel less.
unfoldable pub calls_on : ℕ → Calls
calls_on zero = record {
  expression = λ prec s. timeout;
  statement = λ s. timeout;
  if_expression = λ s. timeout;
}
calls_on (suc fuel) =
    let calls = calls_on fuel in
    record {
      expression = λ prec. parse_expression calls prec;
      statement = parse_statement calls;
      if_expression = parse_if_expression calls;
    }

-- What is returned, without the state.
abbrev pub value_of : Outcome (List Statement) → Result ParseError (List Statement)
value_of timeout = timeout
value_of panic = panic
value_of (err e) = err e
value_of (ok (statements, _)) = ok statements

abbrev pub parse_from : Calls → Parse (List Statement)
parse_from calls = do skip_newlines; collect (λ s. not (is_at_end s)) (block_item calls)

-- The fuel is two units for each token, and two more.
unfoldable pub parse : List Token → Result ParseError (List Statement)
parse tokens = value_of (parse_from (calls_on (2 * suc (length tokens))) (new tokens))
