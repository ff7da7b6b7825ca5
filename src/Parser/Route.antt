-- ===== src/Parser/Route.antt =====
-- src/parser.rs: routes with their bindings and guards, and the consumers of queues and topics.
use marreta_lang.Base.{
  ◌==◌, Bool, true, false, ◌&&◌, ◌||◌, Option, none, some, List, [], ◌∷◌, ◌++◌, if◌then◌else◌,
}
use marreta_lang.Text.{Text, codes, text_eq}
use marreta_lang.Token.Kind.{TokenKind, Token}
use marreta_lang.Syntax.{Expression, Statement, expressions, statements}
use marreta_lang.Syntax.Types.{RouteAuth, TakeKind, TakeBinding}
use marreta_lang.Parser.State.{
  Parser, sees, current_kind, check_identifier_lexeme, check_next_identifier_lexeme, words, lexeme,
  unexpected_token, reserved_word, reserved_word_as_name,
}
use marreta_lang.Parser.Action.{
  Parse, ◌>>=◌, ◌>>◌, pure, gets, throw, advance, unexpected, skip_newlines, expect, expect_string,
  expect_identifier, expect_identifier_lexeme, at_current, collect, while_loop, loop,
}
use marreta_lang.Parser.Calls.{Calls, prec_none}
use marreta_lang.Parser.Blocks.{before, parse_as, parse_indented}
use marreta_lang.Parser.Expressions.{parse_as_schema}
use marreta_lang.Parser.Scenario.{parse_http_verb}

unfoldable pub take_kind_of : Text → TakeKind
take_kind_of name =
    if text_eq name (codes "query")
    then TakeKind.query
    else if text_eq name (codes "headers")
    then TakeKind.headers
    else if text_eq name (codes "form")
    then TakeKind.form
    else if text_eq name (codes "raw")
    then TakeKind.raw
    else TakeKind.payload

abbrev binding : Text → Option Text → TakeBinding
binding name schema = record { kind = take_kind_of name; name = name; schema = schema }

-- A round of the loop.
unfoldable pub take_binding : List TakeBinding → Parse (List TakeBinding × Bool)
take_binding bindings = do
  name ← expect_identifier
  schema ← parse_as
  more ← gets (sees TokenKind.comma)
  if more
      then (do advance; pure (bindings ++ binding name schema ∷ [], true))
      else pure (bindings ++ binding name schema ∷ [], false)

unfoldable pub parse_take_bindings : Parse (List TakeBinding)
parse_take_bindings = loop take_binding []

unfoldable pub parse_route_auth : Parse RouteAuth
parse_route_auth = at_current λ t. do
  advance
  expect_identifier_lexeme (codes "auth")
  provider ← expect_identifier
  pure (record { provider = provider; line = t.line; column = t.column })

-- `require auth`
abbrev pub requires_auth : Parser → Bool
requires_auth s = sees TokenKind.require s && check_next_identifier_lexeme (codes "auth") s

abbrev pub is_nonempty : List TakeBinding → Bool
is_nonempty [] = false
is_nonempty (_ ∷ _) = true

-- `take` on the line of the route
abbrev pub inline_take : Parse (List TakeBinding)
inline_take = do
  found ← gets (sees TokenKind.take)
  if found then (do advance; parse_take_bindings) else pure []

-- An indented line of `take`.
unfoldable pub take_line : Bool → List TakeBinding → Parse (List TakeBinding)
take_line true take = unexpected (
    words (
      codes
        "route body statement (a route uses either an inline `take` on the route line or indented `take` lines, not both)"))
take_line false take = do
  advance
  bindings ← parse_take_bindings
  expect TokenKind.newline
  skip_newlines
  pure (take ++ bindings)

-- `[require auth PROVIDER]`
abbrev pub optional_auth : Parse (Option RouteAuth)
optional_auth = do
  found ← gets requires_auth
  if found then (do auth ← parse_route_auth; skip_newlines; pure (some auth)) else pure none

module _ (calls : Calls) where
  unfoldable pub parse_route_allow : Parse Expression
  parse_route_allow = do advance; calls.expression prec_none

  abbrev pub allow_line : Parse Expression
  allow_line = do e ← parse_route_allow; skip_newlines; pure e

  -- A round of the loop over the body.
  unfoldable pub route_item : Parse Statement
  route_item = do
    allows ← gets (check_identifier_lexeme (codes "allow"))
    requires ← gets requires_auth
    takes ← gets (sees TokenKind.take)
    if allows
        then unexpected
            (words (codes "route body statement (allow clauses must appear before the route body)"))
        else if requires
        then unexpected (
            words (
              codes
                "route body statement (require auth must appear before allow clauses and body)"))
        else if takes
        then unexpected (
            words (
              codes
                "route body statement (`take` bindings must be the leading statements of the route, before any logic)"))
        else (do statement ← calls.statement; skip_newlines; pure statement)

  unfoldable pub parse_route : Parse Statement
  parse_route = at_current λ t. do
    advance
    verb ← parse_http_verb
    path ← expect_string
    on_line ← inline_take
    expect TokenKind.newline
    expect TokenKind.indent
    skip_newlines
    take ← while_loop (λ _. sees TokenKind.take) (take_line (is_nonempty on_line)) on_line
    auth ← optional_auth
    allow ← collect (check_identifier_lexeme (codes "allow")) allow_line
    body ← collect (before TokenKind.dedent) route_item
    expect TokenKind.dedent
    pure (Statement.route verb path auth (expressions allow) take (statements body) t.line t.column)

abbrev pub has_wildcard : Text → Bool
has_wildcard [] = false
has_wildcard (c ∷ cs) = c == b'*' || c == b'#' || has_wildcard cs

-- The topic, if it is a string with a wildcard.
unfoldable pub wildcard_topic : Bool → Expression → Option Text
wildcard_topic true (Expression.string_literal topic) =
    if has_wildcard topic then some topic else none
wildcard_topic _ _ = none

-- Whether it is a topic.
abbrev pub topic_at : TokenKind → Parse Bool
topic_at TokenKind.queue = advance >> pure false
topic_at TokenKind.topic = advance >> pure true
topic_at _ = unexpected (words (codes "queue or topic"))

abbrev pub no_binder : Option Text → Parse Text
no_binder (some word) = at_current λ t. throw (reserved_word word t.line t.column)
no_binder none = unexpected (words (codes "identifier (binding name)"))

abbrev pub binder_at : TokenKind → Parse Text
binder_at (TokenKind.identifier name) = advance >> pure name
binder_at _ = gets reserved_word_as_name >>= no_binder

abbrev pub refuse_wildcard : Token → Option Text → Parse (Unit {0})
refuse_wildcard at none = pure tt
refuse_wildcard at (some topic) = throw (
    unexpected_token (words (codes "exact topic string without '*' or '#' wildcards"))
      (lexeme topic) at.line at.column)

unfoldable pub parse_on : Calls → Parse Statement
parse_on calls = at_current λ t. do
  advance
  source ← gets current_kind
  is_topic ← topic_at source
  target ← calls.expression prec_none
  refuse_wildcard t (wildcard_topic is_topic target)
  expect TokenKind.take
  kind ← gets current_kind
  binder ← binder_at kind
  schema ← parse_as_schema
  body ← parse_indented calls
  if is_topic
      then pure (Statement.on_topic target binder schema (statements body) t.line t.column)
      else pure (Statement.on_queue target binder schema (statements body) t.line t.column)
