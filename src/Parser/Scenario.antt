-- ===== src/Parser/Scenario.antt =====
-- src/parser.rs: scenarios, and the verbs of HTTP.
use marreta_lang.Base.{ℕ, suc, ◌+◌, ◌==◌, Bool, true, false, not, List, [], ◌∷◌, if◌then◌else◌}
use marreta_lang.Text.{Text, codes, text_eq}
use marreta_lang.Token.Kind.{TokenKind, Token}
use marreta_lang.Syntax.{
  Statement, ScenarioStep, MaybeExpression, some_expression, no_expression, scenario_steps,
}
use marreta_lang.Syntax.Types.{HttpVerb}
use marreta_lang.Parser.State.{
  sees, current_kind, check_identifier_lexeme, words, lexeme, when_requests, unexpected_token,
}
use marreta_lang.Parser.Action.{
  Parse, ◌>>=◌, ◌>>◌, pure, gets, throw, advance, unexpected, skip_newlines, expect, expect_string,
  expect_identifier_lexeme, at_current, collect,
}
use marreta_lang.Parser.Calls.{Calls, prec_none, prec_and}
use marreta_lang.Parser.Blocks.{before}

abbrev pub verb_at : TokenKind → Parse HttpVerb
verb_at TokenKind.get = advance >> pure HttpVerb.get
verb_at TokenKind.post = advance >> pure HttpVerb.post
verb_at TokenKind.put = advance >> pure HttpVerb.put
verb_at TokenKind.patch = advance >> pure HttpVerb.patch
verb_at TokenKind.delete = advance >> pure HttpVerb.delete
verb_at _ = unexpected (words (codes "HTTP verb (GET, POST, PUT, PATCH, DELETE)"))

unfoldable pub parse_http_verb : Parse HttpVerb
parse_http_verb = gets current_kind >>= verb_at

abbrev pub is_when : ScenarioStep → Bool
is_when (ScenarioStep.when _ _ _ _ _ _) = true
is_when _ = false

abbrev pub is_then : ScenarioStep → Bool
is_then (ScenarioStep.then_status _ _ _) = true
is_then (ScenarioStep.then_response _ _ _) = true
is_then _ = false

abbrev pub count : (ScenarioStep → Bool) → List ScenarioStep → ℕ
count p [] = 0
count p (s ∷ ss) = if p s then suc (count p ss) else count p ss

-- `when_count` and `then_count`
unfoldable pub when_count : List ScenarioStep → ℕ
when_count steps = count is_when steps

unfoldable pub then_count : List ScenarioStep → ℕ
then_count steps = count is_then steps

-- The checks behind the loop.
unfoldable pub checked_scenario : Text → List ScenarioStep → Token → Parse Statement
checked_scenario name steps at =
    if not (when_count steps == 1)
    then throw (
        unexpected_token (words (codes "exactly one when request inside scenario"))
          (when_requests (when_count steps)) at.line at.column)
    else if then_count steps == 0
    then throw (
        unexpected_token (words (codes "at least one then assertion inside scenario"))
          (lexeme (codes "no then assertions")) at.line at.column)
    else pure (Statement.scenario name (scenario_steps steps) at.line at.column)

module _ (calls : Calls) where
  unfoldable pub parse_scenario_given : Parse ScenarioStep
  parse_scenario_given = at_current λ t. do
    advance
    target ← calls.expression prec_none
    expect_identifier_lexeme (codes "returns")
    returns ← calls.expression prec_none
    pure (ScenarioStep.given target returns t.line t.column)

  -- `[with BODY]`
  abbrev pub request_body : Parse MaybeExpression
  request_body = do
    found ← gets (check_identifier_lexeme (codes "with"))
    if found
        then (do advance; e ← calls.expression (prec_and + 1); pure (some_expression e))
        else pure no_expression

  -- `[and headers HEADERS]`
  abbrev pub request_headers : Parse MaybeExpression
  request_headers = do
    found ← gets (sees TokenKind.and)
    if found
        then (do
          advance
          expect_identifier_lexeme (codes "headers")
          e ← calls.expression prec_none
          pure (some_expression e))
        else pure no_expression

  unfoldable pub parse_scenario_when : Parse ScenarioStep
  parse_scenario_when = at_current λ t. do
    advance
    verb ← parse_http_verb
    path ← expect_string
    body ← request_body
    headers ← request_headers
    pure (ScenarioStep.when verb path body headers t.line t.column)

  abbrev pub then_status : Token → Parse ScenarioStep
  then_status at = do
    advance
    status ← calls.expression prec_none
    pure (ScenarioStep.then_status status at.line at.column)

  abbrev pub then_response : Token → Parse ScenarioStep
  then_response at = do
    advance
    expect_identifier_lexeme (codes "is")
    expected ← calls.expression prec_none
    pure (ScenarioStep.then_response expected at.line at.column)

  unfoldable pub parse_scenario_then : Parse ScenarioStep
  parse_scenario_then = at_current λ t. do
    advance
    status ← gets (check_identifier_lexeme (codes "status"))
    response ← gets (check_identifier_lexeme (codes "response"))
    if status
        then then_status t
        else if response
        then then_response t
        else unexpected (words (codes "status or response after then"))

  abbrev pub step_at : TokenKind → Parse ScenarioStep
  step_at (TokenKind.identifier name) =
      if text_eq name (codes "given")
      then parse_scenario_given
      else if text_eq name (codes "when")
      then parse_scenario_when
      else if text_eq name (codes "then")
      then parse_scenario_then
      else unexpected (words (codes "given, when, or then inside scenario"))
  step_at _ = unexpected (words (codes "given, when, or then inside scenario"))

  -- A round of the loop over the steps.
  unfoldable pub parse_step : Parse ScenarioStep
  parse_step = do kind ← gets current_kind; step ← step_at kind; skip_newlines; pure step

  unfoldable pub parse_scenario : Parse Statement
  parse_scenario = at_current λ t. do
    advance
    name ← expect_string
    expect TokenKind.newline
    expect TokenKind.indent
    skip_newlines
    steps ← collect (before TokenKind.dedent) parse_step
    expect TokenKind.dedent
    checked_scenario name steps t
