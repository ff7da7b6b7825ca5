-- ===== src/Parser/Progress/Scenario.antt =====
-- src/parser.rs: a scenario takes a token.
use marreta_lang.Base.{ℕ, suc, ◌==◌, refl, not, List}
use marreta_lang.Text.{Text}
use marreta_lang.Token.Kind.{TokenKind, Token}
use marreta_lang.Syntax.{ScenarioStep}
use marreta_lang.Parser.Calls.{Calls}
use marreta_lang.Parser.Scenario.{
  verb_at, parse_http_verb, when_count, then_count, parse_scenario_given, request_body,
  request_headers, parse_scenario_when, then_status, then_response, parse_scenario_then, step_at,
  parse_step, checked_scenario, parse_scenario,
}
use marreta_lang.Parser.Progress.{Keeps, Eats, EatsOn, Keeps-if, EatsOn-gets, EatsOn-if}
use marreta_lang.Parser.Progress.Actions.{
  At, EatsOn-first, EatsOn-first_suc, EatsOn-bind, EatsOn-unexpected, Eats-kind,
}
use marreta_lang.Parser.Progress.Expects.{keeps_rules}
use marreta_lang.Parser.Progress.Blocks.{Good}

Keeps-verb_at : {n : ℕ} (kind : TokenKind) → Keeps n (verb_at kind)
Keeps-verb_at TokenKind.get = search keeps_rules
Keeps-verb_at TokenKind.post = search keeps_rules
Keeps-verb_at TokenKind.put = search keeps_rules
Keeps-verb_at TokenKind.patch = search keeps_rules
Keeps-verb_at TokenKind.delete = search keeps_rules
Keeps-verb_at _ = search keeps_rules

pub Keeps-http_verb : {n : ℕ} → Keeps n parse_http_verb
unfolding parse_http_verb
Keeps-http_verb = search (keeps_rules, Keeps-verb_at)

Keeps-checked :
    {n : ℕ} (name : Text) (steps : List ScenarioStep) (at : Token)
    → Keeps n (checked_scenario name steps at)
unfolding checked_scenario
Keeps-checked name steps at =
    Keeps-if (not (when_count steps == 1)) (search keeps_rules)
      (Keeps-if (then_count steps == 0) (search keeps_rules) (search keeps_rules))

module _ {n : ℕ} {c : Calls} (good : Good n c) where
  given-EatsOn : (name : Text) → EatsOn (At (TokenKind.identifier name)) n (parse_scenario_given c)
  unfolding parse_scenario_given
  given-EatsOn name =
      EatsOn-gets _ λ t. EatsOn-first refl λ u. search (keeps_rules, good.expression) depth 10

  Keeps-request_body : Keeps n (request_body c)
  Keeps-request_body = search (keeps_rules, good.expression) depth 8

  Keeps-request_headers : Keeps n (request_headers c)
  Keeps-request_headers = search (keeps_rules, good.expression) depth 8

  when-EatsOn : (name : Text) → EatsOn (At (TokenKind.identifier name)) n (parse_scenario_when c)
  unfolding parse_scenario_when
  when-EatsOn name = EatsOn-gets _ λ t.
      EatsOn-first refl λ u.
        search (keeps_rules, Keeps-http_verb, Keeps-request_body, Keeps-request_headers) depth 10

  Keeps-then_status : (t : Token) → Keeps n (then_status c t)
  Keeps-then_status t = search (keeps_rules, good.expression)

  Keeps-then_response : (t : Token) → Keeps n (then_response c t)
  Keeps-then_response t = search (keeps_rules, good.expression)

  then-EatsOn : (name : Text) → EatsOn (At (TokenKind.identifier name)) n (parse_scenario_then c)
  unfolding parse_scenario_then
  then-EatsOn name = EatsOn-gets _ λ t.
      EatsOn-first refl λ u. search (keeps_rules, Keeps-then_status, Keeps-then_response) depth 10

  step_at-EatsOn : (kind : TokenKind) → EatsOn (At kind) n (step_at c kind)
  step_at-EatsOn (TokenKind.identifier name) =
      EatsOn-if _ (given-EatsOn name)
        (EatsOn-if _ (when-EatsOn name) (EatsOn-if _ (then-EatsOn name) (EatsOn-unexpected _)))
  step_at-EatsOn _ = EatsOn-unexpected _

  Eats-parse_step : Eats n (parse_step c)
  unfolding parse_step
  Eats-parse_step = Eats-kind λ kind. EatsOn-bind (step_at-EatsOn kind) λ step. search keeps_rules

  pub EatsOn-parse_scenario :
      (name : Text) → EatsOn (At (TokenKind.identifier name)) (suc n) (parse_scenario c)
  unfolding parse_scenario
  EatsOn-parse_scenario name =
      EatsOn-gets _ λ t.
        EatsOn-first_suc refl λ u. search (keeps_rules, Eats-parse_step, Keeps-checked) depth 20
