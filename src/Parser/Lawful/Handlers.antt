-- ===== src/Parser/Lawful/Handlers.antt =====
-- src/parser.rs: the methods for single statements return lawful ones.
use marreta_lang.Base.{
  ℕ, ◌==◌, ◌≡◌, refl, ap, Bool, true, false, not, ◌&&◌, Option, none, some, List, [], ◌∷◌, arith,
  if◌then◌else◌, and-eq_true,
}
use marreta_lang.Base.Results.{ok, err, panic, timeout}
use marreta_lang.Text.{Text}
use marreta_lang.Token.Kind.{Token}
use marreta_lang.Syntax.{
  Expression, Statement, MaybeExpression, ScenarioStep, scenario_steps, AuthProviderFields,
  Statements, statements,
}
use marreta_lang.Parser.Action.{Outcome, pure}
use marreta_lang.Parser.Calls.{Calls}
use marreta_lang.Parser.Simple.{
  parse_requeue, parse_nack, branching_assignment, plain_assignment, parse_assignment, else_raise,
  else_fail, parse_require, parse_reject, parse_while, parse_transaction, parse_raise, parse_reply,
  parse_fail,
}
use marreta_lang.Parser.Scenario.{when_count, then_count, checked_scenario, parse_scenario}
use marreta_lang.Parser.Schema.{auth_provider_of, parse_auth_provider}
use marreta_lang.Parser.Route.{wildcard_topic, refuse_wildcard, parse_route, parse_on}
use marreta_lang.Parser.Statements.{parse_task_def, expression_statement}
use marreta_lang.Parser.Lawful.{
  lawful, exportable, steps_of, Yields, Gives, Gives-pure, Gives-throw, Gives-if, Gives-then,
  Gives-bind, Gives-while_loop,
}

abbrev pub Lawful : Statement → Type 0
Lawful s = lawful s ≡ true

abbrev pub Exportable : Statement → Type 0
Exportable s = (exportable s && lawful s) ≡ true

pub ruleset gives_rules = (Gives-pure, Gives-throw, Gives-if, Gives-then)

Gives-requeue :
    (condition : MaybeExpression) (at : Token) → Gives Lawful (parse_requeue condition at)
unfolding parse_requeue lawful
Gives-requeue condition at = search gives_rules depth 20

pub Gives-nack : Gives Lawful parse_nack
unfolding parse_nack
Gives-nack = search (gives_rules, Gives-requeue) depth 20

steps_of-scenario_steps : (steps : List ScenarioStep) → steps_of (scenario_steps steps) ≡ steps
steps_of-scenario_steps [] = refl
steps_of-scenario_steps (s ∷ ss) = ap (λ ts. s ∷ ts) (steps_of-scenario_steps ss)

Gives-checked :
    (name : Text) (steps : List ScenarioStep) (at : Token)
    → Gives Lawful (checked_scenario name steps at)
unfolding checked_scenario lawful
Gives-checked name steps at =
    Gives-if (not (when_count steps == 1)) (λ e. Gives-throw _)
      λ one.
        Gives-if (then_count steps == 0) (λ e. Gives-throw _)
          λ some. Gives-pure _ (rw (steps_of-scenario_steps steps) (ground arith))

Gives-auth_provider_of :
    (kind name : Text) (config : AuthProviderFields) (at : Token)
    → Gives Lawful (auth_provider_of kind name config at)
unfolding auth_provider_of lawful
Gives-auth_provider_of kind name config at = search gives_rules depth 20

Gives-refuse :
    (at : Token) (topic : Option Text) → Gives (λ u. topic ≡ none) (refuse_wildcard at topic)
Gives-refuse at none = Gives-pure _ refl
Gives-refuse at (some topic) = Gives-throw _

on_topic-Lawful :
    (target : Expression) (binder : Text) (schema : Option Text) (body : Statements)
    (line column : ℕ)
    → wildcard_topic true target ≡ none
    → Lawful (Statement.on_topic target binder schema body line column)
unfolding wildcard_topic lawful
on_topic-Lawful (Expression.string_literal topic) binder schema body line column h = ground arith
on_topic-Lawful _ binder schema body line column h = refl

pub Yields-Lawful : (r : Outcome Statement) → Yields Exportable r → Yields Lawful r
Yields-Lawful timeout h = tt
Yields-Lawful panic h = tt
Yields-Lawful (err e) h = tt
Yields-Lawful (ok (st, s)) h = (and-eq_true (exportable st) (lawful st) h).1

module _ (c : Calls) where
  Gives-branching :
      (name : Text) (t : Token) (b : Bool) → Gives Exportable (branching_assignment c name t b)
  unfolding lawful
  Gives-branching name t b = search gives_rules depth 20

  Gives-plain : (name : Text) (t : Token) → Gives Exportable (plain_assignment c name t)
  unfolding lawful
  Gives-plain name t = search gives_rules depth 20

  pub Gives-assignment : Gives Exportable (parse_assignment c)
  unfolding parse_assignment
  Gives-assignment = search (gives_rules, Gives-branching, Gives-plain) depth 20

  pub Gives-task_def : Gives Exportable (parse_task_def c)
  unfolding parse_task_def lawful
  Gives-task_def = search gives_rules depth 20

  Gives-else_raise : (e : Expression) (t : Token) → Gives Lawful (else_raise c e t)
  unfolding lawful
  Gives-else_raise e t = search gives_rules depth 20

  Gives-else_fail : (e : Expression) (t : Token) → Gives Lawful (else_fail c e t)
  unfolding lawful
  Gives-else_fail e t = search gives_rules depth 20

  pub Gives-require : Gives Lawful (parse_require c)
  unfolding parse_require
  Gives-require = search (gives_rules, Gives-requeue, Gives-else_raise, Gives-else_fail) depth 20

  pub Gives-reject : Gives Lawful (parse_reject c)
  unfolding parse_reject lawful
  Gives-reject = search gives_rules depth 20

  pub Gives-while : Gives Lawful (parse_while c)
  unfolding parse_while lawful
  Gives-while = search gives_rules depth 20

  pub Gives-transaction : Gives Lawful (parse_transaction c)
  unfolding parse_transaction lawful
  Gives-transaction = search gives_rules depth 20

  pub Gives-raise : Gives Lawful (parse_raise c)
  unfolding parse_raise lawful
  Gives-raise = search gives_rules depth 20

  pub Gives-reply : Gives Lawful (parse_reply c)
  unfolding parse_reply lawful
  Gives-reply = search gives_rules depth 20

  pub Gives-fail : Gives Lawful (parse_fail c)
  unfolding parse_fail lawful
  Gives-fail = search gives_rules depth 20

  pub Gives-scenario : Gives Lawful (parse_scenario c)
  unfolding parse_scenario
  Gives-scenario = search (gives_rules, Gives-checked) depth 20

  pub Gives-auth_provider : Gives Lawful (parse_auth_provider c)
  unfolding parse_auth_provider
  Gives-auth_provider = search (gives_rules, Gives-auth_provider_of) depth 20

  pub Gives-route : Gives Lawful (parse_route c)
  unfolding parse_route lawful
  Gives-route = search gives_rules depth 24

  pub Gives-expression_statement : Gives Lawful (expression_statement c)
  unfolding lawful
  Gives-expression_statement = search gives_rules depth 20

  on_end :
      (is_topic : Bool) (target : Expression) (binder : Text) (schema : Option Text)
      (body : List Statement) (t : Token)
      → wildcard_topic is_topic target ≡ none
      → Gives Lawful (
          if is_topic
          then pure (Statement.on_topic target binder schema (statements body) t.line t.column)
          else pure (Statement.on_queue target binder schema (statements body) t.line t.column))
  unfolding lawful
  on_end true target binder schema body t h =
      Gives-pure _ (on_topic-Lawful target binder schema (statements body) t.line t.column h)
  on_end false target binder schema body t h = Gives-pure _ refl

  pub Gives-on : Gives Lawful (parse_on c)
  unfolding parse_on
  Gives-on = Gives-then _ λ t. Gives-then _ λ u. Gives-then _ λ source. Gives-then _ λ is_topic.
      Gives-then _ λ target. Gives-bind (Gives-refuse t (wildcard_topic is_topic target)) λ v h.
        Gives-then _ λ w. Gives-then _ λ kind. Gives-then _ λ binder.
          Gives-then _ λ schema. Gives-then _ λ body. on_end is_topic target binder schema body t h
