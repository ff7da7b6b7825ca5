-- ===== src/Parser/Progress/Route.antt =====
-- src/parser.rs: routes and consumers take a token.
use marreta_lang.Base.{ℕ, suc, refl, Bool, true, false, Option, none, some, List, []}
use marreta_lang.Text.{Text}
use marreta_lang.Token.Kind.{TokenKind, Token}
use marreta_lang.Syntax.Types.{TakeBinding}
use marreta_lang.Parser.State.{sees}
use marreta_lang.Parser.Action.{while_loop}
use marreta_lang.Parser.Calls.{Calls}
use marreta_lang.Parser.Route.{
  take_binding, parse_take_bindings, parse_route_auth, inline_take, take_line, optional_auth,
  parse_route_allow, allow_line, route_item, parse_route, topic_at, binder_at, no_binder,
  refuse_wildcard, parse_on, is_nonempty,
}
use marreta_lang.Parser.Progress.{
  Keeps, Eats, EatsOn, Keeps-gets, Keeps-bind, Eats→EatsOn, EatsOn-gets, Eats-if,
}
use marreta_lang.Parser.Progress.Actions.{At, EatsOn-first_suc, Eats-gets}
use marreta_lang.Parser.Progress.Loops.{Eats-loop, Keeps-while_loop}
use marreta_lang.Parser.Progress.Expects.{keeps_rules, eats_rules, Eats-unexpected}
use marreta_lang.Parser.Progress.Blocks.{Good, Keeps-parse_as, Keeps-parse_indented}
use marreta_lang.Parser.Progress.Queues.{Keeps-parse_as_schema}
use marreta_lang.Parser.Progress.Scenario.{Keeps-http_verb}

Eats-take_binding : {n : ℕ} (bindings : List TakeBinding) → Eats n (take_binding bindings)
unfolding take_binding
Eats-take_binding bindings = search (eats_rules, Keeps-parse_as) depth 12

Eats-take_bindings : {n : ℕ} → Eats n parse_take_bindings
unfolding parse_take_bindings
Eats-take_bindings = Eats-loop Eats-take_binding []

Eats-take_line :
    {n : ℕ} (on_line : Bool) (take : List TakeBinding) → Eats n (take_line on_line take)
unfolding take_line
Eats-take_line true take = Eats-unexpected _
Eats-take_line false take = search (eats_rules, Eats-take_bindings) depth 12

take_loop :
    {n : ℕ} (on_line : List TakeBinding)
    → Keeps n (while_loop (λ _. sees TokenKind.take) (take_line (is_nonempty on_line)) on_line)
take_loop on_line =
    Keeps-while_loop (λ take. Eats→EatsOn (Eats-take_line (is_nonempty on_line) take)) on_line

Keeps-inline_take : {n : ℕ} → Keeps n inline_take
Keeps-inline_take = search (keeps_rules, Eats-take_bindings) depth 8

Keeps-route_auth : {n : ℕ} → Keeps n parse_route_auth
unfolding parse_route_auth
Keeps-route_auth = search keeps_rules depth 12

Keeps-optional_auth : {n : ℕ} → Keeps n optional_auth
Keeps-optional_auth = search (keeps_rules, Keeps-route_auth) depth 8

Keeps-topic_at : {n : ℕ} (kind : TokenKind) → Keeps n (topic_at kind)
Keeps-topic_at TokenKind.queue = search keeps_rules
Keeps-topic_at TokenKind.topic = search keeps_rules
Keeps-topic_at _ = search keeps_rules

Keeps-no_binder : {n : ℕ} (word : Option Text) → Keeps n (no_binder word)
Keeps-no_binder (some word) = search keeps_rules
Keeps-no_binder none = search keeps_rules

Keeps-binder_at : {n : ℕ} (kind : TokenKind) → Keeps n (binder_at kind)
Keeps-binder_at (TokenKind.identifier name) = search keeps_rules
Keeps-binder_at _ = Keeps-bind (Keeps-gets _) Keeps-no_binder

Keeps-refuse_wildcard :
    {n : ℕ} (at : Token) (topic : Option Text) → Keeps n (refuse_wildcard at topic)
Keeps-refuse_wildcard at (some topic) = search keeps_rules
Keeps-refuse_wildcard at none = search keeps_rules

module _ {n : ℕ} {c : Calls} (good : Good n c) where
  Eats-allow_line : Eats n (allow_line c)
  unfolding parse_route_allow
  Eats-allow_line = search (eats_rules, good.expression) depth 8

  Eats-route_item : Eats n (route_item c)
  unfolding route_item
  Eats-route_item = Eats-gets _ λ allows. Eats-gets _ λ requires. Eats-gets _ λ takes.
      Eats-if allows (Eats-unexpected _) (
        Eats-if requires (Eats-unexpected _)
          (Eats-if takes (Eats-unexpected _) (search (eats_rules, good.statement))))

  pub EatsOn-parse_route : EatsOn (At TokenKind.route) (suc n) (parse_route c)
  unfolding parse_route
  EatsOn-parse_route = EatsOn-gets _ λ t. EatsOn-first_suc refl λ u.
      search
        (
          keeps_rules, Keeps-http_verb, Keeps-inline_take, take_loop, Keeps-optional_auth,
          Eats-allow_line, Eats-route_item,
        )
        depth 24

  pub EatsOn-parse_on : EatsOn (At TokenKind.on) (suc n) (parse_on c)
  unfolding parse_on
  EatsOn-parse_on = EatsOn-gets _ λ t. EatsOn-first_suc refl λ u.
      search
        (
          keeps_rules, Keeps-topic_at, good.expression, Keeps-refuse_wildcard, Keeps-binder_at,
          Keeps-parse_as_schema, Keeps-parse_indented,
        )
        depth 24
