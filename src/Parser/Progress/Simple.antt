-- ===== src/Parser/Progress/Simple.antt =====
-- src/parser.rs: assignments, guards, loops, transactions and replies take a token.
use marreta_lang.Base.{ℕ, suc, refl, Bool}
use marreta_lang.Text.{Text}
use marreta_lang.Token.Kind.{TokenKind, Token}
use marreta_lang.Syntax.{Expression, MaybeExpression}
use marreta_lang.Parser.Calls.{Calls}
use marreta_lang.Parser.Simple.{
  parse_requeue, parse_nack, branching_value, branching_assignment, plain_assignment,
  parse_assignment, error_reply, else_raise, else_fail, parse_require, parse_reject, parse_while,
  parse_transaction, suffix_if, parse_raise, html_or_text, parse_content_type, extra_headers,
  parse_reply, parse_fail, assignment_rest,
}
use marreta_lang.Parser.Progress.{
  Keeps, Eats, EatsOn, Keeps-if, Eats-bind_suc, Eats→EatsOn, Eats-throw, EatsOn-gets, EatsOn-if,
}
use marreta_lang.Parser.Progress.Actions.{At, EatsOn-first_suc, Eats-gets}
use marreta_lang.Parser.Progress.Expects.{keeps_rules, Eats-expect_identifier}
use marreta_lang.Parser.Progress.Blocks.{
  Good, Keeps-parse_as, Keeps-parse_indented, Eats-block_item, Keeps-match, Keeps-conditional,
}
use marreta_lang.Parser.Progress.Expressions.{Keeps-maybe_pipeline}

Keeps-parse_requeue :
    {n : ℕ} (condition : MaybeExpression) (at : Token) → Keeps n (parse_requeue condition at)
unfolding parse_requeue
Keeps-parse_requeue condition at = search keeps_rules depth 8

pub EatsOn-parse_nack : {n : ℕ} → EatsOn (At TokenKind.nack) (suc n) parse_nack
unfolding parse_nack parse_requeue
EatsOn-parse_nack = EatsOn-gets _ λ t. EatsOn-first_suc refl λ u. search keeps_rules depth 8

Keeps-error_reply : {n : ℕ} → Keeps n error_reply
Keeps-error_reply = search keeps_rules depth 10

Keeps-html_or_text : {n : ℕ} (name : Text) → Keeps n (html_or_text name)
Keeps-html_or_text name = search keeps_rules depth 8

Keeps-content_type : {n : ℕ} → Keeps n parse_content_type
unfolding parse_content_type
Keeps-content_type = search (keeps_rules, Keeps-html_or_text) depth 8

module _ {n : ℕ} {c : Calls} (good : Good n c) where
  Keeps-branching_value : (matched : Bool) → Keeps n (branching_value c matched)
  Keeps-branching_value matched = Keeps-if matched (Keeps-match good) (Keeps-conditional good)

  Keeps-branching : (name : Text) (t : Token) (b : Bool) → Keeps n (branching_assignment c name t b)
  Keeps-branching name t b =
      search (keeps_rules, Keeps-branching_value, Keeps-maybe_pipeline) depth 8

  Keeps-plain : (name : Text) (t : Token) → Keeps n (plain_assignment c name t)
  Keeps-plain name t = search (keeps_rules, good.expression, Keeps-maybe_pipeline) depth 12

  Keeps-assignment_rest : (name : Text) (t : Token) → Keeps n (assignment_rest c name t)
  Keeps-assignment_rest name t = search (keeps_rules, Keeps-branching, Keeps-plain) depth 8

  pub Eats-parse_assignment : Eats (suc n) (parse_assignment c)
  unfolding parse_assignment
  Eats-parse_assignment =
      Eats-gets _ λ t. Eats-bind_suc Eats-expect_identifier λ name. Keeps-assignment_rest name t

  Keeps-else_raise : (e : Expression) (t : Token) → Keeps n (else_raise c e t)
  Keeps-else_raise e t = search (keeps_rules, good.expression) depth 8

  Keeps-else_fail : (e : Expression) (t : Token) → Keeps n (else_fail c e t)
  Keeps-else_fail e t = search (keeps_rules, Keeps-error_reply) depth 8

  pub EatsOn-parse_require : EatsOn (At TokenKind.require) (suc n) (parse_require c)
  unfolding parse_require
  EatsOn-parse_require = EatsOn-gets _ λ t. EatsOn-first_suc refl λ u.
      search (keeps_rules, good.expression, Keeps-parse_requeue, Keeps-else_raise, Keeps-else_fail)
        depth 12

  pub EatsOn-parse_reject : EatsOn (At TokenKind.reject) (suc n) (parse_reject c)
  unfolding parse_reject
  EatsOn-parse_reject = EatsOn-gets _ λ t.
      EatsOn-first_suc refl λ u. search (keeps_rules, good.expression, Keeps-error_reply) depth 12

  pub EatsOn-parse_while : EatsOn (At TokenKind.while) (suc n) (parse_while c)
  unfolding parse_while
  EatsOn-parse_while = EatsOn-gets _ λ t.
      EatsOn-first_suc refl λ u. search (keeps_rules, good.expression, Keeps-parse_indented) depth 8

  pub EatsOn-parse_transaction : EatsOn (At TokenKind.transaction) (suc n) (parse_transaction c)
  unfolding parse_transaction
  EatsOn-parse_transaction = EatsOn-gets _ λ t. EatsOn-gets _ λ nested.
      EatsOn-if nested (Eats→EatsOn (Eats-throw _))
        (EatsOn-first_suc refl λ u. search (keeps_rules, Eats-block_item) depth 20)

  Keeps-suffix_if : Keeps n (suffix_if c)
  Keeps-suffix_if = search (keeps_rules, good.expression) depth 8

  pub EatsOn-parse_raise : EatsOn (At TokenKind.raise) (suc n) (parse_raise c)
  unfolding parse_raise
  EatsOn-parse_raise =
      EatsOn-gets _ λ t.
        EatsOn-first_suc refl λ u. search (keeps_rules, good.expression, Keeps-suffix_if) depth 8

  Keeps-extra_headers : Keeps n (extra_headers c)
  Keeps-extra_headers = search (keeps_rules, good.expression) depth 8

  pub EatsOn-parse_reply : EatsOn (At TokenKind.reply) (suc n) (parse_reply c)
  unfolding parse_reply
  EatsOn-parse_reply = EatsOn-gets _ λ t. EatsOn-first_suc refl λ u.
      search (keeps_rules, good.expression, Keeps-content_type, Keeps-parse_as, Keeps-extra_headers)
        depth 16

  pub EatsOn-parse_fail : EatsOn (At TokenKind.fail) (suc n) (parse_fail c)
  unfolding parse_fail
  EatsOn-parse_fail =
      EatsOn-gets _ λ t. EatsOn-first_suc refl λ u. search (keeps_rules, good.expression) depth 10
