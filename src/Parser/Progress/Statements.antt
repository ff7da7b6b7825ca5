-- ===== src/Parser/Progress/Statements.antt =====
-- src/parser.rs: a statement takes a token, and the fuel of the recursive calls suffices.
use marreta_lang.Base.{ℕ, zero, suc, ◌*◌, ◌≤◌, arith}
use marreta_lang.Text.{Text}
use marreta_lang.Token.Kind.{TokenKind}
use marreta_lang.Parser.Action.{Parse}
use marreta_lang.Parser.Calls.{Calls}
use marreta_lang.Parser.Blocks.{parse_if_expression}
use marreta_lang.Parser.Statements.{
  expression_statement, word_statement, other_statement, statement_at, parse_statement, calls_on,
}
use marreta_lang.Parser.Progress.{
  Eats, EatsOn, Keeps-pure, Eats-if, Eats-bind, Eats-bind_suc, Eats-bind_rest, Eats→EatsOn,
  EatsOn-gets, EatsOn-if, Eats-throw,
}
use marreta_lang.Parser.Progress.Actions.{At, Eats-kind, Eats-gets, Keeps-advance}
use marreta_lang.Parser.Progress.Blocks.{Good, Keeps-if_rest}
use marreta_lang.Parser.Progress.Expressions.{Eats-parse_expression}
use marreta_lang.Parser.Progress.Simple.{
  EatsOn-parse_nack, Eats-parse_assignment, EatsOn-parse_require, EatsOn-parse_reject,
  EatsOn-parse_while, EatsOn-parse_transaction, EatsOn-parse_raise, EatsOn-parse_reply,
  EatsOn-parse_fail,
}
use marreta_lang.Parser.Progress.Scenario.{EatsOn-parse_scenario}
use marreta_lang.Parser.Progress.Schema.{EatsOn-parse_schema, EatsOn-parse_auth_provider}
use marreta_lang.Parser.Progress.Route.{EatsOn-parse_route, EatsOn-parse_on}
use marreta_lang.Parser.Progress.Exports.{EatsOn-task_def, EatsOn-parse_export}

module _ {n : ℕ} {c : Calls} (good : Good n c)
    (first : (p : ℕ) → Eats (suc n) (c.expression p)) where
  Eats-expression_statement : Eats (suc n) (expression_statement c)
  Eats-expression_statement = Eats-gets _ λ t. Eats-bind (first 0) λ e. Keeps-pure _

  word_statement-EatsOn :
      (name : Text) → EatsOn (At (TokenKind.identifier name)) (suc n) (word_statement c name)
  unfolding word_statement
  word_statement-EatsOn name = EatsOn-gets _ λ scheme. EatsOn-gets _ λ titled.
      EatsOn-gets _ λ assigns. EatsOn-if _ (EatsOn-parse_auth_provider good name) (
        EatsOn-if _ (EatsOn-parse_scenario good name) (
          EatsOn-if _ (Eats→EatsOn (Eats-parse_assignment good))
            (Eats→EatsOn Eats-expression_statement)))

  Eats-other_statement : Eats (suc n) (other_statement c)
  unfolding other_statement
  Eats-other_statement = Eats-gets _ λ reserved. Eats-gets _ λ assigns. Eats-gets _ λ indented.
      Eats-if _ (Eats-parse_assignment good)
        (Eats-if _ (Eats-gets _ λ t. Eats-throw _) Eats-expression_statement)

  statement_at-EatsOn : (kind : TokenKind) → EatsOn (At kind) (suc n) (statement_at c kind)
  unfolding statement_at
  statement_at-EatsOn TokenKind.require = EatsOn-parse_require good
  statement_at-EatsOn TokenKind.reject = EatsOn-parse_reject good
  statement_at-EatsOn TokenKind.while = EatsOn-parse_while good
  statement_at-EatsOn TokenKind.task = EatsOn-task_def good
  statement_at-EatsOn TokenKind.route = EatsOn-parse_route good
  statement_at-EatsOn TokenKind.schema = EatsOn-parse_schema
  statement_at-EatsOn TokenKind.reply = EatsOn-parse_reply good
  statement_at-EatsOn TokenKind.fail = EatsOn-parse_fail good
  statement_at-EatsOn TokenKind.export = EatsOn-parse_export good
  statement_at-EatsOn TokenKind.transaction = EatsOn-parse_transaction good
  statement_at-EatsOn TokenKind.raise = EatsOn-parse_raise good
  statement_at-EatsOn TokenKind.on = EatsOn-parse_on good
  statement_at-EatsOn TokenKind.nack = EatsOn-parse_nack
  statement_at-EatsOn (TokenKind.identifier name) = word_statement-EatsOn name
  statement_at-EatsOn _ = Eats→EatsOn Eats-other_statement

  Eats-parse_statement : Eats (suc n) (parse_statement c)
  unfolding parse_statement
  Eats-parse_statement = Eats-kind statement_at-EatsOn

  Eats-parse_if : Eats (suc n) (parse_if_expression c)
  unfolding parse_if_expression
  Eats-parse_if =
      Eats-bind_rest Keeps-advance λ u. Eats-bind_suc (first 0) λ e. Keeps-if_rest good e

Eats-zero : {A : Type 0} {p : Parse A} → Eats 0 p
Eats-zero = record { run = λ s ready h. absurd (omega arith) }

-- The fuel that a call needs from fewer than `n` tokens.
mutual
  unfolding calls_on

  expression-Eats :
      (fuel n : ℕ) → 2 * n ≤ suc fuel → (prec : ℕ) → Eats n ((calls_on fuel).expression prec)
  expression-Eats fuel zero h prec = Eats-zero
  expression-Eats zero (suc n) h prec = absurd (omega arith)
  expression-Eats (suc fuel) (suc n) h prec =
      Eats-parse_expression (calls-Good fuel n (omega arith)) prec

  calls-Good : (fuel n : ℕ) → 2 * n ≤ fuel → Good n (calls_on fuel)
  calls-Good fuel zero h = record {
    expression = λ prec. Eats-zero;
    statement = Eats-zero;
    if_expression = Eats-zero;
  }
  calls-Good zero (suc n) h = absurd (omega arith)
  calls-Good (suc fuel) (suc n) h =
      let good = calls-Good fuel n (omega arith) in
      let rest = expression-Eats fuel (suc n) (omega arith) in
      record {
        expression = Eats-parse_expression good;
        statement = Eats-parse_statement good rest;
        if_expression = Eats-parse_if good rest;
      }

-- With at least two units of fuel for every token that the bound n allows, each call of
-- parse_expression, parse_statement or parse_if_expression on fewer than n tokens that end in Eof
-- ends without a panic and, if it returns, has taken a token at least and left tokens that end in
-- Eof.
pub calls_on-Good : (fuel n : ℕ) → 2 * n ≤ fuel → Good n (calls_on fuel)
calls_on-Good = calls-Good
