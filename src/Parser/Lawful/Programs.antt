-- ===== src/Parser/Lawful/Programs.antt =====
-- src/parser.rs: the statements of a program that parses are lawful.
use marreta_lang.Base.{
  ℕ, zero, suc, ◌*◌, ◌≡◌, refl, true, List, [], ◌∷◌, ◌++◌, all, and_true, and-eq_true, length,
}
use marreta_lang.Base.Results.{ok-injective, ok, err, panic, timeout}
use marreta_lang.Text.{Text}
use marreta_lang.Token.Kind.{TokenKind, Token}
use marreta_lang.Syntax.{Statement}
use marreta_lang.Parser.State.{new}
use marreta_lang.Parser.Action.{Parse, Outcome, collect}
use marreta_lang.Parser.Calls.{Calls}
use marreta_lang.Parser.Blocks.{block_item}
use marreta_lang.Parser.Simple.{parse_assignment}
use marreta_lang.Parser.Statements.{
  exported, export_at, parse_export, word_statement, other_statement, statement_at, parse_statement,
  calls_on, parse_from, parse, value_of,
}
use marreta_lang.Parser.Lawful.{
  lawful, Yields, Gives, Gives-pure, Gives-then, Gives-bind, Gives-while_loop,
}
use marreta_lang.Parser.Lawful.Types.{Gives-parse_schema}
use marreta_lang.Parser.Lawful.Handlers.{
  Lawful, Exportable, gives_rules, Gives-nack, Yields-Lawful, Gives-assignment, Gives-task_def,
  Gives-require, Gives-reject, Gives-while, Gives-transaction, Gives-raise, Gives-reply, Gives-fail,
  Gives-scenario, Gives-auth_provider, Gives-route, Gives-expression_statement, Gives-on,
}

module _ (c : Calls) where
  Gives-exported : {p : Parse Statement} → Gives Exportable p → Gives Lawful (exported p)
  unfolding lawful
  Gives-exported gives = Gives-bind gives λ inner h. Gives-pure _ h

  Gives-Lawful : {p : Parse Statement} → Gives Exportable p → Gives Lawful p
  Gives-Lawful {p} gives = record { run = λ s. Yields-Lawful (p s) (gives.run s) }

  plain_assignment-Lawful : Gives Lawful (parse_assignment c)
  plain_assignment-Lawful = Gives-Lawful (Gives-assignment c)

  Gives-export_at : (t : Token) (kind : TokenKind) → Gives Lawful (export_at c t kind)
  unfolding export_at
  Gives-export_at t TokenKind.task = Gives-exported (Gives-task_def c)
  Gives-export_at t TokenKind.schema = Gives-exported Gives-parse_schema
  Gives-export_at t TokenKind.route =
      search (gives_rules, Gives-exported, Gives-assignment c) depth 20
  Gives-export_at t kind = search (gives_rules, Gives-exported, Gives-assignment c) depth 20

  Gives-export : Gives Lawful (parse_export c)
  unfolding parse_export
  Gives-export = search (gives_rules, Gives-export_at) depth 20

  Gives-word_statement : (name : Text) → Gives Lawful (word_statement c name)
  unfolding word_statement
  Gives-word_statement name =
      search
        (
          gives_rules,
          Gives-auth_provider c,
          Gives-scenario c,
          plain_assignment-Lawful,
          Gives-expression_statement c,
        )
        depth 20

  Gives-other_statement : Gives Lawful (other_statement c)
  unfolding other_statement
  Gives-other_statement =
      search (gives_rules, plain_assignment-Lawful, Gives-expression_statement c) depth 20

  Gives-statement_at : (kind : TokenKind) → Gives Lawful (statement_at c kind)
  unfolding statement_at
  Gives-statement_at TokenKind.require = Gives-require c
  Gives-statement_at TokenKind.reject = Gives-reject c
  Gives-statement_at TokenKind.while = Gives-while c
  Gives-statement_at TokenKind.task = Gives-Lawful (Gives-task_def c)
  Gives-statement_at TokenKind.route = Gives-route c
  Gives-statement_at TokenKind.schema = Gives-Lawful Gives-parse_schema
  Gives-statement_at TokenKind.reply = Gives-reply c
  Gives-statement_at TokenKind.fail = Gives-fail c
  Gives-statement_at TokenKind.export = Gives-export
  Gives-statement_at TokenKind.transaction = Gives-transaction c
  Gives-statement_at TokenKind.raise = Gives-raise c
  Gives-statement_at TokenKind.on = Gives-on c
  Gives-statement_at TokenKind.nack = Gives-nack
  Gives-statement_at (TokenKind.identifier name) = Gives-word_statement name
  Gives-statement_at _ = Gives-other_statement

  Gives-statement : Gives Lawful (parse_statement c)
  unfolding parse_statement
  Gives-statement = Gives-then _ Gives-statement_at

calls_on-Lawful : (fuel : ℕ) → Gives Lawful (calls_on fuel).statement
unfolding calls_on
calls_on-Lawful zero = record { run = λ s. tt }
calls_on-Lawful (suc fuel) = Gives-statement (calls_on fuel)

all-lawful-snoc :
    (ss : List Statement) (s : Statement)
    → all lawful ss ≡ true
    → Lawful s
    → all lawful (ss ++ s ∷ []) ≡ true
all-lawful-snoc [] s h k = rw k refl
all-lawful-snoc (r ∷ ss) s h k =
    let (one, rest) = and-eq_true (lawful r) (all lawful ss) h in
    and_true one (all-lawful-snoc ss s rest k)

Gives-item : (c : Calls) → Gives Lawful c.statement → Gives Lawful (block_item c)
Gives-item c gives = Gives-bind gives λ s h. Gives-then _ λ u. Gives-pure _ h

Gives-parse_from :
    (c : Calls) → Gives Lawful c.statement → Gives (λ ss. all lawful ss ≡ true) (parse_from c)
unfolding collect
Gives-parse_from c gives = Gives-then _ λ u.
    Gives-while_loop _
      (λ ss h. Gives-bind (Gives-item c gives) λ s k. Gives-pure _ (all-lawful-snoc ss s h k)) []
      refl

value_of-lawful :
    (r : Outcome (List Statement)) {ss : List Statement}
    → Yields (λ us. all lawful us ≡ true) r
    → value_of r ≡ ok ss
    → all lawful ss ≡ true
value_of-lawful timeout h parsed = absurd (cc)
value_of-lawful panic h parsed = absurd (cc)
value_of-lawful (err e) h parsed = absurd (cc)
value_of-lawful (ok (us, s)) h parsed = rw (ok-injective us _ parsed) at h

-- Every top-level statement of a program that parses is lawful: an inline enum has values, none
-- empty or twice; a scenario has exactly one `when` and at least one `then`; what is exported is an
-- assignment, a task or a schema; and the literal topic of an `on topic` has no wildcard.
pub parse-lawful :
    (tokens : List Token) {statements : List Statement}
    → parse tokens ≡ ok statements
    → all lawful statements ≡ true
unfolding parse
parse-lawful tokens parsed =
    let c = calls_on (2 * suc (length tokens)) in
    value_of-lawful (parse_from c (new tokens))
      ((Gives-parse_from c (calls_on-Lawful (2 * suc (length tokens)))).run (new tokens)) parsed
