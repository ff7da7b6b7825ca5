-- ===== src/Parser/Calls.antt =====
-- src/parser.rs: the methods of the parser that are called recursively, as arguments of the others,
-- and the precedences.
use marreta_lang.Base.{ℕ}
use marreta_lang.Syntax.{Expression, Statement}
use marreta_lang.Parser.Action.{Parse}

-- `parse_expression`, `parse_statement` and `parse_if_expression`.
pub record Calls : Type 0 where
  pub expression : ℕ → Parse Expression
  pub statement : Parse Statement
  pub if_expression : Parse Expression

abbrev pub prec_none : ℕ
prec_none = 0

abbrev pub prec_or : ℕ
prec_or = 1

abbrev pub prec_and : ℕ
prec_and = 2

abbrev pub prec_equality : ℕ
prec_equality = 4

abbrev pub prec_comparison : ℕ
prec_comparison = 5

abbrev pub prec_addition : ℕ
prec_addition = 6

abbrev pub prec_multiplication : ℕ
prec_multiplication = 7

abbrev pub prec_unary : ℕ
prec_unary = 8

abbrev pub prec_call : ℕ
prec_call = 9
