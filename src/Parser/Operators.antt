-- ===== src/Parser/Operators.antt =====
-- src/parser.rs: the precedence of operators: formulas, how they are written with as few parentheses
-- as their levels allow, and the expressions that they stand for.
pub mod Reading
pub mod Operands
pub mod Formulas
use marreta_lang.Base.{
  ℕ, zero, suc, ◌+◌, ◌-◌, ◌≤◌, ◌<◌, ltb, Bool, true, false, List, [], ◌∷◌, ◌++◌, map, if◌then◌else◌,
}
use marreta_lang.Text.{Text, codes}
use marreta_lang.Token.Kind.{TokenKind, Token, token}
use marreta_lang.Syntax.{Expression}
use marreta_lang.Syntax.Types.{BinaryOperator, UnaryOperator}
use marreta_lang.Parser.Calls.{
  prec_or, prec_and, prec_equality, prec_comparison, prec_addition, prec_multiplication, prec_unary,
  prec_call,
}

pub data Formula : Type 0 where
  number : ℕ → Formula
  text : Text → Formula
  truth : Bool → Formula
  name : Text → Formula
  unary : UnaryOperator → Formula → Formula
  binary : Formula → BinaryOperator → Formula → Formula
  member : Formula → Text → Formula
  element : Formula → Formula → Formula

abbrev pub expression_of : Formula → Expression
expression_of (number n) = Expression.integer n
expression_of (text s) = Expression.string_literal s
expression_of (truth b) = Expression.boolean b
expression_of (name x) = Expression.identifier x
expression_of (unary u f) = Expression.unary_op u (expression_of f)
expression_of (binary f o g) = Expression.binary_op (expression_of f) o (expression_of g)
expression_of (member f x) = Expression.property_access (expression_of f) x
expression_of (element f g) = Expression.subscript (expression_of f) (expression_of g)

-- The levels of the infix operators: `or` binds loosest, then `and`, the equalities, the comparisons
-- with `in`, the sums, and the products. They are those of docs/spec/001_CORE.md, which has no `in`.
abbrev pub level_of : BinaryOperator → ℕ
level_of BinaryOperator.or = 1
level_of BinaryOperator.and = 2
level_of BinaryOperator.equal = 4
level_of BinaryOperator.not_equal = 4
level_of BinaryOperator.greater = 5
level_of BinaryOperator.less = 5
level_of BinaryOperator.greater_equal = 5
level_of BinaryOperator.less_equal = 5
level_of BinaryOperator.contained_in = 5
level_of BinaryOperator.add = 6
level_of BinaryOperator.subtract = 6
level_of BinaryOperator.multiply = 7
level_of BinaryOperator.divide = 7
level_of BinaryOperator.modulo = 7

-- Unary operators bind closer than all those, and `.` and `[` closest. That `not` does is what the
-- code gives it; docs/spec/001_CORE.md puts it between `and` and the equalities.
abbrev pub level : Formula → ℕ
level (unary u f) = 8
level (binary f o g) = level_of o
level (member f x) = 9
level (element f g) = 9
level _ = 10

abbrev pub operator_kind : BinaryOperator → TokenKind
operator_kind BinaryOperator.or = TokenKind.or
operator_kind BinaryOperator.and = TokenKind.and
operator_kind BinaryOperator.equal = TokenKind.equal
operator_kind BinaryOperator.not_equal = TokenKind.not_equal
operator_kind BinaryOperator.greater = TokenKind.greater
operator_kind BinaryOperator.less = TokenKind.less
operator_kind BinaryOperator.greater_equal = TokenKind.greater_equal
operator_kind BinaryOperator.less_equal = TokenKind.less_equal
operator_kind BinaryOperator.contained_in = TokenKind.identifier (codes "in")
operator_kind BinaryOperator.add = TokenKind.plus
operator_kind BinaryOperator.subtract = TokenKind.minus
operator_kind BinaryOperator.multiply = TokenKind.star
operator_kind BinaryOperator.divide = TokenKind.slash
operator_kind BinaryOperator.modulo = TokenKind.percent

abbrev pub unary_kind : UnaryOperator → TokenKind
unary_kind UnaryOperator.negate = TokenKind.minus
unary_kind UnaryOperator.not = TokenKind.not

abbrev pub truth_kind : Bool → TokenKind
truth_kind true = TokenKind.true
truth_kind false = TokenKind.false

-- The kinds of the tokens between parentheses, unless the formula binds closer than `min`.
abbrev pub within_parens : ℕ → ℕ → List TokenKind → List TokenKind
within_parens min level kinds =
    if ltb min level then kinds else TokenKind.left_paren ∷ kinds ++ TokenKind.right_paren ∷ []

-- The kinds of the tokens of a formula. An operator of a level groups to the left.
unfoldable pub bare : Formula → List TokenKind
bare (number n) = TokenKind.integer n ∷ []
bare (text s) = TokenKind.string_literal s ∷ []
bare (truth b) = truth_kind b ∷ []
bare (name x) = TokenKind.identifier x ∷ []
bare (unary u f) = unary_kind u ∷ within_parens 8 (level f) (bare f)
bare (binary f o g) =
    within_parens (level_of o - 1) (level f) (bare f)
    ++ operator_kind o ∷ within_parens (level_of o) (level g) (bare g)
bare (member f x) =
    within_parens 8 (level f) (bare f) ++ TokenKind.dot ∷ TokenKind.identifier x ∷ []
bare (element f g) =
    within_parens 8 (level f) (bare f)
    ++ (TokenKind.left_bracket ∷ (bare g ++ (TokenKind.right_bracket ∷ [])))

-- The formula where an operand of more than `min` is wanted.
abbrev pub print : ℕ → Formula → List TokenKind
print min f = within_parens min (level f) (bare f)
