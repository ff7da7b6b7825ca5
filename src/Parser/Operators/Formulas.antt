-- ===== src/Parser/Operators/Formulas.antt =====
-- src/parser.rs: every formula is read, by induction.
use marreta_lang.Base.{
  ℕ, suc, ◌-◌, ◌≤◌, ◌<◌, ◌≡◌, refl, Bool, true, false, not, List, [], ◌∷◌, ◌++◌, length,
  length-append, arith, lt→ltb,
}
use marreta_lang.Base.Results.{ok}
use marreta_lang.Text.{Text, text_eq}
use marreta_lang.Token.Kind.{TokenKind, Token, token}
use marreta_lang.Syntax.{Expression}
use marreta_lang.Syntax.Types.{BinaryOperator, UnaryOperator}
use marreta_lang.Parser.State.{Parser, is_eof, same_kind, discriminant}
use marreta_lang.Parser.Action.{◌>>=◌, pure, gets, advance, expect, expect_name}
use marreta_lang.Parser.Calls.{Calls}
use marreta_lang.Parser.Expressions.{
  current_infix_precedence, token_to_binop, parse_prefix, prefix_at, parse_identifier, infix_round,
  binds, parse_infix, infix_at, parse_member, parse_subscript,
}
use marreta_lang.Parser.Statements.{calls_on}
use marreta_lang.Parser.Operators.{
  Formula, number, text, truth, name, unary, binary, member, element, expression_of, level_of,
  operator_kind, unary_kind, truth_kind, bare, print,
}
use marreta_lang.Parser.Operators.Reading.{
  at, quiet, Calm, quiet-paren, quiet-brace, not_both, written, Reads, Start-round,
}
use marreta_lang.Parser.Operators.Operands.{
  level_of_pos, written-append, Start-whole, Operand-Start, length-print_pos, read_operand,
  read_bare,
}

module _ (line column : ℕ) (spell : TokenKind → Text) where
  abbrev tok : TokenKind → Token
  tok kind = token kind line column (spell kind)

  abbrev wr : List TokenKind → List Token
  wr = written line column spell

  name-prefix :
      (c : Calls) (x : Text) (t : Token) (ts : List Token) (s : Parser)
      → quiet t.kind ≡ true
      → parse_prefix c (at s (tok (TokenKind.identifier x) ∷ t ∷ ts))
        ≡ ok (Expression.identifier x, at s (t ∷ ts))
  unfolding parse_prefix prefix_at parse_identifier ◌>>=◌ gets advance pure
  name-prefix c x t ts s still =
      rw (quiet-brace t.kind still, quiet-paren t.kind still, not_both (not (is_eof t.kind))) refl

  name-Reads : (x : Text) → Reads line column spell (name x)
  unfolding bare
  name-Reads x fuel min [] s h low calm = absurd calm
  name-Reads x fuel min (t ∷ ts) s h low (calm, still) =
      Start-whole line column spell fuel min (name x) _ (t ∷ ts) s
        (name-prefix (calls_on fuel) x t ts s still)

  unary-prefix :
      (fuel : ℕ) (u : UnaryOperator) (e : Expression) (inner rest : List Token) (s : Parser)
      → (calls_on fuel).expression 8 (at s inner) ≡ ok (e, at s rest)
      → parse_prefix (calls_on fuel) (at s (tok (unary_kind u) ∷ inner))
        ≡ ok (Expression.unary_op u e, at s rest)
  unfolding parse_prefix prefix_at ◌>>=◌ gets advance pure
  unary-prefix fuel UnaryOperator.negate e inner rest s read = rw read refl
  unary-prefix fuel UnaryOperator.not e inner rest s read = rw read refl

  truth-prefix :
      (c : Calls) (b : Bool) (rest : List Token) (s : Parser)
      → parse_prefix c (at s (tok (truth_kind b) ∷ rest)) ≡ ok (Expression.boolean b, at s rest)
  unfolding parse_prefix prefix_at ◌>>=◌ gets advance pure
  truth-prefix c true rest s = refl
  truth-prefix c false rest s = refl

  operator-round :
      (c : Calls) (o : BinaryOperator) (e d : Expression) (inner rest : List Token) (s : Parser)
      → c.expression (level_of o) (at s inner) ≡ ok (d, at s rest)
      → infix_round c e (at s (tok (operator_kind o) ∷ inner))
        ≡ ok (Expression.binary_op e o d, at s rest)
  unfolding parse_infix infix_at token_to_binop ◌>>=◌ gets advance pure current_infix_precedence
      text_eq
  operator-round c BinaryOperator.or e d inner rest s read = rw read refl
  operator-round c _ e d inner rest s read = rw read refl

  operator-Calm :
      (o : BinaryOperator) (ts : List Token) → Calm (level_of o) (tok (operator_kind o) ∷ ts)
  unfolding text_eq
  operator-Calm BinaryOperator.or ts = (omega arith, refl)
  operator-Calm _ ts = (omega arith, refl)

  operator-binds :
      (o : BinaryOperator) (m : ℕ) (e : Expression) (inner : List Token) (s : Parser)
      → m < level_of o
      → binds m e (at s (tok (operator_kind o) ∷ inner)) ≡ true
  unfolding current_infix_precedence text_eq
  operator-binds BinaryOperator.or m e inner s low = lt→ltb m 1 low
  operator-binds _ m e inner s low = lt→ltb m _ low

  member-round :
      (c : Calls) (e : Expression) (x : Text) (t : Token) (ts : List Token) (s : Parser)
      → quiet t.kind ≡ true
      → infix_round c e (at s (tok TokenKind.dot ∷ tok (TokenKind.identifier x) ∷ t ∷ ts))
        ≡ ok (Expression.property_access e x, at s (t ∷ ts))
  unfolding parse_infix infix_at parse_member expect_name ◌>>=◌ gets advance pure
      current_infix_precedence
  member-round c e x t ts s still =
      rw (quiet-paren t.kind still, not_both (not (is_eof t.kind))) refl

  element-round :
      (c : Calls) (e k : Expression) (inner rest : List Token) (s : Parser)
      → c.expression 0 (at s inner) ≡ ok (k, at s (tok TokenKind.right_bracket ∷ rest))
      → infix_round c e (at s (tok TokenKind.left_bracket ∷ inner))
        ≡ ok (Expression.subscript e k, at s rest)
  unfolding parse_infix infix_at parse_subscript expect ◌>>=◌ gets advance pure
      current_infix_precedence same_kind discriminant
  element-round c e k inner rest s read = rw read refl

  binary-Reads :
      (f : Formula) (o : BinaryOperator) (g : Formula)
      → Reads line column spell f
      → Reads line column spell g
      → Reads line column spell (binary f o g)
  unfolding bare
  binary-Reads f o g reads_f reads_g fuel min rest s h low calm =
      let p = level_of o in
      let middle = tok (operator_kind o) ∷ wr (print p g) ++ rest in
      let total = length-append (print (p - 1) f) (operator_kind o ∷ print p g) in
      let one : suc (p - 1) ≡ p = omega (arith, level_of_pos o) in
      let start =
        Operand-Start line column spell f reads_f fuel (p - 1) middle s (omega arith)
          (rw one (operator-Calm o (wr (print p g) ++ rest))) in
      let right =
        read_operand line column spell g reads_g fuel p rest s
          (omega (arith, length-print_pos line column spell (p - 1) f)) calm in
      rw (written-append line column spell (print (p - 1) f) (operator_kind o ∷ print p g) rest) (
        Start-round line column spell fuel min (p - 1) f (binary f o g) _ middle rest s start
          (omega arith) (λ m le. operator-binds o m (expression_of f) _ s (omega arith))
          (operator-round (calls_on fuel) o (expression_of f) (expression_of g) _ rest s right)
          (omega (arith, length-append (wr (print p g)) rest)))

  member-Reads :
      (f : Formula) (x : Text) → Reads line column spell f → Reads line column spell (member f x)
  unfolding bare current_infix_precedence
  member-Reads f x reads fuel min [] s h low calm = absurd calm
  member-Reads f x reads fuel min (t ∷ ts) s h low (calm, still) =
      let kinds = TokenKind.dot ∷ TokenKind.identifier x ∷ [] in
      let middle = tok TokenKind.dot ∷ tok (TokenKind.identifier x) ∷ t ∷ ts in
      let total = length-append (print 8 f) kinds in
      let start =
        Operand-Start line column spell f reads fuel 8 middle s (omega arith) (omega arith, refl) in
      rw (written-append line column spell (print 8 f) kinds (t ∷ ts)) (
        Start-round line column spell fuel min 8 f (member f x) _ middle (t ∷ ts) s start
          (omega arith) (λ m le. lt→ltb m 9 (omega arith))
          (member-round (calls_on fuel) (expression_of f) x t ts s still) (omega arith))

  element-Reads :
      (f g : Formula)
      → Reads line column spell f
      → Reads line column spell g
      → Reads line column spell (element f g)
  unfolding bare current_infix_precedence
  element-Reads f g reads_f reads_g fuel min rest s h low calm =
      let closing = TokenKind.right_bracket ∷ [] in
      let closed = tok TokenKind.right_bracket ∷ rest in
      let kinds = TokenKind.left_bracket ∷ bare g ++ closing in
      let middle = tok TokenKind.left_bracket ∷ wr (bare g) ++ closed in
      let total = length-append (print 8 f) kinds in
      let inside = length-append (bare g) closing in
      let fits : length (print 8 f ++ kinds) ≤ suc fuel = h in
      let start =
        Operand-Start line column spell f reads_f fuel 8 middle s (omega arith)
          (omega arith, refl) in
      let key =
        read_bare line column spell g reads_g fuel closed s
          (omega (arith, length-print_pos line column spell 8 f)) (omega arith, refl) in
      rw
        (
          written-append line column spell (print 8 f) kinds rest,
          written-append line column spell (bare g) closing rest,
        )
        (Start-round line column spell fuel min 8 f (element f g) _ middle rest s start
          (omega arith) (λ m le. lt→ltb m 9 (omega arith))
          (element-round (calls_on fuel) (expression_of f) (expression_of g) _ rest s key)
          (omega (arith, length-append (wr (bare g)) closed)))

  Reads-all : (f : Formula) → Reads line column spell f
  unfolding bare parse_prefix prefix_at ◌>>=◌ gets advance pure
  Reads-all (number n) fuel min rest s h low calm =
      Start-whole line column spell fuel min (number n) _ rest s refl
  Reads-all (text x) fuel min rest s h low calm =
      Start-whole line column spell fuel min (text x) _ rest s refl
  Reads-all (truth b) fuel min rest s h low calm =
      Start-whole line column spell fuel min (truth b) _ rest s
        (truth-prefix (calls_on fuel) b rest s)
  Reads-all (name x) fuel min rest s h low calm = name-Reads x fuel min rest s h low calm
  Reads-all (unary u f) fuel min rest s h low calm =
      let operand =
        read_operand line column spell f (Reads-all f) fuel 8 rest s (omega arith) calm in
      Start-whole line column spell fuel min (unary u f) _ rest s
        (unary-prefix fuel u (expression_of f) _ rest s operand)
  Reads-all (binary f o g) fuel min rest s h low calm =
      binary-Reads f o g (Reads-all f) (Reads-all g) fuel min rest s h low calm
  Reads-all (member f x) fuel min rest s h low calm =
      member-Reads f x (Reads-all f) fuel min rest s h low calm
  Reads-all (element f g) fuel min rest s h low calm =
      element-Reads f g (Reads-all f) (Reads-all g) fuel min rest s h low calm

  -- A formula of names, integers, strings, truth values, prefix and infix operators, members and
  -- elements that is written with parentheses only where the levels of its operators in the code
  -- ask for them, `not` as close as the unary minus, with at least as much fuel as it has tokens
  -- and in front of a token that does not go on with an operand, is read as its expression, and the
  -- tokens behind it are left.
  pub expression-print :
      (fuel min : ℕ) (f : Formula) (rest : List Token) (s : Parser)
      → length (print min f) ≤ fuel
      → Calm min rest
      → (calls_on fuel).expression min (at s (written line column spell (print min f) ++ rest))
        ≡ ok (expression_of f, at s rest)
  expression-print fuel min f rest s h calm =
      read_operand line column spell f (Reads-all f) fuel min rest s h calm
