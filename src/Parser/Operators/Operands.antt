-- ===== src/Parser/Operators/Operands.antt =====
-- src/parser.rs: operands are read, in parentheses or without, if their formulas are.
use marreta_lang.Base.{
  ℕ, zero, suc, ◌+◌, ◌≤◌, ◌<◌, ◌≡◌, refl, ap, ltb, List, [], ◌∷◌, ◌++◌, length, length-append,
  arith, Bool-cases, inl, inr, ltb→lt, lt→ltb,
}
use marreta_lang.Base.Results.{ok}
use marreta_lang.Text.{Text}
use marreta_lang.Token.Kind.{TokenKind, Token, token}
use marreta_lang.Syntax.{Expression}
use marreta_lang.Syntax.Types.{BinaryOperator}
use marreta_lang.Parser.State.{Parser, same_kind, discriminant}
use marreta_lang.Parser.Action.{◌>>=◌, pure, gets, advance, expect}
use marreta_lang.Parser.Expressions.{parse_prefix, prefix_at}
use marreta_lang.Parser.Statements.{calls_on}
use marreta_lang.Parser.Operators.{
  Formula, unary, binary, member, element, expression_of, level_of, level, bare, print,
}
use marreta_lang.Parser.Operators.Reading.{at, Calm, written, Start, Reads, Start-expression}

pub level_of_pos : (o : BinaryOperator) → 0 < level_of o
level_of_pos BinaryOperator.or = omega arith
level_of_pos _ = omega arith

pub level_pos : (f : Formula) → 0 < level f
level_pos (binary f o g) = level_of_pos o
level_pos (unary u f) = omega arith
level_pos (member f x) = omega arith
level_pos _ = omega arith

pub length-bare_pos : (f : Formula) → 0 < length (bare f)
unfolding bare
length-bare_pos (binary f o g) = omega (arith, length-append {A = TokenKind} _ _)
length-bare_pos (member f x) = omega (arith, length-append {A = TokenKind} _ _)
length-bare_pos (element f g) = omega (arith, length-append {A = TokenKind} _ _)
length-bare_pos _ = omega arith

pub Calm-mono : (m n : ℕ) (rest : List Token) → m ≤ n → Calm m rest → Calm n rest
Calm-mono m n [] le calm = absurd calm
Calm-mono m n (t ∷ ts) le (low, still) = (omega arith, still)

module _ (line column : ℕ) (spell : TokenKind → Text) where
  abbrev tok : TokenKind → Token
  tok kind = token kind line column (spell kind)

  abbrev wr : List TokenKind → List Token
  wr = written line column spell

  pub written-append :
      (xs ys : List TokenKind) (rest : List Token)
      → wr (xs ++ ys) ++ rest ≡ wr xs ++ (wr ys ++ rest)
  written-append [] ys rest = refl
  written-append (x ∷ xs) ys rest = ap (λ ts. tok x ∷ ts) (written-append xs ys rest)

  -- The prefix is the whole formula.
  pub Start-whole :
      (fuel min : ℕ) (f : Formula) (tokens rest : List Token) (s : Parser)
      → parse_prefix (calls_on fuel) (at s tokens) ≡ ok (expression_of f, at s rest)
      → Start line column spell fuel min f tokens rest s
  Start-whole fuel min f tokens rest s prefix = record {
    first = expression_of f;
    left = rest;
    rounds = 0;
    prefix = prefix;
    loops = λ m n low. let none : 0 + n ≡ n = omega arith in rw none refl;
    short = omega arith;
  }

  grouped-prefix :
      (fuel : ℕ) (e : Expression) (inner : List Token) (rest : List Token) (s : Parser)
      → (calls_on fuel).expression 0 (at s inner) ≡ ok (e, at s (tok TokenKind.right_paren ∷ rest))
      → parse_prefix (calls_on fuel) (at s (tok TokenKind.left_paren ∷ inner)) ≡ ok (e, at s rest)
  unfolding parse_prefix prefix_at ◌>>=◌ gets advance pure expect same_kind discriminant
  grouped-prefix fuel e inner rest s read = rw read refl

  Paren-Start :
      (f : Formula)
      → Reads line column spell f
      → (fuel min : ℕ) (rest : List Token) (s : Parser) → length (bare f) ≤ fuel
      → Start line column spell fuel min f
          (wr (TokenKind.left_paren ∷ bare f ++ TokenKind.right_paren ∷ []) ++ rest)
          rest
          s
  unfolding calls_on
  Paren-Start f reads zero min rest s h = absurd (omega (arith, length-bare_pos f))
  Paren-Start f reads (suc fuel) min rest s h =
      let closed = tok TokenKind.right_paren ∷ rest in
      let start = reads fuel 0 closed s h (level_pos f) (omega arith, refl) in
      let inner =
        Start-expression line column spell fuel 0 f _ closed s start (omega arith, refl) in
      Start-whole (suc fuel) min f _ rest s (
        grouped-prefix (suc fuel) (expression_of f) _ rest s
          (rw (written-append (bare f) (TokenKind.right_paren ∷ []) rest) inner))

  -- A formula where an operand of more than `min` is wanted.
  pub Operand-Start :
      (f : Formula)
      → Reads line column spell f
      → (fuel min : ℕ) (rest : List Token) (s : Parser) → length (print min f) ≤ suc fuel
      → Calm (suc min) rest
      → Start line column spell fuel min f (wr (print min f) ++ rest) rest s
  Operand-Start f reads fuel min rest s h calm = elim (Bool-cases (ltb min (level f))) [
    | inl e ↦
        let low = ltb→lt min (level f) e in
        rw e (
          reads fuel min rest s (rw e at h) low
            (Calm-mono (suc min) (level f) rest (omega arith) calm))
    | inr e ↦
        let shorter : length (bare f) ≤ fuel =
          (let g = rw e at h in
            omega (arith, length-append (bare f) (TokenKind.right_paren ∷ []))) in
        rw e (Paren-Start f reads fuel min rest s shorter)
  ]

  pub length-print_pos : (min : ℕ) (f : Formula) → 0 < length (print min f)
  length-print_pos min f = elim (Bool-cases (ltb min (level f))) [
    | inl e ↦ rw e (length-bare_pos f)
    | inr e ↦ rw e (omega arith)
  ]

  pub read_operand :
      (f : Formula)
      → Reads line column spell f
      → (fuel min : ℕ) (rest : List Token) (s : Parser) → length (print min f) ≤ fuel
      → Calm min rest
      → (calls_on fuel).expression min (at s (wr (print min f) ++ rest))
        ≡ ok (expression_of f, at s rest)
  unfolding calls_on
  read_operand f reads zero min rest s h calm = absurd (omega (arith, length-print_pos min f))
  read_operand f reads (suc fuel) min rest s h calm =
      Start-expression line column spell fuel min f _ rest s
        (Operand-Start f reads fuel min rest s h (Calm-mono min (suc min) rest (omega arith) calm))
        calm

  pub read_bare :
      (f : Formula)
      → Reads line column spell f
      → (fuel : ℕ) (rest : List Token) (s : Parser) → length (bare f) ≤ fuel
      → Calm 0 rest
      → (calls_on fuel).expression 0 (at s (wr (bare f) ++ rest)) ≡ ok (expression_of f, at s rest)
  read_bare f reads fuel rest s h calm =
      let same : print 0 f ≡ bare f = rw (lt→ltb 0 (level f) (level_pos f)) refl in
      rw same at (read_operand f reads fuel 0 rest s (rw same h) calm)
