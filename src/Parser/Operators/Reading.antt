-- ===== src/Parser/Operators/Reading.antt =====
-- src/parser.rs: the parser reads a printed formula as its expression.
use marreta_lang.Base.{
  ℕ, suc, ◌+◌, ◌-◌, ◌≤◌, ◌<◌, ◌==◌, ◌≡◌, refl, Bool, true, false, ◌&&◌, List, [], ◌∷◌, ◌++◌, map,
  length, arith, Bool-cases, inl, inr,
}
use marreta_lang.Base.Results.{ok}
use marreta_lang.Text.{Text}
use marreta_lang.Token.Kind.{TokenKind, Token, token}
use marreta_lang.Syntax.{Expression}
use marreta_lang.Parser.State.{Parser, is_eof, same_kind, discriminant}
use marreta_lang.Parser.Action.{◌>>=◌, pure, gets, while_on, while_loop}
use marreta_lang.Parser.Calls.{Calls}
use marreta_lang.Parser.Expressions.{
  precedence_of, current_infix_precedence, parse_prefix, infix_round, binds, parse_response_schema,
  parse_rescue_modifier, parse_expression,
}
use marreta_lang.Parser.Statements.{calls_on}
use marreta_lang.Parser.Operators.{Formula, expression_of, level, bare}

abbrev pub at : Parser → List Token → Parser
at s tokens = record s { rest = tokens }

-- A token that may stand behind an operand: one that neither calls or constructs with it, nor
-- modifies it.
abbrev pub quiet : TokenKind → Bool
quiet TokenKind.left_paren = false
quiet TokenKind.left_brace = false
quiet TokenKind.as_kw = false
quiet TokenKind.rescue = false
quiet _ = true

-- The next token ends an operand of the level.
abbrev pub Calm : ℕ → List Token → Type 0
Calm level [] = ⊥
Calm level (t ∷ ts) = (precedence_of t.kind ≤ level) × (quiet t.kind ≡ true)

quiet-as : (k : TokenKind) → quiet k ≡ true → same_kind TokenKind.as_kw k ≡ false
unfolding same_kind discriminant
quiet-as TokenKind.as_kw h = cc
quiet-as _ h = refl

quiet-rescue : (k : TokenKind) → quiet k ≡ true → same_kind TokenKind.rescue k ≡ false
unfolding same_kind discriminant
quiet-rescue TokenKind.rescue h = cc
quiet-rescue _ h = refl

pub quiet-paren : (k : TokenKind) → quiet k ≡ true → same_kind TokenKind.left_paren k ≡ false
unfolding same_kind discriminant
quiet-paren TokenKind.left_paren h = cc
quiet-paren _ h = refl

pub quiet-brace : (k : TokenKind) → quiet k ≡ true → same_kind TokenKind.left_brace k ≡ false
unfolding same_kind discriminant
quiet-brace TokenKind.left_brace h = cc
quiet-brace _ h = refl

pub not_both : (b : Bool) → (b && false) ≡ false
not_both true = refl
not_both false = refl

-- The tokens have any lexeme and stand anywhere.
module _ (line column : ℕ) (spell : TokenKind → Text) where
  abbrev pub written : List TokenKind → List Token
  written = map (λ kind. token kind line column (spell kind))

  -- Reading `tokens`, then `rest`: the prefix is read first, and then the loop of `parse_expression`
  -- comes to `rest` with the whole formula on the left, in `rounds` rounds.
  pub record Start (fuel min : ℕ) (f : Formula) (tokens rest : List Token) (s : Parser)
      : Type 0 where
    pub first : Expression
    pub left : List Token
    pub rounds : ℕ
    pub prefix : parse_prefix (calls_on fuel) (at s tokens) ≡ ok (first, at s left)
    pub loops :
        (m n : ℕ)
        → m ≤ min
        → while_on (rounds + n) (binds m) (infix_round (calls_on fuel)) first (at s left)
          ≡ while_on n (binds m) (infix_round (calls_on fuel)) (expression_of f) (at s rest)
    pub short : rounds + length rest ≤ length left

  -- A formula that is read.
  abbrev pub Reads : Formula → Type 0
  Reads f =
      (fuel min : ℕ) (rest : List Token) (s : Parser)
      → length (bare f) ≤ suc fuel
      → min < level f
      → Calm (level f) rest
      → Start fuel min f (written (bare f) ++ rest) rest s

  pub Calm-stops :
      (m : ℕ) (rest : List Token) (e : Expression) (s : Parser)
      → Calm m rest
      → binds m e (at s rest) ≡ false
  unfolding current_infix_precedence
  Calm-stops m [] e s calm = absurd calm
  Calm-stops m (t ∷ ts) e s (low, still) = elim (Bool-cases (is_eof t.kind)) [
    | inl h ↦ rw h refl
    | inr h ↦ rw h (ground arith)
  ]

  no_response :
      (m : ℕ) (rest : List Token) (e : Expression) (s : Parser)
      → Calm m rest
      → parse_response_schema m e (at s rest) ≡ ok (e, at s rest)
  unfolding parse_response_schema ◌>>=◌ gets pure
  no_response m [] e s calm = absurd calm
  no_response m (t ∷ ts) e s (low, still) = rw (quiet-as t.kind still, not_both (m == 0)) refl

  no_rescue :
      (c : Calls) (m : ℕ) (rest : List Token) (e : Expression) (s : Parser)
      → Calm m rest
      → parse_rescue_modifier c m e (at s rest) ≡ ok (e, at s rest)
  unfolding parse_rescue_modifier ◌>>=◌ gets pure
  no_rescue c m [] e s calm = absurd calm
  no_rescue c m (t ∷ ts) e s (low, still) = rw (quiet-rescue t.kind still, not_both (m == 0)) refl

  while_on-stop :
      (fuel m n : ℕ) (rest : List Token) (e : Expression) (s : Parser)
      → Calm m rest
      → while_on (suc n) (binds m) (infix_round (calls_on fuel)) e (at s rest) ≡ ok (e, at s rest)
  unfolding while_on pure
  while_on-stop fuel m n rest e s calm = rw (Calm-stops m rest e s calm) refl

  pub Start-expression :
      (fuel m : ℕ) (f : Formula) (tokens rest : List Token) (s : Parser)
      → Start fuel m f tokens rest s
      → Calm m rest
      → parse_expression (calls_on fuel) m (at s tokens) ≡ ok (expression_of f, at s rest)
  unfolding parse_expression ◌>>=◌ while_loop
  Start-expression fuel m f tokens rest s start calm =
      let n = length start.left - start.rounds in
      let enough : suc (length start.left) ≡ start.rounds + suc n = omega (arith, start.short) in
      rw
        (
          start.prefix,
          enough,
          start.loops m (suc n) (omega arith),
          while_on-stop fuel m n rest (expression_of f) s calm,
          no_response m rest (expression_of f) s calm,
        )
        (no_rescue (calls_on fuel) m rest (expression_of f) s calm)

  -- One more round.
  pub Start-round :
      (fuel min above : ℕ) (f g : Formula) (tokens middle rest : List Token) (s : Parser)
      → Start fuel above f tokens middle s
      → min ≤ above
      → ((m : ℕ) → m ≤ min → binds m (expression_of f) (at s middle) ≡ true)
      → infix_round (calls_on fuel) (expression_of f) (at s middle)
        ≡ ok (expression_of g, at s rest)
      → length rest < length middle
      → Start fuel min g tokens rest s
  unfolding while_on ◌>>=◌
  Start-round fuel min above f g tokens middle rest s start le more round fewer = record {
    first = start.first;
    left = start.left;
    rounds = start.rounds + 1;
    prefix = start.prefix;
    loops = λ m n low.
        let next : start.rounds + 1 + n ≡ start.rounds + suc n = omega arith in
        rw (next, start.loops m (suc n) (omega arith), more m low, round) refl;
    short = omega (arith, start.short);
  }
