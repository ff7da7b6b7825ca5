-- ===== src/Parser/Progress.antt =====
-- src/parser.rs: what an action of the parser does to the tokens that are left: rules for the ways in
-- which actions are put together.
pub mod Actions
pub mod Loops
pub mod Expects
pub mod Blocks
pub mod Rewinds
pub mod Stages
pub mod Queues
pub mod Expressions
pub mod Simple
pub mod Scenario
pub mod Schema
pub mod Route
pub mod Exports
pub mod Statements
use marreta_lang.Base.{
  ℕ, zero, suc, ◌+◌, ◌≤◌, ◌<◌, ◌≡◌, refl, Bool, true, false, not, ◌&&◌, Option, List, [], ◌∷◌, ◌++◌,
  arith, if◌then◌else◌, length, Bool-cases, inl, inr, if_ind,
}
use marreta_lang.Base.Results.{Result, ok, err, panic, timeout}
use marreta_lang.Token.Kind.{TokenKind, Token}
use marreta_lang.Parser.State.{
  Parser, ParseError, is_eof, is_at_end, current_kind, same_kind, without_newlines, moved,
}
use marreta_lang.Parser.Action.{
  Outcome, Parse, and_then, ◌>>=◌, pure, throw, gets, advance, skip_newlines, rewind, set_inside,
  while_on, while_loop, turn, loop, loop_on, again,
}

abbrev pub ends_in_eof : List Token → Bool
ends_in_eof [] = true
ends_in_eof (t ∷ []) = is_eof t.kind
ends_in_eof (_ ∷ t ∷ ts) = ends_in_eof (t ∷ ts)

-- What is left of the tokens ends in Eof.
abbrev pub Ready : Parser → Type 0
Ready s = (is_eof s.last.kind ≡ true) × (ends_in_eof s.rest ≡ true)

-- The action neither panics nor runs out of fuel, and if it returns, fewer than `n` tokens are left.
abbrev pub Ends : ℕ → {A : Type 0} → Outcome A → Type 0
Ends n timeout = ⊥
Ends n panic = ⊥
Ends n (err e) = Unit
Ends n (ok (a, s)) = Ready s × (length s.rest < n)

-- From fewer than `n` tokens, the action ends and adds none.
pub record Keeps (n : ℕ) {A : Type 0} (p : Parse A) : Type 0 where
  pub run : (s : Parser) → Ready s → length s.rest < n → Ends (suc (length s.rest)) (p s)

-- From fewer than `n` tokens and with `P`, the action ends and takes a token at least.
pub record EatsOn (P : Parser → Type 0) (n : ℕ) {A : Type 0} (p : Parse A) : Type 0 where
  pub run : (s : Parser) → P s → Ready s → length s.rest < n → Ends (length s.rest) (p s)

pub record Eats (n : ℕ) {A : Type 0} (p : Parse A) : Type 0 where
  pub run : (s : Parser) → Ready s → length s.rest < n → Ends (length s.rest) (p s)

module _ {A : Type 0} where
  pub Ends_mono : (m n : ℕ) (r : Outcome A) → m ≤ n → Ends m r → Ends n r
  Ends_mono m n timeout le h = h
  Ends_mono m n panic le h = h
  Ends_mono m n (err e) le h = h
  Ends_mono m n (ok (a, s)) le (ready, h) = (ready, omega arith)

  pub Eats→Keeps : {n : ℕ} {p : Parse A} → Eats n p → Keeps n p
  Eats→Keeps {p = p} eats = record {
    run = λ s ready h. Ends_mono _ _ (p s) (omega arith) (eats.run s ready h);
  }

  pub Eats→EatsOn : {P : Parser → Type 0} {n : ℕ} {p : Parse A} → Eats n p → EatsOn P n p
  Eats→EatsOn eats = record { run = λ s holds. eats.run s }

  pub Keeps-le : {m n : ℕ} {p : Parse A} → m ≤ n → Keeps n p → Keeps m p
  Keeps-le le keeps = record { run = λ s ready h. keeps.run s ready (omega arith) }

  pub Keeps-pure : {n : ℕ} (a : A) → Keeps n (pure a)
  unfolding pure
  Keeps-pure a = record { run = λ s ready h. (ready, omega arith) }

  pub Keeps-throw : {n : ℕ} (e : ParseError) → Keeps n (throw {A = A} e)
  unfolding throw
  Keeps-throw e = record { run = λ s ready h. tt }

  pub Eats-throw : {n : ℕ} (e : ParseError) → Eats n (throw {A = A} e)
  unfolding throw
  Eats-throw e = record { run = λ s ready h. tt }

  pub Keeps-gets : {n : ℕ} (view : Parser → A) → Keeps n (gets view)
  unfolding gets
  Keeps-gets view = record { run = λ s ready h. (ready, omega arith) }

  pub Keeps-if :
      {n : ℕ} (b : Bool) {p q : Parse A} → Keeps n p → Keeps n q → Keeps n (if b then p else q)
  Keeps-if true h k = h
  Keeps-if false h k = k

  pub Eats-if :
      {n : ℕ} (b : Bool) {p q : Parse A} → Eats n p → Eats n q → Eats n (if b then p else q)
  Eats-if true h k = h
  Eats-if false h k = k

  pub EatsOn-if :
      {P : Parser → Type 0} {n : ℕ} (b : Bool) {p q : Parse A}
      → EatsOn P n p
      → EatsOn P n q
      → EatsOn P n (if b then p else q)
  EatsOn-if true h k = h
  EatsOn-if false h k = k

module _ {A B : Type 0} where
  pub and_then-Ends :
      (m n : ℕ) (r : Outcome A) (f : A → Parse B)
      → Ends m r
      → ((a : A) (s : Parser) → Ready s → length s.rest < m → Ends n (f a s))
      → Ends n (and_then r f)
  and_then-Ends m n timeout f h k = h
  and_then-Ends m n panic f h k = h
  and_then-Ends m n (err e) f h k = h
  and_then-Ends m n (ok (a, s)) f (ready, h) k = k a s ready h

  pub Keeps-bind :
      {n : ℕ} {p : Parse A} {f : A → Parse B}
      → Keeps n p
      → ((a : A) → Keeps n (f a))
      → Keeps n (p >>= f)
  unfolding ◌>>=◌
  Keeps-bind {p = p} {f = f} keeps rest = record {
    run = λ s ready h. and_then-Ends _ _ (p s) f (keeps.run s ready h) λ a s' ready' h'.
        Ends_mono _ _ (f a s') (omega arith) ((rest a).run s' ready' (omega arith));
  }

  -- The first action takes a token.
  pub Eats-bind :
      {n : ℕ} {p : Parse A} {f : A → Parse B}
      → Eats n p
      → ((a : A) → Keeps n (f a))
      → Eats n (p >>= f)
  unfolding ◌>>=◌
  Eats-bind {p = p} {f = f} eats rest = record {
    run = λ s ready h. and_then-Ends _ _ (p s) f (eats.run s ready h) λ a s' ready' h'.
        Ends_mono _ _ (f a s') (omega arith) ((rest a).run s' ready' (omega arith));
  }

  -- The rest takes a token.
  pub Eats-bind_rest :
      {n : ℕ} {p : Parse A} {f : A → Parse B}
      → Keeps n p
      → ((a : A) → Eats n (f a))
      → Eats n (p >>= f)
  unfolding ◌>>=◌
  Eats-bind_rest {p = p} {f = f} keeps rest = record {
    run = λ s ready h. and_then-Ends _ _ (p s) f (keeps.run s ready h) λ a s' ready' h'.
        Ends_mono _ _ (f a s') (omega arith) ((rest a).run s' ready' (omega arith));
  }

  -- Behind the token that the first action takes, there is one less.
  pub Eats-bind_suc :
      {n : ℕ} {p : Parse A} {f : A → Parse B}
      → Eats (suc n) p
      → ((a : A) → Keeps n (f a))
      → Eats (suc n) (p >>= f)
  unfolding ◌>>=◌
  Eats-bind_suc {p = p} {f = f} eats rest = record {
    run = λ s ready h. and_then-Ends _ _ (p s) f (eats.run s ready h) λ a s' ready' h'.
        Ends_mono _ _ (f a s') (omega arith) ((rest a).run s' ready' (omega arith));
  }

  pub EatsOn-gets :
      {P : Parser → Type 0} {n : ℕ} (view : Parser → A) {f : A → Parse B}
      → ((a : A) → EatsOn P n (f a))
      → EatsOn P n (gets view >>= f)
  unfolding ◌>>=◌ gets
  EatsOn-gets view rest = record { run = λ s. (rest (view s)).run s }
