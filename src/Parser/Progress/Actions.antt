-- ===== src/Parser/Progress/Actions.antt =====
-- src/parser.rs: what the helpers on tokens do to the tokens that are left.
use marreta_lang.Base.{
  ℕ, suc, ◌≤◌, ◌<◌, ◌≡◌, refl, Bool, true, false, not, List, [], ◌∷◌, arith, if◌then◌else◌, length,
  Bool-cases, inl, inr, if_ind, and-eq_true, ap,
}
use marreta_lang.Token.Kind.{TokenKind, Token}
use marreta_lang.Parser.State.{
  Parser, Expected, is_eof, is_at_end, current_kind, same_kind, check, without_newlines,
}
use marreta_lang.Parser.Action.{Parse, ◌>>=◌, gets, advance, skip_newlines, set_inside, unexpected}
use marreta_lang.Parser.Blocks.{before}
use marreta_lang.Parser.Progress.{
  ends_in_eof, Ready, Ends, Keeps, EatsOn, Eats, Ends_mono, and_then-Ends, Eats→EatsOn, Eats-throw,
  Keeps-gets, Eats-bind_rest, EatsOn-gets,
}

pub ends_in_eof-tail :
    (t : Token) (ts : List Token) → ends_in_eof (t ∷ ts) ≡ true → ends_in_eof ts ≡ true
ends_in_eof-tail t [] h = refl
ends_in_eof-tail t (u ∷ us) h = h

advance-Ends :
    (ts : List Token) (s : Parser) → s.rest ≡ ts → Ready s → Ends (suc (length ts)) (advance s)
unfolding advance
advance-Ends [] s e (last, ready) = ((last, rw e refl), rw e (omega arith))
advance-Ends (t ∷ ts) s e (last, ready) =
    ((last, rw e (ends_in_eof-tail t ts (rw e at ready))), rw e (omega arith))

pub Keeps-advance : {n : ℕ} → Keeps n advance
Keeps-advance = record { run = λ s ready h. advance-Ends s.rest s refl ready }

advance-Ends_lt :
    (ts : List Token) (s : Parser)
    → s.rest ≡ ts
    → is_eof (current_kind s) ≡ false
    → Ready s
    → Ends (length ts) (advance s)
unfolding advance
advance-Ends_lt [] s e more (last, ready) = absurd (cc)
advance-Ends_lt (t ∷ ts) s e more (last, ready) =
    ((last, rw e (ends_in_eof-tail t ts (rw e at ready))), rw e (omega arith))

without_newlines-length : (ts : List Token) → length (without_newlines ts) ≤ length ts
unfolding without_newlines
without_newlines-length [] = omega arith
without_newlines-length (t ∷ ts) =
    let fewer : length (without_newlines ts) ≤ suc (length ts) =
      omega (arith, without_newlines-length ts) in
    if_ind (λ us. length us ≤ suc (length ts)) (same_kind TokenKind.newline t.kind)
      {x = without_newlines ts} {y = t ∷ ts} fewer (omega arith)

without_newlines-eof :
    (ts : List Token) → ends_in_eof ts ≡ true → ends_in_eof (without_newlines ts) ≡ true
unfolding without_newlines
without_newlines-eof [] h = refl
without_newlines-eof (t ∷ ts) h =
    if_ind (λ us. ends_in_eof us ≡ true) (same_kind TokenKind.newline t.kind)
      (without_newlines-eof ts (ends_in_eof-tail t ts h)) h

pub Keeps-skip_newlines : {n : ℕ} → Keeps n skip_newlines
unfolding skip_newlines
Keeps-skip_newlines = record {
  run = λ s (last, ready) h.
      ((last, without_newlines-eof s.rest ready), omega (arith, without_newlines-length s.rest));
}

pub Keeps-set_inside : {n : ℕ} (inside : Bool) → Keeps n (set_inside inside)
unfolding set_inside
Keeps-set_inside inside = record { run = λ s ready h. (ready, omega arith) }

-- The state is at a token that is not Eof.
abbrev pub Open : Parser → Type 0
Open s = is_eof (current_kind s) ≡ false

-- Where a test holds.
abbrev pub When : (Parser → Bool) → Parser → Type 0
When test s = test s ≡ true

-- Where a test fails.
abbrev pub Unless : (Parser → Bool) → Parser → Type 0
Unless test s = test s ≡ false

-- At a token of the kind.
abbrev pub At : TokenKind → Parser → Type 0
At kind s = current_kind s ≡ kind

pub EatsOn-advance : {n : ℕ} → EatsOn Open n advance
EatsOn-advance = record { run = λ s more ready h. advance-Ends_lt s.rest s refl more ready }

module _ {A : Type 0} where
  pub EatsOn-unexpected :
      {P : Parser → Type 0} {n : ℕ} (e : Expected) → EatsOn P n (unexpected {A = A} e)
  EatsOn-unexpected e = EatsOn-gets _ λ t. Eats→EatsOn (Eats-throw _)

  pub Eats_le : {m n : ℕ} {p : Parse A} → m ≤ n → Eats n p → Eats m p
  Eats_le le eats = record { run = λ s ready h. eats.run s ready (omega arith) }

  pub EatsOn-le :
      {P : Parser → Type 0} {m n : ℕ} {p : Parse A} → m ≤ n → EatsOn P n p → EatsOn P m p
  EatsOn-le le eats = record { run = λ s holds ready h. eats.run s holds ready (omega arith) }

  pub EatsOn-sub :
      {P Q : Parser → Type 0} {n : ℕ} {p : Parse A}
      → ((s : Parser) → P s → Q s)
      → EatsOn Q n p
      → EatsOn P n p
  EatsOn-sub sub eats = record { run = λ s holds. eats.run s (sub s holds) }

module _ {A B : Type 0} where
  pub EatsOn-bind :
      {P : Parser → Type 0} {n : ℕ} {p : Parse A} {f : A → Parse B}
      → EatsOn P n p
      → ((a : A) → Keeps n (f a))
      → EatsOn P n (p >>= f)
  unfolding ◌>>=◌
  EatsOn-bind {p = p} {f = f} eats rest = record {
    run = λ s holds ready h. and_then-Ends _ _ (p s) f (eats.run s holds ready h) λ a s' ready' h'.
        Ends_mono _ _ (f a s') (omega arith) ((rest a).run s' ready' (omega arith));
  }

  -- Behind the token that the first action takes, there is one less.
  pub EatsOn-bind_suc :
      {P : Parser → Type 0} {n : ℕ} {p : Parse A} {f : A → Parse B}
      → EatsOn P (suc n) p
      → ((a : A) → Keeps n (f a))
      → EatsOn P (suc n) (p >>= f)
  unfolding ◌>>=◌
  EatsOn-bind_suc {p = p} {f = f} eats rest = record {
    run = λ s holds ready h. and_then-Ends _ _ (p s) f (eats.run s holds ready h) λ a s' ready' h'.
        Ends_mono _ _ (f a s') (omega arith) ((rest a).run s' ready' (omega arith));
  }

module _ {B : Type 0} where
  -- The first token is known.
  pub EatsOn-first :
      {n : ℕ} {kind : TokenKind} {f : Unit → Parse B}
      → is_eof kind ≡ false
      → ((u : Unit) → Keeps n (f u))
      → EatsOn (At kind) n (advance >>= f)
  EatsOn-first h rest = EatsOn-bind (EatsOn-sub (λ s at. rw at h) EatsOn-advance) rest

  -- As before, where the rest has one token less.
  pub EatsOn-first_suc :
      {n : ℕ} {kind : TokenKind} {f : Unit → Parse B}
      → is_eof kind ≡ false
      → ((u : Unit) → Keeps n (f u))
      → EatsOn (At kind) (suc n) (advance >>= f)
  EatsOn-first_suc h rest = EatsOn-bind_suc (EatsOn-sub (λ s at. rw at h) EatsOn-advance) rest

  -- An action that depends on the kind of the current token.
  pub Eats-kind :
      {n : ℕ} {f : TokenKind → Parse B}
      → ((kind : TokenKind) → EatsOn (At kind) n (f kind))
      → Eats n (gets current_kind >>= f)
  unfolding ◌>>=◌ gets
  Eats-kind each = record { run = λ s. (each (current_kind s)).run s refl }

  -- An action that depends on a test.
  pub Eats-test :
      {n : ℕ} (test : Parser → Bool) {p q : Parse B}
      → EatsOn (When test) n p
      → EatsOn (Unless test) n q
      → Eats n (gets test >>= λ b. if b then p else q)
  unfolding ◌>>=◌ gets
  Eats-test test {p} {q} on off = record {
    run = λ s ready h. elim (Bool-cases (test s)) [
      | inl e ↦ rw e (on.run s e ready h)
      | inr e ↦ rw e (off.run s e ready h)
    ];
  }

  pub Eats-gets :
      {A : Type 0} {n : ℕ} (view : Parser → A) {f : A → Parse B}
      → ((a : A) → Eats n (f a))
      → Eats n (gets view >>= f)
  Eats-gets view each = Eats-bind_rest (Keeps-gets view) each

  pub EatsOn-Unless :
      {n : ℕ} (test : Parser → Bool) (p : Parse B) {q : Parse B}
      → Eats n q
      → EatsOn (Unless test) n (gets test >>= λ b. if b then p else q)
  unfolding ◌>>=◌ gets
  EatsOn-Unless test p eats = record { run = λ s off ready h. rw off (eats.run s ready h) }

  skip_run :
      {n : ℕ} (test : Parser → Bool) {q : Parse B} (ts : List Token) (s : Parser)
      → s.rest ≡ ts
      → is_at_end s ≡ false
      → Unless test s
      → Keeps n q
      → EatsOn (Unless test) n q
      → Ready s
      → length s.rest < n
      → Ends (length s.rest) ((skip_newlines >>= λ _. q) s)
  unfolding ◌>>=◌ skip_newlines without_newlines
  skip_run test [] s e more off keeps eats ready h = absurd (cc)
  skip_run {n} test {q} (t ∷ ts) s e more off keeps eats ready h =
      elim (Bool-cases (same_kind TokenKind.newline t.kind)) [
        | inl f ↦
            rw (e, f)
              (let s' = record s { rest = without_newlines ts } in
                let fewer = without_newlines-length ts in
                let ready' : Ready s' =
                  (ready.0, without_newlines-eof ts (ends_in_eof-tail t ts (rw e at ready.1))) in
                Ends_mono _ _ (q s') (omega arith)
                  (keeps.run s' ready' (omega (arith, ap length e))))
        | inr f ↦
            rw (e, f)
              (let same : s ≡ record s { rest = t ∷ ts } = rw (← e) refl in
                rw same at (rw e at (eats.run s off ready h)))
      ]

  -- Line breaks before an action, inside a block that the test does not end.
  pub EatsOn-skip :
      {n : ℕ} (kind : TokenKind) {q : Parse B}
      → Keeps n q
      → EatsOn (Unless (check kind)) n q
      → EatsOn (When (before kind)) n (skip_newlines >>= λ _. q)
  EatsOn-skip kind {q} keeps eats = record {
    run = λ s on ready h.
        let (off, more) = and-eq_true (not (check kind s)) (not (is_at_end s)) on in
        skip_run (check kind) s.rest s refl (ground arith) (ground arith) keeps eats ready h;
  }
