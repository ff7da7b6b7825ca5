-- ===== src/Parser/Progress/Expects.antt =====
-- src/parser.rs: `expect` and its variants take a token or fail.
use marreta_lang.Base.{
  ℕ, ◌==◌, ◌≡◌, refl, Bool, true, false, not, ◌&&◌, Option, none, some, List, [], ◌∷◌, arith,
  Bool-cases, inl, inr, if_ind, ==_iff, and-eq_true,
}
use marreta_lang.Text.{Text, text_eq}
use marreta_lang.Token.{keyword_lookup, first_arm, keywords}
use marreta_lang.Token.Kind.{TokenKind, Token}
use marreta_lang.Parser.State.{
  Parser, Expected, debug, is_eof, is_at_end, ends_at, check, first_or, current, current_kind,
  same_kind, sees, discriminant, is_word_kind, check_identifier_lexeme, reserved_word_as_name,
  matching, word_of, is_some,
}
use marreta_lang.Parser.Action.{
  ◌>>=◌, ◌>>◌, pure, gets, advance, unexpected, expect, expect_identifier, expect_name,
  expect_integer, expect_string, expect_identifier_lexeme, identifier_at, name_at, integer_at,
  string_at, refuse_word, reserved_name,
}
use marreta_lang.Parser.Progress.{
  Ready, Keeps, EatsOn, Eats, Eats→Keeps, Eats→EatsOn, Keeps-pure, Keeps-throw, Eats-throw,
  Keeps-gets, Keeps-if, Keeps-bind, Eats-if, Eats-bind, Eats-bind_rest, EatsOn-gets, EatsOn-if,
}
use marreta_lang.Parser.Progress.Actions.{
  Open, When, Unless, At, Keeps-advance, Keeps-skip_newlines, Keeps-set_inside, EatsOn-advance,
  EatsOn-unexpected, EatsOn-sub, EatsOn-bind, Eats-kind, Eats-test,
}
use marreta_lang.Parser.Progress.Loops.{Keeps-collect}

pub At→Open : (kind : TokenKind) → is_eof kind ≡ false → (s : Parser) → At kind s → Open s
At→Open kind h s at = rw at h

ends_at→is_eof :
    (t : Token) (ts : List Token) → ends_at ts ≡ false → is_eof (first_or t ts).kind ≡ false
ends_at→is_eof t [] h = cc
ends_at→is_eof t (u ∷ us) h = h

pub Unless→Open : (s : Parser) → Unless is_at_end s → Open s
Unless→Open s h = ends_at→is_eof s.last s.rest h

pub check→Open : (kind : TokenKind) (s : Parser) → When (check kind) s → Open s
check→Open kind s h = Unless→Open s (ground (arith, and-eq_true (not (is_at_end s)) _ h))

ends_at→eof :
    (last : Token) (ts : List Token)
    → is_eof last.kind ≡ true
    → ends_at ts ≡ true
    → is_eof (first_or last ts).kind ≡ true
ends_at→eof last [] eof h = eof
ends_at→eof last (t ∷ ts) eof h = h

-- A token that is not Eof is not past the end.
pub At→inside :
    (kind : TokenKind) (s : Parser)
    → is_eof kind ≡ false
    → At kind s
    → Ready s
    → is_at_end s ≡ false
At→inside kind s h at ready = elim (Bool-cases (is_at_end s)) [
  | inl e ↦ absurd (let f = ends_at→eof s.last s.rest ready.0 e in let g = rw at at f in cc)
  | inr e ↦ e
]

pub is_word_kind→is_eof : (w : Text) (k : TokenKind) → is_word_kind w k ≡ true → is_eof k ≡ false
is_word_kind→is_eof w TokenKind.eof h = cc
is_word_kind→is_eof w _ h = refl

is_eof-discriminant : (k : TokenKind) → is_eof k ≡ (discriminant k == 95)
unfolding discriminant
is_eof-discriminant TokenKind.eof = refl
is_eof-discriminant _ = refl

pub same_kind→is_eof :
    (k l : TokenKind) → same_kind k l ≡ true → is_eof k ≡ false → is_eof l ≡ false
unfolding same_kind
same_kind→is_eof k l h e =
    let same : discriminant k ≡ discriminant l = (==_iff (discriminant k) (discriminant l)).0 h in
    rw (is_eof-discriminant l, ← same, ← is_eof-discriminant k) e

module _ {A : Type 0} where
  pub Eats-unexpected : {n : ℕ} (e : Expected) → Eats n (unexpected {A = A} e)
  Eats-unexpected e = Eats-bind_rest (Keeps-gets _) λ t. Eats-throw _

  pub Keeps-unexpected : {n : ℕ} (e : Expected) → Keeps n (unexpected {A = A} e)
  Keeps-unexpected e = Eats→Keeps (Eats-unexpected e)

  -- A value that one token carries.
  one-EatsOn :
      {n : ℕ} (kind : TokenKind) (a : A)
      → is_eof kind ≡ false
      → EatsOn (At kind) n (advance >> pure a)
  one-EatsOn kind a h = EatsOn-bind (EatsOn-sub (At→Open kind h) EatsOn-advance) λ u. Keeps-pure a

pub Eats-expect : {n : ℕ} (kind : TokenKind) → Eats n (expect kind)
unfolding expect
Eats-expect kind = Eats-test is_at_end (Eats→EatsOn (Eats-throw _)) (
    EatsOn-gets (sees kind) λ found.
      EatsOn-if found (EatsOn-sub Unless→Open EatsOn-advance) (EatsOn-unexpected (debug kind)))

refuse_word-Eats : {A : Type 0} {n : ℕ} (word : Option Text) → Eats n (refuse_word {A = A} word)
refuse_word-Eats (some word) = Eats-bind_rest (Keeps-gets _) λ t. Eats-throw _
refuse_word-Eats none = Eats-unexpected _

identifier_at-EatsOn : {n : ℕ} (kind : TokenKind) → EatsOn (At kind) n (identifier_at kind)
identifier_at-EatsOn (TokenKind.identifier name) = one-EatsOn _ name refl
identifier_at-EatsOn _ = EatsOn-gets _ λ word. Eats→EatsOn (refuse_word-Eats word)

pub Eats-expect_identifier : {n : ℕ} → Eats n expect_identifier
unfolding expect_identifier
Eats-expect_identifier =
    Eats-test is_at_end (Eats→EatsOn (Eats-throw _)) (Eats→EatsOn (Eats-kind identifier_at-EatsOn))

-- No keyword stands for Eof.
abbrev not_eof : Option TokenKind → Bool
not_eof none = true
not_eof (some k) = not (is_eof k)

abbrev not_eofs : List (Text × TokenKind) → Bool
not_eofs [] = true
not_eofs ((w, k) ∷ arms) = not (is_eof k) && not_eofs arms

first_arm-not_eof :
    (word : Text) (arms : List (Text × TokenKind))
    → not_eofs arms ≡ true
    → not_eof (first_arm word arms) ≡ true
unfolding first_arm
first_arm-not_eof word [] h = refl
first_arm-not_eof word ((w, k) ∷ arms) h =
    let (one, rest) = and-eq_true (not (is_eof k)) (not_eofs arms) h in
    if_ind (λ o. not_eof o ≡ true) (text_eq w word) {x = some k} {y = first_arm word arms} one
      (first_arm-not_eof word arms rest)

matching→is_eof :
    (kind : TokenKind) (word : Text) (o : Option TokenKind)
    → not_eof o ≡ true
    → is_some (matching kind word o) ≡ true
    → is_eof kind ≡ false
matching→is_eof kind word none h found = cc
matching→is_eof kind word (some k) h found = elim (Bool-cases (same_kind k kind)) [
  | inl e ↦ same_kind→is_eof k kind e (ground arith)
  | inr e ↦ cc
]

reserved→is_eof : (t : Token) → is_some (word_of t) ≡ true → is_eof t.kind ≡ false
unfolding keyword_lookup
reserved→is_eof t h = matching→is_eof t.kind t.lexeme _ (first_arm-not_eof t.lexeme keywords refl) h

reserved_name-EatsOn :
    {n : ℕ} (word : Option Text)
    → EatsOn (λ s. reserved_word_as_name s ≡ word) n (reserved_name word)
reserved_name-EatsOn (some word) =
    EatsOn-bind (EatsOn-sub (λ s e. reserved→is_eof (current s) (rw e refl)) EatsOn-advance)
      λ u. Keeps-pure word
reserved_name-EatsOn none = EatsOn-unexpected _

Eats-reserved_name : {n : ℕ} → Eats n (gets reserved_word_as_name >>= reserved_name)
unfolding ◌>>=◌ gets
Eats-reserved_name = record {
  run = λ s. (reserved_name-EatsOn (reserved_word_as_name s)).run s refl;
}

name_at-EatsOn : {n : ℕ} (kind : TokenKind) → EatsOn (At kind) n (name_at kind)
name_at-EatsOn (TokenKind.identifier name) = one-EatsOn _ name refl
name_at-EatsOn _ = Eats→EatsOn Eats-reserved_name

pub Eats-expect_name : {n : ℕ} → Eats n expect_name
unfolding expect_name
Eats-expect_name = Eats-kind name_at-EatsOn

integer_at-EatsOn : {n : ℕ} (kind : TokenKind) → EatsOn (At kind) n (integer_at kind)
integer_at-EatsOn (TokenKind.integer k) = one-EatsOn _ k refl
integer_at-EatsOn _ = EatsOn-unexpected _

pub Eats-expect_integer : {n : ℕ} → Eats n expect_integer
unfolding expect_integer
Eats-expect_integer = Eats-kind integer_at-EatsOn

string_at-EatsOn : {n : ℕ} (kind : TokenKind) → EatsOn (At kind) n (string_at kind)
string_at-EatsOn (TokenKind.string_literal s) = one-EatsOn _ s refl
string_at-EatsOn _ = EatsOn-unexpected _

pub Eats-expect_string : {n : ℕ} → Eats n expect_string
unfolding expect_string
Eats-expect_string = Eats-kind string_at-EatsOn

pub word→Open : (w : Text) (s : Parser) → When (check_identifier_lexeme w) s → Open s
word→Open w s h = is_word_kind→is_eof w (current_kind s) h

pub Eats-expect_identifier_lexeme : {n : ℕ} (w : Text) → Eats n (expect_identifier_lexeme w)
unfolding expect_identifier_lexeme
Eats-expect_identifier_lexeme w =
    Eats-test (check_identifier_lexeme w) (EatsOn-sub (word→Open w) EatsOn-advance)
      (EatsOn-unexpected _)

pub ruleset keeps_rules = (
  Keeps-pure, Keeps-throw, Keeps-gets, Keeps-if, Keeps-bind, Keeps-advance, Keeps-skip_newlines,
  Keeps-set_inside, Keeps-unexpected, Keeps-collect, Eats→Keeps, Eats-expect,
  Eats-expect_identifier, Eats-expect_name, Eats-expect_integer, Eats-expect_string,
  Eats-expect_identifier_lexeme,
)

pub ruleset eats_rules = (
  Eats-throw, Eats-if, Eats-bind, Eats-bind_rest, Eats-unexpected, Keeps-pure, Keeps-throw,
  Keeps-gets, Keeps-if, Keeps-bind, Keeps-advance, Keeps-skip_newlines, Keeps-unexpected,
  Keeps-collect, Eats→Keeps, Eats-expect, Eats-expect_identifier, Eats-expect_name,
  Eats-expect_integer, Eats-expect_string, Eats-expect_identifier_lexeme,
)
