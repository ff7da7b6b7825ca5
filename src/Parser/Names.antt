-- ===== src/Parser/Names.antt =====
-- src/parser.rs: reserved words are names, but cannot be bound.
use marreta_lang.Base.{
  ◌≡◌, refl, Bool, true, false, not, ◌&&◌, Option, none, some, List, [], ◌∷◌, arith, and-eq_true,
  if_ind, ==_refl,
}
use marreta_lang.Base.Results.{ok, err}
use marreta_lang.Text.{Text, text_eq}
use marreta_lang.Token.{keyword_lookup, first_arm, keywords}
use marreta_lang.Token.Kind.{TokenKind, Token}
use marreta_lang.Parser.State.{
  Parser, reserved_word, is_eof, is_identifier, same_kind, discriminant, reserved_word_as_name,
}
use marreta_lang.Parser.Action.{
  ◌>>=◌, pure, gets, throw, advance, expect_identifier, expect_name, identifier_at, name_at,
  refuse_word, reserved_name,
}

abbrev is_plain : TokenKind → Bool
is_plain kind = not (is_identifier kind) && not (is_eof kind)

abbrev plain_option : Option TokenKind → Bool
plain_option none = true
plain_option (some kind) = is_plain kind

abbrev plain_arms : List (Text × TokenKind) → Bool
plain_arms [] = true
plain_arms ((w, kind) ∷ arms) = is_plain kind && plain_arms arms

first_arm-plain :
    (word : Text) (arms : List (Text × TokenKind))
    → plain_arms arms ≡ true
    → plain_option (first_arm word arms) ≡ true
unfolding first_arm
first_arm-plain word [] h = refl
first_arm-plain word ((w, kind) ∷ arms) h =
    let (one, rest) = and-eq_true (is_plain kind) (plain_arms arms) h in
    if_ind (λ o. plain_option o ≡ true) (text_eq w word) {x = some kind} {y = first_arm word arms}
      one (first_arm-plain word arms rest)

keyword-plain :
    (word : Text) (kind : TokenKind) → keyword_lookup word ≡ some kind → is_plain kind ≡ true
unfolding keyword_lookup
keyword-plain word kind found =
    let h : plain_option (first_arm word keywords) ≡ true = first_arm-plain word keywords refl in
    rw found at h

name_at-plain :
    (kind : TokenKind)
    → is_plain kind ≡ true
    → name_at kind ≡ (gets reserved_word_as_name >>= reserved_name)
name_at-plain (TokenKind.identifier name) h = cc
name_at-plain _ h = refl

identifier_at-plain :
    (kind : TokenKind)
    → is_plain kind ≡ true
    → identifier_at kind ≡ (gets reserved_word_as_name >>= refuse_word)
identifier_at-plain (TokenKind.identifier name) h = cc
identifier_at-plain _ h = refl

same_kind_refl : (kind : TokenKind) → same_kind kind kind ≡ true
unfolding same_kind
same_kind_refl kind = ==_refl (discriminant kind)

-- A keyword, with its own kind of token, is taken by expect_name for a name and refused by
-- expect_identifier with the error for reserved words, at its position.
pub reserved_words :
    (s : Parser) (t : Token) (ts : List Token)
    → keyword_lookup t.lexeme ≡ some t.kind
    → (expect_name (record s { rest = t ∷ ts }) ≡ ok (t.lexeme, record s { rest = ts }))
      × (expect_identifier (record s { rest = t ∷ ts })
          ≡ err (reserved_word t.lexeme t.line t.column))
unfolding expect_name expect_identifier ◌>>=◌ gets pure throw advance
reserved_words s t ts found =
    let plain = keyword-plain t.lexeme t.kind found in
    let (_, inside) = and-eq_true (not (is_identifier t.kind)) (not (is_eof t.kind)) plain in
    let more : is_eof t.kind ≡ false = ground arith in
    (
      rw (name_at-plain t.kind plain, found, same_kind_refl t.kind) refl,
      rw (more, identifier_at-plain t.kind plain, found, same_kind_refl t.kind) refl,
    )
