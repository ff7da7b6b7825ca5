-- ===== src/Parser/Action.antt =====
-- src/parser.rs: what a method of the parser is here: an action on its state that may fail. A loop of
-- the source has as much fuel as there are tokens left, and one more.
use marreta_lang.Base.{
  ℕ, zero, suc, Bool, true, false, Option, none, some, List, [], ◌∷◌, ◌++◌, if◌then◌else◌, length,
}
use marreta_lang.Base.Results.{Result, ok, err, panic, timeout}
use marreta_lang.Text.{Text, codes}
use marreta_lang.Token.Kind.{TokenKind, Token}
use marreta_lang.Parser.State.{
  Parser, Expected, debug, words, lexeme, ParseError, unexpected_token, unexpected_end_of_input,
  reserved_word, current, current_kind, moved, is_at_end, sees, without_newlines,
  reserved_word_as_name, check_identifier_lexeme,
}

abbrev pub Outcome {ℓ} : Type ℓ → Type ℓ
Outcome A = Result ParseError (A × Parser)

abbrev pub Parse {ℓ} : Type ℓ → Type ℓ
Parse A = Parser → Outcome A

module _ {ℓ κ} {A : Type ℓ} {B : Type κ} where
  abbrev pub and_then : Outcome A → (A → Parse B) → Outcome B
  and_then timeout rest = timeout
  and_then panic rest = panic
  and_then (err e) rest = err e
  and_then (ok (a, s)) rest = rest a s

  infixl 1 ◌>>=◌ ◌>>◌
  unfoldable pub ◌>>=◌ : Parse A → (A → Parse B) → Parse B
  ◌>>=◌ first rest s = and_then (first s) rest

  abbrev pub ◌>>◌ : Parse A → Parse B → Parse B
  first >> second = first >>= λ _. second

module _ {ℓ} {A : Type ℓ} where
  unfoldable pub pure : A → Parse A
  pure a s = ok (a, s)

  unfoldable pub throw : ParseError → Parse A
  throw e s = err e

  unfoldable pub panics : Parse A
  panics s = panic

  unfoldable pub gets : (Parser → A) → Parse A
  gets view s = ok (view s, s)

-- What is read by looking at the current token.
abbrev pub at_current {ℓ} : {A : Type ℓ} → (Token → Parse A) → Parse A
at_current rest = gets current >>= rest

unfoldable pub advance : Parse (Unit {0})
advance s = ok (tt, moved s)

unfoldable pub skip_newlines : Parse (Unit {0})
skip_newlines s = ok (tt, record s { rest = without_newlines s.rest })

-- `self.pos = saved`
unfoldable pub rewind : List Token → Parse (Unit {0})
rewind saved s = ok (tt, record s { rest = saved })

unfoldable pub set_inside : Bool → Parse (Unit {0})
set_inside inside s = ok (tt, record s { inside_transaction = inside })

-- The error that quotes the current token.
abbrev pub unexpected {ℓ} : {A : Type ℓ} → Expected → Parse A
unexpected expected =
    at_current λ t. throw (unexpected_token expected (lexeme t.lexeme) t.line t.column)

unfoldable pub expect : TokenKind → Parse (Unit {0})
expect kind = do
  ended ← gets is_at_end
  if ended
      then throw (unexpected_end_of_input (debug kind))
      else do found ← gets (sees kind); if found then advance else unexpected (debug kind)

abbrev pub refuse_word {ℓ} : {A : Type ℓ} → Option Text → Parse A
refuse_word (some word) = at_current λ t. throw (reserved_word word t.line t.column)
refuse_word none = unexpected (words (codes "identifier"))

abbrev pub identifier_at : TokenKind → Parse Text
identifier_at (TokenKind.identifier name) = advance >> pure name
identifier_at _ = gets reserved_word_as_name >>= refuse_word

-- The line and column that it returns as well are those of the current token before the call.
unfoldable pub expect_identifier : Parse Text
expect_identifier = do
  ended ← gets is_at_end
  if ended
      then throw (unexpected_end_of_input (words (codes "identifier")))
      else do kind ← gets current_kind; identifier_at kind

abbrev pub reserved_name : Option Text → Parse Text
reserved_name (some word) = advance >> pure word
reserved_name none = unexpected (words (codes "identifier"))

abbrev pub name_at : TokenKind → Parse Text
name_at (TokenKind.identifier name) = advance >> pure name
name_at _ = gets reserved_word_as_name >>= reserved_name

-- The line and column that it returns as well are those of the current token before the call.
unfoldable pub expect_name : Parse Text
expect_name = gets current_kind >>= name_at

abbrev pub integer_at : TokenKind → Parse ℕ
integer_at (TokenKind.integer n) = advance >> pure n
integer_at _ = unexpected (words (codes "integer"))

unfoldable pub expect_integer : Parse ℕ
expect_integer = gets current_kind >>= integer_at

abbrev pub string_at : TokenKind → Parse Text
string_at (TokenKind.string_literal s) = advance >> pure s
string_at _ = unexpected (words (codes "string"))

unfoldable pub expect_string : Parse Text
expect_string = gets current_kind >>= string_at

unfoldable pub expect_identifier_lexeme : Text → Parse (Unit {0})
expect_identifier_lexeme word = do
  found ← gets (check_identifier_lexeme word)
  if found then advance else unexpected (words word)

module _ {ℓ} {B : Type ℓ} where
  abbrev pub turn : Bool → Parse B → B → Parse B
  turn true body b = body
  turn false body b = pure b

  -- `while test { body }`, of which `b` are the local variables.
  unfoldable pub while_on : ℕ → (B → Parser → Bool) → (B → Parse B) → B → Parse B
  while_on zero test body b s = timeout
  while_on (suc fuel) test body b s = turn (test b s) (body b >>= while_on fuel test body) b s

  unfoldable pub while_loop : (B → Parser → Bool) → (B → Parse B) → B → Parse B
  while_loop test body b s = while_on (suc (length s.rest)) test body b s

  abbrev pub again : (B → Parse B) → B × Bool → Parse B
  again rest (b, true) = rest b
  again rest (b, false) = pure b

  -- `loop { body }`, which goes on while the body says so.
  unfoldable pub loop_on : ℕ → (B → Parse (B × Bool)) → B → Parse B
  loop_on zero body b s = timeout
  loop_on (suc fuel) body b s = (body b >>= again (loop_on fuel body)) s

  unfoldable pub loop : (B → Parse (B × Bool)) → B → Parse B
  loop body b s = loop_on (suc (length s.rest)) body b s

module _ {ℓ} {A : Type ℓ} where
  -- `while test { items.push(item) }`
  unfoldable pub collect : (Parser → Bool) → Parse A → Parse (List A)
  collect test item = while_loop (λ _. test) (λ items. do a ← item; pure (items ++ a ∷ [])) []
