-- ===== src/Lex/Layout.antt =====
-- The layout machine of src/lexer.rs: how the stack of indentations and the tokens, newest first,
-- grow together. `step` makes only these moves.
pub mod Moves
pub mod Ends
pub mod Blocks
pub mod Reached
pub mod Newlines
use marreta_lang.Base.{ℕ, suc, ◌+◌, ◌<◌, ◌≡◌, Bool, true, false, not, ◌&&◌, ◌||◌, List, [], ◌∷◌}
use marreta_lang.Token.Kind.{TokenKind, Token}
use marreta_lang.Lex.State.{
  is_newline, is_block, is_indent, is_dedent, is_pipe, remove_newline, should_suppress_newline,
  skips_newline,
}
use marreta_lang.Lex.Step.{current_indent}

abbrev pub is_eof : TokenKind → Bool
is_eof TokenKind.eof = true
is_eof _ = false

-- No newline, indent, dedent or end of file.
abbrev pub is_plain : TokenKind → Bool
is_plain k = not (is_newline k || is_block k || is_eof k)

pub data Built : List ℕ → List Token → Type 0 where
  start : Built (0 ∷ []) []
  plain :
      {stack : List ℕ} {tokens : List Token} {t : Token}
      → Built stack tokens
      → is_plain t.kind ≡ true
      → Built stack (t ∷ tokens)
  newline :
      {stack : List ℕ} {tokens : List Token} {t : Token}
      → Built stack tokens
      → is_newline t.kind ≡ true
      → should_suppress_newline tokens ≡ false
      → skips_newline tokens ≡ false
      → Built stack (t ∷ tokens)
  joined :
      {stack : List ℕ} {tokens : List Token}
      → Built stack tokens
      → Built stack (remove_newline tokens)
  opened :
      {stack : List ℕ} {tokens : List Token} {n : ℕ} {t : Token}
      → Built stack tokens
      → current_indent stack < n
      → is_indent t.kind ≡ true
      → Built (n ∷ stack) (t ∷ tokens)
  closed :
      {x y : ℕ} {stack : List ℕ} {tokens : List Token} {t : Token}
      → Built (x ∷ y ∷ stack) tokens
      → is_dedent t.kind ≡ true
      → Built (y ∷ stack) (t ∷ tokens)
