-- ===== src/Lex/State.antt =====
-- src/lexer.rs: the `Lexer`, its errors, and the helpers that emit tokens. `source` and `pos` are
-- kept as `rest`, the text that is still unread; `tokens` and `indent_stack` have their last element
-- first.
use marreta_lang.Base.{
  ℕ, zero, suc, ◌+◌, Bool, true, false, ◌||◌, List, [], ◌∷◌, if◌then◌else◌, drop,
}
use marreta_lang.Text.{Text}
use marreta_lang.Token.Kind.{TokenKind, Token, token}

-- The errors of `MarretaError` that the lexer returns.
pub data LexError : Type 0 where
  unexpected_character : ℕ → ℕ → ℕ → LexError
  invalid_indentation : ℕ → ℕ → ℕ → LexError
  unterminated_string : ℕ → ℕ → LexError
  invalid_number : Text → ℕ → ℕ → LexError

pub record Lexer : Type 0 where
  pub rest : Text
  pub tokens : List Token
  pub line : ℕ
  pub column : ℕ
  pub indent_stack : List ℕ
  pub at_line_start : Bool
  pub nesting_depth : ℕ

abbrev pub is_newline : TokenKind → Bool
is_newline TokenKind.newline = true
is_newline _ = false

abbrev pub is_indent : TokenKind → Bool
is_indent TokenKind.indent = true
is_indent _ = false

abbrev pub is_dedent : TokenKind → Bool
is_dedent TokenKind.dedent = true
is_dedent _ = false

-- `matches!(kind, TokenKind::Pipeline | TokenKind::Broadcast)`
abbrev pub is_pipe : TokenKind → Bool
is_pipe TokenKind.pipeline = true
is_pipe TokenKind.broadcast = true
is_pipe _ = false

abbrev pub is_continuation : TokenKind → Bool
is_continuation TokenKind.pipeline = true
is_continuation TokenKind.broadcast = true
is_continuation TokenKind.arrow = true
is_continuation TokenKind.fat_arrow = true
is_continuation TokenKind.comma = true
is_continuation _ = false

abbrev pub is_block : TokenKind → Bool
is_block k = is_indent k || is_dedent k

-- `advance`, n times; the callers have looked at the characters that it passes.
abbrev pub advance : ℕ → Lexer → Lexer
advance n s = record s { rest = drop n s.rest; column = s.column + n }

abbrev pub push : Token → Lexer → Lexer
push t s = record s { tokens = t ∷ s.tokens }

-- `emit_single` and `emit_triple`: n is the number of characters passed.
abbrev pub emit : ℕ → TokenKind → Text → Lexer → Lexer
emit n kind lexeme s = advance n (push (token kind s.line s.column lexeme) s)

-- `tokens.remove(idx)` at the last token that is no indent or dedent, if that is a newline.
unfoldable pub remove_newline : List Token → List Token
remove_newline [] = []
remove_newline (t ∷ ts) =
    let deeper = t ∷ remove_newline ts in
    if is_block t.kind then deeper else if is_newline t.kind then ts else t ∷ ts

unfoldable pub emit_double : TokenKind → Text → Lexer → Lexer
emit_double kind lexeme s =
    emit 2 kind lexeme
      (record s { tokens = if is_pipe kind then remove_newline s.tokens else s.tokens })

unfoldable pub should_suppress_newline : List Token → Bool
should_suppress_newline [] = true
should_suppress_newline (t ∷ ts) =
    let earlier = should_suppress_newline ts in
    if is_block t.kind || is_newline t.kind then earlier else is_continuation t.kind

-- `last_is_newline || tokens.is_empty()`
abbrev pub skips_newline : List Token → Bool
skips_newline [] = true
skips_newline (t ∷ ts) = is_newline t.kind

abbrev pub push_newline : Lexer → Lexer
push_newline s =
    if should_suppress_newline s.tokens || skips_newline s.tokens
    then s
    else push (token TokenKind.newline s.line s.column (b'\\' ∷ b'n' ∷ [])) s

-- `handle_newline`, by the nesting depth.
unfoldable pub newline_at : ℕ → Lexer → Lexer
newline_at (suc depth) s = record s {
  rest = drop 1 s.rest;
  line = s.line + 1;
  column = 1;
  at_line_start = false;
}
newline_at zero s = record (push_newline s) {
  rest = drop 1 s.rest;
  line = s.line + 1;
  column = 1;
  at_line_start = true;
}

abbrev pub handle_newline : Lexer → Lexer
handle_newline s = newline_at s.nesting_depth s
