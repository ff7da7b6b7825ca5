-- ===== src/Lex.antt =====
-- src/lexer.rs: `Lexer::new` and `tokenize`.
pub mod State
pub mod Scan
pub mod Step
pub mod Layout
pub mod Progress
pub mod Sources
mod Tests
use marreta_lang.Base.{ℕ, zero, suc, true, List, [], ◌∷◌, ◌==◌, if◌then◌else◌, length, reverse_onto}
use marreta_lang.Base.Results.{Result, ok, timeout, ◌>>=◌}
use marreta_lang.Text.{Text}
use marreta_lang.Token.Kind.{Token, TokenKind, token, eof_token}
use State.{LexError, Lexer}
use Step.{step}

-- `source.replace("\r\n", "\n").replace('\r', "\n")`: the second pass is on the result of the first.
unfoldable pub replace_crlf : Text → Text
replace_crlf [] = []
replace_crlf (c ∷ []) = c ∷ []
replace_crlf (c ∷ d ∷ s) =
    let pair = b'\n' ∷ replace_crlf s in
    let rest = c ∷ replace_crlf (d ∷ s) in
    if c == b'\r' then (if d == b'\n' then pair else rest) else rest

unfoldable pub replace_cr : Text → Text
replace_cr [] = []
replace_cr (c ∷ s) = (if c == b'\r' then b'\n' else c) ∷ replace_cr s

abbrev pub normalize : Text → Text
normalize source = replace_cr (replace_crlf source)

abbrev pub new_lexer : Text → Lexer
new_lexer source = record {
  rest = normalize source;
  tokens = [];
  line = 1;
  column = 1;
  indent_stack = 0 ∷ [];
  at_line_start = true;
  nesting_depth = 0;
}

-- One test of the `while` loop of `tokenize`, and the round behind it.
unfoldable pub run_on : Text → Lexer → (Lexer → Result LexError Lexer) → Result LexError Lexer
run_on [] s again = ok s
run_on (_ ∷ _) s again = step s >>= again

-- The loop, with fuel.
unfoldable pub run : ℕ → Lexer → Result LexError Lexer
run zero s = timeout
run (suc fuel) s = run_on s.rest s (run fuel)

-- The dedents that are emitted at the end of the file.
unfoldable pub close_blocks : Token → List ℕ → List Token → List Token
close_blocks tok (x ∷ y ∷ stack) tokens = close_blocks tok (y ∷ stack) (tok ∷ tokens)
close_blocks tok _ tokens = tokens

unfoldable pub finish : Lexer → List Token
finish s =
    eof_token s.line s.column
    ∷ close_blocks (token TokenKind.dedent s.line s.column []) s.indent_stack s.tokens

-- Every round of the loop reads a character at least, so this fuel is enough.
unfoldable pub tokenize : Text → Result LexError (List Token)
tokenize source = run (suc (length (normalize source))) (new_lexer source) >>= λ s.
    ok (reverse_onto (finish s) [])
