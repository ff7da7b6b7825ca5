-- ===== src/Lex/Tests.antt =====
-- Tests of src/lexer.rs, and the theorems on it at concrete programs.
use marreta_lang.Base.{ℕ, ◌≡◌, refl, List, [], ◌∷◌, map, ◌++◌, ◌≢◌, some, true}
use marreta_lang.Base.Results.{Result, ok, panic, timeout, ◌>>=◌}
use marreta_lang.Text.{Text, codes, text_eq}
use marreta_lang.Token.Kind.{TokenKind, Token, eof_token}
use marreta_lang.Token.{keyword_lookup, first_arm}
use marreta_lang.Lex.State.{
  LexError, Lexer, emit_double, newline_at, should_suppress_newline, remove_newline,
}
use marreta_lang.Lex.Scan.{span, dedent, unescape, scan_string, scan_number}
use marreta_lang.Lex.Step.{
  step, decimal, start_at, handle_indentation, set_indent, close_indent, read_token, read_from,
  action, operator, delimiter, perform, skip_comment, read_string, string_token, read_number,
  number_token, read_identifier,
}
use marreta_lang.Lex.{
  tokenize, replace_cr, replace_crlf, run, run_on, finish, close_blocks, new_lexer,
}
use marreta_lang.Lex.Layout.Blocks.{nest, tokenize-nest, IsFalling}
use marreta_lang.Lex.Layout.Reached.{IsReached-IsFalling, run-IsReached}
use marreta_lang.Lex.Layout.Newlines.{breaks_ok, at_start, tokenize-breaks_ok}
use marreta_lang.Lex.Layout.Ends.{tokenize-eof, no_eof}
use marreta_lang.Lex.Progress.{tokenize_ends}
use marreta_lang.Lex.Sources.{to_crlf, tokenize-to_crlf, tokenize-spaces}

kinds : Text → Result LexError (List TokenKind)
kinds s = tokenize s >>= λ ts. ok (map (λ t. t.kind) ts)

kinds-block :
    kinds (codes "task go\r\n  x = 4.5 # c\n\n  y \"a\\nb\"\nz")
    ≡ ok (
        TokenKind.task
        ∷ TokenKind.identifier (codes "go")
        ∷ TokenKind.newline
        ∷ TokenKind.indent
        ∷ TokenKind.identifier (codes "x")
        ∷ TokenKind.assign
        ∷ TokenKind.float (codes "4.5")
        ∷ TokenKind.newline
        ∷ TokenKind.identifier (codes "y")
        ∷ TokenKind.string_literal (codes "a\nb")
        ∷ TokenKind.newline
        ∷ TokenKind.dedent
        ∷ TokenKind.identifier (codes "z")
        ∷ TokenKind.eof
        ∷ [])
unfolding kinds tokenize run run_on step start_at handle_indentation set_indent close_indent dedent
    read_token read_from action operator delimiter perform emit_double newline_at skip_comment
    read_string string_token scan_string unescape read_number number_token scan_number decimal
    read_identifier span keyword_lookup first_arm text_eq should_suppress_newline remove_newline
    finish close_blocks replace_cr replace_crlf
kinds-block = refl

kinds-trailing : kinds (codes "x\n  ") ≡ panic
unfolding kinds tokenize run run_on step start_at handle_indentation set_indent close_indent dedent
    read_token read_from action operator delimiter perform emit_double newline_at skip_comment
    read_string string_token scan_string unescape read_number number_token scan_number decimal
    read_identifier span keyword_lookup first_arm text_eq should_suppress_newline remove_newline
    finish close_blocks replace_cr replace_crlf
kinds-trailing = refl

abbrev tokens_of : Result LexError (List Token) → List Token
tokens_of (ok ts) = ts
tokens_of _ = []

-- A block with a dedent, a comment, a blank line and a list over two lines.
abbrev program : Text
program = codes "task go\n  x = [1,\n 2] # c\n\n  if x\n    y\nz\n"

program-ok : tokenize program ≡ ok (tokens_of (tokenize program))
unfolding tokenize run run_on step start_at handle_indentation set_indent close_indent dedent
    read_token read_from action operator delimiter perform emit_double newline_at skip_comment
    read_string string_token scan_string unescape read_number number_token scan_number decimal
    read_identifier span keyword_lookup first_arm text_eq should_suppress_newline remove_newline
    finish close_blocks replace_cr replace_crlf
program-ok = refl

tokenize-nest_example : nest 0 (tokens_of (tokenize program)) ≡ some 0
tokenize-nest_example = tokenize-nest program program-ok

tokenize-breaks_ok_example : breaks_ok at_start (tokens_of (tokenize program)) ≡ true
tokenize-breaks_ok_example = tokenize-breaks_ok program program-ok

tokenize-eof_example :
    (us : List Token) × (line : ℕ) × (column : ℕ) × (tokens_of (tokenize program)
      ≡ us ++ (eof_token line column ∷ []))
    × (no_eof us ≡ true)
tokenize-eof_example = tokenize-eof program program-ok

tokenize_ends_example : tokenize program ≢ timeout
tokenize_ends_example = tokenize_ends program

abbrev lexer_of : Result LexError Lexer → Lexer
lexer_of (ok s) = s
lexer_of _ = new_lexer []

-- Eight rounds of the loop, up to the inner block.
abbrev nested : Text
nested = codes "if x\n  if y\n    z"

run-nested : run 12 (new_lexer nested) ≡ ok (lexer_of (run 12 (new_lexer nested)))
unfolding tokenize run run_on step start_at handle_indentation set_indent close_indent dedent
    read_token read_from action operator delimiter perform emit_double newline_at skip_comment
    read_string string_token scan_string unescape read_number number_token scan_number decimal
    read_identifier span keyword_lookup first_arm text_eq should_suppress_newline remove_newline
    finish close_blocks replace_cr replace_crlf
run-nested = refl

IsReached-IsFalling_example : IsFalling (lexer_of (run 12 (new_lexer nested))).indent_stack
IsReached-IsFalling_example = IsReached-IsFalling nested (run-IsReached nested 12 run-nested)

tokenize-to_crlf_example : tokenize (to_crlf program) ≡ tokenize program
tokenize-to_crlf_example = tokenize-to_crlf program refl

tokenize-spaces_example : tokenize (codes "   ") ≡ panic
tokenize-spaces_example = tokenize-spaces 2
