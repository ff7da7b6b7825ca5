-- ===== src/Lex/Step.antt =====
-- src/lexer.rs: one round of the loop of `tokenize`. The arms of its `match` name an `Action`, which
-- `perform` carries out.
use marreta_lang.Base.{
  ℕ, ◌+◌, ◌-◌, ◌*◌, ◌^◌, Bool, true, false, ◌&&◌, ◌||◌, List, [], ◌∷◌, ◌++◌, ltb, ◌==◌,
  if◌then◌else◌, Option, none, some, head?, drop, length,
}
use marreta_lang.Base.Results.{Result, ok, err, panic, ◌>>=◌}
use marreta_lang.Text.{Text, codes, is_ascii_digit, is_ascii_alphabetic}
use marreta_lang.Token.Kind.{TokenKind, token}
use marreta_lang.Token.{keyword_lookup}
use marreta_lang.Lex.State.{
  LexError, unexpected_character, invalid_indentation, unterminated_string, invalid_number, Lexer,
  advance, push, emit, emit_double, handle_newline,
}
use marreta_lang.Lex.Scan.{
  span, is_space, in_comment, is_word, dedent, StringScan, scan_string, NumberScan, number,
  second_dot, scan_number,
}

pub data Action : Type 0 where
  blank newline comment string digits word bad : Action
  single double triple opening closing : TokenKind → Text → Action

-- `peek() == Some(c)`
abbrev peeks : Option ℕ → ℕ → Bool
peeks none c = false
peeks (some d) c = d == c

-- The arms that depend on the next character or two.
unfoldable pub operator : ℕ → Option ℕ → Option ℕ → Action
operator c next second =
    if c == b'-'
    then (if peeks next b'>'
        then double TokenKind.arrow (codes "->")
        else single TokenKind.minus (codes "-"))
    else if c == b'*'
    then (if peeks next b'>' && peeks second b'>'
        then triple TokenKind.broadcast (codes "*>>")
        else single TokenKind.star (codes "*"))
    else if c == b'='
    then (if peeks next b'='
        then double TokenKind.equal (codes "==")
        else if peeks next b'>'
        then double TokenKind.fat_arrow (codes "=>")
        else single TokenKind.assign (codes "="))
    else if c == b'!'
    then (if peeks next b'=' then double TokenKind.not_equal (codes "!=") else bad)
    else if c == b'>'
    then (if peeks next b'>'
        then double TokenKind.pipeline (codes ">>")
        else if peeks next b'='
        then double TokenKind.greater_equal (codes ">=")
        else single TokenKind.greater (codes ">"))
    else if peeks next b'='
    then double TokenKind.less_equal (codes "<=")
    else single TokenKind.less (codes "<")

-- The other punctuation.
unfoldable pub delimiter : ℕ → Action
delimiter c =
    if c == b'('
    then opening TokenKind.left_paren (codes "(")
    else if c == b')'
    then closing TokenKind.right_paren (codes ")")
    else if c == b'['
    then opening TokenKind.left_bracket (codes "[")
    else if c == b']'
    then closing TokenKind.right_bracket (codes "]")
    else if c == b'{'
    then opening TokenKind.left_brace (codes "{")
    else if c == b'}'
    then closing TokenKind.right_brace (codes "}")
    else if c == b','
    then single TokenKind.comma (codes ",")
    else if c == b'.'
    then single TokenKind.dot (codes ".")
    else if c == b':'
    then single TokenKind.colon (codes ":")
    else if c == b'+'
    then single TokenKind.plus (codes "+")
    else if c == b'/'
    then single TokenKind.slash (codes "/")
    else if c == b'%'
    then single TokenKind.percent (codes "%")
    else bad

abbrev pub is_operator : ℕ → Bool
is_operator c = c == b'-' || c == b'*' || c == b'=' || c == b'!' || c == b'>' || c == b'<'

unfoldable pub action : ℕ → Option ℕ → Option ℕ → Action
action c next second =
    if c == b' ' || c == b'\t' || c == b'\r'
    then blank
    else if c == b'\n'
    then newline
    else if c == b'#'
    then comment
    else if c == b'"'
    then string
    else if is_ascii_digit c
    then digits
    else if is_ascii_alphabetic c || c == b'_'
    then word
    else if is_operator c
    then operator c next second
    else delimiter c

unfoldable pub skip_comment : Lexer → Lexer
skip_comment s =
    let (passed, rest) = span in_comment s.rest in
    record s { rest = rest; column = s.column + length passed }

abbrev quoted : Text → Text
quoted value = b'"' ∷ (value ++ b'"' ∷ [])

-- The end of `read_string`: the token that starts at the opening quote.
unfoldable pub string_token : Lexer → Option StringScan → Result LexError Lexer
string_token s none = err (unterminated_string s.line s.column)
string_token s (some r) = ok (
    push (token (TokenKind.string_literal r.value) s.line s.column (quoted r.value))
      (record s { rest = r.rest; column = r.column }))

unfoldable pub read_string : Lexer → Result LexError Lexer
read_string s = string_token s (scan_string false [] (s.column + 1) (drop 1 s.rest))

-- The value of a lexeme of digits, most significant first: `str::parse`.
unfoldable pub decimal : ℕ → Text → ℕ
decimal acc [] = acc
decimal acc (c ∷ cs) = decimal (10 * acc + (c - b'0')) cs

-- `i64::MAX + 1`
abbrev pub i64_bound : ℕ
i64_bound = 2 ^ 63

-- The end of `read_number`: the token that starts at the first digit.
unfoldable pub number_token : Lexer → NumberScan → Result LexError Lexer
number_token s (second_dot lexeme) = err (invalid_number lexeme s.line s.column)
number_token s (number true lexeme rest) = ok (
    push (token (TokenKind.float lexeme) s.line s.column lexeme)
      (record s { rest = rest; column = s.column + length lexeme }))
number_token s (number false lexeme rest) =
    if ltb (decimal 0 lexeme) i64_bound
    then ok (
        push (token (TokenKind.integer (decimal 0 lexeme)) s.line s.column lexeme)
          (record s { rest = rest; column = s.column + length lexeme }))
    else err (invalid_number lexeme s.line s.column)

unfoldable pub read_number : Lexer → Result LexError Lexer
read_number s = number_token s (scan_number false [] s.rest)

-- `keyword_lookup(&word).unwrap_or_else(|| TokenKind::Identifier(word))`
abbrev pub or_identifier : Text → Option TokenKind → TokenKind
or_identifier w none = TokenKind.identifier w
or_identifier w (some k) = k

abbrev pub word_kind : Text → TokenKind
word_kind w = or_identifier w (keyword_lookup w)

unfoldable pub read_identifier : Lexer → Lexer
read_identifier s =
    let (w, rest) = span is_word s.rest in
    push (token (word_kind w) s.line s.column w)
      (record s { rest = rest; column = s.column + length w })

unfoldable pub perform : Action → ℕ → Lexer → Result LexError Lexer
perform blank c s = ok (advance 1 s)
perform newline c s = ok (handle_newline s)
perform comment c s = ok (skip_comment s)
perform string c s = read_string s
perform digits c s = read_number s
perform word c s = ok (read_identifier s)
perform bad c s = err (unexpected_character c s.line s.column)
perform (single kind lexeme) c s = ok (emit 1 kind lexeme s)
perform (double kind lexeme) c s = ok (emit_double kind lexeme s)
perform (triple kind lexeme) c s = ok (emit 3 kind lexeme s)
perform (opening kind lexeme) c s =
    ok (emit 1 kind lexeme (record s { nesting_depth = s.nesting_depth + 1 }))
perform (closing kind lexeme) c s =
    ok (emit 1 kind lexeme (record s { nesting_depth = s.nesting_depth - 1 }))

-- `self.is_at_end() || self.current() == '\n' || self.current() == '#'`
abbrev pub is_blank_line : Text → Bool
is_blank_line [] = true
is_blank_line (c ∷ cs) = c == b'\n' || c == b'#'

-- `*indent_stack.last().unwrap_or(&0)`
abbrev pub current_indent : List ℕ → ℕ
current_indent [] = 0
current_indent (x ∷ stack) = x

-- Blocks are closed down to `spaces`, which must be the indentation of an open block.
unfoldable pub close_indent : ℕ → Lexer → Result LexError Lexer
close_indent spaces s =
    let (stack, tokens) =
      dedent spaces (token TokenKind.dedent s.line 1 []) s.indent_stack s.tokens in
    if current_indent stack == spaces
    then ok (record s { indent_stack = stack; tokens = tokens })
    else err (invalid_indentation s.line (current_indent stack) spaces)

-- The comparison with the current indentation, for a line of code behind `spaces` spaces.
unfoldable pub set_indent : ℕ → Lexer → Result LexError Lexer
set_indent spaces s =
    if ltb (current_indent s.indent_stack) spaces
    then ok (
        push (token TokenKind.indent s.line 1 [])
          (record s { indent_stack = spaces ∷ s.indent_stack }))
    else if ltb spaces (current_indent s.indent_stack)
    then close_indent spaces s
    else ok s

unfoldable pub handle_indentation : Lexer → Result LexError Lexer
handle_indentation s =
    let (spaces, rest) = span is_space s.rest in
    let s' = record s { rest = rest; column = s.column + length spaces } in
    if is_blank_line rest then ok s' else set_indent (length spaces) s'

-- `if self.at_line_start { self.handle_indentation()?; self.at_line_start = false; }`
unfoldable pub start_at : Bool → Lexer → Result LexError Lexer
start_at true s = handle_indentation s >>= λ s'. ok (record s' { at_line_start = false })
start_at false s = ok s

abbrev pub start_line : Lexer → Result LexError Lexer
start_line s = start_at s.at_line_start s

-- `let ch = self.current(); match ch { … }`. The index is out of range at the end of the source.
unfoldable pub read_from : Text → Lexer → Result LexError Lexer
read_from [] s = panic
read_from (c ∷ cs) s = perform (action c (head? cs) (head? (drop 1 cs))) c s

unfoldable pub read_token : Lexer → Result LexError Lexer
read_token s = read_from s.rest s

unfoldable pub step : Lexer → Result LexError Lexer
step s = start_line s >>= read_token
