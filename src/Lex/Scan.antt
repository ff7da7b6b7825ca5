-- ===== src/Lex/Scan.antt =====
-- src/lexer.rs: the loops of `handle_indentation`, `skip_comment`, `read_string`, `read_number` and
-- `read_identifier`, over the unread text.
use marreta_lang.Base.{
  ℕ, ◌+◌, Bool, true, false, not, ◌&&◌, ◌||◌, List, [], ◌∷◌, ◌++◌, ltb, ◌==◌, if◌then◌else◌, Option,
  none, some,
}
use marreta_lang.Text.{Text, is_ascii_digit, is_ascii_alphanumeric}
use marreta_lang.Token.Kind.{Token}

-- The characters that pass the test, and the rest of the text.
unfoldable pub span : (ℕ → Bool) → Text → Text × Text
span p [] = ([], [])
span p (c ∷ cs) =
    let more : Text × Text = (c ∷ (span p cs).0, (span p cs).1) in
    if p c then more else ([], c ∷ cs)

abbrev pub is_space : ℕ → Bool
is_space c = c == b' '

abbrev pub in_comment : ℕ → Bool
in_comment c = not (c == b'\n')

abbrev pub is_word : ℕ → Bool
is_word c = is_ascii_alphanumeric c || c == b'_' || c == b'?'

-- `while len > 1 && last > spaces { pop; push Dedent }`
unfoldable pub dedent : ℕ → Token → List ℕ → List Token → List ℕ × List Token
dedent spaces tok (x ∷ y ∷ stack) tokens =
    let more = dedent spaces tok (y ∷ stack) (tok ∷ tokens) in
    if ltb spaces x then more else (x ∷ y ∷ stack, tokens)
dedent spaces tok stack tokens = (stack, tokens)

-- What follows a backslash.
unfoldable pub unescape : ℕ → Text
unescape c =
    if c == b'n'
    then b'\n' ∷ []
    else if c == b't'
    then b'\t' ∷ []
    else if c == b'r'
    then b'\r' ∷ []
    else if c == b'\\'
    then b'\\' ∷ []
    else if c == b'"'
    then b'"' ∷ []
    else if c == b'#'
    then b'#' ∷ []
    else b'\\' ∷ c ∷ []

pub record StringScan : Type 0 where
  pub value : Text
  pub column : ℕ
  pub rest : Text

-- The loop of `read_string`, behind the opening quote; `escaped` says that a backslash stands in
-- front. `none` is an unterminated string.
unfoldable pub scan_string : Bool → Text → ℕ → Text → Option StringScan
scan_string escaped value column [] = none
scan_string true value column (c ∷ cs) = scan_string false (value ++ unescape c) (column + 1) cs
scan_string false value column (c ∷ cs) =
    let more =
      scan_string (c == b'\\') (if c == b'\\' then value else value ++ c ∷ []) (column + 1) cs in
    if c == b'"'
    then some (record { value = value; column = column + 1; rest = cs })
    else if c == b'\n'
    then none
    else more

pub data NumberScan : Type 0 where
  number : Bool → Text → Text → NumberScan
  second_dot : Text → NumberScan

abbrev pub starts_digit : Text → Bool
starts_digit [] = false
starts_digit (c ∷ cs) = is_ascii_digit c

-- The loop of `read_number`: whether there is a dot, the lexeme, and the rest.
unfoldable pub scan_number : Bool → Text → Text → NumberScan
scan_number has_dot lexeme [] = number has_dot lexeme []
scan_number has_dot lexeme (c ∷ cs) =
    let more = scan_number (has_dot || c == b'.') (lexeme ++ c ∷ []) cs in
    let bad = second_dot (lexeme ++ c ∷ []) in
    let done = number has_dot lexeme (c ∷ cs) in
    if is_ascii_digit c
    then more
    else if c == b'.' && starts_digit cs
    then (if has_dot then bad else more)
    else done
