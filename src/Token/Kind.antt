-- ===== src/Token/Kind.antt =====
-- src/token.rs: `TokenKind` and `Token`. Text is the list of its code points. A `float` carries the
-- text of its literal, whose nearest `f64` the lexer stores.
use Prim.Native.Nat.{ℕ}
use mathlib.Core.List.{List, []}

pub data TokenKind : Type 0 where
  integer : ℕ → TokenKind
  float : List ℕ → TokenKind
  string_literal : List ℕ → TokenKind
  identifier : List ℕ → TokenKind
  true false null plus minus star slash percent equal not_equal greater less : TokenKind
  greater_equal less_equal and or not assign pipeline broadcast arrow fat_arrow : TokenKind
  left_paren right_paren left_bracket right_bracket left_brace right_brace comma : TokenKind
  dot colon task match fallback map reduce keep skip require reject while if_kw : TokenKind
  else_kw route take reply fail listen get post put patch delete db queue cache : TokenKind
  fs json base64 uuid log time math http_client doc feature env schema as_kw : TokenKind
  export of transaction raise rescue on topic nack requeue type_string : TokenKind
  type_integer type_float type_boolean type_instant type_date type_duration : TokenKind
  type_interval type_list type_map newline indent dedent eof : TokenKind

pub record Token : Type 0 where
  pub kind : TokenKind
  pub line : ℕ
  pub column : ℕ
  pub lexeme : List ℕ

-- `Token::new`
abbrev pub token : TokenKind → ℕ → ℕ → List ℕ → Token
token kind line column lexeme = record {
  kind = kind;
  line = line;
  column = column;
  lexeme = lexeme;
}

-- `Token::eof`
abbrev pub eof_token : ℕ → ℕ → Token
eof_token line column = token eof line column []
