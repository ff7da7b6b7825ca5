-- ===== src/Parser/State.antt =====
-- src/parser.rs: the `Parser`, its errors, and the helpers that look at tokens. `tokens` and `pos`
-- are kept as `rest`, the tokens from `pos` on, and `last`, the last token of the stream, which is
-- the current one when `pos` is past the end.
use marreta_lang.Base.{
  ℕ, ◌==◌, Bool, true, false, not, ◌&&◌, Option, none, some, List, [], ◌∷◌, if◌then◌else◌,
}
use marreta_lang.Text.{Text, text_eq}
use marreta_lang.Token.{keyword_lookup}
use marreta_lang.Token.Kind.{TokenKind, Token, eof_token}

pub record Parser : Type 0 where
  pub rest : List Token
  pub last : Token
  pub inside_transaction : Bool

-- What an error says it expected: `format!("{:?}", kind)`, or a text.
pub data Expected : Type 0 where
  debug : TokenKind → Expected
  words : Text → Expected

-- What an error quotes as `got_lexeme`: a text, or the count of `format!("{when_count} when requests")`.
pub data Got : Type 0 where
  lexeme : Text → Got
  when_requests : ℕ → Got

-- The errors of `MarretaError` that the parser returns.
pub data ParseError : Type 0 where
  unexpected_token : Expected → Got → ℕ → ℕ → ParseError
  unexpected_end_of_input : Expected → ParseError
  unexpected_indentation : ℕ → ParseError
  reserved_word : Text → ℕ → ℕ → ParseError

-- `std::mem::discriminant`
unfoldable pub discriminant : TokenKind → ℕ
discriminant (TokenKind.integer _) = 0
discriminant (TokenKind.float _) = 1
discriminant (TokenKind.string_literal _) = 2
discriminant (TokenKind.identifier _) = 3
discriminant TokenKind.true = 4
discriminant TokenKind.false = 5
discriminant TokenKind.null = 6
discriminant TokenKind.plus = 7
discriminant TokenKind.minus = 8
discriminant TokenKind.star = 9
discriminant TokenKind.slash = 10
discriminant TokenKind.percent = 11
discriminant TokenKind.equal = 12
discriminant TokenKind.not_equal = 13
discriminant TokenKind.greater = 14
discriminant TokenKind.less = 15
discriminant TokenKind.greater_equal = 16
discriminant TokenKind.less_equal = 17
discriminant TokenKind.and = 18
discriminant TokenKind.or = 19
discriminant TokenKind.not = 20
discriminant TokenKind.assign = 21
discriminant TokenKind.pipeline = 22
discriminant TokenKind.broadcast = 23
discriminant TokenKind.arrow = 24
discriminant TokenKind.fat_arrow = 25
discriminant TokenKind.left_paren = 26
discriminant TokenKind.right_paren = 27
discriminant TokenKind.left_bracket = 28
discriminant TokenKind.right_bracket = 29
discriminant TokenKind.left_brace = 30
discriminant TokenKind.right_brace = 31
discriminant TokenKind.comma = 32
discriminant TokenKind.dot = 33
discriminant TokenKind.colon = 34
discriminant TokenKind.task = 35
discriminant TokenKind.match = 36
discriminant TokenKind.fallback = 37
discriminant TokenKind.map = 38
discriminant TokenKind.reduce = 39
discriminant TokenKind.keep = 40
discriminant TokenKind.skip = 41
discriminant TokenKind.require = 42
discriminant TokenKind.reject = 43
discriminant TokenKind.while = 44
discriminant TokenKind.if_kw = 45
discriminant TokenKind.else_kw = 46
discriminant TokenKind.route = 47
discriminant TokenKind.take = 48
discriminant TokenKind.reply = 49
discriminant TokenKind.fail = 50
discriminant TokenKind.listen = 51
discriminant TokenKind.get = 52
discriminant TokenKind.post = 53
discriminant TokenKind.put = 54
discriminant TokenKind.patch = 55
discriminant TokenKind.delete = 56
discriminant TokenKind.db = 57
discriminant TokenKind.queue = 58
discriminant TokenKind.cache = 59
discriminant TokenKind.fs = 60
discriminant TokenKind.json = 61
discriminant TokenKind.base64 = 62
discriminant TokenKind.uuid = 63
discriminant TokenKind.log = 64
discriminant TokenKind.time = 65
discriminant TokenKind.math = 66
discriminant TokenKind.http_client = 67
discriminant TokenKind.doc = 68
discriminant TokenKind.feature = 69
discriminant TokenKind.env = 70
discriminant TokenKind.schema = 71
discriminant TokenKind.as_kw = 72
discriminant TokenKind.export = 73
discriminant TokenKind.of = 74
discriminant TokenKind.transaction = 75
discriminant TokenKind.raise = 76
discriminant TokenKind.rescue = 77
discriminant TokenKind.on = 78
discriminant TokenKind.topic = 79
discriminant TokenKind.nack = 80
discriminant TokenKind.requeue = 81
discriminant TokenKind.type_string = 82
discriminant TokenKind.type_integer = 83
discriminant TokenKind.type_float = 84
discriminant TokenKind.type_boolean = 85
discriminant TokenKind.type_instant = 86
discriminant TokenKind.type_date = 87
discriminant TokenKind.type_duration = 88
discriminant TokenKind.type_interval = 89
discriminant TokenKind.type_list = 90
discriminant TokenKind.type_map = 91
discriminant TokenKind.newline = 92
discriminant TokenKind.indent = 93
discriminant TokenKind.dedent = 94
discriminant TokenKind.eof = 95

-- `==` of two kinds of which one has no payload, and of their discriminants.
unfoldable pub same_kind : TokenKind → TokenKind → Bool
same_kind a b = discriminant a == discriminant b

abbrev pub is_identifier : TokenKind → Bool
is_identifier (TokenKind.identifier _) = true
is_identifier _ = false

-- `TokenKind::Identifier(name) if name == word`
abbrev pub is_word_kind : Text → TokenKind → Bool
is_word_kind word (TokenKind.identifier name) = text_eq name word
is_word_kind word _ = false

abbrev pub is_string_literal : TokenKind → Bool
is_string_literal (TokenKind.string_literal _) = true
is_string_literal _ = false

abbrev pub is_eof : TokenKind → Bool
is_eof TokenKind.eof = true
is_eof _ = false

abbrev pub last_of : Token → List Token → Token
last_of t [] = t
last_of t (u ∷ us) = last_of u us

-- `Parser::new`; without tokens, `last` is never looked at.
abbrev pub new : List Token → Parser
new tokens = record {
  rest = tokens;
  last = last_of (eof_token 0 0) tokens;
  inside_transaction = false;
}

abbrev pub ends_at : List Token → Bool
ends_at [] = true
ends_at (t ∷ _) = is_eof t.kind

abbrev pub is_at_end : Parser → Bool
is_at_end s = ends_at s.rest

abbrev pub first_or : Token → List Token → Token
first_or last [] = last
first_or last (t ∷ _) = t

abbrev pub current : Parser → Token
current s = first_or s.last s.rest

abbrev pub current_kind : Parser → TokenKind
current_kind s = (current s).kind

abbrev second : List Token → Option TokenKind
second (_ ∷ t ∷ _) = some t.kind
second _ = none

abbrev pub peek_kind : Parser → Option TokenKind
peek_kind s = second s.rest

abbrev pub holds_kind : (TokenKind → Bool) → Option TokenKind → Bool
holds_kind p none = false
holds_kind p (some k) = p k

-- `self.peek_kind() == Some(&kind)`
abbrev pub peeks : TokenKind → Parser → Bool
peeks kind s = holds_kind (same_kind kind) (peek_kind s)

-- `matches!(self.current_kind(), kind)`
abbrev pub sees : TokenKind → Parser → Bool
sees kind s = same_kind kind (current_kind s)

abbrev pub check : TokenKind → Parser → Bool
check kind s = not (is_at_end s) && same_kind kind (current_kind s)

abbrev pub check_identifier_lexeme : Text → Parser → Bool
check_identifier_lexeme word s = is_word_kind word (current_kind s)

abbrev pub check_next_identifier_lexeme : Text → Parser → Bool
check_next_identifier_lexeme word s = holds_kind (is_word_kind word) (peek_kind s)

abbrev pub tail_of : List Token → List Token
tail_of [] = []
tail_of (_ ∷ ts) = ts

abbrev pub moved : Parser → Parser
moved s = record s { rest = tail_of s.rest }

unfoldable pub without_newlines : List Token → List Token
without_newlines [] = []
without_newlines (t ∷ ts) =
    if same_kind TokenKind.newline t.kind then without_newlines ts else t ∷ ts

abbrev pub matching : TokenKind → Text → Option TokenKind → Option Text
matching kind word none = none
matching kind word (some k) = if same_kind k kind then some word else none

abbrev pub word_of : Token → Option Text
word_of t = matching t.kind t.lexeme (keyword_lookup t.lexeme)

abbrev pub reserved_word_as_name : Parser → Option Text
reserved_word_as_name s = word_of (current s)

abbrev pub is_some {ℓ} : {A : Type ℓ} → Option A → Bool
is_some none = false
is_some (some _) = true

abbrev pub is_reserved_word_token : Parser → Bool
is_reserved_word_token s = is_some (reserved_word_as_name s)
