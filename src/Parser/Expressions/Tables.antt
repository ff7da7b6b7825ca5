-- ===== src/Parser/Expressions/Tables.antt =====
-- src/parser.rs: which precedence and which operator a token has, and the keywords that are names.
use marreta_lang.Base.{ℕ, ltb, Bool, not, ◌&&◌, Option, none, some, if◌then◌else◌}
use marreta_lang.Text.{Text, codes, text_eq}
use marreta_lang.Token.Kind.{TokenKind}
use marreta_lang.Syntax.{Expression}
use marreta_lang.Syntax.Types.{BinaryOperator}
use marreta_lang.Parser.State.{Parser, is_at_end, current_kind}
use marreta_lang.Parser.Calls.{
  prec_none, prec_or, prec_and, prec_equality, prec_comparison, prec_addition, prec_multiplication,
  prec_call,
}

abbrev pub precedence_of : TokenKind → ℕ
precedence_of TokenKind.or = prec_or
precedence_of TokenKind.and = prec_and
precedence_of TokenKind.equal = prec_equality
precedence_of TokenKind.not_equal = prec_equality
precedence_of TokenKind.greater = prec_comparison
precedence_of TokenKind.less = prec_comparison
precedence_of TokenKind.greater_equal = prec_comparison
precedence_of TokenKind.less_equal = prec_comparison
precedence_of (TokenKind.identifier name) =
    if text_eq name (codes "in") then prec_comparison else prec_none
precedence_of TokenKind.plus = prec_addition
precedence_of TokenKind.minus = prec_addition
precedence_of TokenKind.star = prec_multiplication
precedence_of TokenKind.slash = prec_multiplication
precedence_of TokenKind.percent = prec_multiplication
precedence_of TokenKind.dot = prec_call
precedence_of TokenKind.left_bracket = prec_call
precedence_of TokenKind.pipeline = prec_or
precedence_of TokenKind.broadcast = prec_or
precedence_of _ = prec_none

unfoldable pub current_infix_precedence : Parser → ℕ
current_infix_precedence s = if is_at_end s then prec_none else precedence_of (current_kind s)

-- `token_to_binop`; the caller has seen that there is one.
unfoldable pub token_to_binop : TokenKind → Option BinaryOperator
token_to_binop TokenKind.plus = some BinaryOperator.add
token_to_binop TokenKind.minus = some BinaryOperator.subtract
token_to_binop TokenKind.star = some BinaryOperator.multiply
token_to_binop TokenKind.slash = some BinaryOperator.divide
token_to_binop TokenKind.percent = some BinaryOperator.modulo
token_to_binop TokenKind.equal = some BinaryOperator.equal
token_to_binop TokenKind.not_equal = some BinaryOperator.not_equal
token_to_binop TokenKind.greater = some BinaryOperator.greater
token_to_binop TokenKind.less = some BinaryOperator.less
token_to_binop TokenKind.greater_equal = some BinaryOperator.greater_equal
token_to_binop TokenKind.less_equal = some BinaryOperator.less_equal
token_to_binop (TokenKind.identifier name) =
    if text_eq name (codes "in") then some BinaryOperator.contained_in else none
token_to_binop TokenKind.and = some BinaryOperator.and
token_to_binop TokenKind.or = some BinaryOperator.or
token_to_binop _ = none

-- Keywords that `parse_prefix` reads as identifiers of their own spelling.
unfoldable pub keyword_identifier : TokenKind → Option Text
keyword_identifier TokenKind.db = some (codes "db")
keyword_identifier TokenKind.doc = some (codes "doc")
keyword_identifier TokenKind.feature = some (codes "feature")
keyword_identifier TokenKind.env = some (codes "env")
keyword_identifier TokenKind.cache = some (codes "cache")
keyword_identifier TokenKind.fs = some (codes "fs")
keyword_identifier TokenKind.json = some (codes "json")
keyword_identifier TokenKind.base64 = some (codes "base64")
keyword_identifier TokenKind.uuid = some (codes "uuid")
keyword_identifier TokenKind.log = some (codes "log")
keyword_identifier TokenKind.time = some (codes "time")
keyword_identifier TokenKind.math = some (codes "math")
keyword_identifier TokenKind.http_client = some (codes "http_client")
keyword_identifier TokenKind.type_string = some (codes "string")
keyword_identifier TokenKind.type_integer = some (codes "integer")
keyword_identifier TokenKind.type_float = some (codes "float")
keyword_identifier TokenKind.type_boolean = some (codes "boolean")
keyword_identifier TokenKind.type_instant = some (codes "instant")
keyword_identifier TokenKind.type_date = some (codes "date")
keyword_identifier TokenKind.type_duration = some (codes "duration")
keyword_identifier TokenKind.type_interval = some (codes "interval")
keyword_identifier _ = none

abbrev pub binds : ℕ → Expression → Parser → Bool
binds min_prec left s = not (is_at_end s) && ltb min_prec (current_infix_precedence s)
