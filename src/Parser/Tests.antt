-- ===== src/Parser/Tests.antt =====
-- Tests of src/parser.rs, and the theorems on it at concrete programs.
use marreta_lang.Base.{ℕ, ◌≤◌, ◌≡◌, ◌≢◌, refl, true, List, [], ◌∷◌, ◌++◌, some, length, all, arith}
use marreta_lang.Base.Results.{Result, ok, err, timeout, panic}
use marreta_lang.Text.{Text, codes, text_eq}
use marreta_lang.Token.Kind.{TokenKind, Token, token, eof_token}
use marreta_lang.Token.{keyword_lookup, first_arm}
use marreta_lang.Lex.State.{emit_double, newline_at, should_suppress_newline, remove_newline}
use marreta_lang.Lex.Scan.{span, dedent, unescape, scan_string, scan_number}
use marreta_lang.Lex.Step.{
  step, decimal, start_at, handle_indentation, set_indent, close_indent, read_token, read_from,
  action, operator, delimiter, perform, skip_comment, read_string, string_token, read_number,
  number_token, read_identifier,
}
use marreta_lang.Lex.{tokenize, replace_cr, replace_crlf, run, run_on, finish, close_blocks}
use marreta_lang.Syntax.{Statement}
use marreta_lang.Syntax.Types.{BinaryOperator, UnaryOperator}
use marreta_lang.Parser.State.{
  discriminant, same_kind, without_newlines, new, unexpected_token, words, lexeme, ParseError,
  reserved_word,
}
use marreta_lang.Parser.Action.{
  ◌>>=◌, pure, throw, panics, gets, advance, skip_newlines, rewind, set_inside, expect,
  expect_identifier, expect_name, expect_integer, expect_string, expect_identifier_lexeme, while_on,
  while_loop, loop_on, loop, collect,
}
use marreta_lang.Parser.Blocks.{
  parse_as, parse_block, parse_indented, body_from, parse_expression_block_body,
  parse_task_like_body, parse_else, parse_if_expression, parse_match_arm, parse_match_expression,
  parse_list_literal, parse_map_literal, constructor_round, parse_schema_constructor,
  argument_round, parse_argument_list,
}
use marreta_lang.Parser.Stages.{
  parse_rescue_inline, parse_rescue_stage, parse_keep, parse_skip, parse_map_statement,
  parse_map_stage, parse_reduce_stage, stage_round, parse_pipeline_stages, parse_broadcast,
}
use marreta_lang.Parser.Expressions.{
  current_infix_precedence, token_to_binop, keyword_identifier, parse_as_schema,
  is_http_client_method_call, parse_response_schema, parse_queue_producer_args, parse_queue,
  parse_topic, parse_task_call, parse_identifier, parse_fail_expression, prefix_at, parse_prefix,
  parse_subscript, parse_member, infix_at, parse_infix, parse_rescue_modifier, parse_expression,
  maybe_parse_pipeline,
}
use marreta_lang.Parser.Simple.{
  parse_requeue, parse_nack, parse_content_type, parse_assignment, parse_require, parse_reject,
  parse_while, parse_transaction, parse_raise, parse_reply, parse_fail,
}
use marreta_lang.Parser.Scenario.{
  parse_http_verb, when_count, then_count, checked_scenario, parse_scenario_given,
  parse_scenario_when, parse_scenario_then, parse_step, parse_scenario,
}
use marreta_lang.Parser.Schema.{
  enum_value, parse_enum_schema_type, schema_type_at, schema_type_on, parse_schema_type, trim_marks,
  schema_field, schema_item, parse_schema, auth_provider_of, provider_field, parse_auth_provider,
}
use marreta_lang.Parser.Route.{
  take_kind_of, take_binding, parse_take_bindings, parse_route_auth, take_line, parse_route_allow,
  route_item, parse_route, wildcard_topic, parse_on,
}
use marreta_lang.Parser.Statements.{
  parse_param_list, token_at_pos, parse_task_def, export_at, parse_export, word_statement,
  other_statement, statement_at, parse_statement, calls_on, parse,
}
use marreta_lang.Parser.Total.{parse-tokenize_total}
use marreta_lang.Parser.Operators.{
  Formula, number, name, unary, binary, member, element, expression_of, bare, print,
}
use marreta_lang.Parser.Operators.Reading.{at, written}
use marreta_lang.Parser.Operators.Formulas.{expression-print}
use marreta_lang.Parser.Lawful.{lawful}
use marreta_lang.Parser.Lawful.Programs.{parse-lawful}
use marreta_lang.Parser.Names.{reserved_words}
use marreta_lang.Parser.Progress.Blocks.{Good}
use marreta_lang.Parser.Progress.Statements.{calls_on-Good}

-- The tokens of a source, and the statements of tokens, where there are any.
abbrev tokens_of : Text → List Token
tokens_of source = elim (tokenize source) [ ok tokens ↦ tokens | _ ↦ [] ]

abbrev parsed : List Token → List Statement
parsed tokens = elim (parse tokens) [ ok statements ↦ statements | _ ↦ [] ]

-- Everything that the parser and the lexer run opens with this name.
unfoldable parsing : Text → Result ParseError (List Statement)
unfolding tokenize run run_on step start_at handle_indentation set_indent close_indent dedent
    read_token read_from action operator delimiter perform emit_double newline_at skip_comment
    read_string string_token scan_string unescape read_number number_token scan_number decimal
    read_identifier span keyword_lookup first_arm text_eq should_suppress_newline remove_newline
    finish close_blocks replace_cr replace_crlf discriminant same_kind without_newlines pure throw
    panics gets advance skip_newlines rewind set_inside expect expect_identifier expect_name
    expect_integer expect_string expect_identifier_lexeme while_on while_loop loop_on loop collect
    parse_as parse_block parse_indented body_from parse_expression_block_body parse_task_like_body
    parse_else parse_if_expression parse_match_arm parse_match_expression parse_list_literal
    parse_map_literal constructor_round parse_schema_constructor argument_round parse_argument_list
    parse_rescue_inline parse_rescue_stage parse_keep parse_skip parse_map_statement parse_map_stage
    parse_reduce_stage stage_round parse_pipeline_stages parse_broadcast current_infix_precedence
    token_to_binop keyword_identifier parse_as_schema is_http_client_method_call
    parse_response_schema parse_queue_producer_args parse_queue parse_topic parse_task_call
    parse_identifier parse_fail_expression prefix_at parse_prefix parse_subscript parse_member
    infix_at parse_infix parse_rescue_modifier parse_expression maybe_parse_pipeline parse_requeue
    parse_nack parse_content_type parse_assignment parse_require parse_reject parse_while
    parse_transaction parse_raise parse_reply parse_fail parse_http_verb when_count then_count
    checked_scenario parse_scenario_given parse_scenario_when parse_scenario_then parse_step
    parse_scenario enum_value parse_enum_schema_type schema_type_at schema_type_on parse_schema_type
    trim_marks schema_field schema_item parse_schema auth_provider_of provider_field
    parse_auth_provider take_kind_of take_binding parse_take_bindings parse_route_auth take_line
    parse_route_allow route_item parse_route wildcard_topic parse_on parse_param_list token_at_pos
    parse_task_def export_at parse_export word_statement other_statement statement_at
    parse_statement calls_on parse ◌>>=◌
parsing text = parse (tokens_of text)

abbrev source : Text
source = codes "x = 1 + 2 * y\nwhile x > 3\n  x = x - 1\nreply 200, x\n"

source-lexes : tokenize source ≡ ok (tokens_of source)
unfolding parsing
source-lexes = refl

source-parses : length (parsed (tokens_of source)) ≡ 3
unfolding parsing
source-parses = refl

abbrev expected_expression : Text → ℕ → ℕ → Result ParseError (List Statement)
expected_expression got line column =
    err (unexpected_token (words (codes "expression")) (lexeme got) line column)

-- A trailing comma is accepted behind a positional argument, and not behind a named one.
positional_comma : length (parsed (tokens_of (codes "f(1,)"))) ≡ 1
unfolding parsing
positional_comma = refl

named_comma : parse (tokens_of (codes "f(a: 1,)")) ≡ expected_expression (codes ")") 1 8
unfolding parsing
named_comma = refl

-- The Dedent behind an indented `>>` is left to the next statement.
indented_pipeline : parse (tokens_of (codes "x = a\n  >> f\ny = 1\n")) ≡ expected_expression [] 3 1
unfolding parsing
indented_pipeline = refl

pipeline_behind_block :
    length (parsed (tokens_of (codes "x = match a\n  1 -> 2\n>> f\ny = 1\n"))) ≡ 2
unfolding parsing
pipeline_behind_block = refl

parse-tokenize_total_example :
    (parse (tokens_of source) ≢ timeout) × (parse (tokens_of source) ≢ panic)
parse-tokenize_total_example = parse-tokenize_total source source-lexes

-- A schema, a scenario and an export.
abbrev declarations : List Token
declarations = tokens_of (
    codes
      "schema order\n  status: enum [\"paid\", \"open\"]\nscenario \"s\"\n  when GET \"/\"\n  then status 200\nexport x = 1\n")

declarations-parse : parse declarations ≡ ok (parsed declarations)
unfolding parsing
declarations-parse = refl

parse-lawful_example : all lawful (parsed declarations) ≡ true
parse-lawful_example = parse-lawful declarations declarations-parse

-- `(1 + -x) * y[2].z`
abbrev formula : Formula
formula =
    binary (binary (number 1) BinaryOperator.add (unary UnaryOperator.negate (name (codes "x"))))
      BinaryOperator.multiply (member (element (name (codes "y")) (number 2)) (codes "z"))

-- `(not a) == b` is written without parentheses.
not_equality :
    print 0
      (binary (unary UnaryOperator.not (name (codes "a"))) BinaryOperator.equal (name (codes "b")))
    ≡ TokenKind.not
      ∷ TokenKind.identifier (codes "a")
      ∷ TokenKind.equal
      ∷ TokenKind.identifier (codes "b")
      ∷ []
unfolding bare
not_equality = refl

abbrev no_lexeme : TokenKind → Text
no_lexeme kind = []

abbrev ending : List Token
ending = eof_token 1 1 ∷ []

formula-fits : length (print 0 formula) ≤ 20
unfolding bare
formula-fits = omega arith

expression-print_example :
    (calls_on 20).expression 0 (at (new []) (written 1 1 no_lexeme (print 0 formula) ++ ending))
    ≡ ok (expression_of formula, at (new []) ending)
expression-print_example =
    expression-print 1 1 no_lexeme 20 0 formula ending (new []) formula-fits (omega arith, refl)

abbrev db_token : Token
db_token = token TokenKind.db 3 5 (codes "db")

db_token-reserved : keyword_lookup db_token.lexeme ≡ some db_token.kind
unfolding keyword_lookup first_arm text_eq
db_token-reserved = refl

reserved_words_example :
    (expect_name (at (new []) (db_token ∷ [])) ≡ ok (codes "db", at (new []) []))
    × (expect_identifier (at (new []) (db_token ∷ [])) ≡ err (reserved_word (codes "db") 3 5))
reserved_words_example = reserved_words (new []) db_token [] db_token-reserved

calls_on-Good_example : Good 4 (calls_on 8)
calls_on-Good_example = calls_on-Good 8 4 (omega arith)
