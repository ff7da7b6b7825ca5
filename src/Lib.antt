-- ===== src/Lib.antt =====
-- Marreta is a language for web services: a source is lexed (src/token.rs, src/lexer.rs),
-- parsed, and interpreted behind an HTTP server. This library models the parts of its
-- implementation that decide something by themselves, as functions with the names of the code,
-- and proves what they are for. Paths are those of the repository.
--
-- Base holds the shared names, Boolean tests, lists, options and Rust's Result with two more
-- cases, a panic and fuel that ran out. Text holds texts as lists of code points with the
-- operations of Rust's str, the order and the sort of texts, decimal numbers, and HashMap as an
-- association list (Text.Dict) whose order stands for the order of iteration.
--
-- Token and Token.Kind are src/token.rs: the kinds of tokens, Token, and keyword_lookup.
--
-- Lex is src/lexer.rs. The state Lexer (Lex.State) keeps source and pos as the unread text, and
-- tokens and indent_stack with their last element first. Lex.Scan has the loops over
-- characters, Lex.Step one round of the loop of tokenize, with handle_indentation, the
-- operators, strings, numbers and words; Lex has Lexer::new and tokenize. The loop runs on one
-- more fuel than there are characters; each round reads a character at least. Lex.Layout shows
-- that the tokens are built by a machine with a few moves (Moves), and from that how blocks,
-- line breaks and the end of the file are placed, and how the blocks are indented in each state
-- that the loop passes through (Reached). Lex.Progress is about the fuel, Lex.Sources about
-- line ends and sources of spaces. Floats are kept by their lexeme, whose parsing is the
-- standard library's.
--
-- Syntax is src/ast.rs: Syntax.Types the types without recursion, Syntax the expressions,
-- statements and the lists of themselves that they hold.
--
-- Parser is src/parser.rs, method by method. The state Parser (Parser.State) keeps tokens and
-- pos as the unread tokens, with the last token of the file for reading past the end, and
-- inside_transaction; Parser.Action has the monad of the methods, with errors as values, and
-- the loops. The methods that call each other in a circle (parse_expression, parse_statement,
-- parse_if_expression) take a record Calls of what they call (Parser.Calls), and
-- Parser.Statements closes the circle: each turn spends one unit of fuel, and parse gives two
-- units for each token and two more; a loop has one more round than there are tokens.
-- Parser.Blocks, Stages, Expressions, Simple, Scenario, Schema and Route hold the methods by
-- what they read. Parser.Progress shows, method by method, which tokens are taken, by search
-- over rules (Keeps, Eats) for the ways to compose actions, and Parser.Total that the fuel is
-- enough. Parser.Operators has formulas with their printer, at the levels that the code gives
-- the operators,, and reads them back (Reading, Operands, Formulas); Parser.Lawful is about
-- what the parser promises of the statements it returns; Parser.Names about reserved words. An
-- error carries what the code puts into its message.
--
-- Features is src/feature_flags.rs; Features.Regex states the regular expression that the code
-- quotes and does not run. The wording of messages is left out.
--
-- Version is src/version.rs, and Version.Runtime is check_runtime_compatibility of
-- src/file_loader.rs.
--
-- Trace is src/trace_context.rs. The random source of the operating system is a parameter
-- (Entropy), of which IsEntropy says that it fills an array with bytes; that a source gives
-- something else than zeros within the fuel is a hypothesis where it is needed. The loop that
-- shortens a tracestate runs on as much fuel as there are entries, since each round drops one.
--
-- Db is the SQL builder, src/db/query_builder.rs with the types of src/db/driver.rs:
-- Db.Identifier the guard of identifiers, Db.Order the ORDER BY clause, Db.Query the
-- statements. Values are of any type, with the pattern Value::List as a parameter. An error
-- carries the identifier where the code puts it, shortened, into a message.
--
-- Environment is src/environment.rs, with the innermost scope first. Environment.Abstract says
-- what each operation promises of scopes that are partial functions, Environment.Refines that
-- the operations do it. SchemaCycle is src/schema_cycle.rs; its recursion runs on one more fuel
-- than there are schemas, since each call puts another one on the path. The project loader
-- rejects what it finds, which keeps the validator of payloads from looping.
--
-- Profile is the histogram PhaseStats of src/runtime_profile.rs, with one call after the other;
-- Profile.Histogram says what its buckets hold and what a percentile is.
--
-- Not modelled are the values and the interpreter, the validator, the server, migrations, lint,
-- formatter and tools, which are larger and come later, and the drivers of databases, caches
-- and queues, which call libraries.
pub mod Base
pub mod Text
pub mod Token
pub mod Syntax
pub mod Parser
pub mod Lex
pub mod Features
pub mod Version
pub mod Trace
pub mod Db
pub mod Environment
pub mod SchemaCycle
pub mod Profile
