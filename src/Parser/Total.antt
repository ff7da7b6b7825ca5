-- ===== src/Parser/Total.antt =====
-- src/parser.rs: `parse` on the tokens of a program.
use marreta_lang.Base.{ℕ, suc, ◌*◌, ◌≡◌, ◌≢◌, refl, true, not, List, [], ◌∷◌, ◌++◌, arith, length}
use marreta_lang.Base.Results.{ok, err, panic, timeout}
use marreta_lang.Token.Kind.{Token, eof_token}
use marreta_lang.Syntax.{Statement}
use marreta_lang.Parser.State.{is_eof, is_at_end, new, last_of}
use marreta_lang.Parser.Action.{Outcome}
use marreta_lang.Parser.Calls.{Calls}
use marreta_lang.Lex.{tokenize}
use marreta_lang.Lex.Layout.Ends.{tokenize-eof}
use marreta_lang.Text.{Text}
use marreta_lang.Parser.Statements.{calls_on, parse_from, parse, value_of}
use marreta_lang.Parser.Progress.{ends_in_eof, Ends, Keeps, Keeps-bind}
use marreta_lang.Parser.Progress.Loops.{Keeps-collect}
use marreta_lang.Parser.Progress.Actions.{Keeps-skip_newlines}
use marreta_lang.Parser.Progress.Blocks.{Good, Eats-block_item}
use marreta_lang.Parser.Progress.Statements.{calls_on-Good}

last_of_cons :
    (t : Token) (ts : List Token) → ends_in_eof (t ∷ ts) ≡ true → is_eof (last_of t ts).kind ≡ true
last_of_cons t [] e = e
last_of_cons t (u ∷ us) e = last_of_cons u us e

last_of-eof :
    (t : Token) (ts : List Token)
    → is_eof t.kind ≡ true
    → ends_in_eof ts ≡ true
    → is_eof (last_of t ts).kind ≡ true
last_of-eof t [] h e = h
last_of-eof t (u ∷ us) h e = last_of_cons u us e

value_of_total :
    (n : ℕ) (r : Outcome (List Statement))
    → Ends n r
    → (value_of r ≢ timeout) × (value_of r ≢ panic)
value_of_total n timeout h = absurd h
value_of_total n panic h = absurd h
value_of_total n (err failure) h = (λ e. cc, λ e. cc)
value_of_total n (ok (statements, s)) h = (λ e. cc, λ e. cc)

Keeps-parse_from : {n : ℕ} {c : Calls} → Good n c → Keeps n (parse_from c)
Keeps-parse_from good =
    Keeps-bind Keeps-skip_newlines
      λ u. Keeps-collect (λ s. not (is_at_end s)) (Eats-block_item good)

-- Tokens of which the last is Eof, if there is one, are parsed without a panic and with enough fuel.
parse_total :
    (tokens : List Token)
    → ends_in_eof tokens ≡ true
    → (parse tokens ≢ timeout) × (parse tokens ≢ panic)
unfolding parse
parse_total tokens eof =
    let c = calls_on (2 * suc (length tokens)) in
    let good = calls_on-Good (2 * suc (length tokens)) (suc (length tokens)) (omega arith) in
    value_of_total _ (parse_from c (new tokens)) (
      (Keeps-parse_from good).run (new tokens) (last_of-eof (eof_token 0 0) tokens refl eof, eof)
        (omega arith))

ends_in_eof-append :
    (us : List Token) (t : Token) → is_eof t.kind ≡ true → ends_in_eof (us ++ t ∷ []) ≡ true
ends_in_eof-append [] t h = h
ends_in_eof-append (u ∷ []) t h = h
ends_in_eof-append (u ∷ v ∷ us) t h = ends_in_eof-append (v ∷ us) t h

tokenize-ends_in_eof :
    (source : Text) {tokens : List Token} → tokenize source ≡ ok tokens → ends_in_eof tokens ≡ true
tokenize-ends_in_eof source lexed =
    let (us, line, column, e, _) = tokenize-eof source lexed in
    rw e (ends_in_eof-append us (eof_token line column) refl)

-- On the tokens of every program that lexes, the parser neither runs out of its fuel nor panics: it
-- returns the program's statements or an error.
pub parse-tokenize_total :
    (source : Text) {tokens : List Token}
    → tokenize source ≡ ok tokens
    → (parse tokens ≢ timeout) × (parse tokens ≢ panic)
parse-tokenize_total source lexed = parse_total _ (tokenize-ends_in_eof source lexed)
