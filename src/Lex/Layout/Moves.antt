-- ===== src/Lex/Layout/Moves.antt =====
-- `step`, `run` and `finish` of src/lexer.rs make only moves of the layout machine.
use marreta_lang.Base.{
  ℕ, zero, suc, ◌≡◌, refl, Bool, true, false, ◌&&◌, ◌||◌, List, [], ◌∷◌, arith, ltb, Option, none,
  some, Bool-cases, Option-cases, inl, inr, ltb→lt, and-eq_true,
}
use marreta_lang.Base.Results.{Result, ok, err, panic, timeout, ◌>>=◌}
use mathlib.Core.Option.{some-injective}
use marreta_lang.Text.{Text, text_eq}
use marreta_lang.Token.Kind.{TokenKind, Token, token}
use marreta_lang.Token.{first_arm, keyword_lookup, keywords}
use marreta_lang.Lex.State.{
  LexError, Lexer, emit_double, newline_at, is_dedent, is_pipe, should_suppress_newline,
  skips_newline, push_newline,
}
use marreta_lang.Lex.Scan.{
  span, is_space, dedent, is_word, StringScan, NumberScan, number, second_dot,
}
use marreta_lang.Lex.Step.{
  Action, blank, newline, comment, string, digits, word, bad, single, double, triple, opening,
  closing, operator, delimiter, action, perform, string_token, number_token, decimal, i64_bound,
  word_kind, read_number, read_string, skip_comment, read_identifier, set_indent, close_indent,
  handle_indentation, start_line, start_at, current_indent, read_from, read_token, step,
  is_blank_line,
}
use marreta_lang.Lex.{run, run_on}
use marreta_lang.Lex.Layout.{Built, plain, joined, opened, closed, is_plain}

abbrev pub Holds : (Lexer → Type 0) → Result LexError Lexer → Type 0
Holds P (ok s) = P s
Holds P _ = Unit

abbrev pub IsBuilt : Lexer → Type 0
IsBuilt s = Built s.indent_stack s.tokens

pub Holds-bind :
    (P Q : Lexer → Type 0) (m : Result LexError Lexer) (f : Lexer → Result LexError Lexer)
    → Holds P m
    → ((s : Lexer) → P s → Holds Q (f s))
    → Holds Q (m >>= f)
Holds-bind P Q (ok s) f h k = k s h
Holds-bind P Q (err e) f h k = tt
Holds-bind P Q panic f h k = tt
Holds-bind P Q timeout f h k = tt

pub Holds-map :
    (P Q : Lexer → Type 0) (m : Result LexError Lexer)
    → ((s : Lexer) → P s → Q s)
    → Holds P m
    → Holds Q m
Holds-map P Q (ok s) f h = f s h
Holds-map P Q (err e) f h = tt
Holds-map P Q panic f h = tt
Holds-map P Q timeout f h = tt

-- The kinds that an action emits are plain.
abbrev pub IsPlain : Action → Type 0
IsPlain (single k l) = is_plain k ≡ true
IsPlain (double k l) = is_plain k ≡ true
IsPlain (triple k l) = is_plain k ≡ true
IsPlain (opening k l) = is_plain k ≡ true
IsPlain (closing k l) = is_plain k ≡ true
IsPlain _ = Unit

operator-IsPlain : (c : ℕ) (p q : Option ℕ) → IsPlain (operator c p q)
unfolding operator
operator-IsPlain c p q = ground arith

delimiter-IsPlain : (c : ℕ) → IsPlain (delimiter c)
unfolding delimiter
delimiter-IsPlain c = ground arith

action-IsPlain : (c : ℕ) (p q : Option ℕ) → IsPlain (action c p q)
unfolding action
action-IsPlain c p q = ground (arith, operator-IsPlain c p q, delimiter-IsPlain c)

all_arms : (TokenKind → Bool) → List (Text × TokenKind) → Bool
all_arms p [] = true
all_arms p ((w, k) ∷ arms) = p k && all_arms p arms

first_arm-IsPlain :
    (w : Text) (arms : List (Text × TokenKind)) {k : TokenKind}
    → all_arms is_plain arms ≡ true
    → first_arm w arms ≡ some k
    → is_plain k ≡ true
unfolding all_arms first_arm
first_arm-IsPlain w [] {k} h e = cc
first_arm-IsPlain w ((v, j) ∷ arms) {k} h e = elim (Bool-cases (text_eq v w)) [
  | inl same ↦
      let found : some j ≡ some k = rw same at e in
      rw (some-injective j k found) at (and-eq_true _ (all_arms is_plain arms) h).0
  | inr other ↦ first_arm-IsPlain w arms (and-eq_true _ _ h).1 (rw other at e)
]

keywords-IsPlain : all_arms is_plain keywords ≡ true
unfolding all_arms
keywords-IsPlain = refl

word_kind-IsPlain : (w : Text) → is_plain (word_kind w) ≡ true
word_kind-IsPlain w = elim (Option-cases (keyword_lookup w)) [
  | inl e ↦ rw e
  | inr (k, e) ↦ rw e (first_arm-IsPlain w keywords keywords-IsPlain (unfold keyword_lookup in e))
]

dedent-IsBuilt :
    (n : ℕ) (tok : Token) (stack : List ℕ) (tokens : List Token)
    → is_dedent tok.kind ≡ true
    → Built stack tokens
    → Built (dedent n tok stack tokens).0 (dedent n tok stack tokens).1
unfolding dedent
dedent-IsBuilt n tok [] tokens h b = b
dedent-IsBuilt n tok (x ∷ []) tokens h b = b
dedent-IsBuilt n tok (x ∷ y ∷ stack) tokens h b = elim (Bool-cases (ltb n x)) [
  | inl more ↦ rw more (dedent-IsBuilt n tok (y ∷ stack) (tok ∷ tokens) h (closed b h))
  | inr done ↦ rw done b
]

close_indent-IsBuilt : (n : ℕ) (s : Lexer) → IsBuilt s → Holds IsBuilt (close_indent n s)
unfolding close_indent
close_indent-IsBuilt n s b =
    let tok = token TokenKind.dedent s.line 1 [] in
    ground (arith, dedent-IsBuilt n tok s.indent_stack s.tokens refl b)

set_indent-IsBuilt : (n : ℕ) (s : Lexer) → IsBuilt s → Holds IsBuilt (set_indent n s)
unfolding set_indent
set_indent-IsBuilt n s b = elim (Bool-cases (ltb (current_indent s.indent_stack) n)) [
  | inl deeper ↦ rw deeper (opened b (ltb→lt _ _ deeper) refl)
  | inr other ↦ rw other (ground (arith, close_indent-IsBuilt n s b))
]

handle_indentation-IsBuilt : (s : Lexer) → IsBuilt s → Holds IsBuilt (handle_indentation s)
unfolding handle_indentation
handle_indentation-IsBuilt s b = elim (Bool-cases (is_blank_line (span is_space s.rest).1)) [
  | inl blank_line ↦ rw blank_line b
  | inr code ↦ rw code (set_indent-IsBuilt _ _ b)
]

start_at-IsBuilt : (first : Bool) (s : Lexer) → IsBuilt s → Holds IsBuilt (start_at first s)
unfolding start_at
start_at-IsBuilt true s b =
    Holds-bind IsBuilt IsBuilt (handle_indentation s)
      (λ s'. ok (record s' { at_line_start = false })) (handle_indentation-IsBuilt s b)
      (λ s' b'. b')
start_at-IsBuilt false s b = b

emit_double-IsBuilt :
    (k : TokenKind) (l : Text) (s : Lexer)
    → is_plain k ≡ true
    → IsBuilt s
    → IsBuilt (emit_double k l s)
unfolding emit_double
emit_double-IsBuilt k l s h b = elim (Bool-cases (is_pipe k)) [
  | inl pipe ↦ rw pipe (plain (joined b) h)
  | inr other ↦ rw other (plain b h)
]

push_newline-IsBuilt : (s : Lexer) → IsBuilt s → IsBuilt (push_newline s)
push_newline-IsBuilt s b =
    elim (Bool-cases (should_suppress_newline s.tokens || skips_newline s.tokens)) [
      | inl suppressed ↦ rw suppressed b
      | inr wanted ↦ rw wanted (Built.newline b refl (ground arith) (ground arith))
    ]

newline_at-IsBuilt : (depth : ℕ) (s : Lexer) → IsBuilt s → IsBuilt (newline_at depth s)
unfolding newline_at
newline_at-IsBuilt (suc depth) s b = b
newline_at-IsBuilt zero s b = push_newline-IsBuilt s b

string_token-IsBuilt :
    (s : Lexer) (r : Option StringScan) → IsBuilt s → Holds IsBuilt (string_token s r)
unfolding string_token
string_token-IsBuilt s none b = tt
string_token-IsBuilt s (some r) b = plain b refl

number_token-IsBuilt : (s : Lexer) (r : NumberScan) → IsBuilt s → Holds IsBuilt (number_token s r)
unfolding number_token
number_token-IsBuilt s (second_dot l) b = tt
number_token-IsBuilt s (number true l rest) b = plain b refl
number_token-IsBuilt s (number false l rest) b = elim (Bool-cases (ltb (decimal 0 l) i64_bound)) [
  | inl fits ↦ rw fits (plain b refl)
  | inr large ↦ rw large tt
]

perform-IsBuilt :
    (a : Action) (c : ℕ) (s : Lexer) → IsPlain a → IsBuilt s → Holds IsBuilt (perform a c s)
unfolding perform
perform-IsBuilt blank c s h b = b
perform-IsBuilt newline c s h b = newline_at-IsBuilt s.nesting_depth s b
perform-IsBuilt comment c s h b = unfold skip_comment in b
perform-IsBuilt string c s h b = unfold read_string in string_token-IsBuilt s _ b
perform-IsBuilt digits c s h b = unfold read_number in number_token-IsBuilt s _ b
perform-IsBuilt word c s h b =
    unfold read_identifier in plain b (word_kind-IsPlain (span is_word s.rest).0)
perform-IsBuilt bad c s h b = tt
perform-IsBuilt (single k l) c s h b = plain b h
perform-IsBuilt (double k l) c s h b = emit_double-IsBuilt k l s h b
perform-IsBuilt (triple k l) c s h b = plain b h
perform-IsBuilt (opening k l) c s h b = plain b h
perform-IsBuilt (closing k l) c s h b = plain b h

read_from-IsBuilt : (t : Text) (s : Lexer) → IsBuilt s → Holds IsBuilt (read_from t s)
unfolding read_from
read_from-IsBuilt [] s b = tt
read_from-IsBuilt (c ∷ cs) s b = perform-IsBuilt _ c s (action-IsPlain c _ _) b

pub step-IsBuilt : (s : Lexer) → IsBuilt s → Holds IsBuilt (step s)
unfolding step read_token
step-IsBuilt s b =
    Holds-bind IsBuilt IsBuilt (start_line s) read_token (start_at-IsBuilt s.at_line_start s b)
      (λ s' b'. read_from-IsBuilt s'.rest s' b')

run_on-IsBuilt :
    (t : Text) (s : Lexer) (again : Lexer → Result LexError Lexer)
    → IsBuilt s
    → ((s' : Lexer) → IsBuilt s' → Holds IsBuilt (again s'))
    → Holds IsBuilt (run_on t s again)
unfolding run_on
run_on-IsBuilt [] s again b k = b
run_on-IsBuilt (_ ∷ _) s again b k = Holds-bind IsBuilt IsBuilt (step s) again (step-IsBuilt s b) k

pub run-IsBuilt : (fuel : ℕ) (s : Lexer) → IsBuilt s → Holds IsBuilt (run fuel s)
unfolding run
run-IsBuilt zero s b = tt
run-IsBuilt (suc fuel) s b = run_on-IsBuilt s.rest s (run fuel) b (λ s' b'. run-IsBuilt fuel s' b')
