-- ===== src/Lex/Progress.antt =====
-- src/lexer.rs: every round of the loop of `tokenize` reads a character, so the loop ends.
use marreta_lang.Base.{
  ℕ, zero, suc, ◌+◌, ◌≤◌, ◌<◌, ◌≡◌, ◌≢◌, refl, Bool, true, false, ◌&&◌, ◌||◌, List, [], ◌∷◌, ◌++◌,
  arith, ltb, ◌==◌, if◌then◌else◌, Option, none, some, length, length-drop_le, Bool-cases, inl, inr,
  if_ind,
}
use marreta_lang.Base.Results.{Result, ok, err, panic, timeout, ◌>>=◌}
use marreta_lang.Text.{Text, is_ascii_digit}
use marreta_lang.Token.Kind.{Token}
use marreta_lang.Lex.State.{LexError, Lexer, emit_double, newline_at}
use marreta_lang.Lex.Scan.{
  span, is_space, is_word, in_comment, unescape, StringScan, scan_string, NumberScan, number,
  second_dot, scan_number, starts_digit,
}
use marreta_lang.Lex.Step.{
  Action, blank, newline, comment, string, digits, word, bad, single, double, triple, opening,
  closing, operator, delimiter, action, perform, string_token, number_token, read_number, decimal,
  i64_bound, read_string, skip_comment, read_identifier, set_indent, close_indent,
  handle_indentation, start_at, start_line, read_from, read_token, step, is_blank_line,
}
use marreta_lang.Lex.{run, run_on, tokenize, new_lexer, normalize}

-- The result is no timeout, and a new state has the property.
abbrev Ends : (Lexer → Type 0) → Result LexError Lexer → Type 0
Ends P (ok s) = P s
Ends P (err e) = Unit
Ends P panic = Unit
Ends P timeout = ⊥

Ends-bind :
    (P Q : Lexer → Type 0) (m : Result LexError Lexer) (f : Lexer → Result LexError Lexer)
    → Ends P m
    → ((s : Lexer) → P s → Ends Q (f s))
    → Ends Q (m >>= f)
Ends-bind P Q (ok s) f h k = k s h
Ends-bind P Q (err e) f h k = tt
Ends-bind P Q panic f h k = tt
Ends-bind P Q timeout f h k = absurd h

Ends-map :
    (P Q : Lexer → Type 0) (m : Result LexError Lexer)
    → ((s : Lexer) → P s → Q s)
    → Ends P m
    → Ends Q m
Ends-map P Q (ok s) f h = f s h
Ends-map P Q (err e) f h = tt
Ends-map P Q panic f h = tt
Ends-map P Q timeout f h = absurd h

-- No more is unread than `n` characters.
abbrev Within : ℕ → Lexer → Type 0
Within n s = length s.rest ≤ n

length-span_le : (p : ℕ → Bool) (t : Text) → length (span p t).1 ≤ length t
unfolding span
length-span_le p [] = omega arith
length-span_le p (c ∷ t) = ground (arith, length-span_le p t)

length-span_lt :
    (p : ℕ → Bool) (c : ℕ) (t : Text) → p c ≡ true → length (span p (c ∷ t)).1 ≤ length t
unfolding span
length-span_lt p c t h = rw h (length-span_le p t)

abbrev StringFits : ℕ → Option StringScan → Type 0
StringFits n none = Unit
StringFits n (some r) = length r.rest ≤ n

StringFits-suc : (n : ℕ) (o : Option StringScan) → StringFits n o → StringFits (suc n) o
StringFits-suc n none h = tt
StringFits-suc n (some r) h = omega arith

scan_string-fits :
    (escaped : Bool) (value : Text) (column : ℕ) (t : Text)
    → StringFits (length t) (scan_string escaped value column t)
unfolding scan_string
scan_string-fits escaped value column [] = tt
scan_string-fits true value column (c ∷ t) =
    StringFits-suc (length t) _ (scan_string-fits false (value ++ unescape c) (column + 1) t)
scan_string-fits false value column (c ∷ t) =
    let kept = if c == b'\\' then value else value ++ c ∷ [] in
    if_ind (StringFits (suc (length t))) (c == b'"') (omega arith) (
      if_ind (StringFits (suc (length t))) (c == b'\n') tt
        (StringFits-suc (length t) _ (scan_string-fits (c == b'\\') kept (column + 1) t)))

abbrev NumberFits : ℕ → NumberScan → Type 0
NumberFits n (number d l rest) = length rest ≤ n
NumberFits n (second_dot l) = Unit

NumberFits-suc : (n : ℕ) (r : NumberScan) → NumberFits n r → NumberFits (suc n) r
NumberFits-suc n (number d l rest) h = omega arith
NumberFits-suc n (second_dot l) h = tt

scan_number-fits : (d : Bool) (l t : Text) → NumberFits (length t) (scan_number d l t)
unfolding scan_number
scan_number-fits d l [] = omega arith
scan_number-fits d l (c ∷ t) =
    let n = suc (length t) in
    let more = NumberFits-suc (length t) _ (scan_number-fits (d || c == b'.') (l ++ c ∷ []) t) in
    if_ind (NumberFits n) (is_ascii_digit c) more (
      if_ind (NumberFits n) (c == b'.' && starts_digit t) (if_ind (NumberFits n) d tt more)
        (omega arith))

scan_number-fits_digit :
    (c : ℕ) (t : Text)
    → is_ascii_digit c ≡ true
    → NumberFits (length t) (scan_number false [] (c ∷ t))
unfolding scan_number
scan_number-fits_digit c t h = rw h (scan_number-fits (c == b'.') (c ∷ []) t)

string_token-Within :
    (n : ℕ) (s : Lexer) (r : Option StringScan)
    → StringFits n r
    → Ends (Within n) (string_token s r)
unfolding string_token
string_token-Within n s none h = tt
string_token-Within n s (some r) h = h

number_token-Within :
    (n : ℕ) (s : Lexer) (r : NumberScan) → NumberFits n r → Ends (Within n) (number_token s r)
unfolding number_token
number_token-Within n s (second_dot l) h = tt
number_token-Within n s (number true l rest) h = h
number_token-Within n s (number false l rest) h = elim (Bool-cases (ltb (decimal 0 l) i64_bound)) [
  | inl fits ↦ rw fits h
  | inr large ↦ rw large tt
]

-- An action that reads a run of characters is taken at a character of the run.
abbrev Starts : ℕ → Action → Type 0
Starts c comment = in_comment c ≡ true
Starts c digits = is_ascii_digit c ≡ true
Starts c word = is_word c ≡ true
Starts c a = Unit

operator-Starts : (c : ℕ) (p q : Option ℕ) → Starts c (operator c p q)
unfolding operator
operator-Starts c p q = ground arith

delimiter-Starts : (c : ℕ) → Starts c (delimiter c)
unfolding delimiter
delimiter-Starts c = ground arith

action-Starts : (c : ℕ) (p q : Option ℕ) → Starts c (action c p q)
unfolding action
action-Starts c p q = ground (arith, operator-Starts c p q, delimiter-Starts c)

newline_at-Within :
    (depth c : ℕ) (t : Text) (s : Lexer) → s.rest ≡ c ∷ t → Within (length t) (newline_at depth s)
unfolding newline_at
newline_at-Within zero c t s e = rw e (omega arith)
newline_at-Within (suc depth) c t s e = rw e (omega arith)

-- Behind an action at `c ∷ t`, at most `t` is unread.
perform-Within :
    (a : Action) (c : ℕ) (t : Text) (s : Lexer)
    → Starts c a
    → s.rest ≡ c ∷ t
    → Ends (Within (length t)) (perform a c s)
unfolding perform
perform-Within blank c t s h e = rw e (omega arith)
perform-Within newline c t s h e = newline_at-Within s.nesting_depth c t s e
perform-Within comment c t s h e = unfold skip_comment in rw e (length-span_lt in_comment c t h)
perform-Within string c t s h e =
    unfold read_string in
    string_token-Within (length t) s _ (rw e (scan_string-fits false [] (s.column + 1) t))
perform-Within digits c t s h e =
    unfold read_number in number_token-Within (length t) s _ (rw e (scan_number-fits_digit c t h))
perform-Within word c t s h e = unfold read_identifier in rw e (length-span_lt is_word c t h)
perform-Within bad c t s h e = tt
perform-Within (single k l) c t s h e = rw e (omega arith)
perform-Within (double k l) c t s h e = unfold emit_double in rw e (length-drop_le 1 t)
perform-Within (triple k l) c t s h e = rw e (length-drop_le 2 t)
perform-Within (opening k l) c t s h e = rw e (omega arith)
perform-Within (closing k l) c t s h e = rw e (omega arith)

set_indent-Within : (n k : ℕ) (s : Lexer) → Within n s → Ends (Within n) (set_indent k s)
unfolding set_indent close_indent
set_indent-Within n k s h = ground arith

handle_indentation-Within :
    (n : ℕ) (s : Lexer) → Within n s → Ends (Within n) (handle_indentation s)
unfolding handle_indentation
handle_indentation-Within n s h =
    let spaces = span is_space s.rest in
    let s' = record s { rest = spaces.1; column = s.column + length spaces.0 } in
    let fits : Within n s' = omega (arith, length-span_le is_space s.rest) in
    if_ind (Ends (Within n)) (is_blank_line spaces.1) fits
      (set_indent-Within n (length spaces.0) s' fits)

start_at-Within :
    (n : ℕ) (first : Bool) (s : Lexer) → Within n s → Ends (Within n) (start_at first s)
unfolding start_at
start_at-Within n true s h =
    Ends-bind (Within n) (Within n) (handle_indentation s)
      (λ s'. ok (record s' { at_line_start = false })) (handle_indentation-Within n s h)
      (λ s' h'. h')
start_at-Within n false s h = h

read_from-Within :
    (n : ℕ) (t : Text) (s : Lexer) → s.rest ≡ t → length t ≤ suc n → Ends (Within n) (read_from t s)
unfolding read_from
read_from-Within n [] s e h = tt
read_from-Within n (c ∷ t) s e h =
    Ends-map (Within (length t)) (Within n) _ (λ s' w. omega arith)
      (perform-Within _ c t s (action-Starts c _ _) e)

-- A round reads a character at least.
pub step-Within : (n : ℕ) (s : Lexer) → Within (suc n) s → Ends (Within n) (step s)
unfolding step read_token
step-Within n s h =
    Ends-bind (Within (suc n)) (Within n) (start_line s) read_token
      (start_at-Within (suc n) s.at_line_start s h) (λ s' h'. read_from-Within n s'.rest s' refl h')

run_on-Ends :
    (n : ℕ) (t : Text) (s : Lexer) (again : Lexer → Result LexError Lexer)
    → s.rest ≡ t
    → length t ≤ n
    → ((m : ℕ) (s' : Lexer) → n ≡ suc m → Within m s' → Ends (Within 0) (again s'))
    → Ends (Within 0) (run_on t s again)
unfolding run_on
run_on-Ends n [] s again e h k = rw e (omega arith)
run_on-Ends zero (c ∷ t) s again e h k = absurd (omega arith)
run_on-Ends (suc m) (c ∷ t) s again e h k =
    Ends-bind (Within m) (Within 0) (step s) again (step-Within m s (rw e h)) (λ s'. k m s' refl)

-- With more fuel than unread characters the loop ends, and then nothing is unread.
pub run-Ends : (fuel : ℕ) (s : Lexer) → length s.rest < fuel → Ends (Within 0) (run fuel s)
unfolding run
run-Ends zero s h = absurd (omega arith)
run-Ends (suc fuel) s h =
    run_on-Ends fuel s.rest s (run fuel) refl (omega arith)
      (λ m s' e w. run-Ends fuel s' (omega arith))

not_timeout :
    (P : Lexer → Type 0) (m : Result LexError Lexer) (f : Lexer → Result LexError (List Token))
    → Ends P m
    → ((s : Lexer) → f s ≢ timeout)
    → m >>= f ≢ timeout
not_timeout P (ok s) f h k = k s
not_timeout P (err e) f h k = λ e'. cc
not_timeout P panic f h k = λ e'. cc
not_timeout P timeout f h k = absurd h

-- tokenize ends on every source: the fuel of its loop never runs out.
pub tokenize_ends : (source : Text) → tokenize source ≢ timeout
unfolding tokenize
tokenize_ends source =
    not_timeout (Within 0) (run (suc (length (normalize source))) (new_lexer source)) _
      (run-Ends _ (new_lexer source) (omega arith)) (λ s e. cc)
