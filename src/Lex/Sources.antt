-- ===== src/Lex/Sources.antt =====
-- src/lexer.rs: `tokenize` on sources with other line ends, and on a source of spaces only.
use marreta_lang.Base.{
  ℕ, zero, suc, ◌≡◌, ◌≢◌, refl, sym, ap, ◌∙◌, Bool, true, false, not, List, [], ◌∷◌, arith, ◌==◌,
  if◌then◌else◌, length, replicate, all,
}
use marreta_lang.Base.Results.{Result, panic}
use marreta_lang.Text.{Text}
use marreta_lang.Lex.{normalize, tokenize, replace_cr, replace_crlf, run, run_on, new_lexer}
use marreta_lang.Lex.State.{Lexer, LexError}
use marreta_lang.Lex.Scan.{span, is_space}
use marreta_lang.Lex.Step.{step, start_at, handle_indentation, read_token, read_from}

-- The text with `\r\n` for every `\n`, as it is saved on Windows.
abbrev pub to_crlf : Text → Text
to_crlf [] = []
to_crlf (c ∷ s) = if c == b'\n' then b'\r' ∷ b'\n' ∷ to_crlf s else c ∷ to_crlf s

-- The text with `\r` for every `\n`.
abbrev pub to_cr : Text → Text
to_cr [] = []
to_cr (c ∷ s) = (if c == b'\n' then b'\r' else c) ∷ to_cr s

abbrev pub is_unix : Text → Bool
is_unix s = all (λ c. not (c == b'\r')) s

replace_cr-unix : (s : Text) → is_unix s ≡ true → replace_cr s ≡ s
unfolding replace_cr
replace_cr-unix [] h = refl
replace_cr-unix (c ∷ s) h = ground (arith, replace_cr-unix s)

-- A character that is no `\r` is passed over.
replace_crlf-step :
    (c : ℕ) (s : Text) → (c == b'\r') ≡ false → replace_crlf (c ∷ s) ≡ c ∷ replace_crlf s
unfolding replace_crlf
replace_crlf-step c [] h = refl
replace_crlf-step c (d ∷ s) h = rw h

replace_crlf-to_crlf : (s : Text) → is_unix s ≡ true → replace_crlf (to_crlf s) ≡ s
unfolding replace_crlf
replace_crlf-to_crlf [] h = refl
replace_crlf-to_crlf (c ∷ s) h =
    ground (arith, replace_crlf-to_crlf s, replace_crlf-step c (to_crlf s))

replace_crlf-unix : (s : Text) → is_unix s ≡ true → replace_crlf s ≡ s
unfolding replace_crlf
replace_crlf-unix [] h = refl
replace_crlf-unix (c ∷ s) h = ground (arith, replace_crlf-unix s, replace_crlf-step c s)

-- A source without carriage returns gives the same tokens, or the same error, when it is saved with
-- CRLF line breaks.
pub tokenize-to_crlf : (s : Text) → is_unix s ≡ true → tokenize (to_crlf s) ≡ tokenize s
unfolding tokenize
tokenize-to_crlf s h =
    let same : normalize (to_crlf s) ≡ normalize s =
      ap replace_cr (replace_crlf-to_crlf s h ∙ sym (replace_crlf-unix s h)) in
    rw same

spaces-unix : (n : ℕ) → is_unix (replicate n b' ') ≡ true
spaces-unix zero = refl
spaces-unix (suc n) = spaces-unix n

span-spaces : (n : ℕ) → span is_space (replicate n b' ') ≡ (replicate n b' ', [])
unfolding span
span-spaces zero = refl
span-spaces (suc n) = rw (span-spaces n)

step-spaces :
    (n : ℕ) (s : Lexer) → s.rest ≡ replicate n b' ' → s.at_line_start ≡ true → step s ≡ panic
unfolding step start_at handle_indentation read_token read_from
step-spaces n s h e = rw (e, h, span-spaces n)

-- The loop passes a panic on.
run_on-panic :
    (t : Text) (s : Lexer) (again : Lexer → Result LexError Lexer)
    → t ≢ []
    → step s ≡ panic
    → run_on t s again ≡ panic
unfolding run_on
run_on-panic [] s again h e = absurd (h refl)
run_on-panic (c ∷ cs) s again h e = rw e

-- On a source of spaces only, and at least one, tokenize panics.
pub tokenize-spaces : (n : ℕ) → tokenize (replicate (suc n) b' ') ≡ panic
unfolding tokenize run
tokenize-spaces n =
    let spaces : List ℕ = replicate (suc n) b' ' in
    let same : normalize spaces ≡ spaces =
      ap replace_cr (replace_crlf-unix spaces (spaces-unix (suc n)))
      ∙ replace_cr-unix spaces (spaces-unix (suc n)) in
    let start : Lexer = new_lexer spaces in
    rw (
      run_on-panic (normalize spaces) start (run (length (normalize spaces)))
        (λ e. cc (rw same at e)) (step-spaces (suc n) start same refl))
