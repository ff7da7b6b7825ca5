-- ===== src/Lex/Layout/Reached.antt =====
-- src/lexer.rs: the states that the loop of `tokenize` passes through, also on the way to an error.
use marreta_lang.Base.{ℕ, zero, suc, ◌≡◌, ◌≢◌, refl, [], ◌∷◌}
use marreta_lang.Base.Results.{Result, ok, >>=-ok, ok-injective}
use marreta_lang.Text.{Text}
use marreta_lang.Lex.State.{Lexer, LexError}
use marreta_lang.Lex.Step.{step}
use marreta_lang.Lex.{run, run_on, new_lexer}
use marreta_lang.Lex.Layout.{start}
use marreta_lang.Lex.Layout.Blocks.{IsFalling, Built-IsFalling}
use marreta_lang.Lex.Layout.Moves.{IsBuilt, step-IsBuilt}

-- A round is done as long as something is unread.
pub data IsReached (source : Text) : Lexer → Type 0 where
  at_first : IsReached source (new_lexer source)
  round : {s t : Lexer} → IsReached source s → s.rest ≢ [] → step s ≡ ok t → IsReached source t

IsReached-IsBuilt : (source : Text) {s : Lexer} → IsReached source s → IsBuilt s
IsReached-IsBuilt source at_first = start
IsReached-IsBuilt source (round {s = s} reached more h) =
    rw h at (step-IsBuilt s (IsReached-IsBuilt source reached))

-- In every state that the rounds of the loop of tokenize lead to, also on the way to an error, the
-- open blocks are indented further and further, above the 0 at the bottom.
pub IsReached-IsFalling :
    (source : Text) {s : Lexer} → IsReached source s → IsFalling s.indent_stack
IsReached-IsFalling source reached = Built-IsFalling (IsReached-IsBuilt source reached)

run_on-IsReached :
    (source : Text) (unread : Text) (s : Lexer) (again : Lexer → Result LexError Lexer) {t : Lexer}
    → s.rest ≡ unread
    → IsReached source s
    → ((u : Lexer) → IsReached source u → again u ≡ ok t → IsReached source t)
    → run_on unread s again ≡ ok t
    → IsReached source t
unfolding run_on
run_on-IsReached source [] s again e reached k h = rw (ok-injective _ _ h) at reached
run_on-IsReached source (c ∷ cs) s again e reached k h =
    let (u, first, rest) = >>=-ok (step s) again h in k u (round reached (λ none. cc) first) rest

run-IsReached_from :
    (source : Text) (fuel : ℕ) (s : Lexer) {t : Lexer}
    → IsReached source s
    → run fuel s ≡ ok t
    → IsReached source t
unfolding run
run-IsReached_from source zero s reached h = cc
run-IsReached_from source (suc fuel) s reached h =
    run_on-IsReached source s.rest s (run fuel) refl reached
      (λ u reached_u. run-IsReached_from source fuel u reached_u) h

-- The state in which the loop ends is one of them.
pub run-IsReached :
    (source : Text) (fuel : ℕ) {s : Lexer} → run fuel (new_lexer source) ≡ ok s → IsReached source s
run-IsReached source fuel = run-IsReached_from source fuel (new_lexer source) at_first
