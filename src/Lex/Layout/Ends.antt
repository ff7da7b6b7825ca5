-- ===== src/Lex/Layout/Ends.antt =====
-- src/lexer.rs: the end of `tokenize`, which closes the open blocks and adds the end of the file.
use marreta_lang.Base.{
  ℕ, suc, ◌≡◌, refl, Bool, true, not, List, [], ◌∷◌, ◌++◌, arith, all, reverse_onto, length,
  and-eq_true, Bool-cases, inl, inr, ◌≢◌, ◌∙◌, ◌⊎◌, and_true, or_true, if_ind, reverse_onto-append,
  all-reverse_onto,
}
use marreta_lang.Base.Results.{ok, >>=-ok, ok-injective}
use marreta_lang.Text.{Text}
use marreta_lang.Token.Kind.{TokenKind, Token, token, eof_token}
use marreta_lang.Lex.State.{Lexer, is_block, is_newline, is_indent, is_dedent, remove_newline}
use marreta_lang.Lex.{run, new_lexer, normalize, close_blocks, finish, tokenize}
use marreta_lang.Lex.Layout.{Built, start, plain, newline, joined, opened, closed, is_eof, is_plain}
use marreta_lang.Lex.Layout.Moves.{IsBuilt, run-IsBuilt}

Built-ne_nil : {stack : List ℕ} {ts : List Token} → Built stack ts → stack ≢ []
Built-ne_nil start e = cc
Built-ne_nil (plain b _) e = Built-ne_nil b e
Built-ne_nil (newline b _ _ _) e = Built-ne_nil b e
Built-ne_nil (joined b) e = Built-ne_nil b e
Built-ne_nil (opened b _ _) e = cc
Built-ne_nil (closed b _) e = cc

close_blocks-Built :
    (tok : Token) (stack : List ℕ) (ts : List Token)
    → is_dedent tok.kind ≡ true
    → Built stack ts
    → (x : ℕ) × Built (x ∷ []) (close_blocks tok stack ts)
unfolding close_blocks
close_blocks-Built tok [] ts h b = absurd (Built-ne_nil b refl)
close_blocks-Built tok (x ∷ []) ts h b = (x, b)
close_blocks-Built tok (x ∷ y ∷ stack) ts h b =
    close_blocks-Built tok (y ∷ stack) (tok ∷ ts) h (closed b h)

-- What `tokenize` returns: tokens that the machine made with no block left open, then `Eof`.
pub record Finished (ts : List Token) : Type 0 where
  pub bottom : ℕ
  pub tokens : List Token
  pub last_line : ℕ
  pub last_column : ℕ
  pub built : Built (bottom ∷ []) tokens
  pub reversed : ts ≡ reverse_onto (eof_token last_line last_column ∷ tokens) []

finish-Finished : (s : Lexer) → IsBuilt s → Finished (reverse_onto (finish s) [])
unfolding finish
finish-Finished s b =
    let tok = token TokenKind.dedent s.line s.column [] in
    let (x, c) = close_blocks-Built tok s.indent_stack s.tokens refl b in
    record {
      bottom = x;
      tokens = close_blocks tok s.indent_stack s.tokens;
      last_line = s.line;
      last_column = s.column;
      built = c;
      reversed = refl;
    }

pub tokenize-Finished : (source : Text) {ts : List Token} → tokenize source ≡ ok ts → Finished ts
unfolding tokenize
tokenize-Finished source {ts} h =
    let fuel = suc (length (normalize source)) in
    let (s, ran, out) =
      >>=-ok (run fuel (new_lexer source)) (λ s. ok (reverse_onto (finish s) [])) h in
    rw (ok-injective (reverse_onto (finish s) []) ts out) at
      (finish-Finished s (rw ran at (run-IsBuilt fuel (new_lexer source) start)))

abbrev pub no_eof : List Token → Bool
no_eof = all (λ t. not (is_eof t.kind))

no_eof-remove_newline : (ts : List Token) → no_eof ts ≡ true → no_eof (remove_newline ts) ≡ true
unfolding remove_newline
no_eof-remove_newline [] h = h
no_eof-remove_newline (t ∷ ts) h = elim (Bool-cases (is_block t.kind)) [
  | inl block ↦ rw block (
      and_true (and-eq_true _ (no_eof ts) h).0
        (no_eof-remove_newline ts (and-eq_true _ (no_eof ts) h).1))
  | inr code ↦
      rw code
        (if_ind (λ us. no_eof us ≡ true) (is_newline t.kind) (and-eq_true _ (no_eof ts) h).1 h)
]

kind_not_eof :
    (k : TokenKind)
    → (is_plain k ≡ true) ⊎ (is_block k ≡ true) ⊎ (is_newline k ≡ true)
    → not (is_eof k) ≡ true
kind_not_eof TokenKind.eof h = ground arith
kind_not_eof k h = refl

Built-no_eof : {stack : List ℕ} {ts : List Token} → Built stack ts → no_eof ts ≡ true
Built-no_eof start = refl
Built-no_eof (plain {t = t} b h) = and_true (kind_not_eof t.kind (inl h)) (Built-no_eof b)
Built-no_eof (newline {t = t} b h _ _) =
    and_true (kind_not_eof t.kind (inr (inr h))) (Built-no_eof b)
Built-no_eof (joined {tokens = ts} b) = no_eof-remove_newline ts (Built-no_eof b)
Built-no_eof (opened {t = t} b _ h) =
    and_true (kind_not_eof t.kind (inr (inl (rw h)))) (Built-no_eof b)
Built-no_eof (closed {t = t} b h) =
    and_true (kind_not_eof t.kind (inr (inl (or_true (is_indent t.kind) h)))) (Built-no_eof b)

-- The tokens of every program that lexes end in Eof, which stands nowhere else.
pub tokenize-eof :
    (source : Text) {ts : List Token}
    → tokenize source ≡ ok ts
    → (us : List Token) × (line : ℕ) × (column : ℕ) × (ts ≡ us ++ (eof_token line column ∷ []))
      × (no_eof us ≡ true)
tokenize-eof source h =
    let f = tokenize-Finished source h in
    (
      reverse_onto f.tokens [],
      f.last_line,
      f.last_column,
      f.reversed ∙ reverse_onto-append f.tokens (eof_token f.last_line f.last_column ∷ []),
      all-reverse_onto _ f.tokens [] (Built-no_eof f.built) refl,
    )
