-- ===== src/Lex/Layout/Newlines.antt =====
-- src/lexer.rs: where `Newline` tokens stand.
use marreta_lang.Base.{
  ◌≡◌, refl, Bool, true, false, not, ◌&&◌, ◌||◌, List, ℕ, [], ◌∷◌, arith, reverse_onto, Bool-cases,
  inl, inr, if◌then◌else◌, and-eq_true, and_true, or_true, if_ind,
}
use marreta_lang.Base.Results.{ok}
use marreta_lang.Text.{Text}
use marreta_lang.Token.Kind.{TokenKind, Token, eof_token}
use marreta_lang.Lex.State.{
  is_block, is_newline, is_indent, is_continuation, remove_newline, should_suppress_newline,
  skips_newline,
}
use marreta_lang.Lex.{tokenize}
use marreta_lang.Lex.Layout.{Built, start, plain, newline, joined, opened, closed, is_plain}
use marreta_lang.Lex.Layout.Ends.{tokenize-Finished}

-- The reader of tokens from left to right knows whether a line break may come next: there must be a
-- token of code before it that does not ask for more, and no other line break directly before it.
pub record Reader : Type 0 where
  pub may_end : Bool
  pub fresh : Bool

abbrev pub read : Reader → TokenKind → Reader
read r k =
    if is_newline k
    then record { may_end = r.may_end; fresh = false }
    else if is_block k
    then record { may_end = r.may_end; fresh = true }
    else record { may_end = not (is_continuation k); fresh = true }

abbrev pub accepts : Reader → TokenKind → Bool
accepts r k = not (is_newline k) || (r.may_end && r.fresh)

-- Every line break of the tokens stands where it may.
unfoldable pub breaks_ok : Reader → List Token → Bool
breaks_ok r [] = true
breaks_ok r (t ∷ ts) = accepts r t.kind && breaks_ok (read r t.kind) ts

abbrev pub at_start : Reader
at_start = record { may_end = false; fresh = false }

-- The reader behind tokens with the newest first.
behind : List Token → Reader
behind [] = at_start
behind (t ∷ ts) = read (behind ts) t.kind

breaks_behind : List Token → Bool
breaks_behind [] = true
breaks_behind (t ∷ ts) = accepts (behind ts) t.kind && breaks_behind ts

breaks_ok-reverse_onto :
    (us acc : List Token)
    → breaks_behind us ≡ true
    → breaks_ok (behind us) acc ≡ true
    → breaks_ok at_start (reverse_onto us acc) ≡ true
unfolding breaks_ok behind breaks_behind
breaks_ok-reverse_onto [] acc h k = k
breaks_ok-reverse_onto (u ∷ us) acc h k =
    breaks_ok-reverse_onto us (u ∷ acc) (and-eq_true _ _ h).1
      (and_true (and-eq_true _ (breaks_behind us) h).0 k)

behind-may_end : (ts : List Token) → (behind ts).may_end ≡ not (should_suppress_newline ts)
unfolding behind should_suppress_newline
behind-may_end [] = refl
behind-may_end (t ∷ ts) = ground (arith, behind-may_end ts)

behind-fresh : (ts : List Token) → skips_newline ts ≡ false → (behind ts).fresh ≡ true
unfolding behind
behind-fresh [] h = cc
behind-fresh (t ∷ ts) h = rw h (if_ind (λ (r : Reader). r.fresh ≡ true) (is_block t.kind) refl refl)

-- A kind that is no line break is accepted.
accepts-other : (r : Reader) (k : TokenKind) → is_newline k ≡ false → accepts r k ≡ true
accepts-other r k h = rw h

block-not_newline : (k : TokenKind) → is_block k ≡ true → is_newline k ≡ false
block-not_newline TokenKind.newline h = cc
block-not_newline k h = refl

plain-not_newline : (k : TokenKind) → is_plain k ≡ true → is_newline k ≡ false
plain-not_newline TokenKind.newline h = cc
plain-not_newline k h = refl

breaks_behind-cons :
    (t : Token) (ts : List Token)
    → is_newline t.kind ≡ false
    → breaks_behind ts ≡ true
    → breaks_behind (t ∷ ts) ≡ true
unfolding breaks_behind
breaks_behind-cons t ts h b = and_true (accepts-other (behind ts) t.kind h) b

breaks_behind-remove_newline :
    (ts : List Token) → breaks_behind ts ≡ true → breaks_behind (remove_newline ts) ≡ true
unfolding remove_newline
breaks_behind-remove_newline [] h = h
breaks_behind-remove_newline (t ∷ ts) h =
    let tail =
      (and-eq_true (accepts (behind ts) t.kind) (breaks_behind ts) (unfold breaks_behind in h)).1 in
    elim (Bool-cases (is_block t.kind)) [
      | inl block ↦ rw block (
          breaks_behind-cons t (remove_newline ts) (block-not_newline t.kind block)
            (breaks_behind-remove_newline ts tail))
      | inr code ↦ rw code (if_ind (λ us. breaks_behind us ≡ true) (is_newline t.kind) tail h)
    ]

newline-accepted :
    (ts : List Token) (k : TokenKind)
    → should_suppress_newline ts ≡ false
    → skips_newline ts ≡ false
    → accepts (behind ts) k ≡ true
newline-accepted ts k h j = ground (arith, behind-may_end ts, behind-fresh ts j)

breaks_behind-newline :
    (t : Token) (ts : List Token)
    → should_suppress_newline ts ≡ false
    → skips_newline ts ≡ false
    → breaks_behind ts ≡ true
    → breaks_behind (t ∷ ts) ≡ true
unfolding breaks_behind
breaks_behind-newline t ts j k b = and_true (newline-accepted ts t.kind j k) b

Built-breaks : {stack : List ℕ} {ts : List Token} → Built stack ts → breaks_behind ts ≡ true
Built-breaks start = unfold breaks_behind in refl
Built-breaks (plain {tokens = ts} {t = t} b h) =
    breaks_behind-cons t ts (plain-not_newline t.kind h) (Built-breaks b)
Built-breaks (newline {tokens = ts} {t = t} b h j k) =
    breaks_behind-newline t ts j k (Built-breaks b)
Built-breaks (joined {tokens = ts} b) = breaks_behind-remove_newline ts (Built-breaks b)
Built-breaks (opened {tokens = ts} {t = t} b _ h) =
    breaks_behind-cons t ts (block-not_newline t.kind (rw h)) (Built-breaks b)
Built-breaks (closed {tokens = ts} {t = t} b h) =
    breaks_behind-cons t ts (block-not_newline t.kind (or_true (is_indent t.kind) h))
      (Built-breaks b)

-- In the tokens of every program that lexes, each Newline has a token of code before it, the last
-- of which asks for no continuation, and no two Newline tokens are neighbours.
pub tokenize-breaks_ok :
    (source : Text) {ts : List Token} → tokenize source ≡ ok ts → breaks_ok at_start ts ≡ true
tokenize-breaks_ok source h =
    let f = tokenize-Finished source h in
    rw f.reversed (
      breaks_ok-reverse_onto f.tokens (eof_token f.last_line f.last_column ∷ [])
        (Built-breaks f.built) (unfold breaks_ok in refl))
