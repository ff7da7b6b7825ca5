-- ===== src/Lex/Layout/Blocks.antt =====
-- src/lexer.rs: the blocks that `tokenize` opens and closes.
use marreta_lang.Base.{
  ℕ, zero, suc, ◌<◌, ◌≡◌, refl, ap, sym, ◌∙◌, true, List, [], ◌∷◌, arith, if◌then◌else◌, Option,
  none, some, length, reverse_onto, Bool-cases, inl, inr,
}
use marreta_lang.Base.Results.{ok}
use marreta_lang.Text.{Text}
use marreta_lang.Token.Kind.{TokenKind, Token, eof_token}
use marreta_lang.Lex.State.{is_newline, is_indent, is_dedent, is_block, remove_newline}
use marreta_lang.Lex.Step.{current_indent}
use marreta_lang.Lex.{tokenize}
use marreta_lang.Lex.Layout.{Built, start, plain, newline, joined, opened, closed, is_plain}
use marreta_lang.Lex.Layout.Ends.{tokenize-Finished}

-- The depth behind a token; `none` is a dedent with no open block.
abbrev pub bump : TokenKind → ℕ → Option ℕ
bump k zero = if is_indent k then some 1 else if is_dedent k then none else some 0
bump k (suc d) =
    if is_indent k then some (suc (suc d)) else if is_dedent k then some d else some (suc d)

abbrev bind_depth : Option ℕ → (ℕ → Option ℕ) → Option ℕ
bind_depth none f = none
bind_depth (some d) f = f d

-- The number of blocks that are open behind the tokens, read from left to right.
unfoldable pub nest : ℕ → List Token → Option ℕ
nest d [] = some d
nest d (t ∷ ts) = bind_depth (bump t.kind d) (λ e. nest e ts)

-- The same of tokens with the newest first.
unfoldable pub depth_of : List Token → Option ℕ
depth_of [] = some 0
depth_of (t ∷ ts) = bind_depth (depth_of ts) (bump t.kind)

nest-reverse_onto :
    (us acc : List Token)
    → nest 0 (reverse_onto us acc) ≡ bind_depth (depth_of us) (λ e. nest e acc)
unfolding nest depth_of
nest-reverse_onto [] acc = refl
nest-reverse_onto (u ∷ us) acc = ground (arith, nest-reverse_onto us (u ∷ acc))

-- A kind that opens and closes nothing.
abbrev IsLevel : TokenKind → Type 0
IsLevel k = (d : ℕ) → bump k d ≡ some d

plain-IsLevel : (k : TokenKind) → is_plain k ≡ true → IsLevel k
plain-IsLevel TokenKind.newline h d = cc
plain-IsLevel TokenKind.indent h d = cc
plain-IsLevel TokenKind.dedent h d = cc
plain-IsLevel k h zero = refl
plain-IsLevel k h (suc d) = refl

newline-IsLevel : (k : TokenKind) → is_newline k ≡ true → IsLevel k
newline-IsLevel TokenKind.newline h zero = refl
newline-IsLevel TokenKind.newline h (suc d) = refl
newline-IsLevel k h d = cc

bump_indent : (k : TokenKind) (d : ℕ) → is_indent k ≡ true → bump k d ≡ some (suc d)
bump_indent TokenKind.indent zero h = refl
bump_indent TokenKind.indent (suc d) h = refl
bump_indent k d h = cc

bump_dedent : (k : TokenKind) (d : ℕ) → is_dedent k ≡ true → bump k (suc d) ≡ some d
bump_dedent TokenKind.dedent d h = refl
bump_dedent k d h = cc

bind_level : (k : TokenKind) → IsLevel k → (o : Option ℕ) → bind_depth o (bump k) ≡ o
bind_level k h none = refl
bind_level k h (some d) = h d

depth_of-remove_newline : (ts : List Token) → depth_of (remove_newline ts) ≡ depth_of ts
unfolding depth_of remove_newline
depth_of-remove_newline [] = refl
depth_of-remove_newline (t ∷ ts) = elim (Bool-cases (is_block t.kind)) [
  | inl block ↦ rw (block, depth_of-remove_newline ts)
  | inr code ↦ rw code (elim (Bool-cases (is_newline t.kind)) [
    | inl line ↦ rw line (sym (bind_level t.kind (newline-IsLevel t.kind line) (depth_of ts)))
    | inr other ↦ rw other
  ])
]

depth_of-cons :
    (t : Token) (ts : List Token) {d : ℕ} → depth_of ts ≡ some d → depth_of (t ∷ ts) ≡ bump t.kind d
unfolding depth_of
depth_of-cons t ts h = rw h

-- One block is open for each indentation above the first.
pub Built-depth :
    {stack : List ℕ} {ts : List Token}
    → Built stack ts
    → (d : ℕ) × (length stack ≡ suc d) × (depth_of ts ≡ some d)
Built-depth start = (0, refl, unfold depth_of in refl)
Built-depth (plain {tokens = ts} {t = t} b h) =
    let (d, n, e) = Built-depth b in (d, n, depth_of-cons t ts e ∙ plain-IsLevel t.kind h d)
Built-depth (newline {tokens = ts} {t = t} b h _ _) =
    let (d, n, e) = Built-depth b in (d, n, depth_of-cons t ts e ∙ newline-IsLevel t.kind h d)
Built-depth (joined {tokens = ts} b) =
    let (d, n, e) = Built-depth b in (d, n, depth_of-remove_newline ts ∙ e)
Built-depth (opened {tokens = ts} {t = t} b lt h) =
    let (d, n, e) = Built-depth b in
    (suc d, ap suc n, depth_of-cons t ts e ∙ bump_indent t.kind d h)
Built-depth (closed {stack = stack} {tokens = ts} {t = t} b h) =
    let (d, n, e) = Built-depth b in
    (
      length stack,
      refl,
      depth_of-cons t ts {d = suc (length stack)} (e ∙ ap some (omega arith))
          ∙ bump_dedent t.kind (length stack) h,
    )

-- Indent and Dedent of the tokens of every program that lexes are balanced like brackets: read from
-- the left, no Dedent closes a block that is not open, and none is open at the end.
pub tokenize-nest : (source : Text) {ts : List Token} → tokenize source ≡ ok ts → nest 0 ts ≡ some 0
unfolding nest
tokenize-nest source h =
    let f = tokenize-Finished source h in
    let (d, n, e) = Built-depth f.built in
    let shut : depth_of f.tokens ≡ some 0 = e ∙ ap some (omega arith) in
    rw f.reversed (nest-reverse_onto f.tokens (eof_token f.last_line f.last_column ∷ []) ∙ rw shut)

-- The stack of indentations falls strictly to the 0 at its bottom.
abbrev pub IsFalling : List ℕ → Type 0
IsFalling [] = ⊥
IsFalling (x ∷ []) = x ≡ 0
IsFalling (x ∷ y ∷ stack) = (y < x) × IsFalling (y ∷ stack)

IsFalling-cons :
    (n : ℕ) (stack : List ℕ) → current_indent stack < n → IsFalling stack → IsFalling (n ∷ stack)
IsFalling-cons n [] lt f = absurd f
IsFalling-cons n (x ∷ stack) lt f = (lt, f)

pub Built-IsFalling : {stack : List ℕ} {ts : List Token} → Built stack ts → IsFalling stack
Built-IsFalling start = refl
Built-IsFalling (plain b h) = Built-IsFalling b
Built-IsFalling (newline b _ _ _) = Built-IsFalling b
Built-IsFalling (joined b) = Built-IsFalling b
Built-IsFalling (opened {stack = stack} {n = n} b lt h) =
    IsFalling-cons n stack lt (Built-IsFalling b)
Built-IsFalling (closed b h) = (Built-IsFalling b).1
