-- ===== src/Text/Trim.antt =====
-- `str::trim`.
use mathlib.Core.Path.{◌≡⟨◌⟩◌, ◌∎}
use marreta_lang.Base.{
  ℕ, ◌≡◌, refl, sym, ap, append_assoc, Bool, true, not, ◌&&◌, [], ◌∷◌, ◌++◌, arith, if◌then◌else◌,
  all, is_empty,
}
use marreta_lang.Text.{Text, is_whitespace}

unfoldable pub trim_start : Text → Text
trim_start [] = []
trim_start (c ∷ cs) = let fewer = trim_start cs in if is_whitespace c then fewer else c ∷ cs

unfoldable pub trim_end : Text → Text
trim_end [] = []
trim_end (c ∷ cs) =
    let kept = trim_end cs in if is_whitespace c && is_empty kept then [] else c ∷ kept

abbrev pub trim : Text → Text
trim t = trim_start (trim_end t)

abbrev pub no_whitespace : Text → Bool
no_whitespace = all (λ c. not (is_whitespace c))

abbrev pub all_whitespace : Text → Bool
all_whitespace = all is_whitespace

all-trim_end : (p : ℕ → Bool) (t : Text) → all p t ≡ true → all p (trim_end t) ≡ true
unfolding trim_end
all-trim_end p [] h = h
all-trim_end p (c ∷ t) h = ground (arith, all-trim_end p t)

all-trim_start : (p : ℕ → Bool) (t : Text) → all p t ≡ true → all p (trim_start t) ≡ true
unfolding trim_start
all-trim_start p [] h = h
all-trim_start p (c ∷ t) h = ground (arith, all-trim_start p t)

-- What holds of every character of a text holds of every character that is left.
pub all-trim : (p : ℕ → Bool) (t : Text) → all p t ≡ true → all p (trim t) ≡ true
all-trim p t h = all-trim_start p (trim_end t) (all-trim_end p t h)

trim_end-no_whitespace : (t : Text) → no_whitespace t ≡ true → trim_end t ≡ t
unfolding trim_end
trim_end-no_whitespace [] h = refl
trim_end-no_whitespace (c ∷ t) h = ground (arith, trim_end-no_whitespace t)

trim_start-no_whitespace : (t : Text) → no_whitespace t ≡ true → trim_start t ≡ t
unfolding trim_start
trim_start-no_whitespace [] h = refl
trim_start-no_whitespace (c ∷ t) h = ground arith

pub trim-no_whitespace : (t : Text) → no_whitespace t ≡ true → trim t ≡ t
trim-no_whitespace t h = rw (trim_end-no_whitespace t h) (trim_start-no_whitespace t h)

trim_end-all_whitespace : (ws : Text) → all_whitespace ws ≡ true → trim_end ws ≡ []
unfolding trim_end
trim_end-all_whitespace [] h = refl
trim_end-all_whitespace (c ∷ ws) h = ground (arith, trim_end-all_whitespace ws)

trim_end-append : (t ws : Text) → all_whitespace ws ≡ true → trim_end (t ++ ws) ≡ trim_end t
unfolding trim_end
trim_end-append [] ws h = trim_end-all_whitespace ws h
trim_end-append (c ∷ t) ws h = ground (arith, trim_end-append t ws h)

trim_start-append : (ws t : Text) → all_whitespace ws ≡ true → trim_start (ws ++ t) ≡ trim_start t
unfolding trim_start
trim_start-append [] t h = refl
trim_start-append (c ∷ ws) t h = ground (arith, trim_start-append ws t)

ap-trim_end :
    (b : ℕ) (t : Text) {c : ℕ} {u : Text} → t ≡ c ∷ u → trim_end t ≡ t → trim_end (b ∷ t) ≡ b ∷ t
unfolding trim_end
ap-trim_end b t e h = ground arith

trim_end-prepend :
    (ws t : Text) (c : ℕ) → no_whitespace (c ∷ t) ≡ true → trim_end (ws ++ (c ∷ t)) ≡ ws ++ (c ∷ t)
trim_end-prepend [] t c h = trim_end-no_whitespace (c ∷ t) h
trim_end-prepend (b ∷ []) t c h = ap-trim_end b (c ∷ t) refl (trim_end-no_whitespace (c ∷ t) h)
trim_end-prepend (b ∷ d ∷ ws) t c h =
    ap-trim_end b (d ∷ (ws ++ (c ∷ t))) refl (trim_end-prepend (d ∷ ws) t c h)

-- Whitespace around a word is taken off.
pub trim-around :
    (before : Text) (c : ℕ) (t after : Text)
    → all_whitespace before ≡ true
    → all_whitespace after ≡ true
    → no_whitespace (c ∷ t) ≡ true
    → trim (before ++ ((c ∷ t) ++ after)) ≡ c ∷ t
trim-around before c t after b a h =
    trim (before ++ ((c ∷ t) ++ after))
    ≡⟨ ap trim (sym (append_assoc before (c ∷ t) after)) ⟩ trim ((before ++ (c ∷ t)) ++ after)
    ≡⟨ ap trim_start (trim_end-append (before ++ (c ∷ t)) after a) ⟩ trim (before ++ (c ∷ t))
    ≡⟨ ap trim_start (trim_end-prepend before t c h) ⟩ trim_start (before ++ (c ∷ t))
    ≡⟨ trim_start-append before (c ∷ t) b ⟩ trim_start (c ∷ t)
    ≡⟨ trim_start-no_whitespace (c ∷ t) h ⟩ (c ∷ t) ∎
