-- ===== src/Text/Split.antt =====
-- `str::split` and `str::split_once` at a character, and `[_]::join`.
use marreta_lang.Base.{
  ℕ, ◌≡◌, ◌≢◌, refl, Bool, true, false, not, List, [], ◌∷◌, ◌++◌, arith, ◌==◌, Option, none, some,
  if◌then◌else◌, all,
}
use marreta_lang.Text.Equal.{Text}

-- A character joins the first part, or starts it anew at a separator.
abbrev pub cons_part : ℕ → List Text → List Text
cons_part c [] = (c ∷ []) ∷ []
cons_part c (p ∷ ps) = (c ∷ p) ∷ ps

-- Never empty: the text with no separator is its only part.
unfoldable pub split : ℕ → Text → List Text
split sep [] = [] ∷ []
split sep (c ∷ cs) = if c == sep then [] ∷ split sep cs else cons_part c (split sep cs)

unfoldable pub join : Text → List Text → Text
join sep [] = []
join sep (p ∷ []) = p
join sep (p ∷ q ∷ ps) = p ++ (sep ++ join sep (q ∷ ps))

abbrev pub cons_fst : ℕ → Option (Text × Text) → Option (Text × Text)
cons_fst c none = none
cons_fst c (some (a, b)) = some (c ∷ a, b)

unfoldable pub split_once : ℕ → Text → Option (Text × Text)
split_once sep [] = none
split_once sep (c ∷ cs) = elim (c == sep) [
  | true ↦ some ([], cs)
  | false ↦ cons_fst c (split_once sep cs)
]

-- `sep` does not stand in the text.
abbrev pub lacks : ℕ → Text → Bool
lacks sep = all (λ c. not (c == sep))

pub split-lacks : (sep : ℕ) (s : Text) → lacks sep s ≡ true → split sep s ≡ s ∷ []
unfolding split
split-lacks sep [] h = refl
split-lacks sep (c ∷ s) h = ground (arith, split-lacks sep s)

pub split-append :
    (sep : ℕ) (s rest : Text)
    → lacks sep s ≡ true
    → split sep (s ++ (sep ∷ rest)) ≡ s ∷ split sep rest
unfolding split
split-append sep [] rest h = ground arith
split-append sep (c ∷ s) rest h = ground (arith, split-append sep s rest)

-- Joining the parts of a text by the separator gives the text back.
pub join-cons_part :
    (sep c : ℕ) (ps : List Text) → join (sep ∷ []) (cons_part c ps) ≡ c ∷ join (sep ∷ []) ps
unfolding join
join-cons_part sep c [] = refl
join-cons_part sep c (p ∷ []) = refl
join-cons_part sep c (p ∷ q ∷ ps) = refl

pub split-ne_nil : (sep : ℕ) (s : Text) → split sep s ≢ []
unfolding split
split-ne_nil sep [] h = cc
split-ne_nil sep (c ∷ s) h =
    elim (split sep s) as (λ ps. (if c == sep then [] ∷ ps else cons_part c ps) ≡ [] → ⊥) [
      | [] ↦ λ e. ground arith
      | p ∷ ps ↦ λ e. ground arith
    ]
      h

join-nil_cons :
    (sep : ℕ) (ps : List Text) → ps ≢ [] → join (sep ∷ []) ([] ∷ ps) ≡ sep ∷ join (sep ∷ []) ps
unfolding join
join-nil_cons sep [] h = absurd (h refl)
join-nil_cons sep (p ∷ ps) h = refl

pub join-split : (sep : ℕ) (s : Text) → join (sep ∷ []) (split sep s) ≡ s
unfolding split
join-split sep [] = unfold join in refl
join-split sep (c ∷ s) = ground (
  arith,
  join-split sep s,
  join-nil_cons sep (split sep s) (split-ne_nil sep s),
  join-cons_part sep c (split sep s),
)

-- Each part lacks the separator.
cons_part-lacks :
    (sep c : ℕ) (ps : List Text)
    → (c == sep) ≡ false
    → all (lacks sep) ps ≡ true
    → all (lacks sep) (cons_part c ps) ≡ true
cons_part-lacks sep c [] h k = ground arith
cons_part-lacks sep c (p ∷ ps) h k = ground arith

pub split-parts : (sep : ℕ) (s : Text) → all (lacks sep) (split sep s) ≡ true
unfolding split
split-parts sep [] = refl
split-parts sep (c ∷ s) = ground (arith, split-parts sep s, cons_part-lacks sep c (split sep s))
