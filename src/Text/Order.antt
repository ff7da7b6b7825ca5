-- ===== src/Text/Order.antt =====
-- The order of texts and a stable sort by it, `slice::sort` and `sort_by`.
use marreta_lang.Base.{
  ◌≡◌, refl, ◌∙◌, Bool, true, false, ◌&&◌, ◌||◌, List, [], ◌∷◌, arith, ltb, ◌==◌, if◌then◌else◌,
  all,
}
use marreta_lang.Text.{Text}

-- The order of Rust's `str`: bytes of UTF-8 compare as the code points do.
unfoldable pub text_lt : Text → Text → Bool
text_lt [] [] = false
text_lt [] (y ∷ ys) = true
text_lt (x ∷ xs) [] = false
text_lt (x ∷ xs) (y ∷ ys) = ltb x y || (x == y && text_lt xs ys)

-- A stable sort by a key.
module _ {ℓ} {A : Type ℓ} (key : A → Text) where
  unfoldable pub place : A → List A → List A
  place a [] = a ∷ []
  place a (b ∷ bs) = if text_lt (key b) (key a) then b ∷ place a bs else a ∷ b ∷ bs

  unfoldable pub sort_by : List A → List A
  sort_by [] = []
  sort_by (a ∷ rest) = place a (sort_by rest)

pub text_lt_irrefl : (a : Text) → text_lt a a ≡ false
unfolding text_lt
text_lt_irrefl [] = refl
text_lt_irrefl (x ∷ a) = ground (arith, text_lt_irrefl a)

module _ {ℓ} {A : Type ℓ} (key : A → Text) (p : A → Bool) where
  all-place : (a : A) (bs : List A) → all p (place key a bs) ≡ (p a && all p bs)
  unfolding place
  all-place a [] = refl
  all-place a (b ∷ bs) = ground (arith, all-place a bs)

  -- A sort keeps what holds of all elements.
  pub all-sort_by : (bs : List A) → all p (sort_by key bs) ≡ all p bs
  unfolding sort_by
  all-sort_by [] = refl
  all-sort_by (b ∷ bs) = all-place b (sort_by key bs) ∙ rw (all-sort_by bs)
