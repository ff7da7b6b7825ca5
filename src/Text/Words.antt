-- ===== src/Text/Words.antt =====
-- `str::split_whitespace`.
use marreta_lang.Base.{ℕ, Bool, List, [], ◌∷◌, if◌then◌else◌, is_empty}
use marreta_lang.Text.{Text, is_whitespace, cons_part}

-- The parts between the characters that pass the test.
unfoldable pub split_where : (ℕ → Bool) → Text → List Text
split_where p [] = [] ∷ []
split_where p (c ∷ cs) = let rest = split_where p cs in if p c then [] ∷ rest else cons_part c rest

unfoldable pub nonempty_parts : List Text → List Text
nonempty_parts [] = []
nonempty_parts (p ∷ ps) = let rest = nonempty_parts ps in if is_empty p then rest else p ∷ rest

abbrev pub split_whitespace : Text → List Text
split_whitespace t = nonempty_parts (split_where is_whitespace t)
