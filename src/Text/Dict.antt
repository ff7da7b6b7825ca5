-- ===== src/Text/Dict.antt =====
-- `HashMap<String, V>` as an association list with at most one pair for each key that the program
-- inserts. The order of the list stands for the order of iteration, of which nothing is assumed.
use marreta_lang.Base.{
  ◌≡◌, refl, Bool, true, false, not, ◌&&◌, ◌||◌, List, [], ◌∷◌, arith, Option, none, some, inl, inr,
  Bool-cases, if◌then◌else◌,
}
use marreta_lang.Text.{Text, text_eq, text_eq_iff}

abbrev pub Dict {ℓ} : Type ℓ → Type ℓ
Dict V = List (Text × V)

module _ {ℓ} {V : Type ℓ} where
  unfoldable pub get : Text → Dict V → Option V
  get k [] = none
  get k ((j, v) ∷ m) = if text_eq j k then some v else get k m

  unfoldable pub insert : Text → V → Dict V → Dict V
  insert k v [] = (k, v) ∷ []
  insert k v ((j, w) ∷ m) = if text_eq j k then (k, v) ∷ m else (j, w) ∷ insert k v m

  unfoldable pub contains_key : Text → Dict V → Bool
  contains_key k [] = false
  contains_key k ((j, v) ∷ m) = text_eq j k || contains_key k m

  -- `HashMap::extend`: the pairs of the second map are inserted one by one.
  unfoldable pub extend : Dict V → Dict V → Dict V
  extend m [] = m
  extend m ((k, v) ∷ n) = extend (insert k v m) n

  -- No key stands twice.
  unfoldable pub distinct : Dict V → Bool
  distinct [] = true
  distinct ((k, v) ∷ m) = not (contains_key k m) && distinct m

  pub get-insert :
      (k j : Text) (v : V) (m : Dict V)
      → get j (insert k v m) ≡ (if text_eq k j then some v else get j m)
  unfolding get insert
  get-insert k j v [] = refl
  get-insert k j v ((i, w) ∷ m) =
      ground (arith, text_eq_iff k j, text_eq_iff i k, text_eq_iff i j, get-insert k j v m)

  pub contains_key-insert :
      (k j : Text) (v : V) (m : Dict V)
      → contains_key j (insert k v m) ≡ text_eq k j || contains_key j m
  unfolding contains_key insert
  contains_key-insert k j v [] = refl
  contains_key-insert k j v ((i, w) ∷ m) =
      ground (arith, text_eq_iff k j, text_eq_iff i k, text_eq_iff i j, contains_key-insert k j v m)

  pub get-contains_key : (k : Text) (m : Dict V) → contains_key k m ≡ false → get k m ≡ none
  unfolding get contains_key
  get-contains_key k [] h = refl
  get-contains_key k ((j, v) ∷ m) h = ground (arith, get-contains_key k m)

  pub contains_key-get :
      (k : Text) (m : Dict V) → contains_key k m ≡ true → (v : V) × (get k m ≡ some v)
  unfolding get contains_key
  contains_key-get k [] h = cc
  contains_key-get k ((j, v) ∷ m) h = elim (Bool-cases (text_eq j k)) [
    | inl e ↦ (v, ground arith)
    | inr e ↦ let (w, f) = contains_key-get k m (ground arith) in (w, ground arith)
  ]

  pub insert-distinct :
      (k : Text) (v : V) (m : Dict V) → distinct m ≡ true → distinct (insert k v m) ≡ true
  unfolding distinct insert contains_key
  insert-distinct k v [] h = refl
  insert-distinct k v ((i, w) ∷ m) h =
      ground (
        arith,
        text_eq_iff i k,
        text_eq_iff k i,
        contains_key-insert k i v m,
        insert-distinct k v m,
      )

  pub extend-distinct : (m n : Dict V) → distinct m ≡ true → distinct (extend m n) ≡ true
  unfolding extend
  extend-distinct m [] h = h
  extend-distinct m ((k, v) ∷ n) h = extend-distinct (insert k v m) n (insert-distinct k v m h)

  -- The pairs of the second map win.
  pub get-extend :
      (j : Text) (m n : Dict V)
      → distinct n ≡ true
      → get j (extend m n) ≡ elim (get j n) [ none ↦ get j m | some v ↦ some v ]
  unfolding extend get distinct
  get-extend j m [] h = refl
  get-extend j m ((k, v) ∷ n) h = ground (
    arith,
    get-extend j (insert k v m) n,
    get-insert k j v m,
    text_eq_iff k j,
    get-contains_key k n,
  )
