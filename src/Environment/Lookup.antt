-- ===== src/Environment/Lookup.antt =====
-- src/environment.rs: `get` against `has`, `freeze`, `all_variables` and `local_variables`.
use marreta_lang.Base.{
  ◌≡◌, refl, ◌∙◌, Bool, true, false, ◌||◌, List, [], ◌∷◌, arith, Option, none, some, all,
  if◌then◌else◌, Bool-cases, inl, inr,
}
use marreta_lang.Text.{Text, text_eq, text_eq_iff}
use marreta_lang.Text.Order.{text_lt_irrefl, place, sort_by}
use marreta_lang.Text.Dict.{
  Dict, get, insert, contains_key, distinct, get-insert, get-extend, get-contains_key,
}
use marreta_lang.Environment.{
  Environment, get_scopes, get_variable, any_scope, has, add_unseen, add_scopes, all_variables,
  freeze_scopes, freeze,
}

abbrev pub is_some {ℓ} : {A : Type ℓ} → Option A → Bool
is_some none = false
is_some (some a) = true

abbrev pub or_else {ℓ} : {A : Type ℓ} → Option A → Option A → Option A
or_else (some a) o = some a
or_else none o = o

Option-right {ℓ} : {A : Type ℓ} (o : Option A) → o ≡ or_else o none
Option-right none = refl
Option-right (some a) = refl

module _ {ℓ} {V : Type ℓ} where
  pub contains_key-is_some : (k : Text) (m : Dict V) → contains_key k m ≡ is_some (get k m)
  unfolding contains_key get
  contains_key-is_some k [] = refl
  contains_key-is_some k ((j, v) ∷ m) = ground (arith, contains_key-is_some k m)

  any_scope-is_some :
      (name : Text) (ss : List (Dict V)) (base : Dict V)
      → (any_scope name ss || contains_key name base) ≡ is_some (get_scopes name ss base)
  unfolding any_scope get_scopes
  any_scope-is_some name [] base = contains_key-is_some name base
  any_scope-is_some name (s ∷ ss) base =
      ground (arith, contains_key-is_some name s, any_scope-is_some name ss base)

  -- has says whether get finds something.
  pub has-get_variable :
      (name : Text) (e : Environment V) → has name e ≡ is_some (get_variable name e)
  has-get_variable name e = any_scope-is_some name e.scopes e.base

  pub get-freeze_scopes :
      (name : Text) (ss : List (Dict V)) (base : Dict V)
      → all distinct ss ≡ true
      → get name (freeze_scopes base ss) ≡ get_scopes name ss base
  unfolding freeze_scopes get_scopes
  get-freeze_scopes name [] base h = refl
  get-freeze_scopes name (s ∷ ss) base h =
      ground (arith, get-extend name (freeze_scopes base ss) s, get-freeze_scopes name ss base)

  -- If no scope has a name twice, then after freeze every name has the value it had, and there is
  -- one empty local scope.
  pub get_variable-freeze :
      (name : Text) (e : Environment V)
      → all distinct e.scopes ≡ true
      → (get_variable name (freeze e) ≡ get_variable name e) × ((freeze e).scopes ≡ [] ∷ [])
  unfolding get_scopes get
  get_variable-freeze name e h = (get-freeze_scopes name e.scopes e.base h, refl)

  get-add_unseen :
      (name : Text) (seen s : Dict V)
      → get name (add_unseen seen s) ≡ or_else (get name seen) (get name s)
  unfolding add_unseen get
  get-add_unseen name seen [] = Option-right (get name seen)
  get-add_unseen name seen ((k, v) ∷ s) = elim (Bool-cases (contains_key k seen)) [
    | inl e ↦
        ground (arith, get-add_unseen name seen s, contains_key-is_some k seen, text_eq_iff k name)
    | inr e ↦ ground (
      arith,
      get-add_unseen name (insert k v seen) s,
      get-insert k name v seen,
      get-contains_key k seen,
      text_eq_iff k name,
    )
  ]

  get-place :
      (name k : Text) (v : V) (m : Dict V)
      → get name (place (λ p. p.0) (k, v) m) ≡ (if text_eq k name then some v else get name m)
  unfolding place get
  get-place name k v [] = refl
  get-place name k v ((j, w) ∷ m) =
      ground
        (arith, get-place name k v m, text_eq_iff k name, text_eq_iff j name, text_lt_irrefl name)

  get-sort_by : (name : Text) (m : Dict V) → get name (sort_by (λ p. p.0) m) ≡ get name m
  unfolding sort_by get
  get-sort_by name [] = refl
  get-sort_by name ((k, v) ∷ m) =
      get-place name k v (sort_by (λ p. p.0) m) ∙ rw (get-sort_by name m)

  get-add_scopes :
      (name : Text) (seen : Dict V) (ss : List (Dict V)) (base : Dict V)
      → or_else (get name (add_scopes seen ss)) (get name base)
        ≡ or_else (get name seen) (get_scopes name ss base)
  unfolding add_scopes get_scopes
  get-add_scopes name seen [] base = refl
  get-add_scopes name seen (s ∷ ss) base =
      get-add_scopes name (add_unseen seen s) ss base ∙ ground (arith, get-add_unseen name seen s)

  -- The list of all variables has for every name the value that get finds.
  pub get-all_variables :
      (name : Text) (e : Environment V) → get name (all_variables e) ≡ get_variable name e
  unfolding get_scopes get
  get-all_variables name e =
      get-sort_by name (add_unseen (add_scopes [] e.scopes) e.base)
      ∙ (get-add_unseen name (add_scopes [] e.scopes) e.base
          ∙ get-add_scopes name [] e.scopes e.base)
