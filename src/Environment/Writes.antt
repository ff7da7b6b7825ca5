-- ===== src/Environment/Writes.antt =====
-- src/environment.rs: what the writes change, and the invariant that they keep.
use marreta_lang.Base.{
  ◌≡◌, refl, ap, true, false, List, [], ◌∷◌, arith, Option, none, some, all, is_empty,
  if◌then◌else◌, Bool-cases, Option-cases, inl, inr, and-eq_true,
}
use marreta_lang.Text.{Text, text_eq, text_eq_iff}
use marreta_lang.Text.Dict.{
  Dict, insert, contains_key, distinct, get-insert, get-contains_key, insert-distinct,
  extend-distinct,
}
use marreta_lang.Environment.{
  Environment, new, push_scope, pop, pop_scope, set_first, set, get_scopes, get_variable, any_scope,
  update_scopes, updated, update, freeze_scopes, freeze,
}

pub some-injective {ℓ} : {A : Type ℓ} (a b : A) → some a ≡ some b → a ≡ b
some-injective a b h = cc

module _ {ℓ} {V : Type ℓ} where
  -- There is a scope, and no map has a key twice.
  abbrev pub IsScopes : List (Dict V) → Type 0
  IsScopes ss = (is_empty ss ≡ false) × (all distinct ss ≡ true)

  abbrev pub IsEnvironment : Environment V → Type 0
  IsEnvironment e = (distinct e.base ≡ true) × IsScopes e.scopes

  get-set_first :
      (k j : Text) (v : V) (ss : List (Dict V)) (base : Dict V)
      → is_empty ss ≡ false
      → get_scopes j (set_first k v ss) base
        ≡ (if text_eq k j then some v else get_scopes j ss base)
  unfolding get_scopes
  get-set_first k j v [] base h = cc
  get-set_first k j v (s ∷ ss) base h = ground (arith, get-insert k j v s)

  -- In an environment that satisfies the invariant, set gives the name its value and leaves what
  -- the other names have.
  pub get_variable-set :
      (k j : Text) (v : V) (e : Environment V)
      → IsEnvironment e
      → get_variable j (set k v e) ≡ (if text_eq k j then some v else get_variable j e)
  get_variable-set k j v e h = get-set_first k j v e.scopes e.base h.1.0

  get-update_scopes :
      (k j : Text) (v : V) (ss : List (Dict V)) (base : Dict V)
      → elim (update_scopes k v ss) [
        | some ts ↦ get_scopes j ts base
        | none ↦ if text_eq k j then some v else get_scopes j ss base
      ]
        ≡ (if text_eq k j then some v else get_scopes j ss base)
  unfolding get_scopes update_scopes
  get-update_scopes k j v [] base = refl
  get-update_scopes k j v (s ∷ ss) base = elim (Bool-cases (contains_key k s)) [
    | inl e ↦ ground (arith, get-insert k j v s)
    | inr e ↦ elim (Option-cases (update_scopes k v ss)) [
      | inl f ↦ rw (e, f)
      | inr (ts, f) ↦
          ground (arith, get-update_scopes k j v ss base, get-contains_key k s, text_eq_iff k j)
    ]
  ]

  get_variable-updated :
      (k j : Text) (v : V) (e : Environment V) (o : Option (List (Dict V)))
      → is_empty e.scopes ≡ false
      → update_scopes k v e.scopes ≡ o
      → get_variable j (updated k v e o) ≡ (if text_eq k j then some v else get_variable j e)
  get_variable-updated k j v e none h f = get-set_first k j v e.scopes e.base h
  get_variable-updated k j v e (some ts) h f =
      let found = get-update_scopes k j v e.scopes e.base in rw f at found

  -- In an environment that satisfies the invariant, after update the name has the value and every
  -- other name has what it had, whether the name was found in a scope or is put into the innermost.
  pub get_variable-update :
      (k j : Text) (v : V) (e : Environment V)
      → IsEnvironment e
      → get_variable j (update k v e) ≡ (if text_eq k j then some v else get_variable j e)
  get_variable-update k j v e h =
      get_variable-updated k j v e (update_scopes k v e.scopes) h.1.0 refl

  pop-cons : (s : Dict V) (ss : List (Dict V)) → is_empty ss ≡ false → pop (s ∷ ss) ≡ ss
  pop-cons s [] h = cc
  pop-cons s (t ∷ ss) h = refl

  -- In an environment that satisfies the invariant, what set writes into a pushed scope is gone
  -- when the scope is popped.
  pub pop_scope-set :
      (k : Text) (v : V) (e : Environment V)
      → IsEnvironment e
      → pop_scope (set k v (push_scope e)) ≡ e
  pop_scope-set k v e h =
      ap (λ ss. record { base = e.base; scopes = ss }) (pop-cons (insert k v []) e.scopes h.1.0)

  any_scope-update :
      (k : Text) (v : V) (ss : List (Dict V))
      → any_scope k ss ≡ true
      → (ts : List (Dict V)) × (update_scopes k v ss ≡ some ts) × (is_empty ts ≡ false)
  unfolding any_scope update_scopes
  any_scope-update k v [] h = cc
  any_scope-update k v (s ∷ ss) h = elim (Bool-cases (contains_key k s)) [
    | inl e ↦ (insert k v s ∷ ss, rw e, refl)
    | inr e ↦ let (ts, f, _) = any_scope-update k v ss (rw e at h) in (s ∷ ts, rw (e, f), refl)
  ]

  -- What update writes from a pushed scope to a variable of an outer one stays when the scope is
  -- popped.
  pub pop_scope-update :
      (k : Text) (v : V) (e : Environment V)
      → any_scope k e.scopes ≡ true
      → pop_scope (update k v (push_scope e)) ≡ update k v e
  unfolding update_scopes contains_key
  pop_scope-update k v e h =
      let (ts, f, some_scope) = any_scope-update k v e.scopes h in rw (f, pop-cons [] ts some_scope)

  pub pop-IsScopes : (ss : List (Dict V)) → IsScopes ss → IsScopes (pop ss)
  pop-IsScopes [] h = h
  pop-IsScopes (s ∷ []) h = h
  pop-IsScopes (s ∷ t ∷ ss) (h, all_distinct) = (refl, (and-eq_true _ _ all_distinct).1)

  pub set_first-IsScopes :
      (k : Text) (v : V) (ss : List (Dict V)) → IsScopes ss → IsScopes (set_first k v ss)
  set_first-IsScopes k v [] h = h
  set_first-IsScopes k v (s ∷ ss) (h, all_distinct) = (refl, ground (arith, insert-distinct k v s))

  IsScopes-eq : (ss ts : List (Dict V)) → ss ≡ ts → IsScopes ss → IsScopes ts
  IsScopes-eq ss ts e h = rw e at h

  update_scopes-IsScopes :
      (k : Text) (v : V) (ss : List (Dict V)) {ts : List (Dict V)}
      → update_scopes k v ss ≡ some ts
      → all distinct ss ≡ true
      → IsScopes ts
  unfolding update_scopes
  update_scopes-IsScopes k v [] f h = cc
  update_scopes-IsScopes k v (s ∷ ss) {ts} f h = elim (Bool-cases (contains_key k s)) [
    | inl e ↦
        IsScopes-eq (insert k v s ∷ ss) ts (some-injective _ _ (rw e at f))
          (set_first-IsScopes k v (s ∷ ss) (refl, h))
    | inr e ↦ elim (Option-cases (update_scopes k v ss)) [
      | inl g ↦ cc (rw (e, g) at f)
      | inr (us, g) ↦
          IsScopes-eq (s ∷ us) ts (some-injective _ _ (rw (e, g) at f))
            (refl, ground (arith, update_scopes-IsScopes k v ss g))
    ]
  ]

  pub updated-IsEnvironment :
      (k : Text) (v : V) (e : Environment V) (o : Option (List (Dict V)))
      → update_scopes k v e.scopes ≡ o
      → IsEnvironment e
      → IsEnvironment (updated k v e o) × ((updated k v e o).base ≡ e.base)
  updated-IsEnvironment k v e none f h = ((h.0, set_first-IsScopes k v e.scopes h.1), refl)
  updated-IsEnvironment k v e (some ts) f h =
      ((h.0, update_scopes-IsScopes k v e.scopes f h.1.1), refl)

  pub freeze_scopes-distinct :
      (base : Dict V) (ss : List (Dict V))
      → distinct base ≡ true
      → distinct (freeze_scopes base ss) ≡ true
  unfolding freeze_scopes
  freeze_scopes-distinct base [] h = h
  freeze_scopes-distinct base (s ∷ ss) h =
      extend-distinct (freeze_scopes base ss) s (freeze_scopes-distinct base ss h)

  -- new makes an environment with a scope and no name twice in a map, every operation that writes
  -- keeps it one, and none but freeze touches the base.
  pub operations-IsEnvironment :
      (k : Text) (v : V) (e : Environment V)
      → IsEnvironment e
      → IsEnvironment new
        × (IsEnvironment (push_scope e) × ((push_scope e).base ≡ e.base))
        × (IsEnvironment (pop_scope e) × ((pop_scope e).base ≡ e.base))
        × (IsEnvironment (set k v e) × ((set k v e).base ≡ e.base))
        × (IsEnvironment (update k v e) × ((update k v e).base ≡ e.base))
        × IsEnvironment (freeze e)
  unfolding distinct
  operations-IsEnvironment k v e h = (
    (refl, (refl, refl)),
    ((h.0, (refl, h.1.1)), refl),
    ((h.0, pop-IsScopes e.scopes h.1), refl),
    ((h.0, set_first-IsScopes k v e.scopes h.1), refl),
    updated-IsEnvironment k v e (update_scopes k v e.scopes) refl h,
    (freeze_scopes-distinct e.base e.scopes h.0, (refl, refl)),
  )
