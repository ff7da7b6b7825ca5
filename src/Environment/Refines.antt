-- ===== src/Environment/Refines.antt =====
-- src/environment.rs: each operation does to an environment what it promises of the scopes that the
-- environment stands for.
use marreta_lang.Base.{
  ◌≡◌, refl, sym, ap, ◌∙◌, true, false, List, [], ◌∷◌, map, arith, Option, none, some, length,
  Bool-cases, Option-cases, inl, inr, suc,
}
use mathlib.Core.Path.{fun_ext}
use marreta_lang.Text.{Text}
use marreta_lang.Text.Dict.{Dict, get, insert, contains_key, distinct, get-insert}
use marreta_lang.Environment.{
  Environment, new, push_scope, pop, pop_scope, set_first, set, get_scopes, get_variable, has,
  update_scopes, updated, update, depth, freeze_scopes, freeze,
}
use marreta_lang.Environment.Lookup.{
  is_some, contains_key-is_some, get-freeze_scopes, has-get_variable,
}
use marreta_lang.Environment.Writes.{
  IsEnvironment, some-injective, pop-IsScopes, set_first-IsScopes, updated-IsEnvironment,
  freeze_scopes-distinct,
}
use marreta_lang.Environment.Abstract.{
  Scope, Scopes, Operation, nowhere, write, nearest, lookup, innermost, without_innermost, defined,
  overwrite, overwrite_or_set, promise, promises,
}

module _ {ℓ} {V : Type ℓ} where
  -- The call that an operation is.
  abbrev pub apply_operation : Operation V → Environment V → Environment V
  apply_operation Operation.push_scope e = push_scope e
  apply_operation Operation.pop_scope e = pop_scope e
  apply_operation (Operation.set name v) e = set name v e
  apply_operation (Operation.update name v) e = update name v e
  apply_operation Operation.freeze e = freeze e

  abbrev pub apply_all : List (Operation V) → Environment V → Environment V
  apply_all [] e = e
  apply_all (o ∷ os) e = apply_all os (apply_operation o e)

  abbrev pub scope_of : Dict V → Scope V
  scope_of s name = get name s

  abbrev pub view : Environment V → Scopes V
  view e = record { globals = scope_of e.base; locals = map scope_of e.scopes }

  scope_of-nil : scope_of [] ≡ nowhere
  unfolding get
  scope_of-nil = refl

  scope_of-insert :
      (k : Text) (v : V) (s : Dict V) → scope_of (insert k v s) ≡ write k v (scope_of s)
  scope_of-insert k v s = fun_ext λ j. get-insert k j v s

  nearest-scopes :
      (name : Text) (ss : List (Dict V)) (base : Dict V)
      → nearest name (map scope_of ss) (scope_of base) ≡ get_scopes name ss base
  unfolding nearest get_scopes
  nearest-scopes name [] base = refl
  nearest-scopes name (s ∷ ss) base = ground (arith, nearest-scopes name ss base)

  pop-view : (ss : List (Dict V)) → map scope_of (pop ss) ≡ without_innermost (map scope_of ss)
  pop-view [] = refl
  pop-view (s ∷ []) = refl
  pop-view (s ∷ t ∷ ss) = refl

  set_first-view :
      (k : Text) (v : V) (ss : List (Dict V))
      → map scope_of (set_first k v ss) ≡ innermost (write k v) (map scope_of ss)
  set_first-view k v [] = refl
  set_first-view k v (s ∷ ss) = ap (λ f. f ∷ map scope_of ss) (scope_of-insert k v s)

  unfound :
      (k : Text) (v : V) (ss : List (Dict V))
      → update_scopes k v ss ≡ none
      → defined k (map scope_of ss) ≡ false
  unfolding update_scopes defined
  unfound k v [] h = refl
  unfound k v (s ∷ ss) h = elim (Bool-cases (contains_key k s)) [
    | inl e ↦ cc (rw e at h)
    | inr e ↦ elim (Option-cases (update_scopes k v ss)) [
      | inl f ↦ ground (arith, contains_key-is_some k s, unfound k v ss f)
      | inr (ts, f) ↦ cc (rw (e, f) at h)
    ]
  ]

  -- The nearest scope with the name is overwritten.
  Overwrites : Text → V → List (Dict V) → List (Dict V) → Type ℓ
  Overwrites k v ss ts =
      (defined k (map scope_of ss) ≡ true) × (map scope_of ts ≡ overwrite k v (map scope_of ss))

  Overwrites-first :
      (k : Text) (v : V) (s : Dict V) (ss : List (Dict V))
      → is_some (get k s) ≡ true
      → Overwrites k v (s ∷ ss) (insert k v s ∷ ss)
  unfolding Overwrites defined overwrite
  Overwrites-first k v s ss h =
      (rw h refl, rw h (ap (λ f. f ∷ map scope_of ss) (scope_of-insert k v s)))

  Overwrites-rest :
      (k : Text) (v : V) (s : Dict V) (ss ts : List (Dict V))
      → is_some (get k s) ≡ false
      → Overwrites k v ss ts
      → Overwrites k v (s ∷ ss) (s ∷ ts)
  unfolding Overwrites defined overwrite
  Overwrites-rest k v s ss ts h (found, same) =
      (rw (h, found) refl, rw h (ap (λ fs. scope_of s ∷ fs) same))

  found :
      (k : Text) (v : V) (ss : List (Dict V)) {ts : List (Dict V)}
      → update_scopes k v ss ≡ some ts
      → Overwrites k v ss ts
  unfolding update_scopes
  found k v [] h = cc
  found k v (s ∷ ss) {ts} h = elim (Bool-cases (contains_key k s)) [
    | inl e ↦
        let same : insert k v s ∷ ss ≡ ts = some-injective _ _ (rw e at h) in
        rw same at (Overwrites-first k v s ss (sym (contains_key-is_some k s) ∙ e))
    | inr e ↦ elim (Option-cases (update_scopes k v ss)) [
      | inl f ↦ cc (rw (e, f) at h)
      | inr (us, f) ↦
          let same : s ∷ us ≡ ts = some-injective _ _ (rw (e, f) at h) in
          rw same at
            (Overwrites-rest k v s ss us (sym (contains_key-is_some k s) ∙ e) (found k v ss f))
    ]
  ]

  abbrev with_locals : Environment V → List (Scope V) → Scopes V
  with_locals e fs = record { globals = scope_of e.base; locals = fs }

  updated-view :
      (k : Text) (v : V) (e : Environment V) (o : Option (List (Dict V)))
      → update_scopes k v e.scopes ≡ o
      → view (updated k v e o) ≡ with_locals e (overwrite_or_set k v (map scope_of e.scopes))
  unfolding Overwrites
  updated-view k v e none h =
      rw (unfound k v e.scopes h) (ap (with_locals e) (set_first-view k v e.scopes))
  updated-view k v e (some ts) h =
      let (defined, same) = found k v e.scopes h in rw defined (ap (with_locals e) same)

  freeze-view :
      (e : Environment V) → IsEnvironment e → view (freeze e) ≡ promise Operation.freeze (view e)
  unfolding get
  freeze-view e h =
      let all_names : scope_of (freeze_scopes e.base e.scopes) ≡ (λ name. lookup name (view e)) =
        fun_ext λ name.
          get-freeze_scopes name e.scopes e.base h.1.1
          ∙ sym (nearest-scopes name e.scopes e.base) in
      ap (λ f. record { globals = f; locals = nowhere ∷ [] }) all_names

  apply_operation-view :
      (o : Operation V) (e : Environment V)
      → IsEnvironment e
      → view (apply_operation o e) ≡ promise o (view e)
  unfolding get
  apply_operation-view Operation.push_scope e h = refl
  apply_operation-view Operation.pop_scope e h = ap (with_locals e) (pop-view e.scopes)
  apply_operation-view (Operation.set k v) e h = ap (with_locals e) (set_first-view k v e.scopes)
  apply_operation-view (Operation.update k v) e h =
      updated-view k v e (update_scopes k v e.scopes) refl
  apply_operation-view Operation.freeze e h = freeze-view e h

  apply_operation-IsEnvironment :
      (o : Operation V) (e : Environment V) → IsEnvironment e → IsEnvironment (apply_operation o e)
  unfolding distinct
  apply_operation-IsEnvironment Operation.push_scope e h = (h.0, (refl, h.1.1))
  apply_operation-IsEnvironment Operation.pop_scope e h = (h.0, pop-IsScopes e.scopes h.1)
  apply_operation-IsEnvironment (Operation.set k v) e h = (h.0, set_first-IsScopes k v e.scopes h.1)
  apply_operation-IsEnvironment (Operation.update k v) e h =
      (updated-IsEnvironment k v e (update_scopes k v e.scopes) refl h).0
  apply_operation-IsEnvironment Operation.freeze e h =
      (freeze_scopes-distinct e.base e.scopes h.0, (refl, refl))

  apply_all-view :
      (os : List (Operation V)) (e : Environment V)
      → IsEnvironment e
      → view (apply_all os e) ≡ promises os (view e)
  apply_all-view [] e h = refl
  apply_all-view (o ∷ os) e h =
      apply_all-view os (apply_operation o e) (apply_operation-IsEnvironment o e h)
      ∙ ap (promises os) (apply_operation-view o e h)

  -- What the operations have made of a new environment, as functions.
  abbrev pub made : List (Operation V) → Scopes V
  made os = promises os (record { globals = nowhere; locals = nowhere ∷ [] })

  view-made : (os : List (Operation V)) → view (apply_all os new) ≡ made os
  unfolding get distinct
  view-made os = apply_all-view os new (refl, (refl, refl))

  length-scopes : (ss : List (Dict V)) → length ss ≡ length (map scope_of ss)
  length-scopes [] = refl
  length-scopes (s ∷ ss) = ap suc (length-scopes ss)

  -- After any calls of push_scope, pop_scope, set, update and freeze on a new environment, get, has
  -- and depth answer as the abstract scopes do that the calls promise: partial functions from names
  -- to values, of which set changes the innermost, update the nearest that has the name or else the
  -- innermost, and freeze makes one of them all.
  pub apply_all-made :
      (os : List (Operation V)) (name : Text)
      → (get_variable name (apply_all os new) ≡ lookup name (made os))
        × (has name (apply_all os new) ≡ is_some (lookup name (made os)))
        × (depth (apply_all os new) ≡ length (made os).locals)
  apply_all-made os name =
      let e = apply_all os new in
      let value : get_variable name e ≡ lookup name (made os) =
        sym (nearest-scopes name e.scopes e.base) ∙ ap (lookup name) (view-made os) in
      (
        value,
        has-get_variable name e ∙ ap is_some value,
        length-scopes e.scopes ∙ ap (λ m. length m.locals) (view-made os),
      )
