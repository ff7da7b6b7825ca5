-- ===== src/Environment/Tests.antt =====
-- The theorems on src/environment.rs at a concrete environment.
use marreta_lang.Base.{◌≡◌, refl, ℕ, true, [], ◌∷◌, length, some, all, if◌then◌else◌, List}
use marreta_lang.Text.{codes, text_eq}
use marreta_lang.Text.Dict.{get, insert, extend, contains_key, distinct}
use marreta_lang.Environment.{
  Environment, new, push_scope, pop_scope, set, get_variable, any_scope, update, all_variables,
  freeze, depth, has, get_scopes, update_scopes, freeze_scopes,
}
use marreta_lang.Environment.Lookup.{is_some, get_variable-freeze, get-all_variables}
use marreta_lang.Environment.Writes.{
  IsEnvironment, get_variable-update, pop_scope-update, operations-IsEnvironment,
}
use marreta_lang.Environment.Abstract.{Operation, lookup}
use marreta_lang.Environment.Refines.{apply_all, made, apply_all-made}

-- `x` stands in both scopes and in the base.
abbrev shadowed : Environment ℕ
shadowed = record {
  base = (codes "x", 1) ∷ (codes "f", 7) ∷ [];
  scopes = ((codes "x", 3) ∷ []) ∷ ((codes "y", 4) ∷ (codes "x", 2) ∷ []) ∷ [];
}

shadowed-distinct : all distinct shadowed.scopes ≡ true
unfolding distinct contains_key text_eq
shadowed-distinct = refl

shadowed-IsEnvironment : IsEnvironment shadowed
unfolding distinct contains_key text_eq
shadowed-IsEnvironment = (refl, (refl, refl))

shadowed-y : any_scope (codes "y") shadowed.scopes ≡ true
unfolding any_scope contains_key text_eq
shadowed-y = refl

get_variable-freeze_example :
    (get_variable (codes "x") (freeze shadowed) ≡ get_variable (codes "x") shadowed)
    × ((freeze shadowed).scopes ≡ [] ∷ [])
get_variable-freeze_example = get_variable-freeze (codes "x") shadowed shadowed-distinct

get-all_variables_example :
    get (codes "x") (all_variables shadowed) ≡ get_variable (codes "x") shadowed
get-all_variables_example = get-all_variables (codes "x") shadowed

get_variable-update_example :
    get_variable (codes "y") (update (codes "y") 9 shadowed)
    ≡ (if text_eq (codes "y") (codes "y") then some 9 else get_variable (codes "y") shadowed)
get_variable-update_example =
    get_variable-update (codes "y") (codes "y") 9 shadowed shadowed-IsEnvironment

pop_scope-update_example :
    pop_scope (update (codes "y") 9 (push_scope shadowed)) ≡ update (codes "y") 9 shadowed
pop_scope-update_example = pop_scope-update (codes "y") 9 shadowed shadowed-y

operations-IsEnvironment_example :
    IsEnvironment {V = ℕ} new
    × (IsEnvironment (push_scope shadowed) × ((push_scope shadowed).base ≡ shadowed.base))
    × (IsEnvironment (pop_scope shadowed) × ((pop_scope shadowed).base ≡ shadowed.base))
    × (IsEnvironment (set (codes "x") 9 shadowed)
        × ((set (codes "x") 9 shadowed).base ≡ shadowed.base))
    × (IsEnvironment (update (codes "x") 9 shadowed)
        × ((update (codes "x") 9 shadowed).base ≡ shadowed.base))
    × IsEnvironment (freeze shadowed)
operations-IsEnvironment_example =
    operations-IsEnvironment (codes "x") 9 shadowed shadowed-IsEnvironment

-- `x` is set and frozen; what is written in the pushed scope is gone when it is popped.
abbrev calls : List (Operation ℕ)
calls =
    Operation.set (codes "x") 1
    ∷ Operation.freeze
    ∷ Operation.push_scope
    ∷ Operation.update (codes "x") 2
    ∷ Operation.set (codes "y") 3
    ∷ Operation.pop_scope
    ∷ Operation.update (codes "y") 4
    ∷ []

apply_all-made_example :
    (get_variable (codes "x") (apply_all calls new) ≡ lookup (codes "x") (made calls))
    × (has (codes "x") (apply_all calls new) ≡ is_some (lookup (codes "x") (made calls)))
    × (depth (apply_all calls new) ≡ length (made calls).locals)
apply_all-made_example = apply_all-made calls (codes "x")

apply_all-calls :
    (get_variable (codes "x") (apply_all calls new) ≡ some 1)
    × (get_variable (codes "y") (apply_all calls new) ≡ some 4)
unfolding update_scopes get_scopes contains_key insert get text_eq freeze_scopes extend
apply_all-calls = (refl, refl)
