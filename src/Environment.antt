-- ===== src/Environment.antt =====
-- src/environment.rs: variable scopes. The innermost scope, which the code keeps last in its
-- vector, stands first in the list. Values are of any type `V`; the only test on a value, whether
-- it is a task, is an argument of `all_tasks`.
pub mod Lookup
pub mod Writes
pub mod Abstract
pub mod Refines
mod Tests
use marreta_lang.Base.{
  ℕ, Bool, true, false, not, ◌&&◌, ◌||◌, List, [], ◌∷◌, map, if◌then◌else◌, Option, none, some, ltb,
  ◌==◌, length,
}
use marreta_lang.Text.{Text, text_eq}
use marreta_lang.Text.Order.{sort_by}
use marreta_lang.Text.Dict.{Dict, get, insert, contains_key, extend}

pub record Environment {ℓ} (V : Type ℓ) : Type ℓ where
  pub base : Dict V
  pub scopes : List (Dict V)

module _ {ℓ} {V : Type ℓ} where
  abbrev pub new : Environment V
  new = record { base = []; scopes = [] ∷ [] }

  abbrev pub push_scope : Environment V → Environment V
  push_scope e = record { base = e.base; scopes = [] ∷ e.scopes }

  -- The last scope stays.
  abbrev pub pop : List (Dict V) → List (Dict V)
  pop (s ∷ t ∷ ss) = t ∷ ss
  pop ss = ss

  abbrev pub pop_scope : Environment V → Environment V
  pop_scope e = record { base = e.base; scopes = pop e.scopes }

  abbrev pub set_first : Text → V → List (Dict V) → List (Dict V)
  set_first name v [] = []
  set_first name v (s ∷ ss) = insert name v s ∷ ss

  abbrev pub set : Text → V → Environment V → Environment V
  set name v e = record { base = e.base; scopes = set_first name v e.scopes }

  unfoldable pub get_scopes : Text → List (Dict V) → Dict V → Option V
  get_scopes name [] base = get name base
  get_scopes name (s ∷ ss) base = elim (get name s) [
    | some v ↦ some v
    | none ↦ get_scopes name ss base
  ]

  abbrev pub get_variable : Text → Environment V → Option V
  get_variable name e = get_scopes name e.scopes e.base

  unfoldable pub any_scope : Text → List (Dict V) → Bool
  any_scope name [] = false
  any_scope name (s ∷ ss) = contains_key name s || any_scope name ss

  abbrev pub has : Text → Environment V → Bool
  has name e = any_scope name e.scopes || contains_key name e.base

  -- The scopes after the value is put into the nearest one that has the name, if one has.
  unfoldable pub update_scopes : Text → V → List (Dict V) → Option (List (Dict V))
  update_scopes name v [] = none
  update_scopes name v (s ∷ ss) =
      let rest = update_scopes name v ss in
      if contains_key name s
      then some (insert name v s ∷ ss)
      else elim rest [ none ↦ none | some ts ↦ some (s ∷ ts) ]

  abbrev pub updated : Text → V → Environment V → Option (List (Dict V)) → Environment V
  updated name v e (some ss) = record { base = e.base; scopes = ss }
  updated name v e none = set name v e

  abbrev pub update : Text → V → Environment V → Environment V
  update name v e = updated name v e (update_scopes name v e.scopes)

  abbrev pub depth : Environment V → ℕ
  depth e = length e.scopes

  -- `seen.entry(name).or_insert(value)` for every pair of a scope.
  unfoldable pub add_unseen : Dict V → Dict V → Dict V
  add_unseen seen [] = seen
  add_unseen seen ((k, v) ∷ s) =
      add_unseen (if contains_key k seen then seen else insert k v seen) s

  unfoldable pub add_scopes : Dict V → List (Dict V) → Dict V
  add_scopes seen [] = seen
  add_scopes seen (s ∷ ss) = add_scopes (add_unseen seen s) ss

  abbrev pub all_variables : Environment V → Dict V
  all_variables e = sort_by (λ p. p.0) (add_unseen (add_scopes [] e.scopes) e.base)

  abbrev pub local_variables : Environment V → Dict V
  local_variables e = add_scopes [] e.scopes

  unfoldable pub task_names : (V → Bool) → Dict V → List Text
  task_names is_task [] = []
  task_names is_task ((k, v) ∷ m) =
      if is_task v then k ∷ task_names is_task m else task_names is_task m

  abbrev pub all_tasks : (V → Bool) → Environment V → List Text
  all_tasks is_task e = sort_by (λ k. k) (task_names is_task (all_variables e))

  -- The outer scopes are put into the base before the inner ones.
  unfoldable pub freeze_scopes : Dict V → List (Dict V) → Dict V
  freeze_scopes base [] = base
  freeze_scopes base (s ∷ ss) = extend (freeze_scopes base ss) s

  abbrev pub freeze : Environment V → Environment V
  freeze e = record { base = freeze_scopes e.base e.scopes; scopes = [] ∷ [] }
