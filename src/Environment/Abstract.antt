-- ===== src/Environment/Abstract.antt =====
-- src/environment.rs: what an environment stands for. A scope is a partial function from names to
-- values, and the maps, with their order and their shadowed pairs, are forgotten.
use marreta_lang.Base.{Bool, false, ◌||◌, List, [], ◌∷◌, Option, none, some, if◌then◌else◌}
use marreta_lang.Text.{Text, text_eq}
use marreta_lang.Environment.Lookup.{is_some}

abbrev pub Scope {ℓ} : Type ℓ → Type ℓ
Scope V = Text → Option V

pub record Scopes {ℓ} (V : Type ℓ) : Type ℓ where
  pub globals : Scope V
  pub locals : List (Scope V)

-- The calls that write.
pub data Operation {ℓ} (V : Type ℓ) : Type ℓ where
  push_scope : Operation V
  pop_scope : Operation V
  set : Text → V → Operation V
  update : Text → V → Operation V
  freeze : Operation V

module _ {ℓ} {V : Type ℓ} where
  abbrev pub nowhere : Scope V
  nowhere name = none

  abbrev pub write : Text → V → Scope V → Scope V
  write k v f name = if text_eq k name then some v else f name

  -- The nearest value.
  unfoldable pub nearest : Text → List (Scope V) → Scope V → Option V
  nearest name [] globals = globals name
  nearest name (f ∷ fs) globals = if is_some (f name) then f name else nearest name fs globals

  abbrev pub lookup : Text → Scopes V → Option V
  lookup name m = nearest name m.locals m.globals

  abbrev pub innermost : (Scope V → Scope V) → List (Scope V) → List (Scope V)
  innermost change [] = []
  innermost change (f ∷ fs) = change f ∷ fs

  abbrev pub without_innermost : List (Scope V) → List (Scope V)
  without_innermost (f ∷ g ∷ fs) = g ∷ fs
  without_innermost fs = fs

  unfoldable pub defined : Text → List (Scope V) → Bool
  defined name [] = false
  defined name (f ∷ fs) = is_some (f name) || defined name fs

  -- The nearest scope that has the name is changed.
  unfoldable pub overwrite : Text → V → List (Scope V) → List (Scope V)
  overwrite name v [] = []
  overwrite name v (f ∷ fs) =
      if is_some (f name) then write name v f ∷ fs else f ∷ overwrite name v fs

  abbrev pub overwrite_or_set : Text → V → List (Scope V) → List (Scope V)
  overwrite_or_set name v fs =
      if defined name fs then overwrite name v fs else innermost (write name v) fs

  -- What an operation promises.
  abbrev pub promise : Operation V → Scopes V → Scopes V
  promise push_scope m = record m { locals = nowhere ∷ m.locals }
  promise pop_scope m = record m { locals = without_innermost m.locals }
  promise (set name v) m = record m { locals = innermost (write name v) m.locals }
  promise (update name v) m = record m { locals = overwrite_or_set name v m.locals }
  promise freeze m = record { globals = λ name. lookup name m; locals = nowhere ∷ [] }

  abbrev pub promises : List (Operation V) → Scopes V → Scopes V
  promises [] m = m
  promises (o ∷ os) m = promises os (promise o m)
