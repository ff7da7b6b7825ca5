-- ===== src/SchemaCycle.antt =====
-- src/schema_cycle.rs: the search for a cycle of schemas that only value schemas take part in.
-- `refs` is an association list and `persistent` a list that stands for a set. The recursion of
-- `walk` runs on fuel; each call puts one more key of `refs` on the path, so that there are never
-- more calls inside each other than keys.
pub mod Graph
pub mod Sound
pub mod Left
pub mod Complete
pub mod Fuel
mod Tests
use marreta_lang.Base.{
  ℕ, zero, suc, Bool, true, false, not, ◌&&◌, ◌||◌, List, [], ◌∷◌, ◌++◌, if◌then◌else◌, Option,
  none, some, length,
}
use marreta_lang.Base.Results.{Result, ok, panic, err, timeout}
use marreta_lang.Text.{Text, text_eq}
use marreta_lang.Text.Order.{sort_by}
use marreta_lang.Text.Dict.{Dict, get, contains_key}

-- `contains` of a set.
unfoldable pub mem : Text → List Text → Bool
mem a [] = false
mem a (b ∷ bs) = text_eq b a || mem a bs

-- `HashSet::insert`
abbrev pub add : Text → List Text → List Text
add a bs = if mem a bs then bs else a ∷ bs

-- `HashSet::remove`
unfoldable pub remove : Text → List Text → List Text
remove a [] = []
remove a (b ∷ bs) = if text_eq b a then remove a bs else b ∷ remove a bs

-- `Vec::pop`
abbrev pub init : List Text → List Text
init [] = []
init (a ∷ []) = []
init (a ∷ b ∷ bs) = a ∷ init (b ∷ bs)

-- `path[pos..]` for the first position of the node.
unfoldable pub from_node : Text → List Text → List Text
from_node n [] = []
from_node n (a ∷ path) = if text_eq a n then a ∷ path else from_node n path

-- The node stands on the path, or `unwrap_or(0)` takes the whole path.
abbrev pub cycle_at : Text → List Text → List Text
cycle_at n path = (if mem n path then from_node n path else path) ++ (n ∷ [])

pub record Search : Type 0 where
  pub path : List Text
  pub on_path : List Text
  pub visited : List Text

pub data Outcome : Type 0 where
  found : List Text → Outcome
  finished : Search → Outcome
  no_fuel : Outcome

abbrev pub then_search : Outcome → (Search → Outcome) → Outcome
then_search (Outcome.found c) f = Outcome.found c
then_search (Outcome.finished s) f = f s
then_search Outcome.no_fuel f = Outcome.no_fuel

abbrev pub keys : Dict (List Text) → List Text
keys [] = []
keys ((k, v) ∷ m) = k ∷ keys m

abbrev pub or_empty : Option (List Text) → List Text
or_empty none = []
or_empty (some ns) = ns

module _ (refs : Dict (List Text)) (persistent : List Text) where
  abbrev pub references : Text → List Text
  references node = or_empty (get node refs)

  abbrev pub enter : Text → Search → Search
  enter node s = record {
    path = s.path ++ (node ∷ []);
    on_path = add node s.on_path;
    visited = s.visited;
  }

  abbrev pub leave : Text → Search → Search
  leave node s = record {
    path = init s.path;
    on_path = remove node s.on_path;
    visited = add node s.visited;
  }

  -- The loop over the neighbors, with the recursive call as an argument.
  unfoldable pub visit : (Text → Search → Outcome) → List Text → Search → Outcome
  visit call [] s = Outcome.finished s
  visit call (next ∷ ns) s =
      if mem next persistent
      then visit call ns s
      else (if mem next s.on_path
          then Outcome.found (cycle_at next s.path)
          else (if contains_key next refs && not (mem next s.visited)
              then then_search (call next s) (visit call ns)
              else visit call ns s))

  unfoldable pub walk : ℕ → Text → Search → Outcome
  walk zero node s = Outcome.no_fuel
  walk (suc fuel) node s =
      then_search (visit (walk fuel) (sort_by (λ k. k) (references node)) (enter node s))
        (λ t. Outcome.finished (leave node t))

  abbrev pub empty_search : Search
  empty_search = record { path = []; on_path = []; visited = [] }

  unfoldable pub value_names : List Text → List Text
  value_names [] = []
  value_names (k ∷ ks) = if mem k persistent then value_names ks else k ∷ value_names ks

  -- The loop over the starts: the first cycle, or none.
  -- What the loop over the starts does with the outcome of one, given what the rest answers.
  abbrev pub or_next : Outcome → Result Text (Option (List Text)) → Result Text (Option (List Text))
  or_next (Outcome.found c) rest = ok (some c)
  or_next (Outcome.finished s) rest = rest
  or_next Outcome.no_fuel rest = timeout

  -- The loop over the starts: the first cycle, or none.
  unfoldable pub search_from : ℕ → List Text → Result Text (Option (List Text))
  search_from fuel [] = ok none
  search_from fuel (start ∷ starts) =
      or_next (walk fuel start empty_search) (search_from fuel starts)

  unfoldable pub find_disallowed_cycle : Result Text (Option (List Text))
  find_disallowed_cycle =
      search_from (suc (length (keys refs))) (sort_by (λ k. k) (value_names (keys refs)))
