-- ===== src/SchemaCycle/Tests.antt =====
-- Tests of src/schema_cycle.rs, and the theorems on it at concrete graphs.
use marreta_lang.Base.{◌≡◌, refl, List, [], ◌∷◌, Option, none, some}
use marreta_lang.Base.Results.{ok}
use marreta_lang.Text.{Text, codes, text_eq}
use marreta_lang.Text.Order.{text_lt, place, sort_by}
use marreta_lang.Text.Dict.{Dict, get, contains_key}
use marreta_lang.SchemaCycle.{
  mem, remove, from_node, visit, walk, value_names, search_from, find_disallowed_cycle,
}
use marreta_lang.SchemaCycle.Graph.{IsDisallowedCycle}
use marreta_lang.SchemaCycle.Sound.{find_disallowed_cycle_sound}
use marreta_lang.SchemaCycle.Complete.{find_disallowed_cycle_complete}
use marreta_lang.SchemaCycle.Fuel.{find_disallowed_cycle_total}

-- Z refers to A, and A, B and C refer to each other in a ring.
abbrev ring : Dict (List Text)
ring =
    (codes "Z", codes "A" ∷ [])
    ∷ (codes "A", codes "B" ∷ [])
    ∷ (codes "B", codes "C" ∷ [])
    ∷ (codes "C", codes "A" ∷ [])
    ∷ []

ring-cycle :
    find_disallowed_cycle ring [] ≡ ok (some (codes "A" ∷ codes "B" ∷ codes "C" ∷ codes "A" ∷ []))
unfolding find_disallowed_cycle search_from walk visit value_names from_node remove mem get
    contains_key text_eq text_lt place sort_by
ring-cycle = refl

-- A persistent schema breaks the ring.
ring-persistent : find_disallowed_cycle ring (codes "B" ∷ []) ≡ ok none
unfolding find_disallowed_cycle search_from walk visit value_names from_node remove mem get
    contains_key text_eq text_lt place sort_by
ring-persistent = refl

find_disallowed_cycle_sound_example :
    IsDisallowedCycle ring [] (codes "A" ∷ codes "B" ∷ codes "C" ∷ codes "A" ∷ [])
find_disallowed_cycle_sound_example =
    find_disallowed_cycle_sound ring [] (codes "A" ∷ codes "B" ∷ codes "C" ∷ codes "A" ∷ [])
      ring-cycle

find_disallowed_cycle_complete_example :
    ¬ (IsDisallowedCycle ring (codes "B" ∷ []) (codes "A" ∷ codes "B" ∷ codes "C" ∷ codes "A" ∷ []))
find_disallowed_cycle_complete_example =
    find_disallowed_cycle_complete ring (codes "B" ∷ [])
      (codes "A" ∷ codes "B" ∷ codes "C" ∷ codes "A" ∷ []) ring-persistent

find_disallowed_cycle_total_example :
    (o : Option (List Text)) × (find_disallowed_cycle ring [] ≡ ok o)
find_disallowed_cycle_total_example = find_disallowed_cycle_total ring []
