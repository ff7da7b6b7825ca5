-- ===== src/SchemaCycle/Sound.antt =====
-- src/schema_cycle.rs: a cycle that is reported is one.
use marreta_lang.Base.{
  ℕ, zero, suc, ◌≡◌, refl, sym, ap, ◌∙◌, true, false, not, ◌&&◌, List, [], ◌∷◌, ◌++◌, arith, Option,
  some, all, if_cases, and-eq_true, length,
}
use marreta_lang.Base.Results.{Result, ok}
use marreta_lang.Text.{Text, text_eq_iff}
use marreta_lang.Text.Order.{sort_by, all-sort_by}
use marreta_lang.Text.Dict.{Dict, contains_key}
use marreta_lang.SchemaCycle.{
  mem, init, cycle_at, Search, Outcome, then_search, keys, references, enter, leave, visit, walk,
  empty_search, or_next, value_names, search_from, find_disallowed_cycle,
}
use marreta_lang.SchemaCycle.Graph.{
  mem-add, mem-remove, mem-append_one, init-append_one, all_of, from_node-shape, is_value, edge,
  is_value_walk, IsDisallowedCycle, is_value_walk-append_one, from_node-walk,
}

module _ (refs : Dict (List Text)) (persistent : List Text) where
  -- The nodes on the path are those of the set.
  abbrev pub Agrees : Search → Type 0
  Agrees s = (k : Text) → mem k s.path ≡ mem k s.on_path

  -- A search that finished left the path and the set as they were.
  abbrev pub IsRestored : Search → Outcome → Type 0
  IsRestored s (Outcome.found c) = IsDisallowedCycle refs persistent c
  IsRestored s (Outcome.finished t) =
      (t.path ≡ s.path) × ((k : Text) → mem k t.on_path ≡ mem k s.on_path)
  IsRestored s Outcome.no_fuel = Unit

  -- Where a call for `node` may start.
  abbrev pub MayCall : Text → Search → Type 0
  MayCall node s =
      (is_value_walk refs persistent (s.path ++ (node ∷ [])) ≡ true)
      × (mem node s.on_path ≡ false)
      × Agrees s

  cycle_at-IsDisallowedCycle :
      (front : List Text) (node next : Text)
      → is_value_walk refs persistent (front ++ (node ∷ [])) ≡ true
      → edge refs persistent node next ≡ true
      → is_value refs persistent next ≡ true
      → mem next (front ++ (node ∷ [])) ≡ true
      → IsDisallowedCycle refs persistent (cycle_at next (front ++ (node ∷ [])))
  cycle_at-IsDisallowedCycle front node next h e v m =
      let (front2, rest, f, g) = from_node-shape next front node m in
      let walks = from_node-walk refs persistent next (front ++ (node ∷ [])) h in
      (
        rw (m, f, is_value_walk-append_one refs persistent front2 node next (rw f at walks) e v),
        next,
        rest,
        rw (m, g),
      )

  IsRestored-trans :
      (s t : Search) (o : Outcome)
      → t.path ≡ s.path
      → ((k : Text) → mem k t.on_path ≡ mem k s.on_path)
      → IsRestored t o
      → IsRestored s o
  IsRestored-trans s t (Outcome.found c) e f h = h
  IsRestored-trans s t (Outcome.finished u) e f (g, h) = (g ∙ e, (λ k. h k ∙ f k))
  IsRestored-trans s t Outcome.no_fuel e f h = tt

  then-IsRestored :
      (s : Search) (o : Outcome) (f : Search → Outcome)
      → IsRestored s o
      → ((t : Search)
          → t.path ≡ s.path
          → ((k : Text) → mem k t.on_path ≡ mem k s.on_path)
          → IsRestored t (f t))
      → IsRestored s (then_search o f)
  then-IsRestored s (Outcome.found c) f h k = h
  then-IsRestored s (Outcome.finished t) f (e, g) k = IsRestored-trans s t (f t) e g (k t e g)
  then-IsRestored s Outcome.no_fuel f h k = tt

  leave-IsRestored :
      (node : Text) (s : Search)
      → mem node s.on_path ≡ false
      → (o : Outcome) → IsRestored (enter refs persistent node s) o
      → IsRestored s (then_search o (λ t. Outcome.finished (leave refs persistent node t)))
  leave-IsRestored node s off (Outcome.found c) h = h
  leave-IsRestored node s off (Outcome.finished t) (e, g) = (
    ap init e ∙ init-append_one s.path node,
    (λ k.
        mem-remove k node t.on_path
        ∙ ground (arith, g k, mem-add k node s.on_path, text_eq_iff node k)),
  )
  leave-IsRestored node s off Outcome.no_fuel h = tt

  walk_on :
      (front path : List Text) (node next : Text)
      → path ≡ front ++ (node ∷ [])
      → is_value_walk refs persistent path ≡ true
      → edge refs persistent node next ≡ true
      → is_value refs persistent next ≡ true
      → is_value_walk refs persistent (path ++ (next ∷ [])) ≡ true
  walk_on front path node next p w e v =
      rw (p, is_value_walk-append_one refs persistent front node next (rw p at w) e v)

  visit-IsRestored :
      (call : Text → Search → Outcome) (node : Text) (front : List Text) (ns : List Text)
      (s : Search)
      → ((next : Text) (t : Search) → MayCall next t → IsRestored t (call next t))
      → s.path ≡ front ++ (node ∷ [])
      → is_value_walk refs persistent s.path ≡ true
      → Agrees s
      → all (edge refs persistent node) ns ≡ true
      → IsRestored s (visit refs persistent call ns s)
  unfolding visit
  visit-IsRestored call node front [] s ih p w agrees e = (refl, (λ k. refl))
  visit-IsRestored call node front (next ∷ ns) s ih p w agrees e =
      let (edge1, edges) =
        and-eq_true (edge refs persistent node next) (all (edge refs persistent node) ns) e in
      let go = visit-IsRestored call node front ns s ih p w agrees edges in
      if_cases (IsRestored s) (mem next persistent) (λ cut. go)
        (λ value.
          let v : is_value refs persistent next ≡ true = rw value in
          if_cases (IsRestored s) (mem next s.on_path)
            (λ on.
              let back : mem next (front ++ (node ∷ [])) ≡ true = rw (sym p, agrees next, on) in
              rw (sym p) at (cycle_at-IsDisallowedCycle front node next (rw p at w) edge1 v back))
            (λ off.
              if_cases (IsRestored s) (contains_key next refs && not (mem next s.visited))
                (λ new.
                  then-IsRestored s (call next s) (visit refs persistent call ns)
                    (ih next s (walk_on front s.path node next p w edge1 v, off, agrees))
                    (λ t same_path same_set.
                      visit-IsRestored call node front ns t ih (same_path ∙ p)
                        (rw (sym same_path) at w)
                        (λ k. ap (mem k) same_path ∙ (agrees k ∙ sym (same_set k))) edges))
                (λ old. go)))

  walk-IsRestored :
      (fuel : ℕ) (node : Text) (s : Search)
      → MayCall node s
      → IsRestored s (walk refs persistent fuel node s)
  unfolding walk
  walk-IsRestored zero node s h = tt
  walk-IsRestored (suc fuel) node s (w, off, agrees) =
      leave-IsRestored node s off
        (visit refs persistent (walk refs persistent fuel)
          (sort_by (λ k. k) (references refs persistent node)) (enter refs persistent node s))
        (visit-IsRestored (walk refs persistent fuel) node s.path
          (sort_by (λ k. k) (references refs persistent node)) (enter refs persistent node s)
          (walk-IsRestored fuel) refl w
          (λ k. mem-append_one k node s.path ∙ ground (arith, agrees k, mem-add k node s.on_path))
          (all-sort_by (λ k. k) (edge refs persistent node) (references refs persistent node)
            ∙ all_of (edge refs persistent node) (references refs persistent node) (λ k h. h)))

  value_names-IsValue :
      (ks : List Text) → all (is_value refs persistent) (value_names refs persistent ks) ≡ true
  unfolding value_names
  value_names-IsValue [] = refl
  value_names-IsValue (k ∷ ks) = ground (arith, value_names-IsValue ks)

  -- What the loop over the starts may answer.
  abbrev pub IsAnswer : Result Text (Option (List Text)) → Type 0
  IsAnswer (ok (some c)) = IsDisallowedCycle refs persistent c
  IsAnswer _ = Unit

  or_next-IsAnswer :
      (o : Outcome) (rest : Result Text (Option (List Text)))
      → IsRestored (empty_search refs persistent) o
      → IsAnswer rest
      → IsAnswer (or_next refs persistent o rest)
  or_next-IsAnswer (Outcome.found c) rest h k = h
  or_next-IsAnswer (Outcome.finished s) rest h k = k
  or_next-IsAnswer Outcome.no_fuel rest h k = tt

  search_from-IsAnswer :
      (fuel : ℕ) (starts : List Text)
      → all (is_value refs persistent) starts ≡ true
      → IsAnswer (search_from refs persistent fuel starts)
  unfolding search_from mem is_value_walk
  search_from-IsAnswer fuel [] h = tt
  search_from-IsAnswer fuel (start ∷ starts) h =
      let (value, values) =
        and-eq_true (is_value refs persistent start) (all (is_value refs persistent) starts) h in
      or_next-IsAnswer (walk refs persistent fuel start (empty_search refs persistent))
        (search_from refs persistent fuel starts)
        (walk-IsRestored fuel start (empty_search refs persistent) (value, refl, (λ k. refl)))
        (search_from-IsAnswer fuel starts values)

  -- A cycle that the search reports is a walk along references, over value schemas only, that ends
  -- where it began.
  pub find_disallowed_cycle_sound :
      (c : List Text)
      → find_disallowed_cycle refs persistent ≡ ok (some c)
      → IsDisallowedCycle refs persistent c
  unfolding find_disallowed_cycle
  find_disallowed_cycle_sound c h = rw h at (
      search_from-IsAnswer (suc (length (keys refs)))
        (sort_by (λ k. k) (value_names refs persistent (keys refs)))
        (all-sort_by (λ k. k) (is_value refs persistent) (value_names refs persistent (keys refs))
          ∙ value_names-IsValue (keys refs)))
