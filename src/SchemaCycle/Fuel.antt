-- ===== src/SchemaCycle/Fuel.antt =====
-- src/schema_cycle.rs: the fuel that the search is given is enough.
use marreta_lang.Base.{
  ℕ, zero, suc, ◌≤◌, ◌<◌, ◌≡◌, refl, sym, ap, ◌∙◌, Bool, true, false, not, ◌&&◌, List, [], ◌∷◌,
  arith, Option, none, some, all, count, if_cases, and-eq_true, or_intro, length,
}
use marreta_lang.Base.Results.{Result, ok}
use marreta_lang.Text.{Text, text_eq_iff, text_eq_refl}
use marreta_lang.Text.Order.{sort_by, all-sort_by}
use marreta_lang.Text.Dict.{Dict, contains_key}
use marreta_lang.SchemaCycle.{
  mem, Search, Outcome, then_search, keys, references, enter, leave, visit, walk, empty_search,
  or_next, value_names, search_from, find_disallowed_cycle,
}
use marreta_lang.SchemaCycle.Graph.{mem-add, mem-remove, all_of, mem-keys}

module _ (refs : Dict (List Text)) (persistent : List Text) where
  -- The keys that are not on the path.
  abbrev pub off_path : Search → Text → Bool
  off_path s k = not (mem k s.on_path)

  abbrev pub free_keys : Search → ℕ
  free_keys s = count (off_path s) (keys refs)

  -- The search came to an end, and if it goes on the set is as it was.
  abbrev pub Ends : Search → Outcome → Type 0
  Ends s (Outcome.found c) = Unit
  Ends s (Outcome.finished t) = (k : Text) → mem k t.on_path ≡ mem k s.on_path
  Ends s Outcome.no_fuel = ⊥

  count-eq :
      (p q : Text → Bool) (ks : List Text) → ((k : Text) → p k ≡ q k) → count p ks ≡ count q ks
  count-eq p q [] h = refl
  count-eq p q (k ∷ ks) h = rw (h k, count-eq p q ks h)

  count_le :
      (p q : Text → Bool) (ks : List Text)
      → ((k : Text) → p k ≡ true → q k ≡ true)
      → count p ks ≤ count q ks
  count_le p q [] h = omega arith
  count_le p q (k ∷ ks) h = ground (arith, h k, count_le p q ks h)

  count_lt :
      (p q : Text → Bool) (a : Text) (ks : List Text)
      → ((k : Text) → p k ≡ true → q k ≡ true)
      → mem a ks ≡ true
      → p a ≡ false
      → q a ≡ true
      → count p ks < count q ks
  unfolding mem
  count_lt p q a [] h m e f = cc
  count_lt p q a (k ∷ ks) h m e f =
      ground (arith, h k, count_le p q ks h, count_lt p q a ks h, text_eq_iff k a)

  then-Ends :
      (s : Search) (o : Outcome) (f : Search → Outcome)
      → Ends s o
      → ((t : Search) → ((k : Text) → mem k t.on_path ≡ mem k s.on_path) → Ends s (f t))
      → Ends s (then_search o f)
  then-Ends s (Outcome.found c) f h k = tt
  then-Ends s (Outcome.finished t) f h k = k t h
  then-Ends s Outcome.no_fuel f h k = h

  Ends-trans :
      (s t : Search) (o : Outcome)
      → ((k : Text) → mem k t.on_path ≡ mem k s.on_path)
      → Ends t o
      → Ends s o
  Ends-trans s t (Outcome.found c) e h = tt
  Ends-trans s t (Outcome.finished u) e h = λ k. h k ∙ e k
  Ends-trans s t Outcome.no_fuel e h = h

  visit-Ends :
      (call : Text → Search → Outcome) (fuel : ℕ) (ns : List Text) (s : Search)
      → ((n : Text) (t : Search)
          → contains_key n refs ≡ true
          → mem n t.on_path ≡ false
          → free_keys t ≤ fuel
          → Ends t (call n t))
      → free_keys s ≤ fuel
      → Ends s (visit refs persistent call ns s)
  unfolding visit
  visit-Ends call fuel [] s ih h = λ k. refl
  visit-Ends call fuel (next ∷ ns) s ih h =
      let go = visit-Ends call fuel ns s ih h in
      if_cases (Ends s) (mem next persistent) (λ cut. go)
        (λ value.
          if_cases (Ends s) (mem next s.on_path) (λ on. tt)
            (λ off.
              if_cases (Ends s) (contains_key next refs && not (mem next s.visited))
                (λ new.
                  then-Ends s (call next s) (visit refs persistent call ns)
                    (ih next s (ground arith) off h)
                    (λ t same. Ends-trans s t (visit refs persistent call ns t) same (
                      visit-Ends call fuel ns t ih (
                        rw
                          (sym
                            (count-eq (off_path t) (off_path s) (keys refs) (λ k. ap not (same k))))
                          at h))))
                (λ old. go)))

  free_keys-enter :
      (node : Text) (s : Search)
      → contains_key node refs ≡ true
      → mem node s.on_path ≡ false
      → free_keys (enter refs persistent node s) < free_keys s
  free_keys-enter node s key off =
      count_lt (off_path (enter refs persistent node s)) (off_path s) node (keys refs)
        (λ k e. ground (arith, mem-add k node s.on_path)) (mem-keys node refs ∙ key)
        (ap not (mem-add node node s.on_path ∙ or_intro (mem node s.on_path) (text_eq_refl node)))
        (ap not off)

  leave-Ends :
      (node : Text) (s : Search) (o : Outcome)
      → mem node s.on_path ≡ false
      → Ends (enter refs persistent node s) o
      → Ends s (then_search o (λ t. Outcome.finished (leave refs persistent node t)))
  leave-Ends node s (Outcome.found c) off h = tt
  leave-Ends node s (Outcome.finished t) off h = λ k.
      mem-remove k node t.on_path
      ∙ ground (arith, h k, mem-add k node s.on_path, text_eq_iff node k)
  leave-Ends node s Outcome.no_fuel off h = h

  walk-Ends :
      (fuel : ℕ) (node : Text) (s : Search)
      → contains_key node refs ≡ true
      → mem node s.on_path ≡ false
      → free_keys s ≤ fuel
      → Ends s (walk refs persistent fuel node s)
  unfolding walk
  walk-Ends zero node s key off h =
      let fewer = free_keys-enter node s key off in omega (arith, fewer, h)
  walk-Ends (suc fuel) node s key off h =
      let neighbors = sort_by (λ k. k) (references refs persistent node) in
      let fewer = free_keys-enter node s key off in
      leave-Ends node s
        (visit refs persistent (walk refs persistent fuel) neighbors (enter refs persistent node s))
        off
        (visit-Ends (walk refs persistent fuel) fuel neighbors (enter refs persistent node s)
          (walk-Ends fuel) (omega (arith, fewer, h)))

  or_next-Ends :
      (o : Outcome) (rest : Result Text (Option (List Text)))
      → Ends (empty_search refs persistent) o
      → (a : Option (List Text)) × (rest ≡ ok a)
      → (a : Option (List Text)) × (or_next refs persistent o rest ≡ ok a)
  or_next-Ends (Outcome.found c) rest h r = (some c, refl)
  or_next-Ends (Outcome.finished t) rest h r = r
  or_next-Ends Outcome.no_fuel rest h r = absurd h

  count_length : (p : Text → Bool) (ks : List Text) → count p ks ≤ length ks
  count_length p [] = omega arith
  count_length p (k ∷ ks) = ground (arith, count_length p ks)

  value_names-keys :
      (ks : List Text)
      → all (λ k. contains_key k refs) ks ≡ true
      → all (λ k. contains_key k refs) (value_names refs persistent ks) ≡ true
  unfolding value_names
  value_names-keys [] h = refl
  value_names-keys (k ∷ ks) h = ground (arith, value_names-keys ks)

  search_from-Ends :
      (fuel : ℕ) (starts : List Text)
      → all (λ k. contains_key k refs) starts ≡ true
      → length (keys refs) ≤ fuel
      → (o : Option (List Text)) × (search_from refs persistent fuel starts ≡ ok o)
  unfolding search_from mem
  search_from-Ends fuel [] h e = (none, refl)
  search_from-Ends fuel (start ∷ starts) h e =
      let (key, later) =
        and-eq_true (contains_key start refs) (all (λ k. contains_key k refs) starts) h in
      or_next-Ends (walk refs persistent fuel start (empty_search refs persistent))
        (search_from refs persistent fuel starts)
        (walk-Ends fuel start (empty_search refs persistent) key refl
          (omega (arith, e, count_length (off_path (empty_search refs persistent)) (keys refs))))
        (search_from-Ends fuel starts later e)

  -- The search for a cycle always answers: the fuel that it is given is enough for every graph.
  pub find_disallowed_cycle_total :
      (o : Option (List Text)) × (find_disallowed_cycle refs persistent ≡ ok o)
  unfolding find_disallowed_cycle
  find_disallowed_cycle_total =
      search_from-Ends (suc (length (keys refs)))
        (sort_by (λ k. k) (value_names refs persistent (keys refs)))
        (all-sort_by (λ k. k) (λ k. contains_key k refs) (value_names refs persistent (keys refs))
          ∙ value_names-keys (keys refs)
              (all_of (λ k. contains_key k refs) (keys refs) (λ k e. sym (mem-keys k refs) ∙ e)))
        (omega arith)
