-- ===== src/SchemaCycle/Left.antt =====
-- src/schema_cycle.rs: what a search leaves behind. The nodes that a search leaves are
-- kept in the order in which it left them, and each refers only to nodes that were left before it.
use marreta_lang.Base.{
  ℕ, zero, suc, ◌≡◌, refl, sym, ◌∙◌, Bool, true, not, ◌&&◌, ◌||◌, List, [], ◌∷◌, arith, all,
  if_cases, and_true, or_true, or_intro,
}
use marreta_lang.Text.{Text, text_eq, text_eq_refl}
use marreta_lang.Text.Order.{sort_by, all-sort_by}
use marreta_lang.Text.Dict.{Dict, contains_key}
use marreta_lang.SchemaCycle.{
  mem, Search, Outcome, then_search, references, enter, leave, visit, walk,
}
use marreta_lang.SchemaCycle.Graph.{mem-add}

abbrev pub Finishes : (Search → Type 0) → Outcome → Type 0
Finishes P (Outcome.found c) = Unit
Finishes P (Outcome.finished s) = P s
Finishes P Outcome.no_fuel = Unit

then-Finishes :
    (P Q : Search → Type 0) (o : Outcome) (f : Search → Outcome)
    → Finishes P o
    → ((t : Search) → P t → Finishes Q (f t))
    → Finishes Q (then_search o f)
then-Finishes P Q (Outcome.found c) f h k = tt
then-Finishes P Q (Outcome.finished t) f h k = k t h
then-Finishes P Q Outcome.no_fuel f h k = tt

Finishes-map :
    (P Q : Search → Type 0) (o : Outcome) → ((t : Search) → P t → Q t) → Finishes P o → Finishes Q o
Finishes-map P Q (Outcome.found c) k h = tt
Finishes-map P Q (Outcome.finished t) k h = k t h
Finishes-map P Q Outcome.no_fuel k h = tt

module _ (refs : Dict (List Text)) (persistent : List Text) where
  -- The search need not follow a reference to `n`, or has followed it.
  abbrev pub settled : List Text → Text → Bool
  settled left n = mem n persistent || (not (contains_key n refs) || mem n left)

  -- Every node refers to nodes behind it in the list, as far as references are followed.
  unfoldable pub is_ordered : List Text → Bool
  is_ordered [] = true
  is_ordered (v ∷ left) = all (settled left) (references refs persistent v) && is_ordered left

  abbrev pub IsGrown : Search → Search → Type 0
  IsGrown s t =
      (is_ordered t.visited ≡ true) × ((k : Text) → mem k s.visited ≡ true → mem k t.visited ≡ true)

  abbrev pub HasLeft : Text → Search → Search → Type 0
  HasLeft node s t = IsGrown s t × (mem node t.visited ≡ true)

  abbrev pub HasSettled : List Text → Search → Search → Type 0
  HasSettled ns s t = IsGrown s t × (all (settled t.visited) ns ≡ true)

  settled_visited : (t : Search) (n : Text) → mem n t.visited ≡ true → settled t.visited n ≡ true
  settled_visited t n h = ground arith

  visit-HasSettled :
      (call : Text → Search → Outcome) (ns : List Text) (s : Search)
      → ((n : Text) (t : Search) → is_ordered t.visited ≡ true → Finishes (HasLeft n t) (call n t))
      → is_ordered s.visited ≡ true
      → Finishes (HasSettled ns s) (visit refs persistent call ns s)
  unfolding visit
  visit-HasSettled call [] s ih h = ((h, (λ k e. e)), refl)
  visit-HasSettled call (next ∷ ns) s ih h =
      let Goal = Finishes (HasSettled (next ∷ ns) s) in
      let go = visit-HasSettled call ns s ih h in
      if_cases Goal (mem next persistent)
        (λ cut.
          Finishes-map (HasSettled ns s) (HasSettled (next ∷ ns) s)
            (visit refs persistent call ns s) (λ t p. (p.0, ground arith)) go)
        (λ value.
          if_cases Goal (mem next s.on_path) (λ on. tt)
            (λ off.
              if_cases Goal (contains_key next refs && not (mem next s.visited))
                (λ new.
                  then-Finishes (HasLeft next s) (HasSettled (next ∷ ns) s) (call next s)
                    (visit refs persistent call ns) (ih next s h)
                    (λ t left.
                      Finishes-map (HasSettled ns t) (HasSettled (next ∷ ns) s)
                        (visit refs persistent call ns t)
                        (λ u p. (
                          (p.0.0, (λ k e. p.0.1 k (left.0.1 k e))),
                          and_true (settled_visited u next (p.0.1 next left.1)) p.1,
                        ))
                        (visit-HasSettled call ns t ih left.0.0)))
                (λ old.
                  Finishes-map (HasSettled ns s) (HasSettled (next ∷ ns) s)
                    (visit refs persistent call ns s) (λ t p. (p.0, ground (arith, p.0.1 next)))
                    go)))

  leave-HasLeft :
      (node : Text) (s t : Search)
      → HasSettled (references refs persistent node) s t
      → HasLeft node s (leave refs persistent node t)
  unfolding is_ordered
  leave-HasLeft node s t ((ordered, grown), all_settled) = (
    (ground arith, (λ k e. mem-add k node t.visited ∙ or_true (text_eq node k) (grown k e))),
    mem-add node node t.visited ∙ or_intro (mem node t.visited) (text_eq_refl node),
  )

  pub walk-HasLeft :
      (fuel : ℕ) (node : Text) (s : Search)
      → is_ordered s.visited ≡ true
      → Finishes (HasLeft node s) (walk refs persistent fuel node s)
  unfolding walk
  walk-HasLeft zero node s h = tt
  walk-HasLeft (suc fuel) node s h =
      let neighbors = sort_by (λ k. k) (references refs persistent node) in
      then-Finishes (HasSettled neighbors (enter refs persistent node s)) (HasLeft node s)
        (visit refs persistent (walk refs persistent fuel) neighbors (enter refs persistent node s))
        (λ t. Outcome.finished (leave refs persistent node t))
        (visit-HasSettled (walk refs persistent fuel) neighbors (enter refs persistent node s)
          (walk-HasLeft fuel) h)
        (λ t p. leave-HasLeft node s t (
          p.0,
          sym (all-sort_by (λ k. k) (settled t.visited) (references refs persistent node)) ∙ p.1,
        ))
