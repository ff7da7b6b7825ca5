-- ===== src/SchemaCycle/Complete.antt =====
-- src/schema_cycle.rs: when no cycle is reported there is none.
use marreta_lang.Base.{
  ℕ, suc, ◌≡◌, refl, sym, ap, ◌∙◌, true, false, not, List, [], ◌∷◌, ◌++◌, arith, Option, none, all,
  Bool-cases, and-eq_true, inl, inr, length,
}
use marreta_lang.Base.Results.{Result, ok}
use marreta_lang.Text.{Text, text_eq, text_eq_iff}
use marreta_lang.Text.Order.{sort_by, all-sort_by}
use marreta_lang.Text.Dict.{Dict, contains_key, get-contains_key}
use marreta_lang.SchemaCycle.{
  mem, Outcome, keys, references, walk, empty_search, or_next, value_names, search_from,
  find_disallowed_cycle,
}
use marreta_lang.SchemaCycle.Graph.{all-mem, edge, is_value_walk, IsDisallowedCycle, mem-keys}
use marreta_lang.SchemaCycle.Left.{settled, is_ordered, Finishes, HasLeft, walk-HasLeft}

module _ (refs : Dict (List Text)) (persistent : List Text) where
  settled_later :
      (v : Text) (left ns : List Text)
      → all (settled refs persistent left) ns ≡ true
      → all (settled refs persistent (v ∷ left)) ns ≡ true
  unfolding mem
  settled_later v left [] h = refl
  settled_later v left (n ∷ ns) h = ground (arith, settled_later v left ns)

  -- What a left node refers to is settled.
  left-settled :
      (left : List Text) (a : Text)
      → is_ordered refs persistent left ≡ true
      → mem a left ≡ true
      → all (settled refs persistent left) (references refs persistent a) ≡ true
  unfolding is_ordered mem
  left-settled [] a h m = cc
  left-settled (v ∷ left) a h m =
      let (now, later) =
        and-eq_true (all (settled refs persistent left) (references refs persistent v))
          (is_ordered refs persistent left) h in
      settled_later v left (references refs persistent a) (elim (Bool-cases (text_eq v a)) [
        | inl e ↦ rw ((text_eq_iff v a).0 e) at now
        | inr e ↦ left-settled left a later (rw e at m)
      ])

  edge-contains_key : (a b : Text) → edge refs persistent a b ≡ true → contains_key a refs ≡ true
  unfolding mem
  edge-contains_key a b h = elim (Bool-cases (contains_key a refs)) [
    | inl e ↦ e
    | inr e ↦ cc (rw (get-contains_key a refs e) at h)
  ]

  -- A node with a walk before it is a value schema with references.
  first-contains_key :
      (a : Text) (front : List Text) (b : Text)
      → is_value_walk refs persistent ((a ∷ front) ++ (b ∷ [])) ≡ true
      → contains_key a refs ≡ true
  unfolding is_value_walk
  first-contains_key a [] b w = edge-contains_key a b (ground arith)
  first-contains_key a (c ∷ front) b w = edge-contains_key a c (ground arith)

  first-value :
      (a : Text) (front : List Text) (b : Text)
      → is_value_walk refs persistent ((a ∷ front) ++ (b ∷ [])) ≡ true
      → mem a persistent ≡ false
  unfolding is_value_walk
  first-value a [] b w = ground arith
  first-value a (c ∷ front) b w = ground arith

  settled-mem :
      (left ns : List Text) (c : Text)
      → all (settled refs persistent left) ns ≡ true
      → mem c ns ≡ true
      → mem c persistent ≡ false
      → contains_key c refs ≡ true
      → mem c left ≡ true
  settled-mem left ns c h m value key =
      ground (arith, all-mem (settled refs persistent left) ns c h m)

  -- A walk from a node whose references are settled ends at a left node.
  walk-stays :
      (left : List Text) (b : Text) (front : List Text) (a : Text)
      → is_ordered refs persistent left ≡ true
      → contains_key a refs ≡ true
      → is_value_walk refs persistent ((b ∷ front) ++ (a ∷ [])) ≡ true
      → all (settled refs persistent left) (references refs persistent b) ≡ true
      → mem a left ≡ true
  unfolding is_value_walk
  walk-stays left b [] a h key w m =
      settled-mem left (references refs persistent b) a m (ground arith) (ground arith) key
  walk-stays left b (c ∷ front) a h key w m =
      let rest : is_value_walk refs persistent ((c ∷ front) ++ (a ∷ [])) ≡ true = ground arith in
      walk-stays left c front a h key rest (
        left-settled left c h (
          settled-mem left (references refs persistent b) c m (ground arith)
            (first-value c front a rest) (first-contains_key c front a rest)))

  -- No left node is on a cycle.
  left-acyclic :
      (left : List Text) (a : Text) (between : List Text)
      → is_ordered refs persistent left ≡ true
      → is_value_walk refs persistent ((a ∷ between) ++ (a ∷ [])) ≡ true
      → mem a left ≡ false
  unfolding is_ordered mem
  left-acyclic [] a between h w = refl
  left-acyclic (v ∷ left) a between h w =
      let (now, later) =
        and-eq_true (all (settled refs persistent left) (references refs persistent v))
          (is_ordered refs persistent left) h in
      let outside = left-acyclic left a between later w in
      elim (Bool-cases (text_eq v a)) [
        | inl e ↦ cc (
            rw
              (walk-stays left a between a later (first-contains_key a between a w) w
                (rw ((text_eq_iff v a).0 e) at now))
              at outside)
        | inr e ↦ rw (e, outside)
      ]

  mem-value_names :
      (a : Text) (ks : List Text)
      → mem a persistent ≡ false
      → mem a (value_names refs persistent ks) ≡ mem a ks
  unfolding mem value_names
  mem-value_names a [] h = refl
  mem-value_names a (k ∷ ks) h = ground (arith, mem-value_names a ks h, text_eq_iff k a)

  mem-all : (a : Text) (bs : List Text) → mem a bs ≡ not (all (λ b. not (text_eq b a)) bs)
  unfolding mem
  mem-all a [] = refl
  mem-all a (b ∷ bs) = ground (arith, mem-all a bs)

  mem-sort_by : (a : Text) (bs : List Text) → mem a (sort_by (λ k. k) bs) ≡ mem a bs
  mem-sort_by a bs =
      mem-all a (sort_by (λ k. k) bs)
      ∙ (ap not (all-sort_by (λ k. k) (λ b. not (text_eq b a)) bs) ∙ sym (mem-all a bs))

  -- A start that was searched to the end was left, and is not on a cycle.
  or_next-acyclic :
      (start a : Text) (between : List Text) (o : Outcome) (rest : Result Text (Option (List Text)))
      → Finishes (HasLeft refs persistent start (empty_search refs persistent)) o
      → or_next refs persistent o rest ≡ ok none
      → is_value_walk refs persistent ((a ∷ between) ++ (a ∷ [])) ≡ true
      → (text_eq start a ≡ false) × (rest ≡ ok none)
  or_next-acyclic start a between (Outcome.found c) rest h e w = cc
  or_next-acyclic start a between (Outcome.finished t) rest h e w = (
    elim (Bool-cases (text_eq start a)) [
      | inl same ↦ cc (
          rw (left-acyclic t.visited a between h.0.0 w) at
            (rw ((text_eq_iff start a).0 same) at h.1))
      | inr other ↦ other
    ],
    e,
  )
  or_next-acyclic start a between Outcome.no_fuel rest h e w = cc

  search_from-acyclic :
      (fuel : ℕ) (starts : List Text) (a : Text) (between : List Text)
      → search_from refs persistent fuel starts ≡ ok none
      → is_value_walk refs persistent ((a ∷ between) ++ (a ∷ [])) ≡ true
      → mem a starts ≡ false
  unfolding search_from mem is_ordered
  search_from-acyclic fuel [] a between h w = refl
  search_from-acyclic fuel (start ∷ starts) a between h w =
      let (other, rest) =
        or_next-acyclic start a between
          (walk refs persistent fuel start (empty_search refs persistent))
          (search_from refs persistent fuel starts)
          (walk-HasLeft refs persistent fuel start (empty_search refs persistent) refl) h w in
      rw (other, search_from-acyclic fuel starts a between rest w)

  -- When the search reports that there is no cycle, no walk along references over value schemas
  -- ends where it began.
  pub find_disallowed_cycle_complete :
      (c : List Text)
      → find_disallowed_cycle refs persistent ≡ ok none
      → ¬ (IsDisallowedCycle refs persistent c)
  unfolding find_disallowed_cycle
  find_disallowed_cycle_complete c h (w, a, between, e) =
      let walks = rw e at w in
      let outside =
        search_from-acyclic (suc (length (keys refs)))
          (sort_by (λ k. k) (value_names refs persistent (keys refs))) a between h walks in
      let inside : mem a (sort_by (λ k. k) (value_names refs persistent (keys refs))) ≡ true =
        mem-sort_by a (value_names refs persistent (keys refs))
        ∙ (mem-value_names a (keys refs) (first-value a between a walks)
            ∙ (mem-keys a refs ∙ first-contains_key a between a walks)) in
      cc (rw inside at outside)
