-- ===== src/SchemaCycle/Graph.antt =====
-- The graph of schemas that src/schema_cycle.rs searches: its edges, its walks and its cycles, and
-- lemmas on the lists that stand for sets.
use marreta_lang.Base.{
  ◌≡◌, refl, ap, Bool, true, not, ◌&&◌, ◌||◌, List, [], ◌∷◌, ◌++◌, arith, all, and_true, or_true,
  or_intro, Bool-cases, inl, inr,
}
use marreta_lang.Text.{Text, text_eq, text_eq_iff, text_eq_refl}
use marreta_lang.Text.Dict.{Dict, contains_key}
use marreta_lang.SchemaCycle.{keys, mem, add, remove, init, from_node, references}

pub mem-add : (k a : Text) (bs : List Text) → mem k (add a bs) ≡ (text_eq a k || mem k bs)
unfolding mem
mem-add k a bs = ground (arith, text_eq_iff a k)

pub mem-remove :
    (k a : Text) (bs : List Text) → mem k (remove a bs) ≡ (not (text_eq a k) && mem k bs)
unfolding mem remove
mem-remove k a [] = ground arith
mem-remove k a (b ∷ bs) =
    ground (arith, mem-remove k a bs, text_eq_iff b a, text_eq_iff b k, text_eq_iff a k)

pub mem-append_one :
    (k a : Text) (bs : List Text) → mem k (bs ++ (a ∷ [])) ≡ (mem k bs || text_eq a k)
unfolding mem
mem-append_one k a [] = ground arith
mem-append_one k a (b ∷ bs) = ground (arith, mem-append_one k a bs)

pub init-append_one : (bs : List Text) (a : Text) → init (bs ++ (a ∷ [])) ≡ bs
init-append_one [] a = refl
init-append_one (b ∷ []) a = refl
init-append_one (b ∷ c ∷ bs) a = ap (λ l. b ∷ l) (init-append_one (c ∷ bs) a)

-- Every member has what all have.
pub all-mem :
    (p : Text → Bool) (bs : List Text) (k : Text) → all p bs ≡ true → mem k bs ≡ true → p k ≡ true
unfolding mem
all-mem p [] k h e = cc
all-mem p (b ∷ bs) k h e = ground (arith, all-mem p bs k, text_eq_iff b k)

pub all_of :
    (p : Text → Bool) (bs : List Text)
    → ((k : Text) → mem k bs ≡ true → p k ≡ true)
    → all p bs ≡ true
unfolding mem
all_of p [] h = refl
all_of p (b ∷ bs) h =
    and_true (h b (or_intro (mem b bs) (text_eq_refl b)))
      (all_of p bs (λ k e. h k (or_true (text_eq b k) e)))

pub mem-keys : (a : Text) (m : Dict (List Text)) → mem a (keys m) ≡ contains_key a m
unfolding mem contains_key
mem-keys a [] = refl
mem-keys a ((k, v) ∷ m) = ap (λ b. text_eq k a || b) (mem-keys a m)

module _ (refs : Dict (List Text)) (persistent : List Text) where
  abbrev pub is_value : Text → Bool
  is_value a = not (mem a persistent)

  abbrev pub edge : Text → Text → Bool
  edge a b = mem b (references refs persistent a)

  -- Each schema but the last refers to the next, and none of them is persistent.
  unfoldable pub is_value_walk : List Text → Bool
  is_value_walk [] = true
  is_value_walk (a ∷ []) = is_value a
  is_value_walk (a ∷ b ∷ path) = is_value a && edge a b && is_value_walk (b ∷ path)

  -- A walk over value schemas that ends where it began.
  abbrev pub IsDisallowedCycle : List Text → Type 0
  IsDisallowedCycle c =
      (is_value_walk c ≡ true)
      × (start : Text) × (between : List Text) × (c ≡ (start ∷ between) ++ (start ∷ []))

  pub is_value_walk-append_one :
      (path : List Text) (a b : Text)
      → is_value_walk (path ++ (a ∷ [])) ≡ true
      → edge a b ≡ true
      → is_value b ≡ true
      → is_value_walk ((path ++ (a ∷ [])) ++ (b ∷ [])) ≡ true
  unfolding is_value_walk
  is_value_walk-append_one [] a b h e v = ground arith
  is_value_walk-append_one (c ∷ []) a b h e v = ground arith
  is_value_walk-append_one (c ∷ d ∷ path) a b h e v =
      ground (arith, is_value_walk-append_one (d ∷ path) a b)

  -- What a path has from one of its nodes on.
  pub from_node-walk :
      (n : Text) (path : List Text)
      → is_value_walk path ≡ true
      → is_value_walk (from_node n path) ≡ true
  unfolding is_value_walk from_node
  from_node-walk n [] h = refl
  from_node-walk n (a ∷ []) h = ground arith
  from_node-walk n (a ∷ b ∷ path) h = ground (arith, from_node-walk n (b ∷ path))

-- From a member on, a list begins with it and ends as it did.
pub from_node-shape :
    (n : Text) (front : List Text) (last : Text)
    → mem n (front ++ (last ∷ [])) ≡ true
    → (front2 rest : List Text) × (from_node n (front ++ (last ∷ [])) ≡ front2 ++ (last ∷ []))
      × (from_node n (front ++ (last ∷ [])) ≡ n ∷ rest)
unfolding mem from_node
from_node-shape n [] last h =
    let same : last ≡ n = ground (arith, text_eq_iff last n) in
    ([], [], rw ((text_eq_iff last n).1 same), rw ((text_eq_iff last n).1 same, same))
from_node-shape n (a ∷ front) last h = elim (Bool-cases (text_eq a n)) [
  | inl e ↦ (a ∷ front, front ++ (last ∷ []), rw e, rw (e, (text_eq_iff a n).0 e))
  | inr e ↦
      let (front2, rest, f, g) = from_node-shape n front last (rw e at h) in
      (front2, rest, rw (e, f), rw (e, g))
]
