-- ===== src/Db/Query/Update.antt =====
-- src/db/query_builder.rs: the placeholders of UPDATE and DELETE statements.
use marreta_lang.Base.{ℕ, suc, ◌+◌, ◌≡◌, sym, ap, ◌∙◌, List, [], ◌∷◌, ◌++◌, length}
use marreta_lang.Base.Results.{ok, ◌>>=◌, >>=-ok, ok-injective}
use marreta_lang.Text.{Text, codes, join}
use marreta_lang.Text.Trim.{trim}
use marreta_lang.Db.Identifier.{Columns, validate_column}
use marreta_lang.Db.Identifier.Safety.{Quoted}
use marreta_lang.Db.Order.Safety.{validate_column-ok}
use marreta_lang.Db.Query.{
  FilterOp, FilterClause, comparison, numbered_clauses, set_clauses, build_update, where_sql,
}
use marreta_lang.Db.Query.Params.{compared, comparison-compared}
use marreta_lang.Db.Query.{build_delete}

-- `col op $n`, numbered from `n`: one clause and one placeholder for each filter.
abbrev pub AreNumbered : {V : Type 0} → ℕ → List (FilterClause V) → List Text → Type 0
AreNumbered n [] texts = texts ≡ []
AreNumbered n (f ∷ fs) texts =
    (col : Text) × (rest : List Text) × Quoted (trim f.column) col
    × (texts ≡ compared col f.op n ∷ rest)
    × AreNumbered (suc n) fs rest

numbered_clauses-ok :
    {V : Type 0} (known : Columns) (n : ℕ) (fs : List (FilterClause V)) {texts : List Text}
    → numbered_clauses known n fs ≡ ok texts
    → AreNumbered n fs texts
unfolding numbered_clauses
numbered_clauses-ok known n [] {texts} h = sym (ok-injective _ _ h)
numbered_clauses-ok known n (f ∷ fs) {texts} h =
    let (col, first, rest) =
      >>=-ok (validate_column f.column known)
        (λ col. numbered_clauses known (suc n) fs >>= λ cs. ok (comparison col f.op n ∷ cs)) h in
    let (cs, second, last) =
      >>=-ok (numbered_clauses known (suc n) fs) (λ cs. ok (comparison col f.op n ∷ cs)) rest in
    (
      col,
      cs,
      (validate_column-ok f.column known first).0,
      sym (ok-injective _ _ last) ∙ ap (λ t. t ∷ cs) (comparison-compared col f.op n),
      numbered_clauses-ok known (suc n) fs second,
    )

AreNumbered-from :
    {V : Type 0} (fs : List (FilterClause V)) (texts : List Text) {n m : ℕ}
    → n ≡ m
    → AreNumbered n fs texts
    → AreNumbered m fs texts
AreNumbered-from fs texts e h = rw e at h

-- `col = $n`, numbered from `n`, for each key.
abbrev pub AreSets : List Text → ℕ → List Text → Type 0
AreSets [] n texts = texts ≡ []
AreSets (k ∷ ks) n texts =
    (col : Text) × (rest : List Text) × Quoted (trim k) col
    × (texts ≡ compared col FilterOp.eq n ∷ rest)
    × AreSets ks (suc n) rest

set_clauses-ok :
    (known : Columns) (n : ℕ) (ks : List Text) {texts : List Text}
    → set_clauses known n ks ≡ ok texts
    → AreSets ks n texts
unfolding set_clauses
set_clauses-ok known n [] {texts} h = sym (ok-injective _ _ h)
set_clauses-ok known n (k ∷ ks) {texts} h =
    let (col, first, rest) =
      >>=-ok (validate_column k known)
        (λ col. set_clauses known (suc n) ks >>= λ cs. ok (comparison col FilterOp.eq n ∷ cs)) h in
    let (cs, second, last) =
      >>=-ok (set_clauses known (suc n) ks) (λ cs. ok (comparison col FilterOp.eq n ∷ cs)) rest in
    (
      col,
      cs,
      (validate_column-ok k known first).0,
      sym (ok-injective _ _ last) ∙ ap (λ t. t ∷ cs) (comparison-compared col FilterOp.eq n),
      set_clauses-ok known (suc n) ks second,
    )

abbrev update_sql : Text → List Text → List Text → Text
update_sql t sets wheres =
    codes "UPDATE " ++ (t ++ (codes " SET " ++ (join (codes ", ") sets ++ where_sql wheres)))

-- An UPDATE that is built sets each key, quoted, to a placeholder of its own, 1, 2, …, in their
-- order; the number that is returned is the next one, and from it on each filter has one clause, in
-- their order, of its quoted column, its operator and one placeholder without parentheses, behind
-- IN too.
pub build_update-slots :
    {V : Type 0} (t : Text) (data_keys : List Text) (fs : List (FilterClause V)) (known : Columns)
    {sql : Text} {first_slot : ℕ}
    → build_update t data_keys fs known ≡ ok (sql, first_slot)
    → (first_slot ≡ length data_keys + 1)
      × (sets wheres : List Text) × AreSets data_keys 1 sets
      × AreNumbered first_slot fs wheres
      × (sql
          ≡ codes "UPDATE "
            ++ (t ++ (codes " SET " ++ (join (codes ", ") sets ++ where_sql wheres))))
unfolding build_update
build_update-slots t data_keys fs known {sql} {first_slot} h =
    let (sets, h1, rest) =
      >>=-ok (set_clauses known 1 data_keys)
        (λ sets. numbered_clauses known (length data_keys + 1) fs >>= λ wheres.
          ok (update_sql t sets wheres, length data_keys + 1))
        h in
    let (wheres, h2, last) =
      >>=-ok (numbered_clauses known (length data_keys + 1) fs)
        (λ wheres. ok (update_sql t sets wheres, length data_keys + 1)) rest in
    let same =
      ok-injective (update_sql t sets wheres, length data_keys + 1) (sql, first_slot) last in
    let numbered = numbered_clauses-ok known (length data_keys + 1) fs h2 in
    (
      sym (ap (λ p. p.1) same),
      sets,
      wheres,
      set_clauses-ok known 1 data_keys h1,
      AreNumbered-from fs wheres (ap (λ p. p.1) same) numbered,
      sym (ap (λ p. p.0) same),
    )

-- A DELETE that is built has one clause for each filter, in their order, of its quoted column, its
-- operator and one placeholder without parentheses, behind IN too; they are numbered from the
-- number that is returned, 1.
pub build_delete-slots :
    {V : Type 0} (t : Text) (fs : List (FilterClause V)) (known : Columns) {sql : Text}
    {first_slot : ℕ}
    → build_delete t fs known ≡ ok (sql, first_slot)
    → (first_slot ≡ 1)
      × (wheres : List Text) × AreNumbered first_slot fs wheres
      × (sql ≡ codes "DELETE FROM " ++ (t ++ where_sql wheres))
unfolding build_delete
build_delete-slots t fs known {sql} {first_slot} h =
    let (wheres, h1, last) =
      >>=-ok (numbered_clauses known 1 fs)
        (λ wheres. ok (codes "DELETE FROM " ++ (t ++ where_sql wheres), 1)) h in
    let same =
      ok-injective (codes "DELETE FROM " ++ (t ++ where_sql wheres), 1) (sql, first_slot) last in
    (
      sym (ap (λ p. p.1) same),
      wheres,
      AreNumbered-from fs wheres (ap (λ p. p.1) same) (numbered_clauses-ok known 1 fs h1),
      sym (ap (λ p. p.0) same),
    )
