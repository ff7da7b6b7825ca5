-- ===== src/Db/Query/Params.antt =====
-- src/db/query_builder.rs: which placeholder a filter gets, and which value is bound to it.
use marreta_lang.Base.{
  ℕ, suc, ◌+◌, ◌≡◌, ◌≢◌, refl, sym, ap, ◌∙◌, some, none, map, List, [], ◌∷◌, ◌++◌, Option, length,
  arith,
}
use mathlib.Core.Path.{subst}
use marreta_lang.Base.Results.{ok, ◌>>=◌, >>=-ok, ok-injective}
use marreta_lang.Text.{Text, codes, join}
use marreta_lang.Text.Decimal.{show}
use marreta_lang.Text.Trim.{trim}
use marreta_lang.Db.Identifier.{Columns, validate_column}
use marreta_lang.Db.Identifier.Safety.{Quoted}
use marreta_lang.Db.Order.Safety.{validate_column-ok}
use marreta_lang.Db.Query.{
  FilterOp, FilterClause, QueryState, dollar, comparison, membership, slots, filter_clauses,
  values_of, clause_text, in_values, where_sql, join_sql, number_sql,
}

-- `$n, $m, …`: a placeholder for each value, numbered from `n`.
abbrev pub placeholders : {V : Type 0} → ℕ → List V → List Text
placeholders n [] = []
placeholders n (v ∷ vs) = (b'$' ∷ show n) ∷ placeholders (suc n) vs

-- The operators of SQL.
abbrev pub operator_of : FilterOp → Text
operator_of FilterOp.eq = codes "="
operator_of FilterOp.ne = codes "!="
operator_of FilterOp.lt = codes "<"
operator_of FilterOp.lte = codes "<="
operator_of FilterOp.gt = codes ">"
operator_of FilterOp.gte = codes ">="
operator_of FilterOp.like = codes "LIKE"
operator_of FilterOp.in_list = codes "IN"

-- `col op $n`
abbrev pub compared : Text → FilterOp → ℕ → Text
compared col op n = col ++ (b' ' ∷ (operator_of op ++ (codes " $" ++ show n)))

pub comparison-compared :
    (col : Text) (op : FilterOp) (n : ℕ) → comparison col op n ≡ compared col op n
comparison-compared col FilterOp.eq n = refl
comparison-compared col _ n = refl

-- `col IN ($n, …)`
abbrev pub among : {V : Type 0} → Text → ℕ → List V → Text
among col n vs = col ++ (codes " IN (" ++ (join (codes ", ") (placeholders n vs) ++ codes ")"))

-- The clause that a filter asks for when its placeholders are numbered from `n`, and the values that
-- they stand for: one, but behind IN the elements of a list.
pub data IsClause {V : Type 0} (as_list : V → Option (List V)) (f : FilterClause V) (n : ℕ)
    : Text → List V → Type 0 where
  compares :
      (col : Text)
      → Quoted (trim f.column) col
      → f.op ≢ FilterOp.in_list
      → IsClause as_list f n (compared col f.op n) (f.value ∷ [])
  lists :
      (col : Text) (items : List V)
      → Quoted (trim f.column) col
      → f.op ≡ FilterOp.in_list
      → as_list f.value ≡ some items
      → IsClause as_list f n (among col n items) items
  contains :
      (col : Text)
      → Quoted (trim f.column) col
      → f.op ≡ FilterOp.in_list
      → as_list f.value ≡ none
      → IsClause as_list f n (among col n (f.value ∷ [])) (f.value ∷ [])

-- The clauses of all filters in their order, and the values of all placeholders in theirs: each
-- filter goes on with the number behind the last one of the filter before.
pub data AreClauses {V : Type 0} (as_list : V → Option (List V))
    : ℕ → List (FilterClause V) → List Text → List V → Type 0 where
  no_filter : {n : ℕ} → AreClauses as_list n [] [] []
  next_filter :
      {n : ℕ} {f : FilterClause V} {fs : List (FilterClause V)} {text : Text} {texts : List Text}
      {vs ws : List V}
      → IsClause as_list f n text vs
      → AreClauses as_list (n + length vs) fs texts ws
      → AreClauses as_list n (f ∷ fs) (text ∷ texts) (vs ++ ws)

dollar-slots : {V : Type 0} (n : ℕ) (vs : List V) → map dollar (slots n vs) ≡ placeholders n vs
dollar-slots n [] = refl
dollar-slots n (v ∷ vs) = ap (λ ts. dollar n ∷ ts) (dollar-slots (suc n) vs)

membership-among :
    {V : Type 0} (col : Text) (n : ℕ) (vs : List V) → membership col (slots n vs) ≡ among col n vs
membership-among col n vs =
    ap (λ ts. col ++ (codes " IN (" ++ (join (codes ", ") ts ++ codes ")"))) (dollar-slots n vs)

module _ {V : Type 0} (q : QueryState V) where
  abbrev before_where : Text → Text
  before_where select =
      codes "SELECT " ++ (select ++ (codes " FROM " ++ (q.table ++ join_sql q.table q.joins)))

  abbrev after_where : Text → Text
  after_where order =
      order ++ (number_sql (codes " LIMIT ") q.limit ++ number_sql (codes " OFFSET ") q.offset)

  -- The statement that `build_select` puts together.
  abbrev statement : Text → List Text → Text → Text
  statement select texts order =
      codes "SELECT "
      ++ (select
          ++ (codes " FROM "
              ++ (q.table ++ (join_sql q.table q.joins ++ (where_sql texts ++ after_where order)))))

module _ {V : Type 0} (as_list : V → Option (List V)) where
  in_values-IsClause :
      (f : FilterClause V) (col : Text) (n : ℕ) (o : Option (List V))
      → Quoted (trim f.column) col
      → f.op ≡ FilterOp.in_list
      → as_list f.value ≡ o
      → IsClause as_list f n
          (membership col (slots n (in_values as_list f.value o)))
          (in_values as_list f.value o)
  in_values-IsClause f col n none q behind e =
      rw (membership-among col n (f.value ∷ [])) (IsClause.contains col q behind e)
  in_values-IsClause f col n (some items) q behind e =
      rw (membership-among col n items) (IsClause.lists col items q behind e)

  comparison-IsClause :
      (f : FilterClause V) (op : FilterOp) (col : Text) (n : ℕ)
      → Quoted (trim f.column) col
      → f.op ≡ op
      → op ≢ FilterOp.in_list
      → IsClause as_list f n (comparison col op n) (f.value ∷ [])
  comparison-IsClause f op col n q e other =
      let plain : IsClause as_list f n (compared col f.op n) (f.value ∷ []) =
        IsClause.compares col q (λ h. other (sym e ∙ h)) in
      rw (comparison-compared col op n)
        (subst (λ o. IsClause as_list f n (compared col o n) (f.value ∷ [])) e plain)

  clause_text-IsClause :
      (f : FilterClause V) (op : FilterOp) (col : Text) (n : ℕ)
      → Quoted (trim f.column) col
      → f.op ≡ op
      → IsClause as_list f n (clause_text as_list op f.value col n) (values_of as_list op f.value)
  clause_text-IsClause f FilterOp.in_list col n q e =
      in_values-IsClause f col n (as_list f.value) q e refl
  clause_text-IsClause f op col n q e = comparison-IsClause f op col n q e (λ h. cc)

  -- Clauses and values for these filters, when `pushed` values are there before them.
  abbrev pub Matched : ℕ → List (FilterClause V) → List Text × List V → Type 0
  Matched pushed fs r = AreClauses as_list (suc pushed) fs r.0 r.1

  AreClauses-from :
      (fs : List (FilterClause V)) (r : List Text × List V) {n m : ℕ}
      → n ≡ m
      → AreClauses as_list n fs r.0 r.1
      → AreClauses as_list m fs r.0 r.1
  AreClauses-from fs r e h = rw e at h

  Matched-eq :
      (pushed : ℕ) (fs : List (FilterClause V)) (r t : List Text × List V)
      → r ≡ t
      → Matched pushed fs r
      → Matched pushed fs t
  Matched-eq pushed fs r t e h = rw e at h

  pub filter_clauses-ok :
      (known : Columns) (pushed : ℕ) (fs : List (FilterClause V)) {r : List Text × List V}
      → filter_clauses as_list known pushed fs ≡ ok r
      → Matched pushed fs r
  unfolding filter_clauses
  filter_clauses-ok known pushed [] {r} h =
      Matched-eq pushed [] ([], []) r (ok-injective _ r h) AreClauses.no_filter
  filter_clauses-ok known pushed (f ∷ fs) {r} h =
      let vs = values_of as_list f.op f.value in
      let (col, first, rest) =
        >>=-ok (validate_column f.column known)
          (λ col. filter_clauses as_list known (pushed + length vs) fs >>= λ t.
            ok (clause_text as_list f.op f.value col (suc pushed) ∷ t.0, vs ++ t.1))
          h in
      let (t, second, last) =
        >>=-ok (filter_clauses as_list known (pushed + length vs) fs)
          (λ t. ok (clause_text as_list f.op f.value col (suc pushed) ∷ t.0, vs ++ t.1)) rest in
      Matched-eq pushed (f ∷ fs)
        (clause_text as_list f.op f.value col (suc pushed) ∷ t.0, vs ++ t.1) r
        (ok-injective _ r last)
        (AreClauses.next_filter {f = f}
          (clause_text-IsClause f f.op col (suc pushed) (validate_column-ok f.column known first).0
            refl)
          (AreClauses-from fs t (omega arith)
            (filter_clauses-ok known (pushed + length vs) fs second)))

  abbrev Built : QueryState V → Text × List V → Type 0
  Built q r =
      (texts : List Text) × AreClauses as_list 1 q.filters texts r.1
      × (before after : Text) × (r.0 ≡ before ++ (where_sql texts ++ after))
