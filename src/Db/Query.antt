-- ===== src/Db/Query.antt =====
-- src/db/driver.rs: filters, joins and `QueryState`; src/db/query_builder.rs: `build_select`,
-- `build_update`, `build_delete` and `filters_from_equality_map`. The builder looks into a value
-- only to see whether it is a list: `as_list` is the pattern `Value::List(items)`. A vector of
-- parameters that closures push to is passed on by its length and the parameters added.
pub mod Params
pub mod Update
use marreta_lang.Base.{
  ℕ, suc, ◌+◌, Bool, true, false, List, [], ◌∷◌, ◌++◌, map, if◌then◌else◌, Option, none, some,
  length,
}
use marreta_lang.Base.Results.{Result, ok, err, ◌>>=◌}
use marreta_lang.Text.{Text, codes, join}
use marreta_lang.Text.Decimal.{show}
use marreta_lang.Db.Identifier.{DbError, Columns, validate_column}
use marreta_lang.Db.Order.{build_order_by}

-- An `i64`, by its value.
pub data ℤ : Type 0 where
  pos : ℕ → ℤ
  negsuc : ℕ → ℤ

abbrev pub show_int : ℤ → Text
show_int (ℤ.pos n) = show n
show_int (ℤ.negsuc n) = b'-' ∷ show (suc n)

pub data FilterOp : Type 0 where
  eq gt gte lt lte ne like in_list : FilterOp

abbrev pub to_sql : FilterOp → Text
to_sql FilterOp.eq = codes "="
to_sql FilterOp.gt = codes ">"
to_sql FilterOp.gte = codes ">="
to_sql FilterOp.lt = codes "<"
to_sql FilterOp.lte = codes "<="
to_sql FilterOp.ne = codes "!="
to_sql FilterOp.like = codes "LIKE"
to_sql FilterOp.in_list = codes "IN"

pub record FilterClause (V : Type 0) : Type 0 where
  pub column : Text
  pub op : FilterOp
  pub value : V

pub data JoinKind : Type 0 where
  inner left : JoinKind

pub record JoinClause : Type 0 where
  pub kind : JoinKind
  pub table : Text
  pub on : Text

pub record QueryState (V : Type 0) : Type 0 where
  pub table : Text
  pub filters : List (FilterClause V)
  pub joins : List JoinClause
  pub select_cols : List Text
  pub order_by : Option Text
  pub limit : Option ℤ
  pub offset : Option ℤ
  pub count : Bool
  pub known_columns : Columns

abbrev pub new_query : {V : Type 0} → Text → QueryState V
new_query t = record {
  table = t;
  filters = [];
  joins = [];
  select_cols = [];
  order_by = none;
  limit = none;
  offset = none;
  count = false;
  known_columns = none;
}

abbrev pub dollar : ℕ → Text
dollar n = b'$' ∷ show n

-- The numbers of `len` parameters from `from`.
abbrev pub slots : {V : Type 0} → ℕ → List V → List ℕ
slots from [] = []
slots from (v ∷ vs) = from ∷ slots (suc from) vs

abbrev pub comparison : Text → FilterOp → ℕ → Text
comparison col op n = col ++ (b' ' ∷ (to_sql op ++ (b' ' ∷ dollar n)))

abbrev pub membership : Text → List ℕ → Text
membership col ns = col ++ (codes " IN (" ++ (join (codes ", ") (map dollar ns) ++ codes ")"))

unfoldable pub validate_columns : Columns → List Text → Result DbError (List Text)
validate_columns known [] = ok []
validate_columns known (c ∷ cs) =
    validate_column c known >>= λ q. validate_columns known cs >>= λ qs. ok (q ∷ qs)

abbrev pub where_sql : List Text → Text
where_sql [] = []
where_sql (c ∷ cs) = codes " WHERE " ++ join (codes " AND ") (c ∷ cs)

abbrev pub join_keyword : JoinKind → Text
join_keyword JoinKind.inner = codes "INNER JOIN"
join_keyword JoinKind.left = codes "LEFT JOIN"

abbrev pub join_sql : Text → List JoinClause → Text
join_sql t [] = []
join_sql t (j ∷ js) =
    (b' ' ∷ join_keyword j.kind)
    ++ ((b' ' ∷ j.table)
        ++ (codes " ON "
            ++ (t
                ++ ((b'.' ∷ j.on)
                    ++ (codes " = " ++ (j.table ++ (codes ".id" ++ join_sql t js)))))))

abbrev pub columns_sql : Columns → List Text → Result DbError Text
columns_sql known [] = ok (codes "*")
columns_sql known (c ∷ cs) = validate_columns known (c ∷ cs) >>= λ qs. ok (join (codes ", ") qs)

abbrev pub order_sql : Columns → Option Text → Result DbError Text
order_sql known none = ok []
order_sql known (some order) = build_order_by order known >>= λ o. ok (codes " ORDER BY " ++ o)

abbrev pub number_sql : Text → Option ℤ → Text
number_sql keyword none = []
number_sql keyword (some n) = keyword ++ show_int n

abbrev pub select_sql : {V : Type 0} → QueryState V → Result DbError Text
select_sql q =
    if q.count then ok (codes "COUNT(*) AS count") else columns_sql q.known_columns q.select_cols

module _ {V : Type 0} (as_list : V → Option (List V)) where
  abbrev pub in_values : V → Option (List V) → List V
  in_values v none = v ∷ []
  in_values v (some items) = items

  -- The parameters that a filter pushes.
  abbrev pub values_of : FilterOp → V → List V
  values_of FilterOp.in_list v = in_values v (as_list v)
  values_of _ v = v ∷ []

  abbrev pub clause_text : FilterOp → V → Text → ℕ → Text
  clause_text FilterOp.in_list v col n = membership col (slots n (in_values v (as_list v)))
  clause_text op v col n = comparison col op n

  -- The clauses and the parameters they push, when `pushed` parameters are already there.
  unfoldable pub filter_clauses :
      Columns → ℕ → List (FilterClause V) → Result DbError (List Text × List V)
  filter_clauses known pushed [] = ok ([], [])
  filter_clauses known pushed (f ∷ fs) = validate_column f.column known >>= λ col.
      filter_clauses known (pushed + length (values_of f.op f.value)) fs >>= λ r.
      ok (clause_text f.op f.value col (suc pushed) ∷ r.0, values_of f.op f.value ++ r.1)

  unfoldable pub build_select : QueryState V → Result DbError (Text × List V)
  build_select q = select_sql q >>= λ select. filter_clauses q.known_columns 0 q.filters >>= λ r.
      order_sql q.known_columns q.order_by >>= λ order. ok (
        codes "SELECT "
            ++ (select
                ++ (codes " FROM "
                    ++ (q.table
                        ++ (join_sql q.table q.joins
                            ++ (where_sql r.0
                                ++ (order
                                    ++ (number_sql (codes " LIMIT ") q.limit
                                        ++ number_sql (codes " OFFSET ") q.offset))))))),
        r.1,
      )

-- `col <op> $n` for each filter, numbered from `n`.
unfoldable pub numbered_clauses :
    {V : Type 0} → Columns → ℕ → List (FilterClause V) → Result DbError (List Text)
numbered_clauses known n [] = ok []
numbered_clauses known n (f ∷ fs) = validate_column f.column known >>= λ col.
    numbered_clauses known (suc n) fs >>= λ cs. ok (comparison col f.op n ∷ cs)

unfoldable pub set_clauses : Columns → ℕ → List Text → Result DbError (List Text)
set_clauses known n [] = ok []
set_clauses known n (k ∷ ks) = validate_column k known >>= λ col.
    set_clauses known (suc n) ks >>= λ cs. ok (comparison col FilterOp.eq n ∷ cs)

unfoldable pub build_update :
    {V : Type 0} → Text → List Text → List (FilterClause V) → Columns → Result DbError (Text × ℕ)
build_update t data_keys filters known = set_clauses known 1 data_keys >>= λ sets.
    numbered_clauses known (length data_keys + 1) filters >>= λ wheres. ok (
      codes "UPDATE " ++ (t ++ (codes " SET " ++ (join (codes ", ") sets ++ where_sql wheres))),
      length data_keys + 1,
    )

unfoldable pub build_delete :
    {V : Type 0} → Text → List (FilterClause V) → Columns → Result DbError (Text × ℕ)
build_delete t filters known = numbered_clauses known 1 filters >>= λ wheres.
    ok (codes "DELETE FROM " ++ (t ++ where_sql wheres), 1)

abbrev pub filters_from_equality_map : {V : Type 0} → List (Text × V) → List (FilterClause V)
filters_from_equality_map [] = []
filters_from_equality_map ((col, val) ∷ pairs) =
    record { column = col; op = FilterOp.eq; value = val } ∷ filters_from_equality_map pairs
