-- ===== src/Db/Order/Safety.antt =====
-- src/db/query_builder.rs: what `validate_column` and `build_order_by` let into the SQL text.
use marreta_lang.Base.{
  ◌≡◌, ◌≢◌, sym, true, not, ◌&&◌, List, [], ◌∷◌, ◌++◌, arith, none, some, Bool-cases, inl, inr, ◌⊎◌,
}
use marreta_lang.Base.Results.{ok, ok-injective, ◌>>=◌, >>=-ok}
use marreta_lang.Text.{Text, codes, split, join}
use marreta_lang.Text.Trim.{trim}
use marreta_lang.Text.Words.{split_whitespace}
use marreta_lang.Db.Identifier.{
  Columns, quote_identifier, check_known, validate_column, has_dot, contains_column,
}
use marreta_lang.Db.Identifier.Safety.{Quoted, quote_identifier_iff}
use marreta_lang.Db.Order.{is_direction, render_words, render_parts, join_rendered, build_order_by}

-- A column that a table with these known columns may have.
abbrev pub MayHave : Columns → Text → Type 0
MayHave none name = Unit
MayHave (some cols) name = (has_dot name ≡ true) ⊎ (contains_column cols name ≡ true)

check_known-ok :
    (name : Text) (known : Columns) (quoted : Text) {out : Text}
    → check_known name known quoted ≡ ok out
    → (quoted ≡ out) × MayHave known name
unfolding check_known
check_known-ok name none quoted {out} h = (ok-injective quoted out h, tt)
check_known-ok name (some cols) quoted {out} h =
    elim (Bool-cases (not (has_dot name) && not (contains_column cols name))) [
      | inl unknown ↦ cc (rw unknown at h)
      | inr fine ↦ (ok-injective quoted out (rw fine at h), ground arith)
    ]

-- A column that is accepted is a quoted identifier, and known if the columns of the table are.
pub validate_column-ok :
    (raw : Text) (known : Columns) {out : Text}
    → validate_column raw known ≡ ok out
    → Quoted (trim raw) out × MayHave known (trim raw)
unfolding validate_column
validate_column-ok raw known {out} h =
    let (quoted, first, second) = >>=-ok (quote_identifier raw) (check_known (trim raw) known) h in
    let (same, may) = check_known-ok (trim raw) known quoted second in
    (rw same at ((quote_identifier_iff raw quoted).0 first), may)

-- One item of the clause: a column that the table may have, and perhaps a direction behind it.
pub data IsOrderItem (known : Columns) (item : Text) : Type 0 where
  column : (name : Text) → Quoted name item → MayHave known name → IsOrderItem known item
  directed :
      (name out dir : Text)
      → Quoted name out
      → MayHave known name
      → is_direction dir ≡ true
      → item ≡ out ++ (b' ' ∷ dir)
      → IsOrderItem known item

abbrev pub AllItems : Columns → List Text → Type 0
AllItems known [] = Unit
AllItems known (i ∷ items) = IsOrderItem known i × AllItems known items

render_words-ok :
    (part : Text) (known : Columns) (ws : List Text) {item : Text}
    → render_words part known ws ≡ ok item
    → IsOrderItem known item
unfolding render_words
render_words-ok part known [] h = cc
render_words-ok part known (col ∷ []) h =
    let (quoted, may) = validate_column-ok col known h in IsOrderItem.column (trim col) quoted may
render_words-ok part known (col ∷ dir ∷ []) {item} h = elim (Bool-cases (is_direction dir)) [
  | inl good ↦
      let (out, first, second) =
        >>=-ok (validate_column col known) (λ quoted. ok (quoted ++ (b' ' ∷ dir))) (rw good at h) in
      let (quoted, may) = validate_column-ok col known first in
      IsOrderItem.directed (trim col) out dir quoted may good (sym (ok-injective _ item second))
  | inr bad ↦ cc (rw bad at h)
]
render_words-ok part known (a ∷ b ∷ c ∷ ws) h = cc

AllItems-eq :
    (known : Columns) (is js : List Text) → is ≡ js → AllItems known is → AllItems known js
AllItems-eq known is js e h = rw e at h

render_parts-ok :
    (known : Columns) (parts : List Text) {items : List Text}
    → render_parts known parts ≡ ok items
    → AllItems known items
unfolding render_parts
render_parts-ok known [] {items} h = AllItems-eq known [] items (ok-injective [] items h) tt
render_parts-ok known (part ∷ parts) {items} h =
    let (r, first, rest) =
      >>=-ok (render_words part known (split_whitespace part))
        (λ r. render_parts known parts >>= λ rs. ok (r ∷ rs)) h in
    let (rs, second, last) = >>=-ok (render_parts known parts) (λ rs. ok (r ∷ rs)) rest in
    AllItems-eq known (r ∷ rs) items (ok-injective (r ∷ rs) items last)
      (render_words-ok part known (split_whitespace part) first, render_parts-ok known parts second)

join_rendered-ok :
    (order : Text) (items : List Text) {sql : Text}
    → join_rendered order items ≡ ok sql
    → (items ≢ []) × (sql ≡ join (codes ", ") items)
join_rendered-ok order [] h = cc
join_rendered-ok order (r ∷ rs) {sql} h =
    ((λ e. cc), sym (ok-injective (join (codes ", ") (r ∷ rs)) sql h))

-- The ORDER BY clause that is built is a list of at least one item between commas, each a quoted
-- column that the table may have, perhaps with a direction.
pub build_order_by_safe :
    (order : Text) (known : Columns) {sql : Text}
    → build_order_by order known ≡ ok sql
    → (items : List Text) × (items ≢ []) × (sql ≡ join (codes ", ") items) × AllItems known items
unfolding build_order_by
build_order_by_safe order known {sql} h =
    let (items, first, second) =
      >>=-ok (render_parts known (split b',' order)) (join_rendered order) h in
    let (some_item, joined) = join_rendered-ok order items second in
    (items, some_item, joined, render_parts-ok known (split b',' order) first)
