-- ===== src/Engine/Rows.antt =====
-- internal/engine.go: the row that an INSERT writes. Of a DEFAULT text the resolved expression is a
-- parameter: the parser is not modelled.
pub mod Shape
use dblock.Prelude.{
  ℕ, zero, suc, ◌+◌, Bool, true, false, Option, none, some, List, [], ◌∷◌, ◌++◌, length, map,
  replicate, ltb, ◌==◌, get_elem?, if◌then◌else◌,
}
use dblock.Prelude.Bytes.{bytes_eq}
use dblock.Prelude.Fault.{
  Error, Result, ok, err, panic, missing_argument, no_such_column, too_many_values,
}
use dblock.Prelude.Outcome.{◌>>=◌}
use dblock.Value.{Value, null, text}
use dblock.Expr.{Expr, eval_expr}
use dblock.Expr.Compare.{Float64}
use dblock.Schema.{Column}
use dblock.Coerce.{Formats, coerce_value}

-- An item of VALUES: a value, or `DefaultKeyword`.
pub data Item : Type 0 where
  given : Value → Item
  default : Item

-- A literal "?" is a placeholder too.
unfoldable pub is_placeholder : Item → Bool
is_placeholder (given (text s)) = bytes_eq s (b'?' ∷ [])
is_placeholder _ = false

-- Each placeholder takes the next argument.
unfoldable pub bind_arguments : List Item → List Value → Result (List Item)
bind_arguments [] args = ok []
bind_arguments (item ∷ items) [] =
    if is_placeholder item
    then err missing_argument
    else (do rest ← bind_arguments items []; ok (item ∷ rest))
bind_arguments (item ∷ items) (arg ∷ args) = do
  let bound = is_placeholder item
  rest ← bind_arguments items (if bound then args else arg ∷ args)
  ok ((if bound then given arg else item) ∷ rest)

-- `colIdx`: of columns of one name, the last.
unfoldable pub column_index : List Column → List ℕ → Option ℕ
column_index [] name = none
column_index (c ∷ columns) name = elim (column_index columns name) [
  | some i ↦ some (suc i)
  | none ↦ if bytes_eq c.name name then some 0 else none
]

-- `pending`, by index. A later item stands in front.
abbrev pub Pending : Type 0
Pending = List (ℕ × Item)

unfoldable pub find_item : ℕ → Pending → Option Item
find_item i [] = none
find_item i ((k, item) ∷ rest) = if k == i then some item else find_item i rest

unfoldable pub by_position : ℕ → List Item → Pending
by_position i [] = []
by_position i (item ∷ items) = (i, item) ∷ by_position (i + 1) items

by_name : List Column → List (List ℕ) → List Item → Pending → Result Pending
by_name columns names [] pending = ok pending
by_name columns [] (item ∷ items) pending = panic
by_name columns (name ∷ names) (item ∷ items) pending = elim (column_index columns name) [
  | none ↦ err no_such_column
  | some i ↦ by_name columns names items ((i, item) ∷ pending)
]

unfoldable pub pending_items : List Column → List (List ℕ) → List Item → Result Pending
unfolding by_name
pending_items columns [] items =
    if ltb (length columns) (length items) then err too_many_values else ok (by_position 0 items)
pending_items columns (name ∷ names) items =
    if ltb (length (name ∷ names)) (length items)
    then err too_many_values
    else by_name columns (name ∷ names) items []

module _ ⦃fl : Float64⦄ (resolve : List ℕ → Result Expr) where
  default_expr : Column → List (List ℕ) → List Value → List ℕ → Result Value
  default_expr col names values [] = ok null
  default_expr col names values source = do expr ← resolve source; eval_expr names values [] expr

  -- `evalDefaultExpr`
  unfoldable pub eval_default_expr : Column → List (List ℕ) → List Value → Result Value
  unfolding default_expr
  eval_default_expr col names values = default_expr col names values col.default_expr

  item_value : Column → List (List ℕ) → List Value → Option Item → Result Value
  item_value col names row (some (given v)) = ok v
  item_value col names row (some default) = eval_default_expr col names row
  item_value col names row none = eval_default_expr col names row

  -- From left to right; the columns to come are NULL for a default.
  unfoldable pub fill_row : List (List ℕ) → Pending → List Column → List Value → Result (List Value)
  unfolding item_value
  fill_row names pending [] filled = ok filled
  fill_row names pending (col ∷ columns) filled = do
    let row = filled ++ replicate (length (col ∷ columns)) null
    v ← item_value col names row (find_item (length filled) pending)
    fill_row names pending columns (filled ++ v ∷ [])

  unfoldable pub build_row_values : List Column → List (List ℕ) → List Item → Result (List Value)
  build_row_values columns named items = do
    pending ← pending_items columns named items
    fill_row (map (λ (c : Column). c.name) columns) pending columns []

module _ ⦃fl : Float64⦄ (fm : Formats) where
  unfoldable pub coerce_row : List Column → List Value → Result (List Value)
  coerce_row [] values = ok values
  coerce_row (col ∷ columns) [] = panic
  coerce_row (col ∷ columns) (v ∷ values) = do
    w ← coerce_value fm col v
    ws ← coerce_row columns values
    ok (w ∷ ws)

-- The values that `Insert` writes.
unfoldable pub insert_values :
    ⦃fl : Float64⦄
    → Formats
    → (List ℕ → Result Expr)
    → List Column
    → List (List ℕ)
    → List Item
    → List Value
    → Result (List Value)
insert_values fm resolve columns named items args = do
  bound ← bind_arguments items args
  row ← build_row_values resolve columns named bound
  coerce_row fm columns row
