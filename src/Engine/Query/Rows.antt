-- ===== src/Engine/Query/Rows.antt =====
-- internal/engine.go: the rows of a SELECT from one table.
use dblock.Prelude.{
  ℕ, ◌≤◌, ◌<◌, ◌≡◌, ap, ◌∙◌, Bool, false, some, List, [], ◌∷◌, length, map, filter, All, arith,
  Bool-cases, inl, inr,
}
use dblock.Prelude.Fault.{Result, ok}
use dblock.Prelude.Outcome.{bind-ok}
use dblock.Value.{Value, bool}
use dblock.Expr.{Expr}
use dblock.Expr.Compare.{Float64}
use dblock.Scan.{Entry, Opened, Yields}
use dblock.Scan.Filter.{where_value, new_filter_scanner, Yields-filtered}
use dblock.Scan.Project.{Output, outputs, output_values}
use dblock.Scan.Star.{with_values, Yields-projected}
use dblock.Scan.Sorting.{IsSorted, of_rank, Agrees}
use dblock.Scan.Order.{OrderStmt, compare_entries, Yields-IsSorted}
use dblock.Engine.Query.{
  SelectStmt, has_aggregates, add_joins, add_where, add_order, add_aggregates, add_projection,
  query_select,
}

All-filter :
    {A : Type 0} (P : A → Type 0) (p : A → Bool) (xs : List A) → All P xs → All P (filter p xs)
All-filter P p [] h = tt
All-filter P p (x ∷ xs) h = elim (Bool-cases (p x)) [
  | inl holds ↦ rw holds (h.0, All-filter P p xs h.1)
  | inr fails ↦ rw fails (All-filter P p xs h.1)
]

All-each :
    {A : Type 0} (P Q : A → Type 0) → ((x : A) → P x → Q x) → (xs : List A) → All P xs → All Q xs
All-each P Q f [] h = tt
All-each P Q f (x ∷ xs) h = (f x h.0, All-each P Q f xs h.1)

length-filter : {A : Type 0} (p : A → Bool) (xs : List A) → length (filter p xs) ≤ length xs
length-filter p [] = omega arith
length-filter p (x ∷ xs) = elim (Bool-cases (p x)) [
  | inl holds ↦ rw holds (omega (arith, length-filter p xs))
  | inr fails ↦ rw fails (omega (arith, length-filter p xs))
]

-- A SELECT from one table with WHERE and ORDER BY and without aggregates: over a table that yields `rows`,
-- where the WHERE expression has a truth value for each row, the comparison of rows agrees with a rank, and
-- all outputs have values. It yields the outputs of the rows where the expression is true, sorted by rank,
-- and those of equal rank as they came.
pub query_select-rows :
    ⦃fl : Float64⦄ (sprint : Value → List ℕ) (format_float : ℕ → List ℕ)
    (open_table : List ℕ → Result Opened) (fuel : ℕ) (stmt : SelectStmt) (args : List Value)
    (table : Opened) (expr : Expr) (orders : List OrderStmt) (outs : List Output)
    (keep : Entry → Bool) (rank : Entry → ℕ) (out : Entry → List Value) (Fits : Entry → Type 0)
    {rows : List Entry}
    → open_table stmt.table_name ≡ ok table
    → stmt.joins ≡ []
    → stmt.where_expr ≡ some expr
    → has_aggregates stmt.group_by stmt.projection ≡ false
    → stmt.orders ≡ some orders
    → outputs format_float table.scanner.columns stmt.projection ≡ ok outs
    → All (λ e. where_value table.scanner expr args e ≡ ok (bool (keep e))) rows
    → ((a b : Entry)
        → Fits a
        → Fits b
        → Agrees (compare_entries table.scanner.columns args orders) rank a b)
    → All Fits rows
    → ((e : Entry)
        → Fits e
        → output_values table.scanner.columns e.row.values args outs ≡ ok (out e))
    → Yields table.scanner table.state rows
    → length rows < fuel
    → (result : Opened) × (sorted : List Entry) × (query_select sprint format_float open_table fuel
          stmt args
        ≡ ok result)
      × Yields result.scanner result.state (map (λ e. with_values e (out e)) sorted)
      × IsSorted rank sorted
      × ((r : ℕ) → of_rank rank r sorted ≡ of_rank rank r (filter keep rows))
unfolding query_select add_joins add_where add_order add_aggregates add_projection
    new_filter_scanner
query_select-rows sprint format_float open_table fuel stmt args table expr orders outs keep rank out
      Fits {rows} opened no_joins has_where plain has_order made_outs kept agrees fits has_out y h =
    let base : Opened = record {
      State = table.State;
      scanner = new_filter_scanner table.scanner expr args fuel;
      state = table.state;
    } in
    let (scanned, sorted, made, yields, ordered, same, fit, columns) =
      Yields-IsSorted fuel base orders args rank Fits agrees (All-filter Fits keep rows fits)
        (Yields-filtered table.scanner expr args keep fuel y kept h)
        (omega (arith, length-filter keep rows)) in
    let projected = Yields-projected scanned.scanner outs args out yields (
      All-each Fits (λ e. output_values scanned.scanner.columns e.row.values args outs ≡ ok (out e))
        (λ e f. ap (λ cs. output_values cs e.row.values args outs) columns ∙ has_out e f) sorted
        fit) in
    (
      _,
      sorted,
      bind-ok (open_table stmt.table_name) _ opened
          ∙ bind-ok _ _
              (ap (add_joins sprint format_float open_table fuel stmt args table) no_joins)
          ∙ bind-ok _ _
              (ap (λ w. add_where sprint format_float open_table fuel stmt args w table) has_where)
          ∙ bind-ok _ _
              (ap (λ b. add_aggregates sprint format_float open_table fuel stmt args b base) plain)
          ∙ bind-ok _ _ (
              ap (λ o. add_order sprint format_float open_table fuel stmt args o base) has_order
              ∙ made)
          ∙ ap (λ b. add_projection sprint format_float open_table fuel stmt args b scanned) plain
          ∙ bind-ok _ _ (ap (λ cs. outputs format_float cs stmt.projection) columns ∙ made_outs),
      projected,
      ordered,
      same,
    )
