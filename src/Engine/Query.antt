-- ===== src/Engine/Query.antt =====
-- internal/engine.go: `querySelect`, the pipeline of scanners of a SELECT. How a table is opened
-- (`SelectAllFromTable`) is a parameter of the pipeline.
pub mod Rows
use dblock.Prelude.{ℕ, Bool, true, false, ◌||◌, Option, none, some, List, [], ◌∷◌, if◌then◌else◌}
use dblock.Prelude.Fault.{Error, Result, ok, err}
use dblock.Prelude.Outcome.{◌>>=◌}
use dblock.Value.{Value}
use dblock.Expr.{Expr, func}
use dblock.Expr.Compare.{Float64}
use dblock.Scan.{Entry, Scanner, Opened}
use dblock.Scan.Filter.{new_filter_scanner}
use dblock.Scan.Project.{ProjectedColumn, outputs, new_projector_scanner}
use dblock.Scan.Order.{OrderStmt, new_order_scanner}
use dblock.Scan.Join.{JoinStmt, new_join_scanner}
use dblock.Scan.Aggregate.{new_aggregate_scanner}

-- `orders` is `none` for a nil slice.
pub record SelectStmt : Type 0 where
  pub table_name : List ℕ
  pub projection : List ProjectedColumn
  pub joins : List JoinStmt
  pub orders : Option (List OrderStmt)
  pub where_expr : Option Expr
  pub group_by : List Expr

is_call : Option Expr → Bool
is_call (some (func name args)) = true
is_call _ = false

unfoldable pub any_call : List ProjectedColumn → Bool
unfolding is_call
any_call [] = false
any_call (item ∷ items) = is_call item.expr || any_call items

unfoldable pub has_aggregates : List Expr → List ProjectedColumn → Bool
has_aggregates [] projection = any_call projection
has_aggregates (e ∷ es) projection = true

module _ ⦃fl : Float64⦄ (sprint : Value → List ℕ) (format_float : ℕ → List ℕ)
    (open_table : List ℕ → Result Opened) (fuel : ℕ) (stmt : SelectStmt) (args : List Value) where
  unfoldable pub add_joins : Opened → List JoinStmt → Result Opened
  add_joins scanner [] = ok scanner
  add_joins scanner (join ∷ joins) = do
    right ← open_table join.table_name
    joined ← new_join_scanner fuel scanner right stmt.table_name join args
    add_joins joined joins

  unfoldable pub add_where : Option Expr → Opened → Result Opened
  add_where none scanner = ok scanner
  add_where (some expr) scanner = ok (record {
    State = scanner.State;
    scanner = new_filter_scanner scanner.scanner expr args fuel;
    state = scanner.state;
  })

  unfoldable pub add_order : Option (List OrderStmt) → Opened → Result Opened
  add_order none scanner = ok scanner
  add_order (some orders) scanner = new_order_scanner fuel scanner orders args

  unfoldable pub add_aggregates : Bool → Opened → Result Opened
  add_aggregates false scanner = ok scanner
  add_aggregates true scanner =
      new_aggregate_scanner sprint format_float fuel scanner stmt.projection stmt.group_by args

  unfoldable pub add_projection : Bool → Opened → Result Opened
  add_projection true scanner = ok scanner
  add_projection false scanner = do
    outs ← outputs format_float scanner.scanner.columns stmt.projection
    ok (record {
      State = scanner.State;
      scanner = new_projector_scanner scanner.scanner outs args;
      state = scanner.state;
    })

  unfoldable pub query_select : Result Opened
  query_select = do
    table ← open_table stmt.table_name
    joined ← add_joins table stmt.joins
    filtered ← add_where stmt.where_expr joined
    let aggregates = has_aggregates stmt.group_by stmt.projection
    aggregated ← add_aggregates aggregates filtered
    ordered ← add_order stmt.orders aggregated
    add_projection aggregates ordered
