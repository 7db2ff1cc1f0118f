-- ===== src/Scan/Order.antt =====
-- internal/orderscanner.go: `OrderScanner`, which reads its whole base and sorts it. Reading takes fuel.
pub mod Integers
use dblock.Prelude.{
  ℕ, zero, suc, ◌+◌, ◌<◌, ◌≡◌, refl, ap, sym, ◌∙◌, Option, none, some, List, [], ◌∷◌, ◌++◌, length,
  All, Bool, true, false, get_elem?, if◌then◌else◌, arith, append_assoc, append-nil,
}
use dblock.Prelude.Int.{ℤ, pos, neg_ℤ, eq_ℤ}
use dblock.Prelude.Fault.{Error, Result, ok, err, panic, out_of_fuel}
use dblock.Prelude.Outcome.{◌>>=◌}
use dblock.Prelude.Exec
use dblock.Prelude.Exec.{Exec, pure, lift, >>=-ok}
use dblock.Value.{Value}
use dblock.Row.{Row}
use dblock.Expr.{Expr, eval_expr}
use dblock.Expr.Compare.{Float64, compare_values}
use dblock.Scan.{Entry, Scanner, Opened, Yields, done, more}
use dblock.Scan.Collect.{collect, collect_lem, rows_next, Yields-rows}
use dblock.Scan.Sorting.{sort_stable, sort_stable-IsSorted, IsSorted, of_rank, Agrees}

pub record OrderStmt : Type 0 where
  pub expr : Expr
  pub is_desc : Bool

module _ ⦃fl : Float64⦄ (columns : List (List ℕ)) (args : List Value) where
  unfoldable pub compare_rows : Row → Row → OrderStmt → Result ℤ
  compare_rows a b by = do
    left ← eval_expr columns a.values args by.expr
    right ← eval_expr columns b.values args by.expr
    let n = compare_values left right
    ok (if by.is_desc then neg_ℤ n else n)

  -- An error is not looked at: the 0 beside it counts.
  abbrev pub or_zero : Result ℤ → Result ℤ
  or_zero (err e) = ok (pos 0)
  or_zero r = r

  -- The function that the sort is given.
  unfoldable pub compare_entries : List OrderStmt → Entry → Entry → Result ℤ
  compare_entries [] a b = ok (pos 0)
  compare_entries (by ∷ orders) a b = or_zero (compare_rows a.row b.row by) >>= λ n.
      if eq_ℤ n (pos 0) then compare_entries orders a b else ok n

unfoldable pub new_order_scanner :
    ⦃fl : Float64⦄ → ℕ → Opened → List OrderStmt → List Value → Result Opened
new_order_scanner fuel base orders args = do
  rows ← (collect base.scanner fuel [] base.state).0
  sorted ← sort_stable (compare_entries base.scanner.columns args orders) rows
  ok (record {
    State = ℕ;
    scanner = record { columns = base.scanner.columns; next = rows_next sorted };
    state = 0;
  })

pub Yields-IsSorted :
    ⦃fl : Float64⦄ (fuel : ℕ) (base : Opened) (orders : List OrderStmt) (args : List Value)
    (rank : Entry → ℕ) (Fits : Entry → Type 0) {rows : List Entry}
    → ((a b : Entry)
        → Fits a
        → Fits b
        → Agrees (compare_entries base.scanner.columns args orders) rank a b)
    → All Fits rows
    → Yields base.scanner base.state rows
    → length rows < fuel
    → (out : Opened) × (sorted : List Entry) × (new_order_scanner fuel base orders args ≡ ok out)
      × Yields out.scanner out.state sorted
      × IsSorted rank sorted
      × ((r : ℕ) → of_rank rank r sorted ≡ of_rank rank r rows)
      × All Fits sorted
      × (out.scanner.columns ≡ base.scanner.columns)
unfolding new_order_scanner
Yields-IsSorted fuel base orders args rank Fits {rows} agrees fits y h =
    let cmp = compare_entries base.scanner.columns args orders in
    let (sorted, run, ordered, same, fit) = sort_stable-IsSorted cmp rank Fits agrees rows fits in
    (
      _,
      sorted,
      rw (collect_lem base.scanner fuel [] y h, run),
      Yields-rows base.scanner.columns sorted,
      ordered,
      same,
      fit,
      refl,
    )

-- `ORDER BY`: over a base that yields `rows`, and where the comparison of any two of them is that of their
-- ranks, the scanner yields the rows sorted by rank, and those of equal rank as they came.
pub Yields-ordered :
    ⦃fl : Float64⦄ (fuel : ℕ) (base : Opened) (orders : List OrderStmt) (args : List Value)
    (rank : Entry → ℕ) (Fits : Entry → Type 0) {rows : List Entry}
    → ((a b : Entry)
        → Fits a
        → Fits b
        → Agrees (compare_entries base.scanner.columns args orders) rank a b)
    → All Fits rows
    → Yields base.scanner base.state rows
    → length rows < fuel
    → (out : Opened) × (sorted : List Entry) × (new_order_scanner fuel base orders args ≡ ok out)
      × Yields out.scanner out.state sorted
      × IsSorted rank sorted
      × ((r : ℕ) → of_rank rank r sorted ≡ of_rank rank r rows)
Yields-ordered fuel base orders args rank Fits agrees fits y h =
    let (out, sorted, made, yields, ordered, same, _, _) =
      Yields-IsSorted fuel base orders args rank Fits agrees fits y h in
    (out, sorted, made, yields, ordered, same)
