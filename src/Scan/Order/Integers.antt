-- ===== src/Scan/Order/Integers.antt =====
-- internal/orderscanner.go: `ORDER BY` one expression whose values are integers.
use dblock.Prelude.{
  ℕ, suc, ◌+◌, ◌-◌, ◌^◌, ◌<◌, ◌≡◌, List, [], ◌∷◌, length, All, Bool, true, false, if◌then◌else◌,
  ltb, arith,
}
use dblock.Prelude.Int.{ℤ, pos, negsuc, neg_ℤ, eq_ℤ, ltb_ℤ, Fits}
use dblock.Prelude.Fault.{ok}
use dblock.Value.{Value, integer}
use dblock.Expr.{eval_expr}
use dblock.Expr.Compare.{Float64, compare_values, by_tests}
use dblock.Scan.{Entry, Opened, Yields}
use dblock.Scan.Sorting.{IsSorted, of_rank, Agrees}
use dblock.Scan.Order.{OrderStmt, compare_rows, compare_entries, new_order_scanner, Yields-ordered}

-- The place of an `int64` among all of them, from below or from above.
abbrev pub place : Bool → ℤ → ℕ
place false (pos n) = 2 ^ 63 + n
place false (negsuc n) = 2 ^ 63 - suc n
place true (pos n) = 2 ^ 63 - n
place true (negsuc n) = 2 ^ 63 + suc n

-- The result of `compareRows` for two integers, behind the test for 0.
abbrev shown : Bool → ℤ → ℤ → ℤ
shown desc x y = let n = by_tests (ltb_ℤ x y) (ltb_ℤ y x) in if desc then neg_ℤ n else n

place-lt :
    (desc : Bool) (x y : ℤ)
    → Fits (2 ^ 64) x
    → Fits (2 ^ 64) y
    → ltb_ℤ (shown desc x y) (pos 0) ≡ ltb (place desc x) (place desc y)
place-lt false (pos a) (pos b) h k = ground arith
place-lt false (pos a) (negsuc b) h k = ground arith
place-lt false (negsuc a) (pos b) h k = ground arith
place-lt false (negsuc a) (negsuc b) h k = ground arith
place-lt true (pos a) (pos b) h k = ground arith
place-lt true (pos a) (negsuc b) h k = ground arith
place-lt true (negsuc a) (pos b) h k = ground arith
place-lt true (negsuc a) (negsuc b) h k = ground arith

module _ ⦃fl : Float64⦄ (columns : List (List ℕ)) (args : List Value) (by : OrderStmt) where
  -- The expression has an `int64` as its value for the entry.
  abbrev pub HasInteger : (Entry → ℤ) → Entry → Type 0
  HasInteger value e =
      (eval_expr columns e.row.values args by.expr ≡ ok (integer (value e)))
      × Fits (2 ^ 64) (value e)

  chosen : (n : ℤ) → (if eq_ℤ n (pos 0) then ok (pos 0) else ok n) ≡ ok n
  chosen (pos n) = ground arith
  chosen (negsuc n) = ground arith

  pub integers-Agree :
      (value : Entry → ℤ) (a b : Entry)
      → HasInteger value a
      → HasInteger value b
      → Agrees (compare_entries columns args (by ∷ [])) (λ e. place by.is_desc (value e)) a b
  unfolding compare_entries compare_rows compare_values
  integers-Agree value a b h k = (
    shown by.is_desc (value a) (value b),
    rw (h.0, k.0) (chosen (shown by.is_desc (value a) (value b))),
    place-lt by.is_desc (value a) (value b) h.1 k.1,
  )

-- `ORDER BY` an expression whose value is an `int64` for every row of the base: the scanner yields the rows
-- sorted by these values, from below or with `DESC` from above, and those of equal value as they came.
pub Yields-ordered_integers :
    ⦃fl : Float64⦄ (fuel : ℕ) (base : Opened) (by : OrderStmt) (args : List Value)
    (value : Entry → ℤ) {rows : List Entry}
    → All (HasInteger base.scanner.columns args by value) rows
    → Yields base.scanner base.state rows
    → length rows < fuel
    → (out : Opened) × (sorted : List Entry) × (new_order_scanner fuel base (by ∷ []) args ≡ ok out)
      × Yields out.scanner out.state sorted
      × IsSorted (λ e. place by.is_desc (value e)) sorted
      × ((r : ℕ)
          → of_rank (λ e. place by.is_desc (value e)) r sorted
            ≡ of_rank (λ e. place by.is_desc (value e)) r rows)
Yields-ordered_integers fuel base by args value integers y h =
    Yields-ordered fuel base (by ∷ []) args (λ e. place by.is_desc (value e))
      (HasInteger base.scanner.columns args by value)
      (integers-Agree base.scanner.columns args by value) integers y h
