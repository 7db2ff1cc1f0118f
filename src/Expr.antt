-- ===== src/Expr.antt =====
-- internal/resolveExpr.go and internal/evalExpr.go: expressions, and their value for a row. Of floats the
-- code uses Go's operations, which are an instance argument: they take and give IEEE bits.
pub mod Compare
pub mod Arithmetic
pub mod Complement
pub mod Fine
pub mod Print
use dblock.Prelude.{
  ℕ, zero, suc, ◌+◌, Bool, true, false, ◌&&◌, ◌||◌, not, Option, none, some, List, [], ◌∷◌, map,
  ltb, if◌then◌else◌, get_elem?,
}
use dblock.Prelude.Int.{ℤ, pos, negsuc, ◌+ℤ◌, ◌-ℤ◌, ◌*ℤ◌, quot_ℤ, rem_ℤ, wrap, eq_ℤ, ltb_ℤ}
use dblock.Prelude.Bytes.{bytes_eq}
use dblock.Prelude.Fault.{
  Error, Result, ok, err, panic, out_of_fuel, division_by_zero, bad_operand, unsupported_operator,
  missing_argument, no_such_column, cannot_compare, unsupported_expression,
}
use dblock.Prelude.Outcome.{◌>>=◌}
use dblock.Value.{Value, null, integer, real, text, bool, blob, time, uuid}
use dblock.Expr.Compare.{Float64, compare_values}

pub data FuncName : Type 0 where
  count_func max_func min_func sum_func avg_func : FuncName

pub data Operator : Type 0 where
  add subtract multiply divide modulo : Operator
  equal not_equal less_than less_than_or_eq greater_than greater_than_or_eq : Operator
  and or : Operator

-- `Expr` has a kind and the fields of all kinds; here each kind is a constructor with its own fields.
mutual
  pub data Expr : Type 0 where
    star : Expr
    column : List ℕ → Expr
    int_literal : ℤ → Expr
    real_literal : ℕ → Expr
    blob_literal : List ℕ → Expr
    text_literal : List ℕ → Expr
    binary : Expr → Operator → Expr → Expr
    func : FuncName → Exprs → Expr
    arg : ℕ → Expr

  pub data Exprs : Type 0 where
    no_more : Exprs
    one_more : Expr → Exprs → Exprs

-- `findColumn`, with `none` for -1.
unfoldable pub find_column : List (List ℕ) → List ℕ → Option ℕ
find_column [] name = none
find_column (c ∷ columns) name =
    let rest = find_column columns name in
    if bytes_eq c name then some 0 else elim rest [ none ↦ none | some i ↦ some (suc i) ]

-- A Go index into a slice.
unfoldable pub at_index : {A : Type 0} → List A → ℕ → Result A
at_index xs i = elim (get_elem? xs i) [ none ↦ panic | some x ↦ ok x ]

-- Go's `/` and `%` of two `int64`, which panic on the divisor 0.
abbrev pub int_quotient : ℤ → ℤ → Result Value
int_quotient a b = if eq_ℤ b (pos 0) then panic else ok (integer (wrap (quot_ℤ a b)))

abbrev pub int_remainder : ℤ → ℤ → Result Value
int_remainder a b = if eq_ℤ b (pos 0) then panic else ok (integer (wrap (rem_ℤ a b)))

unfoldable pub int_arithmetic : Operator → ℤ → ℤ → Result Value
int_arithmetic add a b = ok (integer (wrap (a +ℤ b)))
int_arithmetic subtract a b = ok (integer (wrap (a -ℤ b)))
int_arithmetic multiply a b = ok (integer (wrap (a *ℤ b)))
int_arithmetic divide a b = if eq_ℤ b (pos 0) then err division_by_zero else int_quotient a b
int_arithmetic modulo a b = if eq_ℤ b (pos 0) then err division_by_zero else int_remainder a b
int_arithmetic _ a b = err unsupported_operator

abbrev pub is_null : Value → Bool
is_null null = true
is_null _ = false

-- Both operands, if they are `int64`.
abbrev pub both_integers : Value → Value → Option (ℤ × ℤ)
both_integers (integer a) (integer b) = some (a, b)
both_integers (integer a) _ = none
both_integers _ b = none

unfoldable pub eval_logical : Operator → Value → Value → Result Value
eval_logical and (bool a) (bool b) = ok (bool (a && b))
eval_logical or (bool a) (bool b) = ok (bool (a || b))
eval_logical op (bool a) (bool b) = err unsupported_operator
eval_logical op _ _ = err bad_operand

-- The test of a comparison on the result of the order.
unfoldable pub comparison : Operator → ℤ → Result Value
comparison equal cmp = ok (bool (eq_ℤ cmp (pos 0)))
comparison not_equal cmp = ok (bool (not (eq_ℤ cmp (pos 0))))
comparison less_than cmp = ok (bool (ltb_ℤ cmp (pos 0)))
comparison less_than_or_eq cmp = ok (bool (not (ltb_ℤ (pos 0) cmp)))
comparison greater_than cmp = ok (bool (ltb_ℤ (pos 0) cmp))
comparison greater_than_or_eq cmp = ok (bool (not (ltb_ℤ cmp (pos 0))))
comparison _ cmp = err unsupported_operator

module _ ⦃fl : Float64⦄ where
  unfoldable pub to_float : Value → Option ℕ
  to_float (integer n) = some (fl.of_int n)
  to_float (real x) = some x
  to_float _ = none

  -- Go's `int64` remainder panics on a divisor that rounds to 0.
  unfoldable pub real_arithmetic : Operator → ℕ → ℕ → Result Value
  real_arithmetic add a b = ok (real (fl.add a b))
  real_arithmetic subtract a b = ok (real (fl.subtract a b))
  real_arithmetic multiply a b = ok (real (fl.multiply a b))
  real_arithmetic divide a b =
      if fl.is_zero b then err division_by_zero else ok (real (fl.divide a b))
  real_arithmetic modulo a b =
      if eq_ℤ (fl.to_int b) (pos 0)
      then panic
      else ok (real (fl.of_int (wrap (rem_ℤ (fl.to_int a) (fl.to_int b)))))
  real_arithmetic _ a b = err unsupported_operator

  promoted : Operator → Option ℕ → Option ℕ → Result Value
  promoted op none b = err bad_operand
  promoted op (some a) none = err bad_operand
  promoted op (some a) (some b) = real_arithmetic op a b

  unfoldable pub eval_arithmetic : Operator → Value → Value → Result Value
  unfolding promoted
  eval_arithmetic op left right = elim (both_integers left right) [
    | some (a, b) ↦ int_arithmetic op a b
    | none ↦ promoted op (to_float left) (to_float right)
  ]

  -- Both operands numbers: by value. None of them: by the order of `ORDER BY`.
  unfoldable pub compared : Value → Value → Option ℕ → Option ℕ → Result ℤ
  compared left right (some a) (some b) =
      ok (if fl.lt a b then negsuc 0 else if fl.lt b a then pos 1 else pos 0)
  compared left right none none = ok (compare_values left right)
  compared left right _ _ = err cannot_compare

  unfoldable pub eval_comparison : Operator → Value → Value → Result Value
  eval_comparison op left right = do
    cmp ← compared left right (to_float left) (to_float right)
    comparison op cmp

  unfoldable pub apply_operator : Operator → Value → Value → Result Value
  apply_operator add = eval_arithmetic add
  apply_operator subtract = eval_arithmetic subtract
  apply_operator multiply = eval_arithmetic multiply
  apply_operator divide = eval_arithmetic divide
  apply_operator modulo = eval_arithmetic modulo
  apply_operator and = eval_logical and
  apply_operator or = eval_logical or
  apply_operator op = eval_comparison op

  unfoldable pub eval_binary : Operator → Value → Value → Result Value
  eval_binary op left right =
      if is_null left || is_null right then ok null else apply_operator op left right

  unfoldable pub eval_expr : List (List ℕ) → List Value → List Value → Expr → Result Value
  eval_expr columns values args (int_literal n) = ok (integer n)
  eval_expr columns values args (real_literal x) = ok (real x)
  eval_expr columns values args (blob_literal b) = ok (blob b)
  eval_expr columns values args (text_literal s) = ok (text s)
  eval_expr columns values args (arg i) = elim (get_elem? args i) [
    | none ↦ err missing_argument
    | some v ↦ ok v
  ]
  eval_expr columns values args (column name) = elim (find_column columns name) [
    | none ↦ err no_such_column
    | some i ↦ at_index values i
  ]
  eval_expr columns values args (binary left op right) = do
    l ← eval_expr columns values args left
    r ← eval_expr columns values args right
    eval_binary op l r
  eval_expr columns values args (func name exprs) = err unsupported_expression
  eval_expr columns values args star = err unsupported_expression
