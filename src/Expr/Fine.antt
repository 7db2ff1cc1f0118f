-- ===== src/Expr/Fine.antt =====
-- internal/evalExpr.go: which expressions can be evaluated without a panic.
use dblock.Prelude.{
  ℕ, zero, suc, ◌≤◌, ◌<◌, ◌≡◌, ◌≢◌, Bool, true, false, ◌||◌, Option, none, some, List, [], ◌∷◌,
  arith, length, get_elem?, if◌then◌else◌, inl, inr, Option-cases,
}
use dblock.Prelude.Int.{ℤ, pos, eq_ℤ}
use dblock.Prelude.Fault.{Error, Result, ok, err, panic, out_of_fuel, division_by_zero}
use dblock.Prelude.Outcome.{IsFine, IsFine-bind}
use dblock.Value.{Value, null, bool}
use dblock.Expr.Compare.{Float64}
use dblock.Expr.{
  Operator, add, subtract, multiply, divide, modulo, equal, not_equal, less_than, less_than_or_eq,
  greater_than, greater_than_or_eq, and, or, Expr, star, column, int_literal, real_literal,
  blob_literal, text_literal, binary, func, arg, find_column, at_index, int_arithmetic,
  real_arithmetic, promoted, eval_arithmetic, eval_logical, comparison, compared, eval_comparison,
  apply_operator, eval_binary, eval_expr, to_float, both_integers, is_null,
}

-- No `%` occurs.
abbrev pub is_modulo : Operator → Bool
is_modulo modulo = true
is_modulo _ = false

abbrev pub has_modulo : Expr → Bool
has_modulo (binary l op r) = is_modulo op || (has_modulo l || has_modulo r)
has_modulo _ = false

no_modulo :
    (op : Operator) (l r : Bool)
    → (is_modulo op || (l || r)) ≡ false
    → (is_modulo op ≡ false) × (l ≡ false) × (r ≡ false)
no_modulo op l r h = (ground (arith, h), ground (arith, h), ground (arith, h))

IsFine-ok : {A : Type 0} (a : A) → IsFine {A = A} (ok a)
IsFine-ok a = record { no_panic = λ p. ground arith; no_fuel = λ p. ground arith }

IsFine-err : {A : Type 0} (e : Error) → IsFine {A = A} (err e)
IsFine-err e = record { no_panic = λ p. ground arith; no_fuel = λ p. ground arith }

IsFine-if :
    {A : Type 0} (b : Bool) (x y : Result A) → IsFine x → IsFine y → IsFine (if b then x else y)
IsFine-if true x y h k = h
IsFine-if false x y h k = k

-- An operation behind the test for the case that it panics in.
IsFine-guarded :
    {A : Type 0} (b : Bool) (e : Error) (a : A)
    → IsFine (if b then err e else if b then panic else ok a)
IsFine-guarded true e a = IsFine-err e
IsFine-guarded false e a = IsFine-ok a

int_arithmetic-IsFine : (op : Operator) (a b : ℤ) → IsFine (int_arithmetic op a b)
unfolding int_arithmetic
int_arithmetic-IsFine add a b = IsFine-ok _
int_arithmetic-IsFine subtract a b = IsFine-ok _
int_arithmetic-IsFine multiply a b = IsFine-ok _
int_arithmetic-IsFine divide a b = IsFine-guarded (eq_ℤ b (pos 0)) division_by_zero _
int_arithmetic-IsFine modulo a b = IsFine-guarded (eq_ℤ b (pos 0)) division_by_zero _
int_arithmetic-IsFine _ a b = IsFine-err _

module _ ⦃fl : Float64⦄ where
  real_arithmetic-IsFine :
      (op : Operator) (a b : ℕ) → is_modulo op ≡ false → IsFine (real_arithmetic op a b)
  unfolding real_arithmetic
  real_arithmetic-IsFine add a b h = IsFine-ok _
  real_arithmetic-IsFine subtract a b h = IsFine-ok _
  real_arithmetic-IsFine multiply a b h = IsFine-ok _
  real_arithmetic-IsFine divide a b h = IsFine-if (fl.is_zero b) _ _ (IsFine-err _) (IsFine-ok _)
  real_arithmetic-IsFine modulo a b h = absurd (ground (arith, h))
  real_arithmetic-IsFine _ a b h = IsFine-err _

  promoted-IsFine :
      (op : Operator) (a b : Option ℕ) → is_modulo op ≡ false → IsFine (promoted op a b)
  unfolding promoted
  promoted-IsFine op none b h = IsFine-err _
  promoted-IsFine op (some a) none h = IsFine-err _
  promoted-IsFine op (some a) (some b) h = real_arithmetic-IsFine op a b h

  arithmetic-IsFine :
      (op : Operator) (l r : Value) → is_modulo op ≡ false → IsFine (eval_arithmetic op l r)
  unfolding eval_arithmetic
  arithmetic-IsFine op l r h = elim (Option-cases (both_integers l r)) [
    | inl mixed ↦ rw (mixed, eval_arithmetic) (promoted-IsFine op (to_float l) (to_float r) h)
    | inr (p, ints) ↦ rw (ints, eval_arithmetic) (int_arithmetic-IsFine op p.0 p.1)
  ]

  compared-IsFine : (l r : Value) (a b : Option ℕ) → IsFine (compared l r a b)
  unfolding compared
  compared-IsFine l r (some a) (some b) = IsFine-ok _
  compared-IsFine l r none none = IsFine-ok _
  compared-IsFine l r (some a) none = IsFine-err _
  compared-IsFine l r none (some b) = IsFine-err _

  comparison-IsFine : (op : Operator) (cmp : ℤ) → IsFine (comparison op cmp)
  unfolding comparison
  comparison-IsFine equal cmp = IsFine-ok _
  comparison-IsFine not_equal cmp = IsFine-ok _
  comparison-IsFine less_than cmp = IsFine-ok _
  comparison-IsFine less_than_or_eq cmp = IsFine-ok _
  comparison-IsFine greater_than cmp = IsFine-ok _
  comparison-IsFine greater_than_or_eq cmp = IsFine-ok _
  comparison-IsFine _ cmp = IsFine-err _

  eval_comparison-IsFine : (op : Operator) (l r : Value) → IsFine (eval_comparison op l r)
  unfolding eval_comparison
  eval_comparison-IsFine op l r =
      IsFine-bind (compared l r (to_float l) (to_float r)) (comparison op)
        (compared-IsFine l r (to_float l) (to_float r)) (comparison-IsFine op)

eval_logical-IsFine : (op : Operator) (l r : Value) → IsFine (eval_logical op l r)
unfolding eval_logical
eval_logical-IsFine and (bool a) (bool b) = IsFine-ok _
eval_logical-IsFine or (bool a) (bool b) = IsFine-ok _
eval_logical-IsFine op (bool a) (bool b) = IsFine-err _
eval_logical-IsFine op l r = IsFine-err _

-- A name that is found stands in the list.
find_column-lt :
    (columns : List (List ℕ)) (name : List ℕ) {i : ℕ}
    → find_column columns name ≡ some i
    → i < length columns
unfolding find_column
find_column-lt [] name h = ground (arith, h)
find_column-lt (c ∷ columns) name {i} h = elim (Option-cases (find_column columns name)) [
  | inl gone ↦ ground (arith, h, gone)
  | inr (j, there) ↦ let ih = find_column-lt columns name there in ground (arith, h, there, ih)
]

at_index-IsFine : {A : Type 0} (xs : List A) (i : ℕ) → i < length xs → IsFine (at_index xs i)
unfolding at_index
at_index-IsFine [] i h = absurd (omega arith)
at_index-IsFine (x ∷ xs) zero h = IsFine-ok _
at_index-IsFine (x ∷ xs) (suc i) h = at_index-IsFine xs i (omega arith)

module _ ⦃fl : Float64⦄ where
  apply_operator-IsFine :
      (op : Operator) (l r : Value) → is_modulo op ≡ false → IsFine (apply_operator op l r)
  unfolding apply_operator
  apply_operator-IsFine add l r h = arithmetic-IsFine add l r h
  apply_operator-IsFine subtract l r h = arithmetic-IsFine subtract l r h
  apply_operator-IsFine multiply l r h = arithmetic-IsFine multiply l r h
  apply_operator-IsFine divide l r h = arithmetic-IsFine divide l r h
  apply_operator-IsFine modulo l r h = arithmetic-IsFine modulo l r h
  apply_operator-IsFine and l r h = eval_logical-IsFine and l r
  apply_operator-IsFine or l r h = eval_logical-IsFine or l r
  apply_operator-IsFine op l r h = eval_comparison-IsFine op l r

  eval_binary-IsFine :
      (op : Operator) (l r : Value) → is_modulo op ≡ false → IsFine (eval_binary op l r)
  unfolding eval_binary
  eval_binary-IsFine op l r h =
      IsFine-if (is_null l || is_null r) _ _ (IsFine-ok null) (apply_operator-IsFine op l r h)

  eval_expr-IsFine :
      (columns : List (List ℕ)) (values args : List Value) (e : Expr)
      → length columns ≤ length values
      → has_modulo e ≡ false
      → IsFine (eval_expr columns values args e)
  unfolding eval_expr
  eval_expr-IsFine columns values args (int_literal n) h m = IsFine-ok _
  eval_expr-IsFine columns values args (real_literal x) h m = IsFine-ok _
  eval_expr-IsFine columns values args (blob_literal b) h m = IsFine-ok _
  eval_expr-IsFine columns values args (text_literal s) h m = IsFine-ok _
  eval_expr-IsFine columns values args (arg i) h m = elim (Option-cases (get_elem? args i)) [
    | inl gone ↦ rw (gone, eval_expr) (IsFine-err _)
    | inr (v, there) ↦ rw (there, eval_expr) (IsFine-ok _)
  ]
  eval_expr-IsFine columns values args (column name) h m =
      elim (Option-cases (find_column columns name)) [
        | inl gone ↦ rw (gone, eval_expr) (IsFine-err _)
        | inr (i, there) ↦
            let bound = find_column-lt columns name there in
            rw (there, eval_expr) (at_index-IsFine values i (omega arith))
      ]
  eval_expr-IsFine columns values args (binary l op r) h m =
      let split = no_modulo op (has_modulo l) (has_modulo r) m in
      IsFine-bind (eval_expr columns values args l) _
        (eval_expr-IsFine columns values args l h split.1)
        λ lv.
          IsFine-bind (eval_expr columns values args r) _
            (eval_expr-IsFine columns values args r h split.2)
            λ rv. eval_binary-IsFine op lv rv split.0
  eval_expr-IsFine columns values args (func name exprs) h m = IsFine-err _
  eval_expr-IsFine columns values args star h m = IsFine-err _

  -- Evaluation of an expression without `%` gives a value or an error, never a Go panic, for any arguments
  -- and any row that has a value for each of the columns.
  pub eval_expr-ne-panic :
      (columns : List (List ℕ)) (values args : List Value) (e : Expr)
      → length columns ≤ length values
      → has_modulo e ≡ false
      → (eval_expr columns values args e ≢ panic) × (eval_expr columns values args e ≢ out_of_fuel)
  eval_expr-ne-panic columns values args e h m =
      let fine = eval_expr-IsFine columns values args e h m in (fine.no_panic, fine.no_fuel)
