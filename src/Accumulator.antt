-- ===== src/Accumulator.antt =====
-- internal/accumulator.go: the aggregate functions. Go's `nil` in a field is the value NULL.
pub mod Totals
pub mod Extrema
use dblock.Prelude.{
  ℕ, ◌+◌, Bool, true, false, not, ◌&&◌, ◌||◌, Option, none, some, List, [], ◌∷◌, if◌then◌else◌,
  ◌==◌,
}
use dblock.Prelude.Int.{ℤ, pos, ◌+ℤ◌, wrap, ltb_ℤ}
use dblock.Value.{Value, null, integer, real}
use dblock.Expr.{
  FuncName, count_func, max_func, min_func, sum_func, avg_func, to_float, both_integers, is_null,
}
use dblock.Expr.Compare.{Float64, compare_values}

pub data Accumulator : Type 0 where
  count_accumulator : ℤ → Accumulator
  min_max_accumulator : Bool → Value → Accumulator
  sum_accumulator : Value → Accumulator
  avg_accumulator : ℕ → ℤ → Accumulator

unfoldable pub new_accumulator : FuncName → Accumulator
new_accumulator count_func = count_accumulator (pos 0)
new_accumulator min_func = min_max_accumulator true null
new_accumulator max_func = min_max_accumulator false null
new_accumulator sum_func = sum_accumulator null
new_accumulator avg_func = avg_accumulator 0 (pos 0)

module _ ⦃fl : Float64⦄ where
  add_floats : Option ℕ → Option ℕ → Option Value
  add_floats (some a) (some b) = some (real (fl.add a b))
  add_floats _ _ = none

  unfoldable pub add_numeric : Value → Value → Option Value
  unfolding add_floats
  add_numeric a b = elim (both_integers a b) [
    | some (x, y) ↦ some (integer (wrap (x +ℤ y)))
    | none ↦ add_floats (to_float a) (to_float b)
  ]

  -- `(a.isMin && cmp < 0) || (!a.isMin && cmp > 0)`
  abbrev pub beats : Bool → Value → Value → Bool
  beats is_min val best =
      let cmp = compare_values val best in
      (is_min && ltb_ℤ cmp (pos 0)) || (not is_min && ltb_ℤ (pos 0) cmp)

  unfoldable pub update_min_max : Bool → Value → Value → Accumulator × Bool
  update_min_max is_min best val =
      if is_null val
      then (min_max_accumulator is_min best, false)
      else if is_null best
      then (min_max_accumulator is_min val, true)
      else if beats is_min val best
      then (min_max_accumulator is_min val, true)
      else (min_max_accumulator is_min best, false)

  added : Value → Option Value → Accumulator × Bool
  added sum none = (sum_accumulator sum, false)
  added sum (some total) = (sum_accumulator total, true)

  unfoldable pub update_sum : Value → Value → Accumulator × Bool
  unfolding added
  update_sum sum val = elim (to_float val) [
    | none ↦ (sum_accumulator sum, false)
    | some _ ↦ if is_null sum then (sum_accumulator val, true) else added sum (add_numeric sum val)
  ]

  unfoldable pub update_avg : ℕ → ℤ → Value → Accumulator × Bool
  update_avg total count val = elim (to_float val) [
    | none ↦ (avg_accumulator total count, false)
    | some n ↦ (avg_accumulator (fl.add total n) (wrap (count +ℤ pos 1)), true)
  ]

  unfoldable pub update : Accumulator → Value → Accumulator × Bool
  update (count_accumulator count) val =
      if is_null val
      then (count_accumulator count, false)
      else (count_accumulator (wrap (count +ℤ pos 1)), true)
  update (min_max_accumulator is_min best) val = update_min_max is_min best val
  update (sum_accumulator sum) val = update_sum sum val
  update (avg_accumulator total count) val = update_avg total count val

  unfoldable pub result : Accumulator → Value
  result (count_accumulator count) = integer count
  result (min_max_accumulator is_min best) = best
  result (sum_accumulator sum) = if is_null sum then real 0 else sum
  result (avg_accumulator total (pos n)) =
      if n == 0 then null else real (fl.divide total (fl.of_int (pos n)))
  result (avg_accumulator total count) = real (fl.divide total (fl.of_int count))

  -- The calls for a list of values, one after the other.
  abbrev pub update_all : Accumulator → List Value → Accumulator
  update_all acc [] = acc
  update_all acc (v ∷ vs) = update_all (update acc v).0 vs
