-- ===== src/Expr/Arithmetic.antt =====
-- internal/evalExpr.go: integer arithmetic against that of the integers.
use dblock.Prelude.{◌^◌, ◌≡◌, ap, ◌∙◌, Bool, true, false, Option, none, some, arith, if◌then◌else◌}
use mathlib.Core.Option.{some-injective}
use dblock.Prelude.Int.{ℤ, pos, Fits, ◌+ℤ◌, ◌-ℤ◌, ◌*ℤ◌, quot_ℤ, rem_ℤ, wrap, eq_ℤ, of_word-to_word}
use dblock.Prelude.Fault.{ok, err, panic, division_by_zero}
use dblock.Value.{integer}
use dblock.Expr.Compare.{Float64}
use dblock.Expr.{
  Operator, add, subtract, multiply, divide, modulo, int_arithmetic, eval_arithmetic, eval_binary,
  apply_operator,
}

-- The result over the integers, of the operators that have one.
abbrev pub exact : Operator → ℤ → ℤ → Option ℤ
exact add a b = some (a +ℤ b)
exact subtract a b = some (a -ℤ b)
exact multiply a b = some (a *ℤ b)
exact divide a b = if eq_ℤ b (pos 0) then none else some (quot_ℤ a b)
exact modulo a b = if eq_ℤ b (pos 0) then none else some (rem_ℤ a b)
exact _ a b = none

kept : (z r : ℤ) → some z ≡ some r → Fits (2 ^ 64) r → ok (integer (wrap z)) ≡ ok (integer r)
kept z r e fits =
    ap (λ w. ok (integer (wrap w))) (some-injective _ _ e)
    ∙ ap (λ w. ok (integer w)) (of_word-to_word (2 ^ 64) r fits)

-- Behind the test of the divisor.
kept_divided :
    (zero : Bool) (z r : ℤ)
    → (if zero then none else some z) ≡ some r
    → Fits (2 ^ 64) r
    → (if zero then err division_by_zero else if zero then panic else ok (integer (wrap z)))
      ≡ ok (integer r)
kept_divided true z r e fits = absurd (ground (arith, e))
kept_divided false z r e fits = kept z r e fits

-- The value of `+`, `-`, `*`, `/` and `%` on two integers is the result over the integers, with the quotient
-- rounded towards zero, wherever the divisor is not zero and the result is an `int64`.
pub eval_binary-exact :
    ⦃fl : Float64⦄ (op : Operator) (a b r : ℤ)
    → exact op a b ≡ some r
    → Fits (2 ^ 64) r
    → eval_binary op (integer a) (integer b) ≡ ok (integer r)
unfolding eval_binary apply_operator eval_arithmetic int_arithmetic
eval_binary-exact add a b r e fits = kept (a +ℤ b) r e fits
eval_binary-exact subtract a b r e fits = kept (a -ℤ b) r e fits
eval_binary-exact multiply a b r e fits = kept (a *ℤ b) r e fits
eval_binary-exact divide a b r e fits = kept_divided (eq_ℤ b (pos 0)) (quot_ℤ a b) r e fits
eval_binary-exact modulo a b r e fits = kept_divided (eq_ℤ b (pos 0)) (rem_ℤ a b) r e fits
eval_binary-exact _ a b r e fits = absurd (ground (arith, e))
