-- ===== src/Expr/Complement.antt =====
-- internal/evalExpr.go: each comparison and the one that holds where it fails.
use dblock.Prelude.{◌≡◌, refl, Bool, true, false, not, ◌||◌, if◌then◌else◌}
use dblock.Prelude.Int.{ℤ}
use dblock.Prelude.Fault.{Result, ok, err, panic, out_of_fuel}
use dblock.Prelude.Outcome.{◌>>=◌}
use dblock.Value.{Value, null, bool}
use dblock.Expr.Compare.{Float64}
use dblock.Expr.{
  Operator, equal, not_equal, less_than, less_than_or_eq, greater_than, greater_than_or_eq,
  comparison, compared, to_float, eval_comparison, eval_binary, apply_operator, is_null,
}

-- The comparisons in their three pairs.
pub data Complement : Operator → Operator → Type 0 where
  equality : Complement equal not_equal
  less : Complement less_than greater_than_or_eq
  greater : Complement greater_than less_than_or_eq

-- The value negated, where it is a truth value.
abbrev pub negated : Value → Value
negated (bool b) = bool (not b)
negated v = v

abbrev pub negated_result : Result Value → Result Value
negated_result r = r >>= λ v. ok (negated v)

comparison-Complement :
    {op co : Operator}
    → Complement op co
    → (cmp : ℤ) → comparison co cmp ≡ negated_result (comparison op cmp)
unfolding comparison
comparison-Complement equality cmp = refl
comparison-Complement less cmp = refl
comparison-Complement greater cmp = refl

compared-Complement :
    {op co : Operator}
    → Complement op co
    → (r : Result ℤ) → (r >>= comparison co) ≡ negated_result (r >>= comparison op)
compared-Complement c (ok cmp) = comparison-Complement c cmp
compared-Complement c (err e) = refl
compared-Complement c panic = refl
compared-Complement c out_of_fuel = refl

apply-Complement :
    ⦃fl : Float64⦄ {op co : Operator}
    → Complement op co
    → (l r : Value) → apply_operator co l r ≡ negated_result (apply_operator op l r)
unfolding apply_operator eval_comparison
apply-Complement equality l r =
    compared-Complement equality (compared l r (to_float l) (to_float r))
apply-Complement less l r = compared-Complement less (compared l r (to_float l) (to_float r))
apply-Complement greater l r = compared-Complement greater (compared l r (to_float l) (to_float r))

either :
    (missing : Bool) (x y : Result Value)
    → x ≡ negated_result y
    → (if missing then ok null else x) ≡ negated_result (if missing then ok null else y)
either true x y h = refl
either false x y h = h

-- For any two values, `!=` gives the negation of what `=` gives, `>=` of `<`, and `<=` of `>`. Where one
-- gives NULL or an error, the other gives the same.
pub eval_binary-Complement :
    ⦃fl : Float64⦄ {op co : Operator} (c : Complement op co) (l r : Value)
    → eval_binary co l r ≡ negated_result (eval_binary op l r)
unfolding eval_binary
eval_binary-Complement c l r =
    either (is_null l || is_null r) (apply_operator _ l r) (apply_operator _ l r)
      (apply-Complement c l r)
