-- ===== src/Examples/Floats.antt =====
-- Operations in place of those of floats: the bits are those of a whole number.
use dblock.Prelude.{◌+◌, ◌-◌, ◌*◌, ◌/◌, ltb, ◌==◌}
use dblock.Prelude.Int.{pos, pos_part}
use dblock.Expr.Compare.{Float64}

instance abbrev pub whole_floats : Float64
whole_floats = record {
  of_int = pos_part;
  to_int = pos;
  lt = ltb;
  is_zero = λ n. n == 0;
  add = λ a b. a + b;
  subtract = λ a b. a - b;
  multiply = λ a b. a * b;
  divide = λ a b. a / b;
}
