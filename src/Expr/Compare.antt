-- ===== src/Expr/Compare.antt =====
-- internal/orderscanner.go: `compareValues`, the order of values of one type.
use dblock.Prelude.{ℕ, Bool, ◌&&◌, ◌||◌, not, ltb, if◌then◌else◌}
use dblock.Prelude.Int.{ℤ, pos, negsuc, ltb_ℤ, eq_ℤ}
use dblock.Btree.{key_compare}
use dblock.Value.{Time, Value, null, integer, real, text, bool, blob, time, uuid}

-- Go's operations on `float64`, on IEEE bits.
pub record Float64 : Type 0 where
  pub of_int : ℤ → ℕ
  pub to_int : ℕ → ℤ
  pub lt : ℕ → ℕ → Bool
  pub is_zero : ℕ → Bool
  pub add : ℕ → ℕ → ℕ
  pub subtract : ℕ → ℕ → ℕ
  pub multiply : ℕ → ℕ → ℕ
  pub divide : ℕ → ℕ → ℕ

-- `av.Before(bv)`, of the instants.
unfoldable pub before : Time → Time → Bool
before a b = ltb_ℤ a.unix b.unix || (eq_ℤ a.unix b.unix && ltb a.nanosecond b.nanosecond)

-- -1, 1 or 0, by two tests.
abbrev pub by_tests : Bool → Bool → ℤ
by_tests less greater = if less then negsuc 0 else if greater then pos 1 else pos 0

-- `nil` stands in front of everything, and values of different types are taken for equal.
unfoldable pub compare_values : ⦃fl : Float64⦄ → Value → Value → ℤ
compare_values null null = pos 0
compare_values null _ = negsuc 0
compare_values _ null = pos 1
compare_values (text a) (text b) = key_compare a b
compare_values (integer a) (integer b) = by_tests (ltb_ℤ a b) (ltb_ℤ b a)
compare_values ⦃fl⦄ (real a) (real b) = by_tests (fl.lt a b) (fl.lt b a)
compare_values (bool a) (bool b) = by_tests (not a && b) (a && not b)
compare_values (blob a) (blob b) = key_compare a b
compare_values (time a) (time b) = by_tests (before a b) (before b a)
compare_values (uuid a) (uuid b) = key_compare a b
compare_values _ _ = pos 0
