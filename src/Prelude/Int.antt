-- ===== src/Prelude/Int.antt =====
-- Go's signed integers. An `int64` is a ℤ in the range of its width; `to_word` and `of_word` are the
-- conversions to and from the unsigned word of the same width, in two's complement.
use dblock.Prelude.{
  not, ◌^◌, ◌==◌, ◌/◌, ℕ, suc, ◌+◌, ◌-◌, ◌*◌, ◌%◌, ◌≤◌, ◌<◌, ◌≡◌, Bool, arith, ltb, leb,
  if◌then◌else◌,
}
use native.Mathlib.Nat.{mod-eq_of_lt}

-- `negsuc n` is -(n + 1).
pub data ℤ : Type 0 where
  pos : ℕ → ℤ
  negsuc : ℕ → ℤ

abbrev pub pos_part : ℤ → ℕ
pos_part (pos n) = n
pos_part (negsuc n) = 0

abbrev pub neg_part : ℤ → ℕ
neg_part (pos n) = 0
neg_part (negsuc n) = suc n

-- a - b, as an integer.
abbrev pub sub_ℕ : ℕ → ℕ → ℤ
sub_ℕ a b = if leb b a then pos (a - b) else negsuc (b - a - 1)

infixl 65 ◌+ℤ◌
abbrev pub ◌+ℤ◌ : ℤ → ℤ → ℤ
a +ℤ b = sub_ℕ (pos_part a + pos_part b) (neg_part a + neg_part b)

abbrev pub ltb_ℤ : ℤ → ℤ → Bool
ltb_ℤ a b = ltb (pos_part a + neg_part b) (pos_part b + neg_part a)

-- `uint64(v)` for the width with `m` values.
abbrev pub to_word : ℕ → ℤ → ℕ
to_word m (pos n) = n % m
to_word m (negsuc n) = m - 1 - n % m

-- `int64(v)` for the width with `m` values.
abbrev pub of_word : ℕ → ℕ → ℤ
of_word m u = if ltb (u * 2) m then pos u else negsuc (m - 1 - u)

-- The integer is a value of the signed type with `m` values.
abbrev pub Fits : ℕ → ℤ → Type 0
Fits m (pos n) = n * 2 < m
Fits m (negsuc n) = n * 2 + 2 ≤ m

-- A signed value comes back from its two's complement.
pub of_word-to_word : (m : ℕ) (z : ℤ) → Fits m z → of_word m (to_word m z) ≡ z
of_word-to_word m (pos n) h = let e : n % m ≡ n = mod-eq_of_lt (omega arith) in ground arith
of_word-to_word m (negsuc n) h = let e : n % m ≡ n = mod-eq_of_lt (omega arith) in ground arith

pub to_word-lt : (m : ℕ) (z : ℤ) → 0 < m → to_word m z < m
to_word-lt m (pos n) h = omega arith
to_word-lt m (negsuc n) h = omega arith

-- The sign of a product is that of the signs; Go's `/` rounds towards zero, and `%` has the sign of the
-- dividend. Division by zero is the caller's test.
abbrev pub neg_ℤ : ℤ → ℤ
neg_ℤ a = sub_ℕ (neg_part a) (pos_part a)

infixl 65 ◌-ℤ◌
abbrev pub ◌-ℤ◌ : ℤ → ℤ → ℤ
a -ℤ b = sub_ℕ (pos_part a + neg_part b) (neg_part a + pos_part b)

infixl 70 ◌*ℤ◌
abbrev pub ◌*ℤ◌ : ℤ → ℤ → ℤ
a *ℤ b =
    sub_ℕ (pos_part a * pos_part b + neg_part a * neg_part b)
      (pos_part a * neg_part b + neg_part a * pos_part b)

abbrev pub magnitude : ℤ → ℕ
magnitude a = pos_part a + neg_part a

abbrev pub is_negative : ℤ → Bool
is_negative a = ltb 0 (neg_part a)

abbrev pub signed : Bool → ℕ → ℤ
signed negative n = if negative then sub_ℕ 0 n else pos n

abbrev pub quot_ℤ : ℤ → ℤ → ℤ
quot_ℤ a b =
    signed (if is_negative a then not (is_negative b) else is_negative b)
      (magnitude a / magnitude b)

abbrev pub rem_ℤ : ℤ → ℤ → ℤ
rem_ℤ a b = signed (is_negative a) (magnitude a % magnitude b)

-- The result of `int64` arithmetic.
abbrev pub wrap : ℤ → ℤ
wrap z = of_word (2 ^ 64) (to_word (2 ^ 64) z)

abbrev pub eq_ℤ : ℤ → ℤ → Bool
eq_ℤ a b = (pos_part a + neg_part b) == (pos_part b + neg_part a)
