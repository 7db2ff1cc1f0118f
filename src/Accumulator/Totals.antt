-- ===== src/Accumulator/Totals.antt =====
-- internal/accumulator.go: what the aggregate functions compute over a column.
use dblock.Prelude.{
  ℕ, suc, ◌+◌, ◌^◌, ◌<◌, ◌≡◌, ◌*◌, refl, ap, sym, ◌∙◌, Bool, true, false, List, [], ◌∷◌, All, arith,
  if◌then◌else◌,
}
use dblock.Prelude.Int.{ℤ, pos, negsuc, ◌+ℤ◌, wrap, Fits, of_word-to_word}
use dblock.Value.{Value, null, integer, real, text, bool, blob, time, uuid}
use dblock.Expr.{count_func, sum_func, to_float}
use dblock.Expr.Compare.{Float64}
use dblock.Accumulator.{
  count_accumulator, sum_accumulator, new_accumulator, update, update_sum, add_numeric, update_all,
  result,
}

wrap-add : (a b : ℤ) → wrap (wrap a +ℤ b) ≡ wrap (a +ℤ b)
wrap-add (pos a) (pos b) = ground arith
wrap-add (pos a) (negsuc b) = ground arith
wrap-add (negsuc a) (pos b) = ground arith
wrap-add (negsuc a) (negsuc b) = ground arith

add_assoc_ℤ : (a b c : ℤ) → (a +ℤ b) +ℤ c ≡ a +ℤ (b +ℤ c)
add_assoc_ℤ (pos a) (pos b) (pos c) = ground arith
add_assoc_ℤ (pos a) (pos b) (negsuc c) = ground arith
add_assoc_ℤ (pos a) (negsuc b) (pos c) = ground arith
add_assoc_ℤ (pos a) (negsuc b) (negsuc c) = ground arith
add_assoc_ℤ (negsuc a) (pos b) (pos c) = ground arith
add_assoc_ℤ (negsuc a) (pos b) (negsuc c) = ground arith
add_assoc_ℤ (negsuc a) (negsuc b) (pos c) = ground arith
add_assoc_ℤ (negsuc a) (negsuc b) (negsuc c) = ground arith

add_zero_ℤ : (a : ℤ) → a +ℤ pos 0 ≡ a
add_zero_ℤ (pos a) = ground arith
add_zero_ℤ (negsuc a) = ground arith

wrap-Fits : (a : ℤ) → Fits (2 ^ 64) (wrap a)
wrap-Fits (pos a) = ground arith
wrap-Fits (negsuc a) = ground arith

-- The integers of a column, which may hold other values but no floats.
abbrev pub IsWhole : Value → Type 0
IsWhole (integer n) = Fits (2 ^ 64) n
IsWhole (real x) = ⊥
IsWhole v = Unit {0}

abbrev pub total : List Value → ℤ
total [] = pos 0
total (integer n ∷ vs) = n +ℤ total vs
total (v ∷ vs) = total vs

abbrev pub has_integer : List Value → Bool
has_integer [] = false
has_integer (integer n ∷ vs) = true
has_integer (v ∷ vs) = has_integer vs

-- NULL is not counted.
abbrev pub present : List Value → ℕ
present [] = 0
present (null ∷ vs) = present vs
present (v ∷ vs) = suc (present vs)

module _ ⦃fl : Float64⦄ where
  sum_onto :
      (s : ℤ) (vs : List Value)
      → Fits (2 ^ 64) s
      → All IsWhole vs
      → update_all (sum_accumulator (integer s)) vs
        ≡ sum_accumulator (integer (wrap (s +ℤ total vs)))
  unfolding update update_sum add_numeric to_float
  sum_onto s [] h k =
      ap (λ n. sum_accumulator (integer n))
        (sym (ap wrap (add_zero_ℤ s) ∙ of_word-to_word (2 ^ 64) s h))
  sum_onto s (integer n ∷ vs) h k =
      sum_onto (wrap (s +ℤ n)) vs (wrap-Fits (s +ℤ n)) k.1
      ∙ ap (λ m. sum_accumulator (integer m))
          (wrap-add (s +ℤ n) (total vs) ∙ ap wrap (add_assoc_ℤ s n (total vs)))
  sum_onto s (real x ∷ vs) h k = absurd k.0
  sum_onto s (null ∷ vs) h k = sum_onto s vs h k.1
  sum_onto s (text b ∷ vs) h k = sum_onto s vs h k.1
  sum_onto s (bool b ∷ vs) h k = sum_onto s vs h k.1
  sum_onto s (blob b ∷ vs) h k = sum_onto s vs h k.1
  sum_onto s (time t ∷ vs) h k = sum_onto s vs h k.1
  sum_onto s (uuid b ∷ vs) h k = sum_onto s vs h k.1

  counted :
      (n p : ℕ) (vs : List Value)
      → p ≡ present vs
      → (n + suc p) * 2 < 2 ^ 64
      → update_all (count_accumulator (pos (n + 1))) vs ≡ count_accumulator (pos (n + 1 + p))
      → update_all (count_accumulator (wrap (pos n +ℤ pos 1))) vs
        ≡ count_accumulator (pos (n + suc p))
  counted n p vs e h ih =
      let one_more : wrap (pos n +ℤ pos 1) ≡ pos (n + 1) = ground arith in
      let shifted : n + 1 + p ≡ n + suc p = omega arith in rw one_more (rw shifted at ih)

  count_onto :
      (n : ℕ) (vs : List Value)
      → (n + present vs) * 2 < 2 ^ 64
      → update_all (count_accumulator (pos n)) vs ≡ count_accumulator (pos (n + present vs))
  unfolding update
  count_onto n [] h = ap (λ m. count_accumulator (pos m)) (omega arith)
  count_onto n (null ∷ vs) h = count_onto n vs h
  count_onto n (integer v ∷ vs) h =
      counted n (present vs) vs refl h (count_onto (n + 1) vs (omega arith))
  count_onto n (real v ∷ vs) h =
      counted n (present vs) vs refl h (count_onto (n + 1) vs (omega arith))
  count_onto n (text v ∷ vs) h =
      counted n (present vs) vs refl h (count_onto (n + 1) vs (omega arith))
  count_onto n (bool v ∷ vs) h =
      counted n (present vs) vs refl h (count_onto (n + 1) vs (omega arith))
  count_onto n (blob v ∷ vs) h =
      counted n (present vs) vs refl h (count_onto (n + 1) vs (omega arith))
  count_onto n (time v ∷ vs) h =
      counted n (present vs) vs refl h (count_onto (n + 1) vs (omega arith))
  count_onto n (uuid v ∷ vs) h =
      counted n (present vs) vs refl h (count_onto (n + 1) vs (omega arith))

  -- COUNT of a column is the number of its values that are not NULL, below 2 ^ 63.
  pub result-count :
      (vs : List Value)
      → present vs * 2 < 2 ^ 64
      → result (update_all (new_accumulator count_func) vs) ≡ integer (pos (present vs))
  unfolding new_accumulator result
  result-count vs h = rw (count_onto 0 vs (omega arith)) (ap (λ n. integer (pos n)) (omega arith))

  -- SUM of a column without floats is the sum of its integers, wrapped to 64 bits, whatever the sums on the
  -- way are; without any integer it is the float 0. Values of other types are passed over.
  pub result-sum :
      (vs : List Value)
      → All IsWhole vs
      → result (update_all (new_accumulator sum_func) vs)
        ≡ (if has_integer vs then integer (wrap (total vs)) else real 0)
  unfolding new_accumulator result update update_sum to_float
  result-sum [] h = refl
  result-sum (integer n ∷ vs) h = rw (sum_onto n vs h.0 h.1)
  result-sum (real x ∷ vs) h = absurd h.0
  result-sum (null ∷ vs) h = result-sum vs h.1
  result-sum (text b ∷ vs) h = result-sum vs h.1
  result-sum (bool b ∷ vs) h = result-sum vs h.1
  result-sum (blob b ∷ vs) h = result-sum vs h.1
  result-sum (time t ∷ vs) h = result-sum vs h.1
  result-sum (uuid b ∷ vs) h = result-sum vs h.1
