-- ===== src/Accumulator/Extrema.antt =====
-- internal/accumulator.go: MIN and MAX of a column of integers.
use dblock.Prelude.{
  ℕ, suc, ◌+◌, ◌-◌, ◌^◌, ◌<◌, ◌≤◌, ◌≡◌, ◌⊎◌, refl, ap, ◌∙◌, Bool, true, false, List, [], ◌∷◌, All,
  arith, Bool-cases, inl, inr, ltb, ltb→lt, le_of_ltb, if◌then◌else◌,
}
use dblock.Prelude.Int.{ℤ, pos, negsuc, Fits}
use dblock.Value.{Value, null, integer, real, text, bool, blob, time, uuid}
use dblock.Expr.{FuncName, min_func, max_func}
use dblock.Expr.Compare.{Float64, compare_values}
use dblock.Accumulator.{
  Accumulator, min_max_accumulator, new_accumulator, update, update_min_max, update_all, result,
  beats,
}
use dblock.Accumulator.Totals.{present}

-- The place of an `int64`, from below for MIN and from above for MAX.
abbrev pub depth : Bool → ℤ → ℕ
depth true (pos n) = 2 ^ 63 + n
depth true (negsuc n) = 2 ^ 63 - suc n
depth false (pos n) = 2 ^ 63 - n
depth false (negsuc n) = 2 ^ 63 + suc n

abbrev pub IsIntegerOrNull : Value → Type 0
IsIntegerOrNull null = Unit {0}
IsIntegerOrNull (integer n) = Fits (2 ^ 64) n
IsIntegerOrNull v = ⊥

-- The integer is at least as far to the front as the value.
abbrev pub InFront : Bool → ℤ → Value → Type 0
InFront is_min m (integer n) = depth is_min m ≤ depth is_min n
InFront is_min m v = Unit {0}

module _ ⦃fl : Float64⦄ where
  beats-depth :
      (is_min : Bool) (m n : ℤ)
      → Fits (2 ^ 64) m
      → Fits (2 ^ 64) n
      → beats is_min (integer m) (integer n) ≡ ltb (depth is_min m) (depth is_min n)
  unfolding compare_values
  beats-depth true (pos a) (pos b) h k = ground arith
  beats-depth true (pos a) (negsuc b) h k = ground arith
  beats-depth true (negsuc a) (pos b) h k = ground arith
  beats-depth true (negsuc a) (negsuc b) h k = ground arith
  beats-depth false (pos a) (pos b) h k = ground arith
  beats-depth false (pos a) (negsuc b) h k = ground arith
  beats-depth false (negsuc a) (pos b) h k = ground arith
  beats-depth false (negsuc a) (negsuc b) h k = ground arith

InFront-mono :
    (is_min : Bool) (m n : ℤ) (vs : List Value)
    → depth is_min m ≤ depth is_min n
    → All (InFront is_min n) vs
    → All (InFront is_min m) vs
InFront-mono is_min m n [] h k = tt
InFront-mono is_min m n (null ∷ vs) h k = (tt, InFront-mono is_min m n vs h k.1)
InFront-mono is_min m n (integer x ∷ vs) h k = (omega arith, InFront-mono is_min m n vs h k.1)
InFront-mono is_min m n (real x ∷ vs) h k = (tt, InFront-mono is_min m n vs h k.1)
InFront-mono is_min m n (text x ∷ vs) h k = (tt, InFront-mono is_min m n vs h k.1)
InFront-mono is_min m n (bool x ∷ vs) h k = (tt, InFront-mono is_min m n vs h k.1)
InFront-mono is_min m n (blob x ∷ vs) h k = (tt, InFront-mono is_min m n vs h k.1)
InFront-mono is_min m n (time x ∷ vs) h k = (tt, InFront-mono is_min m n vs h k.1)
InFront-mono is_min m n (uuid x ∷ vs) h k = (tt, InFront-mono is_min m n vs h k.1)

abbrev pub Occurs : ℤ → List Value → Type 0
Occurs m [] = ⊥
Occurs m (v ∷ vs) = (v ≡ integer m) ⊎ Occurs m vs

skip : (m : ℤ) (u v : Value) (vs : List Value) → Occurs m (u ∷ vs) → Occurs m (u ∷ v ∷ vs)
skip m u v vs (inl here) = inl here
skip m u v vs (inr there) = inr (inr there)

-- What the accumulator holds in the end.
pub record Best (is_min : Bool) (acc : Accumulator) (vs : List Value) : Type 0 where
  pub best : ℤ
  pub held : acc ≡ min_max_accumulator is_min (integer best)
  pub there : Occurs best vs
  pub front : All (InFront is_min best) vs

module _ ⦃fl : Float64⦄ (is_min : Bool) where
  later : ℤ → Bool → ℤ → List Value → Accumulator
  later n beaten m vs =
      update_all (min_max_accumulator is_min (integer (if beaten then n else m))) vs

  step :
      (m n : ℤ) (vs : List Value)
      → update_all (min_max_accumulator is_min (integer m)) (integer n ∷ vs)
        ≡ later n (beats is_min (integer n) (integer m)) m vs
  unfolding update update_min_max later
  step m n vs = elim (Bool-cases (beats is_min (integer n) (integer m))) [
    | inl better ↦ rw better
    | inr worse ↦ rw worse
  ]

  extremum_from :
      (m : ℤ) (vs : List Value)
      → Fits (2 ^ 64) m
      → All IsIntegerOrNull vs
      → Best is_min (update_all (min_max_accumulator is_min (integer m)) vs) (integer m ∷ vs)
  unfolding update update_min_max later
  extremum_from m [] h k = record {
    best = m;
    held = refl;
    there = inl refl;
    front = (omega arith, tt);
  }
  extremum_from m (null ∷ vs) h k =
      let rest = extremum_from m vs h k.1 in
      record {
        best = rest.best;
        held = rest.held;
        there = skip rest.best (integer m) null vs rest.there;
        front = (rest.front.0, (tt, rest.front.1));
      }
  extremum_from m (integer n ∷ vs) h k =
      let test = beats-depth is_min n m k.0 h in
      elim (Bool-cases (ltb (depth is_min n) (depth is_min m))) [
        | inl better ↦
            let rest = extremum_from n vs k.0 k.1 in
            let lt = ltb→lt (depth is_min n) (depth is_min m) better in
            record {
              best = rest.best;
              held = step m n vs ∙ ap (λ b. later n b m vs) (test ∙ better) ∙ rest.held;
              there = inr rest.there;
              front = (omega (arith, rest.front.0), rest.front);
            }
        | inr worse ↦
            let rest = extremum_from m vs h k.1 in
            let le = le_of_ltb (depth is_min n) (depth is_min m) worse in
            record {
              best = rest.best;
              held = step m n vs ∙ ap (λ b. later n b m vs) (test ∙ worse) ∙ rest.held;
              there = skip rest.best (integer m) (integer n) vs rest.there;
              front = (rest.front.0, (omega (arith, rest.front.0), rest.front.1));
            }
      ]
  extremum_from m (real x ∷ vs) h k = absurd k.0
  extremum_from m (text x ∷ vs) h k = absurd k.0
  extremum_from m (bool x ∷ vs) h k = absurd k.0
  extremum_from m (blob x ∷ vs) h k = absurd k.0
  extremum_from m (time x ∷ vs) h k = absurd k.0
  extremum_from m (uuid x ∷ vs) h k = absurd k.0

  first_of :
      (vs : List Value)
      → All IsIntegerOrNull vs
      → 0 < present vs
      → Best is_min (update_all (min_max_accumulator is_min null) vs) vs
  unfolding update update_min_max
  first_of [] h has = absurd (omega arith)
  first_of (null ∷ vs) h has =
      let rest = first_of vs h.1 has in
      record {
        best = rest.best;
        held = rest.held;
        there = inr rest.there;
        front = (tt, rest.front);
      }
  first_of (integer n ∷ vs) h has = extremum_from n vs h.0 h.1
  first_of (real x ∷ vs) h has = absurd h.0
  first_of (text x ∷ vs) h has = absurd h.0
  first_of (bool x ∷ vs) h has = absurd h.0
  first_of (blob x ∷ vs) h has = absurd h.0
  first_of (time x ∷ vs) h has = absurd h.0
  first_of (uuid x ∷ vs) h has = absurd h.0

abbrev pub extremum_func : Bool → FuncName
extremum_func true = min_func
extremum_func false = max_func

-- MIN and MAX of a column of 64-bit integers and NULLs, with an integer in it: the result is an integer
-- of the column that is not above, for MAX not below, any integer of it.
pub result-min_max :
    ⦃fl : Float64⦄ (is_min : Bool) (vs : List Value)
    → All IsIntegerOrNull vs
    → 0 < present vs
    → (m : ℤ) × (result (update_all (new_accumulator (extremum_func is_min)) vs) ≡ integer m)
      × Occurs m vs
      × All (InFront is_min m) vs
unfolding new_accumulator result
result-min_max true vs h has =
    let b = first_of true vs h has in (b.best, ap result b.held, b.there, b.front)
result-min_max false vs h has =
    let b = first_of false vs h has in (b.best, ap result b.held, b.there, b.front)
