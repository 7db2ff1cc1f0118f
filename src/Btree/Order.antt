-- ===== src/Btree/Order.antt =====
-- internal/btree.go: the order of the keys of rows.
use native.Mathlib.Nat.{mod-eq_of_lt, pow-suc}
use mathlib.Core.List.{reverse-append}
use dblock.Prelude.{
  ℕ, zero, suc, ◌/◌, ◌%◌, ◌^◌, ◌<◌, ◌≡◌, refl, sym, ◌∙◌, List, [], ◌∷◌, ◌++◌, arith, length, ltb,
  if◌then◌else◌, inl, inr, Bool-cases,
}
use dblock.Prelude.Int.{ℤ, pos, negsuc}
use dblock.Prelude.Bytes.{le_bytes, be_bytes, length-be_bytes}
use dblock.Btree.{key_compare, key_lt}
use dblock.Btree.Keys.{encode_key}

-- The order of two numbers, as `bytes.Compare` gives it.
abbrev three_way : ℕ → ℕ → ℤ
three_way a b = if ltb a b then negsuc 0 else if ltb b a then pos 1 else pos 0

-- The second comparison decides where the first finds no difference.
abbrev then_compare : ℤ → ℤ → ℤ
then_compare (pos zero) r = r
then_compare (pos (suc n)) r = pos (suc n)
then_compare (negsuc n) r = negsuc n

key_compare-snoc :
    (xs ys : List ℕ) (x y : ℕ)
    → length xs ≡ length ys
    → key_compare (xs ++ (x ∷ [])) (ys ++ (y ∷ []))
      ≡ then_compare (key_compare xs ys) (three_way x y)
unfolding key_compare
key_compare-snoc [] [] x y h = refl
key_compare-snoc [] (b ∷ ys) x y h = absurd (omega (arith, h))
key_compare-snoc (a ∷ xs) [] x y h = absurd (omega (arith, h))
key_compare-snoc (a ∷ xs) (b ∷ ys) x y h = elim (Bool-cases (ltb a b)) [
  | inl lt ↦ rw lt refl
  | inr ge ↦ elim (Bool-cases (ltb b a)) [
    | inl gt ↦ rw (ge, gt) refl
    | inr le ↦ rw (ge, le) (key_compare-snoc xs ys x y (omega (arith, h)))
  ]
]

three_way-digits :
    (a b : ℕ)
    → then_compare (three_way (a / 256) (b / 256)) (three_way (a % 256) (b % 256)) ≡ three_way a b
three_way-digits a b = ground arith

be_bytes-suc : (k v : ℕ) → be_bytes (suc k) v ≡ be_bytes k (v / 256) ++ (v % 256 ∷ [])
unfolding be_bytes le_bytes
be_bytes-suc k v = reverse-append (v % 256 ∷ []) (le_bytes k (v / 256))

key_compare-be_bytes :
    (k a b : ℕ)
    → a < 256 ^ k
    → b < 256 ^ k
    → key_compare (be_bytes k a) (be_bytes k b) ≡ three_way a b
unfolding key_compare be_bytes
key_compare-be_bytes zero a b p q = ground (arith, p, q)
key_compare-be_bytes (suc k) a b p q =
    rw (be_bytes-suc k a, be_bytes-suc k b)
      (key_compare-snoc (be_bytes k (a / 256)) (be_bytes k (b / 256)) (a % 256) (b % 256)
          (length-be_bytes k _ ∙ sym (length-be_bytes k _))
        ∙ rw
            (key_compare-be_bytes k (a / 256) (b / 256) (omega (arith, pow-suc 256 k))
              (omega (arith, pow-suc 256 k)))
            (three_way-digits a b))

-- The key of one row comes before the key of another exactly if its id is the smaller one, for ids
-- from 0 to 2^63 - 1.
pub key_lt-encode_key :
    (a b : ℕ) → a < 2 ^ 63 → b < 2 ^ 63 → key_lt (encode_key (pos a)) (encode_key (pos b)) ≡ ltb a b
unfolding encode_key
key_lt-encode_key a b p q =
    let low : a % 2 ^ 64 ≡ a = mod-eq_of_lt (omega (arith, p)) in
    let low' : b % 2 ^ 64 ≡ b = mod-eq_of_lt (omega (arith, q)) in
    rw (low, low', key_compare-be_bytes 8 a b (omega (arith, p)) (omega (arith, q))) (ground arith)
