-- ===== src/Btree/Search.antt =====
-- internal/btree.go: where `findLeaf`, `Search` and `insertIntoLeaf` place a key among those of a page.
use mathlib.Core.Bool.{false≢true}
use dblock.Prelude.{
  ℕ, zero, suc, ◌+◌, ◌/◌, ◌≤◌, ◌<◌, ◌≡◌, sym, refl, ◌∙◌, List, [], ◌∷◌, length, not, Bool, true,
  false, ltb, leb, arith, inl, inr, Bool-cases, ltb→lt, le_of_ltb, leb→le, lt_of_leb,
}
use mathlib.Core.Path.{subst}
use dblock.Btree.{search_loop, search, key_compare, key_lt, key_at, key_index, child_index}

-- Once the test holds, it holds from there on, up to `n`.
abbrev IsMonotone : ℕ → (ℕ → Bool) → Type 0
IsMonotone n f = (a b : ℕ) → a ≤ b → b < n → f a ≡ true → f b ≡ true

-- The test fails before `r` and holds from `r` up to `n`.
record IsFirst (f : ℕ → Bool) (n r : ℕ) : Type 0 where
  below : (k : ℕ) → k < r → f k ≡ false
  above : (k : ℕ) → r ≤ k → k < n → f k ≡ true
  within : r ≤ n

module _ (f : ℕ → Bool) (n : ℕ) (mono : IsMonotone n f) where
  fails_before : (h k : ℕ) → k ≤ h → h < n → f h ≡ false → f k ≡ false
  fails_before h k le small e = elim (Bool-cases (f k)) [
    | inl holds ↦ absurd (false≢true (sym e ∙ mono k h le small holds))
    | inr fails ↦ fails
  ]

  loop-IsFirst :
      (fuel i j : ℕ)
      → i ≤ j
      → j ≤ i + fuel
      → j ≤ n
      → ((k : ℕ) → k < i → f k ≡ false)
      → ((k : ℕ) → j ≤ k → k < n → f k ≡ true)
      → IsFirst f n (search_loop fuel f i j)
  unfolding search_loop
  loop-IsFirst zero i j le fuel small below above = record {
    below = below;
    above = λ k h. above k (omega arith);
    within = omega arith;
  }
  loop-IsFirst (suc fuel) i j le enough small below above =
      let h = (i + j) / 2 in
      elim (Bool-cases (ltb i j)) [
        | inl more ↦
            let lt = ltb→lt i j more in
            rw more (elim (Bool-cases (f h)) [
              | inl holds ↦ rw holds (
                  loop-IsFirst fuel i h (omega (arith, lt)) (omega (arith, lt)) (omega (arith, lt))
                    below (λ k after small_k. mono h k after small_k holds))
              | inr fails ↦ rw fails (
                  loop-IsFirst fuel (h + 1) j (omega (arith, lt)) (omega (arith, lt)) small
                    (λ k before. fails_before h k (omega arith) (omega (arith, lt, small)) fails)
                    above)
            ])
        | inr over ↦ rw over (record {
          below = below;
          above = λ k after. above k (omega (arith, le_of_ltb i j over));
          within = omega arith;
        })
      ]

search-IsFirst :
    (n : ℕ) (f : ℕ → Bool) (k : ℕ)
    → IsMonotone n f
    → k < n
    → (search n f ≤ n) × (f k ≡ leb (search n f) k)
unfolding search
search-IsFirst n f k mono small =
    let first =
      loop-IsFirst f n mono n 0 n (omega arith) (omega arith) (omega arith)
        (λ j h. absurd (omega (arith, h))) (λ j h k. absurd (omega (arith, h, k))) in
    (
      first.within,
      elim (Bool-cases (leb (search_loop n f 0 n) k)) [
        | inl past ↦ first.above k (leb→le _ _ past) small ∙ sym past
        | inr before ↦ first.below k (lt_of_leb _ _ before) ∙ sym before
      ],
    )

-- The keys of a page, each before the next.
abbrev pub AreSorted : List (List ℕ) → Type 0
AreSorted keys = (a b : ℕ) → a < b → b < length keys → key_lt (key_at keys a) (key_at keys b) ≡ true

key_lt-transitive : (x y z : List ℕ) → key_lt x y ≡ true → key_lt y z ≡ true → key_lt x z ≡ true
unfolding key_compare
key_lt-transitive [] [] z h k = absurd (ground (arith, h))
key_lt-transitive [] (b ∷ y) [] h k = absurd (ground (arith, k))
key_lt-transitive [] (b ∷ y) (c ∷ z) h k = refl
key_lt-transitive (a ∷ x) [] z h k = absurd (ground (arith, h))
key_lt-transitive (a ∷ x) (b ∷ y) [] h k = absurd (ground (arith, k))
key_lt-transitive (a ∷ x) (b ∷ y) (c ∷ z) h k =
    let ih = key_lt-transitive x y z in ground (arith, ih, h, k)

-- A step up in the keys keeps what is before them, and a step down what they are before.
module _ (keys : List (List ℕ)) (sorted : AreSorted keys) (key : List ℕ) where
  before_later :
      (a b : ℕ)
      → a ≤ b
      → b < length keys
      → key_lt key (key_at keys a) ≡ true
      → key_lt key (key_at keys b) ≡ true
  before_later a b le small h = elim (Bool-cases (ltb a b)) [
    | inl lt ↦
        key_lt-transitive key (key_at keys a) (key_at keys b) h (sorted a b (ltb→lt a b lt) small)
    | inr ge ↦
        let same : a ≡ b = omega (arith, le, le_of_ltb a b ge) in
        subst (λ i. key_lt key (key_at keys i) ≡ true) same h
  ]

  after_earlier :
      (a b : ℕ)
      → a ≤ b
      → b < length keys
      → key_lt (key_at keys b) key ≡ true
      → key_lt (key_at keys a) key ≡ true
  after_earlier a b le small h = elim (Bool-cases (ltb a b)) [
    | inl lt ↦
        key_lt-transitive (key_at keys a) (key_at keys b) key (sorted a b (ltb→lt a b lt) small) h
    | inr ge ↦
        let same : b ≡ a = omega (arith, le, le_of_ltb a b ge) in
        subst (λ i. key_lt (key_at keys i) key ≡ true) same h
  ]

  behind-IsMonotone : IsMonotone (length keys) (λ i. not (key_lt (key_at keys i) key))
  behind-IsMonotone a b le small h = elim (Bool-cases (key_lt (key_at keys b) key)) [
    | inl lt ↦ absurd (ground (arith, h, after_earlier a b le small lt))
    | inr ge ↦ rw ge refl
  ]

  -- In a page with sorted keys, the place of a key in a leaf has exactly the smaller keys before it, and
  -- the child to follow has exactly the keys that are not larger before it.
  pub key_lt-key_index :
      (k : ℕ)
      → k < length keys
      → (key_lt (key_at keys k) key ≡ ltb k (key_index key keys))
        × (key_lt key (key_at keys k) ≡ leb (child_index key keys) k)
        × (key_index key keys ≤ length keys)
        × (child_index key keys ≤ length keys)
  unfolding key_index child_index
  key_lt-key_index k small =
      let place =
        search-IsFirst (length keys) (λ i. not (key_lt (key_at keys i) key)) k behind-IsMonotone
          small in
      let child =
        search-IsFirst (length keys) (λ i. key_lt key (key_at keys i)) k before_later small in
      (ground (arith, place.1), child.1, place.0, child.0)
