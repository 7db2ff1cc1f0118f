-- ===== src/Scan/Sorting.antt =====
-- internal/orderscanner.go: `slices.SortStableFunc`, as the insertion from the right of package `slices`.
use dblock.Prelude.{
  ℕ, ◌≤◌, ◌≡◌, refl, ap, sym, ◌∙◌, List, [], ◌∷◌, ◌++◌, All, Bool, filter, ltb, ◌==◌, if◌then◌else◌,
  arith, append_assoc, append-nil, Bool-cases, inl, inr, All-append, le_of_ltb, ltb→lt,
}
use mathlib.Core.List.{reverse, reverse-append}
use dblock.Prelude.Int.{ℤ, pos, ltb_ℤ}
use dblock.Prelude.Fault.{Result, ok}
use dblock.Prelude.Outcome.{◌>>=◌}

module _ {A : Type 0} (cmp : A → A → Result ℤ) where
  -- Into the entries so far, the last one first.
  insert_back : A → List A → Result (List A)
  insert_back x [] = ok (x ∷ [])
  insert_back x (y ∷ ys) = do
    n ← cmp x y
    if ltb_ℤ n (pos 0) then (do rest ← insert_back x ys; ok (y ∷ rest)) else ok (x ∷ y ∷ ys)

  sort_onto : List A → List A → Result (List A)
  unfolding insert_back
  sort_onto before [] = ok (reverse before)
  sort_onto before (x ∷ xs) = do more ← insert_back x before; sort_onto more xs

  unfoldable pub sort_stable : List A → Result (List A)
  unfolding sort_onto
  sort_stable xs = sort_onto [] xs

-- In the order of `rank`.
abbrev pub IsSorted : {A : Type 0} → (A → ℕ) → List A → Type 0
IsSorted rank [] = Unit {0}
IsSorted rank (x ∷ xs) = All (λ y. rank x ≤ rank y) xs × IsSorted rank xs

abbrev pub of_rank : {A : Type 0} → (A → ℕ) → ℕ → List A → List A
of_rank rank r = filter (λ x. rank x == r)

module _ {A : Type 0} (rank : A → ℕ) where
  abbrev IsDescending : List A → Type 0
  IsDescending [] = Unit {0}
  IsDescending (x ∷ xs) = All (λ y. rank y ≤ rank x) xs × IsDescending xs

  insert_rank : A → List A → List A
  insert_rank x [] = x ∷ []
  insert_rank x (y ∷ ys) = if ltb (rank x) (rank y) then y ∷ insert_rank x ys else x ∷ y ∷ ys

  All-insert : (P : A → Type 0) (x : A) (ys : List A) → P x → All P ys → All P (insert_rank x ys)
  unfolding insert_rank
  All-insert P x [] p h = (p, tt)
  All-insert P x (y ∷ ys) p h = elim (Bool-cases (ltb (rank x) (rank y))) [
    | inl less ↦ rw less (h.0, All-insert P x ys p h.1)
    | inr least ↦ rw least (p, h)
  ]

  All-le : (m n : ℕ) (ys : List A) → m ≤ n → All (λ y. rank y ≤ m) ys → All (λ y. rank y ≤ n) ys
  All-le m n [] h k = tt
  All-le m n (y ∷ ys) h k = (omega arith, All-le m n ys h k.1)

  insert-IsDescending : (x : A) (ys : List A) → IsDescending ys → IsDescending (insert_rank x ys)
  unfolding insert_rank
  insert-IsDescending x [] h = (tt, tt)
  insert-IsDescending x (y ∷ ys) h = elim (Bool-cases (ltb (rank x) (rank y))) [
    | inl less ↦
        let lt = ltb→lt (rank x) (rank y) less in
        rw less
          (All-insert (λ z. rank z ≤ rank y) x ys (omega arith) h.0, insert-IsDescending x ys h.1)
    | inr least ↦
        let le = le_of_ltb (rank x) (rank y) least in
        rw least ((le, All-le (rank y) (rank x) ys le h.0), h)
  ]

  of_rank-insert :
      (r : ℕ) (x : A) (ys : List A) → of_rank rank r (insert_rank x ys) ≡ of_rank rank r (x ∷ ys)
  unfolding insert_rank
  of_rank-insert r x [] = refl
  of_rank-insert r x (y ∷ ys) = elim (Bool-cases (ltb (rank x) (rank y))) [
    | inl less ↦ rw less (ground (arith, of_rank-insert r x ys))
    | inr least ↦ rw least
  ]

  snoc-IsSorted :
      (xs : List A) (y : A)
      → IsSorted rank xs
      → All (λ x. rank x ≤ rank y) xs
      → IsSorted rank (xs ++ y ∷ [])
  snoc-IsSorted [] y h k = (tt, tt)
  snoc-IsSorted (x ∷ xs) y h k =
      (All-append (λ z. rank x ≤ rank z) xs (y ∷ []) h.0 (k.0, tt), snoc-IsSorted xs y h.1 k.1)

  All-reverse : (P : A → Type 0) (xs : List A) → All P xs → All P (reverse xs)
  All-reverse P [] h = tt
  All-reverse P (x ∷ xs) h =
      rw (reverse-append (x ∷ []) xs)
        (All-append P (reverse xs) (x ∷ []) (All-reverse P xs h.1) (h.0, tt))

  reverse-IsSorted : (xs : List A) → IsDescending xs → IsSorted rank (reverse xs)
  reverse-IsSorted [] h = tt
  reverse-IsSorted (x ∷ xs) h = rw (reverse-append (x ∷ []) xs) (
      snoc-IsSorted (reverse xs) x (reverse-IsSorted xs h.1)
        (All-reverse (λ y. rank y ≤ rank x) xs h.0))

filter-append :
    {A : Type 0} (p : A → Bool) (xs ys : List A) → filter p (xs ++ ys) ≡ filter p xs ++ filter p ys
filter-append p [] ys = refl
filter-append p (x ∷ xs) ys = elim (Bool-cases (p x)) [
  | inl holds ↦ rw holds (ap (λ zs. x ∷ zs) (filter-append p xs ys))
  | inr fails ↦ rw fails (filter-append p xs ys)
]

reverse-filter_cons :
    {A : Type 0} (p : A → Bool) (x : A) (xs : List A)
    → reverse (filter p (x ∷ xs)) ≡ reverse (filter p xs) ++ filter p (x ∷ [])
reverse-filter_cons p x xs = elim (Bool-cases (p x)) [
  | inl holds ↦ rw holds (reverse-append (x ∷ []) (filter p xs))
  | inr fails ↦ rw fails (sym (append-nil (reverse (filter p xs))))
]

reverse-filter :
    {A : Type 0} (p : A → Bool) (xs : List A) → filter p (reverse xs) ≡ reverse (filter p xs)
reverse-filter p [] = refl
reverse-filter p (x ∷ xs) =
    ap (filter p) (reverse-append (x ∷ []) xs)
    ∙ filter-append p (reverse xs) (x ∷ [])
    ∙ ap (λ zs. zs ++ filter p (x ∷ [])) (reverse-filter p xs)
    ∙ sym (reverse-filter_cons p x xs)

-- An entry goes from the front of the rest to the end of what stands before it.
filter-reverse :
    {A : Type 0} (p : A → Bool) (x : A) (before after xs : List A)
    → filter p after ≡ filter p (x ∷ before)
    → reverse (filter p after) ++ filter p xs ≡ reverse (filter p before) ++ filter p (x ∷ xs)
filter-reverse p x before after xs e =
    ap (λ zs. reverse zs ++ filter p xs) e
    ∙ ap (λ zs. zs ++ filter p xs) (reverse-filter_cons p x before)
    ∙ append_assoc (reverse (filter p before)) (filter p (x ∷ [])) (filter p xs)
    ∙ ap (λ zs. reverse (filter p before) ++ zs) (sym (filter-append p (x ∷ []) xs))

-- What the comparison gives for two entries is their order by rank.
abbrev pub Agrees : {A : Type 0} → (A → A → Result ℤ) → (A → ℕ) → A → A → Type 0
Agrees cmp rank a b = (z : ℤ) × (cmp a b ≡ ok z) × (ltb_ℤ z (pos 0) ≡ ltb (rank a) (rank b))

module _ {A : Type 0} (cmp : A → A → Result ℤ) (rank : A → ℕ) (Fits : A → Type 0)
    (agrees : (a b : A) → Fits a → Fits b → Agrees cmp rank a b) where
  insert_back-rank :
      (x : A) (ys : List A)
      → Fits x
      → All Fits ys
      → insert_back cmp x ys ≡ ok (insert_rank rank x ys)
  unfolding insert_back insert_rank
  insert_back-rank x [] p h = refl
  insert_back-rank x (y ∷ ys) p h =
      let (z, called, order) = agrees x y p h.0 in
      let rest = insert_back-rank x ys p h.1 in
      elim (Bool-cases (ltb (rank x) (rank y))) [
        | inl less ↦ rw (called, order, less, rest)
        | inr least ↦ rw (called, order, least)
      ]

  sort_onto-rank :
      (before xs : List A)
      → All Fits before
      → All Fits xs
      → IsDescending rank before
      → (ys : List A) × (sort_onto cmp before xs ≡ ok ys)
        × IsSorted rank ys
        × ((r : ℕ) → of_rank rank r ys ≡ reverse (of_rank rank r before) ++ of_rank rank r xs)
        × All Fits ys
  unfolding sort_onto
  sort_onto-rank before [] f g d = (
    reverse before,
    refl,
    reverse-IsSorted rank before d,
    λ r. reverse-filter (λ x. rank x == r) before ∙ sym (append-nil _),
    All-reverse rank Fits before f,
  )
  sort_onto-rank before (x ∷ xs) f g d =
      let before' = insert_rank rank x before in
      let (ys, run, sorted, same, fit) =
        sort_onto-rank before' xs (All-insert rank Fits x before g.0 f) g.1
          (insert-IsDescending rank x before d) in
      (
        ys,
        rw (insert_back-rank x before g.0 f) run,
        sorted,
        λ r.
            same r
            ∙ filter-reverse (λ x. rank x == r) x before before' xs
                (of_rank-insert rank r x before),
        fit,
      )

  -- The comparison agrees with a rank: the result is sorted by it, and the entries of each rank are
  -- those that went in, in the order in which they went in.
  pub sort_stable-IsSorted :
      (xs : List A)
      → All Fits xs
      → (ys : List A) × (sort_stable cmp xs ≡ ok ys)
        × IsSorted rank ys
        × ((r : ℕ) → of_rank rank r ys ≡ of_rank rank r xs)
        × All Fits ys
  unfolding sort_stable
  sort_stable-IsSorted xs g = sort_onto-rank [] xs tt g tt
