-- ===== src/Scan/Join/Marks.antt =====
-- internal/joinscanner.go: `matchedRight` in the middle of a left row: up to the index it is up to date.
use dblock.Prelude.{
  ℕ, zero, suc, ◌+◌, ◌-◌, ◌≡◌, refl, ap, sym, ◌∙◌, Bool, true, List, [], ◌∷◌, map, length, drop,
  arith,
}
use dblock.Prelude.Fault.{ok}
use dblock.Expr.{at_index}
use dblock.Scan.Join.{mark}

after : (n : ℕ) → n + 1 ≡ suc n
after n = omega arith

back : (n : ℕ) → n + 1 - 1 ≡ n
back n = omega arith

module _ {A : Type 0} where
  abbrev pub mix : (A → Bool) → (A → Bool) → ℕ → List A → List Bool
  mix f g zero xs = map g xs
  mix f g (suc n) [] = []
  mix f g (suc n) (x ∷ xs) = f x ∷ mix f g n xs

  drop-next-suc :
      (n : ℕ) (xs : List A) {x : A} {rest : List A} → drop n xs ≡ x ∷ rest → drop (suc n) xs ≡ rest
  drop-next-suc zero [] h = cc
  drop-next-suc zero (y ∷ ys) h = cc
  drop-next-suc (suc n) [] h = cc
  drop-next-suc (suc n) (y ∷ ys) h = drop-next-suc n ys h

  pub length-mix : (f g : A → Bool) (n : ℕ) (xs : List A) → length (mix f g n xs) ≡ length xs
  length-mix f g zero [] = refl
  length-mix f g zero (x ∷ xs) = ap suc (length-mix f g zero xs)
  length-mix f g (suc n) [] = refl
  length-mix f g (suc n) (x ∷ xs) = ap suc (length-mix f g n xs)

  mix-same-suc :
      (f g : A → Bool) (n : ℕ) (xs : List A) {x : A} {rest : List A}
      → drop n xs ≡ x ∷ rest
      → f x ≡ g x
      → mix f g (suc n) xs ≡ mix f g n xs
  mix-same-suc f g zero [] h e = refl
  mix-same-suc f g zero (y ∷ ys) h e = cc
  mix-same-suc f g (suc n) [] h e = refl
  mix-same-suc f g (suc n) (y ∷ ys) h e = ap (λ bs. f y ∷ bs) (mix-same-suc f g n ys h e)

  mix-mark-suc :
      (f g : A → Bool) (n : ℕ) (xs : List A) {x : A} {rest : List A}
      → drop n xs ≡ x ∷ rest
      → f x ≡ true
      → mark n (mix f g n xs) ≡ ok (mix f g (suc n) xs)
  unfolding mark
  mix-mark-suc f g zero [] h e = cc
  mix-mark-suc f g zero (y ∷ ys) h e = cc
  mix-mark-suc f g (suc n) [] h e = cc
  mix-mark-suc f g (suc n) (y ∷ ys) h e = rw (mix-mark-suc f g n ys h e)

  pub mix_end : (f g : A → Bool) (n : ℕ) (xs : List A) → drop n xs ≡ [] → mix f g n xs ≡ map f xs
  mix_end f g zero [] h = refl
  mix_end f g zero (y ∷ ys) h = cc
  mix_end f g (suc n) [] h = refl
  mix_end f g (suc n) (y ∷ ys) h = ap (λ bs. f y ∷ bs) (mix_end f g n ys h)

  pub at_index-map :
      (f : A → Bool) (n : ℕ) (xs : List A) {x : A} {rest : List A}
      → drop n xs ≡ x ∷ rest
      → at_index (map f xs) n ≡ ok (f x)
  unfolding at_index
  at_index-map f zero [] h = cc
  at_index-map f zero (y ∷ ys) h = cc
  at_index-map f (suc n) [] h = cc
  at_index-map f (suc n) (y ∷ ys) h = at_index-map f n ys h

  module _ (n : ℕ) (xs : List A) {x : A} {rest : List A} (h : drop n xs ≡ x ∷ rest) where
    pub drop-next : drop (n + 1) xs ≡ rest
    drop-next = ap (λ k. drop k xs) (after n) ∙ drop-next-suc n xs h

    module _ (f g : A → Bool) where
      pub mix-same : f x ≡ g x → mix f g (n + 1) xs ≡ mix f g n xs
      mix-same e = ap (λ k. mix f g k xs) (after n) ∙ mix-same-suc f g n xs h e

      pub mix-mark : f x ≡ true → mark (n + 1 - 1) (mix f g n xs) ≡ ok (mix f g (n + 1) xs)
      mix-mark e =
          ap (λ k. mark k (mix f g n xs)) (back n)
          ∙ mix-mark-suc f g n xs h e
          ∙ ap (λ k. ok (mix f g k xs)) (sym (after n))
