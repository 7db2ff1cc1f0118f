-- ===== src/Codec/Many.antt =====
-- The loops of encoders and decoders over the elements of a slice.
use dblock.Prelude.{ℕ, zero, suc, refl, List, [], ◌∷◌, ◌++◌, length, All}
use dblock.Prelude.Exec.{pure, ◌>>=◌, ◌>>◌}
use dblock.Codec.{Put, Get}
use dblock.Codec.Puts.{Puts, Puts-then, Puts-pure}
use dblock.Codec.Gets.{Gets, Gets-bind, Gets-pure, Gets-map}
use dblock.Codec.Safety.{IsSafe, IsSafe-pure, IsSafe-bind}

module _ {A : Type 0} where
  -- `for _, x := range xs`
  unfoldable pub put_all : (A → Put) → List A → Put
  put_all put [] = pure tt
  put_all put (x ∷ xs) = do put x; put_all put xs

  -- `for range n`, with an append for each round.
  unfoldable pub get_many : Get A → ℕ → Get (List A)
  get_many g zero = pure []
  get_many g (suc n) = do x ← g; xs ← get_many g n; pure (x ∷ xs)

  abbrev pub joined : (A → List ℕ) → List A → List ℕ
  joined bytes [] = []
  joined bytes (x ∷ xs) = bytes x ++ joined bytes xs

  pub Puts-All :
      (put : A → Put) (bytes : A → List ℕ) (xs : List A)
      → All (λ x. Puts (put x) (bytes x)) xs
      → Puts (put_all put xs) (joined bytes xs)
  unfolding put_all
  Puts-All put bytes [] h = Puts-pure
  Puts-All put bytes (x ∷ xs) h = Puts-then (put x) (put_all put xs) h.0 (Puts-All put bytes xs h.1)

  pub Gets-many :
      (g : Get A) (bytes : A → List ℕ) (xs : List A)
      → All (λ x. Gets g (bytes x) x) xs
      → Gets (get_many g (length xs)) (joined bytes xs) xs
  unfolding get_many
  Gets-many g bytes [] h = Gets-pure []
  Gets-many g bytes (x ∷ xs) h =
      Gets-bind g _ h.0
        (Gets-map (get_many g (length xs)) (λ ys. x ∷ ys) (Gets-many g bytes xs h.1) refl)

  pub IsSafe-many : (g : Get A) (n : ℕ) → IsSafe g → IsSafe (get_many g n)
  unfolding get_many
  IsSafe-many g zero safe = IsSafe-pure []
  IsSafe-many g (suc n) safe =
      IsSafe-bind g _ safe
        λ x. IsSafe-bind (get_many g n) _ (IsSafe-many g n safe) (λ xs. IsSafe-pure _)
