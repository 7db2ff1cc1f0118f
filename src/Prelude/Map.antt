-- ===== src/Prelude/Map.antt =====
-- Go's `map` with integer keys, as an association list: a key stands in it once.
use dblock.Prelude.{
  ℕ, ◌≡◌, ◌≢◌, refl, Option, none, some, List, [], ◌∷◌, arith, ◌==◌, if◌then◌else◌,
}

abbrev pub Map {ℓ} : Type ℓ → Type ℓ
Map V = List (ℕ × V)

module _ {ℓ} {V : Type ℓ} where
  unfoldable pub lookup : ℕ → Map V → Option V
  lookup key [] = none
  lookup key ((other, v) ∷ m) = if other == key then some v else lookup key m

  unfoldable pub insert : ℕ → V → Map V → Map V
  insert key v [] = (key, v) ∷ []
  insert key v ((other, w) ∷ m) = if other == key then (key, v) ∷ m else (other, w) ∷ insert key v m

  unfoldable pub delete : ℕ → Map V → Map V
  delete key [] = []
  delete key ((other, v) ∷ m) =
      let rest = delete key m in if other == key then rest else (other, v) ∷ rest

  pub lookup-insert :
      (key other : ℕ) (v : V) (m : Map V)
      → lookup other (insert key v m) ≡ (if key == other then some v else lookup other m)
  unfolding lookup insert
  lookup-insert key other v [] = refl
  lookup-insert key other v ((i, w) ∷ m) = ground (arith, lookup-insert key other v m)

  pub lookup-delete :
      (key other : ℕ) (m : Map V)
      → lookup other (delete key m) ≡ (if key == other then none else lookup other m)
  unfolding lookup delete
  lookup-delete key other [] = ground arith
  lookup-delete key other ((i, w) ∷ m) = ground (arith, lookup-delete key other m)

  pub lookup-insert_self : (key : ℕ) (v : V) (m : Map V) → lookup key (insert key v m) ≡ some v
  lookup-insert_self key v m = ground (arith, lookup-insert key key v m)

  pub lookup-insert_ne :
      (key other : ℕ) (v : V) (m : Map V)
      → key ≢ other
      → lookup other (insert key v m) ≡ lookup other m
  lookup-insert_ne key other v m h = ground (arith, lookup-insert key other v m)

pub ruleset map_laws = (lookup-insert, lookup-delete)
