-- ===== src/Prelude/Outcome.antt =====
-- Code that may fail and changes no state: the first outcome that is no value is that of the whole.
use dblock.Prelude.{◌≡◌, ◌≢◌, refl, ap, arith}
use mathlib.Core.Path.{subst}
use dblock.Prelude.Fault.{Result, ok, err, panic, out_of_fuel}

module _ {ℓ κ} {A : Type ℓ} {B : Type κ} where
  infixl 10 ◌>>=◌
  abbrev pub ◌>>=◌ : Result A → (A → Result B) → Result B
  ok a >>= f = f a
  err e >>= f = err e
  panic >>= f = panic
  out_of_fuel >>= f = out_of_fuel

-- The call returns: a value or an error.
pub record IsFine {ℓ} {A : Type ℓ} (r : Result A) : Type ℓ where
  pub no_panic : r ≢ panic
  pub no_fuel : r ≢ out_of_fuel

module _ {ℓ} {A B : Type ℓ} where
  pub IsFine-bind :
      (r : Result A) (f : A → Result B) → IsFine r → ((a : A) → IsFine (f a)) → IsFine (r >>= f)
  IsFine-bind (ok a) f h k = k a
  IsFine-bind (err e) f h k = record { no_panic = λ p. ground arith; no_fuel = λ p. ground arith }
  IsFine-bind panic f h k = absurd (h.no_panic refl)
  IsFine-bind out_of_fuel f h k = absurd (h.no_fuel refl)

abbrev value_of {ℓ} : {A : Type ℓ} → A → Result A → A
value_of a (ok b) = b
value_of a r = a

pub ok-injective {ℓ} : {A : Type ℓ} (a b : A) → ok a ≡ ok b → a ≡ b
ok-injective a b h = ap (value_of a) h

-- What the call gives, if it gives a value, satisfies `P`.
pub record Gives {ℓ κ} {A : Type ℓ} (P : A → Type κ) (r : Result A) : Type (ℓ ⊔ κ) where
  pub run : (a : A) → r ≡ ok a → P a

pub Gives-ok {ℓ κ} : {A : Type ℓ} (P : A → Type κ) (a : A) → P a → Gives P (ok a)
Gives-ok P a h = record { run = λ b e. subst P (ok-injective a b e) h }

pub Gives-bind {ℓ κ μ} :
    {A : Type ℓ} {B : Type κ} (P : B → Type μ) (r : Result A) (f : A → Result B)
    → ((a : A) → r ≡ ok a → Gives P (f a))
    → Gives P (r >>= f)
Gives-bind P (ok a) f h = h a refl
Gives-bind P (err e) f h = record { run = λ b e. cc }
Gives-bind P panic f h = record { run = λ b e. cc }
Gives-bind P out_of_fuel f h = record { run = λ b e. cc }

-- A first step that succeeds is followed by the rest.
pub bind-ok {ℓ κ} :
    {A : Type ℓ} {B : Type κ} (r : Result A) (f : A → Result B) {a : A} → r ≡ ok a → (r >>= f) ≡ f a
bind-ok r f e = ap (λ s. s >>= f) e
