-- ===== src/Codec/Safety.antt =====
-- internal/codec/decoder.go: rules for reads that neither panic nor leave their slice.
use dblock.Prelude.{
  if◌then◌else◌, Bool, true, false, refl, Bool, true, false, if◌then◌else◌, refl, ℕ, zero, suc, ◌≤◌,
  ◌<◌, ◌≢◌, List, [], ◌∷◌, String, none, arith, length, get_elem?, length-drop,
}
use dblock.Prelude.Fault.{Result, ok, err, panic, out_of_fuel, Error}
use dblock.Prelude.Exec.{pure, fail, continue, ◌>>=◌, ◌>>◌}
use dblock.Codec.{
  get_short_string_with_length, get_bool, get_int32, get_as_uint32, Decoder, Get, check, read_le,
  read_slice, get_uint8, get_uint16, get_uint32, get_uint64, get_int16, get_int64, get_float64,
  get_bytes, get_bytes_with_length, get_string_with_length,
}

-- `g` returns a value or an error, and leaves the position within the slice.
pub record Fine {A : Type 0} (r : Result A × Decoder) : Type 0 where
  pub no_panic : r.0 ≢ panic
  pub no_fuel : r.0 ≢ out_of_fuel
  pub within : r.1.pos ≤ length r.1.backing

pub record IsSafe {A : Type 0} (g : Get A) : Type 0 where
  pub run : (d : Decoder) → d.pos ≤ length d.backing → Fine (g d)

pub IsSafe-pure : {A : Type 0} (v : A) → IsSafe (pure v)
unfolding pure
IsSafe-pure v = record { run = λ d h. ground arith }

pub IsSafe-fail : {A : Type 0} (e : Error) → IsSafe (fail {A = A} e)
unfolding fail
IsSafe-fail e = record { run = λ d h. ground arith }

pub IsSafe-if :
    {A : Type 0} (b : Bool) (g h : Get A) → IsSafe g → IsSafe h → IsSafe (if b then g else h)
IsSafe-if true g h p q = p
IsSafe-if false g h p q = q

Fine-continue :
    {A B : Type 0} (f : A → Get B)
    → ((a : A) → IsSafe (f a))
    → (r : Result A) (d : Decoder) → Fine (r, d)
    → Fine (continue r f d)
Fine-continue f safe (ok a) d h = (safe a).run d h.within
Fine-continue f safe (err e) d h = ground (arith, h.within)
Fine-continue f safe panic d h = absurd (h.no_panic refl)
Fine-continue f safe out_of_fuel d h = absurd (h.no_fuel refl)

pub IsSafe-bind :
    {A B : Type 0} (g : Get A) (f : A → Get B)
    → IsSafe g
    → ((a : A) → IsSafe (f a))
    → IsSafe (g >>= f)
unfolding ◌>>=◌
IsSafe-bind g f p q = record { run = λ d h. Fine-continue f q (g d).0 (g d).1 (p.run d h) }

pub IsSafe-check : (context : String) (n : ℕ) → IsSafe (check context n)
unfolding check
IsSafe-check context n = record { run = λ d h. ground arith }

get_elem?-ne-none : (xs : List ℕ) (n : ℕ) → n < length xs → get_elem? xs n ≢ none
get_elem?-ne-none [] n h e = absurd (omega arith)
get_elem?-ne-none (x ∷ xs) zero h e = cc
get_elem?-ne-none (x ∷ xs) (suc n) h e = get_elem?-ne-none xs n (omega arith) e

pub IsSafe-uint8 : IsSafe get_uint8
unfolding get_uint8 ◌>>=◌
IsSafe-uint8 = record { run = λ d h. ground (arith, get_elem?-ne-none d.backing d.pos) }

-- A read of `w` bytes behind its check.
IsSafe-read_le : (context : String) (w : ℕ) → IsSafe (check context w >> read_le w)
unfolding check read_le ◌>>=◌
IsSafe-read_le context w = record { run = λ d h. ground (arith, length-drop d.pos d.backing) }

pub IsSafe-uint16 : IsSafe get_uint16
unfolding get_uint16
IsSafe-uint16 = IsSafe-read_le "get uint16" 2

pub IsSafe-uint32 : IsSafe get_uint32
unfolding get_uint32
IsSafe-uint32 = IsSafe-read_le "get uint16" 4

pub IsSafe-uint64 : IsSafe get_uint64
unfolding get_uint64
IsSafe-uint64 = IsSafe-read_le "get uint64" 8

pub IsSafe-int16 : IsSafe get_int16
unfolding get_int16
IsSafe-int16 = IsSafe-bind get_uint16 _ IsSafe-uint16 (λ v. IsSafe-pure _)

pub IsSafe-int64 : IsSafe get_int64
unfolding get_int64
IsSafe-int64 = IsSafe-bind get_uint64 _ IsSafe-uint64 (λ v. IsSafe-pure _)

pub IsSafe-float64 : IsSafe get_float64
unfolding get_float64
IsSafe-float64 = IsSafe-bind _ _ (IsSafe-check "get float64" 4) (λ _. IsSafe-uint64)

pub IsSafe-bytes : (n : ℕ) → IsSafe (get_bytes n)
unfolding get_bytes check read_slice ◌>>=◌
IsSafe-bytes n = record { run = λ d h. ground arith }

-- A length, then that many bytes.
counted : (context : String) → IsSafe (get_uint32 >>= λ n. check context n >> get_bytes n)
counted context =
    IsSafe-bind get_uint32 _ IsSafe-uint32
      λ n. IsSafe-bind (check context n) _ (IsSafe-check context n) (λ _. IsSafe-bytes n)

pub IsSafe-bytes_with_length : IsSafe get_bytes_with_length
unfolding get_bytes_with_length
IsSafe-bytes_with_length =
    IsSafe-bind (check "get bytes length" 4) _ (IsSafe-check "get bytes length" 4)
      (λ _. counted "get bytes")

pub IsSafe-string_with_length : IsSafe get_string_with_length
unfolding get_string_with_length
IsSafe-string_with_length =
    IsSafe-bind (check "get string length" 4) _ (IsSafe-check "get string length" 4)
      (λ _. counted "get string")

pub IsSafe-as_uint32 : IsSafe get_as_uint32
unfolding get_as_uint32
IsSafe-as_uint32 = IsSafe-uint32

pub IsSafe-int32 : IsSafe get_int32
unfolding get_int32
IsSafe-int32 = IsSafe-bind get_uint32 _ IsSafe-uint32 (λ v. IsSafe-pure _)

pub IsSafe-bool : IsSafe get_bool
unfolding get_bool
IsSafe-bool = IsSafe-bind get_uint8 _ IsSafe-uint8 (λ v. IsSafe-pure _)

pub IsSafe-short_string_with_length : IsSafe get_short_string_with_length
unfolding get_short_string_with_length
IsSafe-short_string_with_length =
    IsSafe-bind (check "get string length" 1) _ (IsSafe-check "get string length" 1) λ _.
      IsSafe-bind get_uint8 _ IsSafe-uint8 λ n.
        IsSafe-bind (check "get string" n) _ (IsSafe-check "get string" n) (λ _. IsSafe-bytes n)
