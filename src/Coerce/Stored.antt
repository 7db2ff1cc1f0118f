-- ===== src/Coerce/Stored.antt =====
-- internal/coerceValue.go: what a column stores.
use dblock.Prelude.{
  ℕ, ◌≡◌, ◌≢◌, refl, ap, Bool, true, false, Option, none, some, List, length, if◌then◌else◌, arith,
}
use mathlib.Core.Path.{subst}
use mathlib.Core.Option.{some-injective}
use dblock.Prelude.Int.{pos, eq_ℤ}
use dblock.Prelude.Fault.{Result, ok, err, panic, out_of_fuel, type_mismatch}
use dblock.Value.{
  DataType, null_type, any_type, integer_type, real_type, text_type, bool_type, blob_type,
  time_type, uuid_type, Value, null, integer, real, text, bool, blob, time, uuid,
}
use dblock.Expr.Compare.{Float64}
use dblock.Schema.{Column}
use dblock.Coerce.{
  Formats, coerce_value, of_type, null_of_type, to_real, to_text, to_bool, to_blob, to_uuid,
  to_integer, to_time, parsed, parse_bool,
}

-- The values that a column of a type holds.
abbrev pub Stored : Formats → DataType → Value → Type 0
Stored fm any_type v = Unit {0}
Stored fm integer_type (integer n) = Unit {0}
Stored fm real_type (real x) = Unit {0}
Stored fm text_type (text s) = Unit {0}
Stored fm bool_type (bool b) = Unit {0}
Stored fm blob_type (blob b) = Unit {0}
Stored fm time_type (time t) = Unit {0}
Stored fm uuid_type (text s) = fm.is_uuid s ≡ true
Stored fm uuid_type (blob b) = length b ≡ 16
Stored fm _ _ = ⊥

-- The result, if there is one, satisfies `P`.
abbrev of_ok : Result Value → Option Value
of_ok (ok v) = some v
of_ok r = none

abbrev Gives : (Value → Type 0) → Result Value → Type 0
Gives P (ok v) = P v
Gives P r = Unit {0}

module _ ⦃fl : Float64⦄ (fm : Formats)
    (prints : (b : List ℕ) → fm.is_uuid (fm.uuid_text b) ≡ true) where
  stored_bool : (o : Option Bool) → Gives (Stored fm bool_type) (parsed o)
  unfolding parsed
  stored_bool none = tt
  stored_bool (some b) = tt

  stored_integer_bool :
      (one zero : Bool)
      → Gives
          (Stored fm bool_type)
          (if one then ok (bool true) else if zero then ok (bool false) else err type_mismatch)
  stored_integer_bool true zero = tt
  stored_integer_bool false true = tt
  stored_integer_bool false false = tt

  of_type-Stored : (dt : DataType) (v : Value) → Gives (Stored fm dt) (of_type fm dt v)
  unfolding of_type to_real to_text to_bool to_blob to_uuid to_integer to_time
  of_type-Stored any_type v = tt
  of_type-Stored null_type v = tt
  of_type-Stored integer_type null = tt
  of_type-Stored integer_type (integer n) = tt
  of_type-Stored integer_type (real x) = tt
  of_type-Stored integer_type (text s) = tt
  of_type-Stored integer_type (bool b) = tt
  of_type-Stored integer_type (blob b) = tt
  of_type-Stored integer_type (time t) = tt
  of_type-Stored integer_type (uuid b) = tt
  of_type-Stored real_type null = tt
  of_type-Stored real_type (integer n) = tt
  of_type-Stored real_type (real x) = tt
  of_type-Stored real_type (text s) = tt
  of_type-Stored real_type (bool b) = tt
  of_type-Stored real_type (blob b) = tt
  of_type-Stored real_type (time t) = tt
  of_type-Stored real_type (uuid b) = tt
  of_type-Stored text_type null = tt
  of_type-Stored text_type (integer n) = tt
  of_type-Stored text_type (real x) = tt
  of_type-Stored text_type (text s) = tt
  of_type-Stored text_type (bool b) = tt
  of_type-Stored text_type (blob b) = tt
  of_type-Stored text_type (time t) = tt
  of_type-Stored text_type (uuid b) = tt
  of_type-Stored bool_type null = tt
  of_type-Stored bool_type (integer n) = stored_integer_bool (eq_ℤ n (pos 1)) (eq_ℤ n (pos 0))
  of_type-Stored bool_type (real x) = tt
  of_type-Stored bool_type (text s) = stored_bool (parse_bool s)
  of_type-Stored bool_type (bool b) = tt
  of_type-Stored bool_type (blob b) = tt
  of_type-Stored bool_type (time t) = tt
  of_type-Stored bool_type (uuid b) = tt
  of_type-Stored blob_type null = tt
  of_type-Stored blob_type (integer n) = tt
  of_type-Stored blob_type (real x) = tt
  of_type-Stored blob_type (text s) = tt
  of_type-Stored blob_type (bool b) = tt
  of_type-Stored blob_type (blob b) = tt
  of_type-Stored blob_type (time t) = tt
  of_type-Stored blob_type (uuid b) = tt
  of_type-Stored time_type null = tt
  of_type-Stored time_type (integer n) = tt
  of_type-Stored time_type (real x) = tt
  of_type-Stored time_type (text s) = tt
  of_type-Stored time_type (bool b) = tt
  of_type-Stored time_type (blob b) = tt
  of_type-Stored time_type (time t) = tt
  of_type-Stored time_type (uuid b) = tt
  of_type-Stored uuid_type null = tt
  of_type-Stored uuid_type (integer n) = tt
  of_type-Stored uuid_type (real x) = tt
  of_type-Stored uuid_type (text s) = ground arith
  of_type-Stored uuid_type (bool b) = tt
  of_type-Stored uuid_type (blob b) = ground arith
  of_type-Stored uuid_type (time t) = tt
  of_type-Stored uuid_type (uuid b) = prints b

  given : (P : Value → Type 0) (r : Result Value) (w : Value) → Gives P r → r ≡ ok w → P w
  given P (ok v) w g e = subst P (some-injective v w (ap of_ok e)) g
  given P (err x) w g e = absurd (ground (arith, e))
  given P panic w g e = absurd (ground (arith, e))
  given P out_of_fuel w g e = absurd (ground (arith, e))

  null_of_type-Stored : (dt : DataType) → Gives (Stored fm dt) (null_of_type fm dt)
  unfolding null_of_type
  null_of_type-Stored any_type = tt
  null_of_type-Stored null_type = tt
  null_of_type-Stored integer_type = tt
  null_of_type-Stored real_type = tt
  null_of_type-Stored text_type = tt
  null_of_type-Stored bool_type = tt
  null_of_type-Stored blob_type = tt
  null_of_type-Stored time_type = tt
  null_of_type-Stored uuid_type = tt

  coerce-Gives :
      (col : Column) (v : Value) → Gives (Stored fm col.data_type) (coerce_value fm col v)
  unfolding coerce_value
  coerce-Gives col null = null_of_type-Stored col.data_type
  coerce-Gives col (integer n) = of_type-Stored col.data_type (integer n)
  coerce-Gives col (real x) = of_type-Stored col.data_type (real x)
  coerce-Gives col (text s) = of_type-Stored col.data_type (text s)
  coerce-Gives col (bool b) = of_type-Stored col.data_type (bool b)
  coerce-Gives col (blob b) = of_type-Stored col.data_type (blob b)
  coerce-Gives col (time t) = of_type-Stored col.data_type (time t)
  coerce-Gives col (uuid b) = of_type-Stored col.data_type (uuid b)

  -- A value that a column of the type holds is kept as it is.
  of_type_same : (dt : DataType) (v : Value) → Stored fm dt v → v ≢ null → of_type fm dt v ≡ ok v
  unfolding of_type to_real to_text to_bool to_blob to_uuid to_integer to_time
  of_type_same any_type v h k = refl
  of_type_same integer_type (integer n) h k = refl
  of_type_same integer_type v h k = absurd h
  of_type_same real_type (real x) h k = refl
  of_type_same real_type v h k = absurd h
  of_type_same text_type (text s) h k = refl
  of_type_same text_type v h k = absurd h
  of_type_same bool_type (bool b) h k = refl
  of_type_same bool_type v h k = absurd h
  of_type_same blob_type (blob b) h k = refl
  of_type_same blob_type v h k = absurd h
  of_type_same time_type (time t) h k = refl
  of_type_same time_type v h k = absurd h
  of_type_same uuid_type (text s) h k = ground arith
  of_type_same uuid_type (blob b) h k = ground arith
  of_type_same uuid_type v h k = absurd h
  of_type_same null_type v h k = absurd h

  null_kept : (dt : DataType) → Stored fm dt null → null_of_type fm dt ≡ ok null
  unfolding null_of_type
  null_kept any_type h = refl
  null_kept null_type h = absurd h
  null_kept integer_type h = absurd h
  null_kept real_type h = absurd h
  null_kept text_type h = absurd h
  null_kept bool_type h = absurd h
  null_kept blob_type h = absurd h
  null_kept time_type h = absurd h
  null_kept uuid_type h = absurd h

  coerce_same :
      (col : Column) (v : Value) → Stored fm col.data_type v → coerce_value fm col v ≡ ok v
  unfolding coerce_value null_of_type
  coerce_same col null h = null_kept col.data_type h
  coerce_same col (integer n) h = of_type_same col.data_type (integer n) h (λ e. ground (arith, e))
  coerce_same col (real x) h = of_type_same col.data_type (real x) h (λ e. ground (arith, e))
  coerce_same col (text s) h = of_type_same col.data_type (text s) h (λ e. ground (arith, e))
  coerce_same col (bool b) h = of_type_same col.data_type (bool b) h (λ e. ground (arith, e))
  coerce_same col (blob b) h = of_type_same col.data_type (blob b) h (λ e. ground (arith, e))
  coerce_same col (time t) h = of_type_same col.data_type (time t) h (λ e. ground (arith, e))
  coerce_same col (uuid b) h = of_type_same col.data_type (uuid b) h (λ e. ground (arith, e))

  -- What is written into a column is a value of its type, and would be written as it is a second time. For
  -- a UUID column this needs that package uuid reads the texts that it writes.
  pub coerce_value-Stored :
      (col : Column) (v w : Value)
      → coerce_value fm col v ≡ ok w
      → Stored fm col.data_type w × (coerce_value fm col w ≡ ok w)
  coerce_value-Stored col v w e =
      let stored =
        given (Stored fm col.data_type) (coerce_value fm col v) w (coerce-Gives col v) e in
      (stored, coerce_same col w stored)
