-- ===== src/Coerce.antt =====
-- internal/coerceValue.go: `zeroValue` and `coerceValue`. How Go prints floats and times and what package
-- uuid does are parameters.
pub mod Stored
use dblock.Prelude.{
  ℕ, Bool, true, false, ◌||◌, Option, none, some, List, [], ◌∷◌, length, ◌==◌, if◌then◌else◌,
}
use dblock.Prelude.Int.{ℤ, pos, negsuc, eq_ℤ}
use dblock.Prelude.Bytes.{bytes_eq}
use dblock.Prelude.Fault.{
  Error, Result, ok, err, panic, unsupported_data_type, null_not_allowed, not_a_bool, type_mismatch,
}
use dblock.Value.{
  DataType, null_type, any_type, integer_type, real_type, text_type, bool_type, blob_type,
  time_type, uuid_type, type_byte, Value, null, integer, real, text, bool, blob, time, uuid, Time,
}
use dblock.Expr.Compare.{Float64}
use dblock.Expr.Print.{format_int}
use dblock.Schema.{Column}

pub record Formats : Type 0 where
  pub format_float : ℕ → List ℕ
  pub format_time : Time → List ℕ
  pub uuid_text : List ℕ → List ℕ
  pub is_uuid : List ℕ → Bool

-- `time.Time{}` is the first instant of year 1.
unfoldable pub zero_value : DataType → Value
zero_value any_type = null
zero_value null_type = null
zero_value integer_type = integer (pos 0)
zero_value real_type = real 0
zero_value text_type = text []
zero_value bool_type = bool false
zero_value blob_type = blob []
zero_value time_type = time (record { unix = negsuc 62135596799; nanosecond = 0; offset = pos 0 })
zero_value uuid_type = uuid (0 ∷ 0 ∷ 0 ∷ 0 ∷ 0 ∷ 0 ∷ 0 ∷ 0 ∷ 0 ∷ 0 ∷ 0 ∷ 0 ∷ 0 ∷ 0 ∷ 0 ∷ 0 ∷ [])

-- `strconv.ParseBool`
unfoldable pub parse_bool : List ℕ → Option Bool
parse_bool s =
    if bytes_eq s (b'1' ∷ [])
      || bytes_eq s (b't' ∷ [])
      || bytes_eq s (b'T' ∷ [])
      || bytes_eq s (b'T' ∷ b'R' ∷ b'U' ∷ b'E' ∷ [])
      || bytes_eq s (b't' ∷ b'r' ∷ b'u' ∷ b'e' ∷ [])
      || bytes_eq s (b'T' ∷ b'r' ∷ b'u' ∷ b'e' ∷ [])
    then some true
    else if bytes_eq s (b'0' ∷ [])
        || bytes_eq s (b'f' ∷ [])
        || bytes_eq s (b'F' ∷ [])
        || bytes_eq s (b'F' ∷ b'A' ∷ b'L' ∷ b'S' ∷ b'E' ∷ [])
        || bytes_eq s (b'f' ∷ b'a' ∷ b'l' ∷ b's' ∷ b'e' ∷ [])
        || bytes_eq s (b'F' ∷ b'a' ∷ b'l' ∷ b's' ∷ b'e' ∷ [])
    then some false
    else none

to_real : ⦃fl : Float64⦄ → Value → Result Value
to_real (real x) = ok (real x)
to_real ⦃fl⦄ (integer n) = ok (real (fl.of_int n))
to_real v = err type_mismatch

bool_text : Bool → List ℕ
bool_text true = b't' ∷ b'r' ∷ b'u' ∷ b'e' ∷ []
bool_text false = b'f' ∷ b'a' ∷ b'l' ∷ b's' ∷ b'e' ∷ []

to_text : Formats → Value → Result Value
unfolding bool_text
to_text fm (text s) = ok (text s)
to_text fm (blob b) = ok (text b)
to_text fm (integer n) = ok (text (format_int n))
to_text fm (real x) = ok (text (fm.format_float x))
to_text fm (bool b) = ok (text (bool_text b))
to_text fm (time t) = ok (text (fm.format_time t))
to_text fm v = err type_mismatch

parsed : Option Bool → Result Value
parsed none = err not_a_bool
parsed (some b) = ok (bool b)

to_bool : Value → Result Value
unfolding parsed
to_bool (bool b) = ok (bool b)
to_bool (integer n) =
    if eq_ℤ n (pos 1)
    then ok (bool true)
    else if eq_ℤ n (pos 0)
    then ok (bool false)
    else err type_mismatch
to_bool (text s) = parsed (parse_bool s)
to_bool v = err type_mismatch

to_blob : Value → Result Value
to_blob (blob b) = ok (blob b)
to_blob (text s) = ok (blob s)
to_blob v = err type_mismatch

-- A UUID becomes its text; a text or sixteen bytes stay what they are.
to_uuid : Formats → Value → Result Value
to_uuid fm (uuid b) = ok (text (fm.uuid_text b))
to_uuid fm (text s) = if fm.is_uuid s then ok (text s) else err type_mismatch
to_uuid fm (blob b) = if length b == 16 then ok (blob b) else err type_mismatch
to_uuid fm v = err type_mismatch

to_integer : Value → Result Value
to_integer (integer n) = ok (integer n)
to_integer v = err type_mismatch

to_time : Value → Result Value
to_time (time t) = ok (time t)
to_time v = err type_mismatch

module _ ⦃fl : Float64⦄ (fm : Formats) where
  of_type : DataType → Value → Result Value
  unfolding to_real to_text to_bool to_blob to_uuid to_integer to_time
  of_type any_type = λ v. ok v
  of_type integer_type = to_integer
  of_type real_type = to_real
  of_type text_type = to_text fm
  of_type bool_type = to_bool
  of_type blob_type = to_blob
  of_type time_type = to_time
  of_type uuid_type = to_uuid fm
  of_type null_type = λ v. err (unsupported_data_type (type_byte null_type))

  null_of_type : DataType → Result Value
  null_of_type any_type = ok null
  null_of_type dt = err null_not_allowed

  unfoldable pub coerce_value : Column → Value → Result Value
  unfolding of_type null_of_type
  coerce_value col null = null_of_type col.data_type
  coerce_value col v = of_type col.data_type v
