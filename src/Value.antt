-- ===== src/Value.antt =====
-- internal/datatype.go and the values of internal/row.go: Go's `any`, as far as a row can hold it.
-- A text or blob is its bytes, a real its IEEE bits, a UUID its sixteen bytes.
use dblock.Prelude.{ℕ, Bool, List, ltb, ◌||◌, if◌then◌else◌, suc, zero}
use dblock.Prelude.Int.{ℤ}
use dblock.Prelude.Fault.{bad_data_type}
use dblock.Prelude.Exec.{pure, fail, ◌>>=◌}
use dblock.Codec.{Put, Get, put_uint8, get_uint8}

pub data DataType : Type 0 where
  null_type any_type integer_type real_type text_type bool_type blob_type time_type uuid_type :
      DataType

-- `time.Time`: the instant, and the offset of its zone in seconds. A zone's name is not kept.
pub record Time : Type 0 where
  pub unix : ℤ
  pub nanosecond : ℕ
  pub offset : ℤ

pub data Value : Type 0 where
  null : Value
  integer : ℤ → Value
  real : ℕ → Value
  text : List ℕ → Value
  bool : Bool → Value
  blob : List ℕ → Value
  time : Time → Value
  uuid : List ℕ → Value

-- `iota + 1`
unfoldable pub type_byte : DataType → ℕ
type_byte null_type = 1
type_byte any_type = 2
type_byte integer_type = 3
type_byte real_type = 4
type_byte text_type = 5
type_byte bool_type = 6
type_byte blob_type = 7
type_byte time_type = 8
type_byte uuid_type = 9

abbrev type_of_byte : ℕ → DataType
type_of_byte (suc zero) = null_type
type_of_byte (suc (suc zero)) = any_type
type_of_byte (suc (suc (suc zero))) = integer_type
type_of_byte (suc (suc (suc (suc zero)))) = real_type
type_of_byte (suc (suc (suc (suc (suc zero))))) = text_type
type_of_byte (suc (suc (suc (suc (suc (suc zero)))))) = bool_type
type_of_byte (suc (suc (suc (suc (suc (suc (suc zero))))))) = blob_type
type_of_byte (suc (suc (suc (suc (suc (suc (suc (suc zero)))))))) = time_type
type_of_byte _ = uuid_type

unfoldable pub put_data_type : DataType → Put
put_data_type dt = put_uint8 (type_byte dt)

unfoldable pub checked_type : ℕ → Get DataType
checked_type b =
    if ltb b (type_byte null_type) || ltb (type_byte uuid_type) b
    then fail (bad_data_type b)
    else pure (type_of_byte b)

unfoldable pub get_data_type : Get DataType
unfolding checked_type type_byte
get_data_type = do b ← get_uint8; checked_type b
