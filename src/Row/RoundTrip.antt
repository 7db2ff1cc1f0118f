-- ===== src/Row/RoundTrip.antt =====
-- internal/row.go: a row encoded, then decoded.
use dblock.Prelude.{
  ℕ, lt→ltb, ◌≤◌, ◌≡◌, refl, ap, Bool, true, false, not, ◌==◌, List, [], ◌∷◌, ◌++◌, arith, length,
  All,
}
use dblock.Prelude.Fault.{ok}
use dblock.Prelude.Exec.{◌>>◌}
use dblock.Codec.{
  Put, new_encoder, new_decoder, max_int16, put_bool, put_int64, put_float64, put_bytes,
  put_as_uint16, put_as_uint32, put_int16, put_string_with_length, put_bytes_with_length, get_uint8,
  get_uint16, get_int16, get_int64, get_float64, get_as_uint32, get_bytes, get_bytes_with_length,
  get_string_with_length,
}
use dblock.Codec.Puts.{
  Puts, Puts-then, Puts-pure, Puts-uint8, Puts-bytes, Puts-int16, Puts-int64, Puts-float64,
  Puts-as_uint16, Puts-as_uint32, Puts-bytes_with_length, Puts-string_with_length,
}
use dblock.Codec.Gets.{
  Gets, Gets-pure, Gets-bind, Gets-map, Gets-uint8, Gets-uint16, Gets-as_uint32, Gets-int16,
  Gets-int64, Gets-float64, Gets-bytes, Gets-bytes_with_length, Gets-string_with_length,
}
use dblock.Value.{
  DataType, null_type, any_type, integer_type, real_type, text_type, bool_type, blob_type,
  time_type, uuid_type, Value, null, integer, real, text, bool, blob, time, uuid, Time,
  put_data_type, get_data_type, type_byte,
}
use dblock.Row.{
  encode_value, encode_values, put_row, encode_row, get_value_of, get_value, get_values, get_row,
  decode_row, minutes, seconds, unix_time,
}
use dblock.Row.Format.{bool_byte, value_bytes, values_bytes, row_bytes, IsStorable}

Puts-bool : (v : Bool) → Puts (put_bool v) (bool_byte v ∷ [])
unfolding put_bool
Puts-bool true = Puts-uint8 1
Puts-bool false = Puts-uint8 0

Puts-data_type : (dt : DataType) → Puts (put_data_type dt) (type_byte dt ∷ [])
unfolding put_data_type
Puts-data_type dt = Puts-uint8 _

-- A value behind its type byte.
tagged :
    (dt : DataType) (w : Put) {bs : List ℕ}
    → Puts w bs
    → Puts (put_data_type dt >> w) (type_byte dt ∷ bs)
tagged dt w p = Puts-then (put_data_type dt) w (Puts-data_type dt) p

Puts-value : (v : Value) → IsStorable v → Puts (encode_value v) (value_bytes v)
unfolding encode_value type_byte
Puts-value null h = Puts-data_type null_type
Puts-value (integer v) h = tagged integer_type (put_int64 v) (Puts-int64 v)
Puts-value (real v) h = tagged real_type (put_float64 v) (Puts-float64 v)
Puts-value (text v) h = tagged text_type (put_string_with_length v) (Puts-string_with_length v h)
Puts-value (bool v) h = tagged bool_type (put_bool v) (Puts-bool v)
Puts-value (blob v) h = tagged blob_type (put_bytes_with_length v) (Puts-bytes_with_length v h)
Puts-value (time v) h = tagged time_type _ (
    Puts-then (put_int64 v.unix) _ (Puts-int64 v.unix) (
      Puts-then (put_as_uint32 _) (put_int16 _) (Puts-as_uint32 v.nanosecond (omega arith))
        (Puts-int16 (minutes v.offset))))
Puts-value (uuid v) h = tagged uuid_type (put_bytes v) (Puts-bytes v)

Puts-values : (vs : List Value) → All IsStorable vs → Puts (encode_values vs) (values_bytes vs)
unfolding encode_values
Puts-values [] h = Puts-pure
Puts-values (v ∷ vs) h =
    Puts-then (encode_value v) (encode_values vs) (Puts-value v h.0) (Puts-values vs h.1)

Puts-row :
    (vs : List Value)
    → All IsStorable vs
    → length vs ≤ max_int16
    → Puts (put_row (record { values = vs })) (row_bytes vs)
unfolding put_row
Puts-row vs h n =
    Puts-then (put_as_uint16 _) (encode_values vs) (Puts-as_uint16 (length vs) n) (Puts-values vs h)

pub Gets-data_type : (dt : DataType) → Gets get_data_type (type_byte dt ∷ []) dt
unfolding get_data_type
Gets-data_type null_type = Gets-bind get_uint8 _ (Gets-uint8 1) (Gets-pure null_type)
Gets-data_type any_type = Gets-bind get_uint8 _ (Gets-uint8 2) (Gets-pure any_type)
Gets-data_type integer_type = Gets-bind get_uint8 _ (Gets-uint8 3) (Gets-pure integer_type)
Gets-data_type real_type = Gets-bind get_uint8 _ (Gets-uint8 4) (Gets-pure real_type)
Gets-data_type text_type = Gets-bind get_uint8 _ (Gets-uint8 5) (Gets-pure text_type)
Gets-data_type bool_type = Gets-bind get_uint8 _ (Gets-uint8 6) (Gets-pure bool_type)
Gets-data_type blob_type = Gets-bind get_uint8 _ (Gets-uint8 7) (Gets-pure blob_type)
Gets-data_type time_type = Gets-bind get_uint8 _ (Gets-uint8 8) (Gets-pure time_type)
Gets-data_type uuid_type = Gets-bind get_uint8 _ (Gets-uint8 9) (Gets-pure uuid_type)

-- The payload of a value behind its type byte.
payload :
    (dt : DataType) {bs : List ℕ} {v : Value}
    → Gets (get_value_of dt) bs v
    → Gets get_value (type_byte dt ∷ bs) v
unfolding get_value
payload dt p = Gets-bind get_data_type get_value_of (Gets-data_type dt) p

unix_time-within :
    (v : Time)
    → IsStorable (time v)
    → unix_time v.unix v.nanosecond (seconds (minutes v.offset)) ≡ v
unfolding unix_time
unix_time-within v h =
    rw (lt→ltb v.nanosecond 1_000_000_000 (omega (arith, h.1)))
      (λ i. record { unix = v.unix; nanosecond = v.nanosecond; offset = h.3 i })

Gets-value : (v : Value) → IsStorable v → Gets get_value (value_bytes v) v
unfolding get_value_of type_byte
Gets-value null h = payload null_type (Gets-pure null)
Gets-value (integer v) h = payload integer_type (Gets-map get_int64 integer (Gets-int64 v h) refl)
Gets-value (real v) h = payload real_type (Gets-map get_float64 real (Gets-float64 v h) refl)
Gets-value (text v) h =
    payload text_type
      (Gets-map get_string_with_length text (Gets-string_with_length v (omega arith)) refl)
Gets-value (bool true) h =
    payload bool_type (Gets-map get_uint8 (λ b. bool (not (b == 0))) (Gets-uint8 1) refl)
Gets-value (bool false) h =
    payload bool_type (Gets-map get_uint8 (λ b. bool (not (b == 0))) (Gets-uint8 0) refl)
Gets-value (blob v) h =
    payload blob_type
      (Gets-map get_bytes_with_length blob (Gets-bytes_with_length v (omega arith)) refl)
Gets-value (time v) h = payload time_type (
    Gets-bind get_int64 _ (Gets-int64 v.unix h.0) (
      Gets-bind get_as_uint32 _ (Gets-as_uint32 v.nanosecond (omega arith)) (
        Gets-map get_int16 _ (Gets-int16 (minutes v.offset) h.2) (ap time (unix_time-within v h)))))
Gets-value (uuid v) h =
    payload uuid_type (Gets-map (get_bytes 16) uuid (rw h at (Gets-bytes v)) refl)

Gets-values :
    (vs : List Value) → All IsStorable vs → Gets (get_values (length vs)) (values_bytes vs) vs
unfolding get_values
Gets-values [] h = Gets-pure []
Gets-values (v ∷ vs) h =
    Gets-bind get_value _ (Gets-value v h.0)
      (Gets-map (get_values (length vs)) (λ ws. v ∷ ws) (Gets-values vs h.1) refl)

Gets-row :
    (vs : List Value)
    → All IsStorable vs
    → length vs ≤ max_int16
    → Gets get_row (row_bytes vs) (record { values = vs })
unfolding get_row
Gets-row vs h n =
    Gets-bind get_uint16 _ (Gets-uint16 (length vs) (omega arith))
      (Gets-map (get_values (length vs)) (λ ws. record { values = ws }) (Gets-values vs h) refl)

-- A row of at most 32767 storable values is encoded without a panic, as the format describes, and
-- decoding those bytes, whatever follows them, gives the row back. Storable are the values of the
-- Go types, texts and blobs of up to 2^31 - 1 bytes, and times in zones of whole minutes.
pub decode_row-encode_row :
    (vs : List Value)
    → All IsStorable vs
    → length vs ≤ max_int16
    → (encode_row (record { values = vs }) ≡ ok (row_bytes vs))
      × ((rest : List ℕ) → decode_row (row_bytes vs ++ rest) ≡ ok (record { values = vs }))
unfolding encode_row decode_row
decode_row-encode_row vs h n = (
  rw ((Puts-row vs h n).run new_encoder),
  λ rest.
      ap (λ r. r.0)
        ((Gets-row vs h n).run (new_decoder "row" (row_bytes vs ++ rest)) rest
          (record { within = omega arith; left = refl })),
)
