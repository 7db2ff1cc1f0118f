-- ===== src/Row.antt =====
-- internal/row.go: a row as bytes. `values` are the row's columns in order.
pub mod Format
pub mod RoundTrip
pub mod Safety
use dblock.Prelude.{
  ℕ, zero, suc, ◌+◌, ◌*◌, ◌/◌, ◌%◌, ltb, Bool, true, false, List, [], ◌∷◌, length, ◌==◌,
  if◌then◌else◌, not,
}
use dblock.Prelude.Int.{ℤ, pos, negsuc, ◌+ℤ◌, sub_ℕ, wrap}
use dblock.Prelude.Fault.{Result, ok, err, panic, out_of_fuel, unsupported_data_type}
use dblock.Prelude.Exec.{pure, fail, ◌>>=◌, ◌>>◌}
use dblock.Codec.{
  Put, Get, Encoder, new_encoder, new_decoder, put_as_uint16, put_as_uint32, put_int16, put_int64,
  put_float64, put_bool, put_bytes, put_bytes_with_length, put_string_with_length, get_uint8,
  get_uint16, get_int16, get_int64, get_float64, get_as_uint32, get_bytes, get_bytes_with_length,
  get_string_with_length,
}
use dblock.Value.{
  DataType, null_type, integer_type, real_type, text_type, bool_type, blob_type, time_type,
  uuid_type, Value, null, integer, real, text, bool, blob, time, uuid, Time, type_byte,
  put_data_type, get_data_type,
}

pub record Row : Type 0 where
  pub values : List Value

-- Go's `offset / 60`, which rounds towards zero.
unfoldable pub minutes : ℤ → ℤ
minutes (pos n) = pos (n / 60)
minutes (negsuc n) = sub_ℕ 0 (suc n / 60)

-- `int(offsetMin)*60`
unfoldable pub seconds : ℤ → ℤ
seconds (pos n) = pos (n * 60)
seconds (negsuc n) = negsuc (n * 60 + 59)

unfoldable pub encode_value : Value → Put
encode_value null = put_data_type null_type
encode_value (integer v) = do put_data_type integer_type; put_int64 v
encode_value (real v) = do put_data_type real_type; put_float64 v
encode_value (text v) = do put_data_type text_type; put_string_with_length v
encode_value (bool v) = do put_data_type bool_type; put_bool v
encode_value (blob v) = do put_data_type blob_type; put_bytes_with_length v
encode_value (time v) = do
  put_data_type time_type
  put_int64 v.unix
  put_as_uint32 (pos v.nanosecond)
  put_int16 (minutes v.offset)
encode_value (uuid v) = do put_data_type uuid_type; put_bytes v

encode_values : List Value → Put
encode_values [] = pure tt
encode_values (v ∷ vs) = do encode_value v; encode_values vs

unfoldable pub put_row : Row → Put
unfolding encode_values
put_row r = do put_as_uint16 (pos (length r.values)); encode_values r.values

unfoldable pub encoded : Result (Unit {0}) × Encoder → Result (List ℕ)
encoded (ok _, e) = ok e.backing
encoded (err x, e) = err x
encoded (panic, e) = panic
encoded (out_of_fuel, e) = out_of_fuel

-- What `e.Bytes()` returns after the writes, if none of them panics.
unfoldable pub encode_row : Row → Result (List ℕ)
unfolding encoded
encode_row r = encoded (put_row r new_encoder)

-- `time.Unix`: nanoseconds of a second or more are carried into the `int64` of seconds.
unfoldable pub unix_time : ℤ → ℕ → ℤ → Time
unix_time sec nsec offset =
    if ltb nsec 1_000_000_000
    then record { unix = sec; nanosecond = nsec; offset = offset }
    else record {
      unix = wrap (sec +ℤ pos (nsec / 1_000_000_000));
      nanosecond = nsec % 1_000_000_000;
      offset = offset;
    }

-- The cases of the switch. A type that no value has is an error.
get_value_of : DataType → Get Value
get_value_of null_type = pure null
get_value_of integer_type = do v ← get_int64; pure (integer v)
get_value_of real_type = do v ← get_float64; pure (real v)
get_value_of text_type = do v ← get_string_with_length; pure (text v)
get_value_of bool_type = do v ← get_uint8; pure (bool (not (v == 0)))
get_value_of blob_type = do v ← get_bytes_with_length; pure (blob v)
get_value_of time_type = do
  sec ← get_int64
  nsec ← get_as_uint32
  offset_min ← get_int16
  pure (time (unix_time sec nsec (seconds offset_min)))
get_value_of uuid_type = do b ← get_bytes 16; pure (uuid b)
get_value_of dt = fail (unsupported_data_type (type_byte dt))

unfoldable pub get_value : Get Value
unfolding get_value_of
get_value = do dt ← get_data_type; get_value_of dt

-- `for i := range count`
get_values : ℕ → Get (List Value)
get_values zero = pure []
get_values (suc n) = do v ← get_value; vs ← get_values n; pure (v ∷ vs)

unfoldable pub get_row : Get Row
unfolding get_values
get_row = do count ← get_uint16; vs ← get_values count; pure (record { values = vs })

unfoldable pub decode_row : List ℕ → Result Row
unfolding get_row
decode_row buf = (get_row (new_decoder "row" buf)).0
