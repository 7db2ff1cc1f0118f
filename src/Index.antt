-- ===== src/Index.antt =====
-- internal/index.go: the keys of an index.
pub mod Distinct
use dblock.Prelude.{ℕ, Bool, Option, none, some, List, [], ◌∷◌, ◌++◌, length, get_elem?}
use dblock.Prelude.Int.{pos}
use dblock.Prelude.Fault.{Result, ok, err, no_such_column, out_of_bounds}
use dblock.Prelude.Outcome
use dblock.Prelude.Exec.{pure, ◌>>=◌, ◌>>◌}
use dblock.Codec.{
  Put, new_encoder, put_as_uint8, put_as_uint32, put_int16, put_int64, put_float64,
  put_bytes_with_length, put_string_with_length,
}
use dblock.Codec.Many.{put_all}
use dblock.Value.{
  Value, null, integer, real, text, bool, blob, time, uuid, Time, null_type, put_data_type,
}
use dblock.Row.{Row, minutes}
use dblock.Schema.{Column, bytes_of}
use dblock.Engine.Rows.{column_index}

unfoldable pub put_time : Time → Put
put_time t = do put_int64 t.unix; put_as_uint32 (pos t.nanosecond); put_int16 (minutes t.offset)

-- A value without a tag of its type. Booleans and UUIDs are not written.
unfoldable pub put_key_value : Value → Put
put_key_value (integer v) = put_int64 v
put_key_value (real v) = put_float64 v
put_key_value (time v) = put_time v
put_key_value (text v) = put_string_with_length v
put_key_value (blob v) = put_bytes_with_length v
put_key_value null = put_data_type null_type
put_key_value (bool v) = pure tt
put_key_value (uuid v) = pure tt

unfoldable pub put_mixed_array : List Value → Put
put_mixed_array values = do put_as_uint8 (pos (length values)); put_all put_key_value values

unfoldable pub encode_mixed_array : List Value → Result (List ℕ)
encode_mixed_array values = bytes_of (put_mixed_array values)

-- `Row.GetValue`, with the ordinals of the columns of a table.
unfoldable pub get_row_value : List Column → Row → List ℕ → Result Value
get_row_value columns row name = elim (column_index columns name) [
  | none ↦ err no_such_column
  | some i ↦ elim (get_elem? row.values i) [ none ↦ err out_of_bounds | some v ↦ ok v ]
]

unfoldable pub key_values : List Column → Row → List (List ℕ) → Result (List Value)
key_values columns row [] = ok []
key_values columns row (name ∷ names) =
    Outcome.◌>>=◌ (get_row_value columns row name)
      λ v. Outcome.◌>>=◌ (key_values columns row names) λ vs. ok (v ∷ vs)

unfoldable pub compute_key : List Column → List (List ℕ) → Row → Result (List ℕ)
compute_key columns on_columns row =
    Outcome.◌>>=◌ (key_values columns row on_columns) encode_mixed_array
