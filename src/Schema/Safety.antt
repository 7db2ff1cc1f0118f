-- ===== src/Schema/Safety.antt =====
-- internal/table.go and internal/index.go: the definitions read from any bytes.
use dblock.Prelude.{ℕ, ◌≢◌, List, arith}
use dblock.Prelude.Int.{pos_part}
use dblock.Prelude.Fault.{panic, out_of_fuel}
use dblock.Codec.{new_decoder, get_uint8, get_int32, get_bool, get_short_string_with_length}
use dblock.Codec.Safety.{
  IsSafe, IsSafe-pure, IsSafe-bind, IsSafe-uint8, IsSafe-int32, IsSafe-bool,
  IsSafe-short_string_with_length,
}
use dblock.Codec.Many.{get_many, IsSafe-many}
use dblock.Value.{get_data_type}
use dblock.Row.Safety.{IsSafe-data_type}
use dblock.Schema.{
  get_column, get_table, decode_table, get_index_definition, decode_index_definition,
}

IsSafe-column : IsSafe get_column
unfolding get_column
IsSafe-column = IsSafe-bind get_short_string_with_length _ IsSafe-short_string_with_length λ name.
    IsSafe-bind get_data_type _ IsSafe-data_type λ data_type.
      IsSafe-bind get_short_string_with_length _ IsSafe-short_string_with_length
        (λ d. IsSafe-pure _)

IsSafe-table : IsSafe get_table
unfolding get_table
IsSafe-table = IsSafe-bind get_short_string_with_length _ IsSafe-short_string_with_length λ name.
    IsSafe-bind get_int32 _ IsSafe-int32 λ n.
      IsSafe-bind (get_many get_column (pos_part n)) _
        (IsSafe-many get_column (pos_part n) IsSafe-column) (λ columns. IsSafe-pure _)

IsSafe-index_definition : IsSafe get_index_definition
unfolding get_index_definition
IsSafe-index_definition =
    IsSafe-bind get_short_string_with_length _ IsSafe-short_string_with_length λ name.
      IsSafe-bind get_bool _ IsSafe-bool λ unique. IsSafe-bind get_uint8 _ IsSafe-uint8 λ n.
        IsSafe-bind (get_many get_short_string_with_length n) _
          (IsSafe-many get_short_string_with_length n IsSafe-short_string_with_length)
          (λ columns. IsSafe-pure _)

-- On any bytes at all `DecodeTable` and `DecodeIndexDefinition` return a definition or an error: they
-- neither panic nor run out of fuel.
pub definitions-ne-panic :
    (buf : List ℕ)
    → (decode_table buf ≢ panic)
      × (decode_table buf ≢ out_of_fuel)
      × (decode_index_definition buf ≢ panic)
      × (decode_index_definition buf ≢ out_of_fuel)
unfolding decode_table decode_index_definition
definitions-ne-panic buf =
    let t = IsSafe-table.run (new_decoder "table" buf) (omega arith) in
    let i = IsSafe-index_definition.run (new_decoder "index definition" buf) (omega arith) in
    (t.no_panic, t.no_fuel, i.no_panic, i.no_fuel)
