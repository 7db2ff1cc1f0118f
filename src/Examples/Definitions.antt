-- ===== src/Examples/Definitions.antt =====
-- The definitions of tables and indexes, and the values of columns, on small inputs.
use dblock.Prelude.{ℕ, ◌≡◌, ◌≢◌, refl, true, List, [], ◌∷◌, ◌++◌, arith}
use dblock.Prelude.Int.{pos}
use dblock.Prelude.Fault.{ok, panic, out_of_fuel}
use dblock.Value.{integer, real, text, integer_type, real_type}
use dblock.Schema.{
  Column, Table, IndexDefinition, encode_table, decode_table, encode_index_definition,
  decode_index_definition,
}
use dblock.Schema.Safety.{definitions-ne-panic}
use dblock.Schema.RoundTrip.{
  table_bytes, index_bytes, decode_table-encode_table, decode_index_definition-encode,
}
use dblock.Expr.{int_literal, eval_expr}
use dblock.Coerce.{Formats, coerce_value}
use dblock.Coerce.Stored.{Stored, coerce_value-Stored}
use dblock.Engine.Rows.{
  given, default, insert_values, bind_arguments, is_placeholder, build_row_values, pending_items,
  column_index, fill_row, find_item, eval_default_expr, coerce_row,
}
use dblock.Prelude.Bytes.{bytes_eq}
use dblock.Engine.Rows.Shape.{IsRow, insert_values-IsRow}
use dblock.Index.Distinct.{encode_mixed_array-injective}
use dblock.Examples.Floats.{whole_floats}

definitions-ne-panic_example :
    (decode_table (1 ∷ 97 ∷ 9 ∷ []) ≢ panic)
    × (decode_table (1 ∷ 97 ∷ 9 ∷ []) ≢ out_of_fuel)
    × (decode_index_definition (1 ∷ 97 ∷ 9 ∷ []) ≢ panic)
    × (decode_index_definition (1 ∷ 97 ∷ 9 ∷ []) ≢ out_of_fuel)
definitions-ne-panic_example = definitions-ne-panic (1 ∷ 97 ∷ 9 ∷ [])

abbrev id_column : Column
id_column = record { name = 105 ∷ 100 ∷ []; data_type = integer_type; default_expr = [] }

abbrev price_column : Column
price_column = record { name = 112 ∷ []; data_type = real_type; default_expr = 55 ∷ [] }

abbrev items_table : Table
items_table = record { name = 105 ∷ 116 ∷ []; columns = id_column ∷ price_column ∷ [] }

decode_table-encode_table_example :
    (encode_table items_table ≡ ok (table_bytes items_table))
    × ((rest : List ℕ) → decode_table (table_bytes items_table ++ rest) ≡ ok items_table)
decode_table-encode_table_example =
    decode_table-encode_table items_table (omega arith)
      ((omega arith, omega arith), ((omega arith, omega arith), tt)) (omega arith)

abbrev price_index : IndexDefinition
price_index = record { table_name = 105 ∷ 116 ∷ []; unique = true; columns = (112 ∷ []) ∷ [] }

decode_index_definition-encode_example :
    (encode_index_definition price_index ≡ ok (index_bytes price_index))
    × ((rest : List ℕ) → decode_index_definition (index_bytes price_index ++ rest) ≡ ok price_index)
decode_index_definition-encode_example =
    decode_index_definition-encode price_index (omega arith) (omega arith, tt) (omega arith)

-- Formats that print everything as an empty text, and take every text for a UUID.
abbrev blank_formats : Formats
blank_formats = record {
  format_float = λ x. [];
  format_time = λ t. [];
  uuid_text = λ b. [];
  is_uuid = λ s. true;
}

coerce_value-Stored_example :
    Stored blank_formats real_type (real 7)
    × (coerce_value blank_formats price_column (real 7) ≡ ok (real 7))
unfolding coerce_value
coerce_value-Stored_example =
    coerce_value-Stored blank_formats (λ b. refl) price_column (integer (pos 7)) (real 7) refl

insert_values-IsRow_example :
    IsRow blank_formats items_table.columns (integer (pos 3) ∷ real 7 ∷ [])
unfolding insert_values bind_arguments is_placeholder bytes_eq build_row_values pending_items
    column_index fill_row find_item eval_default_expr eval_expr coerce_row coerce_value
insert_values-IsRow_example =
    insert_values-IsRow blank_formats (λ b. refl) (λ source. ok (int_literal (pos 7)))
      items_table.columns ((105 ∷ 100 ∷ []) ∷ (112 ∷ []) ∷ [])
      (given (text (63 ∷ [])) ∷ default ∷ []) (integer (pos 3) ∷ []) (integer (pos 3) ∷ real 7 ∷ [])
      refl

encode_mixed_array-injective_example :
    integer (pos 3) ∷ text (97 ∷ []) ∷ [] ≡ integer (pos 3) ∷ text (97 ∷ []) ∷ []
encode_mixed_array-injective_example =
    encode_mixed_array-injective (integer (pos 3) ∷ text (97 ∷ []) ∷ [])
      (integer (pos 3) ∷ text (97 ∷ []) ∷ []) (tt, (tt, tt)) (omega arith, (omega arith, tt))
      (omega arith, (omega arith, tt)) (omega arith) (omega arith) refl
