-- ===== src/Schema.antt =====
-- internal/table.go and internal/index.go: the definitions of tables and indexes as bytes, which the
-- schema table holds. Names and default expressions are texts.
pub mod RoundTrip
pub mod Safety
use dblock.Prelude.{
  ℕ, ◌+◌, ◌*◌, ◌^◌, Bool, true, false, List, [], ◌∷◌, ◌++◌, length, map, ltb, if◌then◌else◌,
}
use dblock.Prelude.Int.{ℤ, pos, negsuc, pos_part}
use dblock.Prelude.Fault.{Result, ok, err, panic, out_of_fuel}
use dblock.Prelude.Exec.{pure, ◌>>=◌, ◌>>◌}
use dblock.Codec.{
  Encoder, Put, new_encoder, put_as_uint8, put_as_uint32, put_bool, put_short_string_with_length,
  Decoder, Get, new_decoder, get_uint8, get_int32, get_bool, get_short_string_with_length,
}
use dblock.Codec.Many.{put_all, get_many}
use dblock.Row.{encoded}
use dblock.Value.{DataType, put_data_type, get_data_type}

pub record Column : Type 0 where
  pub name : List ℕ
  pub data_type : DataType
  pub default_expr : List ℕ

pub record Table : Type 0 where
  pub name : List ℕ
  pub columns : List Column

unfoldable pub put_column : Column → Put
put_column col = do
  put_short_string_with_length col.name
  put_data_type col.data_type
  put_short_string_with_length col.default_expr

unfoldable pub put_table : Table → Put
put_table t = do
  put_short_string_with_length t.name
  put_as_uint32 (pos (length t.columns))
  put_all put_column t.columns

-- The bytes of an encoder that did not panic.
unfoldable pub bytes_of : Put → Result (List ℕ)
unfolding encoded
bytes_of put = encoded (put new_encoder)

-- `Table.Encode`
unfoldable pub encode_table : Table → Result (List ℕ)
encode_table t = bytes_of (put_table t)

unfoldable pub get_column : Get Column
get_column = do
  name ← get_short_string_with_length
  data_type ← get_data_type
  default_expr ← get_short_string_with_length
  pure (record { name = name; data_type = data_type; default_expr = default_expr })

-- A negative count is a range of no rounds.
unfoldable pub get_table : Get Table
get_table = do
  name ← get_short_string_with_length
  num_cols ← get_int32
  columns ← get_many get_column (pos_part num_cols)
  pure (record { name = name; columns = columns })

-- `DecodeTable`
unfoldable pub decode_table : List ℕ → Result Table
decode_table buf = (get_table (new_decoder "table" buf)).0

unfoldable pub column_names : Table → List (List ℕ)
column_names t = map (λ (c : Column). c.name) t.columns

pub record IndexDefinition : Type 0 where
  pub table_name : List ℕ
  pub unique : Bool
  pub columns : List (List ℕ)

unfoldable pub put_index_definition : IndexDefinition → Put
put_index_definition i = do
  put_short_string_with_length i.table_name
  put_bool i.unique
  put_as_uint8 (pos (length i.columns))
  put_all put_short_string_with_length i.columns

-- `IndexDefinition.Encode`
unfoldable pub encode_index_definition : IndexDefinition → Result (List ℕ)
encode_index_definition i = bytes_of (put_index_definition i)

unfoldable pub get_index_definition : Get IndexDefinition
get_index_definition = do
  table_name ← get_short_string_with_length
  unique ← get_bool
  num_cols ← get_uint8
  columns ← get_many get_short_string_with_length num_cols
  pure (record { table_name = table_name; unique = unique; columns = columns })

-- `DecodeIndexDefinition`
unfoldable pub decode_index_definition : List ℕ → Result IndexDefinition
decode_index_definition buf = (get_index_definition (new_decoder "index definition" buf)).0
