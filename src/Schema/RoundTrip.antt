-- ===== src/Schema/RoundTrip.antt =====
-- internal/table.go and internal/index.go: definitions encoded, then decoded.
use dblock.Prelude.{
  ℕ, ◌^◌, ◌≤◌, ◌≡◌, refl, ap, List, [], ◌∷◌, ◌++◌, arith, length, All, if◌then◌else◌, ◌%◌,
}
use native.Mathlib.Nat.{mod-eq_of_lt}
use dblock.Prelude.Int.{pos}
use dblock.Prelude.Bytes.{le_bytes}
use dblock.Prelude.Fault.{ok}
use dblock.Codec.{
  Put, new_encoder, new_decoder, get_uint8, get_int32, get_bool, get_short_string_with_length,
  put_short_string_with_length, put_as_uint8, put_as_uint32, put_bool, max_int8, max_int32,
}
use dblock.Codec.Puts.{
  Puts, Puts-then, Puts-uint8, Puts-as_uint8, Puts-as_uint32, Puts-bool,
  Puts-short_string_with_length,
}
use dblock.Codec.Gets.{
  Gets, Gets-bind, Gets-map, Gets-uint8, Gets-int32, Gets-bool, Gets-short_string_with_length,
}
use dblock.Codec.Many.{get_many, joined, Puts-All, Gets-many}
use dblock.Value.{put_data_type, get_data_type, type_byte}
use dblock.Row.RoundTrip.{Gets-data_type}
use dblock.Schema.{
  Column, Table, IndexDefinition, put_column, put_table, encode_table, get_column, get_table,
  decode_table, put_index_definition, encode_index_definition, get_index_definition,
  decode_index_definition, bytes_of,
}

-- The bytes of the definitions, as the format has them.
abbrev pub short_bytes : List ℕ → List ℕ
short_bytes s = length s ∷ s

abbrev pub column_bytes : Column → List ℕ
column_bytes c = short_bytes c.name ++ ((type_byte c.data_type ∷ []) ++ short_bytes c.default_expr)

abbrev pub table_bytes : Table → List ℕ
table_bytes t =
    short_bytes t.name ++ (le_bytes 4 (length t.columns) ++ joined column_bytes t.columns)

abbrev pub index_bytes : IndexDefinition → List ℕ
index_bytes i =
    short_bytes i.table_name
    ++ (((if i.unique then 1 else 0) ∷ [])
        ++ ((length i.columns ∷ []) ++ joined short_bytes i.columns))

-- A text that fits in a short string.
abbrev pub IsShort : List ℕ → Type 0
IsShort s = length s ≤ max_int8

abbrev pub IsColumn : Column → Type 0
IsColumn c = IsShort c.name × IsShort c.default_expr

Puts-column : (c : Column) → IsColumn c → Puts (put_column c) (column_bytes c)
unfolding put_column put_data_type
Puts-column c h =
    Puts-then (put_short_string_with_length c.name) _ (Puts-short_string_with_length c.name h.0) (
      Puts-then (put_data_type c.data_type) _ (Puts-uint8 (type_byte c.data_type))
        (Puts-short_string_with_length c.default_expr h.1))

Puts-columns :
    (cs : List Column) → All IsColumn cs → All (λ c. Puts (put_column c) (column_bytes c)) cs
Puts-columns [] h = tt
Puts-columns (c ∷ cs) h = (Puts-column c h.0, Puts-columns cs h.1)

Puts-shorts :
    (ss : List (List ℕ))
    → All IsShort ss
    → All (λ s. Puts (put_short_string_with_length s) (short_bytes s)) ss
Puts-shorts [] h = tt
Puts-shorts (s ∷ ss) h = (Puts-short_string_with_length s h.0, Puts-shorts ss h.1)

Gets-column : (c : Column) → Gets get_column (column_bytes c) c
unfolding get_column
Gets-column c = Gets-bind get_short_string_with_length _ (Gets-short_string_with_length c.name) (
    Gets-bind get_data_type _ (Gets-data_type c.data_type)
      (Gets-map get_short_string_with_length _ (Gets-short_string_with_length c.default_expr) refl))

Gets-columns : (cs : List Column) → All (λ c. Gets get_column (column_bytes c) c) cs
Gets-columns [] = tt
Gets-columns (c ∷ cs) = (Gets-column c, Gets-columns cs)

Gets-shorts :
    (ss : List (List ℕ)) → All (λ s. Gets get_short_string_with_length (short_bytes s) s) ss
Gets-shorts [] = tt
Gets-shorts (s ∷ ss) = (Gets-short_string_with_length s, Gets-shorts ss)

-- A count of columns, written unsigned and read signed.
Gets-count : (n : ℕ) → n ≤ max_int32 → Gets get_int32 (le_bytes 4 n) (pos n)
Gets-count n h =
    let whole : n % 2 ^ 32 ≡ n = mod-eq_of_lt (omega arith) in
    rw whole at (Gets-int32 (pos n) (omega arith))

Gets-table : (t : Table) → length t.columns ≤ max_int32 → Gets get_table (table_bytes t) t
unfolding get_table
Gets-table t h = Gets-bind get_short_string_with_length _ (Gets-short_string_with_length t.name) (
    Gets-bind get_int32 _ (Gets-count (length t.columns) h) (
      Gets-map (get_many get_column (length t.columns)) _
        (Gets-many get_column column_bytes t.columns (Gets-columns t.columns)) refl))

Gets-index : (i : IndexDefinition) → Gets get_index_definition (index_bytes i) i
unfolding get_index_definition
Gets-index i =
    Gets-bind get_short_string_with_length _ (Gets-short_string_with_length i.table_name) (
      Gets-bind get_bool _ (Gets-bool i.unique) (
        Gets-bind get_uint8 _ (Gets-uint8 (length i.columns)) (
          Gets-map (get_many get_short_string_with_length (length i.columns)) _
            (Gets-many get_short_string_with_length short_bytes i.columns (Gets-shorts i.columns))
            refl)))

pub bytes_of-Puts : (w : Put) {bs : List ℕ} → Puts w bs → bytes_of w ≡ ok bs
unfolding bytes_of
bytes_of-Puts w p = rw (p.run new_encoder) refl

Puts-table :
    (t : Table)
    → IsShort t.name
    → All IsColumn t.columns
    → length t.columns ≤ max_int32
    → Puts (put_table t) (table_bytes t)
unfolding put_table
Puts-table t name columns few =
    Puts-then (put_short_string_with_length t.name) _ (Puts-short_string_with_length t.name name) (
      Puts-then (put_as_uint32 (pos (length t.columns))) _ (Puts-as_uint32 (length t.columns) few)
        (Puts-All put_column column_bytes t.columns (Puts-columns t.columns columns)))

Puts-index :
    (i : IndexDefinition)
    → IsShort i.table_name
    → All IsShort i.columns
    → length i.columns ≤ max_int8
    → Puts (put_index_definition i) (index_bytes i)
unfolding put_index_definition
Puts-index i name columns few =
    Puts-then (put_short_string_with_length i.table_name) _
      (Puts-short_string_with_length i.table_name name)
      (Puts-then (put_bool i.unique) _ (Puts-bool i.unique) (
        Puts-then (put_as_uint8 (pos (length i.columns))) _ (Puts-as_uint8 (length i.columns) few) (
          Puts-All put_short_string_with_length short_bytes i.columns
            (Puts-shorts i.columns columns))))

-- A table with at most 2^31 - 1 columns, all of whose names and default expressions have at most 127
-- bytes, is encoded without a panic, as the format describes, and those bytes decode to the table,
-- whatever follows them.
pub decode_table-encode_table :
    (t : Table)
    → IsShort t.name
    → All IsColumn t.columns
    → length t.columns ≤ max_int32
    → (encode_table t ≡ ok (table_bytes t))
      × ((rest : List ℕ) → decode_table (table_bytes t ++ rest) ≡ ok t)
unfolding encode_table decode_table
decode_table-encode_table t name columns few = (
  bytes_of-Puts (put_table t) (Puts-table t name columns few),
  λ rest.
      ap (λ r. r.0)
        ((Gets-table t few).run (new_decoder "table" (table_bytes t ++ rest)) rest
          (record { within = omega arith; left = refl })),
)

-- An index definition on at most 127 columns, whose names have at most 127 bytes, is encoded without a
-- panic, as the format describes, and those bytes decode to the definition, whatever follows them.
pub decode_index_definition-encode :
    (i : IndexDefinition)
    → IsShort i.table_name
    → All IsShort i.columns
    → length i.columns ≤ max_int8
    → (encode_index_definition i ≡ ok (index_bytes i))
      × ((rest : List ℕ) → decode_index_definition (index_bytes i ++ rest) ≡ ok i)
unfolding encode_index_definition decode_index_definition
decode_index_definition-encode i name columns few = (
  bytes_of-Puts (put_index_definition i) (Puts-index i name columns few),
  λ rest.
      ap (λ r. r.0)
        ((Gets-index i).run (new_decoder "index definition" (index_bytes i ++ rest)) rest
          (record { within = omega arith; left = refl })),
)
