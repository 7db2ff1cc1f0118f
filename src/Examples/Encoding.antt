-- ===== src/Examples/Encoding.antt =====
-- The encodings of rows, pages, keys and the metadata, on small inputs.
use dblock.Prelude.{
  ltb, ℕ, zero, suc, ◌==◌, if◌then◌else◌, length-replicate, ◌≤◌, ◌≡◌, ◌≢◌, refl, true, List, [],
  ◌∷◌, ◌++◌, arith, length, leb, replicate,
}
use dblock.Prelude.Int.{pos, negsuc}
use dblock.Prelude.Fault.{ok, err, bad_magic, checksum_invalid, panic, out_of_fuel}
use dblock.Value.{Value, null, integer, text, bool, uuid}
use dblock.Row.{encode_row, decode_row}
use dblock.Row.Format.{row_bytes}
use dblock.Row.RoundTrip.{decode_row-encode_row}
use dblock.Row.Safety.{decode_row-ne-panic}
use dblock.Page.Decode.{decode_page}
use dblock.Page.Safety.{decode_page-ne-panic}
use dblock.Metadata.{Metadata, header_magic, metadata_length, encode, decode, calculate_checksum}
use dblock.Metadata.RoundTrip.{IsHeader, length-encode, decode-encode}
use dblock.Metadata.Acceptance.{IsStored, stored_bytes, decode-stored}
use dblock.Btree.{key_compare, key_lt, key_at, key_index, child_index}
use dblock.Btree.Order.{key_lt-encode_key}
use dblock.Btree.Search.{AreSorted, key_lt-key_index}
use dblock.Prelude.Bytes.{bytes_eq}
use dblock.Btree.Keys.{encode_key, decode_key, decode_key-encode_key}

abbrev sample_values : List Value
sample_values =
    integer (negsuc 4) ∷ text (104 ∷ 105 ∷ []) ∷ null ∷ bool true ∷ uuid (replicate 16 3) ∷ []

decode_row-encode_row_example :
    (encode_row (record { values = sample_values }) ≡ ok (row_bytes sample_values))
    × ((rest : List ℕ)
        → decode_row (row_bytes sample_values ++ rest) ≡ ok (record { values = sample_values }))
decode_row-encode_row_example =
    decode_row-encode_row sample_values (omega arith, (omega arith, (tt, (tt, (refl, tt)))))
      (omega arith)

decode_row-ne-panic_example :
    (decode_row (3 ∷ 0 ∷ 5 ∷ 255 ∷ []) ≢ panic) × (decode_row (3 ∷ 0 ∷ 5 ∷ 255 ∷ []) ≢ out_of_fuel)
decode_row-ne-panic_example = decode_row-ne-panic (3 ∷ 0 ∷ 5 ∷ 255 ∷ [])

decode_page-ne-panic_example :
    (decode_page (replicate 40 255) ≢ panic) × (decode_page (replicate 40 255) ≢ out_of_fuel)
decode_page-ne-panic_example = decode_page-ne-panic (replicate 40 255) (omega arith)

abbrev sample_metadata : Metadata
sample_metadata = record {
  dblock = header_magic;
  file_version = 3;
  schema_version = 1;
  page_size_power = 13;
  number_of_pages = 12;
  token = negsuc 8;
  checksum = 0;
}

sample_metadata-IsHeader : IsHeader sample_metadata
sample_metadata-IsHeader = record {
  magic = refl;
  file_version = omega arith;
  schema_version = omega arith;
  page_size_power = omega arith;
  number_of_pages = omega arith;
  token = omega arith;
}

length-encode_example : length (encode sample_metadata) ≡ metadata_length
length-encode_example = length-encode sample_metadata sample_metadata-IsHeader

decode-encode_example :
    decode (encode sample_metadata ++ (1 ∷ 2 ∷ [])) ≡ ok (calculate_checksum sample_metadata)
decode-encode_example = decode-encode sample_metadata sample_metadata-IsHeader (1 ∷ 2 ∷ [])

-- Another file's bytes under the name of a header, with a filler that is not zero.
abbrev foreign : Metadata
foreign = record sample_metadata { dblock = 1 ∷ 2 ∷ 3 ∷ 4 ∷ 5 ∷ 6 ∷ 7 ∷ 8 ∷ []; checksum = 9 }

foreign-IsStored : IsStored foreign
foreign-IsStored = record {
  magic = refl;
  file_version = omega arith;
  schema_version = omega arith;
  page_size_power = omega arith;
  number_of_pages = omega arith;
  token = omega arith;
  checksum = omega arith;
}

decode-stored_example : decode (stored_bytes foreign (replicate 67 1) ++ (1 ∷ [])) ≡ (
    if bytes_eq foreign.dblock header_magic
    then if 9 == (calculate_checksum foreign).checksum then ok foreign else err checksum_invalid
    else err bad_magic)
decode-stored_example =
    decode-stored foreign (replicate 67 1) (1 ∷ []) foreign-IsStored (length-replicate {A = ℕ} 67 1)

abbrev three_keys : List (List ℕ)
three_keys = (1 ∷ []) ∷ (1 ∷ 4 ∷ []) ∷ (2 ∷ []) ∷ []

three_keys-AreSorted : AreSorted three_keys
unfolding key_compare
three_keys-AreSorted zero (suc zero) h k = refl
three_keys-AreSorted zero (suc (suc zero)) h k = refl
three_keys-AreSorted (suc zero) (suc (suc zero)) h k = refl
three_keys-AreSorted a zero h k = absurd (omega arith)
three_keys-AreSorted (suc a) (suc zero) h k = absurd (omega arith)
three_keys-AreSorted (suc (suc a)) (suc (suc zero)) h k = absurd (omega arith)
three_keys-AreSorted a (suc (suc (suc b))) h k = absurd (omega arith)

key_lt-key_index_example :
    (key_lt (key_at three_keys 1) (1 ∷ 4 ∷ []) ≡ ltb 1 (key_index (1 ∷ 4 ∷ []) three_keys))
    × (key_lt (1 ∷ 4 ∷ []) (key_at three_keys 1) ≡ leb (child_index (1 ∷ 4 ∷ []) three_keys) 1)
    × (key_index (1 ∷ 4 ∷ []) three_keys ≤ length three_keys)
    × (child_index (1 ∷ 4 ∷ []) three_keys ≤ length three_keys)
key_lt-key_index_example =
    key_lt-key_index three_keys three_keys-AreSorted (1 ∷ 4 ∷ []) 1 (omega arith)

decode_key-encode_key_example : decode_key (encode_key (negsuc 6)) ≡ ok (negsuc 6)
decode_key-encode_key_example = decode_key-encode_key (negsuc 6) (omega arith)

key_lt-encode_key_example : key_lt (encode_key (pos 255)) (encode_key (pos 256)) ≡ ltb 255 256
key_lt-encode_key_example = key_lt-encode_key 255 256 (omega arith) (omega arith)
