-- ===== src/Metadata/RoundTrip.antt =====
-- internal/metadata/metadata.go: the header encoded, then decoded.
use dblock.Prelude.{
  append_assoc, append-nil, ℕ, ◌^◌, ◌<◌, ◌≡◌, refl, ap, ◌∙◌, sym, List, [], ◌∷◌, ◌++◌, arith,
  length, replicate, length-append, ==_refl,
}
use dblock.Prelude.Int.{Fits, to_word}
use dblock.Prelude.Fault.{ok}
use dblock.Prelude.Exec.{>>=-ok}
use dblock.Prelude.Bytes.{le_bytes, length-le_bytes, bytes_eq}
use dblock.Prelude.Bits.{checksum_ieee, checksum_ieee-lt}
use dblock.Codec.{
  new_encoder, new_decoder, put_bytes, put_uint8, put_uint32, put_int64, pad, get_bytes, get_uint8,
  get_uint32, get_int64,
}
use dblock.Codec.Puts.{Puts, Puts-then, Puts-bytes, Puts-uint8, Puts-uint32, Puts-int64, Puts-pad}
use dblock.Codec.Gets.{Gets, Gets-pure, Gets-bind, Gets-uint8, Gets-uint32, Gets-int64, Gets-bytes}
use dblock.Metadata.{
  Metadata, header_magic, metadata_length, padding, put_fields, put_checksum, encode,
  calculate_checksum, check_magic, check_checksum, get_metadata, decode,
}

-- The values that the fields' Go types hold, under the magic.
pub record IsHeader (m : Metadata) : Type 0 where
  pub magic : m.dblock ≡ header_magic
  pub file_version : m.file_version < 2 ^ 32
  pub schema_version : m.schema_version < 2 ^ 32
  pub page_size_power : m.page_size_power < 2 ^ 8
  pub number_of_pages : m.number_of_pages < 2 ^ 32
  pub token : Fits (2 ^ 64) m.token

-- The first 96 bytes, field by field.
abbrev pub field_bytes : Metadata → List ℕ
field_bytes m =
    m.dblock
    ++ (le_bytes 4 m.file_version
        ++ (le_bytes 4 m.schema_version
            ++ ((m.page_size_power ∷ [])
                ++ (le_bytes 4 m.number_of_pages
                    ++ (le_bytes 8 (to_word (2 ^ 64) m.token) ++ replicate padding 0)))))

Puts-fields : (m : Metadata) → Puts (put_fields m) (field_bytes m)
unfolding put_fields
Puts-fields m = Puts-then (put_bytes m.dblock) _ (Puts-bytes m.dblock) (
    Puts-then (put_uint32 m.file_version) _ (Puts-uint32 m.file_version) (
      Puts-then (put_uint32 m.schema_version) _ (Puts-uint32 m.schema_version) (
        Puts-then (put_uint8 m.page_size_power) _ (Puts-uint8 m.page_size_power) (
          Puts-then (put_uint32 m.number_of_pages) _ (Puts-uint32 m.number_of_pages) (
            Puts-then (put_int64 m.token) (pad padding) (Puts-int64 m.token) (Puts-pad padding))))))

checksum_lem : (m : Metadata) → (calculate_checksum m).checksum ≡ checksum_ieee (field_bytes m)
unfolding calculate_checksum
checksum_lem m = ap (λ r. checksum_ieee r.1.backing) ((Puts-fields m).run new_encoder)

-- `encode` writes the fields, then their checksum.
encode_lem : (m : Metadata) → encode m ≡ field_bytes m ++ le_bytes 4 (checksum_ieee (field_bytes m))
unfolding encode put_checksum
encode_lem m =
    ap (λ r. r.1.backing)
      (>>=-ok (put_fields m) (λ _. put_checksum) new_encoder ((Puts-fields m).run new_encoder)
        ∙ (Puts-uint32 (checksum_ieee (field_bytes m))).run (record { backing = field_bytes m }))

-- The encoded header is 100 bytes, the length that the pages behind it are cut by, if the header
-- has the magic and its fields are values of their Go types.
pub length-encode : (m : Metadata) → IsHeader m → length (encode m) ≡ metadata_length
length-encode m h =
    rw encode_lem
      (simp (length-append, length-le_bytes) (omega (arith, ap (λ bs. length bs) h.magic)))

-- The magic and the fields of `m`, as `decode` rebuilds them.
abbrev base : Metadata → Metadata
base m = record m { dblock = header_magic; checksum = 0 }

calculate_checksum-base :
    (m : Metadata) → IsHeader m → calculate_checksum (base m) ≡ calculate_checksum m
unfolding calculate_checksum put_fields
calculate_checksum-base m h = λ i. calculate_checksum (record m { dblock = sym h.magic i })

Gets-checksum :
    (m : Metadata)
    → Gets (check_checksum (checksum_ieee (field_bytes m)) m) [] (calculate_checksum m)
unfolding check_checksum
Gets-checksum m = rw (checksum_lem m, ==_refl) (Gets-pure _)

Gets-magic : Gets (check_magic header_magic) [] tt
unfolding check_magic bytes_eq
Gets-magic = Gets-pure tt

-- The encoded header, bracketed in the order of the reads.
abbrev laid : Metadata → List ℕ
laid m =
    header_magic
    ++ (le_bytes 4 m.file_version
        ++ (le_bytes 4 m.schema_version
            ++ ((m.page_size_power ∷ [])
                ++ (le_bytes 4 m.number_of_pages
                    ++ (le_bytes 8 (to_word (2 ^ 64) m.token)
                        ++ (replicate padding 0
                            ++ (le_bytes 4 (checksum_ieee (field_bytes (base m))) ++ [])))))))

encode-laid : (m : Metadata) → IsHeader m → encode m ≡ laid m
encode-laid m h =
    encode_lem m
    ∙ (λ i.
        let fields = field_bytes (record m { dblock = h.magic i }) in
        fields ++ le_bytes 4 (checksum_ieee fields))
    ∙ simp (append_assoc, append-nil)

Gets-metadata :
    (m : Metadata) → IsHeader m → Gets get_metadata (laid m) (calculate_checksum (base m))
unfolding get_metadata
Gets-metadata m h = Gets-bind (get_bytes 8) _ (Gets-bytes header_magic) (
    Gets-bind (check_magic header_magic) _ Gets-magic (
      Gets-bind get_uint32 _ (Gets-uint32 m.file_version h.file_version) (
        Gets-bind get_uint32 _ (Gets-uint32 m.schema_version h.schema_version) (
          Gets-bind get_uint8 _ (Gets-uint8 m.page_size_power) (
            Gets-bind get_uint32 _ (Gets-uint32 m.number_of_pages h.number_of_pages) (
              Gets-bind get_int64 _ (Gets-int64 m.token h.token) (
                Gets-bind (get_bytes padding) _ (Gets-bytes (replicate padding 0)) (
                  Gets-bind get_uint32 _
                    (Gets-uint32 (checksum_ieee (field_bytes (base m))) (checksum_ieee-lt _))
                    (Gets-checksum (base m))))))))))

-- Decoding an encoded header, whatever bytes follow it, gives its fields with their checksum, if
-- the header has the magic and its fields are values of their Go types.
pub decode-encode :
    (m : Metadata)
    → IsHeader m
    → (rest : List ℕ) → decode (encode m ++ rest) ≡ ok (calculate_checksum m)
unfolding decode
decode-encode m h rest =
    ap (λ bs. decode (bs ++ rest)) (encode-laid m h)
    ∙ ap (λ r. r.0)
        ((Gets-metadata m h).run (new_decoder "metadata" (laid m ++ rest)) rest
          (record { within = omega arith; left = refl }))
    ∙ ap ok (calculate_checksum-base m h)
