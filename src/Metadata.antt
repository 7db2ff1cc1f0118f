-- ===== src/Metadata.antt =====
-- internal/metadata/metadata.go: the hundred bytes at the start of a database file.
pub mod RoundTrip
pub mod Acceptance
use dblock.Prelude.{ℕ, ◌+◌, ◌^◌, ◌%◌, Bool, true, false, List, [], ◌∷◌, length, if◌then◌else◌, ◌==◌}
use dblock.Prelude.Int.{ℤ, pos, of_word}
use dblock.Prelude.Fault.{Result, bad_magic, checksum_invalid}
use dblock.Prelude.Exec.{pure, fail, ◌>>=◌, ◌>>◌}
use dblock.Prelude.Bytes.{bytes_eq}
use dblock.Prelude.Bits.{checksum_ieee}
use dblock.Codec.{
  Put, Get, new_encoder, new_decoder, put_bytes, put_uint8, put_uint32, put_int64, pad, get_bytes,
  get_uint8, get_uint32, get_int64,
}

pub record Metadata : Type 0 where
  pub dblock : List ℕ
  pub file_version : ℕ
  pub schema_version : ℕ
  pub page_size_power : ℕ
  pub number_of_pages : ℕ
  pub token : ℤ
  pub checksum : ℕ

-- "dblock01"
abbrev pub header_magic : List ℕ
header_magic = b'd' ∷ b'b' ∷ b'l' ∷ b'o' ∷ b'c' ∷ b'k' ∷ b'0' ∷ b'1' ∷ []

-- `Length`
abbrev pub metadata_length : ℕ
metadata_length = 100

abbrev pub padding : ℕ
padding = 67

-- `1 << m.PageSizePower` on an `int` of 64 bits
unfoldable pub page_size : Metadata → ℤ
page_size m = of_word (2 ^ 64) (2 ^ m.page_size_power % 2 ^ 64)

-- What both `CalculateChecksum` and `Encode` write first.
unfoldable pub put_fields : Metadata → Put
put_fields m = do
  put_bytes m.dblock
  put_uint32 m.file_version
  put_uint32 m.schema_version
  put_uint8 m.page_size_power
  put_uint32 m.number_of_pages
  put_int64 m.token
  pad padding

unfoldable pub calculate_checksum : Metadata → Metadata
unfolding put_fields
calculate_checksum m = record m { checksum = checksum_ieee (put_fields m new_encoder).1.backing }

-- `checksum := crc32.ChecksumIEEE(e.Bytes()); e.PutUint32(checksum)`
put_checksum : Put
put_checksum e = put_uint32 (checksum_ieee e.backing) e

unfoldable pub encode : Metadata → List ℕ
unfolding put_fields put_checksum
encode m = ((put_fields m >> put_checksum) new_encoder).1.backing

unfoldable pub new_metadata : Metadata
unfolding calculate_checksum
new_metadata = calculate_checksum (record {
  dblock = header_magic;
  file_version = 1;
  schema_version = 1;
  page_size_power = 13;
  number_of_pages = 0;
  token = pos 0;
  checksum = 0;
})

-- The test of the magic, and the test of the checksum.
check_magic : List ℕ → Get (Unit {0})
check_magic magic = if bytes_eq magic header_magic then pure tt else fail bad_magic

check_checksum : ℕ → Metadata → Get Metadata
unfolding calculate_checksum
check_checksum stored m =
    if stored == (calculate_checksum m).checksum
    then pure (calculate_checksum m)
    else fail checksum_invalid

unfoldable pub get_metadata : Get Metadata
unfolding check_magic check_checksum
get_metadata = do
  magic ← get_bytes (length header_magic)
  check_magic magic
  file_version ← get_uint32
  schema_version ← get_uint32
  page_size_power ← get_uint8
  number_of_pages ← get_uint32
  token ← get_int64
  get_bytes padding
  buf_checksum ← get_uint32
  check_checksum buf_checksum (record {
    dblock = header_magic;
    file_version = file_version;
    schema_version = schema_version;
    page_size_power = page_size_power;
    number_of_pages = number_of_pages;
    token = token;
    checksum = 0;
  })

unfoldable pub decode : List ℕ → Result Metadata
unfolding get_metadata
decode buf = (get_metadata (new_decoder "metadata" buf)).0
