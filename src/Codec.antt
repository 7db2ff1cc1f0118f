-- ===== src/Codec.antt =====
-- internal/codec: `Encoder` appends to a byte slice, `Decoder` reads one from front to back. Both are
-- mutated by their methods, so a method is an action of `Exec`. A string is the list of its bytes.
-- A `float64` is its IEEE bit pattern, which `math.Float64bits` gives and `math.Float64frombits` takes.
pub mod Puts
pub mod Gets
pub mod Safety
pub mod Many
use dblock.Prelude.{
  ℕ, ◌+◌, ◌-◌, ◌*◌, ◌^◌, ◌%◌, String, Bool, true, false, Option, none, some, List, [], ◌∷◌, ◌++◌,
  ltb, ◌==◌, if◌then◌else◌, length, take, drop, get_elem?, replicate,
}
use dblock.Prelude.Int.{ℤ, pos, to_word, of_word, ltb_ℤ}
use dblock.Prelude.Fault.{Result, ok, err, panic, missing_bytes}
use dblock.Prelude.Exec.{Exec, pure, lift, ◌>>=◌, ◌>>◌}
use dblock.Prelude.Bytes.{le_bytes, le_value}

pub record Encoder : Type 0 where
  pub backing : List ℕ

abbrev pub new_encoder : Encoder
new_encoder = record { backing = [] }

abbrev pub Put : Type 0
Put = Exec Encoder (Unit {0})

unfoldable pub put_bytes : List ℕ → Put
put_bytes b e = (ok tt, record { backing = e.backing ++ b })

unfoldable pub put_uint8 : ℕ → Put
put_uint8 val e = (ok tt, record { backing = e.backing ++ val ∷ [] })

unfoldable pub put_bool : Bool → Put
put_bool true = put_uint8 1
put_bool false = put_uint8 0

-- LE.AppendUint16 and its kin
append_le : ℕ → ℕ → Put
append_le w val e = (ok tt, record { backing = e.backing ++ le_bytes w val })

unfoldable pub put_uint16 : ℕ → Put
unfolding append_le
put_uint16 = append_le 2

unfoldable pub put_uint32 : ℕ → Put
unfolding append_le
put_uint32 = append_le 4

unfoldable pub put_uint64 : ℕ → Put
unfolding append_le
put_uint64 = append_le 8

abbrev pub max_int8 : ℕ
max_int8 = 2 ^ 7 - 1

abbrev pub max_int16 : ℕ
max_int16 = 2 ^ 15 - 1

abbrev pub max_int32 : ℕ
max_int32 = 2 ^ 31 - 1

-- The three `PutAs` methods panic on an `int` that is too large, and convert a negative one.
unfoldable pub put_as_uint8 : ℤ → Put
put_as_uint8 val = if ltb_ℤ (pos max_int8) val then lift panic else put_uint8 (to_word (2 ^ 8) val)

unfoldable pub put_as_uint16 : ℤ → Put
put_as_uint16 val =
    if ltb_ℤ (pos max_int16) val then lift panic else put_uint16 (to_word (2 ^ 16) val)

unfoldable pub put_as_uint32 : ℤ → Put
put_as_uint32 val =
    if ltb_ℤ (pos max_int32) val then lift panic else put_uint32 (to_word (2 ^ 32) val)

unfoldable pub put_int16 : ℤ → Put
put_int16 val = put_uint16 (to_word (2 ^ 16) val)

unfoldable pub put_int32 : ℤ → Put
put_int32 val = put_uint32 (to_word (2 ^ 32) val)

unfoldable pub put_int64 : ℤ → Put
put_int64 val = put_uint64 (to_word (2 ^ 64) val)

unfoldable pub put_float64 : ℕ → Put
put_float64 bits = put_uint64 bits

unfoldable pub put_bytes_with_length : List ℕ → Put
put_bytes_with_length b = do put_as_uint32 (pos (length b)); put_bytes b

unfoldable pub put_string_with_length : List ℕ → Put
put_string_with_length s = do put_as_uint32 (pos (length s)); put_bytes s

unfoldable pub put_short_string_with_length : List ℕ → Put
put_short_string_with_length s =
    if ltb max_int8 (length s) then lift panic else (do put_as_uint8 (pos (length s)); put_bytes s)

unfoldable pub pad : ℕ → Put
pad n e = (ok tt, record { backing = e.backing ++ replicate n 0 })

-- `pos` is an index into the slice, never negative.
pub record Decoder : Type 0 where
  pub target : String
  pub pos : ℕ
  pub backing : List ℕ

abbrev pub new_decoder : String → List ℕ → Decoder
new_decoder target buf = record { target = target; pos = 0; backing = buf }

abbrev pub Get : Type 0 → Type 0
Get A = Exec Decoder A

abbrev pub advance : Decoder → ℕ → Decoder
advance d n = record d { pos = d.pos + n }

-- `missing = need - (total - pos)` is positive.
unfoldable pub check : String → ℕ → Get (Unit {0})
check context need d =
    let total = length d.backing in
    if ltb total (d.pos + need)
    then (err (missing_bytes d.target context (d.pos + need - total) (total - d.pos)), d)
    else (ok tt, d)

-- `d.backing[d.pos]`, with the panic of an index out of range, and `d.pos++`
read_byte : Get ℕ
read_byte d = elim (get_elem? d.backing d.pos) [
  | none ↦ (panic, d)
  | some val ↦ (ok val, advance d 1)
]

-- LE.Uint16(d.backing[d.pos:]) and its kin, with their panic, and `d.pos += w`
read_le : ℕ → Get ℕ
read_le w d =
    let rest = drop d.pos d.backing in
    if ltb (length rest) w then (panic, d) else (ok (le_value (take w rest)), advance d w)

unfoldable pub get_uint8 : Get ℕ
unfolding check read_byte
get_uint8 = do check "get uint8" 1; read_byte

unfoldable pub get_uint16 : Get ℕ
unfolding check read_le
get_uint16 = do check "get uint16" 2; read_le 2

unfoldable pub get_as_uint16 : Get ℕ
unfolding get_uint16
get_as_uint16 = get_uint16

-- The context names uint16, as the source does.
unfoldable pub get_uint32 : Get ℕ
unfolding check read_le
get_uint32 = do check "get uint16" 4; read_le 4

unfoldable pub get_as_uint8 : Get ℕ
unfolding get_uint8
get_as_uint8 = get_uint8

unfoldable pub get_as_uint32 : Get ℕ
unfolding get_uint32
get_as_uint32 = get_uint32

unfoldable pub get_uint64 : Get ℕ
unfolding check read_le
get_uint64 = do check "get uint64" 8; read_le 8

unfoldable pub get_int16 : Get ℤ
unfolding get_uint16
get_int16 = do v ← get_uint16; pure (of_word (2 ^ 16) v)

unfoldable pub get_int32 : Get ℤ
unfolding get_uint32
get_int32 = do v ← get_uint32; pure (of_word (2 ^ 32) v)

unfoldable pub get_int64 : Get ℤ
unfolding get_uint64
get_int64 = do v ← get_uint64; pure (of_word (2 ^ 64) v)

unfoldable pub get_float32 : Get ℕ
unfolding get_uint32
get_float32 = do check "get float32" 4; get_uint32

-- It asks for four bytes, and `get_uint64` for the eight.
unfoldable pub get_float64 : Get ℕ
unfolding check get_uint64
get_float64 = do check "get float64" 4; get_uint64

-- `d.backing[d.pos : d.pos+n]`
read_slice : ℕ → Get (List ℕ)
read_slice n d =
    if ltb (length d.backing) (d.pos + n)
    then (panic, d)
    else (ok (take n (drop d.pos d.backing)), advance d n)

unfoldable pub get_bytes : ℕ → Get (List ℕ)
unfolding check read_slice
get_bytes n = do check "get bytes" n; read_slice n

unfoldable pub get_string_with_length : Get (List ℕ)
unfolding check get_as_uint32 get_bytes
get_string_with_length = do
  check "get string length" 4
  n ← get_as_uint32
  check "get string" n
  get_bytes n

unfoldable pub get_short_string_with_length : Get (List ℕ)
unfolding check get_as_uint8 get_bytes
get_short_string_with_length = do
  check "get string length" 1
  n ← get_as_uint8
  check "get string" n
  get_bytes n

unfoldable pub get_bytes_with_length : Get (List ℕ)
unfolding check get_as_uint32 get_bytes
get_bytes_with_length = do
  check "get bytes length" 4
  n ← get_as_uint32
  check "get bytes" n
  get_bytes n

unfoldable pub remaining : Decoder → ℤ
remaining d = dblock.Prelude.Int.sub_ℕ (length d.backing) d.pos

unfoldable pub get_bool : Get Bool
unfolding get_uint8
get_bool = do val ← get_uint8; pure (val == 1)
