-- ===== src/Row/Format.antt =====
-- The bytes of a row, as an independent description of the format.
use dblock.Prelude.{ℕ, ◌^◌, ◌≤◌, ◌<◌, ◌≡◌, Bool, true, false, List, [], ◌∷◌, ◌++◌, length}
use dblock.Prelude.Int.{Fits, to_word}
use dblock.Prelude.Bytes.{le_bytes}
use dblock.Codec.{max_int32}
use dblock.Value.{Value, null, integer, real, text, bool, blob, time, uuid}
use dblock.Row.{minutes, seconds}

abbrev pub bool_byte : Bool → ℕ
bool_byte true = 1
bool_byte false = 0

-- A type byte, then the payload.
abbrev pub value_bytes : Value → List ℕ
value_bytes null = 1 ∷ []
value_bytes (integer v) = 3 ∷ le_bytes 8 (to_word (2 ^ 64) v)
value_bytes (real v) = 4 ∷ le_bytes 8 v
value_bytes (text v) = 5 ∷ (le_bytes 4 (length v) ++ v)
value_bytes (bool v) = 6 ∷ bool_byte v ∷ []
value_bytes (blob v) = 7 ∷ (le_bytes 4 (length v) ++ v)
value_bytes (time v) =
    8
    ∷ (le_bytes 8 (to_word (2 ^ 64) v.unix)
        ++ (le_bytes 4 v.nanosecond ++ le_bytes 2 (to_word (2 ^ 16) (minutes v.offset))))
value_bytes (uuid v) = 9 ∷ v

abbrev pub values_bytes : List Value → List ℕ
values_bytes [] = []
values_bytes (v ∷ vs) = value_bytes v ++ values_bytes vs

abbrev pub row_bytes : List Value → List ℕ
row_bytes vs = le_bytes 2 (length vs) ++ values_bytes vs

-- The values that the Go types hold and the format keeps: a zone is a whole number of minutes.
abbrev pub IsStorable : Value → Type 0
IsStorable null = Unit {0}
IsStorable (integer v) = Fits (2 ^ 64) v
IsStorable (real v) = v < 2 ^ 64
IsStorable (text v) = length v ≤ max_int32
IsStorable (bool v) = Unit {0}
IsStorable (blob v) = length v ≤ max_int32
IsStorable (time v) =
    Fits (2 ^ 64) v.unix
    × (v.nanosecond < 1_000_000_000)
    × Fits (2 ^ 16) (minutes v.offset)
    × (seconds (minutes v.offset) ≡ v.offset)
IsStorable (uuid v) = length v ≡ 16
