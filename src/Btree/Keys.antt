-- ===== src/Btree/Keys.antt =====
-- internal/btree.go: the keys of rows.
use dblock.Prelude.{ℕ, ◌^◌, ◌≡◌, ◌∙◌, ap, List, ltb, length, take, take_all, if◌then◌else◌, arith}
use dblock.Prelude.Int.{ℤ, to_word, of_word, Fits, of_word-to_word, to_word-lt}
use dblock.Prelude.Bytes.{be_bytes, be_value, length-be_bytes, be_value-be_bytes}
use dblock.Prelude.Fault.{Result, ok, panic}

unfoldable pub encode_key : ℤ → List ℕ
encode_key id = be_bytes 8 (to_word (2 ^ 64) id)

-- `Uint64` reads the first 8 bytes.
unfoldable pub decode_key : List ℕ → Result ℤ
decode_key buf = if ltb (length buf) 8 then panic else ok (of_word (2 ^ 64) (be_value (take 8 buf)))

-- `DecodeKey` of what `EncodeKey` wrote is the row's id, for every 64-bit id, the negative ones
-- too.
pub decode_key-encode_key : (id : ℤ) → Fits (2 ^ 64) id → decode_key (encode_key id) ≡ ok id
unfolding decode_key encode_key
decode_key-encode_key id fits =
    let word = to_word (2 ^ 64) id in
    rw (length-be_bytes 8 word, take_all 8 (be_bytes 8 word) (length-be_bytes 8 word))
      (ap (λ u. ok (of_word (2 ^ 64) u))
          (be_value-be_bytes 8 word (to_word-lt (2 ^ 64) id (omega arith)))
        ∙ ap ok (of_word-to_word (2 ^ 64) id fits))
