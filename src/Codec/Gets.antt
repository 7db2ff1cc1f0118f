-- ===== src/Codec/Gets.antt =====
-- What the methods of `Decoder` read. `Gets g bs v`: where the decoder stands before `bs`, `g` returns
-- `v` and stands behind them.
use dblock.Prelude.{
  if◌then◌else◌, Bool, true, false, ◌==◌, refl, ℕ, ◌+◌, ◌^◌, ◌≤◌, ◌<◌, ◌≡◌, sym, ap, ◌∙◌, List, [],
  ◌∷◌, ◌++◌, arith, length, drop, length-append, length-drop, take-append, drop-append, drop-drop,
  append_assoc, String, get_elem?-drop, take-append_of, le→ltb,
}
use dblock.Prelude.Int.{ℤ, to_word, of_word, Fits, of_word-to_word, to_word-lt}
use dblock.Prelude.Fault.{Result, ok}
use dblock.Prelude.Exec.{pure, ◌>>=◌, ◌>>◌, >>=-ok}
use dblock.Prelude.Bytes.{le_bytes, length-le_bytes, le_value-le_bytes}
use dblock.Codec.{
  get_short_string_with_length, get_bool, get_int32, get_as_uint32, Decoder, Get, advance, check,
  read_byte, read_le, read_slice, get_uint8, get_uint16, get_uint32, get_uint64, get_int16,
  get_int64, get_float64, get_bytes, get_bytes_with_length, get_string_with_length,
}

-- The decoder stands before `xs`.
pub record Left (d : Decoder) (xs : List ℕ) : Type 0 where
  pub within : d.pos ≤ length d.backing
  pub left : drop d.pos d.backing ≡ xs

pub Left-advance :
    (d : Decoder) (bs rest : List ℕ) → Left d (bs ++ rest) → Left (advance d (length bs)) rest
Left-advance d bs rest h = record {
  within = omega (arith, ap length h.left, length-append bs rest, length-drop d.pos d.backing);
  left = sym (drop-drop d.pos (length bs) d.backing) ∙ rw h.left (drop-append bs rest);
}

pub record Gets {A : Type 0} (g : Get A) (bs : List ℕ) (v : A) : Type 0 where
  pub run :
      (d : Decoder) (rest : List ℕ) → Left d (bs ++ rest) → g d ≡ (ok v, advance d (length bs))

moved :
    {A : Type 0} (v : A) (d : Decoder) {p q : ℕ}
    → p ≡ q
    → ◌≡◌ {A = Result A × Decoder} (ok v, record d { pos = p }) (ok v, record d { pos = q })
moved v d e = λ i. (ok v, record d { pos = e i })

pub Gets-pure : {A : Type 0} (v : A) → Gets (pure v) [] v
unfolding pure
Gets-pure v = record { run = λ d rest h. moved v d (omega arith) }

pub Gets-bind :
    {A B : Type 0} (g : Get A) (f : A → Get B) {bs cs : List ℕ} {a : A} {b : B}
    → Gets g bs a
    → Gets (f a) cs b
    → Gets (g >>= f) (bs ++ cs) b
Gets-bind g f {bs} {cs} {a} {b} p q = record {
  run = λ d rest h.
      let h' : Left d (bs ++ (cs ++ rest)) = rw append_assoc at h in
      >>=-ok g f d (p.run d (cs ++ rest) h')
      ∙ q.run (advance d (length bs)) rest (Left-advance d bs (cs ++ rest) h')
      ∙ moved b d (omega (arith, length-append bs cs));
}

-- A successful `check` changes nothing.
pub Gets-check :
    {A : Type 0} (context : String) (n : ℕ) (g : Get A) {bs : List ℕ} {v : A}
    → n ≤ length bs
    → Gets g bs v
    → Gets (check context n >> g) bs v
unfolding check
Gets-check context n g {bs} fits p = record {
  run = λ d rest h.
      >>=-ok (check context n) (λ _. g) d {a = tt} {s' = d}
        (ground
          (arith, h.within, ap length h.left, length-append bs rest, length-drop d.pos d.backing))
      ∙ p.run d rest h;
}

Gets-read_byte : (v : ℕ) → Gets read_byte (v ∷ []) v
unfolding read_byte
Gets-read_byte v = record {
  run = λ d rest h. ground (arith, get_elem?-drop d.pos d.backing h.left);
}

Gets-read_le : (w v : ℕ) → v < 256 ^ w → Gets (read_le w) (le_bytes w v) v
unfolding read_le
Gets-read_le w v fits = record {
  run = λ d rest h.
      let e : length (le_bytes w v) ≡ w = length-le_bytes w v in
      rw
        (
          h.left,
          le→ltb (length (le_bytes w v ++ rest)) w
              (omega (arith, length-append (le_bytes w v) rest)),
          take-append_of w (le_bytes w v) rest e,
          le_value-le_bytes w v fits,
        )
        (moved v d (omega arith));
}

Gets-read_slice : (bs : List ℕ) → Gets (read_slice (length bs)) bs bs
unfolding read_slice
Gets-read_slice bs = record {
  run = λ d rest h.
      let fits : d.pos + length bs ≤ length d.backing =
        omega
          (arith, h.within, ap length h.left, length-append bs rest, length-drop d.pos d.backing) in
      rw (le→ltb _ _ fits, h.left, take-append);
}

-- The methods of `Decoder` on what the methods of `Encoder` write.
pub Gets-uint8 : (v : ℕ) → Gets get_uint8 (v ∷ []) v
unfolding get_uint8
Gets-uint8 v = Gets-check "get uint8" 1 read_byte (omega arith) (Gets-read_byte v)

pub Gets-uint16 : (v : ℕ) → v < 2 ^ 16 → Gets get_uint16 (le_bytes 2 v) v
unfolding get_uint16
Gets-uint16 v h =
    Gets-check "get uint16" 2 (read_le 2) (omega (arith, length-le_bytes 2 v))
      (Gets-read_le 2 v (omega arith))

pub Gets-uint32 : (v : ℕ) → v < 2 ^ 32 → Gets get_uint32 (le_bytes 4 v) v
unfolding get_uint32
Gets-uint32 v h =
    Gets-check "get uint16" 4 (read_le 4) (omega (arith, length-le_bytes 4 v))
      (Gets-read_le 4 v (omega arith))

pub Gets-uint64 : (v : ℕ) → v < 2 ^ 64 → Gets get_uint64 (le_bytes 8 v) v
unfolding get_uint64
Gets-uint64 v h =
    Gets-check "get uint64" 8 (read_le 8) (omega (arith, length-le_bytes 8 v))
      (Gets-read_le 8 v (omega arith))

-- The last step of a method computes its result.
pub Gets-map :
    {A B : Type 0} (g : Get A) (f : A → B) {bs : List ℕ} {a : A} {b : B}
    → Gets g bs a
    → f a ≡ b
    → Gets (g >>= λ v. pure (f v)) bs b
unfolding ◌>>=◌
Gets-map g f {bs} {a} {b} p e = record {
  run = λ d rest h. rw (p.run d rest h) (λ i. (ok (e i), advance d (length bs)));
}

pub Gets-int16 : (z : ℤ) → Fits (2 ^ 16) z → Gets get_int16 (le_bytes 2 (to_word (2 ^ 16) z)) z
unfolding get_int16
Gets-int16 z h =
    Gets-map get_uint16 (of_word (2 ^ 16)) (Gets-uint16 _ (to_word-lt (2 ^ 16) z (omega arith)))
      (of_word-to_word (2 ^ 16) z h)

pub Gets-int64 : (z : ℤ) → Fits (2 ^ 64) z → Gets get_int64 (le_bytes 8 (to_word (2 ^ 64) z)) z
unfolding get_int64
Gets-int64 z h =
    Gets-map get_uint64 (of_word (2 ^ 64)) (Gets-uint64 _ (to_word-lt (2 ^ 64) z (omega arith)))
      (of_word-to_word (2 ^ 64) z h)

pub Gets-float64 : (bits : ℕ) → bits < 2 ^ 64 → Gets get_float64 (le_bytes 8 bits) bits
unfolding get_float64
Gets-float64 bits h =
    Gets-check "get float64" 4 get_uint64 (omega (arith, length-le_bytes 8 bits))
      (Gets-uint64 bits h)

pub Gets-bytes : (bs : List ℕ) → Gets (get_bytes (length bs)) bs bs
unfolding get_bytes
Gets-bytes bs =
    Gets-check "get bytes" (length bs) (read_slice (length bs)) (omega arith) (Gets-read_slice bs)

pub Gets-bytes_with_length :
    (bs : List ℕ)
    → length bs < 2 ^ 32
    → Gets get_bytes_with_length (le_bytes 4 (length bs) ++ bs) bs
unfolding get_bytes_with_length
Gets-bytes_with_length bs h =
    Gets-check "get bytes length" 4 _
      (omega (arith, length-append (le_bytes 4 (length bs)) bs, length-le_bytes 4 (length bs)))
      (Gets-bind get_uint32 _ (Gets-uint32 (length bs) h)
        (Gets-check "get bytes" (length bs) (get_bytes (length bs)) (omega arith) (Gets-bytes bs)))

pub Gets-string_with_length :
    (s : List ℕ) → length s < 2 ^ 32 → Gets get_string_with_length (le_bytes 4 (length s) ++ s) s
unfolding get_string_with_length
Gets-string_with_length s h =
    Gets-check "get string length" 4 _
      (omega (arith, length-append (le_bytes 4 (length s)) s, length-le_bytes 4 (length s)))
      (Gets-bind get_uint32 _ (Gets-uint32 (length s) h)
        (Gets-check "get string" (length s) (get_bytes (length s)) (omega arith) (Gets-bytes s)))

pub Gets-as_uint32 : (v : ℕ) → v < 2 ^ 32 → Gets get_as_uint32 (le_bytes 4 v) v
unfolding get_as_uint32
Gets-as_uint32 v h = Gets-uint32 v h

pub Gets-short_string_with_length :
    (s : List ℕ) → Gets get_short_string_with_length (length s ∷ s) s
unfolding get_short_string_with_length
Gets-short_string_with_length s = Gets-check "get string length" 1 _ (omega arith) (
    Gets-bind get_uint8 _ (Gets-uint8 (length s))
      (Gets-check "get string" (length s) (get_bytes (length s)) (omega arith) (Gets-bytes s)))

pub Gets-bool : (b : Bool) → Gets get_bool ((if b then 1 else 0) ∷ []) b
unfolding get_bool
Gets-bool true = Gets-map get_uint8 (λ v. v == 1) (Gets-uint8 1) refl
Gets-bool false = Gets-map get_uint8 (λ v. v == 1) (Gets-uint8 0) refl

pub Gets-int32 : (z : ℤ) → Fits (2 ^ 32) z → Gets get_int32 (le_bytes 4 (to_word (2 ^ 32) z)) z
unfolding get_int32
Gets-int32 z h =
    Gets-map get_uint32 (of_word (2 ^ 32)) (Gets-uint32 _ (to_word-lt (2 ^ 32) z (omega arith)))
      (of_word-to_word (2 ^ 32) z h)
