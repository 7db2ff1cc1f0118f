-- ===== src/Codec/Puts.antt =====
-- What the methods of `Encoder` write. `Puts w bs`: `w` appends `bs`, and does not panic.
use dblock.Prelude.{
  if◌then◌else◌, Bool, true, false, ◌%◌, ◌+◌, le→ltb, ℕ, ◌+◌, ◌^◌, ◌≤◌, ◌≡◌, refl, sym, ◌∙◌, List,
  [], ◌∷◌, ◌++◌, arith, length, replicate, append_assoc, append-nil, le→ltb,
}
use dblock.Prelude.Int.{ℤ, pos, to_word}
use dblock.Prelude.Fault.{ok}
use dblock.Prelude.Exec.{pure, ◌>>◌, >>=-ok}
use dblock.Prelude.Bytes.{le_bytes}
use dblock.Codec.{
  put_short_string_with_length, put_bool, Encoder, Put, put_bytes, put_uint8, put_uint16,
  put_uint32, put_uint64, put_as_uint8, put_as_uint16, put_as_uint32, put_int16, put_int64,
  put_float64, pad, put_bytes_with_length, put_string_with_length, max_int8, max_int16, max_int32,
}

pub record Puts (w : Put) (bs : List ℕ) : Type 0 where
  pub run : (e : Encoder) → w e ≡ (ok tt, record { backing = e.backing ++ bs })

pub Puts-then : (v w : Put) {bs cs : List ℕ} → Puts v bs → Puts w cs → Puts (v >> w) (bs ++ cs)
Puts-then v w {bs} {cs} p q = record {
  run = λ e. >>=-ok v (λ _. w) e (p.run e) ∙ (q.run _ ∙ rw append_assoc);
}

-- Nothing is written.
pub Puts-pure : Puts (pure tt) []
unfolding pure
Puts-pure = record { run = λ e. λ i. (ok tt, record { backing = sym (append-nil e.backing) i }) }

pub Puts-bytes : (bs : List ℕ) → Puts (put_bytes bs) bs
unfolding put_bytes
Puts-bytes bs = record { run = λ e. refl }

pub Puts-uint8 : (v : ℕ) → Puts (put_uint8 v) (v ∷ [])
unfolding put_uint8
Puts-uint8 v = record { run = λ e. refl }

pub Puts-uint16 : (v : ℕ) → Puts (put_uint16 v) (le_bytes 2 v)
unfolding put_uint16
Puts-uint16 v = record { run = λ e. refl }

pub Puts-uint32 : (v : ℕ) → Puts (put_uint32 v) (le_bytes 4 v)
unfolding put_uint32
Puts-uint32 v = record { run = λ e. refl }

pub Puts-uint64 : (v : ℕ) → Puts (put_uint64 v) (le_bytes 8 v)
unfolding put_uint64
Puts-uint64 v = record { run = λ e. refl }

pub Puts-int16 : (z : ℤ) → Puts (put_int16 z) (le_bytes 2 (to_word (2 ^ 16) z))
unfolding put_int16
Puts-int16 z = Puts-uint16 _

pub Puts-int64 : (z : ℤ) → Puts (put_int64 z) (le_bytes 8 (to_word (2 ^ 64) z))
unfolding put_int64
Puts-int64 z = Puts-uint64 _

pub Puts-float64 : (bits : ℕ) → Puts (put_float64 bits) (le_bytes 8 bits)
unfolding put_float64
Puts-float64 bits = Puts-uint64 bits

pub Puts-pad : (n : ℕ) → Puts (pad n) (replicate n 0)
unfolding pad
Puts-pad n = record { run = λ e. refl }

-- A length in range does not panic, and is not cut.
module _ (n : ℕ) where
  pub Puts-as_uint8 : n ≤ max_int8 → Puts (put_as_uint8 (pos n)) (n ∷ [])
  unfolding put_as_uint8
  Puts-as_uint8 h =
      let whole : n % 256 ≡ n = omega arith in
      rw (le→ltb 127 (n + 0) (omega arith), whole) (Puts-uint8 n)

  pub Puts-as_uint16 : n ≤ max_int16 → Puts (put_as_uint16 (pos n)) (le_bytes 2 n)
  unfolding put_as_uint16
  Puts-as_uint16 h =
      let whole : n % 65536 ≡ n = omega arith in
      rw (le→ltb 32767 (n + 0) (omega arith), whole) (Puts-uint16 n)

  pub Puts-as_uint32 : n ≤ max_int32 → Puts (put_as_uint32 (pos n)) (le_bytes 4 n)
  unfolding put_as_uint32
  Puts-as_uint32 h =
      let whole : n % 4294967296 ≡ n = omega arith in
      rw (le→ltb 2147483647 (n + 0) (omega arith), whole) (Puts-uint32 n)

pub Puts-bytes_with_length :
    (bs : List ℕ)
    → length bs ≤ max_int32
    → Puts (put_bytes_with_length bs) (le_bytes 4 (length bs) ++ bs)
unfolding put_bytes_with_length
Puts-bytes_with_length bs h =
    Puts-then (put_as_uint32 (pos (length bs))) (put_bytes bs) (Puts-as_uint32 (length bs) h)
      (Puts-bytes bs)

pub Puts-string_with_length :
    (bs : List ℕ)
    → length bs ≤ max_int32
    → Puts (put_string_with_length bs) (le_bytes 4 (length bs) ++ bs)
unfolding put_string_with_length
Puts-string_with_length bs h =
    Puts-then (put_as_uint32 (pos (length bs))) (put_bytes bs) (Puts-as_uint32 (length bs) h)
      (Puts-bytes bs)

pub Puts-short_string_with_length :
    (bs : List ℕ) → length bs ≤ max_int8 → Puts (put_short_string_with_length bs) (length bs ∷ bs)
unfolding put_short_string_with_length
Puts-short_string_with_length bs h = rw (le→ltb 127 (length bs) h) (
    Puts-then (put_as_uint8 (pos (length bs))) (put_bytes bs) (Puts-as_uint8 (length bs) h)
      (Puts-bytes bs))

pub Puts-bool : (b : Bool) → Puts (put_bool b) ((if b then 1 else 0) ∷ [])
unfolding put_bool
Puts-bool true = Puts-uint8 1
Puts-bool false = Puts-uint8 0
