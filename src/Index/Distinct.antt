-- ===== src/Index/Distinct.antt =====
-- internal/index.go: rows with values of the same types have different keys if the values differ.
use dblock.Prelude.{
  ℕ, ◌^◌, ◌<◌, ◌≤◌, ◌≡◌, refl, ap, sym, ◌∙◌, List, [], ◌∷◌, ◌++◌, All, length, arith, append-nil,
}
use dblock.Prelude.Int.{Fits, to_word}
use dblock.Prelude.Bytes.{le_bytes}
use dblock.Prelude.Fault.{ok}
use dblock.Prelude.Outcome.{ok-injective}
use dblock.Prelude.Exec.{pure, ◌>>=◌}
use dblock.Codec.{
  Get, new_decoder, get_uint8, get_int64, get_float64, get_string_with_length,
  get_bytes_with_length, max_int8, max_int32,
}
use dblock.Codec.Puts.{
  Puts, Puts-then, Puts-uint8, Puts-as_uint8, Puts-int64, Puts-float64, Puts-string_with_length,
  Puts-bytes_with_length,
}
use dblock.Codec.Gets.{
  Gets, Gets-pure, Gets-bind, Gets-map, Gets-uint8, Gets-int64, Gets-float64,
  Gets-string_with_length, Gets-bytes_with_length,
}
use dblock.Codec.Many.{put_all, joined, Puts-All}
use dblock.Value.{
  Value, null, integer, real, text, bool, blob, time, uuid, put_data_type, type_byte,
}
use dblock.Schema.RoundTrip.{bytes_of-Puts}
use dblock.Index.{put_key_value, put_mixed_array, encode_mixed_array}

-- The values whose key bytes hold the value, as the code can write them.
abbrev pub IsKeyed : Value → Type 0
IsKeyed null = Unit {0}
IsKeyed (integer n) = Fits (2 ^ 64) n
IsKeyed (real x) = x < 2 ^ 64
IsKeyed (text s) = length s ≤ max_int32
IsKeyed (blob b) = length b ≤ max_int32
IsKeyed v = ⊥

-- Both values have the type of one column.
abbrev pub Alike : Value → Value → Type 0
Alike null null = Unit {0}
Alike (integer m) (integer n) = Unit {0}
Alike (real x) (real y) = Unit {0}
Alike (text s) (text t) = Unit {0}
Alike (blob b) (blob c) = Unit {0}
Alike v w = ⊥

abbrev pub AllAlike : List Value → List Value → Type 0
AllAlike [] [] = Unit {0}
AllAlike (v ∷ vs) (w ∷ ws) = Alike v w × AllAlike vs ws
AllAlike _ _ = ⊥

abbrev key_bytes : Value → List ℕ
key_bytes (integer n) = le_bytes 8 (to_word (2 ^ 64) n)
key_bytes (real x) = le_bytes 8 x
key_bytes (text s) = le_bytes 4 (length s) ++ s
key_bytes (blob b) = le_bytes 4 (length b) ++ b
key_bytes null = 1 ∷ []
key_bytes v = []

-- Reads back a value of the type of a given one.
get_like : Value → Get Value
get_like (integer n) = do m ← get_int64; pure (integer m)
get_like (real x) = do y ← get_float64; pure (real y)
get_like (text s) = do t ← get_string_with_length; pure (text t)
get_like (blob b) = do c ← get_bytes_with_length; pure (blob c)
get_like v = do b ← get_uint8; pure null

get_values_like : List Value → Get (List Value)
get_values_like [] = pure []
get_values_like (v ∷ vs) = do w ← get_like v; ws ← get_values_like vs; pure (w ∷ ws)

Puts-key_value : (v : Value) → IsKeyed v → Puts (put_key_value v) (key_bytes v)
unfolding put_key_value put_data_type type_byte
Puts-key_value null h = Puts-uint8 1
Puts-key_value (integer n) h = Puts-int64 n
Puts-key_value (real x) h = Puts-float64 x
Puts-key_value (text s) h = Puts-string_with_length s h
Puts-key_value (blob b) h = Puts-bytes_with_length b h
Puts-key_value (bool b) h = absurd h
Puts-key_value (time t) h = absurd h
Puts-key_value (uuid b) h = absurd h

Puts-keys : (vs : List Value) → All IsKeyed vs → All (λ v. Puts (put_key_value v) (key_bytes v)) vs
Puts-keys [] h = tt
Puts-keys (v ∷ vs) h = (Puts-key_value v h.0, Puts-keys vs h.1)

Gets-like : (v w : Value) → Alike v w → IsKeyed w → Gets (get_like v) (key_bytes w) w
unfolding get_like
Gets-like null null a h = Gets-map get_uint8 (λ b. null) (Gets-uint8 1) refl
Gets-like (integer m) (integer n) a h = Gets-map get_int64 (λ k. integer k) (Gets-int64 n h) refl
Gets-like (real x) (real y) a h = Gets-map get_float64 (λ z. real z) (Gets-float64 y h) refl
Gets-like (text s) (text t) a h =
    Gets-map get_string_with_length (λ z. text z) (Gets-string_with_length t (omega arith)) refl
Gets-like (blob s) (blob t) a h =
    Gets-map get_bytes_with_length (λ z. blob z) (Gets-bytes_with_length t (omega arith)) refl
Gets-like v w a h = absurd a

Gets-values_like :
    (vs ws : List Value)
    → AllAlike vs ws
    → All IsKeyed ws
    → Gets (get_values_like vs) (joined key_bytes ws) ws
unfolding get_values_like
Gets-values_like [] [] a h = Gets-pure []
Gets-values_like (v ∷ vs) (w ∷ ws) a h =
    Gets-bind (get_like v) _ (Gets-like v w a.0 h.0)
      (Gets-map (get_values_like vs) (λ us. w ∷ us) (Gets-values_like vs ws a.1 h.1) refl)
Gets-values_like vs ws a h = absurd a

AllAlike-refl : (vs : List Value) → All IsKeyed vs → AllAlike vs vs
AllAlike-refl [] h = tt
AllAlike-refl (null ∷ vs) h = (tt, AllAlike-refl vs h.1)
AllAlike-refl (integer n ∷ vs) h = (tt, AllAlike-refl vs h.1)
AllAlike-refl (real x ∷ vs) h = (tt, AllAlike-refl vs h.1)
AllAlike-refl (text s ∷ vs) h = (tt, AllAlike-refl vs h.1)
AllAlike-refl (blob b ∷ vs) h = (tt, AllAlike-refl vs h.1)
AllAlike-refl (bool b ∷ vs) h = absurd h.0
AllAlike-refl (time t ∷ vs) h = absurd h.0
AllAlike-refl (uuid b ∷ vs) h = absurd h.0

encoded_keys :
    (vs : List Value)
    → All IsKeyed vs
    → length vs ≤ max_int8
    → encode_mixed_array vs ≡ ok (length vs ∷ joined key_bytes vs)
unfolding encode_mixed_array put_mixed_array
encoded_keys vs h few = bytes_of-Puts (put_mixed_array vs) (
    Puts-then _ (put_all put_key_value vs) (Puts-as_uint8 (length vs) few)
      (Puts-All put_key_value key_bytes vs (Puts-keys vs h)))

read_back :
    (vs ws : List Value)
    → AllAlike vs ws
    → All IsKeyed ws
    → (get_values_like vs (new_decoder "key" (joined key_bytes ws))).0 ≡ ok ws
read_back vs ws a h =
    ap (λ r. r.0)
      ((Gets-values_like vs ws a h).run (new_decoder "key" (joined key_bytes ws)) []
        (record { within = omega arith; left = sym (append-nil (joined key_bytes ws)) }))

abbrev behind : List ℕ → List ℕ
behind [] = []
behind (b ∷ bs) = bs

-- Two rows with the same key of an index have the same indexed values, where these are at most 127 in each
-- row and have the same types, column by column, with NULL beside NULL only, and are 64-bit integers,
-- floats, NULL, or texts and blobs of lengths that fit their prefix.
pub encode_mixed_array-injective :
    (vs ws : List Value)
    → AllAlike vs ws
    → All IsKeyed vs
    → All IsKeyed ws
    → length vs ≤ max_int8
    → length ws ≤ max_int8
    → encode_mixed_array vs ≡ encode_mixed_array ws
    → vs ≡ ws
encode_mixed_array-injective vs ws a h k few few' e =
    let same = ok-injective _ _ (sym (encoded_keys vs h few) ∙ e ∙ encoded_keys ws k few') in
    ok-injective vs ws (
      sym (read_back vs vs (AllAlike-refl vs h) h)
      ∙ ap (λ bs. (get_values_like vs (new_decoder "key" bs)).0) (ap behind same)
      ∙ read_back vs ws a k)
