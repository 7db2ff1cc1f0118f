-- ===== src/Metadata/Acceptance.antt =====
-- internal/metadata/metadata.go: which headers `Decode` accepts.
use dblock.Prelude.{
  ℕ, ◌^◌, ◌<◌, ◌≡◌, refl, ap, ◌∙◌, sym, true, false, List, [], ◌∷◌, ◌++◌, append_assoc, arith,
  length, ◌==◌, if◌then◌else◌, inl, inr, Bool-cases,
}
use dblock.Prelude.Int.{Fits, to_word}
use dblock.Prelude.Fault.{Error, Result, ok, err, bad_magic, checksum_invalid}
use dblock.Prelude.Exec.{>>=-ok, ◌>>=◌, fail, pure}
use dblock.Prelude.Bytes.{le_bytes, bytes_eq, eq_of_bytes_eq}
use dblock.Codec.{Decoder, advance, Get, new_decoder, get_bytes, get_uint8, get_uint32, get_int64}
use dblock.Codec.Gets.{
  Gets, Left, Left-advance, Gets-pure, Gets-uint8, Gets-uint32, Gets-int64, Gets-bytes,
}
use dblock.Metadata.{
  Metadata, header_magic, padding, put_fields, calculate_checksum, check_magic, check_checksum,
  get_metadata, decode,
}

-- Where the decoder stands before `bs`, the outcome of `g` is `r`.
record Ends {A : Type 0} (g : Get A) (bs : List ℕ) (r : Result A) : Type 0 where
  run : (d : Decoder) (rest : List ℕ) → Left d (bs ++ rest) → (g d).0 ≡ r

-- The header as it stands in a file: the fields, any filler, and the stored checksum.
abbrev pub stored_bytes : Metadata → List ℕ → List ℕ
stored_bytes m filler =
    m.dblock
    ++ (le_bytes 4 m.file_version
        ++ (le_bytes 4 m.schema_version
            ++ ((m.page_size_power ∷ [])
                ++ (le_bytes 4 m.number_of_pages
                    ++ (le_bytes 8 (to_word (2 ^ 64) m.token)
                        ++ (filler ++ (le_bytes 4 m.checksum ++ [])))))))

-- The values that the fields' Go types hold, under any eight bytes.
pub record IsStored (m : Metadata) : Type 0 where
  pub magic : length m.dblock ≡ 8
  pub file_version : m.file_version < 2 ^ 32
  pub schema_version : m.schema_version < 2 ^ 32
  pub page_size_power : m.page_size_power < 2 ^ 8
  pub number_of_pages : m.number_of_pages < 2 ^ 32
  pub token : Fits (2 ^ 64) m.token
  pub checksum : m.checksum < 2 ^ 32

Ends-bind :
    {A B : Type 0} (g : Get A) (f : A → Get B) {bs cs : List ℕ} {a : A} {r : Result B}
    → Gets g bs a
    → Ends (f a) cs r
    → Ends (g >>= f) (bs ++ cs) r
Ends-bind g f {bs} {cs} p q = record {
  run = λ d rest h.
      let h' = rw append_assoc at h in
      ap (λ x. x.0) (>>=-ok g f d (p.run d (cs ++ rest) h'))
      ∙ q.run (advance d (length bs)) rest (Left-advance d bs (cs ++ rest) h');
}

Ends-fail :
    {A B : Type 0} (e : Error) (f : A → Get B) {bs : List ℕ} → Ends (fail e >>= f) bs (err e)
unfolding fail ◌>>=◌
Ends-fail e f = record { run = λ d rest h. refl }

Gets-eight : (bs : List ℕ) (n : ℕ) → length bs ≡ n → Gets (get_bytes n) bs bs
Gets-eight bs n h = rw h at (Gets-bytes bs)

-- The fields as `decode` rebuilds them.
abbrev rebuilt : Metadata → Metadata
rebuilt m = record m { dblock = header_magic; checksum = 0 }

abbrev checked : Metadata → Result Metadata
checked m =
    if m.checksum == (calculate_checksum (rebuilt m)).checksum
    then ok (calculate_checksum (rebuilt m))
    else err checksum_invalid

Ends-checksum : (m : Metadata) → Ends (check_checksum m.checksum (rebuilt m)) [] (checked m)
unfolding check_checksum pure fail
Ends-checksum m = record {
  run = λ d rest h. elim (Bool-cases (m.checksum == (calculate_checksum (rebuilt m)).checksum)) [
    | inl same ↦ rw same refl
    | inr other ↦ rw other refl
  ];
}

Ends-fields :
    (m : Metadata) (filler : List ℕ)
    → IsStored m
    → length filler ≡ padding
    → bytes_eq m.dblock header_magic ≡ true
    → Ends get_metadata (stored_bytes m filler) (checked m)
unfolding get_metadata check_magic
Ends-fields m filler h full magic = Ends-bind (get_bytes 8) _ (Gets-eight m.dblock 8 h.magic) (
    Ends-bind (check_magic m.dblock) _ {bs = []} (rw (magic, check_magic) (Gets-pure tt)) (
      Ends-bind get_uint32 _ (Gets-uint32 m.file_version h.file_version) (
        Ends-bind get_uint32 _ (Gets-uint32 m.schema_version h.schema_version) (
          Ends-bind get_uint8 _ (Gets-uint8 m.page_size_power) (
            Ends-bind get_uint32 _ (Gets-uint32 m.number_of_pages h.number_of_pages) (
              Ends-bind get_int64 _ (Gets-int64 m.token h.token) (
                Ends-bind (get_bytes padding) _ (Gets-eight filler padding full) (
                  Ends-bind get_uint32 _ (Gets-uint32 m.checksum h.checksum)
                    (Ends-checksum m)))))))))

Ends-magic :
    (m : Metadata) (filler : List ℕ)
    → IsStored m
    → bytes_eq m.dblock header_magic ≡ false
    → Ends get_metadata (stored_bytes m filler) (err bad_magic)
unfolding get_metadata check_magic
Ends-magic m filler h magic =
    Ends-bind (get_bytes 8) _ (Gets-eight m.dblock 8 h.magic) (rw magic (Ends-fail bad_magic _))

-- What is accepted is what is stored.
checked_lem :
    (m : Metadata)
    → bytes_eq m.dblock header_magic ≡ true
    → checked m
      ≡ (if m.checksum == (calculate_checksum m).checksum then ok m else err checksum_invalid)
unfolding calculate_checksum put_fields
checked_lem m magic =
    let name : m.dblock ≡ header_magic = eq_of_bytes_eq m.dblock header_magic magic in
    (λ i.
      let b = record m { dblock = sym name i; checksum = 0 } in
      if m.checksum == (calculate_checksum b).checksum
      then ok (calculate_checksum b)
      else err checksum_invalid)
    ∙ elim (Bool-cases (m.checksum == (calculate_checksum m).checksum)) [
      | inl same ↦
          let sum : m.checksum ≡ (calculate_checksum m).checksum = ground (arith, same) in
          rw same (λ i. ok (record m { checksum = sym sum i }))
      | inr other ↦ rw other refl
    ]

-- Of a header in a file, with any eight bytes for the magic, any filler, any fields of their Go types and
-- any stored checksum, decoding returns exactly the fields that are stored if the eight bytes are the
-- magic and the stored checksum is that of the fields. Other bytes for the magic are the error of the
-- magic, and behind the magic another checksum is the error of the checksum.
pub decode-stored :
    (m : Metadata) (filler rest : List ℕ)
    → IsStored m
    → length filler ≡ padding
    → decode (stored_bytes m filler ++ rest) ≡ (
        if bytes_eq m.dblock header_magic
        then if m.checksum == (calculate_checksum m).checksum then ok m else err checksum_invalid
        else err bad_magic)
unfolding decode
decode-stored m filler rest h full =
    let d = new_decoder "metadata" (stored_bytes m filler ++ rest) in
    let start : Left d (stored_bytes m filler ++ rest) = record {
      within = omega arith;
      left = refl;
    } in
    elim (Bool-cases (bytes_eq m.dblock header_magic)) [
      | inl magic ↦
          rw magic ((Ends-fields m filler h full magic).run d rest start ∙ checked_lem m magic)
      | inr other ↦ rw other ((Ends-magic m filler h other).run d rest start)
    ]
