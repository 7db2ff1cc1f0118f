-- ===== src/Wal/Recover/Frames.antt =====
-- The log as a list of frames, and what the store shows once those frames are committed.
use dblock.Prelude.{
  Bool-cases, ◌⊎◌, inl, inr, sym, take_all, ℕ, ◌+◌, ◌*◌, ◌^◌, ◌%◌, ◌≤◌, ◌<◌, ◌≡◌, refl, ap, ◌∙◌,
  Bool, true, false, Option, some, List, [], ◌∷◌, ◌++◌, arith, ◌==◌, if◌then◌else◌, length,
  length-append, take-append_of, drop-append_of, All, append_assoc,
}
use dblock.Prelude.Bytes.{be_bytes, length-be_bytes, be_value-be_bytes}
use dblock.Prelude.Bits.{checksum_ieee, checksum_ieee-lt}
use dblock.Wal.{Block}
use dblock.Wal.Commit.{commit_marker, frame_header}
use dblock.Wal.Recover.{header_word}

-- A block in the log. `last` marks the last block of a commit.
pub record Frame : Type 0 where
  pub last : Bool
  pub block : Block

abbrev pub frame_bytes : Frame → List ℕ
frame_bytes f = frame_header f.last f.block ++ f.block.buf

abbrev pub frames_bytes : List Frame → List ℕ
frames_bytes [] = []
frames_bytes (f ∷ fs) = frame_bytes f ++ frames_bytes fs

-- A frame of a store with blocks of `n` bytes.
abbrev pub IsFrame : ℕ → Frame → Type 0
IsFrame n f = (f.block.id < 2 ^ 64) × (length f.block.buf ≡ n)

-- Every commit in the list is complete.
abbrev pub IsCommitted : List Frame → Type 0
IsCommitted [] = Unit {0}
IsCommitted (f ∷ []) = f.last ≡ true
IsCommitted (f ∷ g ∷ fs) = IsCommitted (g ∷ fs)

-- The number of the last frame for the block `id`, where the first frame has number `n`.
abbrev pub latest : ℕ → ℕ → List Frame → Option ℕ → Option ℕ
latest id n [] found = found
latest id n (f ∷ fs) found = latest id (n + 1) fs (if f.block.id == id then some n else found)

-- The payload of the last frame for the block `id`: the block's committed content.
abbrev pub content : ℕ → List Frame → Option (List ℕ) → Option (List ℕ)
content id [] found = found
content id (f ∷ fs) found = content id fs (if f.block.id == id then some f.block.buf else found)

pub length-frame_header : (last : Bool) (b : Block) → length (frame_header last b) ≡ 24
unfolding frame_header
length-frame_header last b = simp (length-append, length-be_bytes) (omega arith)

pub length-frame_bytes : (n : ℕ) (f : Frame) → IsFrame n f → length (frame_bytes f) ≡ 24 + n
length-frame_bytes n f h = omega (
  arith,
  length-append (frame_header f.last f.block) f.block.buf,
  length-frame_header f.last f.block,
  h.1,
)

pub length-frames_bytes :
    (n : ℕ) (fs : List Frame) → All (IsFrame n) fs → length (frames_bytes fs) ≡ length fs * (24 + n)
length-frames_bytes n [] h = omega arith
length-frames_bytes n (f ∷ fs) h = omega (
  arith,
  length-append (frame_bytes f) (frames_bytes fs),
  length-frame_bytes n f h.0,
  length-frames_bytes n fs h.1,
)

pub frames_bytes-append :
    (fs gs : List Frame) → frames_bytes (fs ++ gs) ≡ frames_bytes fs ++ frames_bytes gs
frames_bytes-append [] gs = refl
frames_bytes-append (f ∷ fs) gs =
    ap (λ t. frame_bytes f ++ t) (frames_bytes-append fs gs)
    ∙ sym (append_assoc (frame_bytes f) (frames_bytes fs) (frames_bytes gs))

-- The three words of a header read back.
module _ (last : Bool) (b : Block) where
  pub header-id : b.id < 2 ^ 64 → header_word 0 (frame_header last b) ≡ b.id
  unfolding frame_header
  header-id h =
      rw (take-append_of 8 (be_bytes 8 b.id) _ (length-be_bytes 8 b.id))
        (be_value-be_bytes 8 b.id (omega arith))

  pub header-marker : header_word 1 (frame_header last b) ≡ commit_marker last
  unfolding frame_header
  header-marker =
      rw
        (
          drop-append_of 8 (be_bytes 8 b.id) _ (length-be_bytes 8 b.id),
          take-append_of 8 (be_bytes 8 (commit_marker last)) _ (length-be_bytes 8 _),
        )
        (be_value-be_bytes 8 (commit_marker last) (ground arith))

  pub header-checksum : header_word 2 (frame_header last b) % 2 ^ 32 ≡ checksum_ieee b.buf
  unfolding frame_header
  header-checksum =
      let front = be_bytes 8 b.id ++ be_bytes 8 (commit_marker last) in
      let sum = be_bytes 8 (checksum_ieee b.buf) in
      rw
        (
          ← append_assoc (be_bytes 8 b.id) (be_bytes 8 (commit_marker last)) sum,
          drop-append_of 16 front sum (
              length-append _ (be_bytes 8 (commit_marker last))
              ∙ simp length-be_bytes (omega arith)),
          take_all 8 sum (length-be_bytes 8 _),
          be_value-be_bytes 8 (checksum_ieee b.buf) (omega (arith, checksum_ieee-lt b.buf)),
        )
        (omega (arith, checksum_ieee-lt b.buf))

pub length-le-frames_bytes : (fs : List Frame) → length fs ≤ length (frames_bytes fs)
length-le-frames_bytes [] = omega arith
length-le-frames_bytes (f ∷ fs) = omega (
  arith,
  length-append (frame_bytes f) (frames_bytes fs),
  length-append (frame_header f.last f.block) f.block.buf,
  length-frame_header f.last f.block,
  length-le-frames_bytes fs,
)

-- The last frame for a block: its number, its content and its place in the list.
pub record Located (id k : ℕ) (fs : List Frame) (n : Option ℕ) (bs : Option (List ℕ)) : Type 0 where
  pub front : List Frame
  pub frame : Frame
  pub back : List Frame
  pub place : fs ≡ front ++ (frame ∷ back)
  pub number : n ≡ some (k + length front)
  pub payload : bs ≡ some frame.block.buf

pub latest-content :
    (id k : ℕ) (fs : List Frame) (n : Option ℕ) (bs : Option (List ℕ))
    → ((latest id k fs n ≡ n) × (content id fs bs ≡ bs))
      ⊎ Located id k fs (latest id k fs n) (content id fs bs)
latest-content id k [] n bs = inl (refl, refl)
latest-content id k (f ∷ fs) n bs =
    go
      (latest-content id (k + 1) fs (if f.block.id == id then some k else n)
        (if f.block.id == id then some f.block.buf else bs))
      (Bool-cases (f.block.id == id))
  where
    go :
        ((latest id k (f ∷ fs) n ≡ (if f.block.id == id then some k else n))
            × (content id (f ∷ fs) bs ≡ (if f.block.id == id then some f.block.buf else bs)))
          ⊎ Located id (k + 1) fs (latest id k (f ∷ fs) n) (content id (f ∷ fs) bs)
        → ((f.block.id == id) ≡ true) ⊎ ((f.block.id == id) ≡ false)
        → ((latest id k (f ∷ fs) n ≡ n) × (content id (f ∷ fs) bs ≡ bs))
          ⊎ Located id k (f ∷ fs) (latest id k (f ∷ fs) n) (content id (f ∷ fs) bs)
    go (inr l) c = inr (record {
      front = f ∷ l.front;
      frame = l.frame;
      back = l.back;
      place = ap (λ t. f ∷ t) l.place;
      number = l.number ∙ ap some (omega arith);
      payload = l.payload;
    })
    go (inl e) (inl same) = inr (record {
      front = [];
      frame = f;
      back = fs;
      place = refl;
      number = e.0 ∙ rw same (ap some (omega arith));
      payload = e.1 ∙ rw same;
    })
    go (inl e) (inr other) = inl (e.0 ∙ rw other, e.1 ∙ rw other)
