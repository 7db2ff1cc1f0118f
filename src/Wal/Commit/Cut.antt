-- ===== src/Wal/Commit/Cut.antt =====
-- The frames of a commit, cut off after any number of bytes.
use dblock.Prelude.{
  ltb→lt, le_of_ltb, ℕ, zero, suc, ◌+◌, ◌-◌, ◌^◌, ◌≤◌, ◌<◌, ◌≡◌, refl, ap, sym, ◌∙◌, true, false,
  List, [], ◌∷◌, ◌++◌, arith, length, take, All, length-append, length-take, append_assoc, ltb, inl,
  inr, Bool-cases,
}
use dblock.Wal.{Block}
use dblock.Wal.Commit.Frames.{frames_of}
use dblock.Wal.Recover.Frames.{Frame, frame_bytes, frames_bytes, IsFrame, length-frame_bytes}

-- A block that the store can hold.
abbrev pub IsBlock : ℕ → Block → Type 0
IsBlock n b = (b.id < 2 ^ 64) × (length b.buf ≡ n)

pub frames_of-IsFrame :
    (n : ℕ) (blocks : List Block) → All (IsBlock n) blocks → All (IsFrame n) (frames_of blocks)
frames_of-IsFrame n [] h = tt
frames_of-IsFrame n (b ∷ rest) h = (h.0, frames_of-IsFrame n rest h.1)

pub sizes_of :
    (n : ℕ) (blocks : List Block) → All (IsBlock n) blocks → All (λ b. length b.buf ≡ n) blocks
sizes_of n [] h = tt
sizes_of n (b ∷ rest) h = (h.0.1, sizes_of n rest h.1)

-- A commit that is cut short: whole frames without a marker, and less than a frame.
pub record Cut (n : ℕ) (bytes : List ℕ) : Type 0 where
  pub pend : List Frame
  pub torn : List ℕ
  pub split : bytes ≡ frames_bytes pend ++ torn
  pub good : All (IsFrame n) pend
  pub unmarked : All (λ f. f.last ≡ false) pend
  pub short : length torn < 24 + n

pub take-past :
    (k : ℕ) (xs ys : List ℕ) → length xs ≤ k → take k (xs ++ ys) ≡ xs ++ take (k - length xs) ys
take-past k [] ys h = ap (λ j. take j ys) (omega arith)
take-past zero (x ∷ xs) ys h = absurd (omega arith)
take-past (suc k) (x ∷ xs) ys h =
    ap (λ t. x ∷ t) (take-past k xs ys (omega arith) ∙ ap (λ j. xs ++ take j ys) (omega arith))

short_cut : (n k : ℕ) (xs : List ℕ) → k < 24 + n → Cut n (take k xs)
short_cut n k xs h = record {
  pend = [];
  torn = take k xs;
  split = refl;
  good = tt;
  unmarked = tt;
  short = omega (arith, length-take k xs);
}

pub cut :
    (n k : ℕ) (blocks : List Block)
    → All (IsBlock n) blocks
    → k < length (frames_bytes (frames_of blocks))
    → Cut n (take k (frames_bytes (frames_of blocks)))
cut n k [] h small = absurd (omega arith)
cut n k (b ∷ []) h small =
    let f : Frame = record { last = true; block = b } in
    short_cut n k (frame_bytes f ++ [])
      (omega (arith, length-append (frame_bytes f) [], length-frame_bytes n f h.0))
cut n k (b ∷ c ∷ rest) h small =
    let f : Frame = record { last = false; block = b } in
    let more = frames_bytes (frames_of (c ∷ rest)) in
    let width : length (frame_bytes f) ≡ 24 + n = length-frame_bytes n f h.0 in
    elim (Bool-cases (ltb k (24 + n))) [
      | inl short ↦ short_cut n k (frame_bytes f ++ more) (ltb→lt k (24 + n) short)
      | inr long ↦
          let r =
            cut n (k - length (frame_bytes f)) (c ∷ rest) h.1
              (omega (arith, length-append (frame_bytes f) more, le_of_ltb k (24 + n) long)) in
          record {
            pend = f ∷ r.pend;
            torn = r.torn;
            split =
                take-past k (frame_bytes f) more (omega (arith, le_of_ltb k (24 + n) long))
                ∙ ap (λ t. frame_bytes f ++ t) r.split
                ∙ sym (append_assoc (frame_bytes f) (frames_bytes r.pend) r.torn);
            good = (h.0, r.good);
            unmarked = (refl, r.unmarked);
            short = r.short;
          }
    ]
