-- ===== src/Wal/Recover/Scanning.antt =====
-- One round, then the whole loop of `Recover`, on a log of frames with a torn end.
use dblock.Prelude.{
  inl, inr, Bool-cases, lt→ltb, ℕ, zero, suc, ◌+◌, ◌^◌, ◌≤◌, ◌<◌, ◌≡◌, refl, ap, sym, ◌∙◌, none,
  some, List, [], ◌∷◌, ◌++◌, arith, ltb, length, length-append, take-append_of, drop-append_of, All,
  append_assoc, le→ltb, ==_refl,
}
use dblock.Prelude.Fault.{Result, ok, err, panic, out_of_fuel}
use dblock.MemoryFile.{MemoryFile, read_block, size}
use dblock.MemoryFile.Slices.{read_block-slice}
use dblock.Wal.{WalStorage, frame_header_size, frame_size}
use dblock.Wal.Commit.{commit_marker, frame_header}
use dblock.Wal.Recover.{Scan, accept, scan_payload, scan_header, scan_frame, scan_loop}
use dblock.Wal.Recover.Frames.{
  Frame, frame_bytes, frames_bytes, IsFrame, length-frame_header, length-frame_bytes, header-id,
  header-marker, header-checksum,
}

-- A read of exactly the middle part.
pub read_block-middle :
    (f : MemoryFile) (pre mid rest : List ℕ) {n offset : ℕ}
    → f.contents ≡ pre ++ (mid ++ rest)
    → length pre ≡ offset
    → length mid ≡ n
    → 0 < n
    → read_block f n offset ≡ ok mid
read_block-middle f pre mid rest {n} {offset} e at_pre width some_bytes =
    read_block-slice f n offset some_bytes (
      omega (
        arith,
        ap length e,
        length-append pre (mid ++ rest),
        length-append mid rest,
        at_pre,
        width,
      ))
    ∙ rw (e, drop-append_of offset pre (mid ++ rest) at_pre, take-append_of n mid rest width)

-- What the loop does to a list of good frames.
abbrev pub scan_all : ℕ → List Frame → Scan → Scan
scan_all width [] s = s
scan_all width (f ∷ fs) s = scan_all width fs (accept width f.block.id (commit_marker f.last) s)

pub offset-accept :
    (width id marker : ℕ) (s : Scan) → (accept width id marker s).offset ≡ s.offset + width
unfolding accept
offset-accept width id marker s = ground arith

module _ (p : WalStorage) (sized : 0 < p.block_size) where
  scan_payload_lem :
      (f : Frame) (s : Scan)
      → f.block.id < 2 ^ 64
      → scan_payload p (frame_header f.last f.block) s (ok f.block.buf)
        ≡ some (accept (frame_size p) f.block.id (commit_marker f.last) s)
  unfolding scan_payload
  scan_payload_lem f s h = rw (
    header-checksum f.last f.block,
    ==_refl,
    header-id f.last f.block h,
    header-marker f.last f.block,
  )

  -- Where a good frame follows, one round accepts it.
  pub scan_frame_lem :
      (pre rest : List ℕ) (f : Frame) (s : Scan)
      → p.wal.contents ≡ pre ++ (frame_bytes f ++ rest)
      → length pre ≡ s.offset
      → IsFrame p.block_size f
      → scan_frame p s ≡ some (accept (frame_size p) f.block.id (commit_marker f.last) s)
  unfolding scan_frame size
  scan_frame_lem pre rest f s e at_pre good =
      let head = frame_header f.last f.block in
      let split : p.wal.contents ≡ pre ++ (head ++ (f.block.buf ++ rest)) =
        e ∙ ap (λ t. pre ++ t) (append_assoc head f.block.buf rest) in
      let fits : s.offset + frame_size p ≤ length p.wal.contents = omega (
        arith,
        ap length e,
        length-append pre (frame_bytes f ++ rest),
        length-append (frame_bytes f) rest,
        length-frame_bytes p.block_size f good,
        at_pre,
      ) in
      rw (le→ltb (length p.wal.contents) (s.offset + frame_header_size) (omega arith)) (
        ap (scan_header p s) (
          read_block-middle p.wal pre head (f.block.buf ++ rest) split at_pre
            (length-frame_header f.last f.block) (omega arith))
        ∙ rw (le→ltb (length p.wal.contents) (s.offset + frame_size p) fits) (
            ap (scan_payload p head s) (
              read_block-middle p.wal (pre ++ head) f.block.buf rest
                (split ∙ sym (append_assoc pre head (f.block.buf ++ rest)))
                (length-append pre head ∙ omega (arith, length-frame_header f.last f.block, at_pre))
                good.1 sized)
            ∙ scan_payload_lem f s good.0))

  -- With less than a frame left the loop stops.
  pub scan_frame-torn :
      (s : Scan) → length p.wal.contents < s.offset + frame_size p → scan_frame p s ≡ none
  unfolding scan_frame size
  scan_frame-torn s h = elim (Bool-cases (ltb (length p.wal.contents) (s.offset + 24))) [
    | inl short ↦ rw short
    | inr whole ↦ rw whole (refused (read_block p.wal 24 s.offset))
  ]
    where
      refused : (r : Result (List ℕ)) → scan_header p s r ≡ none
      refused (ok head) = rw (lt→ltb (length p.wal.contents) (s.offset + frame_size p) h)
      refused (err e) = refl
      refused panic = refl
      refused out_of_fuel = refl

  pub scan_loop-some :
      (k : ℕ) (s t : Scan) → scan_frame p s ≡ some t → scan_loop (suc k) p s ≡ scan_loop k p t
  unfolding scan_loop
  scan_loop-some k s t e = rw (e, scan_loop)

  pub scan_loop-none : (k : ℕ) (s : Scan) → scan_frame p s ≡ none → scan_loop (suc k) p s ≡ some s
  unfolding scan_loop
  scan_loop-none k s e = rw (e, scan_loop)

  -- The loop takes in good frames one by one.
  pub scan_loop-frames :
      (fs : List Frame) (k fuel : ℕ) (pre rest : List ℕ) (s : Scan)
      → k ≡ length fs + fuel
      → p.wal.contents ≡ pre ++ (frames_bytes fs ++ rest)
      → length pre ≡ s.offset
      → All (IsFrame p.block_size) fs
      → scan_loop k p s ≡ scan_loop fuel p (scan_all (frame_size p) fs s)
  scan_loop-frames [] k fuel pre rest s ek e at_pre good =
      ap (λ n. scan_loop n p s) (ek ∙ omega arith)
  scan_loop-frames (f ∷ fs) zero fuel pre rest s ek e at_pre good = absurd (omega arith)
  scan_loop-frames (f ∷ fs) (suc k) fuel pre rest s ek e at_pre good =
      let e' : p.wal.contents ≡ pre ++ (frame_bytes f ++ (frames_bytes fs ++ rest)) =
        e ∙ ap (λ t. pre ++ t) (append_assoc (frame_bytes f) (frames_bytes fs) rest) in
      let t = accept (frame_size p) f.block.id (commit_marker f.last) s in
      scan_loop-some k s t (scan_frame_lem pre (frames_bytes fs ++ rest) f s e' at_pre good.0)
      ∙ scan_loop-frames fs k fuel (pre ++ frame_bytes f) rest t (omega arith)
          (e' ∙ sym (append_assoc pre (frame_bytes f) (frames_bytes fs ++ rest)))
          (omega (
            arith,
            length-append pre (frame_bytes f),
            length-frame_bytes p.block_size f good.0,
            offset-accept (frame_size p) f.block.id (commit_marker f.last) s,
          ))
          good.1
