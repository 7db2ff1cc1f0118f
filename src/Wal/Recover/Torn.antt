-- ===== src/Wal/Recover/Torn.antt =====
-- Recovery from a log that ends in an unfinished commit.
use dblock.Prelude.{
  ℕ, suc, ◌+◌, ◌-◌, ◌*◌, ◌≤◌, ◌<◌, ◌≡◌, refl, ap, sym, ◌∙◌, false, Option, none, some, List, [],
  ◌∷◌, ◌++◌, arith, length, All, All-append, All-front, All-back, length-append, append_assoc,
  lt→ltb, inl, inr,
}
use dblock.Prelude.Fault.{Result, ok}
use dblock.Prelude.Map.{lookup}
use dblock.MemoryFile.{size}
use dblock.Wal.{WalStorage, frame_size, main_block, get_block}
use dblock.Wal.Commit.{frame_header}
use dblock.Wal.Reading.{get_block-main, get_block-wal}
use dblock.Wal.Recover.{Scan, start, scan_frame, scan_loop, recover, recovered}
use dblock.Wal.Recover.Frames.{
  Frame, frames_bytes, IsFrame, IsCommitted, latest, content, Located, latest-content,
  length-frames_bytes, frames_bytes-append, length-le-frames_bytes, length-frame_header,
}
use dblock.Wal.Recover.Scanning.{
  scan_all, scan_loop-frames, scan_loop-none, scan_frame-torn, read_block-middle,
}
use dblock.Wal.Recover.Index.{
  Placed, scan_all-start_Synced, scan_all-SamePublished, scan_all-Placed, pending_index-scan_all,
  max_wal_id-scan_all,
}

-- The log holds complete commits, then frames of a commit without its last one, then a piece of a
-- frame.
pub record IsTorn (p : WalStorage) (fs pend : List Frame) (torn : List ℕ) : Type 0 where
  pub sized : 0 < p.block_size
  pub contents : p.wal.contents ≡ frames_bytes fs ++ (frames_bytes pend ++ torn)
  pub good : All (IsFrame p.block_size) fs
  pub good_pend : All (IsFrame p.block_size) pend
  pub committed : IsCommitted fs
  pub unmarked : All (λ f. f.last ≡ false) pend
  pub short : length torn < frame_size p

scan_all-append :
    (width : ℕ) (fs gs : List Frame) (s : Scan)
    → scan_all width (fs ++ gs) s ≡ scan_all width gs (scan_all width fs s)
scan_all-append width [] gs s = refl
scan_all-append width (f ∷ fs) gs s = scan_all-append width fs gs _

-- The store after recovery.
abbrev after_scan : WalStorage → Scan → WalStorage
after_scan p s = record p {
  wal_index = s.wal_index;
  wal_offsets = s.wal_offsets;
  max_wal_id = s.max_wal_id;
  wal_end = s.last_commit_end;
}

-- What a reader of committed data should see of a block.
abbrev pub known : Result (List ℕ) → Option (List ℕ) → Result (List ℕ)
known unknown none = unknown
known unknown (some bs) = ok bs

abbrev pub committed_block : WalStorage → List Frame → ℕ → Result (List ℕ)
committed_block p fs id = known (main_block p id) (content id fs none)

module _ (p : WalStorage) (fs pend : List Frame) (torn : List ℕ) (h : IsTorn p fs pend torn) where
  abbrev width : ℕ
  width = frame_size p

  abbrev committed : Scan
  committed = scan_all width fs start

  abbrev scanned : Scan
  scanned = scan_all width pend committed

  all_bytes : p.wal.contents ≡ [] ++ (frames_bytes (fs ++ pend) ++ torn)
  all_bytes =
      h.contents
      ∙ sym (append_assoc (frames_bytes fs) (frames_bytes pend) torn)
      ∙ ap (λ t. t ++ torn) (sym (frames_bytes-append fs pend))

  enough : length (fs ++ pend) ≤ length p.wal.contents
  enough = omega (
    arith,
    length-le-frames_bytes (fs ++ pend),
    ap length all_bytes,
    length-append (frames_bytes (fs ++ pend)) torn,
  )

  start-Placed : Placed width start
  unfolding lookup
  start-Placed = record { offset = omega arith; entries = λ n. ground arith }

  scanned-Placed : Placed width scanned
  scanned-Placed =
      scan_all-Placed width pend committed (scan_all-Placed width fs start start-Placed)

  offset-scanned : scanned.offset ≡ (length fs + length pend) * width
  offset-scanned =
      scanned-Placed.offset
      ∙ ap (λ n. n * width)
          (omega
            (arith, max_wal_id-scan_all width pend committed, max_wal_id-scan_all width fs start))

  scan_stops : scan_frame p scanned ≡ none
  scan_stops = scan_frame-torn p h.sized scanned (
      omega (
        arith,
        offset-scanned,
        h.short,
        ap length h.contents,
        length-append (frames_bytes fs) (frames_bytes pend ++ torn),
        length-append (frames_bytes pend) torn,
        length-frames_bytes p.block_size fs h.good,
        length-frames_bytes p.block_size pend h.good_pend,
      ))

  recover-scanned : recover p ≡ ok (after_scan p scanned)
  unfolding recover size
  recover-scanned =
      let fuel = length p.wal.contents - length (fs ++ pend) in
      ap (recovered p) (
        scan_loop-frames p h.sized (fs ++ pend) (length p.wal.contents + 1) (suc fuel) [] torn start
          (omega (arith, enough)) all_bytes refl (All-append _ fs pend h.good h.good_pend)
        ∙ ap (scan_loop (suc fuel) p) (scan_all-append width fs pend start)
        ∙ scan_loop-none p h.sized fuel scanned scan_stops)

  lookup_index : (id : ℕ) → lookup id scanned.wal_index ≡ latest id 0 fs none
  unfolding lookup
  lookup_index id =
      ap (lookup id) (scan_all-SamePublished width pend committed h.unmarked).index
      ∙ (scan_all-start_Synced width fs h.committed).index id
      ∙ pending_index-scan_all width id fs start

  lookup_offset : (n : ℕ) → n < length fs → lookup n scanned.wal_offsets ≡ some (n * width)
  lookup_offset n small =
      ap (lookup n) (scan_all-SamePublished width pend committed h.unmarked).offsets
      ∙ (scan_all-start_Synced width fs h.committed).offsets n
      ∙ (scan_all-Placed width fs start start-Placed).entries n
      ∙ rw (lt→ltb n committed.max_wal_id (omega (arith, max_wal_id-scan_all width fs start)))

  -- The content of a located frame, in the log.
  Located-block :
      (id : ℕ) (l : Located id 0 fs (latest id 0 fs none) (content id fs none))
      → get_block (after_scan p scanned) id scanned.max_wal_id ≡ ok l.frame.block.buf
  Located-block id l =
      let f = l.frame in
      let head = frame_header f.last f.block in
      let behind = frames_bytes l.back ++ (frames_bytes pend ++ torn) in
      let small : length l.front < length fs =
        omega (arith, ap length l.place, length-append l.front (f ∷ l.back)) in
      let good : All (IsFrame p.block_size) (l.front ++ (f ∷ l.back)) = rw l.place at h.good in
      let split : p.wal.contents ≡ (frames_bytes l.front ++ head) ++ (f.block.buf ++ behind) =
        h.contents
        ∙ ap (λ gs. frames_bytes gs ++ (frames_bytes pend ++ torn)) l.place
        ∙ ap (λ t. t ++ (frames_bytes pend ++ torn)) (frames_bytes-append l.front (f ∷ l.back))
        ∙ simp append_assoc in
      get_block-wal (after_scan p scanned) id scanned.max_wal_id
        (lookup_index id ∙ l.number ∙ ap some (omega arith))
        (omega
          (arith, max_wal_id-scan_all width pend committed, max_wal_id-scan_all width fs start))
        (lookup_offset (length l.front) small)
      ∙ read_block-middle p.wal (frames_bytes l.front ++ head) f.block.buf behind split
          (length-append (frames_bytes l.front) head
            ∙ omega (
              arith,
              length-frame_header f.last f.block,
              length-frames_bytes p.block_size l.front (All-front _ l.front (f ∷ l.back) good),
            ))
          (All-back _ l.front (f ∷ l.back) good).0.1 h.sized

  recover_block :
      (id : ℕ) → get_block (after_scan p scanned) id scanned.max_wal_id ≡ committed_block p fs id
  recover_block id = elim (latest-content id 0 fs none none) [
    | inl e ↦
        get_block-main (after_scan p scanned) id scanned.max_wal_id (lookup_index id ∙ e.0)
        ∙ main_same
        ∙ ap (known (main_block p id)) (sym e.1)
    | inr l ↦ Located-block id l ∙ ap (known (main_block p id)) (sym l.payload)
  ]
    where
      main_same : main_block (after_scan p scanned) id ≡ main_block p id
      main_same = unfold main_block in refl

  ends_scanned : scanned.last_commit_end ≡ length (frames_bytes fs)
  ends_scanned =
      (scan_all-SamePublished width pend committed h.unmarked).ends
      ∙ (scan_all-start_Synced width fs h.committed).ends
      ∙ (scan_all-Placed width fs start start-Placed).offset
      ∙ ap (λ n. n * width) (max_wal_id-scan_all width fs start)
      ∙ omega (arith, length-frames_bytes p.block_size fs h.good)

-- Recovery of a log that holds complete commits, then whole frames without a commit marker, then
-- bytes too short for a frame, ends with success. The store then shows, for every block, the
-- content of its last committed frame, or the block of main where it has none, and the log ends
-- behind the last complete commit.
pub recover_torn :
    (p : WalStorage) (fs pend : List Frame) (torn : List ℕ)
    → IsTorn p fs pend torn
    → (q : WalStorage) × (recover p ≡ ok q)
      × ((id : ℕ) → get_block q id q.max_wal_id ≡ committed_block p fs id)
      × (q.wal_end ≡ length (frames_bytes fs))
recover_torn p fs pend torn h = (
  after_scan p (scanned p fs pend torn h),
  recover-scanned p fs pend torn h,
  recover_block p fs pend torn h,
  ends_scanned p fs pend torn h,
)
