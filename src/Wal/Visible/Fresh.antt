-- ===== src/Wal/Visible/Fresh.antt =====
-- internal/storage/storage.go: what a transaction that starts after a commit reads.
use dblock.Prelude.{
  ℕ, ◌+◌, ◌≤◌, ◌<◌, ◌≡◌, ap, sym, ◌∙◌, none, List, ◌∷◌, ◌++◌, arith, length, take, drop, All,
  All-front, All-back, length-append, length-take, append_assoc, inl, inr, Option-cases,
}
use dblock.Prelude.Fault.{ok}
use dblock.Prelude.Map.{lookup}
use dblock.Wal.{WalStorage, Block, get_block}
use dblock.Wal.Reading.{get_block-main, get_block-wal}
use dblock.Wal.Commit.{put_blocks, frame_header}
use dblock.Wal.Commit.Frames.{frames_of}
use dblock.Wal.Commit.Putting.{Committed, put_blocks_lem}
use dblock.Wal.Recover.Frames.{
  Frame, IsFrame, frames_bytes, latest, content, Located, latest-content, length-frame_header,
  length-frames_bytes, frames_bytes-append,
}
use dblock.Wal.Recover.Scanning.{read_block-middle}
use dblock.Wal.Recover.Torn.{known}
use dblock.Wal.Commit.Cut.{IsBlock, frames_of-IsFrame, sizes_of}
use dblock.Wal.Visible.{IsIndexed, same_read}

-- A watermark ahead of the store shows what the store's own does.
ahead :
    (p : WalStorage) (id to_max : ℕ)
    → IsIndexed p
    → p.max_wal_id ≤ to_max
    → get_block p id to_max ≡ get_block p id p.max_wal_id
ahead p id to_max inv h = elim (Option-cases (lookup id p.wal_index)) [
  | inl unlogged ↦
      get_block-main p id to_max unlogged ∙ sym (get_block-main p id p.max_wal_id unlogged)
  | inr (n, logged) ↦
      let s = inv.indexed id n logged in
      get_block-wal p id to_max logged (omega (arith, s.below)) s.at
      ∙ sym (get_block-wal p id p.max_wal_id logged s.below s.at)
]

module _ (p q : WalStorage) (blocks : List Block) (inv : IsIndexed p)
    (good : All (IsBlock p.block_size) blocks) (c : Committed blocks p q) where
  abbrev new_frames : List Frame
  new_frames = frames_of blocks

  -- A frame of the commit reads as its block.
  fresh_block :
      (id : ℕ)
      → (l : Located id p.max_wal_id new_frames
          (latest id p.max_wal_id new_frames (lookup id p.wal_index))
          (content id new_frames none))
      → get_block q id q.max_wal_id ≡ ok l.frame.block.buf
  fresh_block id l =
      let f = l.frame in
      let head = frame_header f.last f.block in
      let old = p.wal.contents in
      let after = drop (p.wal_end + length (frames_bytes new_frames)) old in
      let small : length l.front < length new_frames =
        omega (arith, ap length l.place, length-append l.front (f ∷ l.back)) in
      let frames : All (IsFrame p.block_size) (l.front ++ (f ∷ l.back)) =
        rw l.place at (frames_of-IsFrame p.block_size blocks good) in
      let split : q.wal.contents
          ≡ (take p.wal_end old ++ (frames_bytes l.front ++ head))
            ++ (f.block.buf ++ (frames_bytes l.back ++ after)) =
        c.appended.contents
        ∙ ap (λ t. take p.wal_end old ++ (t ++ after))
            (ap frames_bytes l.place ∙ frames_bytes-append l.front (f ∷ l.back))
        ∙ simp append_assoc in
      get_block-wal q id q.max_wal_id (c.appended.index id ∙ l.number)
        (omega (arith, c.appended.max_wal_id, small)) (c.appended.entries (length l.front) small)
      ∙ read_block-middle q.wal (take p.wal_end old ++ (frames_bytes l.front ++ head)) f.block.buf
          (frames_bytes l.back ++ after) split
          (omega (
            arith,
            length-append (take p.wal_end old) (frames_bytes l.front ++ head),
            length-append (frames_bytes l.front) head,
            length-take p.wal_end old,
            inv.ends,
            length-frame_header f.last f.block,
            length-frames_bytes p.block_size l.front (All-front _ l.front (f ∷ l.back) frames),
          ))
          ((All-back _ l.front (f ∷ l.back) frames).0.1 ∙ sym c.appended.block_size)
          (rw c.appended.block_size inv.sized)

  fresh_read :
      (id : ℕ)
      → get_block q id q.max_wal_id
        ≡ known (get_block p id p.max_wal_id) (content id new_frames none)
  fresh_read id = elim (latest-content id p.max_wal_id new_frames (lookup id p.wal_index) none) [
    | inl e ↦
        same_read p q blocks inv good c id q.max_wal_id (c.appended.index id ∙ e.0)
        ∙ ahead p id q.max_wal_id inv (omega (arith, c.appended.max_wal_id))
        ∙ ap (known (get_block p id p.max_wal_id)) (sym e.1)
    | inr l ↦ fresh_block id l ∙ ap (known (get_block p id p.max_wal_id)) (sym l.payload)
  ]

-- If every entry of the index is a frame within the log, a commit of one or more blocks of the store's
-- block size succeeds. A reader whose watermark is that of the store after it reads every block that the
-- commit writes as the commit wrote it last, and every other one as a reader just before the commit.
pub commit_is_seen :
    (p : WalStorage) (b : Block) (rest : List Block) (id : ℕ)
    → IsIndexed p
    → All (IsBlock p.block_size) (b ∷ rest)
    → (q : WalStorage) × (put_blocks (b ∷ rest) p ≡ (ok tt, q))
      × (get_block q id q.max_wal_id
          ≡ known (get_block p id p.max_wal_id) (content id (frames_of (b ∷ rest)) none))
commit_is_seen p b rest id inv good =
    let (q, done, c) = put_blocks_lem b rest p inv.ends (sizes_of p.block_size (b ∷ rest) good) in
    (q, done, fresh_read p q (b ∷ rest) inv good c id)
