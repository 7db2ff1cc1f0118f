-- ===== src/Wal/Visible.antt =====
-- What readers see after a commit, at any watermark.
pub mod Fresh
use dblock.Prelude.{
  Option-cases, ◌==◌, if◌then◌else◌, ℕ, ◌+◌, ◌*◌, ◌≤◌, ◌<◌, ◌≡◌, ap, sym, ◌∙◌, Bool, true, false,
  Option, some, List, [], ◌∷◌, arith, ltb, length, All, inl, inr, Bool-cases, ltb→lt, le_of_ltb,
}
use dblock.Prelude.Fault.{ok}
use dblock.Prelude.Map.{lookup}
use dblock.MemoryFile.{read_block}
use dblock.MemoryFile.Slices.{slice, read_block-slice, length-overwrite, slice-overwrite}
use dblock.Wal.{WalStorage, Block, frame_size, get_block}
use dblock.Wal.Reading.{get_block-main, get_block-wal, get_block-newer}
use dblock.Wal.Commit.Frames.{frames_of}
use dblock.Wal.Commit.Putting.{Committed}
use dblock.Wal.Recover.Frames.{Frame, frames_bytes}
use dblock.Wal.Crash.{main_block-same}
use dblock.Wal.Commit.Cut.{IsBlock}

-- Frame `n` lies in the log, before its end.
pub record Stored (p : WalStorage) (n : ℕ) : Type 0 where
  pub below : n < p.max_wal_id
  pub offset : ℕ
  pub at : lookup n p.wal_offsets ≡ some offset
  pub fits : offset + frame_size p ≤ p.wal_end

-- The invariant of the store: every entry of the index is a frame of the log.
pub record IsIndexed (p : WalStorage) : Type 0 where
  pub sized : 0 < p.block_size
  pub ends : p.wal_end ≤ length p.wal.contents
  pub indexed : (id n : ℕ) → lookup id p.wal_index ≡ some n → Stored p n

pub row_below : (k m w : ℕ) → k < m → k * w + w ≤ m * w
row_below k m w h = grind arith

module _ (p q : WalStorage) (blocks : List Block) (inv : IsIndexed p)
    (good : All (IsBlock p.block_size) blocks) (c : Committed blocks p q) where
  abbrev fs : List Frame
  fs = frames_of blocks

  -- A frame from before the commit is where it was.
  Stored-old : (n : ℕ) → Stored p n → Stored q n
  Stored-old n s = record {
    below = omega (arith, s.below, c.appended.max_wal_id);
    offset = s.offset;
    at = c.appended.older n s.below ∙ s.at;
    fits = omega (arith, s.fits, c.wal_end, c.appended.block_size);
  }

  -- A frame from before the commit reads as it did.
  old_read :
      (n : ℕ) (s : Stored p n)
      → read_block q.wal q.block_size (s.offset + 24)
        ≡ read_block p.wal p.block_size (s.offset + 24)
  old_read n s =
      ap (λ m. read_block q.wal m (s.offset + 24)) c.appended.block_size
      ∙ read_block-slice q.wal p.block_size (s.offset + 24) inv.sized (
          omega (
            arith,
            s.fits,
            inv.ends,
            ap length c.appended.contents,
            length-overwrite p.wal_end (frames_bytes fs) p.wal.contents inv.ends,
          ))
      ∙ ap ok (
          ap (slice (s.offset + 24) p.block_size) c.appended.contents
          ∙ slice-overwrite (s.offset + 24) p.block_size p.wal_end (frames_bytes fs) p.wal.contents
              (omega (arith, s.fits)) inv.ends)
      ∙ sym (
          read_block-slice p.wal p.block_size (s.offset + 24) inv.sized
            (omega (arith, s.fits, inv.ends)))

  -- A block that the index treats as before reads as before, at every watermark.
  same_read :
      (id to_max : ℕ)
      → lookup id q.wal_index ≡ lookup id p.wal_index
      → get_block q id to_max ≡ get_block p id to_max
  unfolding Stored-old
  same_read id to_max e = elim (Option-cases (lookup id p.wal_index)) [
    | inl unlogged ↦
        get_block-main q id to_max (e ∙ unlogged)
        ∙ main_block-same p q id c.appended.main c.appended.block_size
        ∙ sym (get_block-main p id to_max unlogged)
    | inr (n, logged) ↦
        let s = inv.indexed id n logged in
        elim (Bool-cases (ltb n to_max)) [
          | inl older ↦
              get_block-wal q id to_max (e ∙ logged) (ltb→lt n to_max older) (Stored-old n s).at
              ∙ old_read n s
              ∙ sym (get_block-wal p id to_max logged (ltb→lt n to_max older) s.at)
          | inr newer ↦
              get_block-newer q id to_max (e ∙ logged) (le_of_ltb n to_max newer)
              ∙ main_block-same p q id c.appended.main c.appended.block_size
              ∙ sym (get_block-newer p id to_max logged (le_of_ltb n to_max newer))
        ]
  ]

-- Some block of the list has the id.
unfoldable pub writes : ℕ → List Block → Bool
writes id [] = false
writes id (b ∷ rest) = if b.id == id then true else writes id rest
