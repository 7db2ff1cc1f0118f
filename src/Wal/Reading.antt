-- ===== src/Wal/Reading.antt =====
-- `GetBlock`, by what the index holds for the block.
use dblock.Prelude.{ℕ, ◌+◌, ◌≤◌, ◌<◌, ◌≡◌, none, some, lt→ltb, le→ltb}
use dblock.Prelude.Map.{lookup}
use dblock.MemoryFile.{read_block}
use dblock.Wal.{
  WalStorage, frame_header_size, main_block, get_block, offset_of, in_snapshot, versioned_block,
}

module _ (p : WalStorage) (id to_max : ℕ) where
  -- No version in the log: the block of main.
  pub get_block-main : lookup id p.wal_index ≡ none → get_block p id to_max ≡ main_block p id
  unfolding get_block
  get_block-main e = rw (e, in_snapshot, versioned_block)

  -- A version from before the watermark: that version.
  pub get_block-wal :
      {n offset : ℕ}
      → lookup id p.wal_index ≡ some n
      → n < to_max
      → lookup n p.wal_offsets ≡ some offset
      → get_block p id to_max ≡ read_block p.wal p.block_size (offset + frame_header_size)
  unfolding get_block offset_of
  get_block-wal {n} e older at =
      rw (e, in_snapshot) (rw (lt→ltb n to_max older, versioned_block) (rw (at, offset_of)))

  -- A version from the watermark on: the block of main, whatever older versions the log holds.
  pub get_block-newer :
      {n : ℕ}
      → lookup id p.wal_index ≡ some n
      → to_max ≤ n
      → get_block p id to_max ≡ main_block p id
  unfolding get_block
  get_block-newer {n} e newer = rw (e, in_snapshot) (rw (le→ltb n to_max newer, versioned_block))
