-- ===== src/Wal/Commit.antt =====
-- internal/storage/storage.go: `PutBlocks`, which appends a commit to the log, and the metadata kept in
-- block 0.
pub mod Frames
pub mod Putting
pub mod Cut
use dblock.Prelude.{
  ℕ, ◌+◌, Bool, true, false, not, ◌&&◌, List, [], ◌∷◌, ◌++◌, ltb, leb, ◌==◌, if◌then◌else◌, length,
  take, drop, replicate,
}
use dblock.Prelude.Int.{pos}
use dblock.Prelude.Fault.{Result, ok, err, panic, out_of_fuel, empty_block, block_size_mismatch}
use dblock.Prelude.Exec.{Exec, pure, lift, ◌>>=◌, ◌>>◌}
use dblock.Prelude.Map.{insert}
use dblock.Prelude.Bytes.{be_bytes}
use dblock.Prelude.Bits.{checksum_ieee}
use dblock.MemoryFile.{write_at, sync}
use dblock.Metadata.{Metadata, metadata_length, new_metadata}
use dblock.Wal.{WalStorage, Block, frame_header_size, frame_size, get_block}

-- A write to the log, with its error returned.
unfoldable pub write_wal : List ℕ → ℕ → Exec WalStorage ℕ
write_wal buf offset p = let (r, f) = write_at buf (pos offset) p.wal in (r, record p { wal = f })

unfoldable pub sync_wal : Exec WalStorage (Unit {0})
sync_wal p = let (r, f) = sync p.wal in (r, record p { wal = f })

abbrev pub commit_marker : Bool → ℕ
commit_marker true = 1
commit_marker false = 0

-- The 24 bytes in front of a payload.
unfoldable pub frame_header : Bool → Block → List ℕ
frame_header last block =
    be_bytes 8 block.id ++ (be_bytes 8 (commit_marker last) ++ be_bytes 8 (checksum_ieee block.buf))

take_wal_id : Exec WalStorage ℕ
take_wal_id p = (ok p.max_wal_id, record p { max_wal_id = p.max_wal_id + 1 })

index_frame : Block → ℕ → ℕ → Exec WalStorage (Unit {0})
index_frame block wal_id offset p = (
  ok tt,
  record p {
    wal_index = insert block.id wal_id p.wal_index;
    wal_offsets = insert wal_id offset p.wal_offsets;
    next_block_id = if leb p.next_block_id block.id then block.id + 1 else p.next_block_id;
  },
)

-- The body of the loop over the blocks.
unfoldable pub put_frame : Bool → Block → ℕ → Exec WalStorage (Unit {0})
unfolding take_wal_id index_frame
put_frame last block offset = do
  wal_id ← take_wal_id
  write_wal (frame_header last block) offset
  write_wal block.buf (offset + frame_header_size)
  index_frame block wal_id offset

abbrev pub is_empty : List Block → Bool
is_empty [] = true
is_empty (_ ∷ _) = false

frame_width : Exec WalStorage ℕ
frame_width p = (ok (frame_size p), p)

-- The loop. It returns the offset behind the last frame.
unfoldable pub put_frames : List Block → ℕ → Exec WalStorage ℕ
unfolding frame_width
put_frames [] offset = pure offset
put_frames (block ∷ rest) offset = do
  put_frame (is_empty rest) block offset
  width ← frame_width
  put_frames rest (offset + width)

-- A new database adopts the size of its first block.
adopt_size : Block → Exec WalStorage (Unit {0})
adopt_size block p = (
  ok tt,
  if leb p.next_block_id 1 && not (length block.buf == p.block_size)
      then record p { block_size = length block.buf }
      else p,
)

check_sizes : List Block → Exec WalStorage (Unit {0})
check_sizes [] p = (ok tt, p)
check_sizes (block ∷ rest) p =
    if length block.buf == p.block_size
    then check_sizes rest p
    else (err (block_size_mismatch block.id), p)

wal_end_of : Exec WalStorage ℕ
wal_end_of p = (ok p.wal_end, p)

close_commit : ℕ → Exec WalStorage (Unit {0})
close_commit offset p =
    (ok tt, record p { wal_end = offset; committed_tx_count = p.committed_tx_count + 1 })

unfoldable pub put_blocks : List Block → Exec WalStorage (Unit {0})
unfolding adopt_size check_sizes wal_end_of close_commit
put_blocks [] = pure tt
put_blocks (block ∷ rest) = do
  adopt_size block
  check_sizes (block ∷ rest)
  start ← wal_end_of
  offset ← put_frames (block ∷ rest) start
  sync_wal
  close_commit offset

-- The committed header of block 0, or a fresh one where there is no block 0.
unfoldable pub get_metadata : WalStorage → Result Metadata
get_metadata p = elim (get_block p 0 p.max_wal_id) [
  | ok buf ↦
      (if ltb (length buf) metadata_length
        then panic
        else dblock.Metadata.decode (take metadata_length buf))
  | err empty_block ↦ ok new_metadata
  | err e ↦ err e
  | panic ↦ panic
  | out_of_fuel ↦ out_of_fuel
]

-- The block that `PutMetadata` starts from.
metadata_block : WalStorage → Result (List ℕ)
metadata_block p = elim (get_block p 0 p.max_wal_id) [
  | ok buf ↦ ok buf
  | err empty_block ↦ ok (replicate p.block_size 0)
  | err e ↦ err e
  | panic ↦ panic
  | out_of_fuel ↦ out_of_fuel
]

-- `buf[metadata.Length:]`, which panics on a shorter block.
with_header : Metadata → List ℕ → Result Block
with_header m buf =
    if ltb (length buf) metadata_length
    then panic
    else ok (record { id = 0; buf = dblock.Metadata.encode m ++ drop metadata_length buf })

unfoldable pub put_metadata : Metadata → Exec WalStorage (Unit {0})
unfolding metadata_block with_header
put_metadata m p =
    (do buf ← lift (metadata_block p); block ← lift (with_header m buf); put_blocks (block ∷ [])) p
