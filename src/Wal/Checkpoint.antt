-- ===== src/Wal/Checkpoint.antt =====
-- internal/storage/storage.go: `Checkpoint`, which moves committed blocks to main and keeps in the log
-- what an active transaction may still need. Go does not fix the order of a range over a map: the
-- orders of the two loops over the index are an argument.
pub mod Gate
pub mod Copying
use dblock.Prelude.{
  ℕ, ◌+◌, ◌*◌, ◌%◌, ◌^◌, Bool, true, false, List, [], ◌∷◌, ltb, leb, if◌then◌else◌,
}
use dblock.Prelude.Int.{pos}
use dblock.Prelude.Fault.{Result, ok, err, panic, out_of_fuel}
use dblock.Prelude.Exec.{Exec, pure, lift, ◌>>=◌, ◌>>◌}
use dblock.Prelude.Map.{Map, insert}
use dblock.MemoryFile.{read_block, write_at, truncate, sync}
use dblock.Metadata.{Metadata, metadata_length}
use dblock.Wal.{WalStorage, frame_header_size, frame_size, offset_of}
use dblock.Wal.Commit.{write_wal, sync_wal}

pub record MapOrder : Type 0 where
  pub copied : Map ℕ → Map ℕ
  pub kept : Map ℕ → Map ℕ

-- `gate := p.maxWalID`, then the smallest watermark of an active transaction.
unfoldable pub gate_of : Map ℕ → ℕ → ℕ
gate_of [] gate = gate
gate_of ((_, w) ∷ txs) gate = gate_of txs (if ltb w gate then w else gate)

unfoldable pub pages_move_to_main : Map ℕ → ℕ → Bool
pages_move_to_main [] gate = false
pages_move_to_main ((_, wal_id) ∷ index) gate =
    if ltb wal_id gate then true else pages_move_to_main index gate

write_main : List ℕ → ℕ → Exec WalStorage ℕ
write_main buf offset p =
    let (r, f) = write_at buf (pos offset) p.main in (r, record p { main = f })

sync_main : Exec WalStorage (Unit {0})
sync_main p = let (r, f) = sync p.main in (r, record p { main = f })

read_wal : ℕ → ℕ → Exec WalStorage (List ℕ)
read_wal n offset p = (read_block p.wal n offset, p)

-- The frame of the block goes to the block's place in main.
unfoldable pub copy_frame : ℕ → ℕ → Exec WalStorage ℕ
unfolding write_main read_wal
copy_frame id wal_id p =
    (do
      buf ← read_wal p.block_size (offset_of p wal_id + frame_header_size)
      write_main buf (id * p.block_size))
      p

-- 1. Copy every safe frame into main.
unfoldable pub copy_frames : Map ℕ → ℕ → Exec WalStorage (Unit {0})
copy_frames [] gate = pure tt
copy_frames ((id, wal_id) ∷ index) gate =
    let rest = copy_frames index gate in
    if leb gate wal_id then rest else (do copy_frame id wal_id; rest)

pub record KeptFrame : Type 0 where
  pub id : ℕ
  pub wal_id : ℕ
  pub buf : List ℕ

keep_frame : ℕ → ℕ → Exec WalStorage KeptFrame
unfolding read_wal
keep_frame id wal_id p =
    (do
      buf ← read_wal (frame_size p) (offset_of p wal_id)
      pure (record { id = id; wal_id = wal_id; buf = buf }))
      p

unfoldable pub kept_frames : Map ℕ → ℕ → Exec WalStorage (List KeptFrame)
unfolding keep_frame
kept_frames [] gate = pure []
kept_frames ((id, wal_id) ∷ index) gate =
    let rest = kept_frames index gate in
    if ltb wal_id gate
    then rest
    else (do kept ← keep_frame id wal_id; more ← rest; pure (kept ∷ more))

-- The new index, the new offsets and the end of the rewritten log.
pub record Rewritten : Type 0 where
  pub index : Map ℕ
  pub offsets : Map ℕ
  pub offset : ℕ

frame_width : Exec WalStorage ℕ
frame_width p = (ok (frame_size p), p)

unfoldable pub rewrite_frames : List KeptFrame → Rewritten → Exec WalStorage Rewritten
unfolding frame_width
rewrite_frames [] r = pure r
rewrite_frames (kf ∷ rest) r = do
  write_wal kf.buf r.offset
  width ← frame_width
  rewrite_frames rest (record {
    index = insert kf.id kf.wal_id r.index;
    offsets = insert kf.wal_id r.offset r.offsets;
    offset = r.offset + width;
  })

truncate_wal : ℕ → Exec WalStorage (Unit {0})
truncate_wal n p = let (r, f) = truncate (pos n) p.wal in (r, record p { wal = f })

install : Rewritten → Exec WalStorage (Unit {0})
install r p = (ok tt, record p { wal_index = r.index; wal_offsets = r.offsets; wal_end = r.offset })

unfoldable pub get_metadata_hot : WalStorage → Result Metadata
get_metadata_hot p = elim (read_block p.main metadata_length 0) [
  | ok buf ↦ dblock.Metadata.decode buf
  | err e ↦ err e
  | panic ↦ panic
  | out_of_fuel ↦ out_of_fuel
]

unfoldable pub put_metadata_hot : Metadata → Exec WalStorage ℕ
unfolding write_main
put_metadata_hot m = write_main (dblock.Metadata.encode m) 0

-- `m.FileVersion++`, on a `uint32`
unfoldable pub bump_file_change_counter : Exec WalStorage ℕ
bump_file_change_counter p =
    (do
      m ← lift (get_metadata_hot p)
      put_metadata_hot (record m { file_version = (m.file_version + 1) % 2 ^ 32 }))
      p

reset_count : Exec WalStorage (Unit {0})
reset_count p = (ok tt, record p { committed_tx_count = 0 })

-- The log is rewritten behind the copies, and both files are synced in the order of the source.
rewrite_log : Map ℕ → ℕ → Exec WalStorage (Unit {0})
unfolding truncate_wal install
rewrite_log index gate = do
  kept ← kept_frames index gate
  r ← rewrite_frames kept (record { index = []; offsets = []; offset = 0 })
  truncate_wal r.offset
  sync_wal
  install r

unfoldable pub checkpoint : MapOrder → Exec WalStorage (Unit {0})
unfolding rewrite_log sync_main reset_count
checkpoint order p =
    let gate = gate_of p.tx_using_wal_ids p.max_wal_id in
    if pages_move_to_main p.wal_index gate
    then (do
      copy_frames (order.copied p.wal_index) gate
      sync_main
      rewrite_log (order.kept p.wal_index) gate
      sync_main
      sync_wal
      bump_file_change_counter
      sync_main
      reset_count)
        p
    else (ok tt, p)
