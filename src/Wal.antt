-- ===== src/Wal.antt =====
-- internal/storage/storage.go: `WalStorage`, the write-ahead log over a main file, with both files in
-- memory. A method is one action of `Exec`: it runs under the mutex (`PutBlocks` takes it after its tests
-- of the sizes). Block, WAL and transaction ids are numbers.
pub mod Reading
pub mod Recover
pub mod Commit
pub mod Crash
pub mod Visible
pub mod Checkpoint
use dblock.Prelude.{
  ℕ, zero, suc, ◌+◌, ◌*◌, ◌/◌, ◌%◌, ◌^◌, max, Bool, true, false, not, ◌&&◌, Option, none, some,
  List, [], ◌∷◌, ◌++◌, ltb, leb, ◌==◌, if◌then◌else◌, length, take, drop, replicate,
}
use dblock.Prelude.Int.{ℤ, pos, negsuc}
use dblock.Prelude.Fault.{Error, Result, ok, err, panic, out_of_fuel, empty_block}
use dblock.Prelude.Exec.{Exec, pure, fail, lift, ◌>>=◌, ◌>>◌}
use dblock.Prelude.Map.{Map, lookup, insert, delete}
use dblock.MemoryFile.{MemoryFile, read_block, size}
use dblock.Metadata.{Metadata, metadata_length, page_size}

-- `BlockSize`, the default
abbrev pub default_block_size : ℕ
default_block_size = 1024 * 8

-- Block id, commit marker and checksum.
abbrev pub frame_header_size : ℕ
frame_header_size = 24

abbrev pub checkpoint_tx_interval : ℕ
checkpoint_tx_interval = 100

abbrev pub checkpoint_wal_page_limit : ℕ
checkpoint_wal_page_limit = 100

pub record WalStorage : Type 0 where
  pub wal_index : Map ℕ
  pub wal_offsets : Map ℕ
  pub tx_using_wal_ids : Map ℕ
  pub main : MemoryFile
  pub wal : MemoryFile
  pub max_wal_id : ℕ
  pub next_tx_id : ℕ
  pub wal_end : ℕ
  pub next_block_id : ℕ
  pub committed_tx_count : ℕ
  pub block_size : ℕ

pub record Block : Type 0 where
  pub id : ℕ
  pub buf : List ℕ

abbrev pub frame_size : WalStorage → ℕ
frame_size p = frame_header_size + p.block_size

-- `GetBlock` on main: `start, end := p.pageOffset(id)`
unfoldable pub main_block : WalStorage → ℕ → Result (List ℕ)
main_block p id =
    let start = id * p.block_size in
    if ltb (size p.main) (start + p.block_size)
    then err empty_block
    else read_block p.main p.block_size start

-- A key that a Go map lacks reads as the zero value.
unfoldable pub offset_of : WalStorage → ℕ → ℕ
offset_of p wal_id = elim (lookup wal_id p.wal_offsets) [ none ↦ 0 | some offset ↦ offset ]

-- `inWAL && walID < toMax`, and the version to read.
in_snapshot : Option ℕ → ℕ → Option ℕ
in_snapshot none to_max = none
in_snapshot (some wal_id) to_max = if ltb wal_id to_max then some wal_id else none

versioned_block : WalStorage → ℕ → Option ℕ → Result (List ℕ)
versioned_block p id none = main_block p id
versioned_block p id (some wal_id) =
    read_block p.wal p.block_size (offset_of p wal_id + frame_header_size)

-- The block as of the watermark `to_max`.
unfoldable pub get_block : WalStorage → ℕ → ℕ → Result (List ℕ)
unfolding in_snapshot versioned_block
get_block p id to_max = versioned_block p id (in_snapshot (lookup id p.wal_index) to_max)

unfoldable pub reserve_block : ℕ → Exec WalStorage (Unit {0})
reserve_block id p =
    (ok tt, if leb p.next_block_id id then record p { next_block_id = id + 1 } else p)

unfoldable pub forget_tx : ℕ → Exec WalStorage (Unit {0})
forget_tx id p = (ok tt, record p { tx_using_wal_ids = delete id p.tx_using_wal_ids })

-- The division is by the frame size, which is at least 24.
unfoldable pub should_checkpoint : WalStorage → Bool
should_checkpoint p =
    if ltb checkpoint_tx_interval p.committed_tx_count
    then true
    else ltb checkpoint_wal_page_limit (p.wal_end / frame_size p)

-- `detectBlockSize`: the page size in main's header, or the default for a file without one.
unfoldable pub detect_block_size : MemoryFile → Result ℤ
detect_block_size main =
    if ltb (size main) metadata_length
    then ok (pos default_block_size)
    else elim (read_block main metadata_length 0) [
      | ok buf ↦ elim (dblock.Metadata.decode buf) [
        | ok m ↦ ok (page_size m)
        | err e ↦ err e
        | panic ↦ panic
        | out_of_fuel ↦ out_of_fuel
      ]
      | err e ↦ err e
      | panic ↦ panic
      | out_of_fuel ↦ out_of_fuel
    ]
