-- ===== src/Wal/Recover.antt =====
-- internal/storage/storage.go: `NewWalStorage` and `Recover`, which rebuilds the index from the log.
pub mod Frames
pub mod Scanning
pub mod Index
pub mod Torn
use dblock.Prelude.{
  ℕ, zero, suc, ◌+◌, ◌*◌, ◌/◌, ◌%◌, ◌^◌, max, Option, none, some, List, [], ◌∷◌, ltb, leb, ◌==◌,
  if◌then◌else◌, length, take, drop,
}
use dblock.Prelude.Int.{ℤ, pos, negsuc}
use dblock.Prelude.Fault.{Error, Result, ok, err, panic, out_of_fuel}
use dblock.Prelude.Map.{Map, lookup, insert}
use dblock.Prelude.Bytes.{be_value}
use dblock.Prelude.Bits.{checksum_ieee}
use dblock.MemoryFile.{MemoryFile, read_block, size}
use dblock.Wal.{WalStorage, frame_header_size, frame_size, detect_block_size}

-- The variables of the loop in `Recover`, those of the receiver among them.
pub record Scan : Type 0 where
  pub wal_index : Map ℕ
  pub wal_offsets : Map ℕ
  pub max_wal_id : ℕ
  pub pending_index : Map ℕ
  pub pending_offsets : Map ℕ
  pub offset : ℕ
  pub last_commit_end : ℕ

abbrev pub start : Scan
start = record {
  wal_index = [];
  wal_offsets = [];
  max_wal_id = 0;
  pending_index = [];
  pending_offsets = [];
  offset = 0;
  last_commit_end = 0;
}

-- `for k, v := range pending { m[k] = v }`
unfoldable pub publish : Map ℕ → Map ℕ → Map ℕ
publish [] m = m
publish ((k, v) ∷ pending) m = insert k v (publish pending m)

-- A frame with a good checksum. A marker that is not 0 publishes all that is pending.
unfoldable pub accept : ℕ → ℕ → ℕ → Scan → Scan
accept frame_size block_id commit_marker s =
    let index = insert block_id s.max_wal_id s.pending_index in
    let offsets = insert s.max_wal_id s.offset s.pending_offsets in
    let next = s.offset + frame_size in
    if commit_marker == 0
    then record s {
      max_wal_id = s.max_wal_id + 1;
      pending_index = index;
      pending_offsets = offsets;
      offset = next;
    }
    else record {
      wal_index = publish index s.wal_index;
      wal_offsets = publish offsets s.wal_offsets;
      max_wal_id = s.max_wal_id + 1;
      pending_index = index;
      pending_offsets = offsets;
      offset = next;
      last_commit_end = next;
    }

-- The three words of a frame header.
abbrev pub header_word : ℕ → List ℕ → ℕ
header_word i header = be_value (take 8 (drop (8 * i) header))

scan_payload : WalStorage → List ℕ → Scan → Result (List ℕ) → Option Scan
scan_payload p header s (ok buf) =
    if checksum_ieee buf == header_word 2 header % 2 ^ 32
    then some (accept (frame_size p) (header_word 0 header) (header_word 1 header) s)
    else none
scan_payload p header s _ = none

scan_header : WalStorage → Scan → Result (List ℕ) → Option Scan
scan_header p s (ok header) =
    if ltb (size p.wal) (s.offset + frame_size p)
    then none
    else scan_payload p header s (read_block p.wal p.block_size (s.offset + frame_header_size))
scan_header p s _ = none

-- One round of the loop: `none` where its condition fails, or it breaks.
unfoldable pub scan_frame : WalStorage → Scan → Option Scan
unfolding scan_header scan_payload
scan_frame p s =
    if ltb (size p.wal) (s.offset + frame_header_size)
    then none
    else scan_header p s (read_block p.wal frame_header_size s.offset)

-- `none`: the fuel ran out.
unfoldable pub scan_loop : ℕ → WalStorage → Scan → Option Scan
scan_loop zero p s = none
scan_loop (suc fuel) p s = elim (scan_frame p s) [ none ↦ some s | some s' ↦ scan_loop fuel p s' ]

recovered : WalStorage → Option Scan → Result WalStorage
recovered p none = out_of_fuel
recovered p (some s) = ok (record p {
  wal_index = s.wal_index;
  wal_offsets = s.wal_offsets;
  max_wal_id = s.max_wal_id;
  wal_end = s.last_commit_end;
})

-- A frame takes 24 bytes at least, so the size of the log is fuel enough.
unfoldable pub recover : WalStorage → Result WalStorage
unfolding recovered
recover p = recovered p (scan_loop (size p.wal + 1) p start)

-- `for id := range s.walIndex`
unfoldable pub past_index : Map ℕ → ℕ → ℕ
past_index [] next = next
past_index ((id, _) ∷ index) next = past_index index (if leb next id then id + 1 else next)

opened : Result WalStorage → Result WalStorage
opened (ok s) = ok (record s { next_block_id = past_index s.wal_index s.next_block_id })
opened (err e) = err e
opened panic = panic
opened out_of_fuel = out_of_fuel

-- A block size of 0 is a division by zero, and one below 0 is refused by `make` in `Recover`.
open_sized : MemoryFile → MemoryFile → Result ℤ → Result WalStorage
open_sized main wal (ok (pos (suc n))) = opened (
    recover (record {
      wal_index = [];
      wal_offsets = [];
      tx_using_wal_ids = [];
      main = main;
      wal = wal;
      max_wal_id = 0;
      next_tx_id = 0;
      wal_end = 0;
      next_block_id = max 1 (size main / suc n);
      committed_tx_count = 0;
      block_size = suc n;
    }))
open_sized main wal (ok _) = panic
open_sized main wal (err e) = err e
open_sized main wal panic = panic
open_sized main wal out_of_fuel = out_of_fuel

unfoldable pub new_wal_storage : MemoryFile → MemoryFile → Result WalStorage
unfolding opened open_sized
new_wal_storage main wal = open_sized main wal (detect_block_size main)
