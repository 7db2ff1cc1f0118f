-- ===== src/Examples/Storage.antt =====
-- internal/storage: a small store, with blocks of two bytes, and what the theorems say of it.
use dblock.Prelude.{
  ℕ, zero, suc, ◌<◌, ◌≡◌, refl, true, false, none, some, List, [], ◌∷◌, ◌++◌, arith, length,
  replicate, All, if◌then◌else◌, ◌==◌,
}
use dblock.Prelude.Fault.{ok}
use dblock.Prelude.Map.{lookup}
use dblock.Wal.Reading.{get_block-main}
use dblock.MemoryFile.{MemoryFile, size, read_at, read_block}
use dblock.MemoryFile.Slices.{slice, read_block-slice}
use dblock.Wal.{WalStorage, Block, get_block, main_block}
use dblock.Wal.Commit.{put_blocks}
use dblock.Wal.Commit.Frames.{frames_of}
use dblock.Wal.Recover.{recover}
use dblock.Wal.Recover.Frames.{Frame, frames_bytes, length-frames_bytes}
use dblock.Wal.Recover.Torn.{IsTorn, committed_block, recover_torn}
use dblock.Wal.Crash.{IsLog, crashed, crash_before_end, commit_is_durable}
use dblock.Wal.Commit.Cut.{IsBlock, frames_of-IsFrame}
use dblock.Wal.Visible.{IsIndexed, Stored}
use dblock.Tx.{Session, tx_get_block, tx_put_block, rollback}
use dblock.Wal.Visible.Fresh.{commit_is_seen}
use dblock.Wal.Recover.Frames.{content}
use dblock.Wal.Recover.Torn.{known}
use dblock.Wal.Checkpoint.{gate_of, copy_frames}
use dblock.Wal.Checkpoint.Copying.{IsEntry, copying_keeps_reads}
use dblock.Tx.Reads.{reads_own_writes, rollback_discards}

abbrev file_of : List ℕ → MemoryFile
file_of contents = record { name = "file"; contents = contents }

abbrev store_of : List ℕ → WalStorage
store_of log = record {
  wal_index = [];
  wal_offsets = [];
  tx_using_wal_ids = [];
  main = file_of (10 ∷ 11 ∷ 20 ∷ 21 ∷ []);
  wal = file_of log;
  max_wal_id = 0;
  next_tx_id = 0;
  wal_end = 0;
  next_block_id = 2;
  committed_tx_count = 0;
  block_size = 2;
}

abbrev block_one : Block
block_one = record { id = 1; buf = 7 ∷ 8 ∷ [] }

abbrev block_four : Block
block_four = record { id = 4; buf = 9 ∷ 9 ∷ [] }

two_blocks-IsBlock : All (IsBlock 2) (block_one ∷ block_four ∷ [])
two_blocks-IsBlock = ((omega arith, refl), ((omega arith, refl), tt))

empty-IsLog : IsLog (store_of []) []
empty-IsLog = record {
  sized = omega arith;
  contents = refl;
  ends = refl;
  good = tt;
  committed = tt;
}

commit_is_longer : 30 < length (frames_bytes (frames_of (block_one ∷ block_four ∷ [])))
commit_is_longer = omega (
  arith,
  length-frames_bytes 2 (frames_of (block_one ∷ block_four ∷ []))
      (frames_of-IsFrame 2 (block_one ∷ block_four ∷ []) two_blocks-IsBlock),
)

crash_before_end_example :
    (q r : WalStorage) × (put_blocks (block_one ∷ block_four ∷ []) (store_of []) ≡ (ok tt, q))
    × (recover (crashed (store_of []) q 30) ≡ ok r)
    × ((id : ℕ) → get_block r id r.max_wal_id ≡ committed_block (store_of []) [] id)
crash_before_end_example =
    crash_before_end (store_of []) [] block_one (block_four ∷ []) 30 empty-IsLog two_blocks-IsBlock
      commit_is_longer

commit_is_durable_example :
    (q r : WalStorage) × (put_blocks (block_one ∷ block_four ∷ []) (store_of []) ≡ (ok tt, q))
    × IsLog q ([] ++ frames_of (block_one ∷ block_four ∷ []))
    × (recover q ≡ ok r)
    × ((id : ℕ)
        → get_block r id r.max_wal_id
          ≡ committed_block (store_of []) ([] ++ frames_of (block_one ∷ block_four ∷ [])) id)
commit_is_durable_example =
    commit_is_durable (store_of []) [] block_one (block_four ∷ []) empty-IsLog two_blocks-IsBlock

abbrev frame_one : Frame
frame_one = record { last = true; block = block_one }

abbrev frame_four : Frame
frame_four = record { last = false; block = block_four }

abbrev torn_log : List ℕ
torn_log = frames_bytes (frame_one ∷ []) ++ (frames_bytes (frame_four ∷ []) ++ (0 ∷ 0 ∷ 0 ∷ []))

torn_log-IsTorn : IsTorn (store_of torn_log) (frame_one ∷ []) (frame_four ∷ []) (0 ∷ 0 ∷ 0 ∷ [])
torn_log-IsTorn = record {
  sized = omega arith;
  contents = refl;
  good = ((omega arith, refl), tt);
  good_pend = ((omega arith, refl), tt);
  committed = refl;
  unmarked = (refl, tt);
  short = omega arith;
}

recover_torn_example :
    (q : WalStorage) × (recover (store_of torn_log) ≡ ok q)
    × ((id : ℕ)
        → get_block q id q.max_wal_id ≡ committed_block (store_of torn_log) (frame_one ∷ []) id)
    × (q.wal_end ≡ length (frames_bytes (frame_one ∷ [])))
recover_torn_example =
    recover_torn (store_of torn_log) (frame_one ∷ []) (frame_four ∷ []) (0 ∷ 0 ∷ 0 ∷ [])
      torn_log-IsTorn

-- The log holds one frame that is in use, of block 1, and a transaction has read it since.
abbrev logged : WalStorage
logged = record (store_of (replicate 26 5)) {
  wal_index = (1, 0) ∷ [];
  wal_offsets = (0, 0) ∷ [];
  tx_using_wal_ids = (0, 1) ∷ [];
  max_wal_id = 2;
  wal_end = 26;
}

logged-Stored : (id n : ℕ) → lookup id logged.wal_index ≡ some n → Stored logged n
unfolding lookup
logged-Stored id zero e = record { below = omega arith; offset = 0; at = refl; fits = omega arith }
logged-Stored id (suc n) e = absurd (ground (arith, e))

logged-IsIndexed : IsIndexed logged
logged-IsIndexed = record { sized = omega arith; ends = omega arith; indexed = logged-Stored }

-- A transaction that opened after the frame and has written block 2.
abbrev session : Session
session = record {
  tx = record {
    id = 0;
    max_wal_block = 1;
    dirty_blocks = (2, record { id = 2; buf = 3 ∷ 3 ∷ [] }) ∷ [];
  };
  wal = logged;
}

reads_own_writes_example :
    tx_get_block (tx_put_block 1 (6 ∷ 6 ∷ []) session).1 1
    ≡ (if 1 == 1 then ok (6 ∷ 6 ∷ []) else tx_get_block session 1)
reads_own_writes_example = reads_own_writes 1 (6 ∷ 6 ∷ []) session 1

rollback_discards_example :
    ((rollback session).0 ≡ ok tt)
    × ((id : ℕ) → tx_get_block (rollback session).1 id ≡ get_block logged id 1)
    × (lookup 0 (rollback session).1.wal.tx_using_wal_ids ≡ none)
rollback_discards_example = rollback_discards session

read_block-slice_example :
    read_block (file_of (5 ∷ 6 ∷ 7 ∷ [])) 2 1 ≡ ok (slice 1 2 (5 ∷ 6 ∷ 7 ∷ []))
read_block-slice_example =
    read_block-slice (file_of (5 ∷ 6 ∷ 7 ∷ [])) 2 1 (omega arith) (omega arith)

commit_is_seen_example :
    (q : WalStorage) × (put_blocks (block_one ∷ block_four ∷ []) logged ≡ (ok tt, q))
    × (get_block q 4 q.max_wal_id
        ≡ known (get_block logged 4 2) (content 4 (frames_of (block_one ∷ block_four ∷ [])) none))
commit_is_seen_example =
    commit_is_seen logged block_one (block_four ∷ []) 4 logged-IsIndexed two_blocks-IsBlock

is_active : lookup 0 logged.tx_using_wal_ids ≡ some 1
unfolding lookup
is_active = refl

is_logged : lookup 1 logged.wal_index ≡ some 0
unfolding lookup
is_logged = refl

entries-IsEntry : All (IsEntry logged.wal_index) logged.wal_index
unfolding lookup
entries-IsEntry = (refl, tt)

main_zero : get_block logged 0 1 ≡ ok (10 ∷ 11 ∷ [])
unfolding main_block size read_block read_at lookup
main_zero = get_block-main logged 0 1 refl

copying_keeps_reads_example :
    (q : WalStorage) × (copy_frames logged.wal_index
        (gate_of logged.tx_using_wal_ids logged.max_wal_id)
        logged
      ≡ (ok tt, q))
    × (get_block q 0 1 ≡ ok (10 ∷ 11 ∷ []))
copying_keeps_reads_example =
    copying_keeps_reads logged logged.wal_index 0 1 0 (10 ∷ 11 ∷ []) logged-IsIndexed
      entries-IsEntry is_active main_zero
