-- ===== src/Examples/Pages.antt =====
-- internal/pager.go: a new database, with pages of 140 bytes.
use dblock.Prelude.{◌<◌, ◌≤◌, ℕ, ◌≡◌, refl, true, List, [], ◌∷◌, arith, replicate}
use dblock.Prelude.Int.{pos}
use dblock.Prelude.Bytes.{le_bytes}
use dblock.Prelude.Fault.{ok}
use dblock.Prelude.Exec.{◌>>=◌}
use dblock.Prelude.Map.{lookup}
use dblock.Metadata.{new_metadata, calculate_checksum}
use dblock.Metadata.RoundTrip.{IsHeader}
use dblock.MemoryFile.{MemoryFile, size}
use dblock.Wal.{get_block, main_block}
use dblock.Page.{Page, encode_page, put_page_data, poke, put_entries}
use dblock.Page.Decode.{decode_page}
use dblock.Tx.{tx_get_block}
use dblock.Pager.{StoragePager, get_page, session_metadata, put_page}
use dblock.Pager.{new_id}
use dblock.Pager.Ids.{new_id_lem}
use dblock.Tx.{next_block_id}
use dblock.Pager.Root.{root_page_keeps_metadata}

abbrev empty_file : MemoryFile
empty_file = record { name = "file"; contents = [] }

abbrev new_pager : StoragePager
new_pager = record {
  store = record {
    tx = record { id = 0; max_wal_block = 0; dirty_blocks = [] };
    wal = record {
      wal_index = [];
      wal_offsets = [];
      tx_using_wal_ids = (0, 0) ∷ [];
      main = empty_file;
      wal = empty_file;
      max_wal_id = 0;
      next_tx_id = 1;
      wal_end = 0;
      next_block_id = 1;
      committed_tx_count = 0;
      block_size = 140;
    };
  };
  next_id = 1;
  page_size = pos 140;
}

abbrev empty_leaf : Page
empty_leaf = record {
  id = 0;
  is_leaf = true;
  num_keys = 0;
  next_leaf = 0;
  keys = [];
  values = [];
  children = [];
}

-- The magic and the leaf flag.
abbrev empty_leaf_bytes : List ℕ
empty_leaf_bytes = 70 ∷ 65 ∷ 69 ∷ 76 ∷ 1 ∷ replicate 35 0

empty_leaf_encoded : encode_page empty_leaf new_pager.page_size ≡ ok empty_leaf_bytes
unfolding encode_page put_page_data poke put_entries le_bytes ◌>>=◌
empty_leaf_encoded = refl

new_pager_reads : session_metadata new_pager.store ≡ ok new_metadata
unfolding session_metadata tx_get_block get_block main_block size lookup
new_pager_reads = refl

new_metadata-IsHeader : IsHeader new_metadata
unfolding new_metadata calculate_checksum
new_metadata-IsHeader = record {
  magic = refl;
  file_version = omega arith;
  schema_version = omega arith;
  page_size_power = omega arith;
  number_of_pages = omega arith;
  token = omega arith;
}

new_metadata_summed : calculate_checksum new_metadata ≡ new_metadata
unfolding new_metadata
new_metadata_summed = refl

root_page_keeps_metadata_example :
    (q : StoragePager) × (put_page 0 empty_leaf new_pager ≡ (ok tt, q))
    × (session_metadata q.store ≡ ok new_metadata)
    × (get_page q 0 ≡ decode_page empty_leaf_bytes)
root_page_keeps_metadata_example =
    root_page_keeps_metadata new_pager empty_leaf empty_leaf_bytes new_metadata empty_leaf_encoded
      new_pager_reads new_metadata-IsHeader new_metadata_summed

new_id_lem_example :
    (q : StoragePager) × (new_id new_pager ≡ (ok 1, q))
    × (q.next_id ≡ 2)
    × (1 < next_block_id q.store)
    × (next_block_id new_pager.store ≤ next_block_id q.store)
new_id_lem_example = new_id_lem new_pager
