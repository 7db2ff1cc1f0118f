-- ===== src/Pager.antt =====
-- internal/pager.go: pages over the blocks of a transaction. The root page shares block 0 with the
-- database's metadata.
pub mod Root
pub mod Ids
use dblock.Prelude.{ℕ, ◌+◌, ◌-◌, ◌%◌, ◌^◌, some, List, leb, ◌==◌, if◌then◌else◌, replicate}
use dblock.Prelude.Int.{ℤ, pos, negsuc}
use dblock.Prelude.Fault.{Result, ok, err, panic, out_of_fuel, empty_block, empty_page}
use dblock.Prelude.Exec.{Exec, pure, lift, ◌>>=◌, ◌>>◌}
use dblock.Prelude.Map.{Map}
use dblock.Metadata.{Metadata, metadata_length, new_metadata, calculate_checksum}
use dblock.MemoryFile.{open_memory_file}
use dblock.Wal.{WalStorage, Block}
use dblock.Wal.Recover.{new_wal_storage}
use dblock.Wal.Checkpoint.{MapOrder}
use dblock.Tx.{
  Session, new_tx_storage, tx_get_block, tx_put_block, commit, rollback, next_block_id,
  tx_reserve_block,
}
use dblock.Page.{
  Page, root_schema_page_id, join_header_page_data, split_header_page_data, encode_page,
}
use dblock.Page.Decode.{decode_page}

-- `OpenWalStorage` of the data source ":memory:"
unfoldable pub open_memory_storage : Result WalStorage
open_memory_storage =
    new_wal_storage (open_memory_file "memory-main") (open_memory_file "memory-wal")

-- `StoragePager`; its store is the transaction with the log that it points to.
pub record StoragePager : Type 0 where
  pub store : Session
  pub next_id : ℕ
  pub page_size : ℤ

-- What the pager makes of a block, where an empty one has a meaning of its own.
abbrev pub on_block : {A : Type 0} → Result (List ℕ) → (List ℕ → Result A) → Result A → Result A
on_block (ok buf) f empty = f buf
on_block (err empty_block) f empty = empty
on_block (err e) f empty = err e
on_block panic f empty = panic
on_block out_of_fuel f empty = out_of_fuel

-- `StoragePager.GetPage`
unfoldable pub get_page : StoragePager → ℕ → Result Page
get_page p id =
    on_block (tx_get_block p.store id)
      (λ buf.
        decode_page (if id == root_schema_page_id then (split_header_page_data buf).1 else buf))
      (err empty_page)

-- `StoragePager.GetMetadata`, which a transaction that has no page size yet uses too.
unfoldable pub session_metadata : Session → Result Metadata
session_metadata s =
    on_block (tx_get_block s root_schema_page_id)
      (λ buf. dblock.Metadata.decode (split_header_page_data buf).0) (ok new_metadata)

-- `make([]byte, blockSize-metadata.Length)`
empty_region : ℤ → Result (List ℕ)
empty_region (pos n) =
    if leb metadata_length n then ok (replicate (n - metadata_length) 0) else panic
empty_region (negsuc _) = panic

unfoldable pub on_store : {A : Type 0} → Exec Session A → Exec StoragePager A
on_store m p = let (r, s) = m p.store in (r, record p { store = s })

set_page_size : ℤ → Exec StoragePager (Unit {0})
set_page_size n p = (ok tt, record p { page_size = n })

-- `m.NumberOfPages = ...; m.CalculateChecksum()`
counted : Session → Metadata → Metadata
counted s m = calculate_checksum (record m { number_of_pages = next_block_id s % 2 ^ 32 })

-- `StoragePager.PutMetadata`
unfoldable pub put_session_metadata : Metadata → Exec StoragePager (Unit {0})
unfolding empty_region on_store set_page_size counted
put_session_metadata m p =
    let m' = counted p.store m in
    let block_size = dblock.Metadata.page_size m' in
    (do
      buf ← lift (
          on_block (tx_get_block p.store root_schema_page_id)
            (λ buf. ok (split_header_page_data buf).1) (empty_region block_size))
      on_store (tx_put_block root_schema_page_id (join_header_page_data (some m') buf))
      set_page_size block_size)
      p

-- The block of a page: the root page's has the metadata in front.
unfoldable pub with_metadata : StoragePager → ℕ → List ℕ → Exec StoragePager (List ℕ)
with_metadata p id buf =
    if id == root_schema_page_id
    then (do m ← lift (session_metadata p.store); pure (join_header_page_data (some m) buf))
    else pure buf

-- `StoragePager.PutPage`
unfoldable pub put_page : ℕ → Page → Exec StoragePager (Unit {0})
unfolding with_metadata on_store
put_page id page p =
    (do
      buf ← lift (encode_page page p.page_size)
      block ← with_metadata p id buf
      on_store (tx_put_block id block))
      p

unfoldable pub take_next_id : Exec StoragePager ℕ
take_next_id p = (ok p.next_id, record p { next_id = p.next_id + 1 })

-- `StoragePager.NextID`
unfoldable pub new_id : Exec StoragePager ℕ
unfolding take_next_id on_store
new_id = do id ← take_next_id; on_store (tx_reserve_block id); pure id

-- `StoragePager.Commit` and `StoragePager.Rollback`
unfoldable pub commit_pages : (Map Block → Map Block) → MapOrder → Exec StoragePager (Unit {0})
unfolding on_store
commit_pages range order = on_store (commit range order)

unfoldable pub rollback_pages : Exec StoragePager (Unit {0})
unfolding on_store
rollback_pages = on_store rollback

-- The pager of a new transaction: its page size is that of the metadata.
sized : Session → Result Metadata → Result StoragePager
sized s (ok m) =
    ok (record { store = s; next_id = next_block_id s; page_size = dblock.Metadata.page_size m })
sized s (err e) = err e
sized s panic = panic
sized s out_of_fuel = out_of_fuel

-- `PagerSource.Begin`. The store comes back beside the pager, which holds the same one.
unfoldable pub begin : Exec WalStorage StoragePager
unfolding sized
begin = do
  tx ← new_tx_storage
  λ w. (sized (record { tx = tx; wal = w }) (session_metadata (record { tx = tx; wal = w })), w)
