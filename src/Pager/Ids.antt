-- ===== src/Pager/Ids.antt =====
-- internal/pager.go: the ids of new pages.
use dblock.Prelude.{◌+◌, ◌≤◌, ◌<◌, ◌≡◌, refl, arith}
use dblock.Prelude.Fault.{ok}
use dblock.Prelude.Exec.{◌>>=◌, pure}
use dblock.Wal.{reserve_block}
use dblock.Tx.{next_block_id, tx_reserve_block}
use dblock.Pager.{StoragePager, new_id, take_next_id, on_store}

-- `NextID` succeeds with the pager's next id and moves on to the one after it. The id that the store has
-- for the next transaction is then above it, and not below what it was.
pub new_id_lem :
    (p : StoragePager)
    → (q : StoragePager) × (new_id p ≡ (ok p.next_id, q))
      × (q.next_id ≡ p.next_id + 1)
      × (p.next_id < next_block_id q.store)
      × (next_block_id p.store ≤ next_block_id q.store)
unfolding new_id take_next_id on_store ◌>>=◌ pure tx_reserve_block reserve_block next_block_id
new_id_lem p = ((new_id p).1, refl, refl, ground arith, ground arith)
