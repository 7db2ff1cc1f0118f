-- ===== src/Tx.antt =====
-- internal/storage/storage.go: `TxStorage`, a transaction over the write-ahead log. It sees the log as
-- of its start, and its own writes. The pointer to the shared store is the second part of the state.
pub mod Reads
use dblock.Prelude.{
  ℕ, ◌+◌, Bool, true, false, Option, none, some, List, [], ◌∷◌, map, if◌then◌else◌,
}
use dblock.Prelude.Fault.{Result, ok, err, panic, out_of_fuel}
use dblock.Prelude.Exec.{Exec, pure, ◌>>=◌, ◌>>◌}
use dblock.Prelude.Map.{Map, lookup, insert}
use dblock.Wal.{WalStorage, Block, get_block, forget_tx, reserve_block, should_checkpoint}
use dblock.Wal.Commit.{put_blocks}
use dblock.Wal.Checkpoint.{MapOrder, checkpoint}

pub record TxStorage : Type 0 where
  pub id : ℕ
  pub max_wal_block : ℕ
  pub dirty_blocks : Map Block

-- The transaction and the store that it points to.
pub record Session : Type 0 where
  pub tx : TxStorage
  pub wal : WalStorage

unfoldable pub new_tx_storage : Exec WalStorage TxStorage
new_tx_storage w = (
  ok (record { id = w.next_tx_id; max_wal_block = w.max_wal_id; dirty_blocks = [] }),
  record w {
    next_tx_id = w.next_tx_id + 1;
    tx_using_wal_ids = insert w.next_tx_id w.max_wal_id w.tx_using_wal_ids;
  },
)

dirty_or : Option Block → Result (List ℕ) → Result (List ℕ)
dirty_or (some block) committed = ok block.buf
dirty_or none committed = committed

unfoldable pub tx_get_block : Session → ℕ → Result (List ℕ)
unfolding dirty_or
tx_get_block s id = dirty_or (lookup id s.tx.dirty_blocks) (get_block s.wal id s.tx.max_wal_block)

unfoldable pub tx_put_block : ℕ → List ℕ → Exec Session (Unit {0})
tx_put_block id buf s = (
  ok tt,
  record s {
    tx = record s.tx { dirty_blocks = insert id (record { id = id; buf = buf }) s.tx.dirty_blocks };
  },
)

-- A method of the store, called through the transaction.
on_wal : {A : Type 0} → Exec WalStorage A → Exec Session A
on_wal m s = let (r, w) = m s.wal in (r, record s { wal = w })

clear_dirty : Exec Session (Unit {0})
clear_dirty s = (ok tt, record s { tx = record s.tx { dirty_blocks = [] } })

checkpoint_if_due : MapOrder → Exec Session (Unit {0})
unfolding on_wal
checkpoint_if_due order s =
    if should_checkpoint s.wal then on_wal (checkpoint order) s else (ok tt, s)

-- The blocks of a range over `dirtyBlocks`, in the order that Go picks.
abbrev pub blocks_of : Map Block → List Block
blocks_of = map (λ e. e.1)

unfoldable pub commit : (Map Block → Map Block) → MapOrder → Exec Session (Unit {0})
unfolding on_wal clear_dirty checkpoint_if_due
commit range order s =
    (do
      on_wal (put_blocks (blocks_of (range s.tx.dirty_blocks)))
      clear_dirty
      on_wal (forget_tx s.tx.id)
      checkpoint_if_due order)
      s

unfoldable pub rollback : Exec Session (Unit {0})
unfolding on_wal clear_dirty
rollback s = (do clear_dirty; on_wal (forget_tx s.tx.id)) s

-- `NextBlockID` and `ReserveBlock`
unfoldable pub next_block_id : Session → ℕ
next_block_id s = s.wal.next_block_id

unfoldable pub tx_reserve_block : ℕ → Exec Session (Unit {0})
unfolding on_wal
tx_reserve_block id = on_wal (reserve_block id)
