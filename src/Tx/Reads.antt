-- ===== src/Tx/Reads.antt =====
-- internal/storage/storage.go: what a `TxStorage` reads, before and after its own writes, the commits
-- of others and its rollback.
use dblock.Prelude.{
  arith, ℕ, ◌≡◌, refl, ap, ◌∙◌, none, List, if◌then◌else◌, inl, inr, Bool-cases, ◌==◌,
}
use dblock.Prelude.Fault.{ok}
use dblock.Prelude.Map.{lookup, lookup-insert, lookup-delete}
use dblock.Prelude.Exec.{◌>>=◌}
use dblock.Wal.{main_block, offset_of, get_block, forget_tx}
use dblock.Tx.{Session, tx_get_block, tx_put_block, rollback, dirty_or, on_wal, clear_dirty}

-- After `PutBlock` the transaction reads what it wrote to that block, and every other block as before.
pub reads_own_writes :
    (id : ℕ) (buf : List ℕ) (s : Session) (other : ℕ)
    → tx_get_block (tx_put_block id buf s).1 other
      ≡ (if id == other then ok buf else tx_get_block s other)
unfolding tx_get_block tx_put_block dirty_or
reads_own_writes id buf s other =
    ap (λ found. dirty_or found (get_block s.wal other s.tx.max_wal_block))
      (lookup-insert id other (record { id = id; buf = buf }) s.tx.dirty_blocks)
    ∙ elim (Bool-cases (id == other)) [ inl same ↦ rw same | inr ne ↦ rw ne ]

-- `Rollback` succeeds. After it the transaction reads every block as the store had it for the
-- transaction's watermark, without its own writes, and the store no longer lists the transaction as
-- an active one.
pub rollback_discards :
    (s : Session)
    → ((rollback s).0 ≡ ok tt)
      × ((id : ℕ) → tx_get_block (rollback s).1 id ≡ get_block s.wal id s.tx.max_wal_block)
      × (lookup s.tx.id (rollback s).1.wal.tx_using_wal_ids ≡ none)
unfolding tx_get_block rollback on_wal clear_dirty forget_tx dirty_or get_block ◌>>=◌ main_block
    offset_of lookup
rollback_discards s =
    (refl, λ id. refl, ground (arith, lookup-delete s.tx.id s.tx.id s.wal.tx_using_wal_ids))
