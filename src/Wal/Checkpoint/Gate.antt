-- ===== src/Wal/Checkpoint/Gate.antt =====
-- internal/storage/storage.go: the gate of `Checkpoint`, up to which frames may leave the log.
use mathlib.Core.Option.{some-injective}
use dblock.Prelude.{
  ℕ, ◌≤◌, ◌≡◌, some, [], ◌∷◌, ltb, ◌==◌, if◌then◌else◌, arith, inl, inr, Bool-cases,
}
use dblock.Prelude.Map.{Map, lookup}
use dblock.Wal.Checkpoint.{gate_of}

gate_of-le_start : (txs : Map ℕ) (gate : ℕ) → gate_of txs gate ≤ gate
unfolding gate_of
gate_of-le_start [] gate = omega arith
gate_of-le_start ((id, w) ∷ txs) gate =
    ground (arith, gate_of-le_start txs (if ltb w gate then w else gate))

pub gate_of-le : (txs : Map ℕ) (gate tx w : ℕ) → lookup tx txs ≡ some w → gate_of txs gate ≤ w
unfolding gate_of lookup
gate_of-le [] gate tx w h = absurd (ground (arith, h))
gate_of-le ((id, v) ∷ txs) gate tx w h = elim (Bool-cases (id == tx)) [
  | inl same ↦ ground (
    arith,
    gate_of-le_start txs (if ltb v gate then v else gate),
    some-injective _ _ (rw same at h),
  )
  | inr other ↦ gate_of-le txs (if ltb v gate then v else gate) tx w (rw other at h)
]
