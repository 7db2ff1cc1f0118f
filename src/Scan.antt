-- ===== src/Scan.antt =====
-- internal/scanner.go and internal/customscanner.go: the interface `Scanner`, as its two methods over
-- a state. What `Next` returns is an entry, no entry, or an error; the flag beside an error is not kept.
pub mod Filter
pub mod Project
pub mod Star
pub mod Sorting
pub mod Collect
pub mod Order
pub mod Join
pub mod Aggregate
pub mod Tables
use dblock.Prelude.{ℕ, ◌+◌, ◌≡◌, ◌≢◌, ◌∙◌, arith, Option, none, some, List, [], ◌∷◌, get_elem?}
use dblock.Prelude.Fault.{Result, ok, err, panic, out_of_fuel}
use dblock.Prelude.Exec.{Exec}
use dblock.Value.{Value}
use dblock.Row.{Row}

pub record Entry : Type 0 where
  pub key : List ℕ
  pub row : Row

pub record Scanner (S : Type 0) : Type 0 where
  pub columns : List (List ℕ)
  pub next : Exec S (Option Entry)

-- A scanner of some state, with its state.
pub record Opened : Type 1 where
  pub State : Type 0
  pub scanner : Scanner State
  pub state : State

-- From a state the scanner gives the entries one by one, then none, and none again.
pub data Yields {S : Type 0} (sc : Scanner S) : S → List Entry → Type 0 where
  done : {s t : S} → sc.next s ≡ (ok none, t) → sc.next t ≡ (ok none, t) → Yields sc s []
  more :
      {s t : S} {e : Entry} {es : List Entry}
      → sc.next s ≡ (ok (some e), t)
      → Yields sc t es
      → Yields sc s (e ∷ es)

-- Where it starts alike it goes on alike.
pub Yields-start :
    {S : Type 0} (sc : Scanner S) {s t : S} {rows : List Entry}
    → sc.next s ≡ sc.next t
    → Yields sc t rows
    → Yields sc s rows
Yields-start sc same (done e stop) = done (same ∙ e) stop
Yields-start sc same (more step y) = more (same ∙ step) y

pub Yields-ne-out_of_fuel :
    {S : Type 0} (sc : Scanner S) {s : S} {rows : List Entry}
    → Yields sc s rows
    → (sc.next s).0 ≢ out_of_fuel
Yields-ne-out_of_fuel sc (done e stop) = rw e (λ p. ground arith)
Yields-ne-out_of_fuel sc (more step y) = rw step (λ p. ground arith)

-- `CustomScanner`: `idx` into its rows. An entry of `nil` has the empty key.
custom_next : List (List Value) → Exec ℕ (Option Entry)
custom_next rows idx = elim (get_elem? rows idx) [
  | none ↦ (ok none, idx)
  | some values ↦ (ok (some (record { key = []; row = record { values = values } })), idx + 1)
]

unfoldable pub new_custom_scanner : List (List ℕ) → List (List Value) → Opened
unfolding custom_next
new_custom_scanner columns rows = record {
  State = ℕ;
  scanner = record { columns = columns; next = custom_next rows };
  state = 0;
}
