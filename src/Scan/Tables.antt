-- ===== src/Scan/Tables.antt =====
-- internal/fullscanner.go and internal/indexscanner.go: the scanners of a table, over a cursor of a tree. The
-- state is the cursor beside that of the pages.
use dblock.Prelude.{ℕ, Option, none, some, List, []}
use dblock.Prelude.Fault.{Result, ok, err, panic, out_of_fuel}
use dblock.Prelude.Outcome.{◌>>=◌}
use dblock.Prelude.Exec
use dblock.Prelude.Exec.{Exec}
use dblock.Row.{Row, decode_row}
use dblock.Btree.{Tree, search_tree}
use dblock.Btree.Walk.{Cursor, new_cursor, cursor_next, key_range}
use dblock.Schema.{Table, column_names}
use dblock.Scan.{Entry, Opened}

-- `row, err = DecodeRow(v)`: an error is dropped, and the row beside it is the zero row.
unfoldable pub row_or_zero : Result Row → Result Row
row_or_zero (err e) = ok (record { values = [] })
row_or_zero r = r

abbrev pub CursorState : Type 0 → Type 0
CursorState S = Cursor × S

module _ {S : Type 0} (t : Tree S) (fuel : ℕ) where
  -- `Cursor.Next` on the pair.
  step_cursor : Exec (CursorState S) (Option (List ℕ × List ℕ))
  step_cursor (c, s) = stepped c (cursor_next t fuel c s)
    where
      stepped :
          Cursor
          → Result (Cursor × Option (List ℕ × List ℕ)) × S
          → Result (Option (List ℕ × List ℕ)) × CursorState S
      stepped c (ok (c', found), s) = (ok found, (c', s))
      stepped c (err e, s) = (err e, (c, s))
      stepped c (panic, s) = (panic, (c, s))
      stepped c (out_of_fuel, s) = (out_of_fuel, (c, s))

  full_entry : Option (List ℕ × List ℕ) → Exec (CursorState S) (Option Entry)
  full_entry none s = (ok none, s)
  full_entry (some (key, value)) s =
      ((do row ← row_or_zero (decode_row value); ok (some (record { key = key; row = row }))), s)

  unfoldable pub full_next : Exec (CursorState S) (Option Entry)
  unfolding step_cursor full_entry
  full_next = Exec.◌>>=◌ step_cursor full_entry

  opened_full : List (List ℕ) → Result (List ℕ × List ℕ) × S → Result Opened
  opened_full columns (range, s) = do
    r ← range
    ok (record {
      State = CursorState S;
      scanner = record { columns = columns; next = full_next };
      state = (new_cursor r.0 r.1, s);
    })

  unfoldable pub new_full_scanner : List (List ℕ) → S → Result Opened
  unfolding opened_full
  new_full_scanner columns s = opened_full columns (key_range t fuel s)

module _ {S : Type 0} (index_tree table_tree : Tree S) (fuel : ℕ) where
  -- The row of an id, which the index gives.
  row_of_id : List ℕ → S → Option (List ℕ) → Result (Option Entry)
  row_of_id id s none = ok none
  row_of_id id s (some encoded) = do
    row ← decode_row encoded
    ok (some (record { key = id; row = row }))

  index_entry : Option (List ℕ × List ℕ) → Exec (CursorState S) (Option Entry)
  unfolding row_of_id
  index_entry none cs = (ok none, cs)
  index_entry (some (key, id)) (c, s) =
      let (found, s') = search_tree table_tree fuel id s in
      ((do encoded ← found; row_of_id id s' encoded), (c, s'))

  unfoldable pub index_next : Exec (CursorState S) (Option Entry)
  unfolding step_cursor index_entry
  index_next = Exec.◌>>=◌ (step_cursor index_tree fuel) index_entry

  opened_index : Table → Result (List ℕ × List ℕ) × S → Result Opened
  opened_index table (range, s) = do
    r ← range
    ok (record {
      State = CursorState S;
      scanner = record { columns = column_names table; next = index_next };
      state = (new_cursor r.0 r.1, s);
    })

  unfoldable pub new_index_scanner : Table → S → Result Opened
  unfolding opened_index
  new_index_scanner table s = opened_index table (key_range index_tree fuel s)
