-- ===== src/Scan/Join/Nested.antt =====
-- internal/joinscanner.go: the rows of a join, as a nested loop over two lists.
use dblock.Prelude.{Bool, not, ◌||◌, List, [], ◌∷◌, ◌++◌, map, if◌then◌else◌, any, filter}
use dblock.Row.{Row}
use dblock.Scan.{Entry}
use dblock.Scan.Join.{Join, combine_rows, null_pad_right, null_pad_left}

abbrev pub flat_map : {A B : Type 0} → (A → List B) → List A → List B
flat_map f [] = []
flat_map f (x ∷ xs) = f x ++ flat_map f xs

abbrev pub joined_entry : Entry → Row → Entry
joined_entry l r = record { key = l.key; row = combine_rows l.row r }

module _ (j : Join) where
  -- A left row without a partner, and a right row without one.
  abbrev pub pad_left_row : Entry → List Entry
  pad_left_row l =
      if j.emit_left_unmatched
      then record { key = l.key; row = null_pad_right l.row j.right_col_count } ∷ []
      else []

  abbrev pub padded_entry : Row → Entry
  padded_entry r = record { key = []; row = null_pad_left j.left_col_count r }

  abbrev pub unmatched_entries : (Row → Bool) → List Row → List Entry
  unmatched_entries found rows =
      if j.emit_right_unmatched then map padded_entry (filter (λ r. not (found r)) rows) else []

  module _ (matches : Row → Row → Bool) where
    -- The partners of a left row, or the row padded with NULL.
    abbrev pub left_entries : List Row → Entry → List Entry
    left_entries rows l =
        if any (matches l.row) rows
        then map (joined_entry l) (filter (matches l.row) rows)
        else pad_left_row l

    -- The left rows in order with their partners in order, then the right rows that no left row matched.
    abbrev pub join_entries : List Row → List Entry → List Entry
    join_entries rows lefts =
        flat_map (left_entries rows) lefts
        ++ unmatched_entries (λ r. any (λ (l : Entry). matches l.row r) lefts) rows

    -- The same, where `found` says which right rows earlier left rows matched.
    abbrev pub join_from : List Row → (Row → Bool) → List Entry → List Entry
    join_from rows found [] = unmatched_entries found rows
    join_from rows found (e ∷ es) =
        left_entries rows e ++ join_from rows (λ r. found r || matches e.row r) es
