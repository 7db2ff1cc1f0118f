-- ===== src/Scan/Collect.antt =====
-- internal/orderscanner.go, internal/joinscanner.go and internal/aggregatescanner.go: their loops over a whole
-- base, which take fuel, and a scanner of rows that are there.
use dblock.Prelude.{
  ℕ, zero, suc, ◌+◌, ◌<◌, ◌≡◌, refl, ap, sym, ◌∙◌, Option, none, some, List, [], ◌∷◌, ◌++◌, length,
  get_elem?, arith, append_assoc, append-nil, length-append,
}
use dblock.Prelude.Fault.{ok, out_of_fuel}
use dblock.Prelude.Exec.{Exec, pure, ◌>>=◌, >>=-ok}
use dblock.Scan.{Entry, Scanner, Yields, done, more}

module _ {S : Type 0} (base : Scanner S) where
  collect_more :
      (List Entry → Exec S (List Entry)) → List Entry → Option Entry → Exec S (List Entry)
  collect_more rest rows none = pure rows
  collect_more rest rows (some e) = rest (rows ++ e ∷ [])

  -- The loop of a scanner that reads its whole base.
  unfoldable pub collect : ℕ → List Entry → Exec S (List Entry)
  unfolding collect_more
  collect zero rows = λ s. (out_of_fuel, s)
  collect (suc fuel) rows = do found ← base.next; collect_more (collect fuel) rows found

  pub collect_lem :
      (fuel : ℕ) (before : List Entry) {s : S} {rows : List Entry}
      → Yields base s rows
      → length rows < fuel
      → (collect fuel before s).0 ≡ ok (before ++ rows)
  unfolding collect pure
  collect_lem zero before y h = absurd (omega arith)
  collect_lem (suc fuel) before {s} (done e stop) h =
      ap (λ r. r.0) (>>=-ok base.next _ s e) ∙ ap ok (sym (append-nil before))
  collect_lem (suc fuel) before {s} (more {e = e} {es = es} step y) h =
      ap (λ r. r.0) (>>=-ok base.next _ s step)
      ∙ collect_lem fuel (before ++ e ∷ []) y (omega arith)
      ∙ ap ok (append_assoc before (e ∷ []) es)

-- `nextIdx` into rows that are there.
unfoldable pub rows_next : List Entry → Exec ℕ (Option Entry)
rows_next rows idx = elim (get_elem? rows idx) [
  | none ↦ (ok none, idx)
  | some e ↦ (ok (some e), idx + 1)
]

at_end : (before : List Entry) → get_elem? before (length before) ≡ none
at_end [] = refl
at_end (e ∷ before) = at_end before

at_place :
    (before : List Entry) (e : Entry) (rest : List Entry)
    → get_elem? (before ++ e ∷ rest) (length before) ≡ some e
at_place [] e rest = refl
at_place (b ∷ before) e rest = at_place before e rest

rows_from :
    (columns : List (List ℕ)) (before rest : List Entry)
    → Yields (record { columns = columns; next = rows_next (before ++ rest) }) (length before) rest
unfolding rows_next
rows_from columns before [] =
    let e : rows_next (before ++ []) (length before) ≡ (ok none, length before) =
      rw (append-nil before, at_end before, rows_next) in
    done e e
rows_from columns before (x ∷ rest) =
    let later =
      rw (append_assoc before (x ∷ []) rest, length-append before (x ∷ [])) at
        (rows_from columns (before ++ x ∷ []) rest) in
    more (rw (at_place before x rest, rows_next)) later

pub Yields-rows :
    (columns : List (List ℕ)) (rows : List Entry)
    → Yields (record { columns = columns; next = rows_next rows }) 0 rows
Yields-rows columns rows = rows_from columns [] rows
