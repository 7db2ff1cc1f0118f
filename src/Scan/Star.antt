-- ===== src/Scan/Star.antt =====
-- internal/projectorscanner.go: what the projector gives for each row of its base, and `SELECT *`.
use dblock.Prelude.{
  ℕ, ◌+◌, ◌≡◌, refl, ap, ◌∙◌, List, [], ◌∷◌, ◌++◌, length, map, All, arith, length-append,
  append_assoc,
}
use dblock.Prelude.Fault.{ok}
use dblock.Prelude.Exec.{pure, lift, >>=-ok}
use dblock.Value.{Value}
use dblock.Expr.{at_index}
use dblock.Expr.Compare.{Float64}
use dblock.Scan.{Entry, Scanner, Yields, done, more}
use dblock.Scan.Project.{
  Output, copied_columns, output_value, output_values, new_projector_scanner, outputs,
}

-- An entry with other values.
abbrev pub with_values : Entry → List Value → Entry
with_values e values = record { key = e.key; row = record { values = values } }

module _ ⦃fl : Float64⦄ {S : Type 0} (base : Scanner S) (outs : List Output)
    (args : List Value) where
  -- Over a base that yields rows whose outputs all have a value, the projector yields the rows of these
  -- values, in the same order and under the same keys.
  pub Yields-projected :
      (out : Entry → List Value) {s : S} {rows : List Entry}
      → Yields base s rows
      → All (λ e. output_values base.columns e.row.values args outs ≡ ok (out e)) rows
      → Yields (new_projector_scanner base outs args) s (map (λ e. with_values e (out e)) rows)
  unfolding new_projector_scanner pure lift
  Yields-projected out (done e stop) h = done (>>=-ok base.next _ _ e) (>>=-ok base.next _ _ stop)
  Yields-projected out (more {t = t} {e = e} step y) h =
      more
        (>>=-ok base.next _ _ step
          ∙ >>=-ok (lift (output_values base.columns e.row.values args outs)) _ t {a = out e}
              (ap (λ r. (r, t)) h.0))
        (Yields-projected out y h.1)

at_index-append :
    {A : Type 0} (front : List A) (x : A) (back : List A)
    → at_index (front ++ x ∷ back) (length front) ≡ ok x
unfolding at_index
at_index-append [] x back = refl
at_index-append (y ∷ front) x back = at_index-append front x back

module _ ⦃fl : Float64⦄ (columns : List (List ℕ)) (args : List Value) where
  -- The columns from a place on copy the values from that place on.
  copied_values :
      (front back : List Value) (names : List (List ℕ))
      → length back ≡ length names
      → output_values columns (front ++ back) args (copied_columns (length front) names) ≡ ok back
  unfolding output_values output_value copied_columns
  copied_values front [] [] h = refl
  copied_values front [] (n ∷ names) h = absurd (omega arith)
  copied_values front (v ∷ back) [] h = absurd (omega arith)
  copied_values front (v ∷ back) (n ∷ names) h =
      let rest = copied_values (front ++ v ∷ []) back names (omega arith) in
      let moved = rw (append_assoc front (v ∷ []) back, length-append front (v ∷ [])) at rest in
      rw (at_index-append front v back, moved)

  whole : (e : Entry) → with_values e e.row.values ≡ e
  whole e = refl

  map_whole : (rows : List Entry) → map (λ (e : Entry). with_values e e.row.values) rows ≡ rows
  map_whole [] = refl
  map_whole (e ∷ rows) = ap (λ es. e ∷ es) (map_whole rows)

  copied-All :
      (rows : List Entry)
      → All (λ (e : Entry). length e.row.values ≡ length columns) rows
      → All
          (λ (e : Entry).
            output_values columns e.row.values args (copied_columns 0 columns) ≡ ok e.row.values)
          rows
  copied-All [] h = tt
  copied-All (e ∷ rows) h = (copied_values [] e.row.values columns h.0, copied-All rows h.1)

names_of :
    (i : ℕ) (names : List (List ℕ)) → map (λ (o : Output). o.name) (copied_columns i names) ≡ names
unfolding copied_columns
names_of i [] = refl
names_of i (n ∷ names) = ap (λ ns. n ∷ ns) (names_of (i + 1) names)

-- `SELECT *` gives what its base gives: with an empty projection, the projector over a base that yields
-- rows with one value for each column yields the same entries, and has the same column names.
pub Yields-star :
    ⦃fl : Float64⦄ {S : Type 0} (base : Scanner S) (args : List Value) (format_float : ℕ → List ℕ)
    {s : S} {rows : List Entry}
    → Yields base s rows
    → All (λ (e : Entry). length e.row.values ≡ length base.columns) rows
    → (outs : List Output) × (outputs format_float base.columns [] ≡ ok outs)
      × Yields (new_projector_scanner base outs args) s rows
      × ((new_projector_scanner base outs args).columns ≡ base.columns)
unfolding outputs new_projector_scanner
Yields-star base args format_float {rows = rows} y h = (
  copied_columns 0 base.columns,
  refl,
  rw (map_whole base.columns args rows) at (
      Yields-projected base (copied_columns 0 base.columns) args (λ e. e.row.values) y
        (copied-All base.columns args rows h)),
  names_of 0 base.columns,
)
