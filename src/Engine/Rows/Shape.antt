-- ===== src/Engine/Rows/Shape.antt =====
-- internal/engine.go: the shape of the row that an INSERT writes.
use dblock.Prelude.{
  ℕ, suc, ◌+◌, ◌≡◌, ◌∙◌, true, List, [], ◌∷◌, ◌++◌, length, map, arith, length-append,
}
use dblock.Prelude.Fault.{Result, ok}
use dblock.Prelude.Outcome.{Gives, Gives-ok, Gives-bind}
use dblock.Value.{Value}
use dblock.Expr.{Expr}
use dblock.Expr.Compare.{Float64}
use dblock.Schema.{Column}
use dblock.Coerce.{Formats, coerce_value}
use dblock.Coerce.Stored.{Stored, coerce_value-Stored}
use dblock.Engine.Rows.{
  Item, bind_arguments, Pending, pending_items, fill_row, build_row_values, coerce_row,
  insert_values,
}

-- One value for each column, of the column's type.
abbrev pub IsRow : Formats → List Column → List Value → Type 0
IsRow fm [] [] = Unit {0}
IsRow fm (col ∷ columns) (v ∷ values) = Stored fm col.data_type v × IsRow fm columns values
IsRow fm _ _ = ⊥

module _ ⦃fl : Float64⦄ (resolve : List ℕ → Result Expr) (names : List (List ℕ))
    (pending : Pending) where
  length-fill_row :
      (columns : List Column) (filled : List Value)
      → Gives
          (λ row. length row ≡ length filled + length columns)
          (fill_row resolve names pending columns filled)
  unfolding fill_row
  length-fill_row [] filled = Gives-ok (λ row. length row ≡ length filled + 0) filled (omega arith)
  length-fill_row (col ∷ columns) filled =
      Gives-bind (λ row. length row ≡ length filled + suc (length columns)) _ _
        λ (v : Value) _. record {
          run = λ row e. omega (
            arith,
            (length-fill_row columns (filled ++ v ∷ [])).run row e,
            length-append filled (v ∷ []),
          );
        }

module _ ⦃fl : Float64⦄ (fm : Formats)
    (prints : (b : List ℕ) → fm.is_uuid (fm.uuid_text b) ≡ true) where
  coerce_row-IsRow :
      (columns : List Column) (values : List Value)
      → length values ≡ length columns
      → Gives (IsRow fm columns) (coerce_row fm columns values)
  unfolding coerce_row
  coerce_row-IsRow [] [] e = Gives-ok (IsRow fm []) [] tt
  coerce_row-IsRow [] (v ∷ values) e = absurd (omega arith)
  coerce_row-IsRow (col ∷ columns) [] e = absurd (omega arith)
  coerce_row-IsRow (col ∷ columns) (v ∷ values) e =
      Gives-bind (IsRow fm (col ∷ columns)) (coerce_value fm col v) _ λ w first.
        Gives-bind (IsRow fm (col ∷ columns)) (coerce_row fm columns values) _ λ ws rest.
          Gives-ok (IsRow fm (col ∷ columns)) (w ∷ ws) (
            (coerce_value-Stored fm prints col v w first).0,
            (coerce_row-IsRow columns values (omega arith)).run ws rest,
          )

  -- An INSERT that gets as far as writing writes one value for each column of the table, of the column's
  -- type, whichever columns it names and in whatever order, and whatever the arguments and the defaults are.
  pub insert_values-IsRow :
      (resolve : List ℕ → Result Expr) (columns : List Column) (named : List (List ℕ))
      (items : List Item) (args row : List Value)
      → insert_values fm resolve columns named items args ≡ ok row
      → IsRow fm columns row
  unfolding insert_values build_row_values
  insert_values-IsRow resolve columns named items args row h =
      let names = map (λ (c : Column). c.name) columns in
      let gives = Gives-bind (IsRow fm columns) (bind_arguments items args) _ λ bound _.
        Gives-bind (IsRow fm columns) (build_row_values resolve columns named bound) _
          λ values built. coerce_row-IsRow columns values (
            (Gives-bind (λ vs. length vs ≡ length columns) (pending_items columns named bound) _
                λ pending _. record {
                  run = λ vs e.
                      (length-fill_row resolve names pending columns []).run vs e ∙ omega arith;
                }).run
              values built) in
      gives.run row h
