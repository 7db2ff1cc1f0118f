-- ===== src/Scan/Project.antt =====
-- internal/projectorscanner.go: `ProjectorScanner`. The parallel slices of its output columns are one list.
use dblock.Prelude.{ℕ, ◌+◌, Option, none, some, List, [], ◌∷◌, map}
use dblock.Prelude.Fault.{Result, ok, err, no_such_column}
use dblock.Prelude.Outcome.{◌>>=◌}
use dblock.Prelude.Exec
use dblock.Prelude.Exec.{Exec, pure, lift, >>=-ok}
use dblock.Value.{Value}
use dblock.Expr.{Expr, eval_expr, find_column, at_index}
use dblock.Expr.Print.{expr_string}
use dblock.Expr.Compare.{Float64}
use dblock.Scan.{Entry, Scanner}

-- An item of the projection: a column by its name or an expression, with the empty alias for none.
pub record ProjectedColumn : Type 0 where
  pub source : List ℕ
  pub alias : List ℕ
  pub expr : Option Expr

-- An output column: `exprs[i]`, or `columnIdx[i]` where that is nil; and `outColumns[i]`.
pub data Source : Type 0 where
  calculated : Expr → Source
  copied : ℕ → Source

pub record Output : Type 0 where
  pub source : Source
  pub name : List ℕ

abbrev pub or_alias : List ℕ → List ℕ → List ℕ
or_alias [] name = name
or_alias alias name = alias

-- Without a projection, each column is copied.
unfoldable pub copied_columns : ℕ → List (List ℕ) → List Output
copied_columns i [] = []
copied_columns i (c ∷ cs) = record { source = copied i; name = c } ∷ copied_columns (i + 1) cs

module _ (format_float : ℕ → List ℕ) (columns : List (List ℕ)) where
  output_column : ProjectedColumn → Option Expr → Result Output
  output_column item (some e) =
      ok (record { source = calculated e; name = or_alias item.alias (expr_string format_float e) })
  output_column item none = elim (find_column columns item.source) [
    | none ↦ err no_such_column
    | some i ↦ ok (record { source = copied i; name = or_alias item.alias item.source })
  ]

  output_columns : List ProjectedColumn → Result (List Output)
  unfolding output_column
  output_columns [] = ok []
  output_columns (item ∷ items) = do
    o ← output_column item item.expr
    os ← output_columns items
    ok (o ∷ os)

  -- The columns that `NewProjectorScanner` works out.
  unfoldable pub outputs : List ProjectedColumn → Result (List Output)
  unfolding output_columns
  outputs [] = ok (copied_columns 0 columns)
  outputs items = output_columns items

module _ ⦃fl : Float64⦄ where
  unfoldable pub output_value : List (List ℕ) → List Value → List Value → Source → Result Value
  output_value columns values args (calculated e) = eval_expr columns values args e
  output_value columns values args (copied i) = at_index values i

  unfoldable pub output_values :
      List (List ℕ) → List Value → List Value → List Output → Result (List Value)
  output_values columns values args [] = ok []
  output_values columns values args (o ∷ os) = do
    v ← output_value columns values args o.source
    vs ← output_values columns values args os
    ok (v ∷ vs)

module _ ⦃fl : Float64⦄ {S : Type 0} (base : Scanner S) (outs : List Output)
    (args : List Value) where
  projected_entry : Option Entry → Exec S (Option Entry)
  projected_entry none = pure none
  projected_entry (some e) =
      Exec.◌>>=◌ (lift (output_values base.columns e.row.values args outs))
        λ values. pure (some (record { key = e.key; row = record { values = values } }))

  unfoldable pub new_projector_scanner : Scanner S
  unfolding projected_entry
  new_projector_scanner = record {
    columns = map (λ (o : Output). o.name) outs;
    next = Exec.◌>>=◌ base.next projected_entry;
  }
