-- ===== src/Scan/Aggregate.antt =====
-- internal/aggregatescanner.go: `AggregateScanner`. How Go prints a value (`fmt.Sprint`) is a parameter. The
-- map `byKey` and the slice of groups are one association list, in the order in which the keys come.
pub mod Groups
use dblock.Prelude.{
  ℕ, zero, suc, ◌+◌, Bool, true, false, Option, none, some, List, [], ◌∷◌, ◌++◌, length, map,
  replicate, if◌then◌else◌, get_elem?,
}
use dblock.Prelude.Bytes.{bytes_eq}
use dblock.Prelude.Fault.{Error, Result, ok, err, missing_argument, empty_projection}
use dblock.Prelude.Outcome.{◌>>=◌}
use dblock.Prelude.Exec.{Exec, pure}
use dblock.Value.{Value, null, bool}
use dblock.Row.{Row}
use dblock.Accumulator.{Accumulator, new_accumulator, update, result}
use dblock.Expr.{
  FuncName, count_func, Expr, Exprs, no_more, one_more, star, column, func, eval_expr, at_index,
}
use dblock.Expr.Print.{expr_string}
use dblock.Expr.Compare.{Float64}
use dblock.Scan.{Entry, Scanner, Opened}
use dblock.Scan.Project.{ProjectedColumn, or_alias}
use dblock.Scan.Collect.{collect, rows_next}

pub record FuncCall : Type 0 where
  pub name : FuncName
  pub args : Exprs

pub record PassThrough : Type 0 where
  pub expr : Expr
  pub name : List ℕ

pub record FuncGroup : Type 0 where
  pub accumulators : List Accumulator
  pub pt_values : List Value

-- `outIsFunc[i]` and `outIdx[i]`
pub data Slot : Type 0 where
  from_func : ℕ → Slot
  from_pass : ℕ → Slot

pub record Plan : Type 0 where
  pub func_calls : List FuncCall
  pub pass_throughs : List PassThrough
  pub columns : List (List ℕ)
  pub slots : List Slot

module _ (format_float : ℕ → List ℕ) where
  pass_through : Plan → Expr → List ℕ → Plan
  pass_through p e name = record p {
    pass_throughs = p.pass_throughs ++ record { expr = e; name = name } ∷ [];
    columns = p.columns ++ name ∷ [];
    slots = p.slots ++ from_pass (length p.pass_throughs) ∷ [];
  }

  func_call : Plan → FuncCall → List ℕ → Plan
  func_call p f name = record p {
    func_calls = p.func_calls ++ f ∷ [];
    columns = p.columns ++ name ∷ [];
    slots = p.slots ++ from_func (length p.func_calls) ∷ [];
  }

  plan_item : Plan → ProjectedColumn → Option Expr → Plan
  unfolding pass_through func_call
  plan_item p item (some (func name args)) =
      func_call p (record { name = name; args = args })
        (or_alias item.alias (expr_string format_float (func name args)))
  plan_item p item (some e) = pass_through p e (or_alias item.alias (expr_string format_float e))
  plan_item p item none = pass_through p (column item.source) (or_alias item.alias item.source)

  plan_items : Plan → List ProjectedColumn → Plan
  unfolding plan_item
  plan_items p [] = p
  plan_items p (item ∷ items) = plan_items (plan_item p item item.expr) items

  -- What `NewAggregateScanner` makes of the projection.
  unfoldable pub aggregate_plan : List ProjectedColumn → Plan
  unfolding plan_items
  aggregate_plan items =
      plan_items (record { func_calls = []; pass_throughs = []; columns = []; slots = [] }) items

-- `strings.Join(parts, "\x00")`
abbrev pub join_parts : List (List ℕ) → List ℕ
join_parts [] = []
join_parts (p ∷ []) = p
join_parts (p ∷ q ∷ ps) = p ++ 0 ∷ join_parts (q ∷ ps)

module _ ⦃fl : Float64⦄ (sprint : Value → List ℕ) (base_columns : List (List ℕ))
    (args : List Value) where
  eval_all : List Expr → List Value → Result (List Value)
  eval_all [] values = ok []
  eval_all (e ∷ es) values = do
    v ← eval_expr base_columns values args e
    vs ← eval_all es values
    ok (v ∷ vs)

  unfoldable pub group_key : List Expr → Row → Result (List ℕ)
  unfolding eval_all
  group_key exprs row = do values ← eval_all exprs row.values; ok (join_parts (map sprint values))

  -- The value that an accumulator is given: `true` for each row in `COUNT(*)` and `COUNT()`.
  argument : FuncName → Exprs → List Value → Result Value
  argument count_func no_more values = ok (bool true)
  argument count_func (one_more star es) values = ok (bool true)
  argument name no_more values = err missing_argument
  argument name (one_more e es) values = eval_expr base_columns values args e

  unfoldable pub func_arguments : List FuncCall → List Value → Result (List Value)
  unfolding argument
  func_arguments [] values = ok []
  func_arguments (f ∷ fs) values = do
    v ← argument f.name f.args values
    vs ← func_arguments fs values
    ok (v ∷ vs)

  abbrev pub update_each : List Accumulator → List Value → List Accumulator
  update_each [] vs = []
  update_each (a ∷ accs) [] = a ∷ accs
  update_each (a ∷ accs) (v ∷ vs) = (update a v).0 ∷ update_each accs vs

  unfoldable pub accumulate : List FuncCall → FuncGroup → Row → Result FuncGroup
  accumulate funcs g row = do
    values ← func_arguments funcs row.values
    ok (record g { accumulators = update_each g.accumulators values })

  abbrev pub no_values : List FuncCall → List Accumulator
  no_values funcs = map (λ (f : FuncCall). new_accumulator f.name) funcs

  unfoldable pub new_group : Plan → Row → Result FuncGroup
  unfolding eval_all
  new_group p row = do
    values ← eval_all (map (λ (pt : PassThrough). pt.expr) p.pass_throughs) row.values
    ok (record { accumulators = no_values p.func_calls; pt_values = values })

  -- A row goes to the group of its key, which is made where it is missing.
  unfoldable pub put_row :
      Plan → List ℕ → Row → List (List ℕ × FuncGroup) → Result (List (List ℕ × FuncGroup))
  put_row p key row [] = do
    g ← new_group p row
    fed ← accumulate p.func_calls g row
    ok ((key, fed) ∷ [])
  put_row p key row ((k, g) ∷ groups) =
      if bytes_eq k key
      then (do fed ← accumulate p.func_calls g row; ok ((k, fed) ∷ groups))
      else (do rest ← put_row p key row groups; ok ((k, g) ∷ rest))

  unfoldable pub buffer_rows :
      Plan → List Expr → List Entry → List (List ℕ × FuncGroup) → Result (List (List ℕ × FuncGroup))
  buffer_rows p exprs [] groups = ok groups
  buffer_rows p exprs (e ∷ es) groups = do
    key ← group_key exprs e.row
    more ← put_row p key e.row groups
    buffer_rows p exprs es more

  -- Without GROUP BY, no rows are one group.
  unfoldable pub or_one_group :
      Plan → List Expr → List (List ℕ × FuncGroup) → List (List ℕ × FuncGroup)
  or_one_group p [] [] =
      (
        [],
        record {
          accumulators = no_values p.func_calls;
          pt_values = replicate (length p.pass_throughs) null;
        },
      )
      ∷ []
  or_one_group p exprs groups = groups

  slot_value : FuncGroup → Slot → Result Value
  slot_value g (from_func i) = do a ← at_index g.accumulators i; ok (result a)
  slot_value g (from_pass i) = at_index g.pt_values i

  unfoldable pub build_row : FuncGroup → List Slot → Result (List Value)
  unfolding slot_value
  build_row g [] = ok []
  build_row g (slot ∷ slots) = do v ← slot_value g slot; vs ← build_row g slots; ok (v ∷ vs)

  -- `Next`: a panic of `buildRow` is an index out of range.
  aggregate_row : List Slot → ℕ → FuncGroup → Result (Option Entry) × ℕ
  aggregate_row slots i g = (
    build_row g slots >>= λ values.
        ok (some (record { key = []; row = record { values = values } })),
    i + 1,
  )

  unfoldable pub aggregate_next : List Slot → List (List ℕ × FuncGroup) → Exec ℕ (Option Entry)
  unfolding aggregate_row
  aggregate_next slots groups i = elim (get_elem? groups i) [
    | none ↦ (ok none, i)
    | some (key, g) ↦ aggregate_row slots i g
  ]

  check_plan : List Slot → Result (Unit {0})
  check_plan [] = err empty_projection
  check_plan slots = ok tt

module _ ⦃fl : Float64⦄ (sprint : Value → List ℕ) (format_float : ℕ → List ℕ) where
  unfoldable pub new_aggregate_scanner :
      ℕ → Opened → List ProjectedColumn → List Expr → List Value → Result Opened
  unfolding check_plan
  new_aggregate_scanner fuel base projection exprs args = do
    let columns = base.scanner.columns
    let p = aggregate_plan format_float projection
    _ ← check_plan sprint columns args p.slots
    rows ← (collect base.scanner fuel [] base.state).0
    groups ← buffer_rows sprint columns args p exprs rows []
    ok (record {
      State = ℕ;
      scanner = record {
        columns = p.columns;
        next =
            aggregate_next sprint columns args p.slots
              (or_one_group sprint columns args p exprs groups);
      };
      state = 0;
    })
