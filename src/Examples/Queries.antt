-- ===== src/Examples/Queries.antt =====
-- Expressions, aggregates and scanners, on small tables.
use dblock.Prelude.{
  ℕ, ◌≡◌, ◌≢◌, refl, Bool, true, false, some, List, [], ◌∷◌, arith, map, filter, All,
}
use dblock.Prelude.Int.{ℤ, pos, negsuc, ltb_ℤ}
use dblock.Prelude.Bytes.{bytes_eq}
use dblock.Prelude.Fault.{ok, panic, out_of_fuel}
use dblock.Value.{Value, null, integer, text, bool}
use dblock.Expr.{
  Expr, column, int_literal, binary, multiply, divide, less_than, greater_than, greater_than_or_eq,
  count_func, sum_func, eval_binary, eval_expr, find_column, at_index, apply_operator,
  eval_comparison, compared, to_float, comparison,
}
use dblock.Expr.Arithmetic.{eval_binary-exact}
use dblock.Expr.Complement.{less, negated_result, eval_binary-Complement}
use dblock.Expr.Fine.{eval_expr-ne-panic}
use dblock.Accumulator.{new_accumulator, update_all, result}
use dblock.Accumulator.Totals.{result-count, result-sum}
use dblock.Accumulator.Extrema.{extremum_func, Occurs, InFront, result-min_max}
use dblock.Scan.{Entry, Opened, Yields}
use dblock.Scan.Collect.{rows_next, Yields-rows}
use dblock.Scan.Filter.{new_filter_scanner, Yields-filtered}
use dblock.Scan.Filter.{where_value}
use dblock.Scan.Project.{
  Output, copied, outputs, output_values, output_value, copied_columns, new_projector_scanner,
}
use dblock.Scan.Star.{with_values, Yields-star}
use dblock.Scan.Sorting.{IsSorted, of_rank}
use dblock.Scan.Order.{OrderStmt, new_order_scanner, Yields-ordered}
use dblock.Scan.Order.Integers.{place, HasInteger, integers-Agree, Yields-ordered_integers}
use dblock.Engine.Query.{SelectStmt, query_select, has_aggregates, any_call}
use dblock.Engine.Query.Rows.{query_select-rows}
use dblock.Examples.Floats.{whole_floats}

eval_binary-exact_example :
    eval_binary multiply (integer (negsuc 6)) (integer (pos 6)) ≡ ok (integer (negsuc 41))
eval_binary-exact_example =
    eval_binary-exact multiply (negsuc 6) (pos 6) (negsuc 41) refl (omega arith)

eval_binary-Complement_example :
    eval_binary greater_than_or_eq (integer (pos 2)) (text (97 ∷ []))
    ≡ negated_result (eval_binary less_than (integer (pos 2)) (text (97 ∷ [])))
eval_binary-Complement_example = eval_binary-Complement less (integer (pos 2)) (text (97 ∷ []))

abbrev a_column : List ℕ
a_column = b'a' ∷ []

abbrev a_by_zero : Expr
a_by_zero = binary (column a_column) divide (int_literal (pos 0))

eval_expr-ne-panic_example :
    (eval_expr (a_column ∷ []) (integer (pos 4) ∷ []) [] a_by_zero ≢ panic)
    × (eval_expr (a_column ∷ []) (integer (pos 4) ∷ []) [] a_by_zero ≢ out_of_fuel)
eval_expr-ne-panic_example =
    eval_expr-ne-panic (a_column ∷ []) (integer (pos 4) ∷ []) [] a_by_zero (omega arith) refl

abbrev some_values : List Value
some_values = integer (pos 3) ∷ null ∷ integer (negsuc 4) ∷ text [] ∷ []

result-count_example :
    result (update_all (new_accumulator count_func) some_values) ≡ integer (pos 3)
result-count_example = result-count some_values (omega arith)

result-sum_example : result (update_all (new_accumulator sum_func) some_values) ≡ integer (negsuc 1)
result-sum_example = result-sum some_values (omega arith, (tt, (omega arith, (tt, tt))))

-- A table of one column with its rows.
abbrev row_entry : ℤ → Entry
row_entry n = record { key = []; row = record { values = integer n ∷ [] } }

abbrev numbers : List Entry
numbers = row_entry (pos 3) ∷ row_entry (pos 1) ∷ row_entry (pos 2) ∷ []

abbrev table_of : List (List ℕ) → List Entry → Opened
table_of columns entries = record {
  State = ℕ;
  scanner = record { columns = columns; next = rows_next entries };
  state = 0;
}

abbrev a_table : Opened
a_table = table_of (a_column ∷ []) numbers

abbrev number_in : List Value → ℤ
number_in (integer n ∷ vs) = n
number_in vs = pos 0

abbrev number_of : Entry → ℤ
number_of e = number_in e.row.values

abbrev above_one : Expr
above_one = binary (column a_column) greater_than (int_literal (pos 1))

abbrev is_above_one : Entry → Bool
is_above_one e = ltb_ℤ (pos 1) (number_of e)

above_one_decided :
    All
      (λ (e : Entry). where_value a_table.scanner above_one [] e ≡ ok (bool (is_above_one e)))
      numbers
unfolding eval_expr eval_binary find_column at_index bytes_eq apply_operator eval_comparison
    compared to_float comparison
above_one_decided = (refl, (refl, (refl, tt)))

a_table_Yields : Yields a_table.scanner a_table.state numbers
a_table_Yields = Yields-rows (a_column ∷ []) numbers

Yields-filtered_example :
    Yields
      (new_filter_scanner a_table.scanner above_one [] 9)
      0
      (row_entry (pos 3) ∷ row_entry (pos 2) ∷ [])
Yields-filtered_example =
    Yields-filtered a_table.scanner above_one [] is_above_one 9 a_table_Yields above_one_decided
      (omega arith)

Yields-star_example :
    (outs : List Output) × (outputs (λ x. []) (a_column ∷ []) [] ≡ ok outs)
    × Yields (new_projector_scanner a_table.scanner outs []) 0 numbers
    × ((new_projector_scanner a_table.scanner outs []).columns ≡ a_column ∷ [])
Yields-star_example =
    Yields-star a_table.scanner [] (λ x. []) a_table_Yields
      (omega arith, (omega arith, (omega arith, tt)))

abbrev by_a : Bool → OrderStmt
by_a desc = record { expr = column a_column; is_desc = desc }

abbrev rank_of : Bool → Entry → ℕ
rank_of desc e = place desc (number_of e)

numbers-HasInteger :
    (desc : Bool) → All (HasInteger (a_column ∷ []) [] (by_a desc) number_of) numbers
unfolding eval_expr find_column at_index bytes_eq
numbers-HasInteger desc = ((refl, omega arith), ((refl, omega arith), ((refl, omega arith), tt)))

Yields-ordered_example :
    (out : Opened) × (sorted : List Entry) × (new_order_scanner 9 a_table (by_a true ∷ []) []
      ≡ ok out)
    × Yields out.scanner out.state sorted
    × IsSorted (rank_of true) sorted
    × ((r : ℕ) → of_rank (rank_of true) r sorted ≡ of_rank (rank_of true) r numbers)
Yields-ordered_example =
    Yields-ordered 9 a_table (by_a true ∷ []) [] (rank_of true)
      (HasInteger (a_column ∷ []) [] (by_a true) number_of)
      (integers-Agree (a_column ∷ []) [] (by_a true) number_of) (numbers-HasInteger true)
      a_table_Yields (omega arith)

Yields-ordered_integers_example :
    (out : Opened) × (sorted : List Entry) × (new_order_scanner 9 a_table (by_a false ∷ []) []
      ≡ ok out)
    × Yields out.scanner out.state sorted
    × IsSorted (rank_of false) sorted
    × ((r : ℕ) → of_rank (rank_of false) r sorted ≡ of_rank (rank_of false) r numbers)
Yields-ordered_integers_example =
    Yields-ordered_integers 9 a_table (by_a false) [] number_of (numbers-HasInteger false)
      a_table_Yields (omega arith)

-- SELECT a FROM t WHERE a > 1 ORDER BY a
abbrev sorted_numbers : SelectStmt
sorted_numbers = record {
  table_name = b't' ∷ [];
  projection = [];
  joins = [];
  orders = some (by_a false ∷ []);
  where_expr = some above_one;
  group_by = [];
}

abbrev a_output : List Output
a_output = record { source = copied 0; name = a_column } ∷ []

-- A row of one integer.
abbrev IsNumber : Entry → Type 0
IsNumber e =
    HasInteger (a_column ∷ []) [] (by_a false) number_of e
    × (output_values (a_column ∷ []) e.row.values [] a_output ≡ ok e.row.values)

numbers-IsNumber : All IsNumber numbers
unfolding eval_expr find_column at_index bytes_eq output_values output_value
numbers-IsNumber =
    (((refl, omega arith), refl), (((refl, omega arith), refl), (((refl, omega arith), refl), tt)))

one_output : outputs (λ x. []) (a_column ∷ []) [] ≡ ok a_output
unfolding outputs copied_columns
one_output = refl

no_aggregates : has_aggregates [] [] ≡ false
unfolding has_aggregates any_call
no_aggregates = refl

query_select-rows_example :
    (result : Opened) × (sorted : List Entry) × (query_select
        (λ v. [])
        (λ x. [])
        (λ name. ok a_table)
        9
        sorted_numbers
        []
      ≡ ok result)
    × Yields result.scanner result.state (map (λ (e : Entry). with_values e e.row.values) sorted)
    × IsSorted (rank_of false) sorted
    × ((r : ℕ)
        → of_rank (rank_of false) r sorted
          ≡ of_rank (rank_of false) r (filter is_above_one numbers))
query_select-rows_example =
    query_select-rows (λ v. []) (λ x. []) (λ name. ok a_table) 9 sorted_numbers [] a_table above_one
      (by_a false ∷ []) a_output is_above_one (rank_of false) (λ e. e.row.values) IsNumber refl refl
      refl no_aggregates refl one_output above_one_decided
      (λ x y h k. integers-Agree (a_column ∷ []) [] (by_a false) number_of x y h.0 k.0)
      numbers-IsNumber (λ e h. h.1) a_table_Yields (omega arith)

result-min_max_example :
    (m : ℤ) × (result (
        update_all
          (new_accumulator (extremum_func true))
          (integer (pos 3) ∷ null ∷ integer (negsuc 4) ∷ []))
      ≡ integer m)
    × Occurs m (integer (pos 3) ∷ null ∷ integer (negsuc 4) ∷ [])
    × All (InFront true m) (integer (pos 3) ∷ null ∷ integer (negsuc 4) ∷ [])
result-min_max_example =
    result-min_max true (integer (pos 3) ∷ null ∷ integer (negsuc 4) ∷ [])
      (omega arith, (tt, (omega arith, tt))) (omega arith)
