-- ===== src/Examples/Joins.antt =====
-- A join and a grouping, on small tables.
use dblock.Prelude.{ℕ, ◌≡◌, refl, Bool, true, false, none, some, List, [], ◌∷◌, arith, map, All}
use dblock.Prelude.Int.{ℤ, pos, eq_ℤ}
use dblock.Prelude.Bytes.{bytes_eq}
use dblock.Prelude.Fault.{ok}
use dblock.Value.{Value, integer, bool}
use dblock.Row.{Row}
use dblock.Expr.{
  Expr, column, binary, equal, count_func, star, no_more, one_more, eval_binary, eval_expr,
  find_column, at_index, apply_operator, eval_comparison, compared, to_float, comparison,
}
use dblock.Scan.{Entry, Opened, Yields}
use dblock.Scan.Collect.{rows_next, Yields-rows}
use dblock.Scan.Join.{
  Join, JoinStmt, left_join, join_plan, new_join_scanner, emitted, on_value, on_boolean,
  combine_rows, qualified,
}
use dblock.Scan.Join.Nested.{join_entries}
use dblock.Scan.Join.Inner.{Decides}
use dblock.Scan.Join.Joined.{row_of, Yields-new_join}
use dblock.Scan.Aggregate.{Plan, from_func, buffer_rows, group_key, func_arguments, new_group}
use dblock.Scan.Aggregate.Groups.{
  Groups, group_of, group_keys, first_seen, after_rows, with_this_key, HasValues,
  group_of-buffer_rows,
}
use dblock.Examples.Floats.{whole_floats}

abbrev number_row : ℤ → Entry
number_row n = record { key = []; row = record { values = integer n ∷ [] } }

abbrev single : List ℕ → List Entry → Opened
single name entries = record {
  State = ℕ;
  scanner = record { columns = name ∷ []; next = rows_next entries };
  state = 0;
}

abbrev left_rows : List Entry
left_rows = number_row (pos 1) ∷ number_row (pos 2) ∷ []

abbrev right_rows : List Entry
right_rows = number_row (pos 2) ∷ number_row (pos 3) ∷ []

abbrev left_side : Opened
left_side = single (b'a' ∷ []) left_rows

abbrev right_side : Opened
right_side = single (b'b' ∷ []) right_rows

abbrev on_equal : Expr
on_equal = binary (column (b't' ∷ b'.' ∷ b'a' ∷ [])) equal (column (b'u' ∷ b'.' ∷ b'b' ∷ []))

abbrev join_u : JoinStmt
join_u = record { table_name = b'u' ∷ []; on_expr = some on_equal; mode = left_join }

abbrev plan : Join
plan = join_plan left_side right_side (b't' ∷ []) (b'u' ∷ []) (true, false) on_equal []

abbrev first_number : List Value → ℤ
first_number (integer n ∷ vs) = n
first_number vs = pos 0

abbrev equal_numbers : Row → Row → Bool
equal_numbers l r = eq_ℤ (first_number l.values) (first_number r.values)

-- Rows of the four pairs.
pairs-Decides :
    All
      (λ (e : Entry).
        All
          (Decides plan equal_numbers left_side.scanner right_side.scanner e.row)
          (map row_of right_rows))
      left_rows
unfolding join_plan qualified on_value on_boolean combine_rows eval_expr eval_binary find_column
    at_index bytes_eq apply_operator eval_comparison compared to_float comparison
pairs-Decides = (
  (
    record { value = bool false; evaluated = refl; decided = refl },
    (record { value = bool false; evaluated = refl; decided = refl }, tt),
  ),
  (
    (
      record { value = bool true; evaluated = refl; decided = refl },
      (record { value = bool false; evaluated = refl; decided = refl }, tt),
    ),
    tt,
  ),
)

left_emits : emitted left_join ≡ ok (true, false)
unfolding emitted
left_emits = refl

Yields-new_join_example :
    (out : Opened) × (new_join_scanner 9 left_side right_side (b't' ∷ []) join_u [] ≡ ok out)
    × Yields out.scanner out.state
        (join_entries plan equal_numbers (map row_of right_rows) left_rows)
Yields-new_join_example =
    Yields-new_join 9 left_side right_side (b't' ∷ []) join_u [] (true, false) on_equal
      equal_numbers left_emits refl (Yields-rows ((b'a' ∷ []) ∷ []) left_rows)
      (Yields-rows ((b'b' ∷ []) ∷ []) right_rows) pairs-Decides (omega arith) (omega arith)

-- COUNT(*) by `a`; how a value is printed is the list of its bytes, which here is its number.
abbrev printed : Value → List ℕ
printed (integer (pos n)) = n ∷ []
printed v = []

abbrev counting : Plan
counting = record {
  func_calls = record { name = count_func; args = one_more star no_more } ∷ [];
  pass_throughs = [];
  columns = (b'n' ∷ []) ∷ [];
  slots = from_func 0 ∷ [];
}

abbrev counted_rows : List Entry
counted_rows = number_row (pos 2) ∷ number_row (pos 1) ∷ number_row (pos 2) ∷ []

abbrev key_of : Entry → List ℕ
key_of e = printed (integer (first_number e.row.values))

abbrev by_a : List Expr
by_a = column (b'a' ∷ []) ∷ []

abbrev a_columns : List (List ℕ)
a_columns = (b'a' ∷ []) ∷ []

rows_have_values :
    All
      (HasValues printed a_columns [] counting key_of (λ e. bool true ∷ []) (λ e. []) by_a)
      counted_rows
unfolding group_key func_arguments new_group eval_expr find_column at_index bytes_eq
rows_have_values = (
  record { keyed = refl; given = refl; made = refl },
  (
    record { keyed = refl; given = refl; made = refl },
    (record { keyed = refl; given = refl; made = refl }, tt),
  ),
)

group_of-buffer_rows_example :
    (out : Groups) × (buffer_rows printed a_columns [] counting by_a counted_rows [] ≡ ok out)
    × (group_keys out ≡ first_seen [] (map key_of counted_rows))
    × ((k : List ℕ)
        → group_of k out
          ≡ after_rows printed a_columns [] counting key_of
              (λ e. bool true ∷ [])
              (λ e. [])
              none
              (with_this_key printed a_columns [] counting key_of
                (λ e. bool true ∷ [])
                (λ e. [])
                k
                counted_rows))
group_of-buffer_rows_example =
    group_of-buffer_rows printed a_columns [] counting key_of (λ e. bool true ∷ []) (λ e. []) by_a
      counted_rows rows_have_values
