-- ===== src/Scan/Join.antt =====
-- internal/joinscanner.go: `JoinScanner`, a nested loop with the right side in memory. Its loops over the
-- right side and over left rows without a partner take fuel.
pub mod Nested
pub mod Inner
mod Growth
mod Marks
mod Unmatched
pub mod Joined
pub mod Entries
use dblock.Prelude.{
  ℕ, zero, suc, ◌+◌, ◌-◌, Bool, true, false, not, ◌&&◌, ◌||◌, Option, none, some, List, [], ◌∷◌,
  ◌++◌, map, length, drop, replicate, leb, ◌==◌, get_elem?, if◌then◌else◌,
}
use dblock.Prelude.Fault.{
  Error, Result, ok, err, panic, out_of_fuel, not_a_boolean, unsupported_join,
  missing_on_expression,
}
use dblock.Prelude.Outcome
use dblock.Prelude.Exec.{Exec, pure, lift, get, modify, ◌>>=◌, ◌>>◌}
use dblock.Value.{Value, null, bool}
use dblock.Row.{Row}
use dblock.Expr.{Expr, eval_expr, at_index}
use dblock.Expr.Compare.{Float64}
use dblock.Scan.{Entry, Scanner, Opened}

pub data JoinMode : Type 0 where
  bare_join inner_join left_join left_outer_join right_join : JoinMode
  right_outer_join full_join full_outer_join cross_join : JoinMode

pub record JoinStmt : Type 0 where
  pub table_name : List ℕ
  pub on_expr : Option Expr
  pub mode : JoinMode

-- The fields that stay as they are.
pub record Join : Type 0 where
  pub columns : List (List ℕ)
  pub left_col_count : ℕ
  pub right_col_count : ℕ
  pub on_expr : Expr
  pub emit_left_unmatched : Bool
  pub emit_right_unmatched : Bool
  pub args : List Value

-- The fields that change. A right row is kept without its key.
pub record JoinState (L R : Type 0) : Type 0 where
  pub left : L
  pub right : R
  pub right_rows : List Row
  pub right_idx : ℕ
  pub matched_right : List Bool
  pub right_unmatched : ℕ
  pub current_left : Entry
  pub left_matched : Bool
  pub needs_new_left : Bool

unfoldable pub combine_rows : Row → Row → Row
combine_rows left right = record { values = left.values ++ right.values }

unfoldable pub null_pad_right : Row → ℕ → Row
null_pad_right left count = record { values = left.values ++ replicate count null }

unfoldable pub null_pad_left : ℕ → Row → Row
null_pad_left count right = record { values = replicate count null ++ right.values }

-- What the value of the ON expression says; NULL does not match.
unfoldable pub on_boolean : Value → Result Bool
on_boolean null = ok false
on_boolean (bool b) = ok b
on_boolean _ = err not_a_boolean

-- `matchedRight[i] = true`
unfoldable pub mark : ℕ → List Bool → Result (List Bool)
mark i [] = panic
mark zero (b ∷ bs) = ok (true ∷ bs)
mark (suc i) (b ∷ bs) = marked b (mark i bs)
  where
    marked : Bool → Result (List Bool) → Result (List Bool)
    marked b (ok bs) = ok (b ∷ bs)
    marked b r = r

module _ ⦃fl : Float64⦄ (j : Join) {L R : Type 0} (left : Scanner L) (right : Scanner R) where
  abbrev St : Type 0
  St = JoinState L R

  abbrev on_left : {A : Type 0} → Exec L A → Exec St A
  on_left m s = let (r, l) = m s.left in (r, record s { left = l })

  abbrev on_right : {A : Type 0} → Exec R A → Exec St A
  on_right m s = let (r, u) = m s.right in (r, record s { right = u })

  load_more : Exec St (Unit {0}) → Option Entry → Exec St (Unit {0})
  load_more rest none =
      modify (λ s. record s { matched_right = replicate (length s.right_rows) false })
  load_more rest (some e) = do
    modify (λ s. record s { right_rows = s.right_rows ++ e.row ∷ [] })
    rest

  load_loop : ℕ → Exec St (Unit {0})
  unfolding load_more
  load_loop zero = λ s. (out_of_fuel, s)
  load_loop (suc fuel) = do found ← on_right right.next; load_more (load_loop fuel) found

  -- Rows that are there are not loaded again.
  unfoldable pub load_right_rows : ℕ → Exec St (Unit {0})
  unfolding load_loop
  load_right_rows fuel = do s ← get; if length s.right_rows == 0 then load_loop fuel else pure tt

  unfoldable pub on_value : Row → Result Value
  on_value combined = eval_expr j.columns combined.values j.args j.on_expr

  -- A match at the right row before the index.
  match_found : Row → Exec St (Option Entry)
  match_found combined = do
    s ← get
    marks ← lift (mark (s.right_idx - 1) s.matched_right)
    modify (λ t. record t { matched_right = marks; left_matched = true })
    pure (some (record { key = s.current_left.key; row = combined }))

  -- The inner loop, over the right rows from the index on.
  pub match_rows : List Row → Exec St (Option Entry)
  unfolding match_found
  match_rows [] = pure none
  match_rows (r ∷ rs) = do
    s ← get
    modify (λ t. record t { right_idx = t.right_idx + 1 })
    val ← lift (on_value (combine_rows s.current_left.row r))
    matches ← lift (on_boolean val)
    let rest = match_rows rs
    if matches then match_found (combine_rows s.current_left.row r) else rest

  -- The loop over the right rows that no left row matched.
  emit_rows : List Row → Exec St (Option Entry)
  emit_rows [] = pure none
  emit_rows (r ∷ rs) = do
    s ← get
    modify (λ t. record t { right_unmatched = t.right_unmatched + 1 })
    matched ← lift (at_index s.matched_right s.right_unmatched)
    let rest = emit_rows rs
    if matched
        then rest
        else pure (some (record { key = []; row = null_pad_left j.left_col_count r }))

  unfoldable pub emit_unmatched_right : Exec St (Option Entry)
  unfolding emit_rows
  emit_unmatched_right =
      if j.emit_right_unmatched
      then (do s ← get; emit_rows (drop s.right_unmatched s.right_rows))
      else pure none

  after_rows : Exec St (Option Entry) → Option Entry → Exec St (Option Entry)
  after_rows again (some e) = pure (some e)
  after_rows again none = do
    s ← get
    if not s.left_matched && j.emit_left_unmatched
        then pure (
            some (record {
              key = s.current_left.key;
              row = null_pad_right s.current_left.row j.right_col_count;
            }))
        else (do modify (λ t. record t { needs_new_left = true }); again)

  match_current : Exec St (Option Entry) → Exec St (Option Entry)
  unfolding match_rows after_rows
  match_current again = do
    s ← get
    found ← match_rows (drop s.right_idx s.right_rows)
    after_rows again found

  new_left : Exec St (Option Entry) → Option Entry → Exec St (Option Entry)
  unfolding match_current
  new_left again none = emit_unmatched_right
  new_left again (some e) = do
    modify (λ t. record t {
      current_left = e;
      right_idx = 0;
      left_matched = false;
      needs_new_left = false;
    })
    match_current again

  unfoldable pub join_loop : ℕ → Exec St (Option Entry)
  unfolding new_left
  join_loop zero = λ s. (out_of_fuel, s)
  join_loop (suc fuel) = do
    s ← get
    if s.needs_new_left || leb (length s.right_rows) s.right_idx
        then (do found ← on_left left.next; new_left (join_loop fuel) found)
        else match_current (join_loop fuel)

  -- `JoinScanner.Next`
  unfoldable pub join_next : ℕ → Exec St (Option Entry)
  join_next fuel = do load_right_rows fuel; join_loop fuel

-- Which unmatched rows a mode keeps, of the left and of the right side.
unfoldable pub emitted : JoinMode → Result (Bool × Bool)
emitted left_join = ok (true, false)
emitted left_outer_join = ok (true, false)
emitted right_join = ok (false, true)
emitted right_outer_join = ok (false, true)
emitted full_join = ok (true, true)
emitted full_outer_join = ok (true, true)
emitted inner_join = ok (false, false)
emitted _ = err unsupported_join

-- `tableName + "." + col`
unfoldable pub qualified : List ℕ → List (List ℕ) → List (List ℕ)
qualified table columns = map (λ c. table ++ b'.' ∷ c) columns

-- The columns of the left side get the name of the statement's table, also where they have names of
-- earlier joins.
unfoldable pub join_plan :
    Opened → Opened → List ℕ → List ℕ → Bool × Bool → Expr → List Value → Join
join_plan left right left_name right_name (emit_left, emit_right) on args = record {
  columns = qualified left_name left.scanner.columns ++ qualified right_name right.scanner.columns;
  left_col_count = length left.scanner.columns;
  right_col_count = length right.scanner.columns;
  on_expr = on;
  emit_left_unmatched = emit_left;
  emit_right_unmatched = emit_right;
  args = args;
}

module _ ⦃fl : Float64⦄ (fuel : ℕ) (left right : Opened) where
  unfoldable pub opened_join : Join → Opened
  opened_join plan = record {
    State = JoinState left.State right.State;
    scanner = record {
      columns = plan.columns;
      next = join_next plan left.scanner right.scanner fuel;
    };
    state = record {
      left = left.state;
      right = right.state;
      right_rows = [];
      right_idx = 0;
      matched_right = [];
      right_unmatched = 0;
      current_left = record { key = []; row = record { values = [] } };
      left_matched = false;
      needs_new_left = true;
    };
  }

  with_on : List ℕ → List ℕ → Bool × Bool → Option Expr → List Value → Result Opened
  with_on left_name right_name emits none args = err missing_on_expression
  with_on left_name right_name emits (some on) args =
      ok (opened_join (join_plan left right left_name right_name emits on args))

  unfoldable pub new_join_scanner : List ℕ → JoinStmt → List Value → Result Opened
  unfolding with_on
  new_join_scanner table join args =
      Outcome.◌>>=◌ (emitted join.mode)
        λ emits. with_on table join.table_name emits join.on_expr args
