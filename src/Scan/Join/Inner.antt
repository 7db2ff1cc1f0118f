-- ===== src/Scan/Join/Inner.antt =====
-- internal/joinscanner.go: the inner loop, over the right rows of one left row.
use dblock.Prelude.{◌+◌, ◌-◌, ◌≡◌, Bool, true, false, some, List, ◌∷◌}
use dblock.Prelude.Fault.{ok}
use dblock.Prelude.Exec.{pure, lift, get, modify, ◌>>=◌}
use dblock.Value.{Value}
use dblock.Row.{Row}
use dblock.Expr.Compare.{Float64}
use dblock.Scan.{Scanner}
use dblock.Scan.Join.{
  Join, JoinState, combine_rows, on_boolean, mark, on_value, match_rows, match_found,
}

module _ ⦃fl : Float64⦄ (j : Join) (matches : Row → Row → Bool) {L R : Type 0} (left : Scanner L)
    (right : Scanner R) where
  -- The ON expression has a truth value for the two rows, or is NULL.
  pub record Decides (l r : Row) : Type 0 where
    pub value : Value
    pub evaluated : on_value j left right (combine_rows l r) ≡ ok value
    pub decided : on_boolean value ≡ ok (matches l r)

  module _ (s : JoinState L R) (l : Row) (current : s.current_left.row ≡ l) where
    -- A right row that does not match is passed over.
    pub match_rows-none :
        (r : Row) (rs : List Row)
        → Decides l r
        → matches l r ≡ false
        → match_rows j left right (r ∷ rs) s
          ≡ match_rows j left right rs (record s { right_idx = s.right_idx + 1 })
    unfolding match_rows ◌>>=◌ get modify lift
    match_rows-none r rs d fails = rw (current, d.evaluated, d.decided, fails)

    -- A right row that matches is given, and marked.
    pub match_rows-some :
        (r : Row) (rs : List Row) (marks : List Bool)
        → Decides l r
        → matches l r ≡ true
        → mark (s.right_idx + 1 - 1) s.matched_right ≡ ok marks
        → match_rows j left right (r ∷ rs) s ≡ (
          ok (some (record { key = s.current_left.key; row = combine_rows l r })),
          record s { right_idx = s.right_idx + 1; matched_right = marks; left_matched = true },
        )
    unfolding match_rows match_found ◌>>=◌ get modify lift pure
    match_rows-some r rs marks d holds marked = rw (current, d.evaluated, d.decided, holds, marked)
