-- ===== src/Scan/Join/Joined.antt =====
-- internal/joinscanner.go: a join from its start, and the loading of the right side.
use dblock.Prelude.{
  ℕ, zero, suc, ◌<◌, ◌≡◌, refl, ap, sym, ◌∙◌, Bool, true, false, ◌||◌, none, some, List, [], ◌∷◌,
  ◌++◌, map, length, replicate, All, any, arith, append_assoc, append-nil,
}
use mathlib.Core.Path.{subst, fun_ext}
use dblock.Prelude.Fault.{ok}
use dblock.Prelude.Exec.{get, modify, continue, ◌>>=◌}
use dblock.Row.{Row}
use dblock.Value.{Value}
use dblock.Expr.{Expr}
use dblock.Expr.Compare.{Float64}
use dblock.Scan.{Entry, Scanner, Opened, Yields, done, more, Yields-start}
use dblock.Scan.Join.{
  Join, JoinState, JoinStmt, join_next, join_loop, load_right_rows, load_loop, load_more,
  new_join_scanner, opened_join, with_on, emitted, join_plan,
}
use dblock.Scan.Join.Nested.{left_entries, unmatched_entries, join_entries, join_from, flat_map}
use dblock.Scan.Join.Inner.{Decides}
use dblock.Scan.Join.Unmatched.{at, joiner, next_loaded}
use dblock.Scan.Join.Marks.{length-mix}
use dblock.Scan.Join.Entries.{lefts}

abbrev pub row_of : Entry → Row
row_of e = e.row

map-false : (rows : List Row) → replicate (length rows) false ≡ map (λ r. false) rows
map-false [] = refl
map-false (r ∷ rows) = ap (λ bs. false ∷ bs) (map-false rows)

-- The state in which a join starts, with some of the right rows loaded.
abbrev start : {L R : Type 0} → L → R → List Row → JoinState L R
start l r rows = record {
  left = l;
  right = r;
  right_rows = rows;
  right_idx = 0;
  matched_right = [];
  right_unmatched = 0;
  current_left = record { key = []; row = record { values = [] } };
  left_matched = false;
  needs_new_left = true;
}

abbrev no_entry : Entry
no_entry = record { key = []; row = record { values = [] } }

module _ ⦃fl : Float64⦄ (j : Join) {L R : Type 0} (left : Scanner L) (right : Scanner R) where
  -- The right side is loaded whole, and is at its end.
  loading :
      (fuel : ℕ) (l : L) (r : R) (before : List Row) {entries : List Entry}
      → Yields right r entries
      → length entries < fuel
      → (u : R) × (right.next u ≡ (ok none, u))
        × (load_loop j left right fuel (start l r before) ≡ (
          ok tt,
          at u
              (before ++ map row_of entries)
              l
              0
              (map (λ x. false) (before ++ map row_of entries))
              0
              no_entry
              false
              true,
        ))
  unfolding load_loop load_more ◌>>=◌ modify
  loading zero l r before y h = absurd (omega arith)
  loading (suc fuel) l r before (done {t = t} e stop) h =
      (t, stop, rw (e, append-nil before, map-false before))
  loading (suc fuel) l r before (more {t = t} {e = x} {es = es} step y) h =
      let (u, stop, run) = loading fuel l t (before ++ x.row ∷ []) y (omega arith) in
      (u, stop, rw step (rw (append_assoc before (x.row ∷ []) (map row_of es)) at run))

or_assoc : (a b c : Bool) → ((a || b) || c) ≡ (a || (b || c))
or_assoc true b c = refl
or_assoc false b c = refl

or_false : (a : Bool) → (a || false) ≡ a
or_false true = refl
or_false false = refl

module _ (j : Join) (matches : Row → Row → Bool) (rows : List Row) where
  join_from_lem :
      (found : Row → Bool) (ls : List Entry)
      → join_from j matches rows found ls
        ≡ flat_map (left_entries j matches rows) ls
          ++ unmatched_entries j (λ r. found r || any (λ (l : Entry). matches l.row r) ls) rows
  join_from_lem found [] =
      ap (λ f. unmatched_entries j f rows) (fun_ext (λ (r : Row). sym (or_false (found r))))
  join_from_lem found (e ∷ es) =
      ap (λ rest. left_entries j matches rows e ++ rest)
        (join_from_lem (λ r. found r || matches e.row r) es
          ∙ ap (λ f. flat_map (left_entries j matches rows) es ++ unmatched_entries j f rows)
              (fun_ext (λ (r : Row).
                or_assoc (found r) (matches e.row r) (any (λ (l : Entry). matches l.row r) es))))
      ∙ sym (
          append_assoc (left_entries j matches rows e) (flat_map (left_entries j matches rows) es) (
            unmatched_entries j (λ r. found r || any (λ (l : Entry). matches l.row r) (e ∷ es))
              rows))

Yields-joined :
    ⦃fl : Float64⦄ (j : Join) (matches : Row → Row → Bool) {L R : Type 0} (left : Scanner L)
    (right : Scanner R) (fuel : ℕ) (l : L) (r : R) {ls rs : List Entry}
    → Yields left l ls
    → Yields right r rs
    → All (λ (e : Entry). All (Decides j matches left right e.row) (map row_of rs)) ls
    → length ls < fuel
    → length rs < fuel
    → Yields (joiner j left right fuel) (start l r []) (join_entries j matches (map row_of rs) ls)
unfolding join_next load_right_rows ◌>>=◌ get
Yields-joined j matches left right zero l r y z d h k = absurd (omega arith)
Yields-joined j matches left right (suc fuel) l r {ls = ls} {rs = rs} y z d h k =
    let (u, stop, run) = loading j left right (suc fuel) l r [] z k in
    let rows = map row_of rs in
    let joined =
      lefts j matches left right u stop rows fuel (λ x. false) l 0 no_entry false true y
        (omega arith) refl d in
    let begun =
      ap (λ p. continue p.0 (λ _. join_loop j left right (suc fuel)) p.1) run
      ∙ sym (
          next_loaded j left right fuel u stop rows (map (λ x. false) rows) l 0 0 no_entry false
            true (length-mix (λ x. false) (λ x. false) 0 rows)) in
    Yields-start _ begun (
      subst
        (Yields (joiner j left right (suc fuel))
          (at u rows l 0 (map (λ x. false) rows) 0 no_entry false true))
        (join_from_lem j matches rows (λ x. false) ls) joined)

-- Over sides that yield `ls` and `rs`, where the ON expression has a truth value or is NULL for every pair of
-- rows, a join yields for each left row its partners in order, or, in a mode that keeps it, the row padded
-- with NULL if it has none, and in the end, in a mode that keeps them, the right rows that no left row
-- matched.
pub Yields-new_join :
    ⦃fl : Float64⦄ (fuel : ℕ) (left right : Opened) (table : List ℕ) (join : JoinStmt)
    (args : List Value) (emits : Bool × Bool) (on : Expr) (matches : Row → Row → Bool)
    {ls rs : List Entry}
    → emitted join.mode ≡ ok emits
    → join.on_expr ≡ some on
    → Yields left.scanner left.state ls
    → Yields right.scanner right.state rs
    → All
        (λ (e : Entry).
          All
            (Decides
              (join_plan left right table join.table_name emits on args)
              matches
              left.scanner
              right.scanner
              e.row)
            (map row_of rs))
        ls
    → length ls < fuel
    → length rs < fuel
    → (out : Opened) × (new_join_scanner fuel left right table join args ≡ ok out)
      × Yields out.scanner out.state (
          join_entries
            (join_plan left right table join.table_name emits on args)
            matches
            (map row_of rs)
            ls)
unfolding new_join_scanner opened_join with_on
Yields-new_join fuel left right table join args emits on matches mode has y z d h k =
    let plan = join_plan left right table join.table_name emits on args in
    (
      opened_join fuel left right plan,
      rw (mode, has),
      Yields-joined plan matches left.scanner right.scanner fuel left.state right.state y z d h k,
    )
