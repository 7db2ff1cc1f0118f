-- ===== src/Scan/Join/Unmatched.antt =====
-- internal/joinscanner.go: the right rows that are left over.
use dblock.Prelude.{
  ℕ, suc, ◌+◌, ◌≡◌, refl, ap, sym, ◌∙◌, Bool, true, false, not, ◌||◌, none, List, [], ◌∷◌, map,
  length, drop, leb, ◌==◌, if◌then◌else◌, filter, arith, Bool-cases, inl, inr,
}
use mathlib.Core.Path.{subst}
use dblock.Prelude.Fault.{ok}
use dblock.Prelude.Exec.{pure, lift, get, modify, ◌>>=◌, >>=-ok}
use dblock.Row.{Row}
use dblock.Expr.Compare.{Float64}
use dblock.Scan.{Entry, Scanner, Yields, done, more}
use dblock.Scan.Join.{
  Join, JoinState, emit_unmatched_right, emit_rows, new_left, join_loop, join_next, load_right_rows,
  load_loop, load_more,
}
use dblock.Scan.Join.Nested.{padded_entry, unmatched_entries}
use dblock.Scan.Join.Marks.{drop-next, length-mix, at_index-map}

module _ {L R : Type 0} (u : R) where
  -- The states with the right side loaded.
  abbrev pub at : List Row → L → ℕ → List Bool → ℕ → Entry → Bool → Bool → JoinState L R
  at rows l idx marks un current matched fresh = record {
    left = l;
    right = u;
    right_rows = rows;
    right_idx = idx;
    matched_right = marks;
    right_unmatched = un;
    current_left = current;
    left_matched = matched;
    needs_new_left = fresh;
  }

module _ ⦃fl : Float64⦄ (j : Join) {L R : Type 0} (left : Scanner L) (right : Scanner R) where
  abbrev pub joiner : ℕ → Scanner (JoinState L R)
  joiner n = record { columns = j.columns; next = join_next j left right n }

module _ ⦃fl : Float64⦄ (j : Join) {L R : Type 0} (left : Scanner L) (right : Scanner R) (fuel : ℕ)
    (u : R) (exhausted : right.next u ≡ (ok none, u)) where
  loaded :
      (rows : List Row) (marks : List Bool) (l : L) (idx un : ℕ) (current : Entry)
      (matched fresh : Bool)
      → length marks ≡ length rows
      → load_right_rows j left right (suc fuel) (at u rows l idx marks un current matched fresh)
        ≡ (ok tt, at u rows l idx marks un current matched fresh)
  unfolding load_right_rows load_loop load_more ◌>>=◌ get modify pure
  loaded [] [] l idx un current matched fresh h = rw exhausted
  loaded [] (m ∷ marks) l idx un current matched fresh h = absurd (omega arith)
  loaded (r ∷ rows) marks l idx un current matched fresh h =
      let some_there : (suc (length rows) == 0) ≡ false = ground arith in rw some_there

  -- With the right side loaded, only the loop over the left rows runs.
  pub next_loaded :
      (rows : List Row) (marks : List Bool) (l : L) (idx un : ℕ) (current : Entry)
      (matched fresh : Bool)
      → length marks ≡ length rows
      → join_next j left right (suc fuel) (at u rows l idx marks un current matched fresh)
        ≡ join_loop j left right (suc fuel) (at u rows l idx marks un current matched fresh)
  unfolding join_next
  next_loaded rows marks l idx un current matched fresh h =
      >>=-ok (load_right_rows j left right (suc fuel)) _ _
        (loaded rows marks l idx un current matched fresh h)

  -- The left side is at its end.
  module _ (f : Row → Bool) (rows : List Row) (t : L) (idx : ℕ) (current : Entry)
      (matched fresh : Bool) (ended : left.next t ≡ (ok none, t))
      (new : (fresh || leb (length rows) idx) ≡ true) where
    loop_ended :
        (l : L) (un : ℕ)
        → left.next l ≡ (ok none, t)
        → join_loop j left right (suc fuel) (at u rows l idx (map f rows) un current matched fresh)
          ≡ emit_unmatched_right j left right
              (at u rows t idx (map f rows) un current matched fresh)
    unfolding join_loop new_left ◌>>=◌ get
    loop_ended l un e = rw (new, e)

    next_ended :
        (l : L) (un : ℕ)
        → left.next l ≡ (ok none, t)
        → join_next j left right (suc fuel) (at u rows l idx (map f rows) un current matched fresh)
          ≡ emit_unmatched_right j left right
              (at u rows t idx (map f rows) un current matched fresh)
    next_ended l un e =
        next_loaded rows (map f rows) l idx un current matched fresh (length-mix f f 0 rows)
        ∙ loop_ended l un e

    emit_on :
        j.emit_right_unmatched ≡ true
        → (s : JoinState L R)
        → emit_unmatched_right j left right s
          ≡ emit_rows j left right (drop s.right_unmatched s.right_rows) s
    unfolding emit_unmatched_right ◌>>=◌ get
    emit_on on s =
        ap
          (λ b.
            (if b
                then (get >>= λ (t : JoinState L R).
                    emit_rows j left right (drop t.right_unmatched t.right_rows))
                else pure none)
              s)
          on

    emit_off :
        j.emit_right_unmatched ≡ false
        → (s : JoinState L R) → emit_unmatched_right j left right s ≡ (ok none, s)
    unfolding emit_unmatched_right ◌>>=◌ get pure
    emit_off off s =
        ap
          (λ b.
            (if b
                then (get >>= λ (t : JoinState L R).
                    emit_rows j left right (drop t.right_unmatched t.right_rows))
                else pure none)
              s)
          off

    again_from :
        j.emit_right_unmatched ≡ true
        → (un : ℕ) (rest : List Row) → drop un rows ≡ rest
        → join_next j left right (suc fuel) (at u rows t idx (map f rows) un current matched fresh)
          ≡ emit_rows j left right rest (at u rows t idx (map f rows) un current matched fresh)
    again_from on un rest h =
        next_ended t un ended
        ∙ emit_on on (at u rows t idx (map f rows) un current matched fresh)
        ∙ ap
            (λ rs.
              emit_rows j left right rs (at u rows t idx (map f rows) un current matched fresh))
            h

    emitted_rows :
        j.emit_right_unmatched ≡ true
        → (un : ℕ) (rest : List Row) → drop un rows ≡ rest
        → (s : JoinState L R)
        → join_next j left right (suc fuel) s
          ≡ emit_rows j left right rest (at u rows t idx (map f rows) un current matched fresh)
        → Yields
            (joiner j left right (suc fuel))
            s
            (map (padded_entry j) (filter (λ r. not (f r)) rest))
    unfolding emit_rows ◌>>=◌ get modify lift pure
    emitted_rows on un [] h s e = done e (again_from on un [] h)
    emitted_rows on un (r ∷ rest) h s e =
        let step = drop-next un rows h in
        let mark = at_index-map f un rows h in
        elim (Bool-cases (f r)) [
          | inl found ↦ rw found (emitted_rows on (un + 1) rest step s (e ∙ rw (mark, found)))
          | inr lost ↦ rw lost (
              more (e ∙ rw (mark, lost)) (
                emitted_rows on (un + 1) rest step
                  (at u rows t idx (map f rows) (un + 1) current matched fresh)
                  (again_from on (un + 1) rest step)))
        ]

    -- All right rows without a partner.
    pub unmatched :
        (l : L)
        → left.next l ≡ (ok none, t)
        → Yields
            (joiner j left right (suc fuel))
            (at u rows l idx (map f rows) 0 current matched fresh)
            (unmatched_entries j f rows)
    unfolding emit_unmatched_right pure
    unmatched l e =
        let given = λ (b : Bool).
          Yields (joiner j left right (suc fuel))
            (at u rows l idx (map f rows) 0 current matched fresh)
            (if b then map (padded_entry j) (filter (λ r. not (f r)) rows) else []) in
        elim (Bool-cases j.emit_right_unmatched) [
          | inl on ↦ subst given (sym on) (
              emitted_rows on 0 rows refl _ (
                next_ended l 0 e
                ∙ emit_on on (at u rows t idx (map f rows) 0 current matched fresh)))
          | inr off ↦ subst given (sym off) (
              done
                (next_ended l 0 e
                  ∙ emit_off off (at u rows t idx (map f rows) 0 current matched fresh))
                (next_ended t 0 ended
                  ∙ emit_off off (at u rows t idx (map f rows) 0 current matched fresh)))
        ]
