-- ===== src/Scan/Join/Entries.antt =====
-- internal/joinscanner.go: the entries that the scanner gives are those of the nested loop.
use dblock.Prelude.{
  ℕ, zero, suc, ◌+◌, ◌≤◌, ◌≡◌, ◌≢◌, refl, ap, sym, ◌∙◌, Bool, true, false, ◌||◌, Option, none, some,
  List, [], ◌∷◌, ◌++◌, map, length, drop, leb, if◌then◌else◌, All, any, filter, arith, Bool-cases,
  inl, inr, leb→le,
}
use mathlib.Core.Path.{subst}
use dblock.Prelude.Fault.{ok, out_of_fuel}
use dblock.Prelude.Exec.{Exec, pure, get, modify, continue, ◌>>=◌}
use dblock.Row.{Row}
use dblock.Expr.Compare.{Float64}
use dblock.Scan.{Entry, Scanner, Yields, done, more, Yields-start, Yields-ne-out_of_fuel}
use dblock.Scan.Join.{
  Join, JoinState, null_pad_right, match_rows, after_rows, match_current, new_left, join_loop,
  join_next,
}
use dblock.Scan.Join.Nested.{joined_entry, pad_left_row, join_from}
use dblock.Scan.Join.Inner.{Decides, match_rows-none, match_rows-some}
use dblock.Scan.Join.Marks.{mix, drop-next, mix-same, mix-mark, mix_end, length-mix}
use dblock.Scan.Join.Growth.{join_loop-Grows}
use dblock.Scan.Join.Unmatched.{at, joiner, next_loaded, unmatched}

drop-le {ℓ} : {A : Type ℓ} (n : ℕ) (xs : List A) → drop n xs ≡ [] → length xs ≤ n
drop-le zero [] h = omega arith
drop-le zero (x ∷ xs) h = absurd (ground (arith, h))
drop-le (suc n) [] h = omega arith
drop-le (suc n) (x ∷ xs) h = omega (arith, drop-le n xs h)

drop_all {ℓ} : {A : Type ℓ} (n : ℕ) (xs : List A) → length xs ≤ n → drop n xs ≡ []
drop_all zero [] h = refl
drop_all zero (x ∷ xs) h = absurd (omega arith)
drop_all (suc n) [] h = refl
drop_all (suc n) (x ∷ xs) h = drop_all n xs (omega arith)

module _ ⦃fl : Float64⦄ (j : Join) (matches : Row → Row → Bool) {L R : Type 0} (left : Scanner L)
    (right : Scanner R) (u : R) (exhausted : right.next u ≡ (ok none, u)) (rows : List Row) where
  abbrev partners : Entry → Bool → List Row → List Entry
  partners e m rest =
      if m || any (matches e.row) rest
      then map (joined_entry e) (filter (matches e.row) rest)
      else pad_left_row j e

  module _ (fuel : ℕ) (f : Row → Bool) (e : Entry) (l : L) (later : List Entry) where
    abbrev updated : Row → Bool
    updated r = f r || matches e.row r

    abbrev again : Exec (JoinState L R) (Option Entry)
    again = join_loop j left right fuel

    module _
        (rest_Yields : (idx : ℕ) (m fresh : Bool)
          → (fresh || leb (length rows) idx) ≡ true
          → Yields
              (joiner j left right (suc fuel))
              (at u rows l idx (map updated rows) 0 e m fresh)
              later)
        (again_lem : (idx : ℕ) (m : Bool)
          → again (at u rows l idx (map updated rows) 0 e m true)
            ≡ join_next j left right
                (suc fuel)
                (at u rows l idx (map updated rows) 0 e m true)) where
      -- Inside the right rows the next call goes on with the same left row.
      next_inside :
          (idx : ℕ) (m : Bool)
          → leb (length rows) idx ≡ false
          → join_next j left right (suc fuel) (at u rows l idx (mix updated f idx rows) 0 e m false)
            ≡ (match_rows j left right (drop idx rows) >>= after_rows j left right again)
                (at u rows l idx (mix updated f idx rows) 0 e m false)
      unfolding join_loop match_current ◌>>=◌ get
      next_inside idx m inside =
          next_loaded j left right fuel u exhausted rows (mix updated f idx rows) l idx 0 e m false
            (length-mix updated f idx rows)
          ∙ rw inside

      padded_or :
          (emit : Bool) (idx : ℕ) (x : JoinState L R)
          → drop idx rows ≡ []
          → join_next j left right (suc fuel) x
            ≡ (if emit
                  then pure
                      (some (record { key = e.key; row = null_pad_right e.row j.right_col_count }))
                  else (modify (λ (t : JoinState L R). record t { needs_new_left = true }) >>= λ _.
                      again))
                (at u rows l idx (map updated rows) 0 e false false)
          → Yields (joiner j left right (suc fuel)) x (
              (if emit
                then record { key = e.key; row = null_pad_right e.row j.right_col_count } ∷ []
                else [])
              ++ later)
      unfolding ◌>>=◌ modify pure
      padded_or true idx x h k =
          let past = drop-le idx rows h in more k (rest_Yields idx false false (ground arith))
      padded_or false idx x h k =
          Yields-start _ (k ∙ again_lem idx false) (rest_Yields idx false true refl)

      rows_done :
          (idx : ℕ) (m : Bool) (x : JoinState L R)
          → drop idx rows ≡ []
          → join_next j left right (suc fuel) x
            ≡ after_rows j left right again none (at u rows l idx (map updated rows) 0 e m false)
          → Yields (joiner j left right (suc fuel)) x (partners e m [] ++ later)
      unfolding after_rows ◌>>=◌ get modify
      rows_done idx true x h k =
          Yields-start _ (k ∙ again_lem idx true) (rest_Yields idx true true refl)
      rows_done idx false x h k = padded_or j.emit_left_unmatched idx x h k

      after_last :
          (rest : List Row) (idx : ℕ)
          → drop (idx + 1) rows ≡ rest
          → leb (length rows) (idx + 1) ≡ true
          → Yields
              (joiner j left right (suc fuel))
              (at u rows l (idx + 1) (mix updated f (idx + 1) rows) 0 e true false)
              (partners e true rest ++ later)
      after_last rest idx step past =
          let none_left = drop_all (idx + 1) rows (leb→le (length rows) (idx + 1) past) in
          subst
            (λ rs.
              Yields (joiner j left right (suc fuel))
                (at u rows l (idx + 1) (mix updated f (idx + 1) rows) 0 e true false)
                (partners e true rs ++ later))
            (sym none_left ∙ step)
            (subst
              (λ marks.
                Yields (joiner j left right (suc fuel)) (at u rows l (idx + 1) marks 0 e true false)
                  later)
              (sym (mix_end updated f (idx + 1) rows none_left))
              (rest_Yields (idx + 1) true false past))

      -- From the middle of a left row on.
      rows_left :
          (rest : List Row) (idx : ℕ) (m : Bool) (x : JoinState L R)
          → drop idx rows ≡ rest
          → All (Decides j matches left right e.row) rest
          → join_next j left right (suc fuel) x
            ≡ (match_rows j left right rest >>= after_rows j left right again)
                (at u rows l idx (mix updated f idx rows) 0 e m false)
          → Yields (joiner j left right (suc fuel)) x (partners e m rest ++ later)
      unfolding match_rows after_rows ◌>>=◌ pure
      rows_left [] idx m x h d k = rows_done idx m x h (
          k
          ∙ ap (λ marks. after_rows j left right again none (at u rows l idx marks 0 e m false))
              (mix_end updated f idx rows h))
      rows_left (r ∷ rest) idx m x h d k =
          let step = drop-next idx rows h in
          let now = at u rows l idx (mix updated f idx rows) 0 e m false in
          elim (Bool-cases (matches e.row r)) [
            | inl holds ↦
                let marked = mix-mark idx rows h updated f (ground (arith, holds)) in
                let there =
                  k
                  ∙ ap (λ p. continue p.0 (after_rows j left right again) p.1)
                      (match_rows-some j matches left right now e.row refl r rest _ d.0 holds
                        marked) in
                let after = at u rows l (idx + 1) (mix updated f (idx + 1) rows) 0 e true false in
                let any_way : (m || true) ≡ true = ground arith in
                rw (holds, any_way)
                  (more there (elim (Bool-cases (leb (length rows) (idx + 1))) [
                    | inl past ↦ after_last rest idx step past
                    | inr inside ↦ rows_left rest (idx + 1) true after step d.1 (
                        next_inside (idx + 1) true inside
                        ∙ ap
                            (λ rs.
                              (match_rows j left right rs >>= after_rows j left right again) after)
                            step)
                  ]))
            | inr fails ↦
                let same = mix-same idx rows h updated f (ground (arith, fails)) in
                rw fails (
                  rows_left rest (idx + 1) m x step d.1 (
                    k
                    ∙ ap (λ p. continue p.0 (after_rows j left right again) p.1)
                        (match_rows-none j matches left right now e.row refl r rest d.0 fails)
                    ∙ ap
                        (λ marks.
                          (match_rows j left right rest >>= after_rows j left right again)
                            (at u rows l (idx + 1) marks 0 e m false))
                        (sym same)))
          ]

  grown :
      (fuel : ℕ) (s : JoinState L R) {ls : List Entry}
      → join_next j left right (suc fuel) s ≡ join_loop j left right (suc fuel) s
      → join_next j left right (suc (suc fuel)) s ≡ join_loop j left right (suc (suc fuel)) s
      → Yields (joiner j left right (suc fuel)) s ls
      → join_loop j left right (suc fuel) s ≡ join_next j left right (suc (suc fuel)) s
  grown fuel s e e' y = sym (
      e'
      ∙ join_loop-Grows j left right (suc fuel) s (
          subst (λ r. r.0 ≢ out_of_fuel) e
            (Yields-ne-out_of_fuel (joiner j left right (suc fuel)) y)))

  start_row :
      (fuel : ℕ) (marks : List Bool) (l t : L) (idx : ℕ) (current e : Entry) (m fresh : Bool)
      → (fresh || leb (length rows) idx) ≡ true
      → left.next l ≡ (ok (some e), t)
      → join_loop j left right (suc fuel) (at u rows l idx marks 0 current m fresh)
        ≡ (match_rows j left right rows >>= after_rows j left right (join_loop j left right fuel))
            (at u rows t 0 marks 0 e false false)
  unfolding join_loop new_left match_current ◌>>=◌ get modify
  start_row fuel marks l t idx current e m fresh new step = rw (new, step)

  -- From the states where a new left row is due.
  pub lefts :
      (fuel : ℕ) (f : Row → Bool) (l : L) (idx : ℕ) (current : Entry) (m fresh : Bool)
      {ls : List Entry}
      → Yields left l ls
      → length ls ≤ fuel
      → (fresh || leb (length rows) idx) ≡ true
      → All (λ (e : Entry). All (Decides j matches left right e.row) rows) ls
      → Yields
          (joiner j left right (suc fuel))
          (at u rows l idx (map f rows) 0 current m fresh)
          (join_from j matches rows f ls)
  lefts fuel f l idx current m fresh (done {t = t} e stop) h new d =
      unmatched j left right fuel u exhausted f rows t idx current m fresh stop new l e
  lefts zero f l idx current m fresh (more step y) h new d = absurd (omega arith)
  lefts (suc fuel) f l idx current m fresh (more {t = t} {e = e} {es = es} step y) h new d =
      let after = λ (r : Row). f r || matches e.row r in
      let state = λ (i : ℕ) (b : Bool). at u rows t i (map after rows) 0 e b true in
      rows_left (suc fuel) f e t (join_from j matches rows after es)
        (λ i b fr new'. lefts (suc fuel) after t i e b fr y (omega arith) new' d.1)
        (λ i b.
          grown fuel (state i b)
            (next_loaded j left right fuel u exhausted rows (map after rows) t i 0 e b true
              (length-mix after after 0 rows))
            (next_loaded j left right (suc fuel) u exhausted rows (map after rows) t i 0 e b true
              (length-mix after after 0 rows))
            (lefts fuel after t i e b true y (omega arith) refl d.1))
        rows 0 false (at u rows l idx (map f rows) 0 current m fresh) refl d.0
        (next_loaded j left right (suc fuel) u exhausted rows (map f rows) l idx 0 current m fresh
            (length-mix f f 0 rows)
          ∙ start_row (suc fuel) (map f rows) l t idx current e m fresh new step)
