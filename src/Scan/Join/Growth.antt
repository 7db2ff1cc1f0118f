-- ===== src/Scan/Join/Growth.antt =====
-- internal/joinscanner.go: more fuel than enough changes nothing in the loop over left rows.
use dblock.Prelude.{
  ℕ, zero, suc, ◌≡◌, ◌≢◌, refl, Bool, true, false, not, ◌&&◌, ◌||◌, Option, none, some,
  if◌then◌else◌, length, leb,
}
use dblock.Prelude.Fault.{Result, ok, err, panic, out_of_fuel}
use dblock.Prelude.Exec.{Exec, get, continue, ◌>>=◌}
use dblock.Expr.Compare.{Float64}
use dblock.Scan.{Entry, Scanner}
use dblock.Scan.Join.{Join, JoinState, after_rows, match_current, new_left, join_loop}

-- Where `m` does not run out of fuel, `n` does the same.
abbrev Grows : {S A : Type 0} → Exec S A → Exec S A → Type 0
Grows {S} m n = (s : S) → (m s).0 ≢ out_of_fuel → n s ≡ m s

module _ {S A B : Type 0} (f g : A → Exec S B) (grows : (a : A) → Grows (f a) (g a)) where
  continue-Grows :
      (r : Result A) (s : S) → (continue r f s).0 ≢ out_of_fuel → continue r g s ≡ continue r f s
  continue-Grows (ok a) s h = grows a s h
  continue-Grows (err e) s h = refl
  continue-Grows panic s h = refl
  continue-Grows out_of_fuel s h = refl

  bind-Grows : (m : Exec S A) → Grows (m >>= f) (m >>= g)
  unfolding ◌>>=◌
  bind-Grows m s h = continue-Grows (m s).0 (m s).1 h

if-Grows :
    {S A : Type 0} (b : Bool) (m n p q : Exec S A)
    → Grows m p
    → Grows n q
    → Grows (if b then m else n) (if b then p else q)
if-Grows true m n p q h k = h
if-Grows false m n p q h k = k

module _ ⦃fl : Float64⦄ (j : Join) {L R : Type 0} (left : Scanner L) (right : Scanner R) where
  module _ (again later : Exec (JoinState L R) (Option Entry)) (grows : Grows again later) where
    after_rows-Grows :
        (found : Option Entry)
        → Grows (after_rows j left right again found) (after_rows j left right later found)
    unfolding after_rows
    after_rows-Grows none =
        bind-Grows _ _
          (λ s.
            if-Grows (not s.left_matched && j.emit_left_unmatched) _ _ _ _ (λ t h. refl)
              (bind-Grows _ _ (λ u. grows) _))
          get
    after_rows-Grows (some e) = λ s h. refl

    match_current-Grows :
        Grows (match_current j left right again) (match_current j left right later)
    unfolding match_current
    match_current-Grows = bind-Grows _ _ (λ s. bind-Grows _ _ after_rows-Grows _) get

    new_left-Grows :
        (found : Option Entry)
        → Grows (new_left j left right again found) (new_left j left right later found)
    unfolding new_left
    new_left-Grows none = λ s h. refl
    new_left-Grows (some e) = bind-Grows _ _ (λ u. match_current-Grows) _

  -- One step of fuel more.
  pub join_loop-Grows :
      (fuel : ℕ) (s : JoinState L R)
      → (join_loop j left right fuel s).0 ≢ out_of_fuel
      → join_loop j left right (suc fuel) s ≡ join_loop j left right fuel s
  unfolding join_loop
  join_loop-Grows zero s h = absurd (h refl)
  join_loop-Grows (suc fuel) s h =
      let ih = join_loop-Grows fuel in
      bind-Grows _ _
        (λ t.
          if-Grows (t.needs_new_left || leb (length t.right_rows) t.right_idx) _ _ _ _
            (bind-Grows _ _ (new_left-Grows _ _ ih) _) (match_current-Grows _ _ ih))
        get s h
