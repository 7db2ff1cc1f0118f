-- ===== src/Scan/Filter.antt =====
-- internal/filterscanner.go: `FilterScanner`. Its loop over the rows that it drops takes fuel.
use dblock.Prelude.{
  ℕ, zero, suc, ◌<◌, ◌≡◌, refl, ap, sym, ◌∙◌, Bool, true, false, Option, none, some, List, length,
  filter, All, Bool-cases, if◌then◌else◌, inl, inr, arith,
}
use dblock.Prelude.Fault.{Result, ok, err, out_of_fuel, not_a_boolean}
use dblock.Prelude.Exec.{Exec, pure, lift, ◌>>=◌, >>=-ok}
use dblock.Value.{Value, bool}
use dblock.Expr.{Expr, eval_expr}
use dblock.Expr.Compare.{Float64}
use dblock.Scan.{Entry, Scanner, Yields, done, more, Yields-start}

-- `val.(bool)`
unfoldable pub as_boolean : Value → Result Bool
as_boolean (bool b) = ok b
as_boolean _ = err not_a_boolean

module _ ⦃fl : Float64⦄ {S : Type 0} (base : Scanner S) (expr : Expr) (args : List Value) where
  abbrev pub where_value : Entry → Result Value
  where_value e = eval_expr base.columns e.row.values args expr

  filter_entry : Exec S (Option Entry) → Option Entry → Exec S (Option Entry)
  filter_entry rest none = pure none
  filter_entry rest (some e) = do
    val ← lift (where_value e)
    matches ← lift (as_boolean val)
    if matches then pure (some e) else rest

  unfoldable pub filter_next : ℕ → Exec S (Option Entry)
  unfolding filter_entry
  filter_next zero = λ s. (out_of_fuel, s)
  filter_next (suc fuel) = do found ← base.next; filter_entry (filter_next fuel) found

  unfoldable pub new_filter_scanner : ℕ → Scanner S
  new_filter_scanner fuel = record { columns = base.columns; next = filter_next fuel }

  filter_next-none :
      (fuel : ℕ) {s t : S}
      → 0 < fuel
      → base.next s ≡ (ok none, t)
      → filter_next fuel s ≡ (ok none, t)
  unfolding filter_next pure
  filter_next-none zero h e = absurd (omega arith)
  filter_next-none (suc fuel) {s} h e = >>=-ok base.next _ s e

  -- A step on a row whose WHERE has a truth value.
  filter_next-some :
      (fuel : ℕ) {s t : S} {e : Entry} (b : Bool)
      → base.next s ≡ (ok (some e), t)
      → where_value e ≡ ok (bool b)
      → filter_next (suc fuel) s ≡ (if b then (ok (some e), t) else filter_next fuel t)
  unfolding filter_next pure lift as_boolean
  filter_next-some fuel {s} {t} {e} true step val =
      >>=-ok base.next _ s step
      ∙ >>=-ok (lift (where_value e)) _ t {a = bool true} (ap (λ r. (r, t)) val)
      ∙ >>=-ok (lift (ok true)) _ t refl
  filter_next-some fuel {s} {t} {e} false step val =
      >>=-ok base.next _ s step
      ∙ >>=-ok (lift (where_value e)) _ t {a = bool false} (ap (λ r. (r, t)) val)
      ∙ >>=-ok (lift (ok false)) _ t refl

  -- With the fuel that the whole run needs, the fuel of one step may be less.
  filter_next-fuel :
      (p : Entry → Bool) (fuel n : ℕ) {s : S} {rows : List Entry}
      → Yields base s rows
      → All (λ e. where_value e ≡ ok (bool (p e))) rows
      → length rows < fuel
      → length rows < n
      → filter_next fuel s ≡ filter_next n s
  filter_next-fuel p zero n y h k l = absurd (omega arith)
  filter_next-fuel p (suc fuel) zero y h k l = absurd (omega arith)
  filter_next-fuel p (suc fuel) (suc n) (done e stop) h k l =
      filter_next-none (suc fuel) (omega arith) e ∙ sym (filter_next-none (suc n) (omega arith) e)
  filter_next-fuel p (suc fuel) (suc n) (more {t = t} {e = e} step y) h k l =
      let rest = filter_next-fuel p fuel n y h.1 (omega arith) (omega arith) in
      filter_next-some fuel (p e) step h.0
      ∙ ap (λ r. if p e then (ok (some e), t) else r) rest
      ∙ sym (filter_next-some n (p e) step h.0)

  -- Over a base that yields `rows`, each with a truth value for the WHERE expression, the scanner yields
  -- those where it is true, in the same order.
  pub Yields-filtered :
      (p : Entry → Bool) (fuel : ℕ) {s : S} {rows : List Entry}
      → Yields base s rows
      → All (λ e. where_value e ≡ ok (bool (p e))) rows
      → length rows < fuel
      → Yields (new_filter_scanner fuel) s (filter p rows)
  unfolding new_filter_scanner
  Yields-filtered p fuel (done e stop) h k =
      done (filter_next-none fuel (omega arith) e) (filter_next-none fuel (omega arith) stop)
  Yields-filtered p zero (more step y) h k = absurd (omega arith)
  Yields-filtered p (suc fuel) (more {e = e} step y) h k =
      let rest = Yields-filtered p (suc fuel) y h.1 (omega arith) in
      let same = filter_next-fuel p fuel (suc fuel) y h.1 (omega arith) (omega arith) in
      elim (Bool-cases (p e)) [
        | inl holds ↦
            rw holds
              (more (filter_next-some fuel true step (h.0 ∙ ap (λ b. ok (bool b)) holds)) rest)
        | inr drops ↦ rw drops (
            Yields-start (new_filter_scanner (suc fuel))
              (filter_next-some fuel false step (h.0 ∙ ap (λ b. ok (bool b)) drops) ∙ same) rest)
      ]
