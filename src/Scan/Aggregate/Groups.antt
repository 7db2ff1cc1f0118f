-- ===== src/Scan/Aggregate/Groups.antt =====
-- internal/aggregatescanner.go: the groups that the rows of the base are split into.
use dblock.Prelude.{
  ℕ, ◌≡◌, refl, ap, sym, ◌∙◌, true, false, Option, none, some, List, [], ◌∷◌, map, filter, All,
  if◌then◌else◌, Bool-cases, inl, inr,
}
use dblock.Prelude.Bytes.{bytes_eq, bytes_eq_refl, eq_of_bytes_eq}
use dblock.Prelude.Fault.{ok}
use dblock.Value.{Value}
use dblock.Expr.{Expr}
use dblock.Expr.Compare.{Float64}
use dblock.Scan.{Entry}
use dblock.Scan.Aggregate.{
  Plan, FuncGroup, group_key, func_arguments, update_each, no_values, accumulate, new_group,
  put_row, buffer_rows,
}

abbrev pub Groups : Type 0
Groups = List (List ℕ × FuncGroup)

abbrev pub group_of : List ℕ → Groups → Option FuncGroup
group_of key [] = none
group_of key ((k, g) ∷ groups) = if bytes_eq k key then some g else group_of key groups

abbrev pub group_keys : Groups → List (List ℕ)
group_keys [] = []
group_keys ((k, g) ∷ groups) = k ∷ group_keys groups

-- A key goes to the end, unless it is there.
abbrev pub with_key : List ℕ → List (List ℕ) → List (List ℕ)
with_key key [] = key ∷ []
with_key key (k ∷ keys) = if bytes_eq k key then k ∷ keys else k ∷ with_key key keys

abbrev pub first_seen : List (List ℕ) → List (List ℕ) → List (List ℕ)
first_seen keys [] = keys
first_seen keys (k ∷ ks) = first_seen (with_key k keys) ks

apart : (j key k : List ℕ) → bytes_eq j key ≡ false → bytes_eq j k ≡ true → bytes_eq key k ≡ false
apart j key k other here = elim (Bool-cases (bytes_eq key k)) [
  | inl same ↦
      let joined = eq_of_bytes_eq j k here ∙ sym (eq_of_bytes_eq key k same) in
      let refuted : bytes_eq j key ≡ true = rw joined (bytes_eq_refl key) in cc
  | inr differs ↦ differs
]

module _ ⦃fl : Float64⦄ (sprint : Value → List ℕ) (columns : List (List ℕ)) (args : List Value)
    (p : Plan) (key : Entry → List ℕ) (values passed : Entry → List Value) where
  -- The expressions have values for the row: its key, what the functions are given, and what is passed on.
  pub record HasValues (exprs : List Expr) (e : Entry) : Type 0 where
    pub keyed : group_key sprint columns args exprs e.row ≡ ok (key e)
    pub given : func_arguments sprint columns args p.func_calls e.row.values ≡ ok (values e)
    pub made :
        new_group sprint columns args p e.row
        ≡ ok (record {
          accumulators = no_values sprint columns args p.func_calls;
          pt_values = passed e;
        })

  fed : FuncGroup → Entry → FuncGroup
  fed g e = record g { accumulators = update_each sprint columns args g.accumulators (values e) }

  fresh : Entry → FuncGroup
  fresh e = record {
    accumulators = no_values sprint columns args p.func_calls;
    pt_values = passed e;
  }

  -- The group of a key behind one more of its rows, and behind all of them. The first row makes the group.
  abbrev pub after_row : Option FuncGroup → Entry → FuncGroup
  unfolding fed fresh
  after_row none e = fed (fresh e) e
  after_row (some g) e = fed g e

  abbrev pub after_rows : Option FuncGroup → List Entry → Option FuncGroup
  after_rows g [] = g
  after_rows g (e ∷ es) = after_rows (some (after_row g e)) es

  put : Entry → Groups → Groups
  unfolding fed fresh
  put e [] = (key e, fed (fresh e) e) ∷ []
  put e ((k, g) ∷ groups) =
      if bytes_eq k (key e) then (k, fed g e) ∷ groups else (k, g) ∷ put e groups

  accumulate-fed :
      (exprs : List Expr) (e : Entry) (g : FuncGroup)
      → HasValues exprs e
      → accumulate sprint columns args p.func_calls g e.row ≡ ok (fed g e)
  unfolding accumulate fed
  accumulate-fed exprs e g h = rw h.given

  put_row-put :
      (exprs : List Expr) (e : Entry) (groups : Groups)
      → HasValues exprs e
      → put_row sprint columns args p (key e) e.row groups ≡ ok (put e groups)
  unfolding put_row put fresh
  put_row-put exprs e [] h = rw (h.made, accumulate-fed exprs e (fresh e) h)
  put_row-put exprs e ((k, g) ∷ groups) h = elim (Bool-cases (bytes_eq k (key e))) [
    | inl same ↦ rw (same, accumulate-fed exprs e g h)
    | inr other ↦ rw (other, put_row-put exprs e groups h)
  ]

  group_of-put :
      (e : Entry) (k : List ℕ) (groups : Groups)
      → group_of k (put e groups)
        ≡ (if bytes_eq (key e) k then some (after_row (group_of k groups) e) else group_of k groups)
  unfolding put
  group_of-put e k [] = refl
  group_of-put e k ((j, g) ∷ groups) = elim (Bool-cases (bytes_eq j (key e))) [
    | inl same ↦
        rw (same, eq_of_bytes_eq j (key e) same)
          (elim (Bool-cases (bytes_eq (key e) k)) [ inl here ↦ rw here | inr there ↦ rw there ])
    | inr other ↦ rw other (elim (Bool-cases (bytes_eq j k)) [
      | inl here ↦ rw (here, apart j (key e) k other here)
      | inr there ↦ rw there (group_of-put e k groups)
    ])
  ]

  group_keys-put :
      (e : Entry) (groups : Groups)
      → group_keys (put e groups) ≡ with_key (key e) (group_keys groups)
  unfolding put
  group_keys-put e [] = refl
  group_keys-put e ((j, g) ∷ groups) = elim (Bool-cases (bytes_eq j (key e))) [
    | inl same ↦ rw same
    | inr other ↦ rw other (ap (λ ks. j ∷ ks) (group_keys-put e groups))
  ]

  abbrev pub with_this_key : List ℕ → List Entry → List Entry
  with_this_key k es = filter (λ e. bytes_eq (key e) k) es

  split :
      (k : List ℕ) (e : Entry) (es : List Entry) (g : Option FuncGroup)
      → after_rows (if bytes_eq (key e) k then some (after_row g e) else g) (with_this_key k es)
        ≡ after_rows g (with_this_key k (e ∷ es))
  split k e es g = elim (Bool-cases (bytes_eq (key e) k)) [
    | inl here ↦ rw here
    | inr there ↦ rw there
  ]

  buffered :
      (exprs : List Expr) (es : List Entry) (groups : Groups)
      → All (HasValues exprs) es
      → (out : Groups) × (buffer_rows sprint columns args p exprs es groups ≡ ok out)
        × (group_keys out ≡ first_seen (group_keys groups) (map key es))
        × ((k : List ℕ) → group_of k out ≡ after_rows (group_of k groups) (with_this_key k es))
  unfolding buffer_rows
  buffered exprs [] groups h = (groups, refl, refl, λ k. refl)
  buffered exprs (e ∷ es) groups h =
      let (out, run, keys, members) = buffered exprs es (put e groups) h.1 in
      let keyed = h.0.keyed in
      (
        out,
        rw (keyed, put_row-put exprs e groups h.0) run,
        keys ∙ ap (λ ks. first_seen ks (map key es)) (group_keys-put e groups),
        λ k.
            members k
            ∙ ap (λ g. after_rows g (with_this_key k es)) (group_of-put e k groups)
            ∙ split k e es (group_of k groups),
      )

  -- Where the expressions have values for every row: the groups have the keys of the rows, each once, in the
  -- order in which they are first seen, and the group of a key is made by the first row of the key and fed
  -- with all rows of the key, in their order.
  pub group_of-buffer_rows :
      (exprs : List Expr) (es : List Entry)
      → All (HasValues exprs) es
      → (out : Groups) × (buffer_rows sprint columns args p exprs es [] ≡ ok out)
        × (group_keys out ≡ first_seen [] (map key es))
        × ((k : List ℕ) → group_of k out ≡ after_rows none (with_this_key k es))
  group_of-buffer_rows exprs es h = buffered exprs es [] h
