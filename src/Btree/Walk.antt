-- ===== src/Btree/Walk.antt =====
-- internal/btree.go and internal/cursor.go: walks along the leaves. An error ends a walk: the cursor
-- that it leaves is not used again.
use dblock.Prelude.{
  ℕ, zero, suc, ◌+◌, ◌-◌, ◌^◌, Bool, true, false, Option, none, some, List, [], ◌∷◌, ◌++◌, ltb, leb,
  ◌==◌, if◌then◌else◌, length, replicate,
}
use dblock.Prelude.Int.{ℤ, pos, to_word, of_word, ◌+ℤ◌}
use dblock.Prelude.Fault.{Result, ok, err, panic, out_of_fuel}
use dblock.Prelude.Exec.{Exec, pure, lift, ◌>>=◌, ◌>>◌}
use dblock.Page.{Page}
use dblock.Btree.{Tree, nth, load_page, find_leaf, key_index, key_lt}
use dblock.Btree.Keys.{encode_key, decode_key}
use dblock.Btree.Insert.{insert_key}

-- The leaf to go on from: an error, or a leaf without keys, ends the walk.
next_or_stop : Result Page → Result (Option Page)
next_or_stop (ok next) = ok (if length next.keys == 0 then none else some next)
next_or_stop (err _) = ok none
next_or_stop panic = panic
next_or_stop out_of_fuel = out_of_fuel

module _ {S : Type 0} where
  -- The keys and values from a leaf to the last one, behind those collected so far.
  collect :
      Tree S → ℕ → Page → List (List ℕ) → List (List ℕ) → Exec S (List (List ℕ) × List (List ℕ))
  collect t zero leaf keys values = λ s. (out_of_fuel, s)
  collect t (suc fuel) leaf keys values =
      if leaf.next_leaf == 0 then pure (keys ++ leaf.keys, values ++ leaf.values) else (do
        next ← load_page t leaf.next_leaf
        collect t fuel next (keys ++ leaf.keys) (values ++ leaf.values))

  -- `Tree.All`
  unfoldable pub all_entries : Tree S → ℕ → Exec S (List (List ℕ) × List (List ℕ))
  unfolding collect
  all_entries t fuel = do
    found ← find_leaf t fuel (0 ∷ []) t.root_id []
    collect t fuel found.0 [] []

  unfoldable pub first_key : Tree S → ℕ → Exec S (List ℕ)
  first_key t fuel = do
    found ← find_leaf t fuel (0 ∷ []) t.root_id []
    if ltb (length found.0.keys) 1 then pure (encode_key (pos 0)) else nth found.0.keys 0

  try_load : Tree S → ℕ → Exec S (Option Page)
  unfolding next_or_stop
  try_load t id s = let (r, s') = load_page t id s in (next_or_stop r, s')

  last_leaf : Tree S → ℕ → Page → Exec S Page
  unfolding try_load
  last_leaf t zero leaf = λ s. (out_of_fuel, s)
  last_leaf t (suc fuel) leaf = if leaf.next_leaf == 0 then pure leaf else (do
    next ← try_load t leaf.next_leaf
    elim next [ none ↦ pure leaf | some l ↦ last_leaf t fuel l ])

  unfoldable pub last_key : Tree S → ℕ → Exec S (List ℕ)
  unfolding last_leaf
  last_key t fuel = do
    found ← find_leaf t fuel (replicate 8 255) t.root_id []
    if length found.0.keys == 0
        then pure (encode_key (pos 0))
        else (do leaf ← last_leaf t fuel found.0; nth leaf.keys (length leaf.keys - 1))

  unfoldable pub key_range : Tree S → ℕ → Exec S (List ℕ × List ℕ)
  key_range t fuel = do first ← first_key t fuel; last ← last_key t fuel; pure (first, last)

  -- `lastKey + 1`, which wraps.
  unfoldable pub next_integer_key : Tree S → ℕ → Exec S ℤ
  next_integer_key t fuel = do
    buf ← last_key t fuel
    last ← lift (decode_key buf)
    pure (of_word (2 ^ 64) (to_word (2 ^ 64) (last +ℤ pos 1)))

  unfoldable pub row_insert_at : Tree S → ℕ → ℤ → List ℕ → Exec S (Unit {0})
  row_insert_at t fuel row_id value = insert_key t fuel (encode_key row_id) value

  unfoldable pub insert_next : Tree S → ℕ → List ℕ → Exec S ℤ
  insert_next t fuel value = do
    row_id ← next_integer_key t fuel
    row_insert_at t fuel row_id value
    pure row_id

pub record Cursor : Type 0 where
  pub leaf : Option Page
  pub idx : ℕ
  pub start : List ℕ
  pub stop : List ℕ
  pub started : Bool

abbrev pub new_cursor : List ℕ → List ℕ → Cursor
new_cursor start stop = record { leaf = none; idx = 0; start = start; stop = stop; started = false }

module _ {S : Type 0} where
  -- The first step finds the leaf and the place of the start in it.
  start_cursor : Tree S → ℕ → Cursor → Exec S Cursor
  start_cursor t fuel c = if c.started then pure c else (do
    found ← find_leaf t fuel c.start t.root_id []
    pure (record c { leaf = some found.0; idx = key_index c.start found.0.keys; started = true }))

  -- The entry at the cursor, if it is not past the end. A leaf that is done is followed by the next
  -- one, a step of fuel each.
  advance_cursor : Tree S → ℕ → Cursor → Exec S (Cursor × Option (List ℕ × List ℕ))
  advance_cursor t zero c = λ s. (out_of_fuel, s)
  advance_cursor t (suc fuel) c = elim c.leaf [
    | none ↦ pure (c, none)
    | some leaf ↦
        if leb (length leaf.keys) c.idx
        then (if leaf.next_leaf == 0 then pure (record c { leaf = none }, none) else (do
          next ← load_page t leaf.next_leaf
          advance_cursor t fuel (record c { leaf = some next; idx = 0 })))
        else (do
          key ← nth leaf.keys c.idx
          if key_lt c.stop key then pure (record c { leaf = none }, none) else (do
            value ← nth leaf.values c.idx
            pure (record c { idx = c.idx + 1 }, some (key, value))))
  ]

  -- `Cursor.Next`
  unfoldable pub cursor_next : Tree S → ℕ → Cursor → Exec S (Cursor × Option (List ℕ × List ℕ))
  unfolding start_cursor advance_cursor
  cursor_next t fuel c = do started ← start_cursor t fuel c; advance_cursor t fuel started
