-- ===== src/Btree/Insert.antt =====
-- internal/btree.go: `Insert`, with the splits that it leads to, and `Delete`.
use dblock.Prelude.{
  ℕ, ◌+◌, ◌/◌, ◌%◌, ◌^◌, List, [], ◌∷◌, ◌++◌, ltb, leb, ◌&&◌, if◌then◌else◌, length, take, drop,
}
use dblock.Prelude.Fault.{ok, panic, key_not_found}
use dblock.Prelude.Exec.{Exec, pure, fail, ◌>>=◌, ◌>>◌}
use dblock.Page.{Page}
use dblock.Btree.{
  Tree, PathEntry, leaf_page, internal_page, nth, load_page, save_page, find_leaf, key_index,
  key_at, key_eq,
}

abbrev pub max_children_per_internal_node : ℕ
max_children_per_internal_node = 4

module _ {S : Type 0} where
  -- A slice grown by one at `i`: `append`, then `copy` of what is behind it.
  unfoldable pub insert_at : {A : Type 0} → ℕ → A → List A → Exec S (List A)
  insert_at i x xs s =
      if leb i (length xs) then (ok (take i xs ++ (x ∷ drop i xs)), s) else (panic, s)

  -- `xs[i] = x`
  unfoldable pub set_at : {A : Type 0} → ℕ → A → List A → Exec S (List A)
  set_at i x xs s =
      if ltb i (length xs) then (ok (take i xs ++ (x ∷ drop (i + 1) xs)), s) else (panic, s)

  -- `xs[n:]`
  unfoldable pub slice_from : {A : Type 0} → ℕ → List A → Exec S (List A)
  slice_from n xs s = if leb n (length xs) then (ok (drop n xs), s) else (panic, s)

  -- `append(xs[:i], xs[i+1:]...)`
  unfoldable pub remove_at : {A : Type 0} → ℕ → List A → Exec S (List A)
  remove_at i xs s =
      if ltb i (length xs) then (ok (take i xs ++ drop (i + 1) xs), s) else (panic, s)

  save_leaf : Tree S → Page → Exec S Page
  save_leaf t leaf = do save_page t leaf; pure leaf

  -- `insertIntoLeaf`; the result is the leaf as it changed.
  unfoldable pub insert_into_leaf : Tree S → Page → List ℕ → List ℕ → Exec S Page
  unfolding save_leaf
  insert_into_leaf t leaf key value =
      let i = key_index key leaf.keys in
      if ltb i (length leaf.keys) && key_eq (key_at leaf.keys i) key
      then (do
        values ← set_at i value leaf.values
        save_leaf t (record leaf { values = values; num_keys = length leaf.keys % 2 ^ 16 }))
      else (do
        keys ← insert_at i key leaf.keys
        values ← insert_at i value leaf.values
        save_leaf t (record leaf { keys = keys; values = values; num_keys = length keys % 2 ^ 16 }))

  -- The root keeps its id: it becomes the parent of the two halves.
  save_root : Tree S → List ℕ → ℕ → ℕ → Exec S (Unit {0})
  save_root t key left_id right_id =
      save_page t (internal_page t.root_id (key ∷ []) (left_id ∷ right_id ∷ []))

  -- `splitInternal`, given the call of `insertIntoParent` on the rest of the path.
  unfoldable pub split_internal :
      Tree S → Page → (ℕ → List ℕ → ℕ → Exec S (Unit {0})) → Exec S (Unit {0})
  split_internal t n insert_above = do
    let mid = length n.keys / 2
    up_key ← nth n.keys mid
    right_id ← t.pager.next_id
    right_children ← slice_from (mid + 1) n.children
    save_page t (record n {
      keys = take mid n.keys;
      children = take (mid + 1) n.children;
      num_keys = length (take mid n.keys) % 2 ^ 16;
    })
    save_page t (internal_page right_id (drop (mid + 1) n.keys) right_children)
    insert_above n.id up_key right_id

  -- The split of the root, when the path is empty: its left half moves to a fresh page.
  move_root : Tree S → ℕ → List ℕ → ℕ → Exec S (Unit {0})
  unfolding save_root
  move_root t left_id key right_id = do
    new_left_id ← t.pager.next_id
    left ← load_page t left_id
    save_page t (record left { id = new_left_id })
    save_root t key new_left_id right_id

  -- `insertIntoParent`, on the path from the parent up.
  unfoldable pub insert_into_parent : Tree S → List PathEntry → ℕ → List ℕ → ℕ → Exec S (Unit {0})
  unfolding move_root
  insert_into_parent t [] left_id key right_id = move_root t left_id key right_id
  insert_into_parent t (entry ∷ path) left_id key right_id = do
    parent ← load_page t entry.page_id
    keys ← insert_at entry.index key parent.keys
    children ← insert_at (entry.index + 1) right_id parent.children
    let grown : Page = record parent {
      keys = keys;
      children = children;
      num_keys = length keys % 2 ^ 16;
    }
    save_page t grown
    if leb max_children_per_internal_node (length keys)
        then split_internal t grown (insert_into_parent t path)
        else pure tt

  -- `splitLeaf` of the root, and of any other leaf.
  split_root_leaf : Tree S → Page → Page → List (List ℕ) → Exec S (Unit {0})
  unfolding save_root
  split_root_leaf t leaf right values = do
    let mid = length leaf.keys / 2
    new_left_id ← t.pager.next_id
    save_page t (leaf_page new_left_id right.id (take mid leaf.keys) values)
    save_page t right
    first ← nth right.keys 0
    save_root t first new_left_id right.id

  split_other_leaf : Tree S → Page → Page → List (List ℕ) → List PathEntry → Exec S (Unit {0})
  split_other_leaf t leaf right values path = do
    let left_keys = take (length leaf.keys / 2) leaf.keys
    save_page t (record leaf {
      keys = left_keys;
      values = values;
      next_leaf = right.id;
      num_keys = length left_keys % 2 ^ 16;
    })
    save_page t right
    first ← nth right.keys 0
    insert_into_parent t path leaf.id first right.id

  unfoldable pub split_leaf : Tree S → Page → List PathEntry → Exec S (Unit {0})
  unfolding split_root_leaf split_other_leaf
  split_leaf t leaf path = do
    let mid = length leaf.keys / 2
    right_id ← t.pager.next_id
    right_values ← slice_from mid leaf.values
    let right = leaf_page right_id leaf.next_leaf (drop mid leaf.keys) right_values
    elim path [
      | [] ↦ split_root_leaf t leaf right (take mid leaf.values)
      | entry ∷ above ↦ split_other_leaf t leaf right (take mid leaf.values) (entry ∷ above)
    ]

  -- `Tree.Insert`
  unfoldable pub insert_key : Tree S → ℕ → List ℕ → List ℕ → Exec S (Unit {0})
  insert_key t fuel key value = do
    found ← find_leaf t fuel key t.root_id []
    leaf ← insert_into_leaf t found.0 key value
    if leb max_children_per_internal_node (length leaf.keys)
        then split_leaf t leaf found.1
        else pure tt

  -- `Tree.Delete`
  unfoldable pub delete_key : Tree S → ℕ → List ℕ → Exec S (Unit {0})
  delete_key t fuel key = do
    found ← find_leaf t fuel key t.root_id []
    let leaf = found.0
    let i = key_index key leaf.keys
    if ltb i (length leaf.keys) && key_eq (key_at leaf.keys i) key
        then (do
          keys ← remove_at i leaf.keys
          values ← remove_at i leaf.values
          save_page t
              (record leaf { keys = keys; values = values; num_keys = length keys % 2 ^ 16 }))
        else fail key_not_found
