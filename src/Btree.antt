-- ===== src/Btree.antt =====
-- internal/btree.go: the B-tree over a pager, and the keys of its rows. The tree takes what it uses of
-- Go's `Pager` interface as a record of operations on a store `S`. Pages are loaded afresh each time,
-- so a page that an operation changes is a value, which it saves.
pub mod Search
pub mod Order
pub mod Keys
pub mod Insert
pub mod Walk
use dblock.Prelude.{
  ℕ, zero, suc, ◌+◌, ◌-◌, ◌*◌, ◌/◌, ◌%◌, ◌^◌, Bool, true, false, Option, none, some, List, [], ◌∷◌,
  ◌++◌, ltb, leb, ◌==◌, not, ◌&&◌, if◌then◌else◌, length, take, drop, get_elem?,
}
use dblock.Prelude.Int.{ℤ, pos, negsuc, ltb_ℤ}
use dblock.Prelude.Fault.{Error, Result, ok, err, panic, out_of_fuel, empty_page}
use dblock.Prelude.Exec.{Exec, pure, fail, ◌>>=◌, ◌>>◌}
use dblock.Page.{Page}

-- `KeyCompare`, which is `bytes.Compare`.
unfoldable pub key_compare : List ℕ → List ℕ → ℤ
key_compare [] [] = pos 0
key_compare [] (b ∷ ys) = negsuc 0
key_compare (a ∷ xs) [] = pos 1
key_compare (a ∷ xs) (b ∷ ys) =
    let rest = key_compare xs ys in if ltb a b then negsuc 0 else if ltb b a then pos 1 else rest

abbrev pub key_lt : List ℕ → List ℕ → Bool
key_lt a b = ltb_ℤ (key_compare a b) (pos 0)

abbrev pub key_eq : List ℕ → List ℕ → Bool
key_eq a b = not (ltb_ℤ (key_compare a b) (pos 0)) && not (ltb_ℤ (pos 0) (key_compare a b))

-- `sort.Search`: a binary search for the first index at which the test holds. Each step at least
-- halves the range, so its length is fuel enough.
unfoldable pub search_loop : ℕ → (ℕ → Bool) → ℕ → ℕ → ℕ
search_loop zero f i j = i
search_loop (suc fuel) f i j =
    let h = (i + j) / 2 in
    let rest = search_loop fuel f (if f h then i else h + 1) (if f h then h else j) in
    if ltb i j then rest else i

unfoldable pub search : ℕ → (ℕ → Bool) → ℕ
search n f = search_loop n f 0 n

-- `Search` asks for keys of the page only.
abbrev pub key_at : List (List ℕ) → ℕ → List ℕ
key_at keys i = elim (get_elem? keys i) [ none ↦ [] | some key ↦ key ]

-- The child to follow, and the place of a key in a leaf.
unfoldable pub child_index : List ℕ → List (List ℕ) → ℕ
child_index key keys = search (length keys) (λ i. key_lt key (key_at keys i))

unfoldable pub key_index : List ℕ → List (List ℕ) → ℕ
key_index key keys = search (length keys) (λ i. not (key_lt (key_at keys i) key))

-- What the tree uses of `Pager`.
pub record Pager (S : Type 0) : Type 0 where
  pub get_page : ℕ → Exec S Page
  pub put_page : ℕ → Page → Exec S (Unit {0})
  pub next_id : Exec S ℕ

pub record Tree (S : Type 0) : Type 0 where
  pub pager : Pager S
  pub root_id : ℕ

pub record PathEntry : Type 0 where
  pub page_id : ℕ
  pub index : ℕ

-- A new page of the tree.
abbrev pub leaf_page : ℕ → ℕ → List (List ℕ) → List (List ℕ) → Page
leaf_page id next keys values = record {
  id = id;
  is_leaf = true;
  num_keys = length keys % 2 ^ 16;
  next_leaf = next;
  keys = keys;
  values = values;
  children = [];
}

abbrev pub internal_page : ℕ → List (List ℕ) → List ℕ → Page
internal_page id keys children = record {
  id = id;
  is_leaf = false;
  num_keys = length keys % 2 ^ 16;
  next_leaf = 0;
  keys = keys;
  values = [];
  children = children;
}

-- A page that was never written is an empty leaf.
loaded : ℕ → Result Page → Result Page
loaded id (ok page) = ok (record page { id = id })
loaded id (err empty_page) = ok (leaf_page id 0 [] [])
loaded id (err e) = err e
loaded id panic = panic
loaded id out_of_fuel = out_of_fuel

module _ {S : Type 0} where
  -- An element of a slice.
  abbrev pub nth : {A : Type 0} → List A → ℕ → Exec S A
  nth xs i s = elim (get_elem? xs i) [ none ↦ (panic, s) | some x ↦ (ok x, s) ]

  unfoldable pub load_page : Tree S → ℕ → Exec S Page
  unfolding loaded
  load_page t id s = let (r, s') = t.pager.get_page id s in (loaded id r, s')

  unfoldable pub save_page : Tree S → Page → Exec S (Unit {0})
  save_page t p = t.pager.put_page p.id p

  -- `findLeaf`: one step of fuel for each level. The path has the deepest entry first.
  unfoldable pub find_leaf :
      Tree S → ℕ → List ℕ → ℕ → List PathEntry → Exec S (Page × List PathEntry)
  find_leaf t zero key id path = λ s. (out_of_fuel, s)
  find_leaf t (suc fuel) key id path = do
    page ← load_page t id
    if page.is_leaf then pure (page, path) else (do
      let i = child_index key page.keys
      child ← nth page.children i
      find_leaf t fuel key child (record { page_id = id; index = i } ∷ path))

  -- `Tree.Search`, with `none` for a key that is not found.
  unfoldable pub search_tree : Tree S → ℕ → List ℕ → Exec S (Option (List ℕ))
  search_tree t fuel key = do
    found ← find_leaf t fuel key t.root_id []
    let leaf = found.0
    let i = key_index key leaf.keys
    if ltb i (length leaf.keys) && key_eq (key_at leaf.keys i) key
        then (do value ← nth leaf.values i; pure (some value))
        else pure none
