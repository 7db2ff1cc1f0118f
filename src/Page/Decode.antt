-- ===== src/Page/Decode.antt =====
-- internal/page.go: `Decode`, a page read back from its bytes. The buffer is the state, which no read
-- changes.
use dblock.Prelude.{
  ℕ, zero, suc, ◌+◌, ◌*◌, Bool, List, [], ◌∷◌, ◌++◌, ltb, leb, ◌==◌, not, ◌&&◌, ◌||◌, if◌then◌else◌,
  length, take, drop,
}
use dblock.Prelude.Bytes.{le_value}
use dblock.Prelude.Fault.{
  Error, Result, ok, err, panic, empty_page, bad_page_magic, slot_past_page, key_past_page,
  value_past_page, keys_ne_values, rightmost_past_page,
}
use dblock.Prelude.Exec.{Exec, pure, fail, ◌>>=◌, ◌>>◌}
use dblock.Page.{Page, Slot, magic_leaf, magic_int, header_size, slot_size}

abbrev pub Read : Type 0 → Type 0
Read A = Exec (List ℕ) A

-- `buf[offset:offset+n]`
unfoldable pub peek : ℕ → ℕ → Read (List ℕ)
peek n offset buf =
    if leb (offset + n) (length buf) then (ok (take n (drop offset buf)), buf) else (panic, buf)

-- `LE.Uint16`, `LE.Uint32` and `LE.Uint64`, by their number of bytes.
unfoldable pub peek_uint : ℕ → ℕ → Read ℕ
peek_uint n offset = do bytes ← peek n offset; pure (le_value bytes)

-- `getSlot`, `start` bytes into the page
unfoldable pub get_slot : ℕ → Bool → Read Slot
get_slot start is_leaf = do
  key_off ← peek_uint 2 start
  key_len ← peek_uint 2 (start + 2)
  if is_leaf
      then (do
        value_off ← peek_uint 2 (start + 4)
        value_len ← peek_uint 2 (start + 6)
        pure (record {
          key_off = key_off;
          key_len = key_len;
          value_off = value_off;
          value_len = value_len;
          child_id = 0;
        }))
      else (do
        child_id ← peek_uint 8 (start + 4)
        pure (record {
          key_off = key_off;
          key_len = key_len;
          value_off = 0;
          value_len = 0;
          child_id = child_id;
        }))

unfoldable pub get_child_id : ℕ → Read ℕ
get_child_id start = peek_uint 8 (start + 4)

-- `if end > len(buf)`
unfoldable pub require : ℕ → Error → Read (Unit {0})
require end e buf = if ltb (length buf) end then (err e, buf) else (ok tt, buf)

-- The value or the child of an entry, put behind those of the page.
unfoldable pub get_rest : Page → Slot → List ℕ → Read Page
get_rest p s key =
    if p.is_leaf
    then (do
      require (s.value_off + s.value_len) value_past_page
      val ← peek s.value_len s.value_off
      pure (record p { keys = p.keys ++ (key ∷ []); values = p.values ++ (val ∷ []) }))
    else pure (record p { keys = p.keys ++ (key ∷ []); children = p.children ++ (s.child_id ∷ []) })

unfoldable pub get_entry : ℕ → Page → Read Page
unfolding get_rest
get_entry i p = do
  require (header_size + i * slot_size p.is_leaf + slot_size p.is_leaf) slot_past_page
  s ← get_slot (header_size + i * slot_size p.is_leaf) p.is_leaf
  require (s.key_off + s.key_len) key_past_page
  key ← peek s.key_len s.key_off
  get_rest p s key

-- The entries from `i` on, `n` of them.
unfoldable pub get_entries : ℕ → ℕ → Page → Read Page
get_entries zero i p = pure p
get_entries (suc n) i p = do q ← get_entry i p; get_entries n (i + 1) q

unfoldable pub check_parallel : Page → Read (Unit {0})
check_parallel p =
    if p.is_leaf && not (length p.keys == length p.values) then fail keys_ne_values else pure tt

unfoldable pub get_rightmost : Page → Read Page
get_rightmost p =
    let last = header_size + p.num_keys * slot_size p.is_leaf in
    if p.is_leaf then pure p else (do
      require (last + slot_size p.is_leaf) rightmost_past_page
      child ← get_child_id last
      pure (record p { children = p.children ++ (child ∷ []) }))

unfoldable pub check_written : ℕ → Read (Unit {0})
check_written magic = if magic == 0 then fail empty_page else pure tt

unfoldable pub check_page_magic : ℕ → Read (Unit {0})
check_page_magic magic =
    if (magic == magic_leaf) || (magic == magic_int) then pure tt else fail bad_page_magic

unfoldable pub get_page_data : Read Page
unfolding check_parallel get_rightmost check_page_magic
get_page_data = do
  magic ← peek_uint 4 0
  check_written magic
  leaf ← peek_uint 1 4
  check_page_magic magic
  num_keys ← peek_uint 2 5
  next ← peek_uint 8 7
  p ← get_entries num_keys 0 (record {
    id = 0;
    is_leaf = leaf == 1;
    num_keys = num_keys;
    next_leaf = next;
    keys = [];
    values = [];
    children = [];
  })
  check_parallel p
  get_rightmost p

-- `Decode`
unfoldable pub decode_page : List ℕ → Result Page
decode_page buf = (get_page_data buf).0
