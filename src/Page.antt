-- ===== src/Page.antt =====
-- internal/page.go: B-tree pages in their slotted layout, and the root page's share of block 0.
-- Slices are lists; `peek` and `poke` are Go's reads and writes at an offset, which panic out of range.
pub mod Decode
pub mod Safety
use dblock.Prelude.{
  ℕ, zero, suc, ◌+◌, ◌-◌, ◌*◌, ◌%◌, ◌^◌, Bool, true, false, Option, none, some, List, [], ◌∷◌, ◌++◌,
  ltb, leb, ◌==◌, not, ◌&&◌, if◌then◌else◌, length, take, drop, replicate, get_elem?,
}
use dblock.Prelude.Int.{ℤ, pos, negsuc}
use dblock.Prelude.Bytes.{le_bytes, le_value}
use dblock.Prelude.Fault.{
  Error, Result, ok, err, panic, out_of_fuel, page_overflow, empty_page, bad_page_magic,
  slot_past_page, key_past_page, value_past_page, keys_ne_values, rightmost_past_page,
}
use dblock.Prelude.Exec.{Exec, pure, fail, lift, ◌>>=◌, ◌>>◌}
use dblock.Metadata.{Metadata, encode, new_metadata, metadata_length}

abbrev pub root_schema_page_id : ℕ
root_schema_page_id = 0

-- `nil` metadata is `none`.
unfoldable pub join_header_page_data : Option Metadata → List ℕ → List ℕ
join_header_page_data none page_data = encode new_metadata ++ page_data
join_header_page_data (some m) page_data = encode m ++ page_data

-- A `nil` header is empty.
unfoldable pub split_header_page_data : List ℕ → List ℕ × List ℕ
split_header_page_data block =
    if ltb (length block) metadata_length
    then ([], block)
    else (take metadata_length block, drop metadata_length block)

-- "LEAF" and "INTE"
abbrev pub magic_leaf : ℕ
magic_leaf = 1279607110

abbrev pub magic_int : ℕ
magic_int = 1229870149

abbrev pub header_size : ℕ
header_size = 32

abbrev pub slot_size : Bool → ℕ
slot_size is_leaf = if is_leaf then 8 else 12

pub record Slot : Type 0 where
  pub key_off : ℕ
  pub key_len : ℕ
  pub value_off : ℕ
  pub value_len : ℕ
  pub child_id : ℕ

pub record Page : Type 0 where
  pub id : ℕ
  pub is_leaf : Bool
  pub num_keys : ℕ
  pub next_leaf : ℕ
  pub keys : List (List ℕ)
  pub values : List (List ℕ)
  pub children : List ℕ

-- `copy` into, or a `LE.Put` at, the bytes of the buffer from an offset on.
unfoldable pub poke : ℕ → List ℕ → Exec (List ℕ) (Unit {0})
poke offset bs buf =
    if leb (offset + length bs) (length buf)
    then (ok tt, take offset buf ++ (bs ++ drop (offset + length bs) buf))
    else (panic, buf)

-- `slot.put`
unfoldable pub put_slot : Slot → ℕ → Bool → Exec (List ℕ) (Unit {0})
put_slot s start is_leaf = do
  poke start (le_bytes 2 s.key_off)
  poke (start + 2) (le_bytes 2 s.key_len)
  if is_leaf
      then (do poke (start + 4) (le_bytes 2 s.value_off); poke (start + 6) (le_bytes 2 s.value_len))
      else poke (start + 4) (le_bytes 8 s.child_id)

unfoldable pub put_child_id : ℕ → ℕ → Exec (List ℕ) (Unit {0})
put_child_id start child_id = poke (start + 4) (le_bytes 8 child_id)

-- An element of a slice, by its index.
abbrev pub index : {A : Type 0} → List A → ℕ → Exec (List ℕ) A
index xs i buf = elim (get_elem? xs i) [ none ↦ (panic, buf) | some x ↦ (ok x, buf) ]

-- `totalData`, the length of the keys, and of a leaf's values.
total_data : Page → List (List ℕ) → ℕ → ℕ → Exec (List ℕ) ℕ
total_data p [] i total = pure total
total_data p (key ∷ rest) i total =
    if p.is_leaf
    then (do val ← index p.values i; total_data p rest (i + 1) (total + length key + length val))
    else total_data p rest (i + 1) (total + length key)

-- `uint16` of an offset or a length
abbrev uint16 : ℕ → ℕ
uint16 n = n % 2 ^ 16

-- The key of one entry, and its value or child. The result is the new end of the free space: data grows
-- backward from it, and there is room, by the test before the loop.
unfoldable pub put_entry : Page → List ℕ → ℕ → ℕ → Exec (List ℕ) ℕ
put_entry p key i data_end =
    let key_at = data_end - length key in
    let start = header_size + i * slot_size p.is_leaf in
    do
      poke (uint16 key_at) key
      if p.is_leaf
          then (do
            val ← index p.values i
            let val_at = key_at - length val
            poke (uint16 val_at) val
            put_slot
                (record {
                  key_off = uint16 key_at;
                  key_len = uint16 (length key);
                  value_off = uint16 val_at;
                  value_len = uint16 (length val);
                  child_id = 0;
                })
                start true
            pure val_at)
          else (do
            child ← index p.children i
            put_slot
                (record {
                  key_off = uint16 key_at;
                  key_len = uint16 (length key);
                  value_off = 0;
                  value_len = 0;
                  child_id = child;
                })
                start false
            pure key_at)

unfoldable pub put_entries : Page → List (List ℕ) → ℕ → ℕ → Exec (List ℕ) (Unit {0})
put_entries p [] i data_end = pure tt
put_entries p (key ∷ rest) i data_end = do
  next ← put_entry p key i data_end
  put_entries p rest (i + 1) next

-- An inner page has one child more than keys, the rightmost.
put_rightmost : Page → Exec (List ℕ) (Unit {0})
put_rightmost p =
    if not p.is_leaf && ltb (length p.keys) (length p.children)
    then (do
      child ← index p.children (length p.children - 1)
      put_child_id (header_size + length p.keys * slot_size p.is_leaf) child)
    else pure tt

-- `make([]byte, pageSize)`
fresh : ℕ → Exec (List ℕ) (Unit {0})
fresh n buf = (ok tt, replicate n 0)

put_header : Page → Exec (List ℕ) (Unit {0})
put_header p = do
  poke 0 (le_bytes 4 (if p.is_leaf then magic_leaf else magic_int))
  poke 4 (if p.is_leaf then 1 ∷ [] else [])
  poke 5 (le_bytes 2 p.num_keys)
  poke 7 (le_bytes 8 p.next_leaf)

num_slots : Page → ℕ
num_slots p = length p.keys + (if p.is_leaf then 0 else 1)

-- The writes of `Page.Encode` for a page of `room` bytes.
unfoldable pub put_page_data : Page → ℕ → Exec (List ℕ) (Unit {0})
unfolding total_data fresh put_header put_rightmost num_slots
put_page_data p room = do
  total ← total_data p p.keys 0 0
  if ltb room (header_size + num_slots p * slot_size p.is_leaf + total)
      then fail page_overflow
      else (do fresh room; put_header p; put_entries p p.keys 0 room; put_rightmost p)

buffer_of : Result (Unit {0}) × List ℕ → Result (List ℕ)
buffer_of (ok _, buf) = ok buf
buffer_of (err e, _) = err e
buffer_of (panic, _) = panic
buffer_of (out_of_fuel, _) = out_of_fuel

-- `Page.Encode`. A negative page size is that of the power 63. Less the metadata it wraps to a length
-- that `make` refuses.
unfoldable pub encode_page : Page → ℤ → Result (List ℕ)
unfolding buffer_of
encode_page p (pos n) =
    buffer_of (put_page_data p (if p.id == root_schema_page_id then n - metadata_length else n) [])
encode_page p (negsuc _) =
    if p.id == root_schema_page_id then panic else buffer_of (put_page_data p 0 [])
