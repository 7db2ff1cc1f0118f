-- ===== src/Page/Safety.antt =====
-- internal/page.go: `Decode` on any bytes at all that hold a page header.
use dblock.Prelude.{
  Bool-cases, le_of_ltb, inl, inr, ℕ, zero, suc, ◌+◌, ◌*◌, ◌≤◌, ◌≢◌, ◌≡◌, refl, Bool, true, false,
  List, ltb, arith, if◌then◌else◌, length,
}
use dblock.Prelude.Fault.{
  Error, Result, ok, err, panic, out_of_fuel, slot_past_page, key_past_page, value_past_page,
  keys_ne_values, rightmost_past_page, empty_page, bad_page_magic,
}
use dblock.Prelude.Exec.{pure, fail, continue, ◌>>=◌, ◌>>◌}
use dblock.Page.{Page, Slot, slot_size, header_size}
use dblock.Page.Decode.{
  Read, peek, peek_uint, get_slot, get_child_id, require, get_rest, get_entry, get_entries,
  check_parallel, get_rightmost, check_page_magic, check_written, get_page_data, decode_page,
}

-- The read neither panics nor runs on, and leaves the buffer.
pub record Fine {A : Type 0} (buf : List ℕ) (r : Result A × List ℕ) : Type 0 where
  pub no_panic : r.0 ≢ panic
  pub no_fuel : r.0 ≢ out_of_fuel
  pub same : r.1 ≡ buf

Fine-continue :
    {A B : Type 0} (f : A → Read B) (buf : List ℕ) (r : Result A) (s : List ℕ)
    → Fine buf (r, s)
    → ((a : A) → Fine buf (f a buf))
    → Fine buf (continue r f s)
Fine-continue f buf (ok a) s h g = rw h.same (g a)
Fine-continue f buf (err e) s h g = ground (arith, h.same)
Fine-continue f buf panic s h g = absurd (h.no_panic refl)
Fine-continue f buf out_of_fuel s h g = absurd (h.no_fuel refl)

bind :
    {A B : Type 0} (m : Read A) (f : A → Read B) (buf : List ℕ)
    → Fine buf (m buf)
    → ((a : A) → Fine buf (f a buf))
    → Fine buf ((m >>= f) buf)
unfolding ◌>>=◌
bind m f buf p q = Fine-continue f buf (m buf).0 (m buf).1 p q

done : {A : Type 0} (a : A) (buf : List ℕ) → Fine buf (pure a buf)
unfolding pure
done a buf = ground arith

failed : {A : Type 0} (e : Error) (buf : List ℕ) → Fine buf (fail {A = A} e buf)
unfolding fail
failed e buf = ground arith

-- What follows a test may use what it tested.
required :
    {B : Type 0} (end : ℕ) (e : Error) (m : Read B) (buf : List ℕ)
    → (end ≤ length buf → Fine buf (m buf))
    → Fine buf ((require end e >> m) buf)
unfolding require ◌>>=◌
required end e m buf h = elim (Bool-cases (ltb (length buf) end)) [
  | inl short ↦ rw short (failed e buf)
  | inr enough ↦ rw enough (h (le_of_ltb (length buf) end enough))
]

peek-Fine : (n offset : ℕ) (buf : List ℕ) → offset + n ≤ length buf → Fine buf (peek n offset buf)
unfolding peek
peek-Fine n offset buf h = ground (arith, h)

uint-Fine :
    (n offset : ℕ) (buf : List ℕ) → offset + n ≤ length buf → Fine buf (peek_uint n offset buf)
unfolding peek_uint
uint-Fine n offset buf h = bind (peek n offset) _ buf (peek-Fine n offset buf h) (λ bs. done _ buf)

slot-Fine :
    (start : ℕ) (leaf : Bool) (buf : List ℕ)
    → start + slot_size leaf ≤ length buf
    → Fine buf (get_slot start leaf buf)
unfolding get_slot
slot-Fine start true buf h =
    bind (peek_uint 2 start) _ buf (uint-Fine 2 start buf (omega (arith, h))) λ a.
      bind (peek_uint 2 (start + 2)) _ buf (uint-Fine 2 (start + 2) buf (omega (arith, h))) λ b.
        bind (peek_uint 2 (start + 4)) _ buf (uint-Fine 2 (start + 4) buf (omega (arith, h))) λ c.
          bind (peek_uint 2 (start + 6)) _ buf (uint-Fine 2 (start + 6) buf (omega (arith, h)))
            λ d. done _ buf
slot-Fine start false buf h =
    bind (peek_uint 2 start) _ buf (uint-Fine 2 start buf (omega (arith, h))) λ a.
      bind (peek_uint 2 (start + 2)) _ buf (uint-Fine 2 (start + 2) buf (omega (arith, h))) λ b.
        bind (peek_uint 8 (start + 4)) _ buf (uint-Fine 8 (start + 4) buf (omega (arith, h)))
          λ c. done _ buf

rest-Fine :
    (p : Page) (s : Slot) (key buf : List ℕ) (leaf : Bool)
    → p.is_leaf ≡ leaf
    → Fine buf (get_rest p s key buf)
unfolding get_rest
rest-Fine p s key buf true e = rw e (
    required (s.value_off + s.value_len) value_past_page _ buf λ h.
      bind (peek s.value_len s.value_off) _ buf (peek-Fine s.value_len s.value_off buf h)
        λ val. done _ buf)
rest-Fine p s key buf false e = rw e (done _ buf)

entry-Fine : (i : ℕ) (p : Page) (buf : List ℕ) → Fine buf (get_entry i p buf)
unfolding get_entry
entry-Fine i p buf =
    let start = header_size + i * slot_size p.is_leaf in
    required (start + slot_size p.is_leaf) slot_past_page _ buf λ room.
      bind (get_slot start p.is_leaf) _ buf (slot-Fine start p.is_leaf buf room) λ s.
        required (s.key_off + s.key_len) key_past_page _ buf λ h.
          bind (peek s.key_len s.key_off) _ buf (peek-Fine s.key_len s.key_off buf h)
            λ key. rest-Fine p s key buf p.is_leaf refl

entries-Fine : (n i : ℕ) (p : Page) (buf : List ℕ) → Fine buf (get_entries n i p buf)
unfolding get_entries
entries-Fine zero i p buf = done p buf
entries-Fine (suc n) i p buf =
    bind (get_entry i p) _ buf (entry-Fine i p buf) (λ q. entries-Fine n (i + 1) q buf)

if-Fine :
    {A : Type 0} (b : Bool) (m n : Read A) (buf : List ℕ)
    → Fine buf (m buf)
    → Fine buf (n buf)
    → Fine buf ((if b then m else n) buf)
if-Fine true m n buf h k = h
if-Fine false m n buf h k = k

parallel-Fine : (p : Page) (buf : List ℕ) → Fine buf (check_parallel p buf)
unfolding check_parallel
parallel-Fine p buf =
    if-Fine _ (fail keys_ne_values) (pure tt) buf (failed keys_ne_values buf) (done tt buf)

rightmost-Fine :
    (p : Page) (buf : List ℕ) (leaf : Bool) → p.is_leaf ≡ leaf → Fine buf (get_rightmost p buf)
unfolding get_rightmost get_child_id
rightmost-Fine p buf true e = rw e (done _ buf)
rightmost-Fine p buf false e =
    let last = header_size + p.num_keys * 12 in
    rw e (
      required (last + 12) rightmost_past_page _ buf λ h.
        bind (peek_uint 8 (last + 4)) _ buf (uint-Fine 8 (last + 4) buf (omega (arith, h)))
          λ child. done _ buf)

written-Fine : (magic : ℕ) (buf : List ℕ) → Fine buf (check_written magic buf)
unfolding check_written
written-Fine magic buf =
    if-Fine _ (fail empty_page) (pure tt) buf (failed empty_page buf) (done tt buf)

magic-Fine : (magic : ℕ) (buf : List ℕ) → Fine buf (check_page_magic magic buf)
unfolding check_page_magic
magic-Fine magic buf =
    if-Fine _ (pure tt) (fail bad_page_magic) buf (done tt buf) (failed bad_page_magic buf)

-- On any bytes that are long enough to hold the header's fields, 15 at least, `Decode` returns a
-- page or an error: it neither panics nor runs out of fuel, whatever the offsets and lengths in the
-- slots say.
pub decode_page-ne-panic :
    (buf : List ℕ) → 15 ≤ length buf → (decode_page buf ≢ panic) × (decode_page buf ≢ out_of_fuel)
unfolding decode_page get_page_data
decode_page-ne-panic buf h =
    let fine = bind (peek_uint 4 0) _ buf (uint-Fine 4 0 buf (omega (arith, h))) λ magic.
      bind (check_written magic) _ buf (written-Fine magic buf) λ _.
        bind (peek_uint 1 4) _ buf (uint-Fine 1 4 buf (omega (arith, h))) λ leaf.
          bind (check_page_magic magic) _ buf (magic-Fine magic buf) λ _.
            bind (peek_uint 2 5) _ buf (uint-Fine 2 5 buf (omega (arith, h))) λ num_keys.
              bind (peek_uint 8 7) _ buf (uint-Fine 8 7 buf (omega (arith, h))) λ next.
                bind (get_entries num_keys 0 _) _ buf (entries-Fine num_keys 0 _ buf) λ p.
                  bind (check_parallel p) _ buf (parallel-Fine p buf)
                    λ _. rightmost-Fine p buf p.is_leaf refl in
    (fine.no_panic, fine.no_fuel)
