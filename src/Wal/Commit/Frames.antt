-- ===== src/Wal/Commit/Frames.antt =====
-- The loop of `PutBlocks`: one frame for each block, one behind the other.
use dblock.Prelude.{
  take-append-drop, length-append, ℕ, zero, suc, ◌+◌, ◌*◌, ◌≤◌, ◌<◌, ◌≡◌, refl, ap, sym, ◌∙◌, some,
  List, [], ◌∷◌, ◌++◌, arith, leb, if◌then◌else◌, length, All,
}
use native.Mathlib.Nat.{add-zero}
use dblock.Prelude.Fault.{ok}
use dblock.Prelude.Exec.{>>=-ok, pure}
use dblock.Prelude.Map.{lookup, insert, lookup-insert, lookup-insert_self, lookup-insert_ne}
use dblock.MemoryFile.Slices.{overwrite, write_at-within, overwrite-overwrite, length-overwrite}
use dblock.Wal.{WalStorage, Block, frame_size}
use dblock.Wal.Commit.{is_empty, frame_header, put_frame, put_frames, write_wal, take_wal_id}
use dblock.Wal.Recover.Frames.{Frame, frame_bytes, frames_bytes, latest, length-frame_header}

-- The frames of a commit.
abbrev pub frames_of : List Block → List Frame
frames_of [] = []
frames_of (b ∷ rest) = record { last = is_empty rest; block = b } ∷ frames_of rest

-- The store with one more frame, at an offset.
abbrev pub framed : Frame → ℕ → WalStorage → WalStorage
framed f offset p = record p {
  wal = record p.wal { contents = overwrite offset (frame_bytes f) p.wal.contents };
  max_wal_id = p.max_wal_id + 1;
  wal_index = insert f.block.id p.max_wal_id p.wal_index;
  wal_offsets = insert p.max_wal_id offset p.wal_offsets;
  next_block_id = if leb p.next_block_id f.block.id then f.block.id + 1 else p.next_block_id;
}

abbrev pub framed_all : List Frame → ℕ → WalStorage → WalStorage
framed_all [] offset p = p
framed_all (f ∷ fs) offset p = framed_all fs (offset + frame_size p) (framed f offset p)

write_wal_lem :
    (buf : List ℕ) (offset : ℕ) (p : WalStorage)
    → offset ≤ length p.wal.contents
    → write_wal buf offset p ≡ (
      ok (length buf),
      record p { wal = record p.wal { contents = overwrite offset buf p.wal.contents } },
    )
unfolding write_wal
write_wal_lem buf offset p h = rw (write_at-within buf offset p.wal h)

put_frame_lem :
    (f : Frame) (offset : ℕ) (p : WalStorage)
    → offset ≤ length p.wal.contents
    → put_frame f.last f.block offset p ≡ (ok tt, framed f offset p)
unfolding put_frame
put_frame_lem f offset p h =
    let head = frame_header f.last f.block in
    let buf = f.block.buf in
    let taken : WalStorage = record p { max_wal_id = p.max_wal_id + 1 } in
    let headed : WalStorage = record taken {
      wal = record p.wal { contents = overwrite offset head p.wal.contents };
    } in
    let width : length head ≡ 24 = length-frame_header f.last f.block in
    let room : offset + 24 ≤ length headed.wal.contents =
      omega (arith, length-overwrite offset head p.wal.contents h, width) in
    let joined : overwrite (offset + 24) buf headed.wal.contents
        ≡ overwrite offset (head ++ buf) p.wal.contents =
      ap (λ n. overwrite (offset + n) buf headed.wal.contents) (sym width)
      ∙ overwrite-overwrite offset head buf p.wal.contents h in
    >>=-ok take_wal_id _ p {a = p.max_wal_id} {s' = taken} refl
    ∙ >>=-ok (write_wal head offset) _ taken (write_wal_lem head offset taken h)
    ∙ >>=-ok (write_wal buf (offset + 24)) _ headed (write_wal_lem buf (offset + 24) headed room)
    ∙ λ i. (
      ok tt,
      record p {
        wal = record p.wal { contents = joined i };
        max_wal_id = p.max_wal_id + 1;
        wal_index = insert f.block.id p.max_wal_id p.wal_index;
        wal_offsets = insert p.max_wal_id offset p.wal_offsets;
        next_block_id = if leb p.next_block_id f.block.id then f.block.id + 1 else p.next_block_id;
      },
    )

width_lem :
    (f : Frame) (width : ℕ) → 24 + length f.block.buf ≡ width → length (frame_bytes f) ≡ width
width_lem f width e = omega (
  arith,
  length-append (frame_header f.last f.block) f.block.buf,
  length-frame_header f.last f.block,
)

-- The loop of `PutBlocks`: where it ends, and the store that it leaves.
pub put_frames_lem :
    (blocks : List Block) (offset : ℕ) (p : WalStorage)
    → offset ≤ length p.wal.contents
    → All (λ b. length b.buf ≡ p.block_size) blocks
    → put_frames blocks offset p ≡ (
      ok (offset + length (frames_bytes (frames_of blocks))),
      framed_all (frames_of blocks) offset p,
    )
unfolding put_frames pure
put_frames_lem [] offset p h sizes = λ i. (ok (e i), p)
  where
    e : offset ≡ offset + 0
    e = omega arith
put_frames_lem (b ∷ rest) offset p h sizes =
    let f : Frame = record { last = is_empty rest; block = b } in
    let next = framed f offset p in
    let width : length (frame_bytes f) ≡ frame_size p =
      width_lem f (frame_size p) (omega (arith, sizes.0)) in
    let end : offset + frame_size p + length (frames_bytes (frames_of rest))
        ≡ offset + length (frames_bytes (frames_of (b ∷ rest))) =
      omega (arith, width, length-append (frame_bytes f) (frames_bytes (frames_of rest))) in
    >>=-ok (put_frame (is_empty rest) b offset) _ p (put_frame_lem f offset p h)
    ∙ >>=-ok _ _ next {a = frame_size p} {s' = next} refl
    ∙ put_frames_lem rest (offset + frame_size p) next
        (omega (arith, width, length-overwrite offset (frame_bytes f) p.wal.contents h)) sizes.1
    ∙ λ i. (ok (end i), framed_all (frames_of rest) (offset + frame_size p) next)

-- What a commit of the frames `fs` at `offset` leaves in the store.
pub record Appended (fs : List Frame) (offset : ℕ) (p q : WalStorage) : Type 0 where
  pub contents : q.wal.contents ≡ overwrite offset (frames_bytes fs) p.wal.contents
  pub index : (id : ℕ) → lookup id q.wal_index ≡ latest id p.max_wal_id fs (lookup id p.wal_index)
  pub entries :
      (k : ℕ)
      → k < length fs
      → lookup (p.max_wal_id + k) q.wal_offsets ≡ some (offset + k * frame_size p)
  pub older : (n : ℕ) → n < p.max_wal_id → lookup n q.wal_offsets ≡ lookup n p.wal_offsets
  pub max_wal_id : q.max_wal_id ≡ p.max_wal_id + length fs
  pub main : q.main ≡ p.main
  pub block_size : q.block_size ≡ p.block_size
  pub tx_using_wal_ids : q.tx_using_wal_ids ≡ p.tx_using_wal_ids
  pub uncounted : q.committed_tx_count ≡ p.committed_tx_count

framed_all-older :
    (fs : List Frame) (offset : ℕ) (p : WalStorage) (n : ℕ)
    → n < p.max_wal_id
    → lookup n (framed_all fs offset p).wal_offsets ≡ lookup n p.wal_offsets
framed_all-older [] offset p n h = refl
framed_all-older (f ∷ fs) offset p n h =
    framed_all-older fs (offset + frame_size p) (framed f offset p) n (omega arith)
    ∙ lookup-insert_ne p.max_wal_id n offset p.wal_offsets (λ e. absurd (omega arith))

framed_all-entries :
    (f : Frame) (fs : List Frame) (offset : ℕ) (p : WalStorage) (k : ℕ)
    → k < length (f ∷ fs)
    → lookup (p.max_wal_id + k) (framed_all (f ∷ fs) offset p).wal_offsets
      ≡ some (offset + k * frame_size p)
framed_all-entries f fs offset p zero h = rw add-zero (
    framed_all-older fs (offset + frame_size p) (framed f offset p) p.max_wal_id (omega arith)
    ∙ lookup-insert_self p.max_wal_id offset p.wal_offsets
    ∙ ap some (omega arith))
framed_all-entries f [] offset p (suc k) h = absurd (omega arith)
framed_all-entries f (g ∷ fs) offset p (suc k) h =
    ap (λ n. lookup n (framed_all (f ∷ g ∷ fs) offset p).wal_offsets) (omega arith)
    ∙ framed_all-entries g fs (offset + frame_size p) (framed f offset p) k (omega arith)
    ∙ ap some (omega arith)

pub framed_all-Appended :
    (fs : List Frame) (offset : ℕ) (p : WalStorage)
    → offset ≤ length p.wal.contents
    → All (λ f. length f.block.buf ≡ p.block_size) fs
    → Appended fs offset p (framed_all fs offset p)
framed_all-Appended [] offset p h sizes = record {
  contents = sym (rw add-zero (take-append-drop offset p.wal.contents));
  index = λ id. refl;
  entries = λ k small. absurd (omega arith);
  older = λ n h. refl;
  max_wal_id = omega arith;
  main = refl;
  block_size = refl;
  tx_using_wal_ids = refl;
  uncounted = refl;
}
framed_all-Appended (f ∷ fs) offset p h sizes =
    let next = framed f offset p in
    let width : length (frame_bytes f) ≡ frame_size p =
      width_lem f (frame_size p) (omega (arith, sizes.0)) in
    let r =
      framed_all-Appended fs (offset + frame_size p) next
        (omega (arith, width, length-overwrite offset (frame_bytes f) p.wal.contents h)) sizes.1 in
    record {
      contents =
          r.contents
          ∙ ap (λ n. overwrite (offset + n) (frames_bytes fs) next.wal.contents) (sym width)
          ∙ overwrite-overwrite offset (frame_bytes f) (frames_bytes fs) p.wal.contents h;
      index = λ id.
          r.index id
          ∙ ap (latest id (p.max_wal_id + 1) fs)
              (lookup-insert f.block.id id p.max_wal_id p.wal_index);
      entries = framed_all-entries f fs offset p;
      older = framed_all-older (f ∷ fs) offset p;
      max_wal_id = omega (arith, r.max_wal_id);
      main = r.main;
      block_size = r.block_size;
      tx_using_wal_ids = r.tx_using_wal_ids;
      uncounted = r.uncounted;
    }
