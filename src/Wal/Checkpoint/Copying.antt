-- ===== src/Wal/Checkpoint/Copying.antt =====
-- internal/storage/storage.go: the first loop of `Checkpoint`, which copies frames over blocks of main.
use mathlib.Core.Option.{some-injective}
use dblock.Prelude.{
  ℕ, ◌+◌, ◌*◌, ◌≤◌, ◌<◌, ◌≡◌, ◌≢◌, ◌⊎◌, refl, ap, sym, ◌∙◌, some, List, [], ◌∷◌, ltb, leb, All,
  length, arith, inl, inr, Bool-cases, Option-cases, ltb→lt, le_of_ltb, lt_of_leb, le→ltb,
  length-take, length-drop, drop,
}
use dblock.Prelude.Fault.{ok}
use dblock.Prelude.Exec.{pure, >>=-ok}
use dblock.Prelude.Map.{Map, lookup}
use dblock.MemoryFile.{size}
use dblock.MemoryFile.Slices.{
  slice, overwrite, padded, read_block-slice, write_at-overwrite, slice-apart, length-written,
}
use dblock.Wal.{WalStorage, frame_header_size, main_block, get_block, offset_of}
use dblock.Wal.Reading.{get_block-main, get_block-wal, get_block-newer}
use dblock.Wal.Visible.{IsIndexed, Stored, row_below}
use dblock.Wal.Checkpoint.{gate_of, copy_frame, copy_frames, write_main, read_wal}
use dblock.Wal.Checkpoint.Gate.{gate_of-le}

-- A block within main is its slice.
main_block-slice :
    (p : WalStorage) (id : ℕ)
    → 0 < p.block_size
    → id * p.block_size + p.block_size ≤ length p.main.contents
    → main_block p id ≡ ok (slice (id * p.block_size) p.block_size p.main.contents)
unfolding main_block size
main_block-slice p id sized fits =
    rw (le→ltb (length p.main.contents) (id * p.block_size + p.block_size) fits)
      (read_block-slice p.main p.block_size (id * p.block_size) sized fits)

-- A block that main gives lies within it.
main_block-within :
    (p : WalStorage) (id : ℕ) (buf : List ℕ)
    → main_block p id ≡ ok buf
    → id * p.block_size + p.block_size ≤ length p.main.contents
unfolding main_block size
main_block-within p id buf h =
    elim (Bool-cases (ltb (length p.main.contents) (id * p.block_size + p.block_size))) [
      | inl short ↦ absurd (ground (arith, rw short at h))
      | inr fits ↦ le_of_ltb _ _ fits
    ]

-- The store with `new` written to the place of a block in main.
abbrev with_block : WalStorage → ℕ → List ℕ → WalStorage
with_block p id new = record p {
  main = record p.main {
    contents = overwrite (id * p.block_size) new (padded (id * p.block_size) p.main.contents);
  };
}

apart : (id other w : ℕ) → id ≢ other → (id * w + w ≤ other * w) ⊎ (other * w + w ≤ id * w)
apart id other w ne = elim (Bool-cases (ltb id other)) [
  | inl lt ↦ inl (row_below id other w (ltb→lt id other lt))
  | inr ge ↦ inr (row_below other id w (omega (arith, le_of_ltb id other ge, ne)))
]

-- Writing a block leaves the other blocks of main.
main_block-with_block :
    (p : WalStorage) (id other : ℕ) (new buf : List ℕ)
    → 0 < p.block_size
    → length new ≡ p.block_size
    → id ≢ other
    → main_block p id ≡ ok buf
    → main_block (with_block p other new) id ≡ ok buf
main_block-with_block p id other new buf sized whole ne h =
    let w = p.block_size in
    let c = p.main.contents in
    let fits = main_block-within p id buf h in
    let places : (id * w + w ≤ other * w) ⊎ (other * w + length new ≤ id * w) =
      rw whole (apart id other w ne) in
    main_block-slice (with_block p other new) id sized
      (omega (arith, fits, length-written (other * w) new c))
    ∙ ap ok (slice-apart (id * w) w (other * w) new c places sized fits)
    ∙ sym (main_block-slice p id sized fits)
    ∙ h

module _ (p : WalStorage) (inv : IsIndexed p) where
  with_block-IsIndexed : (id : ℕ) (new : List ℕ) → IsIndexed (with_block p id new)
  with_block-IsIndexed id new = record {
    sized = inv.sized;
    ends = inv.ends;
    indexed = λ i n e.
        let s = inv.indexed i n e in
        record { below = s.below; offset = s.offset; at = s.at; fits = s.fits };
  }

  abbrev frame_block : (n : ℕ) → Stored p n → List ℕ
  frame_block n s = slice (s.offset + frame_header_size) p.block_size p.wal.contents

  length-frame_block : (n : ℕ) (s : Stored p n) → length (frame_block n s) ≡ p.block_size
  length-frame_block n s = omega (
    arith,
    s.fits,
    inv.ends,
    length-take p.block_size (drop (s.offset + frame_header_size) p.wal.contents),
    length-drop (s.offset + frame_header_size) p.wal.contents,
  )

  -- The copy succeeds, and writes the block of the frame.
  copy_frame_lem :
      (id n : ℕ) (s : Stored p n)
      → copy_frame id n p ≡ (ok p.block_size, with_block p id (frame_block n s))
  unfolding copy_frame read_wal write_main offset_of
  copy_frame_lem id n s =
      >>=-ok (read_wal p.block_size (offset_of p n + frame_header_size))
        (λ buf. write_main buf (id * p.block_size)) p {a = frame_block n s} {s' = p}
        (rw (s.at, offset_of)
          (ap (λ r. (r, p))
            (read_block-slice p.wal p.block_size (s.offset + frame_header_size) inv.sized
              (omega (arith, s.fits, inv.ends)))))
      ∙ rw (write_at-overwrite (frame_block n s) (id * p.block_size) p.main)
          (ap (λ k. (ok k, with_block p id (frame_block n s))) (length-frame_block n s))

  -- A reader whose watermark is above the frame reads no block from the place that the copy goes to.
  get_block-with_block :
      (id other n w : ℕ) (new buf : List ℕ)
      → length new ≡ p.block_size
      → lookup other p.wal_index ≡ some n
      → n < w
      → get_block p id w ≡ ok buf
      → get_block (with_block p other new) id w ≡ ok buf
  get_block-with_block id other n w new buf whole logged older h =
      let q = with_block p other new in
      elim (Option-cases (lookup id p.wal_index)) [
        | inl gone ↦
            let ne : id ≢ other =
              λ e. absurd (ground (arith, sym gone ∙ ap (λ i. lookup i p.wal_index) e ∙ logged)) in
            get_block-main q id w gone
            ∙ main_block-with_block p id other new buf inv.sized whole ne
                (sym (get_block-main p id w gone) ∙ h)
        | inr (m, there) ↦ elim (Bool-cases (ltb m w)) [
          | inl below ↦
              let s = inv.indexed id m there in
              get_block-wal q id w there (ltb→lt m w below) s.at
              ∙ sym (get_block-wal p id w there (ltb→lt m w below) s.at)
              ∙ h
          | inr above ↦
              let newer = le_of_ltb m w above in
              let ne : id ≢ other = λ e.
                let same =
                  some-injective m n (sym there ∙ ap (λ i. lookup i p.wal_index) e ∙ logged) in
                absurd (omega (arith, same, newer, older)) in
              get_block-newer q id w there newer
              ∙ main_block-with_block p id other new buf inv.sized whole ne
                  (sym (get_block-newer p id w there newer) ∙ h)
        ]
      ]

-- The block has the frame in the index.
abbrev pub IsEntry : Map ℕ → ℕ × ℕ → Type 0
IsEntry index e = lookup e.0 index ≡ some e.1

copying :
    (entries : Map ℕ) (gate : ℕ) (p : WalStorage) (w id : ℕ) (buf : List ℕ)
    → IsIndexed p
    → All (IsEntry p.wal_index) entries
    → gate ≤ w
    → get_block p id w ≡ ok buf
    → (q : WalStorage) × (copy_frames entries gate p ≡ (ok tt, q)) × (get_block q id w ≡ ok buf)
unfolding copy_frames pure
copying [] gate p w id buf inv h under seen = (p, refl, seen)
copying ((other, n) ∷ entries) gate p w id buf inv h under seen = elim (Bool-cases (leb gate n)) [
  | inl kept ↦ rw kept (copying entries gate p w id buf inv h.1 under seen)
  | inr moves ↦
      let s = inv.indexed other n h.0 in
      let new = frame_block p inv n s in
      let older : n < w = omega (arith, lt_of_leb gate n moves, under) in
      let still =
        get_block-with_block p inv id other n w new buf (length-frame_block p inv n s) h.0 older
          seen in
      let (q, rest, end) =
        copying entries gate (with_block p other new) w id buf
          (with_block-IsIndexed p inv other new) h.1 under still in
      (
        q,
        rw moves (
            >>=-ok (copy_frame other n) (λ _. copy_frames entries gate) p
              (copy_frame_lem p inv other n s)
            ∙ rest),
        end,
      )
]

-- If every entry of the index is a frame within the log, then copying its frames below the gate into
-- main, in any order, succeeds, and every block that an active transaction could read it reads as
-- before: no copy goes over a block of main that an active transaction reads there.
pub copying_keeps_reads :
    (p : WalStorage) (entries : Map ℕ) (tx w id : ℕ) (buf : List ℕ)
    → IsIndexed p
    → All (IsEntry p.wal_index) entries
    → lookup tx p.tx_using_wal_ids ≡ some w
    → get_block p id w ≡ ok buf
    → (q : WalStorage) × (copy_frames entries (gate_of p.tx_using_wal_ids p.max_wal_id) p
        ≡ (ok tt, q))
      × (get_block q id w ≡ ok buf)
copying_keeps_reads p entries tx w id buf inv h active seen =
    copying entries (gate_of p.tx_using_wal_ids p.max_wal_id) p w id buf inv h
      (gate_of-le p.tx_using_wal_ids p.max_wal_id tx w active) seen
