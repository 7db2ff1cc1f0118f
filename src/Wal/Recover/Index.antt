-- ===== src/Wal/Recover/Index.antt =====
-- What the loop of `Recover` holds after a list of frames, and what it has published.
use dblock.Prelude.{
  ℕ, ◌+◌, ◌*◌, ◌≡◌, refl, sym, ◌∙◌, Bool, true, false, Option, none, some, List, [], ◌∷◌, arith,
  ltb, if◌then◌else◌, length, All,
}
use mathlib.Core.Path.{subst}
use dblock.Prelude.Map.{Map, lookup, insert, lookup-insert}
use dblock.Wal.Commit.{commit_marker}
use dblock.Wal.Recover.{Scan, start, publish, accept}
use dblock.Wal.Recover.Frames.{Frame, IsCommitted, latest}
use dblock.Wal.Recover.Scanning.{scan_all, offset-accept}

or_else : Option ℕ → Option ℕ → Option ℕ
or_else none o = o
or_else (some n) o = some n

lookup-publish :
    (k : ℕ) (pending m : Map ℕ)
    → lookup k (publish pending m) ≡ or_else (lookup k pending) (lookup k m)
unfolding publish lookup or_else
lookup-publish k [] m = refl
lookup-publish k ((j, v) ∷ pending) m =
    ground (arith, lookup-insert j k v (publish pending m), lookup-publish k pending m)

-- Whatever is published was pending once, and pending entries stay.
record Covered (s : Scan) : Type 0 where
  index : (id : ℕ) → lookup id s.pending_index ≡ none → lookup id s.wal_index ≡ none
  offsets : (n : ℕ) → lookup n s.pending_offsets ≡ none → lookup n s.wal_offsets ≡ none

-- All that is pending is published.
pub record Synced (s : Scan) : Type 0 where
  pub index : (id : ℕ) → lookup id s.wal_index ≡ lookup id s.pending_index
  pub offsets : (n : ℕ) → lookup n s.wal_offsets ≡ lookup n s.pending_offsets
  pub ends : s.last_commit_end ≡ s.offset

module _ (width id : ℕ) (s : Scan) where
  accept-Covered : (last : Bool) → Covered s → Covered (accept width id (commit_marker last) s)
  unfolding accept or_else
  accept-Covered true c = record {
    index = λ j h. ground (
      arith,
      lookup-publish j (insert id s.max_wal_id s.pending_index) s.wal_index,
      lookup-insert id j s.max_wal_id s.pending_index,
      c.index j,
    );
    offsets = λ j h. ground (
      arith,
      lookup-publish j (insert s.max_wal_id s.offset s.pending_offsets) s.wal_offsets,
      lookup-insert s.max_wal_id j s.offset s.pending_offsets,
      c.offsets j,
    );
  }
  accept-Covered false c = record {
    index = λ j h. ground (arith, lookup-insert id j s.max_wal_id s.pending_index, c.index j);
    offsets =
        λ j h. ground (arith, lookup-insert s.max_wal_id j s.offset s.pending_offsets, c.offsets j);
  }

  accept-Synced : Covered s → Synced (accept width id 1 s)
  unfolding accept or_else
  accept-Synced c = record {
    index = λ j. ground (
      arith,
      lookup-publish j (insert id s.max_wal_id s.pending_index) s.wal_index,
      lookup-insert id j s.max_wal_id s.pending_index,
      c.index j,
    );
    offsets = λ j. ground (
      arith,
      lookup-publish j (insert s.max_wal_id s.offset s.pending_offsets) s.wal_offsets,
      lookup-insert s.max_wal_id j s.offset s.pending_offsets,
      c.offsets j,
    );
    ends = refl;
  }

scan_all-Synced :
    (width : ℕ) (f : Frame) (fs : List Frame) (s : Scan)
    → IsCommitted (f ∷ fs)
    → Covered s
    → Synced (scan_all width (f ∷ fs) s)
scan_all-Synced width f [] s h c =
    subst (λ b. Synced (accept width f.block.id (commit_marker b) s)) (sym h)
      (accept-Synced width f.block.id s c)
scan_all-Synced width f (g ∷ fs) s h c =
    scan_all-Synced width g fs _ h (accept-Covered width f.block.id s f.last c)

-- After complete commits all that was read is published.
pub scan_all-start_Synced :
    (width : ℕ) (fs : List Frame) → IsCommitted fs → Synced (scan_all width fs start)
scan_all-start_Synced width [] h = record { index = λ j. refl; offsets = λ j. refl; ends = refl }
scan_all-start_Synced width (f ∷ fs) h =
    scan_all-Synced width f fs start h (record { index = λ j e. e; offsets = λ j e. e })

-- Frames with no commit marker publish nothing.
pub record SamePublished (s t : Scan) : Type 0 where
  pub index : t.wal_index ≡ s.wal_index
  pub offsets : t.wal_offsets ≡ s.wal_offsets
  pub ends : t.last_commit_end ≡ s.last_commit_end

accept-SamePublished : (width id : ℕ) (s : Scan) → SamePublished s (accept width id 0 s)
unfolding accept
accept-SamePublished width id s = record { index = refl; offsets = refl; ends = refl }

pub scan_all-SamePublished :
    (width : ℕ) (fs : List Frame) (s : Scan)
    → All (λ f. f.last ≡ false) fs
    → SamePublished s (scan_all width fs s)
scan_all-SamePublished width [] s h = record { index = refl; offsets = refl; ends = refl }
scan_all-SamePublished width (f ∷ fs) s h =
    let t = accept width f.block.id (commit_marker f.last) s in
    let step : SamePublished s t =
      subst (λ b. SamePublished s (accept width f.block.id (commit_marker b) s)) (sym h.0)
        (accept-SamePublished width f.block.id s) in
    let rest = scan_all-SamePublished width fs t h.1 in
    record {
      index = rest.index ∙ step.index;
      offsets = rest.offsets ∙ step.offsets;
      ends = rest.ends ∙ step.ends;
    }

-- The pending entries, frame by frame.
max_wal_id-accept :
    (width id marker : ℕ) (s : Scan) → (accept width id marker s).max_wal_id ≡ s.max_wal_id + 1
unfolding accept
max_wal_id-accept width id marker s = ground arith

pending_index-accept :
    (width id marker : ℕ) (s : Scan)
    → (accept width id marker s).pending_index ≡ insert id s.max_wal_id s.pending_index
unfolding accept
pending_index-accept width id marker s = ground arith

pub pending_index-scan_all :
    (width id : ℕ) (fs : List Frame) (s : Scan)
    → lookup id (scan_all width fs s).pending_index
      ≡ latest id s.max_wal_id fs (lookup id s.pending_index)
pending_index-scan_all width id [] s = refl
pending_index-scan_all width id (f ∷ fs) s =
    pending_index-scan_all width id fs _
    ∙ rw (
      max_wal_id-accept width f.block.id (commit_marker f.last) s,
      pending_index-accept width f.block.id (commit_marker f.last) s,
      lookup-insert f.block.id id s.max_wal_id s.pending_index,
    )

pub max_wal_id-scan_all :
    (width : ℕ) (fs : List Frame) (s : Scan)
    → (scan_all width fs s).max_wal_id ≡ s.max_wal_id + length fs
max_wal_id-scan_all width [] s = omega arith
max_wal_id-scan_all width (f ∷ fs) s = omega (
  arith,
  max_wal_id-scan_all width fs (accept width f.block.id (commit_marker f.last) s),
  max_wal_id-accept width f.block.id (commit_marker f.last) s,
)

-- Frame number `n` starts at `n * width`, and every frame that was read has an entry.
pub record Placed (width : ℕ) (s : Scan) : Type 0 where
  pub offset : s.offset ≡ s.max_wal_id * width
  pub entries :
      (n : ℕ) → lookup n s.pending_offsets ≡ (if ltb n s.max_wal_id then some (n * width) else none)

pending_offsets-accept :
    (width id marker : ℕ) (s : Scan)
    → (accept width id marker s).pending_offsets ≡ insert s.max_wal_id s.offset s.pending_offsets
unfolding accept
pending_offsets-accept width id marker s = ground arith

accept-Placed :
    (width id marker : ℕ) (s : Scan) → Placed width s → Placed width (accept width id marker s)
accept-Placed width id marker s h = record {
  offset =
      rw (offset-accept width id marker s, max_wal_id-accept width id marker s)
        (omega (arith, h.offset));
  entries = λ n.
      rw
        (
          pending_offsets-accept width id marker s,
          max_wal_id-accept width id marker s,
          lookup-insert s.max_wal_id n s.offset s.pending_offsets,
          h.entries n,
        )
        (ground (arith, h.offset));
}

pub scan_all-Placed :
    (width : ℕ) (fs : List Frame) (s : Scan) → Placed width s → Placed width (scan_all width fs s)
scan_all-Placed width [] s h = h
scan_all-Placed width (f ∷ fs) s h =
    scan_all-Placed width fs _ (accept-Placed width f.block.id (commit_marker f.last) s h)
