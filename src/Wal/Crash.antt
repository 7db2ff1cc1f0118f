-- ===== src/Wal/Crash.antt =====
-- A commit that a crash cuts off, and one that ends: what recovery makes of the log.
use dblock.Prelude.{
  ℕ, ◌+◌, ◌<◌, ◌≡◌, refl, ap, sym, ◌∙◌, none, List, [], ◌∷◌, ◌++◌, arith, length, take, All,
  All-append, length-append, append-nil,
}
use dblock.Prelude.Fault.{ok}
use dblock.Wal.{WalStorage, Block, get_block, main_block}
use dblock.Wal.Commit.{put_blocks}
use dblock.Wal.Commit.Frames.{frames_of}
use dblock.Wal.Commit.Cut.{IsBlock, frames_of-IsFrame, sizes_of, take-past, cut}
use dblock.Wal.Commit.Putting.{Committed, put_blocks_lem}
use dblock.Wal.Recover.{recover}
use dblock.Wal.Recover.Frames.{
  Frame, frames_bytes, IsFrame, IsCommitted, content, frames_bytes-append,
}
use dblock.Wal.Recover.Torn.{IsTorn, committed_block, known, recover_torn}
use dblock.MemoryFile.Slices.{overwrite, overwrite-end}

-- The log holds exactly the frames `fs`, of complete commits.
pub record IsLog (p : WalStorage) (fs : List Frame) : Type 0 where
  pub sized : 0 < p.block_size
  pub contents : p.wal.contents ≡ frames_bytes fs
  pub ends : p.wal_end ≡ length p.wal.contents
  pub good : All (IsFrame p.block_size) fs
  pub committed : IsCommitted fs

-- What is left of the log when only `k` bytes of the last commit reached it.
abbrev pub crashed : WalStorage → WalStorage → ℕ → WalStorage
crashed p q k = record q {
  wal = record q.wal { contents = take (length p.wal.contents + k) q.wal.contents };
}

frames_of-IsCommitted : (blocks : List Block) → IsCommitted (frames_of blocks)
frames_of-IsCommitted [] = tt
frames_of-IsCommitted (b ∷ []) = refl
frames_of-IsCommitted (b ∷ c ∷ rest) = frames_of-IsCommitted (c ∷ rest)

IsCommitted-append : (fs gs : List Frame) → IsCommitted fs → IsCommitted gs → IsCommitted (fs ++ gs)
IsCommitted-append [] gs p q = q
IsCommitted-append (f ∷ []) [] p q = p
IsCommitted-append (f ∷ []) (g ∷ gs) p q = q
IsCommitted-append (f ∷ e ∷ fs) gs p q = IsCommitted-append (e ∷ fs) gs p q

-- `main_block` reads main and the block size alone.
pub main_block-same :
    (p q : WalStorage) (id : ℕ)
    → q.main ≡ p.main
    → q.block_size ≡ p.block_size
    → main_block q id ≡ main_block p id
unfolding main_block
main_block-same p q id main size =
    λ i. main_block (record p { main = main i; block_size = size i }) id

committed_block-same :
    (p q : WalStorage) (fs : List Frame) (id : ℕ)
    → q.main ≡ p.main
    → q.block_size ≡ p.block_size
    → committed_block q fs id ≡ committed_block p fs id
committed_block-same p q fs id main size =
    ap (λ u. known u (content id fs none)) (main_block-same p q id main size)

module _ (p : WalStorage) (fs : List Frame) (b : Block) (rest : List Block) (log : IsLog p fs)
    (blocks : All (IsBlock p.block_size) (b ∷ rest)) where
  abbrev new : List Frame
  new = frames_of (b ∷ rest)

  put : (q : WalStorage) × (put_blocks (b ∷ rest) p ≡ (ok tt, q)) × Committed (b ∷ rest) p q
  put = put_blocks_lem b rest p (omega (arith, log.ends)) (sizes_of p.block_size (b ∷ rest) blocks)

  -- The log after the commit: the old frames, then the new ones.
  put_contents :
      (q : WalStorage)
      → Committed (b ∷ rest) p q
      → q.wal.contents ≡ p.wal.contents ++ frames_bytes new
  put_contents q c =
      c.appended.contents
      ∙ ap (λ o. overwrite o (frames_bytes new) p.wal.contents) log.ends
      ∙ overwrite-end (frames_bytes new) p.wal.contents

  put-IsLog : (q : WalStorage) → Committed (b ∷ rest) p q → IsLog q (fs ++ new)
  put-IsLog q c = record {
    sized = rw c.appended.block_size log.sized;
    contents =
        put_contents q c
        ∙ ap (λ t. t ++ frames_bytes new) log.contents
        ∙ sym (frames_bytes-append fs new);
    ends =
        c.wal_end
        ∙ omega (
          arith,
          log.ends,
          ap length (put_contents q c),
          length-append p.wal.contents (frames_bytes new),
        );
    good =
        rw c.appended.block_size
          (All-append _ fs new log.good (frames_of-IsFrame p.block_size (b ∷ rest) blocks));
    committed = IsCommitted-append fs new log.committed (frames_of-IsCommitted (b ∷ rest));
  }

  -- The log that a crash leaves is a torn one.
  crashed-IsTorn :
      (q : WalStorage) (k : ℕ) (c : Committed (b ∷ rest) p q)
      → (small : k < length (frames_bytes new))
      → IsTorn
          (crashed p q k)
          fs
          (cut p.block_size k (b ∷ rest) blocks small).pend
          (cut p.block_size k (b ∷ rest) blocks small).torn
  crashed-IsTorn q k c small =
      let piece = cut p.block_size k (b ∷ rest) blocks small in
      record {
        sized = rw c.appended.block_size log.sized;
        contents =
            ap (take (length p.wal.contents + k)) (put_contents q c)
            ∙ take-past (length p.wal.contents + k) p.wal.contents (frames_bytes new) (omega arith)
            ∙ ap (λ j. p.wal.contents ++ take j (frames_bytes new)) (omega arith)
            ∙ ap (λ t. t ++ take k (frames_bytes new)) log.contents
            ∙ ap (λ t. frames_bytes fs ++ t) piece.split;
        good = rw c.appended.block_size log.good;
        good_pend = rw c.appended.block_size piece.good;
        committed = log.committed;
        unmarked = piece.unmarked;
        short = rw c.appended.block_size piece.short;
      }

-- On a log that holds complete commits, with its end where the store has it, a commit of one or
-- more blocks of the store's block size succeeds. If only its first `k` bytes reach the log, short
-- of all of them, recovery succeeds and shows every block as before the commit: the content of its
-- last frame of the old log, else the block of main.
pub crash_before_end :
    (p : WalStorage) (fs : List Frame) (b : Block) (rest : List Block) (k : ℕ)
    → IsLog p fs
    → All (IsBlock p.block_size) (b ∷ rest)
    → k < length (frames_bytes (frames_of (b ∷ rest)))
    → (q r : WalStorage) × (put_blocks (b ∷ rest) p ≡ (ok tt, q))
      × (recover (crashed p q k) ≡ ok r)
      × ((id : ℕ) → get_block r id r.max_wal_id ≡ committed_block p fs id)
crash_before_end p fs b rest k log blocks small =
    let (q, done, c) = put p fs b rest log blocks in
    let (r, recovered, reads, _) =
      recover_torn (crashed p q k) fs _ _ (crashed-IsTorn p fs b rest log blocks q k c small) in
    (
      q,
      r,
      done,
      recovered,
      λ id.
          reads id
          ∙ committed_block-same p (crashed p q k) fs id c.appended.main c.appended.block_size,
    )

-- On a log that holds complete commits, with its end where the store has it, a commit of one or
-- more blocks of the store's block size succeeds and leaves such a log again, with the new frames
-- behind the old ones. Recovery from it succeeds, and shows for every block the content of its last
-- frame, of the new commit or an older one, else the block of main.
pub commit_is_durable :
    (p : WalStorage) (fs : List Frame) (b : Block) (rest : List Block)
    → IsLog p fs
    → All (IsBlock p.block_size) (b ∷ rest)
    → (q r : WalStorage) × (put_blocks (b ∷ rest) p ≡ (ok tt, q))
      × IsLog q (fs ++ frames_of (b ∷ rest))
      × (recover q ≡ ok r)
      × ((id : ℕ) → get_block r id r.max_wal_id ≡ committed_block p (fs ++ frames_of (b ∷ rest)) id)
commit_is_durable p fs b rest log blocks =
    let (q, done, c) = put p fs b rest log blocks in
    let after = put-IsLog p fs b rest log blocks q c in
    let (r, recovered, reads, _) = recover_torn q (fs ++ frames_of (b ∷ rest)) [] [] (record {
      sized = after.sized;
      contents = after.contents ∙ sym (append-nil _);
      good = after.good;
      good_pend = tt;
      committed = after.committed;
      unmarked = tt;
      short = omega arith;
    }) in
    (
      q,
      r,
      done,
      after,
      recovered,
      λ id.
          reads id
          ∙ committed_block-same p q (fs ++ frames_of (b ∷ rest)) id c.appended.main
              c.appended.block_size,
    )
