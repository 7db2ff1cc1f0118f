-- ===== src/Wal/Commit/Putting.antt =====
-- internal/storage/storage.go: `PutBlocks` on blocks of the right size.
use dblock.Prelude.{ℕ, ◌+◌, ◌≤◌, ◌≡◌, refl, ap, ◌∙◌, List, [], ◌∷◌, arith, length, All}
use dblock.Prelude.Fault.{ok}
use dblock.Prelude.Exec.{>>=-ok}
use dblock.MemoryFile.{sync}
use dblock.Wal.{WalStorage, Block}
use dblock.Wal.Commit.{put_frames, wal_end_of, put_blocks, adopt_size, check_sizes, sync_wal}
use dblock.Wal.Recover.Frames.{frames_bytes}
use dblock.Wal.Commit.Frames.{frames_of, framed_all, Appended, put_frames_lem, framed_all-Appended}

-- `PutBlocks` where every block has the store's block size.
sizes_pass :
    (blocks : List Block) (p : WalStorage)
    → All (λ b. length b.buf ≡ p.block_size) blocks
    → check_sizes blocks p ≡ (ok tt, p)
unfolding check_sizes
sizes_pass [] p h = refl
sizes_pass (b ∷ rest) p h = ground (arith, sizes_pass rest p h.1)

All-frames_of :
    (n : ℕ) (blocks : List Block)
    → All (λ b. length b.buf ≡ n) blocks
    → All (λ f. length f.block.buf ≡ n) (frames_of blocks)
All-frames_of n [] h = tt
All-frames_of n (b ∷ rest) h = (h.0, All-frames_of n rest h.1)

abbrev closed : ℕ → WalStorage → WalStorage
closed offset p = record p { wal_end = offset; committed_tx_count = p.committed_tx_count + 1 }

-- The store after a commit: the frames are written at the log's end, which moves behind them.
pub record Committed (blocks : List Block) (p q : WalStorage) : Type 0 where
  pub appended :
      Appended
        (frames_of blocks)
        p.wal_end
        p
        (record q { committed_tx_count = p.committed_tx_count })
  pub wal_end : q.wal_end ≡ p.wal_end + length (frames_bytes (frames_of blocks))
  pub counted : q.committed_tx_count ≡ p.committed_tx_count + 1

pub put_blocks_lem :
    (b : Block) (rest : List Block) (p : WalStorage)
    → p.wal_end ≤ length p.wal.contents
    → All (λ c. length c.buf ≡ p.block_size) (b ∷ rest)
    → (q : WalStorage) × (put_blocks (b ∷ rest) p ≡ (ok tt, q)) × Committed (b ∷ rest) p q
unfolding put_blocks
put_blocks_lem b rest p h sizes =
    let fs = frames_of (b ∷ rest) in
    let end = p.wal_end + length (frames_bytes fs) in
    let q = framed_all fs p.wal_end p in
    let r = framed_all-Appended fs p.wal_end p h (All-frames_of p.block_size (b ∷ rest) sizes) in
    (
      closed end q,
      >>=-ok (adopt_size b) _ p {a = tt} {s' = p} (ground (arith, sizes.0))
          ∙ >>=-ok (check_sizes (b ∷ rest)) _ p (sizes_pass (b ∷ rest) p sizes)
          ∙ >>=-ok wal_end_of _ p {a = p.wal_end} {s' = p} refl
          ∙ >>=-ok (put_frames (b ∷ rest) p.wal_end) _ p
              (put_frames_lem (b ∷ rest) p.wal_end p h sizes)
          ∙ >>=-ok sync_wal _ q {a = tt} {s' = q} (unfold sync_wal sync in refl),
      record {
        appended = record {
          contents = r.contents;
          index = r.index;
          entries = r.entries;
          older = r.older;
          max_wal_id = r.max_wal_id;
          main = r.main;
          block_size = r.block_size;
          tx_using_wal_ids = r.tx_using_wal_ids;
          uncounted = refl;
        };
        wal_end = refl;
        counted = ap (λ n. n + 1) r.uncounted;
      },
    )
