-- ===== src/Pager/Root.antt =====
-- internal/pager.go: block 0, which the root page and the metadata share.
use dblock.Prelude.{
  ℕ, ◌≡◌, refl, ap, sym, ◌∙◌, some, List, [], ◌++◌, arith, length, length-append, take-append_of,
  drop-append_of, append-nil, le→ltb,
}
use dblock.Prelude.Fault.{ok}
use dblock.Prelude.Exec.{◌>>=◌, lift, pure}
use dblock.Metadata.{Metadata, metadata_length, encode, decode, calculate_checksum}
use dblock.Metadata.RoundTrip.{IsHeader, length-encode, decode-encode}
use dblock.Page.{Page, join_header_page_data, split_header_page_data, encode_page}
use dblock.Page.Decode.{decode_page}
use dblock.Tx.{tx_get_block, tx_put_block}
use dblock.Tx.Reads.{reads_own_writes}
use dblock.Pager.{StoragePager, get_page, session_metadata, put_page, with_metadata, on_store}

split-join :
    (m : Metadata) (buf : List ℕ)
    → IsHeader m
    → split_header_page_data (join_header_page_data (some m) buf) ≡ (encode m, buf)
unfolding split_header_page_data join_header_page_data
split-join m buf h =
    rw
      (
        le→ltb (length (encode m ++ buf)) metadata_length
            (omega (arith, length-append (encode m) buf, length-encode m h)),
        take-append_of metadata_length (encode m) buf (length-encode m h),
        drop-append_of metadata_length (encode m) buf (length-encode m h),
      )
      refl

-- The pager after block 0 was written.
abbrev with_root : StoragePager → List ℕ → StoragePager
with_root p block = record p { store = (tx_put_block 0 block p.store).1 }

reads_root :
    (p : StoragePager) (block : List ℕ) → tx_get_block (with_root p block).store 0 ≡ ok block
reads_root p block = reads_own_writes 0 block p.store 0

put_root :
    (p : StoragePager) (page : Page) (buf : List ℕ) (m : Metadata)
    → encode_page page p.page_size ≡ ok buf
    → session_metadata p.store ≡ ok m
    → put_page 0 page p ≡ (ok tt, with_root p (join_header_page_data (some m) buf))
unfolding put_page ◌>>=◌ lift pure with_metadata on_store tx_put_block
put_root p page buf m encoded read = rw encoded (rw read refl)

-- If the metadata can be read, is a header with its own checksum, and a page fits, then writing it as
-- the root page succeeds. The metadata then reads as before, and the root page reads as what the
-- encoded page decodes to.
pub root_page_keeps_metadata :
    (p : StoragePager) (page : Page) (buf : List ℕ) (m : Metadata)
    → encode_page page p.page_size ≡ ok buf
    → session_metadata p.store ≡ ok m
    → IsHeader m
    → calculate_checksum m ≡ m
    → (q : StoragePager) × (put_page 0 page p ≡ (ok tt, q))
      × (session_metadata q.store ≡ ok m)
      × (get_page q 0 ≡ decode_page buf)
unfolding session_metadata get_page
root_page_keeps_metadata p page buf m encoded read header summed =
    let block = join_header_page_data (some m) buf in
    (
      with_root p block,
      put_root p page buf m encoded read,
      rw (reads_root p block, split-join m buf header)
          (ap decode (sym (append-nil (encode m))) ∙ decode-encode m header [] ∙ ap ok summed),
      rw (reads_root p block, split-join m buf header) refl,
    )
