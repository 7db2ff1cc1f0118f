-- ===== src/Lib.antt =====
-- dblock, an SQL database in one file: its storage, from the write-ahead log up to the B-tree, and what a
-- query does with the rows.
--
-- Parts, with the paths of the repository, and how they interact:
-- - internal/storage/memoryFile.go: MemoryFile, a file as its bytes, each method an action on it.
-- - internal/storage/storage.go: Wal is the shared store, WalStorage, over a main file and a log.
--   `PutBlocks` appends a frame for each block (Wal/Commit), `Recover` scans the log when the store is
--   opened (Wal/Recover), `GetBlock` takes a block's version from the log if it is older than the
--   reader's watermark, else the block of main, and `Checkpoint` moves frames to main
--   (Wal/Checkpoint, its copies in Copying). Wal/Crash cuts a commit off at any byte. Tx is TxStorage: its
--   own writes in front of the log as of its start. Its state is the transaction with the store that it
--   points to.
-- - internal/codec: Codec, the encoder as an action that appends bytes, the decoder as one that reads on.
--   Puts and Gets are rules for what composed encodings and decodings write and read, Safety rules for
--   decodings of any bytes.
-- - internal/datatype.go and internal/row.go: Value and Row.
-- - internal/metadata/metadata.go: Metadata, the header of block 0.
-- - internal/page.go: Page, and Page/Decode, the slotted layout of B-tree pages.
-- - internal/pager.go: Pager, pages over the blocks of a transaction.
-- - internal/btree.go and internal/cursor.go: Btree with Insert, Walk, Keys and Search. The tree takes
--   the pager as a record of operations, as the source takes an interface.
-- - internal/table.go and the definitions of internal/index.go: Schema. The keys of an index: Index.
-- - internal/evalExpr.go and the expressions of internal/resolveExpr.go: Expr, with `compareValues` of
--   internal/orderscanner.go in Expr/Compare and `exprString` in Expr/Print.
-- - internal/accumulator.go: Accumulator. internal/coerceValue.go: Coerce.
-- - internal/scanner.go: Scan, the interface as its two methods over a state, and the relation `Yields`
--   between a state and the entries that come from it. Its implementations are the children: Filter,
--   Project, Order with Sorting, Join, Aggregate, and Tables over a cursor of the B-tree. A scanner that
--   reads its whole base does so with Collect.
-- - internal/engine.go: Engine/Query stacks the scanners of a SELECT, Engine/Rows makes the row of an
--   INSERT.
-- Prelude holds what the parts share: numbers, lists, results, actions, maps and bytes. Examples holds
-- concrete inputs. The functions are named as in the source, in snake case, unless two would clash:
-- `get_page` of the pager is StoragePager.GetPage, `session_metadata` its GetMetadata.
--
-- Choices of the model:
-- - An `int64` is a ℤ, put into its range by `to_word` and `of_word` of Prelude/Int; unsigned words are
--   ℕ, with the remainder written out. Ids of blocks, frames, transactions and pages are ℕ: the code
--   starts them at 0 and only adds to them, and an id that a corrupt page or frame holds reads as an
--   unsigned one.
-- - A text is its bytes, a float its IEEE bits. The name of a time zone, which the row format drops, and
--   the text that errors are wrapped in are left out.
-- - An error is a value of `Error`, a Go panic the result `panic`; what a method wrote before an error
--   stays written. A mutex makes each method one action.
-- - A Go map is an association list. Where the code ranges over one, an argument gives the order.
-- - `crc32.ChecksumIEEE` is computed bit by bit in Prelude/Bits.
-- - The scan of `Recover` runs on the size of the log plus one as fuel, which is enough, as each frame
--   takes 24 bytes at least. The binary search runs on the length of its range. The walks of the B-tree
--   take their fuel as an argument, one for each level or leaf.
-- - The loops of the scanners take fuel as an argument: more than the rows of the base is enough, which
--   the theorems about them have as a hypothesis.
-- - The operations of `float64` are an instance argument, `Float64`, on IEEE bits. How Go prints values,
--   floats and times, what package uuid does, and the expression that a DEFAULT text stands for are
--   arguments of the definitions that use them. Of Go's standard library the stable sort of package slices
--   is its insertion sort, and with a comparison that is an order any stable sort has its result; the
--   search of package sort is its binary search; `time.Unix` carries nanoseconds into seconds.
-- - The division of an SQL integer by zero is the result `panic`, as Go's, behind the code's test for it.
-- - A slice is a list without spare capacity, and memory does not run out.
--
-- Not modelled: files on disk, which are calls of the operating system, and closing a store; of the SQL
-- front end the parser (a third-party generator's), the resolution of names and expressions, an
-- index's operations on its tree, the schema table, the statements of the engine but those above, and the
-- driver; the command line tools.
pub mod Prelude
pub mod Codec
pub mod Value
pub mod Row
pub mod Metadata
pub mod MemoryFile
pub mod Wal
pub mod Tx
pub mod Page
pub mod Pager
pub mod Btree
pub mod Expr
pub mod Scan
pub mod Accumulator
pub mod Coerce
pub mod Engine
pub mod Index
pub mod Schema
pub mod Examples
