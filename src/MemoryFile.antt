-- ===== src/MemoryFile.antt =====
-- internal/storage/memoryFile.go: a file in memory, the implementation of `File` behind ":memory:".
-- Writing, truncating and closing are actions on the file; an offset is an `int64`.
pub mod Slices
use dblock.Prelude.{
  ℕ, ◌+◌, ◌-◌, Bool, true, Option, none, some, List, [], ◌++◌, String, min, ltb, leb, if◌then◌else◌,
  length, take, drop, copy, replicate,
}
use dblock.Prelude.Int.{ℤ, pos, negsuc}
use dblock.Prelude.Fault.{Error, Result, ok, err, panic, invalid, eof}
use dblock.Prelude.Exec.{Exec}

-- The field `data` of the source is `contents`.
pub record MemoryFile : Type 0 where
  pub name : String
  pub contents : List ℕ

unfoldable pub open_memory_file : String → MemoryFile
open_memory_file name = record { name = name; contents = [] }

unfoldable pub exists : Exec MemoryFile Bool
exists f = (ok true, f)

-- What `ReadAt(buf, offset)` leaves in `buf`, and the two results that it returns.
pub record ReadResult : Type 0 where
  pub buf : List ℕ
  pub count : ℕ
  pub error : Option Error

unfoldable pub read_at : MemoryFile → List ℕ → ℤ → ReadResult
read_at f buf (negsuc _) = record { buf = buf; count = 0; error = some invalid }
read_at f buf (pos offset) =
    if leb (length f.contents) offset
    then record { buf = buf; count = 0; error = some eof }
    else (let n = min (length buf) (length f.contents - offset) in
        record {
          buf = copy buf (drop offset f.contents);
          count = n;
          error = if ltb n (length buf) then some eof else none;
        })

-- `grown := make([]byte, end); copy(grown, f.data)` where `end` is past the end.
grown : ℕ → List ℕ → List ℕ
grown end contents = if ltb (length contents) end then copy (replicate end 0) contents else contents

-- `copy(f.data[offset:end], buf)`: the slice panics where it passes the end of the file.
put_slice : List ℕ → ℕ → ℕ → Exec MemoryFile ℕ
put_slice buf offset end f = if ltb (length f.contents) end then (panic, f) else (
  ok (length buf),
  record f { contents = take offset f.contents ++ (buf ++ drop end f.contents) },
)

unfoldable pub write_at : List ℕ → ℤ → Exec MemoryFile ℕ
unfolding grown put_slice
write_at buf (negsuc _) f = (err invalid, f)
write_at buf (pos offset) f =
    let end = offset + length buf in
    let room = grown end f.contents in put_slice buf offset end (record f { contents = room })

unfoldable pub truncate : ℤ → Exec MemoryFile (Unit {0})
truncate (negsuc _) f = (err invalid, f)
truncate (pos size) f = (
  ok tt,
  record f {
    contents =
        if leb size (length f.contents)
        then take size f.contents
        else copy (replicate size 0) f.contents;
  },
)

unfoldable pub size : MemoryFile → ℕ
size f = length f.contents

unfoldable pub sync : Exec MemoryFile (Unit {0})
sync f = (ok tt, f)

unfoldable pub close : Exec MemoryFile (Unit {0})
close f = (ok tt, f)

-- `buf := make([]byte, n)`, then `ReadAt` with its error returned: how every caller reads.
unfoldable pub read_block : MemoryFile → ℕ → ℕ → Result (List ℕ)
unfolding read_at
read_block f n offset =
    let r = read_at f (replicate n 0) (pos offset) in
    elim r.error [ none ↦ ok r.buf | some e ↦ err e ]
