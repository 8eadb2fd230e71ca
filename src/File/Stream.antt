-- ===== src/File/Stream.antt =====
-- The streams of <cstdio> as the two file classes use them.
use cpp_tftp.Common.{
  ℕ, ◌+◌, ◌-◌, ◌%◌, ◌^◌, Bool, true, [], ◌++◌, leb, if◌then◌else◌, length, take, drop, Bytes,
}

-- A stream open for reading: the bytes that the device has yet to give, whether it then fails
-- instead of coming to its end, and the two indicators of the stream.
pub record ReadStream : Type 0 where
  pub rest : Bytes
  pub fails : Bool
  pub feof : Bool
  pub ferror : Bool

-- `fread(p, 1, n, fd)`: fewer than n bytes come only at the end of the file or on an error.
unfoldable pub fread : ℕ → ReadStream → Bytes × ReadStream
fread n s = if leb n (length s.rest) then (take n s.rest, record s { rest = drop n s.rest }) else (
  s.rest,
  if s.fails then record s { rest = []; ferror = true } else record s { rest = []; feof = true },
)

-- A stream open for writing: what was written, how many bytes the device still takes, and the
-- error indicator. The end-of-file indicator of such a stream is never set.
pub record WriteStream : Type 0 where
  pub written : Bytes
  pub room : ℕ
  pub ferror : Bool

-- `fwrite(p, 1, n, fd)`: fewer than n bytes are taken only on an error.
unfoldable pub fwrite : Bytes → ℕ → WriteStream → ℕ × WriteStream
fwrite p n s =
    if leb n s.room
    then (n, record s { written = s.written ++ take n p; room = s.room - n })
    else (s.room, record s { written = s.written ++ take s.room p; room = 0; ferror = true })

-- `a - b` on `size_t`.
abbrev pub sub_size : ℕ → ℕ → ℕ
sub_size a b = (a + 2 ^ 64 - b) % 2 ^ 64
