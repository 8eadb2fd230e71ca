-- ===== src/File/ReadFile.antt =====
-- `tftp_read_file`. A null `_fd` is `none`: to hand it to <cstdio> is undefined.
pub mod Loops
pub mod Pending
use cpp_tftp.Common.{
  ℕ, zero, suc, ◌-◌, Bool, false, not, ◌&&◌, [], ◌++◌, Option, none, some, ltb, if◌then◌else◌,
  length, take, drop, is_empty, Bytes,
}
use cpp_tftp.Common.Outcome.{Outcome, ok, throw, undefined, out_of_fuel, ◌>>=◌, system_error}
use cpp_tftp.Utils.Netascii.{native_to_netascii}
use cpp_tftp.Tftp.Types.{Mode}
use cpp_tftp.File.Stream.{ReadStream, fread, sub_size}

pub record ReadFile : Type 0 where
  pub fd : Option ReadStream
  pub mode : Mode
  pub overflow_buffer : Bytes

-- The default constructor.
abbrev pub unopened : ReadFile
unopened = record { fd = none; mode = Mode.octet; overflow_buffer = [] }

-- `open`, given what `fopen` returns. The members are set before the exception is thrown.
unfoldable pub open_read : Mode → Option ReadStream → ReadFile → ReadFile × Outcome (Unit {0})
open_read mode none r = (record r { fd = none; mode = mode }, throw system_error)
open_read mode (some s) r = (record r { fd = some s; mode = mode }, ok tt)

-- The other constructor, which opens the file.
abbrev pub tftp_read_file : Mode → Option ReadStream → ReadFile × Outcome (Unit {0})
tftp_read_file mode stream =
    open_read mode stream (record { fd = none; mode = mode; overflow_buffer = [] })

-- `_fd` as an argument of a function of <cstdio>.
abbrev pub from_fd : Option ReadStream → Outcome ReadStream
from_fd none = undefined
from_fd (some s) = ok s

abbrev pub stream : ReadFile → Outcome ReadStream
stream r = from_fd r.fd

unfoldable pub eof : ReadFile → Outcome Bool
eof r = if is_empty r.overflow_buffer then (stream r >>= λ s. ok s.feof) else ok false

unfoldable pub error : ReadFile → Outcome Bool
error r = do s ← stream r; ok s.ferror

-- The loop of the octet branch; `out` is the part of `ret` that has been read.
unfoldable pub read_octet : ℕ → ℕ → Bytes → ReadStream → Outcome (Bytes × ReadStream)
read_octet zero size out s = out_of_fuel
read_octet (suc fuel) size out s =
    let (got, s') = fread (size - length out) s in
    let again = read_octet fuel size (out ++ got) s' in
    if not s.ferror && not s.feof && ltb (length out) size then again else ok (out, s)

-- The loop of the other branch, which asks for all of `bytes_from_file` in each round. The buffer
-- has room for `size` bytes.
unfoldable pub read_netascii : ℕ → ℕ → ℕ → Bytes → ReadStream → Outcome (Bytes × ReadStream)
read_netascii zero size bytes_from_file out s = out_of_fuel
read_netascii (suc fuel) size bytes_from_file out s =
    let (got, s') = fread bytes_from_file s in
    let again = read_netascii fuel size bytes_from_file (out ++ got) s' in
    let fits = if ltb size (length (out ++ got)) then undefined else again in
    if not s.ferror && not s.feof && ltb (length out) bytes_from_file then fits else ok (out, s)

-- What the branch does once the loop is over: the overflow goes first, and what does not fit goes
-- to the overflow.
unfoldable pub convert : ReadFile → ℕ → Bytes → ReadStream → Bytes × ReadFile
convert r size out s =
    let ret = r.overflow_buffer ++ native_to_netascii out in
    let r' : ReadFile = record r { fd = some s; overflow_buffer = [] } in
    if ltb size (length ret)
    then (take size ret, record r' { overflow_buffer = drop size ret })
    else (ret, r')

read_mode : Mode → ReadFile → ℕ → ReadStream → Outcome (Bytes × ReadFile)
unfolding convert
read_mode Mode.octet r size s = do
  (out, s') ← read_octet (suc size) size [] s
  ok (out, record r { fd = some s' })
read_mode Mode.netascii r size s = do
  (out, s') ← read_netascii (suc size) size (sub_size size (length r.overflow_buffer)) [] s
  ok (convert r size out s')

unfoldable pub read_in_to : ReadFile → ℕ → Outcome (Bytes × ReadFile)
unfolding read_mode
read_in_to r size = do s ← stream r; read_mode r.mode r size s
