-- ===== src/File/WriteFile.antt =====
-- `tftp_write_file`. A null `_fd` is `none`: to hand it to <cstdio> is undefined.
pub mod Written
use cpp_tftp.Common.{
  ℕ, zero, suc, ◌+◌, ◌-◌, Bool, false, not, ◌&&◌, Option, none, some, ltb, if◌then◌else◌, length,
  Bytes,
}
use cpp_tftp.Common.Outcome.{Outcome, ok, throw, undefined, out_of_fuel, ◌>>=◌, system_error}
use cpp_tftp.Utils.Netascii.{netascii_to_native}
use cpp_tftp.Tftp.Types.{Mode}
use cpp_tftp.File.Stream.{WriteStream, fwrite}

pub record WriteFile : Type 0 where
  pub fd : Option WriteStream
  pub mode : Mode

-- The default constructor.
abbrev pub unopened : WriteFile
unopened = record { fd = none; mode = Mode.octet }

-- `open`, given what `fopen` returns. The members are set before the exception is thrown.
unfoldable pub open_write : Mode → Option WriteStream → WriteFile → WriteFile × Outcome (Unit {0})
open_write mode none w = (record { fd = none; mode = mode }, throw system_error)
open_write mode (some s) w = (record { fd = some s; mode = mode }, ok tt)

abbrev pub from_fd : Option WriteStream → Outcome WriteStream
from_fd none = undefined
from_fd (some s) = ok s

-- The other constructor, which opens the file.
abbrev pub tftp_write_file : Mode → Option WriteStream → WriteFile × Outcome (Unit {0})
tftp_write_file mode stream = open_write mode stream (record { fd = none; mode = mode })

-- The end-of-file indicator of a stream open for writing is never set.
abbrev pub eof : WriteFile → Outcome Bool
eof w = do s ← from_fd w.fd; ok false

unfoldable pub error : WriteFile → Outcome Bool
error w = do s ← from_fd w.fd; ok s.ferror

-- The loop of the netascii branch: a failed write ends it.
unfoldable pub write_netascii : ℕ → Bytes → ℕ → WriteStream → Outcome WriteStream
write_netascii zero d bytes_written s = out_of_fuel
write_netascii (suc fuel) d bytes_written s =
    let (put, s') = fwrite d (length d - bytes_written) s in
    let again = write_netascii fuel d (bytes_written + put) s' in
    if not s.ferror && ltb bytes_written (length d) then again else ok s

-- The loop of the octet branch: it does not look at the error indicator.
unfoldable pub write_octet : ℕ → Bytes → ℕ → WriteStream → Outcome WriteStream
write_octet zero d bytes_written s = out_of_fuel
write_octet (suc fuel) d bytes_written s =
    let (put, s') = fwrite d (length d - bytes_written) s in
    let again = write_octet fuel d (bytes_written + put) s' in
    if ltb bytes_written (length d) then again else ok s

unfoldable pub write_mode : Mode → Bytes → WriteStream → Outcome WriteStream
write_mode Mode.octet d s = write_octet (suc (length d)) d 0 s
write_mode Mode.netascii d s = do
  native_data ← netascii_to_native d
  write_netascii (suc (length native_data)) native_data 0 s

unfoldable pub write : Bytes → WriteFile → Outcome WriteFile
write d w = do s ← from_fd w.fd; s' ← write_mode w.mode d s; ok (record w { fd = some s' })
