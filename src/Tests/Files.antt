-- ===== src/Tests/Files.antt =====
-- Tests of the files.
use cpp_tftp.Common.{◌≡◌, refl, false, [], ◌∷◌, some, arith}
use cpp_tftp.Common.Outcome.{out_of_fuel}
use cpp_tftp.Tftp.Types.{Mode}
use cpp_tftp.File.Stream.{WriteStream}
use cpp_tftp.File.ReadFile.{ReadFile}
use cpp_tftp.File.ReadFile.Pending.{IsReading, Reads, read_in_to-Reads}
use cpp_tftp.File.WriteFile.{WriteFile, write_octet}
use cpp_tftp.File.WriteFile.Written.{write_octet_full}
use cpp_tftp.Tests.{file_stream, file_stream-IsGood, empty_stream}

-- A file in netascii mode with a byte left over from the block before.
abbrev reader : ReadFile
reader = record { fd = some file_stream; mode = Mode.netascii; overflow_buffer = 10 ∷ [] }

reading : IsReading 3 reader file_stream
reading = record {
  opened = refl;
  good = file_stream-IsGood;
  overflow_fits = omega arith;
  octet_has_none = λ e. cc e;
}

read_in_to-Reads_example : Reads 3 reader file_stream
read_in_to-Reads_example = read_in_to-Reads 3 reader file_stream (omega arith) reading

abbrev writer : WriteFile
writer = record { fd = some empty_stream; mode = Mode.octet }

abbrev small_stream : WriteStream
small_stream = record { written = []; room = 1; ferror = false }

write_octet_full_example : write_octet 5 (1 ∷ 2 ∷ []) 0 small_stream ≡ out_of_fuel
write_octet_full_example = write_octet_full 5 (1 ∷ 2 ∷ []) small_stream (omega arith)
