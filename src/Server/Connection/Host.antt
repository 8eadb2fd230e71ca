-- ===== src/Server/Connection/Host.antt =====
-- `is_operation_allowed`, and what a connection asks of the machine that it runs on.
use cpp_tftp.Common.{
  ℕ, Bool, true, false, not, ◌&&◌, Option, none, some, if◌then◌else◌, Bytes, codes,
}
use cpp_tftp.Common.Outcome.{Outcome}
use cpp_tftp.Utils.Subpath.{FilePath, is_subpath}
use cpp_tftp.Tftp.Types.{PacketType, ErrorType, ErrorPacket, error_packet}
use cpp_tftp.File.Stream.{ReadStream, WriteStream}

-- The file system and the network interface. `append` is `operator/=` with a path in text,
-- `mtu` is `none` where the query fails, and `socket` is what setting up the socket comes to.
pub record Host : Type 0 where
  pub current_path : FilePath
  pub append : FilePath → Bytes → FilePath
  pub weakly_canonical : FilePath → FilePath
  pub absolute : FilePath → FilePath
  pub exists : FilePath → Bool
  pub stat : Bytes → Option ℕ
  pub mtu : Option ℕ
  pub fopen_read : Bytes → Option ReadStream
  pub fopen_write : Bytes → Option WriteStream
  pub socket : Outcome (Unit {0})

abbrev pub is_read : PacketType → Bool
is_read PacketType.read = true
is_read _ = false

abbrev pub is_write : PacketType → Bool
is_write PacketType.write = true
is_write _ = false

abbrev pub canonical_filepath : Host → Bytes → FilePath
canonical_filepath h file_request = h.weakly_canonical (h.append h.current_path file_request)

abbrev pub canonical_server_root : Host → FilePath
canonical_server_root h = h.absolute h.current_path

unfoldable pub is_operation_allowed : Host → Bytes → PacketType → Option ErrorPacket
is_operation_allowed h file_request type =
    let path = canonical_filepath h file_request in
    if not (is_subpath path (canonical_server_root h))
    then some (error_packet ErrorType.access_error (codes "Access denied"))
    else if is_write type && h.exists path
    then some (error_packet ErrorType.file_exists (codes "File already exists"))
    else if is_read type && not (h.exists path)
    then some (error_packet ErrorType.access_error (codes "File not found"))
    else none
