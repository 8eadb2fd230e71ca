-- ===== src/Server/Connection/Create.antt =====
-- The constructor of `tftp_server_connection`.
use cpp_tftp.Common.{
  Bool, true, false, Option, none, some, if◌then◌else◌, is_empty, replicate, codes,
}
use cpp_tftp.Common.Outcome.{Outcome, ok, ◌>>=◌}
use cpp_tftp.Tftp.Types.{PacketType, ErrorType, ErrorPacket, error_packet, RwPacket}
use cpp_tftp.File.ReadFile.{open_read}
use cpp_tftp.File.WriteFile.{open_write}
use cpp_tftp.Net.Udp.{Address}
use cpp_tftp.Server.Connection.{Connection, State, initial}
use cpp_tftp.Server.Connection.Host.{Host, is_operation_allowed}
use cpp_tftp.Server.Connection.Options.{process_options}

-- Whether a call threw.
abbrev caught : Outcome (Unit {0}) → Bool
caught (ok _) = false
caught _ = true

-- `case READ`: what follows the `catch` clause sets the state whether or not the file was opened.
unfoldable pub create_read : Host → RwPacket → Connection → Connection
create_read h request c =
    let (reader, result) = open_read request.mode (h.fopen_read request.filename) c.file_reader in
    let c' = record c { file_reader = reader } in
    let c'' =
      if caught result
      then record c' {
        error_pkt = error_packet ErrorType.access_error (codes "Failed to open file for reading");
        state = State.error;
      }
      else c' in
    if is_empty c.oack_packet.options
    then record c'' { state = State.send_data; block_number = 1 }
    else record c'' { block_number = 0; state = State.send_oack }

-- `case WRITE`
unfoldable pub create_write : Host → RwPacket → Connection → Connection
create_write h request c =
    let first = if is_empty c.oack_packet.options then State.send_ack else State.send_oack in
    let (writer, result) = open_write request.mode (h.fopen_write request.filename) c.file_writer in
    let c' = record c { file_writer = writer; state = first; block_number = 0 } in
    if caught result
    then record c' {
      error_pkt = error_packet ErrorType.access_error (codes "Failed to open file for writing");
      state = State.error;
    }
    else c'

-- The `switch` on the type of the request.
unfoldable pub create_type : PacketType → Host → RwPacket → Connection → Connection
unfolding create_read create_write
create_type PacketType.read h request c = create_read h request c
create_type PacketType.write h request c = create_write h request c
create_type _ h request c = record c {
  error_pkt = error_packet ErrorType.illegal_operation (codes "ILLEGAL_OPERATION");
  state = State.error;
}

-- `_data_pkt.data.resize(_block_size)`
abbrev pub resize_data : Connection → Connection
resize_data c = record c { data_pkt = record c.data_pkt { payload = replicate c.block_size 0 } }

unfoldable pub create_checked : Option ErrorPacket → Host → RwPacket → Connection → Connection
create_checked (some e) h request c = record c { error_pkt = e; state = State.error }
create_checked none h request c =
    create_type request.type h request (process_options h request (resize_data c))

unfoldable pub create : Host → RwPacket → Address → Outcome Connection
unfolding create_checked
create h request client = h.socket >>= λ _. ok (
    create_checked (is_operation_allowed h request.filename request.type) h request
      (initial request.type client))
