-- ===== src/Tftp/Types.antt =====
-- The packets of include/common/tftp.hpp.
use cpp_tftp.Common.{ℕ, List, [], Bytes}

abbrev pub data_pkt_max_size : ℕ
data_pkt_max_size = 516

abbrev pub data_pkt_data_max_size : ℕ
data_pkt_data_max_size = 512

abbrev pub ack_pkt_max_size : ℕ
ack_pkt_max_size = 4

-- `packet_t`; `data_pkt` is its `DATA`.
pub data PacketType : Type 0 where
  read write data_pkt ack error oack : PacketType

-- `static_cast<char>` of a packet type.
abbrev pub opcode : PacketType → ℕ
opcode PacketType.read = 1
opcode PacketType.write = 2
opcode PacketType.data_pkt = 3
opcode PacketType.ack = 4
opcode PacketType.error = 5
opcode PacketType.oack = 6

-- `mode_t`
pub data Mode : Type 0 where
  netascii octet : Mode

-- `error_t`
pub data ErrorType : Type 0 where
  not_defined file_not_found access_error disk_full : ErrorType
  illegal_operation unknown_tid file_exists no_user : ErrorType

-- `static_cast<uint16_t>` of an error.
abbrev pub error_number : ErrorType → ℕ
error_number ErrorType.not_defined = 0
error_number ErrorType.file_not_found = 1
error_number ErrorType.access_error = 2
error_number ErrorType.disk_full = 3
error_number ErrorType.illegal_operation = 4
error_number ErrorType.unknown_tid = 5
error_number ErrorType.file_exists = 6
error_number ErrorType.no_user = 7

abbrev pub Options : Type 0
Options = List (Bytes × Bytes)

pub record RwPacket : Type 0 where
  pub type : PacketType
  pub filename : Bytes
  pub mode : Mode
  pub options : Options

pub record OackPacket : Type 0 where
  pub options : Options

pub record DataPacket : Type 0 where
  pub payload : Bytes  -- `data`
  pub block_number : ℕ

pub record AckPacket : Type 0 where
  pub block_number : ℕ

pub record ErrorPacket : Type 0 where
  pub error_msg : Bytes
  pub error_code : ℕ

-- The constructor `rw_packet_t(f, t, m)`.
abbrev pub rw_packet : Bytes → PacketType → Mode → RwPacket
rw_packet f t m = record { type = t; filename = f; mode = m; options = [] }

-- The constructors `error_packet_t()` and `error_packet_t(code, msg)`.
abbrev pub empty_error_packet : ErrorPacket
empty_error_packet = record { error_msg = []; error_code = 0 }

abbrev pub error_packet : ErrorType → Bytes → ErrorPacket
error_packet code msg = record { error_msg = msg; error_code = error_number code }
