-- ===== src/Server/Connection.antt =====
-- `tftp_server_connection`, of src/server/tftp_server_connection.cpp: the state of one transfer.
pub mod Host
pub mod Options
pub mod Create
pub mod Read
pub mod Write
pub mod Access
pub mod Receive
pub mod Retransmit
pub mod Oack
pub mod Transfer
pub mod Order
pub mod Machine
pub mod Upload
pub mod Resources
use cpp_tftp.Common.{ℕ, Bool, true, false, Bytes, [], codes}
use cpp_tftp.Tftp.Types.{PacketType, DataPacket, ErrorPacket, OackPacket, empty_error_packet}
use cpp_tftp.File.ReadFile
use cpp_tftp.File.ReadFile.{ReadFile}
use cpp_tftp.File.WriteFile
use cpp_tftp.File.WriteFile.{WriteFile}
use cpp_tftp.Net.Udp.{Address}
use cpp_tftp.Net.Timer.{Timer, new_timer}

-- `state_t`
pub data State : Type 0 where
  send_ack send_oack send_data wait_for_ack wait_for_data error : State

-- The members, but for the logger and the socket.
pub record Connection : Type 0 where
  pub type : PacketType
  pub file_reader : ReadFile
  pub file_writer : WriteFile
  pub client : Address
  pub data_pkt : DataPacket
  pub error_pkt : ErrorPacket
  pub finished : Bool
  pub final_ack : Bool
  pub pkt_ready : Bool
  pub state : State
  pub timeout_s : ℕ  -- uint8_t
  pub timeout_count : ℕ  -- uint8_t
  pub block_number : ℕ  -- uint16_t
  pub block_size : ℕ  -- size_t
  pub oack_packet : OackPacket
  pub timer : Timer

abbrev pub max_timeouts : ℕ
max_timeouts = 3

-- The members as the list of initialisers sets them.
abbrev pub initial : PacketType → Address → Connection
initial type client = record {
  type = type;
  file_reader = ReadFile.unopened;
  file_writer = WriteFile.unopened;
  client = client;
  data_pkt = record { payload = []; block_number = 0 };
  error_pkt = empty_error_packet;
  finished = false;
  final_ack = false;
  pkt_ready = false;
  state = State.error;
  timeout_s = 2;
  timeout_count = 0;
  block_number = 0;
  block_size = 512;
  oack_packet = record { options = [] };
  timer = new_timer;
}

abbrev pub is_wait : State → Bool
is_wait State.wait_for_ack = true
is_wait State.wait_for_data = true
is_wait State.send_ack = false
is_wait State.send_oack = false
is_wait State.send_data = false
is_wait State.error = false

abbrev pub is_send : State → Bool
is_send State.send_ack = true
is_send State.send_data = true
is_send State.send_oack = true
is_send State.error = true
is_send State.wait_for_ack = false
is_send State.wait_for_data = false

abbrev pub wait_for_read : Connection → Bool
wait_for_read c = is_wait c.state

abbrev pub wait_for_write : Connection → Bool
wait_for_write c = is_send c.state

abbrev pub is_finished : Connection → Bool
is_finished c = c.finished

unfoldable pub set_finished : Bool → Connection → Connection
set_finished finished c = record c { finished = finished }

abbrev pub state_to_string : State → Bytes
state_to_string State.wait_for_ack = codes "Wait for ACK"
state_to_string State.wait_for_data = codes "Wait for DATA"
state_to_string State.send_ack = codes "Send ACK"
state_to_string State.send_data = codes "Send DATA"
state_to_string State.send_oack = codes "Send OACK"
state_to_string State.error = codes "Send ERROR"
