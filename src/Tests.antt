-- ===== src/Tests.antt =====
-- Concrete values that the tests share.
pub mod Packets
pub mod Files
pub mod Connections
pub mod Servers
pub mod Clients
pub mod Programs
use cpp_tftp.Common.{Bool, true, false, [], ◌∷◌, ◌++◌, some, ◌≡◌, refl, codes}
use cpp_tftp.Common.Outcome.{ok}
use cpp_tftp.Tftp.Types.{PacketType, Mode, RwPacket, rw_packet}
use cpp_tftp.File.Stream.{ReadStream, WriteStream}
use cpp_tftp.File.ReadFile.Loops.{IsGood}
use cpp_tftp.Net.Udp.{Address, SendResult, Errno}
use cpp_tftp.Net.Timer.{TimerRead, has_expired}
use cpp_tftp.Server.Connection.{Connection, State, initial}
use cpp_tftp.Server.Connection.Host.{Host}
use cpp_tftp.Server.Connection.Access.{IsAllowed}

abbrev pub file_stream : ReadStream
file_stream = record { rest = 97 ∷ 10 ∷ 98 ∷ []; fails = false; feof = false; ferror = false }

pub file_stream-IsGood : IsGood file_stream
file_stream-IsGood = record { no_error = refl; no_fault = refl; at_end = λ e. cc e }

abbrev pub empty_stream : WriteStream
empty_stream = record { written = []; room = 1000; ferror = false }

abbrev pub client : Address
client = record { ip_address = codes "10.0.0.1"; port_num = 4000 }

-- A host with one directory, in which every file exists or none does.
abbrev pub host : Bool → Host
host present = record {
  current_path = codes "srv" ∷ [];
  append = λ p f. p ++ f ∷ [];
  weakly_canonical = λ p. p;
  absolute = λ p. p;
  exists = λ _. present;
  stat = λ _. some 3;
  mtu = some 1500;
  fopen_read = λ _. some file_stream;
  fopen_write = λ _. some empty_stream;
  socket = ok tt;
}

abbrev pub read_request : RwPacket
read_request = rw_packet (codes "f") PacketType.read Mode.netascii

abbrev pub write_request : RwPacket
write_request = record (rw_packet (codes "f") PacketType.write Mode.octet) {
  options = (codes "TIMEOUT", codes "5") ∷ [];
}

pub read_allowed : IsAllowed (host true) read_request.filename read_request.type
read_allowed = record {
  below = codes "f" ∷ [];
  inside = refl;
  write_is_new = λ e. cc e;
  read_exists = λ _. refl;
}

pub write_allowed : IsAllowed (host false) write_request.filename write_request.type
write_allowed = record {
  below = codes "f" ∷ [];
  inside = refl;
  write_is_new = λ _. refl;
  read_exists = λ e. cc e;
}

abbrev pub sent_ok : SendResult
sent_ok = record { ret = 4; errno = Errno.other }

abbrev pub early : TimerRead
early = record { ret = 0; exp = 0 }

abbrev pub late : TimerRead
late = record { ret = 8; exp = 1 }

pub early-on_time : has_expired early ≡ false
unfolding has_expired
early-on_time = refl

pub late-expired : has_expired late ≡ true
unfolding has_expired
late-expired = refl

-- A connection that has sent a block and waits for its acknowledgement, and one that waits for data.
abbrev pub awaiting_ack : Connection
awaiting_ack = record (initial PacketType.read client) {
  state = State.wait_for_ack;
  pkt_ready = true;
  block_number = 1;
}

abbrev pub awaiting_data : Connection
awaiting_data = record (initial PacketType.write client) {
  state = State.wait_for_data;
  block_number = 1;
}
