-- ===== src/Tests/Connections/Orders.antt =====
-- Tests of what a connection sends under arbitrary calls, and of its resources.
use cpp_tftp.Common.{ℕ, ◌≡◌, refl, true, false, List, [], ◌∷◌, none, some, arith, Bytes, codes}
use cpp_tftp.Common.Outcome.{ok, at}
use cpp_tftp.Common.Decimal.{stoul}
use cpp_tftp.Utils.Netascii.{native_to_netascii}
use cpp_tftp.Tftp.Types.{PacketType, Mode, RwPacket, rw_packet}
use cpp_tftp.Tftp.Serialise.{serialise_data_packet, serialise_ack_packet}
use cpp_tftp.Tftp.Deserialise.{deserialise_ack_packet}
use cpp_tftp.File.ReadFile.Pending.{pending}
use cpp_tftp.File.ReadFile.{read_in_to, read_netascii, convert, eof}
use cpp_tftp.File.Stream.{fread}
use cpp_tftp.File.ReadFile
use cpp_tftp.Net.Udp.{Errno, datagram, failed, recv}
use cpp_tftp.Net.Timer.{has_expired}
use cpp_tftp.Server.Connection.{Connection}
use cpp_tftp.Server.Connection.Create.{create}
use cpp_tftp.Server.Connection.Resources.{ConnectionCalls}
use cpp_tftp.Server.Connection.Transfer.Negotiated.{Agrees, agreed}
use cpp_tftp.Server.Connection.Transfer.Endless.{Endless, zero_sized, create-Endless}
use cpp_tftp.Server.Connection.Order.{Call, on_read, on_write, drive, Sends, perform}
use cpp_tftp.Server.Connection.Order.Sender.{drive-Sends}
use cpp_tftp.Server.Connection.Order.Prefix.{collect, IsPrefix, drive-IsPrefix}
use cpp_tftp.Server.Connection.Read.{
  handle_read, handle_expired, retransmit_in, read_in, read_ack, after_ack, receive_ack,
  receive_other,
}
use cpp_tftp.Server.Connection.Write.{
  handle_write, write_in, write_data, prepare, read_block, filled, send_prepared, sent_data,
}
use cpp_tftp.Tests.{
  file_stream-IsGood, client, host, sent_ok, early, late, file_stream, read_allowed, early-on_time,
}
use cpp_tftp.Tests.Connections.Transfers.{serving, serving-IsServing}

-- A block is sent, again after a timeout, and acknowledged twice; then the next one is sent.
abbrev calls : List Call
calls =
    on_write sent_ok
    ∷ on_read late (failed Errno.eagain)
    ∷ on_write sent_ok
    ∷ on_read early (datagram (serialise_ack_packet (record { block_number = 65535 })))
    ∷ on_write sent_ok
    ∷ on_read early (datagram (serialise_ack_packet (record { block_number = 65535 })))
    ∷ []

abbrev packet : Bytes → ℕ → Bytes
packet payload number = serialise_data_packet (record { payload = payload; block_number = number })

abbrev sent : List Bytes
sent = packet (97 ∷ 13 ∷ []) 65535 ∷ packet (97 ∷ 13 ∷ []) 65535 ∷ packet (10 ∷ 98 ∷ []) 0 ∷ []

driven : (last : Connection) × (drive calls serving ≡ ok (last, sent))
unfolding drive perform handle_write write_in write_data prepare read_block read_in_to read_netascii
    fread convert native_to_netascii ReadFile.error eof filled send_prepared sent_data
    serialise_data_packet serialise_ack_packet handle_read has_expired handle_expired retransmit_in
    read_in read_ack recv deserialise_ack_packet at after_ack receive_ack receive_other
driven = (_, refl)

drive-Sends_example : Sends 2 false 65535 (pending serving.file_reader file_stream) sent
drive-Sends_example = drive-Sends calls serving driven.0 file_stream sent serving-IsServing driven.1

drive-IsPrefix_example : IsPrefix (collect 65535 sent) (pending serving.file_reader file_stream)
drive-IsPrefix_example =
    drive-IsPrefix calls serving driven.0 file_stream sent serving-IsServing driven.1

-- A request for blocks of no bytes.
abbrev empty_request : RwPacket
empty_request = record (rw_packet (codes "f") PacketType.read Mode.octet) {
  options = (codes "BLKSIZE", codes "0") ∷ [];
}

reads_zero : stoul (codes "0") ≡ ok 0
unfolding stoul
reads_zero = refl

create-Endless_example :
    let c = zero_sized empty_request client (codes "0") file_stream in
    (create (host true) empty_request client ≡ ok c)
    × Agrees sent_ok early c
    × ((f : ℕ) → Endless f sent_ok early (agreed c))
create-Endless_example =
    create-Endless (host true) empty_request client (codes "0") 0 file_stream sent_ok early refl
      refl refl reads_zero (omega arith) read_allowed refl file_stream-IsGood refl early-on_time

-- The socket is made and bound, and cannot be connected.
abbrev unconnected : ConnectionCalls
unconnected = record {
  inet = record { inet_pton = λ _. none; inet_ntop = λ _. none };
  socket_calls = record {
    socket_sd = some 5;
    initial_flags = record { o_nonblock = false; others = 2 };
    setsockopt = true;
    fcntl_getfl = true;
    fcntl_setfl = true;
    bind_call = true;
    connect_call = false;
  };
  timerfd = some 6;
}

-- The socket can be connected as well.
abbrev prepared : ConnectionCalls
prepared = record unconnected {
  socket_calls = record unconnected.socket_calls { connect_call = true };
}
