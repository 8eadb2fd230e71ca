-- ===== src/Client/SendFile.antt =====
-- `send_file`.
pub mod Complete
use cpp_tftp.Common.{
  ℕ, Bool, true, false, not, ◌&&◌, ◌||◌, List, [], ◌∷◌, ◌++◌, Option, none, some, ltb, ◌==◌,
  if◌then◌else◌, length, take, drop, Bytes,
}
use cpp_tftp.Common.Outcome.{Outcome, ok, out_of_fuel, ◌>>=◌}
use cpp_tftp.Utils.Netascii.{native_to_netascii}
use cpp_tftp.Tftp.Types.{
  Mode, PacketType, AckPacket, DataPacket, rw_packet, ack_pkt_max_size, data_pkt_max_size,
  data_pkt_data_max_size,
}
use cpp_tftp.Tftp.Serialise.{serialise_rw_packet, serialise_data_packet}
use cpp_tftp.Tftp.Deserialise.{deserialise_ack_packet, deserialise_error_packet}
use cpp_tftp.Net.Udp.{ReceivedFrom, recv, recv_from}
use cpp_tftp.Server.Connection.Read.{next_block}
use cpp_tftp.Client.{Polled, Exchange, timed_out, no_sender}

-- `std::ifstream`: the bytes to come, whether the device breaks, and the three state bits.
pub record InFile : Type 0 where
  pub rest : Bytes
  pub breaks : Bool
  pub eofbit : Bool
  pub failbit : Bool
  pub badbit : Bool

-- `istream::read` of n bytes: those that `gcount` counts, and the stream.
unfoldable pub read : ℕ → InFile → Bytes × InFile
read n s =
    if s.eofbit || s.failbit || s.badbit
    then ([], record s { failbit = true })
    else if s.breaks
    then ([], record s { badbit = true })
    else if ltb (length s.rest) n
    then (s.rest, record s { rest = []; eofbit = true; failbit = true })
    else (take n s.rest, record s { rest = drop n s.rest })

-- `!in_file`
abbrev pub failed : InFile → Bool
failed s = s.failbit || s.badbit

-- What `send_file` has done: its result, and the packets that it has sent.
pub record Sent : Type 0 where
  pub result : Bool
  pub sent : List Bytes

abbrev pub done : Bool → List Bytes → Sent
done result sent = record { result = result; sent = sent }

-- What a block of the file becomes in a packet.
abbrev pub to_send : Mode → Bytes → Bytes
to_send Mode.netascii d = native_to_netascii d
to_send Mode.octet d = d

-- What is done after the wait for an acknowledgement. The number in it is not looked at.
unfoldable pub check_ack :
    Option AckPacket → DataPacket → ℕ → List Bytes → Outcome Sent → Outcome Sent
check_ack none data_packet block_number sent next = ok (done false sent)
check_ack (some ack_packet) data_packet block_number sent next =
    if not (data_packet.block_number == block_number) then ok (done false sent) else next

-- The transfer loop; `sent` is what was sent before.
unfoldable pub send_blocks :
    Mode → DataPacket → ℕ → InFile → List Bytes → List Exchange → Outcome Sent
unfolding check_ack
send_blocks mode data_packet block_number in_file sent [] =
    let sent' = sent ++ serialise_data_packet data_packet ∷ [] in
    let in_file' = (read 512 in_file).1 in
    if failed in_file' && not in_file'.eofbit then ok (done false sent') else out_of_fuel
send_blocks mode data_packet block_number in_file sent (x ∷ xs) =
    let finished = ltb (length data_packet.payload) data_pkt_data_max_size in
    let sent' = sent ++ serialise_data_packet data_packet ∷ [] in
    let (block, in_file') = read 512 in_file in
    let block_number' = next_block block_number in
    let packet : DataPacket = record {
      payload = to_send mode block;
      block_number = block_number';
    } in
    let rest = send_blocks mode packet block_number' in_file' sent' xs in
    let answered = (do
      recv_data ← recv ack_pkt_max_size x.received
      ack_packet ← deserialise_ack_packet recv_data
      check_ack ack_packet packet block_number' sent'
          (if finished then ok (done true sent') else rest)) in
    if failed in_file' && not in_file'.eofbit
    then ok (done false sent')
    else if timed_out x.polled
    then ok (done false sent')
    else answered

-- The first block is read, and the transfer started.
unfoldable pub send_first : Mode → InFile → List Bytes → List Exchange → Outcome Sent
unfolding read send_blocks
send_first mode in_file sent xs =
    let (block, in_file') = read 512 in_file in
    let blocks =
      send_blocks mode (record { payload = to_send mode block; block_number = 1 }) 1 in_file' sent
        xs in
    if failed in_file' then ok (done false sent) else blocks

-- The file is `none` where it cannot be opened.
unfoldable pub send_opened : Mode → Option InFile → List Bytes → List Exchange → Outcome Sent
unfolding send_first
send_opened mode none sent xs = ok (done false sent)
send_opened mode (some in_file) sent xs = send_first mode in_file sent xs

-- The reply to the request; `connected` is what `connect` to its port comes to.
unfoldable pub first_ack :
    Mode
    → Option InFile
    → Outcome (Unit {0})
    → Bytes
    → Option AckPacket
    → List Bytes
    → List Exchange
    → Outcome Sent
unfolding send_opened
first_ack mode in_file connected first_packet_data none sent xs = do
  error_packet ← deserialise_error_packet first_packet_data
  ok (done false sent)
first_ack mode in_file connected first_packet_data (some p) sent xs =
    let blocks = (connected >>= λ _. send_opened mode in_file sent xs) in
    if not (p.block_number == 0) then ok (done false sent) else blocks

-- What follows the sending of the request.
unfoldable pub send_file :
    Bytes
    → Mode
    → Option InFile
    → Outcome (Unit {0})
    → Polled
    → ReceivedFrom
    → List Exchange
    → Outcome Sent
unfolding first_ack
send_file filename mode in_file connected polled first xs =
    let request = serialise_rw_packet (rw_packet filename PacketType.write mode) ∷ [] in
    let replied = (do
      (first_packet_data, _) ← recv_from data_pkt_max_size no_sender first
      ack_packet ← deserialise_ack_packet first_packet_data
      first_ack mode in_file connected first_packet_data ack_packet request xs) in
    if timed_out polled then ok (done false request) else replied
