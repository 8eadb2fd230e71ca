-- ===== src/Client/GetFile.antt =====
-- `get_file`.
pub mod Complete
use cpp_tftp.Common.{
  ℕ, Bool, true, false, not, List, [], ◌∷◌, ◌++◌, Option, none, some, ltb, ◌==◌, if◌then◌else◌,
  length, Bytes,
}
use cpp_tftp.Common.Outcome.{Outcome, ok, out_of_fuel, ◌>>=◌}
use cpp_tftp.Utils.Netascii.{netascii_to_native}
use cpp_tftp.Tftp.Types.{
  Mode, PacketType, DataPacket, rw_packet, data_pkt_max_size, data_pkt_data_max_size,
}
use cpp_tftp.Tftp.Serialise.{serialise_rw_packet, serialise_ack_packet}
use cpp_tftp.Tftp.Deserialise.{deserialise_data_packet, deserialise_error_packet}
use cpp_tftp.Net.Udp.{ReceivedFrom, recv, recv_from}
use cpp_tftp.Server.Connection.Read.{next_block}
use cpp_tftp.Client.{Polled, Exchange, timed_out, no_reply, no_sender}

-- What `get_file` has done: its result, the bytes in the file, and the packets that it has sent.
pub record Got : Type 0 where
  pub result : Bool
  pub out_file : Bytes
  pub sent : List Bytes

abbrev pub got : Bool → Bytes → List Bytes → Got
got result out_file sent = record { result = result; out_file = out_file; sent = sent }

-- The bytes of a packet that go to the file.
unfoldable pub decode : Mode → Bytes → Outcome Bytes
decode Mode.netascii d = netascii_to_native d
decode Mode.octet d = ok d

-- The packet that was received is the next one, or the transfer fails.
abbrev pub is_expected : Option DataPacket → ℕ → Option DataPacket
is_expected none block_number = none
is_expected (some p) block_number = if p.block_number == block_number then some p else none

-- The `while` loop; `block_number` is that of `data_packet`, `sent` what was sent before.
unfoldable pub receive_blocks :
    Mode → ℕ → DataPacket → Bytes → List Bytes → List Exchange → Outcome Got
unfolding decode
receive_blocks mode block_number data_packet out_file sent [] = do
  let sent' = sent ++ serialise_ack_packet (record { block_number = block_number }) ∷ []
  native_data ← decode mode data_packet.payload
  (if ltb (length data_packet.payload) data_pkt_data_max_size
      then ok (got true (out_file ++ native_data) sent')
      else out_of_fuel)
receive_blocks mode block_number data_packet out_file sent (x ∷ xs) = do
  let sent' = sent ++ serialise_ack_packet (record { block_number = block_number }) ∷ []
  native_data ← decode mode data_packet.payload
  let out_file' = out_file ++ native_data
  let next = (do
    recv_data ← recv data_pkt_max_size x.received
    p ← deserialise_data_packet recv_data
    elim (is_expected p (next_block block_number)) [
      | none ↦ ok (got false out_file' sent')
      | some packet ↦ receive_blocks mode (next_block block_number) packet out_file' sent' xs
    ])
  (if ltb (length data_packet.payload) data_pkt_data_max_size
      then ok (got true out_file' sent')
      else if timed_out x.polled
      then ok (got false out_file' sent')
      else next)

-- What is done with the reply to the request; `opens` is whether the file can be opened, and
-- `connected` what `connect` to the port of the reply comes to.
unfoldable pub first_block :
    Mode
    → Bool
    → Outcome (Unit {0})
    → Bytes
    → Option DataPacket
    → List Bytes
    → List Exchange
    → Outcome Got
unfolding receive_blocks
first_block mode opens connected first_packet_data (some p) sent xs =
    let blocks = (connected >>= λ _. receive_blocks mode 1 p [] sent xs) in
    if not (p.block_number == 1)
    then ok (got false [] sent)
    else if opens
    then blocks
    else ok (got false [] sent)
first_block mode opens connected first_packet_data none sent xs = do
  error_packet ← deserialise_error_packet first_packet_data
  ok (got false [] sent)

-- What follows the sending of the request.
unfoldable pub get_file :
    Bytes → Mode → Bool → Outcome (Unit {0}) → Polled → ReceivedFrom → List Exchange → Outcome Got
unfolding first_block
get_file filename mode opens connected polled first xs =
    let request_data = serialise_rw_packet (rw_packet filename PacketType.read mode) in
    let replied = (do
      (first_packet_data, _) ← recv_from data_pkt_max_size no_sender first
      data_packet ← deserialise_data_packet first_packet_data
      first_block mode opens connected first_packet_data data_packet (request_data ∷ []) xs) in
    if no_reply polled then ok (got false [] (request_data ∷ [])) else replied
