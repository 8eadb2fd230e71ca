-- ===== src/Server/Connection/Read.antt =====
-- `handle_read` and `retransmit`.
use cpp_tftp.Common.{
  ℕ, suc, ◌+◌, ◌%◌, Bool, true, false, Option, none, some, ltb, leb, ◌==◌, if◌then◌else◌, length,
  Bytes, codes,
}
use cpp_tftp.Common.Outcome.{Outcome, ok, ◌>>=◌}
use cpp_tftp.Tftp.Types.{
  ErrorType, error_packet, DataPacket, AckPacket, ErrorPacket, ack_pkt_max_size,
}
use cpp_tftp.Tftp.Deserialise.{
  deserialise_data_packet, deserialise_ack_packet, deserialise_error_packet,
}
use cpp_tftp.File.WriteFile.{WriteFile, write, error}
use cpp_tftp.Net.Udp.{Received, recv}
use cpp_tftp.Net.Timer.{TimerRead, has_expired}
use cpp_tftp.Server.Connection.{Connection, State, max_timeouts}

-- `++` and `-= 1` on `uint16_t`.
abbrev pub next_block : ℕ → ℕ
next_block n = (n + 1) % 65536

abbrev pub previous_block : ℕ → ℕ
previous_block n = (n + 65535) % 65536

abbrev pub internal_error : ErrorPacket
internal_error = error_packet ErrorType.not_defined (codes "Internal server error")

-- In the default build the assertion of the last branch is compiled out.
unfoldable pub retransmit_in : State → Connection → Connection
retransmit_in State.wait_for_ack c = record c { state = State.send_data }
retransmit_in State.wait_for_data c = record c {
  state = State.send_ack;
  block_number = previous_block c.block_number;
}
retransmit_in _ c = c

abbrev pub retransmit : Connection → Connection
retransmit c = retransmit_in c.state c

unfoldable pub handle_expired : Connection → Connection
unfolding retransmit_in
handle_expired c =
    if leb max_timeouts c.timeout_count
    then record c { finished = true }
    else retransmit (record c { timeout_count = (c.timeout_count + 1) % 256 })

-- `n == _block_number - 1` in `int`: nothing is before block 0.
abbrev pub is_previous : ℕ → ℕ → Bool
is_previous n block_number = suc n == block_number

unfoldable pub receive_ack : AckPacket → Connection → Connection
receive_ack packet c =
    let c' = record c { timeout_count = 0 } in
    if is_previous packet.block_number c.block_number
    then record c' { state = State.send_data }
    else if packet.block_number == c.block_number
    then (if c.final_ack then record c' { finished = true } else record c' {
      pkt_ready = false;
      state = State.send_data;
      block_number = next_block c.block_number;
    })
    else record c' { state = State.error }

abbrev pub ended_by : Option ErrorPacket → Connection → Connection
ended_by none c = c
ended_by (some _) c = record c { finished = true }

-- What is no packet of the kind waited for may be an error packet, which ends the connection.
unfoldable pub receive_other : Bytes → Connection → Outcome Connection
receive_other recv_data c = do
  error_packet ← deserialise_error_packet recv_data
  ok (ended_by error_packet c)

-- What is done with the parsed packet, if there is one.
unfoldable pub after_ack : Option AckPacket → Bytes → Connection → Outcome Connection
unfolding receive_ack receive_other
after_ack (some packet) recv_data c = ok (receive_ack packet c)
after_ack none recv_data c = receive_other recv_data c

unfoldable pub read_ack : Received → Connection → Outcome Connection
unfolding after_ack
read_ack r c = do
  recv_data ← recv ack_pkt_max_size r
  ack_packet ← deserialise_ack_packet recv_data
  after_ack ack_packet recv_data c

-- What follows the write of a block, by whether the writer reports an error.
unfoldable pub accepted : Bool → WriteFile → DataPacket → Connection → Connection
accepted true writer packet c = record c {
  file_writer = writer;
  timeout_count = 0;
  error_pkt = internal_error;
  state = State.error;
}
accepted false writer packet c = record c {
  file_writer = writer;
  timeout_count = 0;
  final_ack = (if ltb (length packet.payload) c.block_size then true else c.final_ack);
  state = State.send_ack;
}

-- The block that was waited for goes to the file.
unfoldable pub accept_data : DataPacket → Connection → Outcome Connection
unfolding accepted
accept_data packet c = do
  writer ← write packet.payload c.file_writer
  failed ← error writer
  ok (accepted failed writer packet c)

unfoldable pub receive_data : DataPacket → Connection → Outcome Connection
unfolding accept_data
receive_data packet c =
    let c' = record c { timeout_count = 0 } in
    if is_previous packet.block_number c.block_number
    then ok (record c' { block_number = previous_block c.block_number; state = State.send_ack })
    else if packet.block_number == c.block_number
    then accept_data packet c
    else ok (record c' { state = State.error })

unfoldable pub after_data : Option DataPacket → Bytes → Connection → Outcome Connection
unfolding receive_data receive_other
after_data (some packet) recv_data c = receive_data packet c
after_data none recv_data c = receive_other recv_data c

unfoldable pub read_data : Received → Connection → Outcome Connection
unfolding after_data
read_data r c = do
  recv_data ← recv c.block_size r
  data_packet ← deserialise_data_packet recv_data
  after_data data_packet recv_data c

-- The `switch` on the state.
unfoldable pub read_in : State → Received → Connection → Outcome Connection
unfolding read_ack read_data
read_in State.wait_for_ack r c = read_ack r c
read_in State.wait_for_data r c = read_data r c
read_in _ r c = ok c

unfoldable pub handle_read : TimerRead → Received → Connection → Outcome Connection
unfolding handle_expired read_in
handle_read t r c = if has_expired t then ok (handle_expired c) else read_in c.state r c
