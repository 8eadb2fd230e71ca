-- ===== src/Server/Connection/Write.antt =====
-- `handle_write`. The result is the connection and the datagram that was handed to `send`, if any.
use cpp_tftp.Common.{Bool, true, false, Option, none, some, ltb, if◌then◌else◌, length, Bytes}
use cpp_tftp.Common.Outcome.{Outcome, ok, throw, ◌>>=◌, error_state}
use cpp_tftp.Tftp.Serialise.{
  serialise_data_packet, serialise_ack_packet, serialise_error_packet, serialise_oack_packet,
}
use cpp_tftp.File.ReadFile.{ReadFile, read_in_to, error, eof}
use cpp_tftp.Net.Udp.{SendResult, send_failed, send_done}
use cpp_tftp.Net.Timer.{arm_timer}
use cpp_tftp.Server.Connection.{Connection, State}
use cpp_tftp.Server.Connection.Host.{is_read}
use cpp_tftp.Server.Connection.Read.{next_block, internal_error}

abbrev pub fail_internal : Connection → Connection
fail_internal c = record c { error_pkt = internal_error; state = State.error }

-- What follows the read of a block, by whether the reader reports an error. The end of the file is
-- only looked at where the block is full, and then changes nothing.
unfoldable pub filled : Bool → Bytes → ReadFile → Connection → Outcome (Connection × Bool)
filled true payload reader c = ok (fail_internal c, false)
filled false payload reader c = do
  let short = ltb (length payload) c.block_size
  last ← (if short then ok true else eof reader)
  let c' = if last then (if short then record c { final_ack = true } else c) else c
  ok (
    record c' {
      data_pkt = record { payload = payload; block_number = c.block_number };
      pkt_ready = true;
    },
    true,
  )

-- `if (!_pkt_ready)`: the next block is read into `_data_pkt`. The result is true where the packet
-- can be sent.
unfoldable pub read_block : Connection → Outcome (Connection × Bool)
unfolding filled
read_block c = do
  (payload, reader) ← read_in_to c.file_reader c.block_size
  failed ← error reader
  filled failed payload reader
      (record c { file_reader = reader; data_pkt = record c.data_pkt { payload = payload } })

unfoldable pub prepare : Connection → Outcome (Connection × Bool)
unfolding read_block
prepare c = let block = read_block c in if c.pkt_ready then ok (c, true) else block

unfoldable pub sent_data : SendResult → Connection → Connection
sent_data r c =
    if send_failed r
    then fail_internal c
    else if send_done r
    then record c { state = State.wait_for_ack; timer = arm_timer c.timeout_s c.timer }
    else c

-- The packet is sent, unless its block could not be read.
unfoldable pub send_prepared : SendResult → Connection → Bool → Connection × Option Bytes
unfolding sent_data
send_prepared r c true = (sent_data r c, some (serialise_data_packet c.data_pkt))
send_prepared r c false = (c, none)

unfoldable pub write_data : SendResult → Connection → Outcome (Connection × Option Bytes)
unfolding prepare send_prepared
write_data r c = do (c', ready) ← prepare c; ok (send_prepared r c' ready)

unfoldable pub sent_ack : SendResult → Connection → Connection
sent_ack r c =
    if send_failed r
    then fail_internal c
    else if send_done r
    then (if c.final_ack then record c { finished = true } else record c {
      block_number = next_block c.block_number;
      state = State.wait_for_data;
      timer = arm_timer c.timeout_s c.timer;
    })
    else c

unfoldable pub sent_oack : SendResult → Connection → Connection
sent_oack r c =
    if send_failed r
    then record c { finished = true }
    else if send_done r
    then record c { state = (if is_read c.type then State.wait_for_ack else State.wait_for_data) }
    else c

unfoldable pub sent_error : SendResult → Connection → Connection
sent_error r c =
    if send_failed r
    then record c { finished = true }
    else if send_done r
    then record c { finished = true }
    else c

-- The `switch` on the state.
unfoldable pub write_in : State → SendResult → Connection → Outcome (Connection × Option Bytes)
unfolding write_data sent_ack sent_oack sent_error
write_in State.send_data r c = write_data r c
write_in State.send_ack r c =
    ok (sent_ack r c, some (serialise_ack_packet (record { block_number = c.block_number })))
write_in State.send_oack r c = ok (sent_oack r c, some (serialise_oack_packet c.oack_packet))
write_in State.error r c = ok (sent_error r c, some (serialise_error_packet c.error_pkt))
write_in State.wait_for_ack r c = throw error_state
write_in State.wait_for_data r c = throw error_state

unfoldable pub handle_write : SendResult → Connection → Outcome (Connection × Option Bytes)
unfolding write_in
handle_write r c = write_in c.state r c
