-- ===== src/Server/Connection/Transfer/Negotiated.antt =====
-- The start of a transfer to a client that has asked for options.
use cpp_tftp.Common.{ℕ, ◌^◌, ◌<◌, ◌≡◌, refl, sym, ap, ◌∙◌, true, false, some, arith, length, Bytes}
use cpp_tftp.Common.Outcome.{ok}
use cpp_tftp.Tftp.Serialise.{serialise_ack_packet, serialise_oack_packet}
use cpp_tftp.File.Stream.{ReadStream}
use cpp_tftp.File.ReadFile.Pending.{IsReading, pending}
use cpp_tftp.Net.Udp.{datagram, SendResult, send_done}
use cpp_tftp.Net.Timer.{TimerRead, has_expired}
use cpp_tftp.Server.Connection.{Connection, State}
use cpp_tftp.Server.Connection.Host.{is_read}
use cpp_tftp.Server.Connection.Read.{handle_read}
use cpp_tftp.Server.Connection.Write.{handle_write, write_in, sent_oack}
use cpp_tftp.Server.Connection.Transfer.Round.{IsServing, acknowledged, handle_read-acknowledged}
use cpp_tftp.Server.Connection.Transfer.Complete.{Served, serve-Served}

-- A connection that is about to acknowledge the options of a request to read.
pub record IsOffering (c : Connection) (s : ReadStream) : Type 0 where
  pub offers : c.state ≡ State.send_oack
  pub reads : is_read c.type ≡ true
  pub at_start : c.block_number ≡ 0
  pub unread : c.pkt_ready ≡ false
  pub unfinished : c.finished ≡ false
  pub not_final : c.final_ack ≡ false
  pub is_size : c.block_size < 2 ^ 64
  pub reading : IsReading c.block_size c.file_reader s

-- The connection once its options are agreed on.
abbrev pub agreed : Connection → Connection
agreed c = record c {
  timeout_count = 0;
  pkt_ready = false;
  state = State.send_data;
  block_number = 1;
}

pub agreed-IsServing : (c : Connection) (s : ReadStream) → IsOffering c s → IsServing (agreed c) s
agreed-IsServing c s v = record {
  sends = refl;
  unread = refl;
  not_final = v.not_final;
  is_word = omega arith;
  is_size = v.is_size;
  reading = v.reading;
}

write_offer :
    (r : SendResult) (c : Connection)
    → c.state ≡ State.send_oack
    → is_read c.type ≡ true
    → send_done r ≡ true
    → handle_write r c
      ≡ ok (record c { state = State.wait_for_ack }, some (serialise_oack_packet c.oack_packet))
unfolding handle_write sent_oack
write_offer r c q reads d = ap (λ q. write_in q r c) q ∙ ground arith

acknowledged_offer :
    (c : Connection)
    → c.final_ack ≡ false
    → c.block_number ≡ 0
    → acknowledged (record c { state = State.wait_for_ack }) ≡ agreed c
acknowledged_offer c f b = ground arith

-- The options are offered, and agreed on with the acknowledgement of block 0.
pub record Agrees (r : SendResult) (t : TimerRead) (c : Connection) : Type 0 where
  pub waiting : Connection
  pub offer : handle_write r c ≡ ok (waiting, some (serialise_oack_packet c.oack_packet))
  pub agree :
      handle_read t (datagram (serialise_ack_packet (record { block_number = 0 }))) waiting
      ≡ ok (agreed c)

pub offer-Agrees :
    (r : SendResult) (t : TimerRead) (c : Connection) (s : ReadStream)
    → send_done r ≡ true
    → has_expired t ≡ false
    → IsOffering c s
    → Agrees r t c
offer-Agrees r t c s sends on_time v =
    let waiting : Connection = record c { state = State.wait_for_ack } in
    record {
      waiting = waiting;
      offer = write_offer r c v.offers v.reads sends;
      agree =
          ap
            (λ n.
              handle_read t (datagram (serialise_ack_packet (record { block_number = n }))) waiting)
            (sym v.at_start)
          ∙ handle_read-acknowledged t waiting on_time refl (omega (arith, v.at_start))
          ∙ ap ok (acknowledged_offer c v.not_final v.at_start);
    }

-- What a connection with options does: it sends their acknowledgement, and after the client's
-- acknowledgement of block 0 the file.
pub record Negotiates (f : ℕ) (r : SendResult) (t : TimerRead) (d : Bytes) (c : Connection)
    : Type 0 where
  pub waiting : Connection
  pub offer : handle_write r c ≡ ok (waiting, some (serialise_oack_packet c.oack_packet))
  pub agree :
      handle_read t (datagram (serialise_ack_packet (record { block_number = 0 }))) waiting
      ≡ ok (agreed c)
  pub transfer : Served f r t d (agreed c)

-- A connection for a request to read with options, about to acknowledge them, whose file is open on
-- a device that does not fail, with a block size from 1 to 2 ^ 64 - 1: it sends their
-- acknowledgement, waits for that of block 0, and then sends the blocks of the file, of the size
-- that was agreed on and from number 1 on, to a client that acknowledges each, and is finished. Each
-- send succeeds, no timer runs out, and the rounds are more than the encoded bytes.
pub serve-Negotiates :
    (f : ℕ) (r : SendResult) (t : TimerRead) (c : Connection) (s : ReadStream)
    → send_done r ≡ true
    → has_expired t ≡ false
    → IsOffering c s
    → 0 < c.block_size
    → length (pending c.file_reader s) < f
    → Negotiates f r t (pending c.file_reader s) c
serve-Negotiates f r t c s sends on_time v size fuel =
    let a = offer-Agrees r t c s sends on_time v in
    record {
      waiting = a.waiting;
      offer = a.offer;
      agree = a.agree;
      transfer =
          serve-Served f r t (agreed c) s sends on_time (agreed-IsServing c s v) v.unfinished size
            fuel;
    }
