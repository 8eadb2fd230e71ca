-- ===== src/Server/Connection/Transfer/Round.antt =====
-- One exchange of a transfer: a block of the file is read and sent, and acknowledged.
use cpp_tftp.Common.{
  ◌^◌, ◌<◌, ◌≡◌, refl, ap, ◌∙◌, Bool, true, false, inl, inr, some, arith, ltb, ltb→lt, ltb→le,
  lt→ltb, le→ltb, ==_refl, if◌then◌else◌, Bool-cases, length, take, length-take, is_empty, Bytes,
}
use cpp_tftp.Common.Outcome.{ok, ◌>>=◌}
use cpp_tftp.Tftp.Types.{DataPacket, AckPacket}
use cpp_tftp.Tftp.Serialise.{serialise_data_packet, serialise_ack_packet}
use cpp_tftp.Tftp.RoundTrip.{
  deserialise_data_packet-serialise_data_packet, deserialise_ack_packet-serialise_ack_packet,
}
use cpp_tftp.File.Stream.{ReadStream}
use cpp_tftp.File.ReadFile
use cpp_tftp.File.ReadFile.{ReadFile, from_fd, eof}
use cpp_tftp.File.ReadFile.Pending.{IsReading, pending, Reads, read_in_to-Reads}
use cpp_tftp.Net.Udp.{datagram, SendResult, send_done}
use cpp_tftp.Net.Timer.{TimerRead, has_expired, arm_timer}
use cpp_tftp.Server.Connection.{Connection, State}
use cpp_tftp.Server.Connection.Read.{handle_read, next_block, after_ack, receive_ack, is_previous}
use cpp_tftp.Server.Connection.Receive.{handle_read-ack}
use cpp_tftp.Server.Connection.Write.{
  handle_write, write_in, write_data, prepare, read_block, filled, send_prepared, sent_data,
}
use cpp_tftp.Server.Connection.Retransmit.{sent_data_done}
use cpp_tftp.Server.Connection.Transfer.{exchange, answer}

-- A connection that is about to read and to send the next block of its file.
pub record IsServing (c : Connection) (s : ReadStream) : Type 0 where
  pub sends : c.state ≡ State.send_data
  pub unread : c.pkt_ready ≡ false
  pub not_final : c.final_ack ≡ false
  pub is_word : c.block_number < 65536
  pub is_size : c.block_size < 2 ^ 64
  pub reading : IsReading c.block_size c.file_reader s

-- The next block.
abbrev pub block_of : Connection → ReadStream → DataPacket
block_of c s = record {
  payload = take c.block_size (pending c.file_reader s);
  block_number = c.block_number;
}

abbrev pub is_last : Connection → ReadStream → Bool
is_last c s = ltb (length (pending c.file_reader s)) c.block_size

-- The connection with its block in the packet, and once that was sent.
abbrev pub with_block : Connection → ReadStream → ReadFile → Connection
with_block c s reader = record c {
  file_reader = reader;
  final_ack = is_last c s;
  data_pkt = block_of c s;
  pkt_ready = true;
}

abbrev pub with_sent : Connection → ReadStream → ReadFile → Connection
with_sent c s reader = record (with_block c s reader) {
  state = State.wait_for_ack;
  timer = arm_timer c.timeout_s c.timer;
}

error_opened : (r : ReadFile) (s : ReadStream) → r.fd ≡ some s → ReadFile.error r ≡ ok s.ferror
unfolding ReadFile.error
error_opened r s e = ap (λ o. from_fd o >>= λ s. ok s.ferror) e

eof_opened : (r : ReadFile) (s : ReadStream) → r.fd ≡ some s → (b : Bool) × (eof r ≡ ok b)
unfolding eof
eof_opened r s e = elim (Bool-cases (is_empty r.overflow_buffer)) [
  | inl empty ↦ (s.feof, rw empty (ap (λ o. from_fd o >>= λ s. ok s.feof) e))
  | inr rest ↦ (false, rw rest)
]

-- Whatever `eof` returns, only a short block is the last.
filled_lem :
    (payload : Bytes) (r : ReadFile) (s : ReadStream) (c : Connection)
    → r.fd ≡ some s
    → c.final_ack ≡ false
    → filled false payload r c
      ≡ ok (
        record c {
          final_ack = ltb (length payload) c.block_size;
          data_pkt = record { payload = payload; block_number = c.block_number };
          pkt_ready = true;
        },
        true,
      )
unfolding filled
filled_lem payload r s c e f = elim (Bool-cases (ltb (length payload) c.block_size)) [
  | inl short ↦ rw short
  | inr full ↦ let (b, q) = eof_opened r s e in rw (full, q) (kept b)
]
  where
    packed : Bool → Connection × Bool
    packed final = (
      record c {
        final_ack = final;
        data_pkt = record { payload = payload; block_number = c.block_number };
        pkt_ready = true;
      },
      true,
    )

    kept :
        (b : Bool)
        → ok (
          record (if b then c else c) {
            data_pkt = record { payload = payload; block_number = c.block_number };
            pkt_ready = true;
          },
          true,
        )
          ≡ ok (packed false)
    kept true = ap (λ final. ok (packed final)) f
    kept false = ap (λ final. ok (packed final)) f

module _ (c : Connection) (s : ReadStream) (v : IsServing c s) where
  abbrev pub reads : Reads c.block_size c.file_reader s
  reads = read_in_to-Reads c.block_size c.file_reader s v.is_size v.reading

  short_payload :
      ltb (length (take c.block_size (pending c.file_reader s))) c.block_size ≡ is_last c s
  short_payload =
      let d = pending c.file_reader s in
      elim (Bool-cases (ltb (length d) c.block_size)) [
        | inl short ↦
            rw short (lt→ltb _ _ (omega (arith, length-take c.block_size d, ltb→lt _ _ short)))
        | inr full ↦
            rw full (le→ltb _ _ (omega (arith, length-take c.block_size d, ltb→le _ _ full)))
      ]

  -- The block that is read is the next one of the pending bytes.
  read_block_serving : read_block c ≡ ok (with_block c s reads.next, true)
  unfolding read_block
  read_block_serving =
      let payload = take c.block_size (pending c.file_reader s) in
      let got = record c {
        file_reader = reads.next;
        data_pkt = record c.data_pkt { payload = payload };
      } in
      ap
        (λ o. o >>= λ x. ReadFile.error x.1 >>= λ b.
          filled b x.0 x.1
            (record c { file_reader = x.1; data_pkt = record c.data_pkt { payload = x.0 } }))
        reads.returns
      ∙ ap (λ o. o >>= λ b. filled b payload reads.next got)
          (error_opened reads.next reads.next_stream reads.reading.opened
            ∙ ap ok reads.reading.good.no_error)
      ∙ filled_lem payload reads.next reads.next_stream got reads.reading.opened v.not_final
      ∙ ap (λ b. ok (record (with_block c s reads.next) { final_ack = b }, true)) short_payload

  -- The block is sent, whatever `send` returns.
  pub handle_write_block :
      (r : SendResult)
      → handle_write r c
        ≡ ok (sent_data r (with_block c s reads.next), some (serialise_data_packet (block_of c s)))
  unfolding handle_write write_data prepare send_prepared
  handle_write_block r =
      ap (λ q. write_in q r c) v.sends
      ∙ ap (λ b. (if b then ok (c, true) else read_block c) >>= λ x. ok (send_prepared r x.0 x.1))
          v.unread
      ∙ ap (λ o. o >>= λ x. ok (send_prepared r x.0 x.1)) read_block_serving

  pub handle_write_serving :
      (r : SendResult)
      → send_done r ≡ true
      → handle_write r c
        ≡ ok (with_sent c s reads.next, some (serialise_data_packet (block_of c s)))
  handle_write_serving r d =
      handle_write_block r
      ∙ ap (λ c'. ok (c', some (serialise_data_packet (block_of c s))))
          (sent_data_done r (with_block c s reads.next) d)

-- The connection once its block is acknowledged.
abbrev pub acknowledged : Connection → Connection
acknowledged c =
    let c' : Connection = record c { timeout_count = 0 } in
    if c.final_ack then record c' { finished = true } else record c' {
      pkt_ready = false;
      state = State.send_data;
      block_number = next_block c.block_number;
    }

receive_ack_same :
    (c : Connection) → receive_ack (record { block_number = c.block_number }) c ≡ acknowledged c
unfolding receive_ack
receive_ack_same c =
    let not_previous : is_previous c.block_number c.block_number ≡ false = ground arith in
    rw (not_previous, ==_refl c.block_number)

pub handle_read-acknowledged :
    (t : TimerRead) (c : Connection)
    → has_expired t ≡ false
    → c.state ≡ State.wait_for_ack
    → c.block_number < 65536
    → handle_read t (datagram (serialise_ack_packet (record { block_number = c.block_number }))) c
      ≡ ok (acknowledged c)
unfolding after_ack serialise_ack_packet
handle_read-acknowledged t c e q b =
    let ack : AckPacket = record { block_number = c.block_number } in
    handle_read-ack t (serialise_ack_packet ack) c e (some ack) q
      (deserialise_ack_packet-serialise_ack_packet ack b)
    ∙ ap ok (receive_ack_same c)

answer_data :
    (p : DataPacket)
    → p.block_number < 65536
    → answer (some (serialise_data_packet p))
      ≡ ok (datagram (serialise_ack_packet (record { block_number = p.block_number })))
unfolding answer
answer_data p h = rw (deserialise_data_packet-serialise_data_packet p h)

-- A block is sent, and the client's acknowledgement of it taken in.
pub exchange_lem :
    (c : Connection) (s : ReadStream) (v : IsServing c s) (r : SendResult) (t : TimerRead)
    → send_done r ≡ true
    → has_expired t ≡ false
    → exchange r t c
      ≡ ok (
        acknowledged (with_sent c s (reads c s v).next),
        some (serialise_data_packet (block_of c s)),
      )
unfolding exchange
exchange_lem c s v r t d e =
    let c' = with_sent c s (reads c s v).next in
    let sent = some (serialise_data_packet (block_of c s)) in
    let ack = serialise_ack_packet (record { block_number = c.block_number }) in
    ap (λ o. o >>= λ x. answer x.1 >>= λ reply. handle_read t reply x.0 >>= λ c''. ok (c'', x.1))
      (handle_write_serving c s v r d)
    ∙ ap (λ o. o >>= λ reply. handle_read t reply c' >>= λ c''. ok (c'', sent))
        (answer_data (block_of c s) v.is_word)
    ∙ ap (λ o. o >>= λ c''. ok (c'', sent)) (handle_read-acknowledged t c' e refl v.is_word)
