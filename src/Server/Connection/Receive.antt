-- ===== src/Server/Connection/Receive.antt =====
-- What `handle_read` makes of a datagram, on each side of a transfer.
use cpp_tftp.Common.{
  ◌+◌, ◌<◌, ◌≡◌, refl, sym, ap, subst, ◌∙◌, Bool, true, false, inl, inr, [], ◌∷◌, Option, none,
  some, arith, ◌==◌, if◌then◌else◌, Bool-cases, length, take, length-take, Bytes,
}
use cpp_tftp.Common.Outcome.{ok, bind-eq-ok, ok-injective}
use cpp_tftp.Tftp.Types.{DataPacket, AckPacket, ErrorPacket}
use cpp_tftp.Tftp.Deserialise.{
  deserialise_data_packet, deserialise_ack_packet, deserialise_error_packet,
}
use cpp_tftp.Tftp.Deserialise.Forms.{
  data_packet_at, deserialise_data_packet_long, deserialise_data_packet_short,
  deserialise_error_packet_short,
}
use cpp_tftp.Tftp.Deserialise.Total.{data_packet-Returns}
use cpp_tftp.File.WriteFile.{WriteFile, write, error}
use cpp_tftp.Net.Udp.{datagram, recv}
use cpp_tftp.Net.Timer.{TimerRead, has_expired}
use cpp_tftp.Server.Connection.{Connection, State}
use cpp_tftp.Server.Connection.Read.{
  handle_read, read_in, read_ack, read_data, after_ack, after_data, ended_by, accepted, accept_data,
  is_previous,
}

-- A parsed data packet is four bytes shorter than its datagram.
data_packet-payload :
    (d : Bytes) {p : DataPacket}
    → deserialise_data_packet d ≡ ok (some p)
    → length p.payload + 4 ≡ length d
data_packet-payload (z ∷ c ∷ h ∷ l ∷ rest) {p} e =
    payload_at (c == 3) (sym (deserialise_data_packet_long z c h l rest) ∙ e)
  where
    payload_at :
        (b : Bool)
        → ok (if b then some (data_packet_at h l rest) else none) ≡ ok (some p)
        → length p.payload + 4 ≡ length (z ∷ c ∷ h ∷ l ∷ rest)
    payload_at true e =
        let same : data_packet_at h l rest ≡ p = cc in
        omega (arith, ap (λ p. length p.payload) same)
    payload_at false e = cc
data_packet-payload [] e = cc (e, deserialise_data_packet_short [] (omega arith))
data_packet-payload d e = cc (e, deserialise_data_packet_short d (omega arith))

module _ (t : TimerRead) (d : Bytes) (c : Connection) (on_time : has_expired t ≡ false) where
  pub handle_read-ack :
      (o : Option AckPacket)
      → c.state ≡ State.wait_for_ack
      → deserialise_ack_packet (take 4 d) ≡ ok o
      → handle_read t (datagram d) c ≡ after_ack o (take 4 d) c
  unfolding handle_read recv read_ack
  handle_read-ack o s e = rw on_time (ap (λ s. read_in s (datagram d) c) s ∙ rw e)

  pub handle_read-data :
      (o : Option DataPacket)
      → c.state ≡ State.wait_for_data
      → deserialise_data_packet (take c.block_size d) ≡ ok o
      → handle_read t (datagram d) c ≡ after_data o (take c.block_size d) c
  unfolding handle_read recv read_data
  handle_read-data o s e = rw on_time (ap (λ s. read_in s (datagram d) c) s ∙ rw e)

-- While an acknowledgement is awaited and the timer has not run out, a datagram whose first four
-- bytes are no acknowledgement changes nothing: an error packet from the client does not end the
-- connection.
handle_read_ignores_errors :
    (t : TimerRead) (d : Bytes) (c : Connection)
    → has_expired t ≡ false
    → c.state ≡ State.wait_for_ack
    → deserialise_ack_packet (take 4 d) ≡ ok none
    → handle_read t (datagram d) c ≡ ok c
unfolding after_ack
handle_read_ignores_errors t d c e s a =
    handle_read-ack t d c e none s a
    ∙ rw (deserialise_error_packet_short (take 4 d) (omega (arith, length-take 4 d)))

accepted_final :
    (b : Bool) (writer : WriteFile) (p : DataPacket) (c : Connection)
    → length p.payload < c.block_size
    → (accepted b writer p c).state ≡ State.send_ack
    → (accepted b writer p c).final_ack ≡ true
unfolding accepted
accepted_final true writer p c h s = cc s
accepted_final false writer p c h s = ground arith

accept_data_final :
    (p : DataPacket) (c : Connection) {c' : Connection}
    → length p.payload < c.block_size
    → accept_data p c ≡ ok c'
    → c'.state ≡ State.send_ack
    → c'.final_ack ≡ true
unfolding accept_data
accept_data_final p c h e =
    let (writer, _, e1) = bind-eq-ok (write p.payload c.file_writer) _ e in
    let (b, _, e2) = bind-eq-ok (error writer) _ e1 in
    subst (λ c'. c'.state ≡ State.send_ack → c'.final_ack ≡ true) (ok-injective e2)
      (accepted_final b writer p c h)

receive_other_state : (o : Option ErrorPacket) (c : Connection) → (ended_by o c).state ≡ c.state
receive_other_state none c = refl
receive_other_state (some p) c = refl

after_data_final :
    (o : Option DataPacket) (recv_data : Bytes) (c : Connection) {c' : Connection}
    → c.state ≡ State.wait_for_data
    → ((p : DataPacket) → o ≡ some p → length p.payload < c.block_size)
    → after_data o recv_data c ≡ ok c'
    → c'.state ≡ State.send_ack
    → c'.block_number ≡ c.block_number
    → c'.final_ack ≡ true
unfolding after_data
after_data_final none recv_data c s short e sends same =
    let (o, _, e1) = bind-eq-ok (deserialise_error_packet recv_data) _ e in
    cc (ap (λ c. c.state) (ok-injective e1), receive_other_state o c, s, sends)
after_data_final (some p) recv_data c s short e sends same =
    elim (Bool-cases (is_previous p.block_number c.block_number)) [
      | inl before ↦
          absurd (omega (arith, ap (λ c. c.block_number) (ok-injective (rw before at e)), same))
      | inr new ↦ elim (Bool-cases (p.block_number == c.block_number)) [
        | inl expected ↦ accept_data_final p c (short p refl) (rw (new, expected) at e) sends
        | inr other ↦ cc (ap (λ c. c.state) (ok-injective (rw (new, other) at e)), sends)
      ]
    ]

-- A connection that waits for data, whose timer has not run out and which goes on to acknowledge a
-- datagram with the block that it waits for, has the flag of the last block set: every block that
-- is accepted counts as the last one, since it is received with its four bytes of header into a
-- buffer of the size of a block.
pub handle_read_block_is_final :
    (t : TimerRead) (d : Bytes) (c c' : Connection)
    → has_expired t ≡ false
    → c.state ≡ State.wait_for_data
    → handle_read t (datagram d) c ≡ ok c'
    → c'.state ≡ State.send_ack
    → c'.block_number ≡ c.block_number
    → c'.final_ack ≡ true
handle_read_block_is_final t d c c' on_time s e =
    let recv_data = take c.block_size d in
    let (o, parsed) = data_packet-Returns recv_data in
    after_data_final o recv_data c s
      (λ p q.
        omega (arith, data_packet-payload recv_data (parsed ∙ ap ok q), length-take c.block_size d))
      (sym (handle_read-data t d c on_time o s parsed) ∙ e)
