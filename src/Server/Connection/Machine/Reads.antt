-- ===== src/Server/Connection/Machine/Reads.antt =====
-- `handle_read` in the state machine.
use cpp_tftp.Common.{
  ◌≡◌, refl, subst, Bool, true, inl, inr, Option, none, some, arith, ◌==◌, Bool-cases, Bytes,
}
use cpp_tftp.Common.Outcome.{ok, bind-eq-ok, ok-injective}
use cpp_tftp.Tftp.Types.{AckPacket, DataPacket, ErrorPacket}
use cpp_tftp.Tftp.Deserialise.{
  deserialise_ack_packet, deserialise_data_packet, deserialise_error_packet,
}
use cpp_tftp.File.WriteFile.{WriteFile, write, error}
use cpp_tftp.Net.Udp.{Received, recv}
use cpp_tftp.Net.Timer.{TimerRead, has_expired}
use cpp_tftp.Server.Connection.{Connection, State}
use cpp_tftp.Server.Connection.Host.{is_read, is_write}
use cpp_tftp.Server.Connection.Read.{
  handle_read, handle_expired, retransmit_in, read_in, read_ack, read_data, after_ack, after_data,
  receive_ack, receive_data, receive_other, ended_by, accept_data, accepted, is_previous,
}
use cpp_tftp.Server.Connection.Machine.{IsConsistent, Moves, role_in, not_both, stays}

module _ (c : Connection) (v : IsConsistent c) where
  handle_expired-Moves : Moves c (handle_expired c)
  unfolding handle_expired retransmit_in
  handle_expired-Moves = let role = v.role in ground arith

  receive_ack-Moves : (p : AckPacket) → c.state ≡ State.wait_for_ack → Moves c (receive_ack p c)
  unfolding receive_ack
  receive_ack-Moves p e =
      let role : is_read c.type ≡ true = role_in c v State.wait_for_ack e in ground arith

  ended_by-Moves : (o : Option ErrorPacket) → Moves c (ended_by o c)
  ended_by-Moves none = stays c v
  ended_by-Moves (some p) = ground arith

  receive_other-Moves : (d : Bytes) {c' : Connection} → receive_other d c ≡ ok c' → Moves c c'
  unfolding receive_other
  receive_other-Moves d h =
      let (o, _, e) = bind-eq-ok (deserialise_error_packet d) _ h in
      subst (Moves c) (ok-injective e) (ended_by-Moves o)

  accepted-Moves :
      (b : Bool) (w : WriteFile) (p : DataPacket)
      → c.state ≡ State.wait_for_data
      → Moves c (accepted b w p c)
  unfolding accepted
  accepted-Moves b w p e =
      let role : is_write c.type ≡ true = role_in c v State.wait_for_data e in
      let other = not_both c.type in ground arith

  accept_data-Moves :
      (p : DataPacket) {c' : Connection}
      → c.state ≡ State.wait_for_data
      → accept_data p c ≡ ok c'
      → Moves c c'
  unfolding accept_data
  accept_data-Moves p q h =
      let (writer, _, e1) = bind-eq-ok (write p.payload c.file_writer) _ h in
      let (b, _, e2) = bind-eq-ok (error writer) _ e1 in
      subst (Moves c) (ok-injective e2) (accepted-Moves b writer p q)

  receive_data-Moves :
      (p : DataPacket) {c' : Connection}
      → c.state ≡ State.wait_for_data
      → receive_data p c ≡ ok c'
      → Moves c c'
  unfolding receive_data
  receive_data-Moves p q h =
      let role : is_write c.type ≡ true = role_in c v State.wait_for_data q in
      elim (Bool-cases (is_previous p.block_number c.block_number)) [
        | inl before ↦ subst (Moves c) (ok-injective (rw before at h)) (ground arith)
        | inr new ↦ elim (Bool-cases (p.block_number == c.block_number)) [
          | inl expected ↦ accept_data-Moves p q (rw (new, expected) at h)
          | inr wrong ↦ subst (Moves c) (ok-injective (rw (new, wrong) at h)) (ground arith)
        ]
      ]

  after_ack-Moves :
      (o : Option AckPacket) (d : Bytes) {c' : Connection}
      → c.state ≡ State.wait_for_ack
      → after_ack o d c ≡ ok c'
      → Moves c c'
  unfolding after_ack
  after_ack-Moves none d q h = receive_other-Moves d h
  after_ack-Moves (some p) d q h = subst (Moves c) (ok-injective h) (receive_ack-Moves p q)

  after_data-Moves :
      (o : Option DataPacket) (d : Bytes) {c' : Connection}
      → c.state ≡ State.wait_for_data
      → after_data o d c ≡ ok c'
      → Moves c c'
  unfolding after_data
  after_data-Moves none d q h = receive_other-Moves d h
  after_data-Moves (some p) d q h = receive_data-Moves p q h

  read_in-Moves :
      (q : State) (r : Received) {c' : Connection}
      → c.state ≡ q
      → read_in q r c ≡ ok c'
      → Moves c c'
  unfolding read_in read_ack read_data
  read_in-Moves State.wait_for_ack r q h =
      let (d, _, e1) = bind-eq-ok (recv 4 r) _ h in
      let (o, _, e2) = bind-eq-ok (deserialise_ack_packet d) _ e1 in after_ack-Moves o d q e2
  read_in-Moves State.wait_for_data r q h =
      let (d, _, e1) = bind-eq-ok (recv c.block_size r) _ h in
      let (o, _, e2) = bind-eq-ok (deserialise_data_packet d) _ e1 in after_data-Moves o d q e2
  read_in-Moves State.send_ack r q h = subst (Moves c) (ok-injective h) (stays c v)
  read_in-Moves State.send_data r q h = subst (Moves c) (ok-injective h) (stays c v)
  read_in-Moves State.send_oack r q h = subst (Moves c) (ok-injective h) (stays c v)
  read_in-Moves State.error r q h = subst (Moves c) (ok-injective h) (stays c v)

  pub handle_read-Moves :
      (t : TimerRead) (r : Received) {c' : Connection} → handle_read t r c ≡ ok c' → Moves c c'
  unfolding handle_read
  handle_read-Moves t r h = elim (Bool-cases (has_expired t)) [
    | inl late ↦ subst (Moves c) (ok-injective (rw late at h)) handle_expired-Moves
    | inr on_time ↦ read_in-Moves c.state r refl (rw on_time at h)
  ]
