-- ===== src/Server/Connection/Oack.antt =====
-- What follows the packet that acknowledges the options of a request.
use cpp_tftp.Common.{
  ℕ, zero, suc, ◌-◌, ◌≤◌, ◌<◌, ◌≡◌, refl, sym, ap, ap₂, subst, ◌∙◌, true, false, inl, inr, Option,
  none, some, arith, Option-cases, take, Bytes,
}
use cpp_tftp.Common.Outcome.{ok, bind-eq-ok, ok-injective}
use cpp_tftp.Tftp.Types.{PacketType, DataPacket, RwPacket, ErrorPacket}
use cpp_tftp.Tftp.Serialise.{serialise_data_packet, serialise_oack_packet}
use cpp_tftp.Tftp.Deserialise.{deserialise_data_packet}
use cpp_tftp.Tftp.Deserialise.Forms.{deserialise_data_packet_long}
use cpp_tftp.Tftp.RoundTrip.{word_of_bytes}
use cpp_tftp.File.WriteFile.{open_write}
use cpp_tftp.Net.Udp.{Address, datagram, SendResult, send_done}
use cpp_tftp.Net.Timer.{TimerRead, has_expired}
use cpp_tftp.Server.Connection.{Connection, State, initial}
use cpp_tftp.Server.Connection.Host.{Host, is_operation_allowed}
use cpp_tftp.Server.Connection.Options.{process_options}
use cpp_tftp.Server.Connection.Options.Bounds.{process_options-Keeps}
use cpp_tftp.Server.Connection.Create.{
  create, create_checked, create_type, create_write, resize_data,
}
use cpp_tftp.Server.Connection.Read.{handle_read, after_data, receive_data}
use cpp_tftp.Server.Connection.Receive.{handle_read-data}
use cpp_tftp.Server.Connection.Write.{handle_write, write_in, sent_oack}

-- A data packet that is cut after its header or later.
pub deserialise_data_packet-take :
    (n : ℕ) (p : DataPacket)
    → p.block_number < 65536
    → 4 ≤ n
    → deserialise_data_packet (take n (serialise_data_packet p))
      ≡ ok (some (record p { payload = take (n - 4) p.payload }))
unfolding serialise_data_packet
deserialise_data_packet-take (suc (suc (suc (suc n)))) p b h =
    deserialise_data_packet_long 0 3 _ _ (take n p.payload)
    ∙ ap₂ (λ k w. ok (some (record { payload = take k p.payload; block_number = w }))) n_left
        (word_of_bytes p.block_number b)
  where
    n_left : n ≡ suc (suc (suc (suc n))) - 4
    n_left = omega arith
deserialise_data_packet-take zero p b h = absurd (omega (arith, h))
deserialise_data_packet-take n p b h = absurd (omega (arith, h))

created_write :
    (h : Host) (r : RwPacket) (c : Connection)
    → let d = create_write h r c in (d.block_number ≡ 0) × (d.type ≡ c.type) × (d.timer ≡ c.timer)
unfolding create_write open_write
created_write h r c = elim (Option-cases (h.fopen_write r.filename)) [
  | inl e ↦ rw e (refl, refl, refl)
  | inr (w, e) ↦ rw e (refl, refl, refl)
]

-- A fresh connection for a request to write.
record IsFresh (c : Connection) : Type 0 where
  block_number : c.block_number ≡ 0
  for_write : c.type ≡ PacketType.write
  timer : c.timer.armed_s ≡ none

created_write-IsFresh :
    (h : Host) (r : RwPacket) (client : Address)
    → r.type ≡ PacketType.write
    → IsFresh (create_write h r (process_options h r (resize_data (initial r.type client))))
created_write-IsFresh h r client w =
    let start = resize_data (initial r.type client) in
    let kept = process_options-Keeps h r start in
    let (block, type, timer) = created_write h r (process_options h r start) in
    record {
      block_number = block;
      for_write = type ∙ ap (λ c. c.type) kept ∙ w;
      timer = ap (λ t. t.armed_s) (timer ∙ ap (λ c. c.timer) kept);
    }

create_checked-IsFresh :
    (o : Option ErrorPacket) (h : Host) (r : RwPacket) (client : Address)
    → r.type ≡ PacketType.write
    → (create_checked o h r (initial r.type client)).state ≡ State.send_oack
    → IsFresh (create_checked o h r (initial r.type client))
unfolding create_checked create_type
create_checked-IsFresh (some e) h r client w s = cc s
create_checked-IsFresh none h r client w s =
    subst
      (λ t. IsFresh (create_type t h r (process_options h r (resize_data (initial r.type client)))))
      (sym w) (created_write-IsFresh h r client w)

create-IsFresh :
    (h : Host) (r : RwPacket) (client : Address) {c : Connection}
    → create h r client ≡ ok c
    → r.type ≡ PacketType.write
    → c.state ≡ State.send_oack
    → IsFresh c
unfolding create
create-IsFresh h r client e w s =
    let (u, _, e1) = bind-eq-ok h.socket _ e in
    subst (λ c. c.state ≡ State.send_oack → IsFresh c) (ok-injective e1)
      (create_checked-IsFresh (is_operation_allowed h r.filename r.type) h r client w) s

write_oack :
    (s : SendResult) (c : Connection)
    → c.state ≡ State.send_oack
    → c.type ≡ PacketType.write
    → send_done s ≡ true
    → handle_write s c
      ≡ ok (record c { state = State.wait_for_data }, some (serialise_oack_packet c.oack_packet))
unfolding handle_write sent_oack
write_oack s c q w d = ap (λ q. write_in q s c) q ∙ ground arith

unexpected_block :
    (t : TimerRead) (p : DataPacket) (c : Connection)
    → has_expired t ≡ false
    → c.state ≡ State.wait_for_data
    → c.block_number ≡ 0
    → 0 < p.block_number
    → p.block_number < 65536
    → 4 ≤ c.block_size
    → handle_read t (datagram (serialise_data_packet p)) c
      ≡ ok (record c { timeout_count = 0; state = State.error })
unfolding after_data receive_data
unexpected_block t p c e q b pos small h =
    handle_read-data t (serialise_data_packet p) c e _ q
      (deserialise_data_packet-take c.block_size p small h)
    ∙ ground arith

-- A connection for a request to write with options, and a block size of four bytes or more: when
-- the acknowledgement of the options is sent, the connection waits for a data block with number 0,
-- and no timer was armed. The block 1 with which a client starts puts it in the error state, and
-- nothing is written.
pub oack_refuses_first_block :
    (h : Host) (r : RwPacket) (client : Address) (c : Connection) (s : SendResult) (t : TimerRead)
    (payload : Bytes)
    → create h r client ≡ ok c
    → r.type ≡ PacketType.write
    → c.state ≡ State.send_oack
    → 4 ≤ c.block_size
    → send_done s ≡ true
    → has_expired t ≡ false
    → let waiting : Connection = record c { state = State.wait_for_data } in
      (handle_write s c ≡ ok (waiting, some (serialise_oack_packet c.oack_packet)))
      × (waiting.timer.armed_s ≡ none)
      × (handle_read t
            (datagram (serialise_data_packet (record { payload = payload; block_number = 1 })))
            waiting
          ≡ ok (record waiting { timeout_count = 0; state = State.error }))
oack_refuses_first_block h r client c s t payload e w q size d on_time =
    let fresh = create-IsFresh h r client e w q in
    (
      write_oack s c q fresh.for_write d,
      fresh.timer,
      unexpected_block t (record { payload = payload; block_number = 1 })
          (record c { state = State.wait_for_data }) on_time refl fresh.block_number (omega arith)
          (omega arith) size,
    )
