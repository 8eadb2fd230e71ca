-- ===== src/Tests/Connections.antt =====
-- Tests of a connection.
pub mod Transfers
pub mod Orders
use cpp_tftp.Common.{
  ◌≤◌, ◌%◌, ◌^◌, ◌≡◌, ◌⊎◌, refl, true, false, [], ◌∷◌, some, none, arith, Bytes, codes, take, equal,
  c_str,
}
use cpp_tftp.Common.Outcome.{ok, undefined, at}
use cpp_tftp.Common.Decimal.{stoul}
use cpp_tftp.Tftp.Types.{PacketType, Mode, RwPacket, rw_packet}
use cpp_tftp.Tftp.Serialise.{serialise_data_packet, serialise_oack_packet}
use cpp_tftp.Tftp.Deserialise.{deserialise_ack_packet}
use cpp_tftp.Tftp.Modes.{strcmp_eq}
use cpp_tftp.File.WriteFile.{open_write}
use cpp_tftp.Net.Udp.{datagram, SendResult}
use cpp_tftp.Server.Connection.{Connection, State, initial, set_finished}
use cpp_tftp.Server.Connection.Host.{Host}
use cpp_tftp.Server.Connection.Options.{
  blksize_opt, process_options, process_all, process_option, timeout_option,
}
use cpp_tftp.Server.Connection.Options.Bounds.{process_options-block_size_unbounded}
use cpp_tftp.Server.Connection.Create.{create, create_type, create_write}
use cpp_tftp.Server.Connection.Access.{
  IsAllowed, before_switch, create_allowed, create_unopened_read,
}
use cpp_tftp.Server.Connection.Read.{handle_read}
use cpp_tftp.Server.Connection.Write.{handle_write}
use cpp_tftp.Server.Connection.Retransmit.{Round, IsSilent, for_ack}
use cpp_tftp.Server.Connection.Retransmit.Silence.{GivesUp, rounds-GivesUp}
use cpp_tftp.Server.Connection.Oack.{oack_refuses_first_block}
use cpp_tftp.Server.Connection.Machine.{Moves}
use cpp_tftp.Server.Connection.Machine.Reach.{none_yet, after, closes, create-Moves}
use cpp_tftp.Tests.{
  client, host, read_request, write_request, write_allowed, sent_ok, early, late, early-on_time,
  late-expired, awaiting_ack,
}

-- The file exists but cannot be opened.
abbrev locked : Host
locked = record (host true) { fopen_read = λ _. none }

locked_allowed : IsAllowed locked read_request.filename read_request.type
locked_allowed = record {
  below = codes "f" ∷ [];
  inside = refl;
  write_is_new = λ e. cc e;
  read_exists = λ _. refl;
}

create_unopened_read_example :
    (c : Connection) × (create locked read_request client ≡ ok c)
    × ((c.state ≡ State.send_data) ⊎ (c.state ≡ State.send_oack))
    × (c.file_reader.fd ≡ none)
    × ((send : SendResult) → c.state ≡ State.send_data → handle_write send c ≡ undefined)
create_unopened_read_example =
    create_unopened_read locked read_request client refl refl locked_allowed refl

-- An error packet while an acknowledgement is awaited.
no_ack : deserialise_ack_packet (take 4 (0 ∷ 5 ∷ 0 ∷ 1 ∷ 65 ∷ 0 ∷ [])) ≡ ok none
unfolding deserialise_ack_packet at
no_ack = refl

abbrev lost : Round
lost = record { expiry = late; received = datagram []; sent = sent_ok }

lost-IsSilent : IsSilent lost
lost-IsSilent = record { expired = late-expired; done = refl }

rounds-GivesUp_example : GivesUp (lost ∷ lost ∷ lost ∷ lost ∷ []) awaiting_ack
rounds-GivesUp_example =
    rounds-GivesUp (lost ∷ lost ∷ lost ∷ lost ∷ []) awaiting_ack
      (lost-IsSilent, (lost-IsSilent, (lost-IsSilent, (lost-IsSilent, tt)))) (for_ack refl refl)
      refl (omega arith) (omega arith)

abbrev sized : Bytes → RwPacket
sized value = record (rw_packet (codes "f") PacketType.read Mode.octet) {
  options = (blksize_opt, value) ∷ [];
}

number_512 : stoul (codes "512") ≡ ok 512
unfolding stoul
number_512 = refl

large_number : stoul (codes "3000000000") ≡ ok 3000000000
unfolding stoul
large_number = refl

process_options-block_size_unbounded_example :
    (process_options
      (host true)
      (sized (codes "3000000000"))
      (initial PacketType.read client)).block_size
    ≡ 3000000000 % 2 ^ 32
process_options-block_size_unbounded_example =
    process_options-block_size_unbounded (host true) (sized (codes "3000000000"))
      (initial PacketType.read client) (codes "3000000000") 3000000000 refl large_number
      (omega arith)

-- The connection for a request to write with a timeout of five seconds.
abbrev writing : Connection
writing =
    create_type PacketType.write (host false) write_request
      (before_switch (host false) write_request client)

writing-created : create (host false) write_request client ≡ ok writing
writing-created = create_allowed (host false) write_request client refl write_allowed

create-Moves_example : Moves writing (set_finished true writing)
create-Moves_example =
    create-Moves (host false) write_request client writing (set_finished true writing)
      writing-created (after writing (set_finished true writing) none_yet (closes writing))

writing-asks : writing.state ≡ State.send_oack
unfolding create_type create_write process_all process_option timeout_option stoul open_write
    strcmp_eq equal c_str
writing-asks = refl

writing-size : 4 ≤ writing.block_size
unfolding create_type create_write process_all process_option timeout_option stoul open_write
    strcmp_eq equal c_str
writing-size = omega arith

oack_refuses_first_block_example :
    let waiting : Connection = record writing { state = State.wait_for_data } in
    (handle_write sent_ok writing ≡ ok (waiting, some (serialise_oack_packet writing.oack_packet)))
    × (waiting.timer.armed_s ≡ none)
    × (handle_read early
          (datagram (serialise_data_packet (record { payload = 1 ∷ []; block_number = 1 })))
          waiting
        ≡ ok (record waiting { timeout_count = 0; state = State.error }))
oack_refuses_first_block_example =
    oack_refuses_first_block (host false) write_request client writing sent_ok early (1 ∷ [])
      writing-created refl writing-asks writing-size refl early-on_time
