-- ===== src/Server/Connection/Upload.antt =====
-- The reception of a file that fits one block.
use cpp_tftp.Common.{
  suc, ◌<◌, ◌≤◌, ◌≡◌, ◌==◌, refl, ap, ◌∙◌, true, false, [], some, arith, lt→ltb, length, take,
  take_of_le, Bytes,
}
use cpp_tftp.Common.Outcome.{ok, ◌>>=◌}
use cpp_tftp.Tftp.Types.{PacketType, DataPacket, RwPacket}
use cpp_tftp.Tftp.Serialise.{serialise_data_packet, serialise_ack_packet}
use cpp_tftp.File.Stream.{WriteStream}
use cpp_tftp.File.WriteFile
use cpp_tftp.File.WriteFile.{WriteFile, open_write, write, from_fd}
use cpp_tftp.File.WriteFile.Written.{after_write, native_of, write_room}
use cpp_tftp.Net.Udp.{Address, datagram, SendResult, send_done}
use cpp_tftp.Net.Timer.{TimerRead, has_expired, arm_timer}
use cpp_tftp.Server.Connection.{Connection, State, initial}
use cpp_tftp.Server.Connection.Host.{Host}
use cpp_tftp.Server.Connection.Options.{process_all}
use cpp_tftp.Server.Connection.Create.{create, create_type, create_write, resize_data}
use cpp_tftp.Server.Connection.Access.{IsAllowed, before_switch, create_allowed}
use cpp_tftp.Server.Connection.Read.{handle_read, after_data, receive_data, accept_data, accepted}
use cpp_tftp.Server.Connection.Receive.{handle_read-data}
use cpp_tftp.Server.Connection.Write.{handle_write, sent_ack}
use cpp_tftp.Server.Connection.Retransmit.{handle_write_ack, sent_ack_done}
use cpp_tftp.Server.Connection.Oack.{deserialise_data_packet-take}

-- The connection that is made for a request without options to write to a file that can be opened.
abbrev started : RwPacket → Address → WriteStream → Connection
started request client s = record (resize_data (initial request.type client)) {
  file_writer = record { fd = some s; mode = request.mode };
  state = State.send_ack;
}

-- That connection when it waits for the first block.
abbrev waiting_of : Connection → Connection
waiting_of c = record c {
  block_number = 1;
  state = State.wait_for_data;
  timer = arm_timer c.timeout_s c.timer;
}

-- And once that block was written.
abbrev stored_of : WriteFile → Connection → Connection
stored_of writer c = record c {
  file_writer = writer;
  timeout_count = 0;
  final_ack = true;
  state = State.send_ack;
}

create_write-started :
    (h : Host) (r : RwPacket) (client : Address) (s : WriteStream)
    → h.fopen_write r.filename ≡ some s
    → create_write h r (resize_data (initial r.type client)) ≡ started r client s
unfolding create_write open_write
create_write-started h r client s f = rw f

-- The block that is waited for, shorter than the size of a block.
receive_data_stored :
    (p : DataPacket) (c : Connection) (writer : WriteFile) (s : WriteStream)
    → c.block_number ≡ 1
    → p.block_number ≡ 1
    → length p.payload < c.block_size
    → write p.payload c.file_writer ≡ ok writer
    → writer.fd ≡ some s
    → s.ferror ≡ false
    → receive_data p c ≡ ok (stored_of writer c)
unfolding receive_data accept_data accepted WriteFile.error
receive_data_stored p c writer s b n short w o e =
    let new : (suc p.block_number == c.block_number) ≡ false = ground arith in
    let same : (p.block_number == c.block_number) ≡ true = ground arith in
    let good : (from_fd writer.fd >>= λ s. ok s.ferror) ≡ ok false =
      ap (λ o. from_fd o >>= λ s. ok s.ferror) o ∙ ap ok e in
    rw (new, same)
      (ap (λ m. m >>= λ writer. WriteFile.error writer >>= λ b. ok (accepted b writer p c)) w
        ∙ ap (λ m. m >>= λ b. ok (accepted b writer p c)) good
        ∙ rw (lt→ltb _ _ short))

sent_ack_final :
    (r : SendResult) (c : Connection)
    → send_done r ≡ true
    → c.final_ack ≡ true
    → sent_ack r c ≡ record c { finished = true }
unfolding sent_ack
sent_ack_final r c d f = ground arith

-- The reception of one block: the acknowledgement of the request, the block, its acknowledgement.
pub record Uploads (h : Host) (request : RwPacket) (client : Address) (s : WriteStream)
    (r : SendResult) (t : TimerRead) (payload native : Bytes) : Type 0 where
  pub start : Connection
  pub waiting : Connection
  pub stored : Connection
  pub end : Connection
  pub created : create h request client ≡ ok start
  pub accepts :
      handle_write r start ≡ ok (waiting, some (serialise_ack_packet (record { block_number = 0 })))
  pub receives :
      handle_read t
        (datagram (serialise_data_packet (record { payload = payload; block_number = 1 })))
        waiting
      ≡ ok stored
  pub acknowledges :
      handle_write r stored ≡ ok (end, some (serialise_ack_packet (record { block_number = 1 })))
  pub finished : end.finished ≡ true
  pub written : end.file_writer.fd ≡ some (after_write native s)

-- A request without options to write a file that does not exist and can be opened, below the root:
-- where the socket can be set up and sends succeed, the request is acknowledged, and a first block
-- of at most 508 bytes that arrives in time is written to the file, in the mode's decoding and if
-- there is room for it, acknowledged, and ends the connection.
pub create-Uploads :
    (h : Host) (request : RwPacket) (client : Address) (s : WriteStream) (r : SendResult)
    (t : TimerRead) (payload native : Bytes)
    → h.socket ≡ ok tt
    → request.type ≡ PacketType.write
    → request.options ≡ []
    → IsAllowed h request.filename request.type
    → h.fopen_write request.filename ≡ some s
    → s.ferror ≡ false
    → send_done r ≡ true
    → has_expired t ≡ false
    → length payload ≤ 508
    → native_of request.mode payload ≡ ok native
    → length native ≤ s.room
    → Uploads h request client s r t payload native
unfolding create_type process_all after_data
create-Uploads h request client s r t payload native socket ty none_asked allowed file good sends
      on_time short decodes room =
    let c = started request client s in
    let waiting = waiting_of c in
    let p : DataPacket = record { payload = payload; block_number = 1 } in
    let writer : WriteFile = record { fd = some (after_write native s); mode = request.mode } in
    let whole : take 508 payload ≡ payload = take_of_le 508 payload short in
    record {
      start = c;
      waiting = waiting;
      stored = stored_of writer waiting;
      end = record (stored_of writer waiting) { finished = true };
      created =
          create_allowed h request client socket allowed
          ∙ ap (λ ty. ok (create_type ty h request (before_switch h request client))) ty
          ∙ ap
              (λ o. ok (
                create_write h request
                  (process_all h request o (resize_data (initial request.type client)))))
              none_asked
          ∙ ap ok (create_write-started h request client s file);
      accepts =
          handle_write_ack r c refl
          ∙ ap (λ c'. ok (c', some (serialise_ack_packet (record { block_number = 0 }))))
              (sent_ack_done r c sends refl);
      receives =
          handle_read-data t (serialise_data_packet p) waiting on_time (some p) refl (
            deserialise_data_packet-take 512 p (omega arith) (omega arith)
            ∙ ap (λ d. ok (some (record p { payload = d }))) whole)
          ∙ receive_data_stored p waiting writer (after_write native s) refl refl
              (omega (arith, short)) (write_room payload c.file_writer s refl good decodes room)
              refl good;
      acknowledges =
          handle_write_ack r (stored_of writer waiting) refl
          ∙ ap (λ c'. ok (c', some (serialise_ack_packet (record { block_number = 1 }))))
              (sent_ack_final r (stored_of writer waiting) sends refl);
      finished = refl;
      written = refl;
    }
