-- ===== src/Server/Connection/Transfer/Request.antt =====
-- A transfer from the request on.
use cpp_tftp.Common.{ℕ, ◌<◌, ◌≡◌, refl, ap, ◌∙◌, true, false, [], some, arith, length, is_empty}
use cpp_tftp.Common.Outcome.{ok}
use cpp_tftp.Tftp.Types.{PacketType, RwPacket}
use cpp_tftp.File.Stream.{ReadStream}
use cpp_tftp.File.ReadFile.{open_read}
use cpp_tftp.File.ReadFile.Loops.{IsGood}
use cpp_tftp.File.ReadFile.Pending.{encode}
use cpp_tftp.Net.Udp.{Address, SendResult, send_done}
use cpp_tftp.Net.Timer.{TimerRead, has_expired}
use cpp_tftp.Server.Connection.{Connection, State, initial}
use cpp_tftp.Server.Connection.Host.{Host}
use cpp_tftp.Server.Connection.Options.{process_all}
use cpp_tftp.Server.Connection.Create.{create, create_type, create_read, resize_data}
use cpp_tftp.Server.Connection.Access.{IsAllowed, before_switch, create_allowed}
use cpp_tftp.Server.Connection.Transfer.Round.{IsServing}
use cpp_tftp.Server.Connection.Transfer.Complete.{Served, serve-Served}

-- The connection once the file for it is opened.
abbrev pub with_file : RwPacket → ReadStream → Connection → Connection
with_file r s c = record c {
  file_reader = record { fd = some s; mode = r.mode; overflow_buffer = [] };
  state = State.send_data;
  block_number = 1;
}

-- The connection that is made for a request without options to read a file that can be opened.
abbrev pub opened : RwPacket → Address → ReadStream → Connection
opened r client s = with_file r s (resize_data (initial r.type client))

create_read_opened :
    (h : Host) (r : RwPacket) (s : ReadStream) (c : Connection)
    → is_empty c.oack_packet.options ≡ true
    → c.file_reader.overflow_buffer ≡ []
    → h.fopen_read r.filename ≡ some s
    → create_read h r c ≡ with_file r s c
unfolding create_read open_read
create_read_opened h r s c e o f =
    rw (f, e)
      (ap
        (λ d. record (with_file r s c) {
          file_reader = record { fd = some s; mode = r.mode; overflow_buffer = d };
        })
        o)

pub opened-IsServing :
    (r : RwPacket) (client : Address) (s : ReadStream) → IsGood s → IsServing (opened r client s) s
opened-IsServing r client s g = record {
  sends = refl;
  unread = refl;
  not_final = refl;
  is_word = omega arith;
  is_size = omega arith;
  reading = record {
    opened = refl;
    good = g;
    overflow_fits = omega arith;
    octet_has_none = λ _. refl;
  };
}

-- A request without options to read a file that exists below the root and that can be opened, on a
-- device that does not fail: the connection sends the blocks of 512 bytes of the file in the
-- mode's encoding, from number 1 on, to a client that acknowledges each, and is then finished. The
-- socket can be set up, each send succeeds, no timer runs out, and the rounds are more than the
-- encoded bytes.
pub create-Served :
    (h : Host) (request : RwPacket) (client : Address) (s : ReadStream) (r : SendResult)
    (t : TimerRead) (f : ℕ)
    → h.socket ≡ ok tt
    → request.type ≡ PacketType.read
    → request.options ≡ []
    → IsAllowed h request.filename request.type
    → h.fopen_read request.filename ≡ some s
    → IsGood s
    → send_done r ≡ true
    → has_expired t ≡ false
    → length (encode request.mode s.rest) < f
    → let c = opened request client s in
      (create h request client ≡ ok c) × Served f r t (encode request.mode s.rest) c
unfolding create_type process_all
create-Served h request client s r t f socket read none_asked allowed file good sends on_time fuel =
    (
      create_allowed h request client socket allowed
          ∙ ap (λ ty. ok (create_type ty h request (before_switch h request client))) read
          ∙ ap
              (λ o. ok (
                create_read h request
                  (process_all h request o (resize_data (initial request.type client)))))
              none_asked
          ∙ ap ok (
              create_read_opened h request s (resize_data (initial request.type client)) refl refl
                file),
      serve-Served f r t (opened request client s) s sends on_time
          (opened-IsServing request client s good) refl (omega arith) fuel,
    )
