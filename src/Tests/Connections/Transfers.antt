-- ===== src/Tests/Connections/Transfers.antt =====
-- Tests of whole transfers, and of a block that is received.
use cpp_tftp.Common.{codes, false, ◌<◌, ◌≡◌, refl, true, [], ◌∷◌, ◌++◌, some, arith, length}
use cpp_tftp.Common.Outcome.{ok, at}
use cpp_tftp.Utils.Netascii.{native_to_netascii}
use cpp_tftp.Tftp.Types.{PacketType, Mode}
use cpp_tftp.File.ReadFile.Pending.{encode}
use cpp_tftp.File.Stream.{fwrite}
use cpp_tftp.File.WriteFile.{write, write_mode, write_octet, error}
use cpp_tftp.Tftp.Deserialise.{deserialise_data_packet}
use cpp_tftp.Net.Timer.{has_expired}
use cpp_tftp.Net.Udp.{datagram, recv}
use cpp_tftp.Server.Connection.{Connection, State, initial}
use cpp_tftp.Server.Connection.Create.{create}
use cpp_tftp.Server.Connection.Read.{handle_read}
use cpp_tftp.Server.Connection.Upload.{Uploads, create-Uploads}
use cpp_tftp.Server.Connection.Receive.{handle_read_block_is_final}
use cpp_tftp.Download.{Downloads, get_file-serve}
use cpp_tftp.Server.Connection.Transfer.Round.{IsServing}
use cpp_tftp.Server.Connection.Transfer.Complete.{Served}
use cpp_tftp.Server.Connection.Transfer.Negotiated.{IsOffering, Negotiates, serve-Negotiates}
use cpp_tftp.Server.Connection.Transfer.Request.{opened, create-Served}
use cpp_tftp.Tests.{
  file_stream-IsGood, client, host, read_request, write_request, write_allowed, read_allowed,
  file_stream, empty_stream, sent_ok, early, early-on_time, awaiting_data,
}

-- A connection that sends four bytes in blocks of two, from block 65535 on.
abbrev pub serving : Connection
serving = record (initial PacketType.read client) {
  file_reader = record { fd = some file_stream; mode = Mode.netascii; overflow_buffer = [] };
  state = State.send_data;
  block_number = 65535;
  block_size = 2;
}

pub serving-IsServing : IsServing serving file_stream
serving-IsServing = record {
  sends = refl;
  unread = refl;
  not_final = refl;
  is_word = omega arith;
  is_size = omega arith;
  reading = record {
    opened = refl;
    good = file_stream-IsGood;
    overflow_fits = omega arith;
    octet_has_none = λ _. refl;
  };
}

four_bytes : length (encode Mode.netascii file_stream.rest) < 5
unfolding native_to_netascii
four_bytes = omega arith

-- A connection that has options to acknowledge before it sends its file.
abbrev offering : Connection
offering = record serving {
  state = State.send_oack;
  block_number = 0;
  oack_packet = record { options = (codes "BLKSIZE", codes "2") ∷ [] };
}

offering-IsOffering : IsOffering offering file_stream
offering-IsOffering = record {
  offers = refl;
  reads = refl;
  at_start = refl;
  unread = refl;
  unfinished = refl;
  not_final = refl;
  is_size = omega arith;
  reading = serving-IsServing.reading;
}

serve-Negotiates_example :
    Negotiates 5 sent_ok early ([] ++ encode Mode.netascii file_stream.rest) offering
serve-Negotiates_example =
    serve-Negotiates 5 sent_ok early offering file_stream refl early-on_time offering-IsOffering
      (omega arith) four_bytes

create-Served_example :
    (create (host true) read_request client ≡ ok (opened read_request client file_stream))
    × Served 5 sent_ok early
        (encode Mode.netascii file_stream.rest)
        (opened read_request client file_stream)
create-Served_example =
    create-Served (host true) read_request client file_stream sent_ok early 5 refl refl refl
      read_allowed refl file_stream-IsGood refl early-on_time four_bytes

get_file-serve_example :
    Downloads (host true) (codes "f") client client file_stream.rest sent_ok early 3
get_file-serve_example =
    get_file-serve (host true) (codes "f") client client file_stream sent_ok early 3 refl
      read_allowed refl file_stream-IsGood refl early-on_time (omega arith)

create-Uploads_example :
    Uploads
      (host false)
      (record write_request { options = [] })
      client
      empty_stream
      sent_ok
      early
      (7 ∷ 8 ∷ [])
      (7 ∷ 8 ∷ [])
create-Uploads_example =
    create-Uploads (host false) (record write_request { options = [] }) client empty_stream sent_ok
      early (7 ∷ 8 ∷ []) (7 ∷ 8 ∷ []) refl refl refl write_allowed refl refl refl early-on_time
      (omega arith) refl (omega arith)

-- A connection that writes to an open file, and what a block of two bytes makes of it.
abbrev storing : Connection
storing = record awaiting_data {
  file_writer = record { fd = some empty_stream; mode = Mode.octet };
}

abbrev stored : Connection
stored = record storing {
  file_writer = record {
    fd = some (record empty_stream { written = 7 ∷ 8 ∷ []; room = 998 });
    mode = Mode.octet;
  };
  final_ack = true;
  state = State.send_ack;
}

block_stored : handle_read early (datagram (0 ∷ 3 ∷ 0 ∷ 1 ∷ 7 ∷ 8 ∷ [])) storing ≡ ok stored
unfolding handle_read has_expired recv deserialise_data_packet at write write_mode write_octet
    fwrite error
block_stored = refl

handle_read_block_is_final_example : stored.final_ack ≡ true
handle_read_block_is_final_example =
    handle_read_block_is_final early (0 ∷ 3 ∷ 0 ∷ 1 ∷ 7 ∷ 8 ∷ []) storing stored early-on_time refl
      block_stored refl refl
