-- ===== src/Tests/Servers.antt =====
-- Tests of the handler and of the loop.
use cpp_tftp.Common.{
  ◌%◌, ◌≡◌, refl, true, List, [], ◌∷◌, ◌++◌, some, arith, length, equal, c_str, toupper, Bytes,
  codes, take,
}
use cpp_tftp.Common.Outcome.{ok, undefined, at}
use cpp_tftp.Utils.CStrings.{extract_c_strings_from_buffer, c_strings}
use cpp_tftp.Tftp.Deserialise.Total.{Returns}
use cpp_tftp.Tftp.Modes.{string_to_mode_t}
use cpp_tftp.Tftp.Deserialise.{deserialise_rw_packet, option_pairs}
use cpp_tftp.Tftp.Types.{PacketType, RwPacket, Mode, rw_packet}
use cpp_tftp.Server.Start.{idle}
use cpp_tftp.Server.Connection.Transfer.{data_blocks}
use cpp_tftp.Server.Connection.Transfer.Complete.{Served}
use cpp_tftp.Server.Connection.Transfer.Request.{opened}
use cpp_tftp.Server.Loop.Download.{rounds}
use cpp_tftp.Server.Loop.FirstClient.{arrival, first_download}
use cpp_tftp.Server.Connection.{initial, set_finished}
use cpp_tftp.Server.Handler.{Request, Resolver, Arrivals, arriving, handle_read-Arrivals}
use cpp_tftp.Server.Loop.{
  Client, Server, Interest, Flags, Waited, on_client, events, serve_client, serve_connection,
  handle_event, handle_events, clean_up, clean_up_from, round, run,
}
use cpp_tftp.Server.Loop.Bounds.{Keeps, run-Keeps}
use cpp_tftp.Server.Loop.Cleanup.{live, clean_up-live, is_nil, clean_up-AllFinished}
use cpp_tftp.Server.Handler
use cpp_tftp.Tests.{
  file_stream, file_stream-IsGood, sent_ok, early, early-on_time, read_allowed, client, host,
  read_request,
}

abbrev resolving : Resolver
resolving = record { to_sockaddr_in = λ a. some a }

handle_read-Arrivals_example :
    (new : List Request) × Arrivals resolving ((client, 0 ∷ 1 ∷ []) ∷ (client, 7 ∷ []) ∷ []) new
    × (Handler.handle_read resolving (arriving ((client, 0 ∷ 1 ∷ []) ∷ (client, 7 ∷ []) ∷ [])) []
        ≡ ok ([] ++ new))
handle_read-Arrivals_example =
    handle_read-Arrivals resolving ((client, 0 ∷ 1 ∷ []) ∷ (client, 7 ∷ []) ∷ []) []
      (refl, (refl, tt))

abbrev waiting_request : Request
waiting_request = record { request = read_request; client = client }

abbrev active : Client
active = record {
  id = 1;
  connection = initial PacketType.read client;
  interest = Interest.epollout;
}

abbrev ending : Client
ending = record active { id = 0 }

abbrev ended : Client
ended = record ending { connection = record (initial PacketType.read client) { finished = true } }

-- The first once it has failed.
abbrev ended_out : Client
ended_out = record ending { connection = set_finished true ending.connection }

-- Two connections and a request that waits.
abbrev server : Server
server = record {
  max_clients = 2;
  queue = waiting_request ∷ [];
  clients = ending ∷ active ∷ [];
  next_id = 2;
}

-- The first of the two fails.
abbrev failing_round : Waited
failing_round = events (on_client 0 Flags.failing (ok tt) ∷ [])

failing_run : run (failing_round ∷ []) server ≡ ok (record server { clients = active ∷ [] })
unfolding run round handle_events handle_event serve_client serve_connection clean_up_from
    set_finished
failing_run = refl

run-Keeps_example : Keeps server (record server { clients = active ∷ [] })
run-Keeps_example =
    run-Keeps (failing_round ∷ []) server (record server { clients = active ∷ [] }) (omega arith)
      failing_run

cleaned : clean_up (ended ∷ active ∷ []) ≡ ok (active ∷ [])
unfolding clean_up_from
cleaned = refl

clean_up-live_example : live (active ∷ []) ≡ live (ended ∷ active ∷ [])
clean_up-live_example = clean_up-live (ended ∷ active ∷ []) (active ∷ []) cleaned

clean_up-AllFinished_example :
    (length (ended ∷ []) % 2 ≡ 1 → clean_up ([] ++ ended ∷ []) ≡ undefined)
    × (length (ended ∷ []) % 2 ≡ 0 → Returns (clean_up ([] ++ ended ∷ [])))
clean_up-AllFinished_example = clean_up-AllFinished [] (ended ∷ []) is_nil (refl, tt)

-- A request for the file f in octet mode, and its datagram.
abbrev plain_request : RwPacket
plain_request = rw_packet (codes "f") PacketType.read Mode.octet

abbrev plain_datagram : Bytes
plain_datagram = 0 ∷ 1 ∷ codes "f" ++ 0 ∷ codes "octet" ++ 0 ∷ []

plain_parsed : deserialise_rw_packet (take 2048 plain_datagram) ≡ ok (some plain_request)
unfolding deserialise_rw_packet at extract_c_strings_from_buffer c_strings string_to_mode_t equal
    c_str toupper option_pairs
plain_parsed = refl

first_download_example :
    let c = opened plain_request client file_stream in
    Served 4 sent_ok early (97 ∷ 10 ∷ 98 ∷ []) c
    × (run
          (arrival (host true) resolving client plain_datagram
            ∷ rounds sent_ok early 0 (data_blocks 4 512 1 (97 ∷ 10 ∷ 98 ∷ [])))
          (idle 100)
        ≡ undefined)
first_download_example =
    first_download (host true) resolving client client plain_datagram plain_request file_stream
      sent_ok early 100 refl refl plain_parsed refl refl refl refl read_allowed refl
      file_stream-IsGood refl early-on_time

-- A connection that is about to send the file.
abbrev downloading : Client
downloading = record active { id = 0; connection = opened plain_request client file_stream }
