-- ===== src/Tests/Programs/Servers.antt =====
-- Tests of the program of src/server/main.cpp.
use cpp_tftp.Common.{
  ◌≡◌, ◌≢◌, inr, refl, replicate, true, false, List, [], ◌∷◌, ◌++◌, some, arith, Bytes, codes,
  equal, c_str, toupper,
}
use cpp_tftp.Common.Outcome.{Outcome, ok}
use cpp_tftp.Common.Outcome
use cpp_tftp.Utils.CStrings.{extract_c_strings_from_buffer, c_strings}
use cpp_tftp.Utils.Subpath.{is_subpath}
use cpp_tftp.Tftp.Types.{PacketType, Mode}
use cpp_tftp.Tftp.Modes.{string_to_mode_t}
use cpp_tftp.Tftp.Serialise.{serialise_data_packet}
use cpp_tftp.Tftp.Deserialise.{deserialise_rw_packet, option_pairs}
use cpp_tftp.File.WriteFile.{open_write}
use cpp_tftp.Net.Udp.{Errno, datagram, recv_from}
use cpp_tftp.Net.Timer.{arm_timer}
use cpp_tftp.Net.Inet.{to_sockaddr_in}
use cpp_tftp.Server.Loop.{
  Server, Client, Waited, run, on_client, on_port, events, writable, readable, failed, round,
  Interest,
}
use cpp_tftp.Server.Handler.{resolver, arriving, get_request}
use cpp_tftp.Server.Loop.Faults.{AwaitsNetascii, cut_block}
use cpp_tftp.Server.Start.{ServerCalls, idle}
use cpp_tftp.Server.Main.{main}
use cpp_tftp.Server.Main.Exits.{stopped_after}
use cpp_tftp.Server.Main.Faults.{main_faulted}
use cpp_tftp.Server.Connection.Create.{create, create_type}
use cpp_tftp.Server.Connection.Host.{is_operation_allowed}
use cpp_tftp.Server.Connection.Write.{handle_write}
use cpp_tftp.Server.Connection.{State, initial}
use cpp_tftp.Server.Connection.Options.{process_all}
use cpp_tftp.Server.Handler
use cpp_tftp.Tests.{client, host, sent_ok, early, early-on_time, empty_stream}
use cpp_tftp.Tests.Programs.{inet, socket_calls}

-- A server that is made, and stopped by a signal.
abbrev server_calls : ServerCalls
server_calls = record {
  inet = inet;
  socket_calls = socket_calls;
  chdir = λ _. true;
  epoll_create1 = some 6;
  epoll_ctl = true;
}

abbrev argv : List Bytes
argv = codes "tftp" ∷ codes "srv" ∷ codes "10.0.0.2" ∷ codes "1" ∷ []

abbrev interrupted : List Waited
interrupted = failed Errno.eintr ∷ []

not_zero : server_calls.epoll_create1 ≢ some 0
not_zero e = cc e

-- A client asks to write a file in netascii, and the request is acknowledged.
abbrev upload : Bytes
upload = 0 ∷ 2 ∷ codes "f" ++ 0 ∷ codes "netascii" ++ 0 ∷ []

abbrev first_rounds : List Waited
first_rounds =
    events (on_port (host false) (resolver inet) (arriving ((client, upload) ∷ [])) (ok tt) ∷ [])
    ∷ events (on_client 0 (writable sent_ok) (ok tt) ∷ [])
    ∷ []

-- Its connection then waits for the first block.
abbrev uploading : Client
uploading = record {
  id = 0;
  connection = record (initial PacketType.write client) {
    state = State.wait_for_data;
    block_number = 1;
    file_writer = record { fd = some empty_stream; mode = Mode.netascii };
    data_pkt = record { payload = replicate 512 0; block_number = 0 };
    timer = record { armed_s = some 2 };
  };
  interest = Interest.epollin;
}

abbrev one_client : Server
one_client = record (idle 100) { clients = uploading ∷ []; next_id = 1 }

run-first_rounds : run first_rounds (idle 100) ≡ ok one_client
unfolding run Handler.handle_read Handler.receive_requests recv_from deserialise_rw_packet
    Outcome.at extract_c_strings_from_buffer c_strings string_to_mode_t equal c_str toupper
    option_pairs get_request create is_operation_allowed is_subpath create_type handle_write round
    open_write process_all arm_timer to_sockaddr_in
run-first_rounds = refl

uploading-AwaitsNetascii : AwaitsNetascii uploading.connection
uploading-AwaitsNetascii = record {
  stream = empty_stream;
  waits = refl;
  opened = refl;
  netascii = refl;
  number = omega arith;
}

main_faulted_example :
    let block = datagram (serialise_data_packet (cut_block (codes "line") uploading.connection)) in
    let later = events (on_client 0 (readable early block) (ok tt) ∷ []) ∷ [] in
    (main (stopped_after (ok tt) server_calls (first_rounds ++ later) []) argv []).0 ≡ ok 1
main_faulted_example =
    main_faulted (ok tt) server_calls first_rounds [] [] [] argv [] one_client 0 uploading early
      (codes "line") (ok tt) (inr (tt, refl)) not_zero run-first_rounds refl
      uploading-AwaitsNetascii early-on_time (omega arith)
