-- ===== src/Server/Main/Faults.antt =====
-- How one client ends the program of src/server/main.cpp for all.
use cpp_tftp.Common.{
  ℕ, ◌+◌, ◌≤◌, ◌≡◌, ◌≢◌, ap, ◌∙◌, inl, inr, false, List, ◌∷◌, ◌++◌, some, length, Bytes,
}
use cpp_tftp.Common.Outcome.{Outcome, ok, Settled, exit_status}
use cpp_tftp.Tftp.Serialise.{serialise_data_packet}
use cpp_tftp.Net.Udp.{datagram}
use cpp_tftp.Net.Timer.{TimerRead, has_expired}
use cpp_tftp.Net.Descriptors.{Descriptors}
use cpp_tftp.Server.Loop.{Server, Client, Event, Waited, on_client, events, readable, run}
use cpp_tftp.Server.Loop.Faults.{AwaitsNetascii, cut_block, find, run_throws}
use cpp_tftp.Server.Start.{ServerCalls, Happening, idle}
use cpp_tftp.Server.Main.{main}
use cpp_tftp.Server.Main.Exits.{stopped_after, main-Runs}

-- Once the server, of which `ws` are the first rounds, has a connection that waits for a block of a
-- file in netascii, a block of its client that ends with a carriage return makes the program exit
-- with 1, whatever comes after it and whoever else is served.
pub main_faulted :
    (logger : Outcome (Unit {0})) (k : ServerCalls) (ws vs : List Waited) (es : List Event)
    (rest : List Happening) (argv : List Bytes) (fds : Descriptors) (s : Server) (id : ℕ)
    (x : Client) (t : TimerRead) (text : Bytes) (ctl : Outcome (Unit {0}))
    → Settled logger
    → k.epoll_create1 ≢ some 0
    → run ws (idle 100) ≡ ok s
    → find id s.clients ≡ some x
    → AwaitsNetascii x.connection
    → has_expired t ≡ false
    → length text + 5 ≤ x.connection.block_size
    → let block = datagram (serialise_data_packet (cut_block text x.connection)) in
      let later = events (on_client id (readable t block) ctl ∷ es) ∷ vs in
      (main (stopped_after logger k (ws ++ later) rest) argv fds).0 ≡ ok 1
main_faulted logger k ws vs es rest argv fds s id x t text ctl l positive reached found a on_time
      fits =
    let block = datagram (serialise_data_packet (cut_block text x.connection)) in
    let later = events (on_client id (readable t block) ctl ∷ es) ∷ vs in
    let (e, throws) =
      run_throws ws vs es (idle 100) s id x t text ctl reached found a on_time fits in
    elim (main-Runs logger k (ws ++ later) rest argv fds l positive) [
      | inl h ↦ ap (λ r. r.0) h
      | inr runs ↦ runs.serves.exits ∙ ap exit_status throws
    ]
