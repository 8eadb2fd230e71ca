-- ===== src/Server/Loop.antt =====
-- `tftp_server`, of src/server/tftp_server.cpp: the loop that waits for events and serves the clients.
pub mod Cleanup
pub mod Accept
pub mod Invariant
pub mod Bounds
pub mod Waiting
pub mod Faults
pub mod Ids
pub mod Download
pub mod FirstClient
use cpp_tftp.Common.{
  ℕ, zero, suc, Bool, true, false, ◌&&◌, List, [], ◌∷◌, ◌++◌, ltb, ◌==◌, if◌then◌else◌, length,
}
use cpp_tftp.Common.Outcome.{Outcome, ok, throw, undefined, out_of_fuel, ◌>>=◌, epoll_error}
use cpp_tftp.Net.Udp.{Errno, Received, ReceivedFrom, SendResult}
use cpp_tftp.Net.Timer.{TimerRead}
use cpp_tftp.Server.Connection.{Connection, wait_for_read, is_finished, set_finished}
use cpp_tftp.Server.Connection.Host.{Host}
use cpp_tftp.Server.Connection.Create.{create}
use cpp_tftp.Server.Connection.Read
use cpp_tftp.Server.Connection.Write.{handle_write}
use cpp_tftp.Server.Handler
use cpp_tftp.Server.Handler.{Request, Resolver, requests_pending, get_request}

-- What a socket is polled for.
pub data Interest : Type 0 where
  epollin epollout : Interest

-- An element of the list of connections; `id` stands for its address, `interest` for what its
-- socket is registered with.
pub record Client : Type 0 where
  pub id : ℕ
  pub connection : Connection
  pub interest : Interest

-- `next_id` is larger than the `id` of every element.
pub record Server : Type 0 where
  pub max_clients : ℕ
  pub queue : List Request
  pub clients : List Client
  pub next_id : ℕ

-- `wait_for_read() ? EPOLLIN : EPOLLOUT`
abbrev pub interest_of : Connection → Interest
interest_of c = if wait_for_read c then Interest.epollin else Interest.epollout

-- The body of the loop that accepts connections. `ctl` is what the calls of `epoll_ctl` come to.
unfoldable pub accept_one : Host → Outcome (Unit {0}) → Server → Outcome Server
accept_one h ctl server = do
  (new_request, queue) ← get_request server.queue
  c ← create h new_request.request new_request.client
  ctl >>= λ _. ok (record server {
    queue = queue;
    clients =
        server.clients
        ++ record { id = server.next_id; connection = c; interest = interest_of c } ∷ [];
    next_id = suc server.next_id;
  })

abbrev pub may_accept : Server → Bool
may_accept server = requests_pending server.queue && ltb (length server.clients) server.max_clients

unfoldable pub accept_pending : ℕ → Host → Outcome (Unit {0}) → Server → Outcome Server
unfolding accept_one
accept_pending zero h ctl server = out_of_fuel
accept_pending (suc f) h ctl server =
    let next = (accept_one h ctl server >>= λ s. accept_pending f h ctl s) in
    if may_accept server then next else ok server

-- The flags of an event that are looked at, in their order, and what the calls that they lead to
-- find.
pub data Flags : Type 0 where
  readable : TimerRead → Received → Flags
  writable : SendResult → Flags
  failing : Flags
  unknown : Flags

unfoldable pub serve_connection : Flags → Connection → Outcome Connection
serve_connection (readable t r) c = Read.handle_read t r c
serve_connection (writable r) c = do (c', sent) ← handle_write r c; ok c'
serve_connection failing c = ok (set_finished true c)
serve_connection unknown c = ok c

-- The event of a connection: it is served, and its registration renewed. No element at the
-- address: the pointer dangles.
unfoldable pub serve_client : ℕ → Flags → Outcome (Unit {0}) → List Client → Outcome (List Client)
unfolding serve_connection
serve_client id flags ctl [] = undefined
serve_client id flags ctl (x ∷ xs) =
    let rest = (do ys ← serve_client id flags ctl xs; ok (x ∷ ys)) in
    let here = (do
      c ← serve_connection flags x.connection
      ctl >>= λ _. ok (record x { connection = c; interest = interest_of c } ∷ xs)) in
    if x.id == id then here else rest

-- An event, with what the machine gives while it is handled.
pub data Event : Type 0 where
  on_port : Host → Resolver → List ReceivedFrom → Outcome (Unit {0}) → Event
  on_client : ℕ → Flags → Outcome (Unit {0}) → Event

unfoldable pub handle_event : Event → Server → Outcome Server
unfolding accept_pending serve_client
handle_event (on_port h s xs ctl) server = do
  queue ← Handler.handle_read s xs server.queue
  accept_pending (suc (length queue)) h ctl (record server { queue = queue })
handle_event (on_client id flags ctl) server = do
  clients ← serve_client id flags ctl server.clients
  ok (record server { clients = clients })

unfoldable pub handle_events : List Event → Server → Outcome Server
unfolding handle_event
handle_events [] server = ok server
handle_events (e ∷ es) server = handle_event e server >>= λ s. handle_events es s

-- The clean-up loop. After `erase` the iterator is at the next element, and `++iter` skips that:
-- `skips` is true there. To go past the end is undefined. `epoll_ctl_del` is taken to succeed.
unfoldable pub clean_up_from : Bool → List Client → Outcome (List Client)
clean_up_from true [] = undefined
clean_up_from true (x ∷ xs) = do ys ← clean_up_from false xs; ok (x ∷ ys)
clean_up_from false [] = ok []
clean_up_from false (x ∷ xs) =
    let erased = clean_up_from true xs in
    let kept = (do ys ← clean_up_from false xs; ok (x ∷ ys)) in
    if is_finished x.connection then erased else kept

abbrev pub clean_up : List Client → Outcome (List Client)
clean_up clients = clean_up_from false clients

-- What `epoll_wait` returns: events, or an error number.
pub data Waited : Type 0 where
  events : List Event → Waited
  failed : Errno → Waited

-- One round of the loop of `start`.
unfoldable pub round : Waited → Server → Outcome Server
unfolding handle_events clean_up_from
round (events es) server = do
  s ← handle_events es server
  clients ← clean_up s.clients
  ok (record s { clients = clients })
round (failed Errno.eintr) server = ok server
round (failed _) server = throw epoll_error

-- The loop of `start`, until the exit is requested after the given rounds.
unfoldable pub run : List Waited → Server → Outcome Server
unfolding round
run [] server = ok server
run (w ∷ ws) server = round w server >>= λ s. run ws s
