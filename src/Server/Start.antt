-- ===== src/Server/Start.antt =====
-- How a server is made, started and stopped: the constructors of `tftp_connection_handler` and of
-- `tftp_server`, `start` and `stop`, of src/server/tftp_server.cpp.
pub mod Constructed
use cpp_tftp.Common.{
  ℕ, ◌≡◌, refl, ap, ◌∙◌, Bool, true, false, List, [], ◌∷◌, ◌++◌, map, Option, none, some, is_empty,
  if◌then◌else◌, Bytes, codes, to_u16,
}
use cpp_tftp.Common.Outcome.{
  Outcome, ok, throw, out_of_fuel, ◌>>=◌, unwind, and_then, bind-cong, failed_to_chdir,
  failed_to_create_epoll, epoll_add_failed,
}
use cpp_tftp.Net.Inet.{Inet}
use cpp_tftp.Net.Descriptors.{Descriptors, close_positive}
use cpp_tftp.Net.Socket.{Socket, SocketCalls, udp_connection, destroy, bind, set_non_blocking}
use cpp_tftp.Server.Loop.{Server, Waited, round, run}

-- The body of the handler's constructor.
abbrev pub listen : Inet → SocketCalls → Bytes → ℕ → Socket → Outcome Socket
listen inet k addr port udp = do bound ← bind inet k addr port udp; set_non_blocking k true bound

abbrev pub listening :
    Inet → SocketCalls → Bytes → ℕ → Socket → Descriptors → Outcome Socket × Descriptors
listening inet k addr port udp fds = unwind (destroy udp) (listen inet k addr port udp) fds

-- The constructor of the handler.
unfoldable pub make_handler :
    Inet → SocketCalls → Bytes → ℕ → Descriptors → Outcome Socket × Descriptors
make_handler inet k addr port fds = and_then (udp_connection k fds) (listening inet k addr port)

-- What the system calls of the server's constructor and of `start` return.
pub record ServerCalls : Type 0 where
  pub inet : Inet
  pub socket_calls : SocketCalls
  pub chdir : Bytes → Bool
  pub epoll_create1 : Option ℕ
  pub epoll_ctl : Bool

-- A server with the members that hold descriptors.
pub record Started : Type 0 where
  pub conn_handler : Socket
  pub epoll_fd : ℕ
  pub server : Server

abbrev pub idle : ℕ → Server
idle max_clients = record { max_clients = max_clients; queue = []; clients = []; next_id = 0 }

abbrev pub epoll_created : Option ℕ → Descriptors → Outcome ℕ × Descriptors
epoll_created none fds = (throw failed_to_create_epoll, fds)
epoll_created (some fd) fds = (ok fd, fd ∷ fds)

-- The body of the constructor.
unfoldable pub create_epoll : ServerCalls → Bytes → Descriptors → Outcome ℕ × Descriptors
create_epoll k server_root fds =
    if k.chdir server_root then epoll_created k.epoll_create1 fds else (throw failed_to_chdir, fds)

-- `local_interface.empty() ? "0.0.0.0" : local_interface`
abbrev pub listen_on : Bytes → Bytes
listen_on local_interface = if is_empty local_interface then codes "0.0.0.0" else local_interface

-- The handler is destroyed where the body throws.
abbrev pub made_server : ℕ → Socket → Outcome ℕ → Outcome Started
made_server max_clients udp epoll = do
  fd ← epoll
  ok (record { conn_handler = udp; epoll_fd = fd; server = idle max_clients })

abbrev pub with_handler :
    ServerCalls → Bytes → ℕ → Socket → Descriptors → Outcome Started × Descriptors
with_handler k server_root max_clients udp fds =
    let (epoll, fds') = create_epoll k server_root fds in
    unwind (destroy udp) (made_server max_clients udp epoll) fds'

-- The constructor. `port_num` is converted to 16 bits.
unfoldable pub tftp_server :
    ServerCalls → Bytes → Bytes → ℕ → ℕ → Descriptors → Outcome Started × Descriptors
unfolding make_handler create_epoll
tftp_server k server_root local_interface port_num max_clients fds =
    and_then (make_handler k.inet k.socket_calls (listen_on local_interface) (to_u16 port_num) fds)
      (with_handler k server_root max_clients)

-- The destructor, but for the connections: an epoll descriptor of 0 stays open.
unfoldable pub destroy_server : Started → Descriptors → Descriptors
destroy_server s fds = destroy s.conn_handler (close_positive s.epoll_fd fds)

-- What happens to a running server: `epoll_wait` returns, or a signal makes the handler call `stop`.
pub data Happening : Type 0 where
  returned : Waited → Happening
  stop : Happening

-- The loop of `start`, with `_exit_requested`.
unfoldable pub serve_until_stop : List Happening → Bool → Server → Outcome Server
serve_until_stop [] exit_requested server = if exit_requested then ok server else out_of_fuel
serve_until_stop (stop ∷ xs) exit_requested server = serve_until_stop xs true server
serve_until_stop (returned w ∷ xs) exit_requested server =
    let next = (round w server >>= λ s. serve_until_stop xs exit_requested s) in
    if exit_requested then ok server else next

-- `epoll_ctl_add`, given whether `epoll_ctl` succeeds.
abbrev epoll_ctl_add : Bool → Outcome (Unit {0})
epoll_ctl_add true = ok tt
epoll_ctl_add false = throw epoll_add_failed

unfoldable pub start : ServerCalls → List Happening → Server → Outcome Server
unfolding serve_until_stop
start k xs server = epoll_ctl_add k.epoll_ctl >>= λ _. serve_until_stop xs false server

abbrev pub returns : List Waited → List Happening
returns ws = map (λ w. returned w) ws

-- Once `stop` was called no more rounds are made.
stopped : (xs : List Happening) (server : Server) → serve_until_stop xs true server ≡ ok server
unfolding serve_until_stop
stopped [] server = refl
stopped (stop ∷ xs) server = stopped xs server
stopped (returned w ∷ xs) server = refl

rounds-run :
    (ws : List Waited) (rest : List Happening) (server : Server)
    → serve_until_stop (returns ws ++ (stop ∷ rest)) false server ≡ run ws server
unfolding serve_until_stop run
rounds-run [] rest server = stopped rest server
rounds-run (w ∷ ws) rest server = bind-cong (round w server) _ (run ws) (λ s. rounds-run ws rest s)

-- A server whose handler can be registered makes exactly the rounds before the first signal, and
-- what `start` comes to is what they come to, whatever follows the signal.
pub start-run :
    (k : ServerCalls) (ws : List Waited) (rest : List Happening) (server : Server)
    → k.epoll_ctl ≡ true
    → start k (returns ws ++ (stop ∷ rest)) server ≡ run ws server
unfolding start
start-run k ws rest server added =
    ap (λ b. epoll_ctl_add b >>= λ _. serve_until_stop (returns ws ++ (stop ∷ rest)) false server)
      added
    ∙ rounds-run ws rest server

pub start_unregistered :
    (k : ServerCalls) (xs : List Happening) (server : Server)
    → k.epoll_ctl ≡ false
    → start k xs server ≡ throw epoll_add_failed
unfolding start
start_unregistered k xs server e =
    ap (λ b. epoll_ctl_add b >>= λ _. serve_until_stop xs false server) e
