-- ===== src/Server/Connection/Resources.antt =====
-- The socket and the timer of a `tftp_server_connection`: its constructor with the calls that may
-- fail, and its destructor.
pub mod Creates
use cpp_tftp.Common.{ℕ, ◌≡◌, true, [], Option, some}
use cpp_tftp.Common.Outcome.{Outcome, ok, throw, undefined, out_of_fuel, ◌>>=◌, unwind, and_then}
use cpp_tftp.Tftp.Types.{RwPacket}
use cpp_tftp.Net.Udp.{Address}
use cpp_tftp.Net.Inet.{Inet, inaddr_any, sockaddr_in}
use cpp_tftp.Net.Descriptors.{Descriptors}
use cpp_tftp.Net.Socket.{
  Socket, SocketCalls, udp_connection, destroy, bind, connect_to, set_non_blocking,
}
use cpp_tftp.Net.Timer.{make_timer, destroy_timer}
use cpp_tftp.Server.Connection.{Connection}
use cpp_tftp.Server.Connection.Host.{Host}
use cpp_tftp.Server.Connection.Create.{create}

-- A connection with the two members that hold descriptors.
pub record Owned : Type 0 where
  pub connection : Connection
  pub udp : Socket
  pub timer_fd : ℕ

-- What the system calls return, `timerfd_create` included.
pub record ConnectionCalls : Type 0 where
  pub inet : Inet
  pub socket_calls : SocketCalls
  pub timerfd : Option ℕ

-- The timer is made, or the socket destroyed.
abbrev with_timer : Socket → Descriptors → Option ℕ → Outcome (Socket × ℕ) × Descriptors
with_timer udp fds timerfd =
    let (made, fds') = make_timer timerfd fds in
    unwind (destroy udp) (made >>= λ fd. ok (udp, fd)) fds'

abbrev with_socket : ConnectionCalls → Socket → Descriptors → Outcome (Socket × ℕ) × Descriptors
with_socket k udp fds = with_timer udp fds k.timerfd

-- The members are made in the order of their declaration; those that are made are destroyed when a
-- later one throws.
unfoldable pub make_members : ConnectionCalls → Descriptors → Outcome (Socket × ℕ) × Descriptors
make_members k fds = and_then (udp_connection k.socket_calls fds) (with_socket k)

-- The destructor, which is that of the members in reverse.
unfoldable pub destroy_members : Socket → ℕ → Descriptors → Descriptors
destroy_members udp timer_fd fds = destroy udp (destroy_timer timer_fd fds)

-- The first three calls of the body.
unfoldable pub set_up : ConnectionCalls → Address → Socket → Outcome Socket
set_up k client s = do
  bound ← bind k.inet k.socket_calls [] 0 s
  connected ← connect_to k.socket_calls client bound
  set_non_blocking k.socket_calls true connected

-- The body of the constructor: `create` is what follows, on a host whose socket is set up.
unfoldable pub body : Host → RwPacket → Address → ℕ → Outcome Socket → Outcome Owned
body h request client timer_fd udp = do
  s ← udp
  c ← create (record h { socket = ok tt }) request client
  ok (record { connection = c; udp = s; timer_fd = timer_fd })

-- The body on the members, which are destroyed when it throws.
abbrev pub with_members :
    ConnectionCalls
    → Host
    → RwPacket
    → Address
    → Socket × ℕ
    → Descriptors
    → Outcome Owned × Descriptors
with_members k h request client members fds =
    unwind (destroy_members members.0 members.1)
      (body h request client members.1 (set_up k client members.0)) fds

unfoldable pub construct :
    ConnectionCalls → Host → RwPacket → Address → Descriptors → Outcome Owned × Descriptors
unfolding make_members destroy_members set_up body
construct k h request client fds = and_then (make_members k fds) (with_members k h request client)

-- The descriptors that are open when a connection, if one was made, is destroyed again.
abbrev pub after : Outcome Owned × Descriptors → Descriptors
after (ok o, fds) = destroy_members o.udp o.timer_fd fds
after (throw e, fds) = fds
after (undefined, fds) = fds
after (out_of_fuel, fds) = fds

-- A socket bound to a port that the kernel chooses, connected to the client and not blocking.
abbrev pub set_up_for : Address → Socket → Socket
set_up_for client s = record s {
  local = some (sockaddr_in inaddr_any 0);
  peer = some client;
  flags = record s.flags { o_nonblock = true };
}

-- What a connection has when its constructor returns.
pub record Constructed (k : ConnectionCalls) (h : Host) (request : RwPacket) (client : Address)
    (o : Owned) : Type 0 where
  pub created : create (record h { socket = ok tt }) request client ≡ ok o.connection
  pub bound : o.udp.local ≡ some (sockaddr_in inaddr_any 0)
  pub connected : o.udp.peer ≡ some client
  pub non_blocking : o.udp.flags.o_nonblock ≡ true
  pub timer : k.timerfd ≡ some o.timer_fd
