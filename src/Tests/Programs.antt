-- ===== src/Tests/Programs.antt =====
-- Tests of the two programs, and the machine that they run on.
pub mod Clients
pub mod Servers
use cpp_tftp.Common.{true, false, some}
use cpp_tftp.Net.Inet.{Inet}
use cpp_tftp.Net.Socket.{SocketCalls}

-- A machine on which the calls on a socket succeed.
abbrev pub inet : Inet
inet = record { inet_pton = λ a. some a; inet_ntop = λ b. some b }

abbrev pub socket_calls : SocketCalls
socket_calls = record {
  socket_sd = some 5;
  initial_flags = record { o_nonblock = false; others = 0 };
  setsockopt = true;
  fcntl_getfl = true;
  fcntl_setfl = true;
  bind_call = true;
  connect_call = true;
}
