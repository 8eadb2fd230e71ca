-- ===== src/Net/Udp.antt =====
-- `udp_connection`. What the system calls return is an argument.
use cpp_tftp.Common.{ℕ, Bool, true, false, not, ◌&&◌, ltb, ◌==◌, [], if◌then◌else◌, take, Bytes}
use cpp_tftp.Common.Outcome.{Outcome, ok, throw, system_error}

-- The values of `errno` that the program tells apart.
pub data Errno : Type 0 where
  eagain ewouldblock eintr other : Errno

abbrev pub is_again : Errno → Bool
is_again Errno.eagain = true
is_again Errno.ewouldblock = true
is_again Errno.eintr = false
is_again Errno.other = false

-- What `::recv` finds: the next datagram, or no datagram and an error number.
pub data Received : Type 0 where
  datagram : Bytes → Received
  failed : Errno → Received

-- The kernel cuts a datagram to the size of the buffer and drops what is left. An empty datagram
-- gives an empty vector, whatever `errno` says.
unfoldable pub recv : ℕ → Received → Outcome Bytes
recv size (datagram d) = ok (take size d)
recv size (failed e) = if is_again e then ok [] else throw system_error

-- An address in text, and a port.
pub record Address : Type 0 where
  pub ip_address : Bytes
  pub port_num : ℕ

-- What `::recvfrom` finds: a datagram with its sender, or an error number.
pub data ReceivedFrom : Type 0 where
  datagram_from : Address → Bytes → ReceivedFrom
  failed_from : Errno → ReceivedFrom

-- The address is the caller's and is written only when there is a datagram.
unfoldable pub recv_from : ℕ → Address → ReceivedFrom → Outcome (Bytes × Address)
recv_from size old (datagram_from sender d) = ok (take size d, sender)
recv_from size old (failed_from e) = if is_again e then ok ([], old) else throw system_error

-- What `::send` returns: `ret`, or 0 where that is not positive, and the error number.
pub record SendResult : Type 0 where
  pub ret : ℕ
  pub errno : Errno

-- `(ret <= 0) && ((errno != EAGAIN) && (errno != EWOULDBLOCK))`
abbrev pub send_failed : SendResult → Bool
send_failed r = r.ret == 0 && not (is_again r.errno)

-- `ret > 0`
abbrev pub send_done : SendResult → Bool
send_done r = ltb 0 r.ret
