-- ===== src/Client/Session.antt =====
-- The socket of `get_file` and `send_file` of src/client/tftp_client.cpp: it is made, bound, used and
-- destroyed in one call.
use cpp_tftp.Common.{ℕ, ◌≡◌, ap, subst, ◌∙◌, inl, inr, Bool, ◌∷◌, Option, List, Bytes}
use cpp_tftp.Common.Outcome.{
  Outcome, ok, ◌>>=◌, and_then, leave, HasEnded, leave-HasEnded, leave-outcome,
}
use cpp_tftp.Tftp.Types.{Mode, PacketType, rw_packet}
use cpp_tftp.Tftp.Serialise.{serialise_rw_packet}
use cpp_tftp.Net.Udp.{SendResult, ReceivedFrom, datagram_from, failed_from}
use cpp_tftp.Net.Inet.{Inet}
use cpp_tftp.Net.Descriptors.{Descriptors, close-opened}
use cpp_tftp.Net.Socket.{
  Socket, SocketCalls, udp_connection, udp_connection-cases, destroy, bind, connect, send_to,
}
use cpp_tftp.Client.{Polled, Exchange}
use cpp_tftp.Client.GetFile.{Got, get_file}
use cpp_tftp.Client.SendFile.{InFile, Sent, send_file}

-- The arguments of the two functions.
pub record Transfer : Type 0 where
  pub filename : Bytes
  pub tftp_server : Bytes
  pub mode : Mode
  pub local_interface : Bytes

-- What a transfer meets: the results of the calls on the socket, of the first wait and of those that
-- follow, and of the opening of the file, for writing and for reading.
pub record Meets : Type 0 where
  pub inet : Inet
  pub socket_calls : SocketCalls
  pub sendto : SendResult
  pub polled : Polled
  pub first : ReceivedFrom
  pub exchanges : List Exchange
  pub out_file_opens : Bool
  pub in_file : Option InFile

-- `server_tid`: the port that the first reply comes from.
abbrev pub server_tid : ReceivedFrom → ℕ
server_tid (datagram_from sender d) = sender.port_num
server_tid (failed_from e) = 0

-- What `connect` comes to, and the sending of the request to port 69, whose result is not looked at.
abbrev pub connected : Transfer → Meets → Socket → Outcome (Unit {0})
connected x n udp = do
  _ ← connect n.inet n.socket_calls x.tftp_server (server_tid n.first) udp
  ok tt

abbrev pub request_sent : Transfer → Meets → Bytes → Socket → Outcome Socket
request_sent x n request_data udp = do
  bound ← bind n.inet n.socket_calls x.local_interface 0 udp
  _ ← send_to n.inet n.sendto x.tftp_server 69 request_data
  ok bound

-- A function that has the socket as a local variable.
unfoldable pub with_udp {ℓ} :
    {A : Type ℓ} → SocketCalls → (Socket → Outcome A) → Descriptors → Outcome A × Descriptors
with_udp k f fds = and_then (udp_connection k fds) λ udp fds'. leave (destroy udp) (f udp) fds'

abbrev pub get_on : Transfer → Meets → Socket → Outcome Got
get_on x n udp = do
  let request = rw_packet x.filename PacketType.read x.mode
  bound ← request_sent x n (serialise_rw_packet request) udp
  get_file x.filename x.mode n.out_file_opens (connected x n bound) n.polled n.first n.exchanges

unfoldable pub get_session : Transfer → Meets → Descriptors → Outcome Got × Descriptors
unfolding with_udp
get_session x n fds = with_udp n.socket_calls (get_on x n) fds

abbrev pub send_on : Transfer → Meets → Socket → Outcome Sent
send_on x n udp = do
  let request = rw_packet x.filename PacketType.write x.mode
  bound ← request_sent x n (serialise_rw_packet request) udp
  send_file x.filename x.mode n.in_file (connected x n bound) n.polled n.first n.exchanges

unfoldable pub send_session : Transfer → Meets → Descriptors → Outcome Sent × Descriptors
unfolding with_udp
send_session x n fds = with_udp n.socket_calls (send_on x n) fds

-- Whatever a function with a local socket does with it, once it has ended, by a result or by an
-- exception, the descriptors are those from before.
with_udp-HasEnded {ℓ} :
    {A : Type ℓ} (k : SocketCalls) (f : Socket → Outcome A) (fds : Descriptors)
    → HasEnded (with_udp k f fds).0
    → (with_udp k f fds).1 ≡ fds
unfolding with_udp
with_udp-HasEnded {A} k f fds h = elim (udp_connection-cases k fds) [
  | inl e ↦ ap (λ m. (and_then m body).1) e
  | inr (udp, e) ↦
      let ran = ap (λ m. and_then m body) e in
      let ended =
        subst HasEnded (ap (λ m. m.0) ran ∙ leave-outcome (destroy udp) (f udp) (udp.sd ∷ fds)) h in
      ap (λ m. m.1) ran
      ∙ ap (λ m. m.1)
          (leave-HasEnded (destroy udp) (f udp) (udp.sd ∷ fds) fds (close-opened udp.sd fds) ended)
]
  where
    body : Socket → Descriptors → Outcome A × Descriptors
    body udp fds' = leave (destroy udp) (f udp) fds'
