-- ===== src/Client/Online.antt =====
-- A transfer of src/client/tftp_client.cpp whose calls on the socket succeed.
use cpp_tftp.Common.{ℕ, ◌≡◌, ap, ◌∙◌, true, ◌∷◌, some, arith, Bytes}
use cpp_tftp.Common.Outcome.{Outcome, ok, ◌>>=◌, and_then, leave, leave-outcome}
use cpp_tftp.Tftp.Types.{PacketType, rw_packet}
use cpp_tftp.Tftp.Serialise.{serialise_rw_packet}
use cpp_tftp.Net.Udp.{SendResult, Address}
use cpp_tftp.Net.Inet.{sockaddr_in}
use cpp_tftp.Net.Descriptors.{Descriptors}
use cpp_tftp.Net.Socket.{
  Socket, made_socket, udp_connection, destroy, bind, bind_address, send_to, connect, connect_to,
  peer_address, check,
}
use cpp_tftp.Client.GetFile.{get_file}
use cpp_tftp.Client.Session.{
  Transfer, Meets, with_udp, get_on, get_session, connected, request_sent, server_tid,
}

-- Every call on the socket succeeds, and the two addresses are read.
pub record Online (x : Transfer) (n : Meets) : Type 0 where
  pub sd : ℕ
  pub made : n.socket_calls.socket_sd ≡ some sd
  pub reuses : n.socket_calls.setsockopt ≡ true
  pub binds : n.socket_calls.bind_call ≡ true
  pub connects : n.socket_calls.connect_call ≡ true
  pub local : Address
  pub local_read : bind_address n.inet x.local_interface 0 ≡ ok local
  pub server : Bytes
  pub server_read : n.inet.inet_pton x.tftp_server ≡ some server

module _ (x : Transfer) (n : Meets) (o : Online x n) where
  peer_address_online :
      (port : ℕ) → peer_address n.inet x.tftp_server port ≡ ok (sockaddr_in o.server port)
  unfolding peer_address
  peer_address_online port = let e = o.server_read in ground arith

  request_sent_online :
      (request_data : Bytes) (udp : Socket)
      → request_sent x n request_data udp ≡ ok (record udp { local = some o.local })
  unfolding bind send_to
  request_sent_online request_data udp =
      let sent : Outcome Address → Outcome (SendResult × (Address × Bytes)) =
        λ a. a >>= λ sa. ok (n.sendto, (sa, request_data)) in
      ap
        (λ a. (do
          bound ← a >>= λ sa.
              check n.socket_calls.bind_call >>= λ _. ok (record udp { local = some sa })
          _ ← sent (peer_address n.inet x.tftp_server 69)
          ok bound))
        o.local_read
      ∙ ap
          (λ b. (do
            bound ← check b >>= λ _. ok (record udp { local = some o.local })
            _ ← sent (peer_address n.inet x.tftp_server 69)
            ok bound))
          o.binds
      ∙ ap (λ p. sent p >>= λ _. ok (record udp { local = some o.local })) (peer_address_online 69)

  connected_online : (udp : Socket) → connected x n udp ≡ ok tt
  unfolding connect connect_to
  connected_online udp =
      ap
        (λ a.
          (a >>= λ sa.
          check n.socket_calls.connect_call >>= λ _. ok (record udp { peer = some sa }))
          >>= λ _. ok tt)
        (peer_address_online (server_tid n.first))
      ∙ ap
          (λ b.
            (check b >>= λ _.
            ok (record udp { peer = some (sockaddr_in o.server (server_tid n.first)) }))
            >>= λ _. ok tt)
          o.connects

  made_online :
      (fds : Descriptors)
      → udp_connection n.socket_calls fds ≡ (ok (made_socket n.socket_calls o.sd), o.sd ∷ fds)
  unfolding udp_connection
  made_online fds = let e = o.made in let f = o.reuses in ground arith

  pub get_session_online :
      (fds : Descriptors)
      → (get_session x n fds).0
        ≡ get_file x.filename x.mode n.out_file_opens (ok tt) n.polled n.first n.exchanges
  unfolding get_session with_udp
  get_session_online fds =
      let udp = made_socket n.socket_calls o.sd in
      let bound : Socket = record udp { local = some o.local } in
      ap (λ m. (and_then m λ udp fds. leave (destroy udp) (get_on x n udp) fds).0) (made_online fds)
      ∙ leave-outcome (destroy udp) (get_on x n udp) (o.sd ∷ fds)
      ∙ ap
          (λ r. r >>= λ b.
            get_file x.filename x.mode n.out_file_opens (connected x n b) n.polled n.first
              n.exchanges)
          (request_sent_online (serialise_rw_packet (rw_packet x.filename PacketType.read x.mode))
            udp)
      ∙ ap (λ c. get_file x.filename x.mode n.out_file_opens c n.polled n.first n.exchanges)
          (connected_online bound)
