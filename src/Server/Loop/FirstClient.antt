-- ===== src/Server/Loop/FirstClient.antt =====
-- The first request that a server gets, from its datagram to the end of the transfer.
use cpp_tftp.Common.{
  ℕ, suc, ◌≡◌, refl, ap, ◌∙◌, true, false, ltb, if◌then◌else◌, List, [], ◌∷◌, some, arith, take,
  length, is_empty, Bytes,
}
use cpp_tftp.Common.Outcome.{Outcome, ok, undefined, ◌>>=◌}
use cpp_tftp.Tftp.Types.{PacketType, RwPacket}
use cpp_tftp.Tftp.Deserialise.{deserialise_rw_packet}
use cpp_tftp.File.Stream.{ReadStream}
use cpp_tftp.File.ReadFile.Loops.{IsGood}
use cpp_tftp.File.ReadFile.Pending.{encode}
use cpp_tftp.Net.Udp.{Address, SendResult, send_done}
use cpp_tftp.Net.Timer.{TimerRead, has_expired}
use cpp_tftp.Server.Connection.{Connection, is_finished}
use cpp_tftp.Server.Connection.Host.{Host}
use cpp_tftp.Server.Connection.Access.{IsAllowed}
use cpp_tftp.Server.Connection.Create.{create}
use cpp_tftp.Server.Connection.Transfer.{data_blocks}
use cpp_tftp.Server.Connection.Transfer.Request.{opened, opened-IsServing, create-Served}
use cpp_tftp.Server.Connection.Transfer.Complete.{Served}
use cpp_tftp.Server.Handler
use cpp_tftp.Server.Handler.{Request, Resolver, arriving, handle_read_one, get_request}
use cpp_tftp.Server.Start.{idle}
use cpp_tftp.Server.Loop.{
  Server, Client, Waited, on_port, events, interest_of, accept_one, accept_pending, handle_event,
  handle_events, clean_up, clean_up_from, round, run,
}
use cpp_tftp.Server.Loop.Download.{rounds, run_download}

-- The round in which the datagram arrives.
abbrev pub arrival : Host → Resolver → Address → Bytes → Waited
arrival h s sender d = events (on_port h s (arriving ((sender, d) ∷ [])) (ok tt) ∷ [])

-- The server with one connection.
abbrev pub with_one : ℕ → Connection → Server
with_one max c = record (idle max) {
  clients = record { id = 0; connection = c; interest = interest_of c } ∷ [];
  next_id = 1;
}

module _ (h : Host) (max : ℕ) (room : ltb 0 max ≡ true) (asked : Request) (c : Connection)
    (created : create h asked.request asked.client ≡ ok c) where
  accept_first :
      accept_pending 2 h (ok tt) (record (idle max) { queue = asked ∷ [] }) ≡ ok (with_one max c)
  unfolding accept_pending accept_one get_request
  accept_first =
      let queued : Server = record (idle max) { queue = asked ∷ [] } in
      ap
        (λ b.
          if b
          then (accept_one h (ok tt) queued >>= λ s. accept_pending 1 h (ok tt) s)
          else ok queued)
        room
      ∙ ap (λ o. (o >>= λ c. ok (with_one max c)) >>= λ s. accept_pending 1 h (ok tt) s) created

  run-arrival :
      (s : Resolver) (sender : Address) (d : Bytes) (ws : List Waited)
      → is_finished c ≡ false
      → Handler.handle_read s (arriving ((sender, d) ∷ [])) [] ≡ ok (asked ∷ [])
      → run (arrival h s sender d ∷ ws) (idle max) ≡ run ws (with_one max c)
  unfolding run round handle_events handle_event clean_up_from
  run-arrival s sender d ws active queued =
      let accepts = λ (q : List Request).
        accept_pending (suc (length q)) h (ok tt) (record (idle max) { queue = q }) in
      let onward = λ (m : Outcome Server).
        ((m >>= λ s. ok s) >>= λ s. clean_up s.clients >>= λ ys. ok (record s { clients = ys }))
        >>= run ws in
      let x : Client = record { id = 0; connection = c; interest = interest_of c } in
      ap (λ m. onward (m >>= accepts)) queued
      ∙ ap onward accept_first
      ∙ ap
          (λ b.
            ((if b then undefined else ok (x ∷ [])) >>= λ ys.
            ok (record (with_one max c) { clients = ys }))
            >>= run ws)
          active

-- The first client of a server, which reads a file without options and acknowledges each block, is
-- sent the whole file, and the behaviour of the server is undefined when that is done: the clean-up
-- of the last round goes past the end of the list. The request is in the first 2048 bytes of the
-- datagram, the file exists below the root and can be opened on a device that does not fail, the
-- socket can be set up, each send succeeds, no timer runs out, and at least one client is allowed.
pub first_download :
    (h : Host) (s : Resolver) (sender client : Address) (d : Bytes) (request : RwPacket)
    (f : ReadStream) (r : SendResult) (t : TimerRead) (max : ℕ)
    → ltb 0 max ≡ true
    → is_empty d ≡ false
    → deserialise_rw_packet (take 2048 d) ≡ ok (some request)
    → s.to_sockaddr_in sender ≡ some client
    → h.socket ≡ ok tt
    → request.type ≡ PacketType.read
    → request.options ≡ []
    → IsAllowed h request.filename request.type
    → h.fopen_read request.filename ≡ some f
    → IsGood f
    → send_done r ≡ true
    → has_expired t ≡ false
    → let c = opened request client f in
      let file = encode request.mode f.rest in
      let blocks = data_blocks (suc (length file)) 512 1 file in
      Served (suc (length file)) r t file c
      × (run (arrival h s sender d ∷ rounds r t 0 blocks) (idle max) ≡ undefined)
first_download h s sender client d request f r t max room more parsed resolved socket read plain
      allowed file good sends on_time =
    let c = opened request client f in
    let asked : Request = record { request = request; client = client } in
    let bytes = encode request.mode f.rest in
    let (created, served) =
      create-Served h request client f r t (suc (length bytes)) socket read plain allowed file good
        sends on_time (omega arith) in
    (
      served,
      run-arrival h max room asked c created s sender d
            (rounds r t 0 (data_blocks (suc (length bytes)) 512 1 bytes)) refl
            (handle_read_one s sender client d request more parsed resolved)
          ∙ (run_download (record (idle max) { next_id = 1 })
                (record { id = 0; connection = c; interest = interest_of c }) [] f r t
                (suc (length bytes)) (opened-IsServing request client f good) refl (omega arith)
                (omega arith) sends on_time tt).0
              refl,
    )
