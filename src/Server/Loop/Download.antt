-- ===== src/Server/Loop/Download.antt =====
-- A whole transfer in the loop of `start` of src/server/tftp_server.cpp: the rounds in which the
-- blocks of a file are sent and acknowledged, and what becomes of the list of connections.
use cpp_tftp.Common.{
  ℕ, zero, suc, ◌<◌, ◌≡◌, refl, sym, ap, subst, ◌∙◌, Bool, true, false, inl, inr, List, [], ◌∷◌,
  All, arith, ltb, ltb→le, if◌then◌else◌, Bool-cases, ==_refl, length, drop, length-drop,
}
use cpp_tftp.Common.Outcome.{Outcome, ok, undefined, ◌>>=◌}
use cpp_tftp.Tftp.Types.{DataPacket}
use cpp_tftp.Tftp.Serialise.{serialise_ack_packet}
use cpp_tftp.File.Stream.{ReadStream}
use cpp_tftp.File.ReadFile.Pending.{pending}
use cpp_tftp.Net.Udp.{SendResult, send_done, datagram}
use cpp_tftp.Net.Timer.{TimerRead, has_expired}
use cpp_tftp.Server.Connection.{Connection, is_finished}
use cpp_tftp.Server.Connection.Read.{next_block}
use cpp_tftp.Server.Connection.Transfer.{data_blocks}
use cpp_tftp.Server.Connection.Transfer.Round.{
  IsServing, block_of, with_sent, reads, handle_write_serving, handle_read-acknowledged,
}
use cpp_tftp.Server.Connection.Transfer.Complete.{
  after, next, after_full, after_last, next-IsServing,
}
use cpp_tftp.Server.Loop.{
  Server, Client, Flags, Interest, Waited, on_client, events, readable, writable, interest_of,
  serve_connection, serve_client, handle_event, handle_events, clean_up, clean_up_from, round, run,
}

-- The rounds of a block: its connection can write, and then has the acknowledgement to read.
abbrev pub block_rounds : SendResult → TimerRead → ℕ → DataPacket → List Waited → List Waited
block_rounds r t id p ws =
    let ack = serialise_ack_packet (record { block_number = p.block_number }) in
    events (on_client id (writable r) (ok tt) ∷ [])
    ∷ events (on_client id (readable t (datagram ack)) (ok tt) ∷ [])
    ∷ ws

abbrev pub rounds : SendResult → TimerRead → ℕ → List DataPacket → List Waited
rounds r t id [] = []
rounds r t id (p ∷ ps) = block_rounds r t id p (rounds r t id ps)

-- The connections go on.
abbrev pub AllLive : List Client → Type 0
AllLive xs = All (λ x. is_finished x.connection ≡ false) xs

-- The element of a connection once its registration is renewed.
abbrev renewed : ℕ → Connection → Client
renewed id c = record { id = id; connection = c; interest = interest_of c }

clean_up-AllLive : (xs : List Client) → AllLive xs → clean_up_from false xs ≡ ok xs
unfolding clean_up_from
clean_up-AllLive [] h = refl
clean_up-AllLive (x ∷ xs) h =
    ap (λ b. if b then clean_up_from true xs else (clean_up_from false xs >>= λ ys. ok (x ∷ ys)))
      h.0
    ∙ ap (λ o. o >>= λ ys. ok (x ∷ ys)) (clean_up-AllLive xs h.1)

clean_up-finished :
    (x : Client) (xs : List Client)
    → is_finished x.connection ≡ true
    → clean_up_from false (x ∷ xs) ≡ clean_up_from true xs
unfolding clean_up_from
clean_up-finished x xs h =
    ap (λ b. if b then clean_up_from true xs else (clean_up_from false xs >>= λ ys. ok (x ∷ ys))) h

serve_first :
    (id : ℕ) (c c' : Connection) (i : Interest) (flags : Flags) (rest : List Client)
    → serve_connection flags c ≡ ok c'
    → serve_client id flags (ok tt) (record { id = id; connection = c; interest = i } ∷ rest)
      ≡ ok (renewed id c' ∷ rest)
unfolding serve_client
serve_first id c c' i flags rest e =
    let x : Client = record { id = id; connection = c; interest = i } in
    ap
      (λ b.
        if b
        then (serve_connection flags c >>= λ c. ok (renewed id c ∷ rest))
        else (serve_client id flags (ok tt) rest >>= λ ys. ok (x ∷ ys)))
      (==_refl id)
    ∙ ap (λ m. m >>= λ c. ok (renewed id c ∷ rest)) e

module _ (s : Server) (rest : List Client) where
  abbrev with_first : Client → Server
  with_first x = record s { clients = x ∷ rest }

  cleaned_then :
      (m : Outcome (List Client)) (ws : List Waited)
      → ((m >>= λ ys. ok (record s { clients = ys })) >>= run ws)
        ≡ (m >>= λ ys. run ws (record s { clients = ys }))
  cleaned_then m ws = ground arith

  -- A round in which the first connection alone has an event.
  run_first :
      (id : ℕ) (c c' : Connection) (i : Interest) (flags : Flags) (ws : List Waited)
      → serve_connection flags c ≡ ok c'
      → run
          (events (on_client id flags (ok tt) ∷ []) ∷ ws)
          (with_first (record { id = id; connection = c; interest = i }))
        ≡ (clean_up (renewed id c' ∷ rest) >>= λ ys. run ws (record s { clients = ys }))
  unfolding run round handle_events handle_event
  run_first id c c' i flags ws e =
      ap
        (λ m.
          (((m >>= λ clients. ok (record s { clients = clients })) >>= λ s. ok s) >>= λ s.
          clean_up s.clients >>= λ ys. ok (record s { clients = ys }))
          >>= run ws)
        (serve_first id c c' i flags rest e)
      ∙ cleaned_then (clean_up (renewed id c' ∷ rest)) ws

  module _ (r : SendResult) (t : TimerRead) (sends : send_done r ≡ true)
      (on_time : has_expired t ≡ false) (live : AllLive rest) where
    -- The two rounds of a block.
    run_block :
        (c : Connection) (f : ReadStream) (v : IsServing c f) (id : ℕ) (i : Interest)
        (ws : List Waited)
        → c.finished ≡ false
        → run
            (block_rounds r t id (block_of c f) ws)
            (with_first (record { id = id; connection = c; interest = i }))
          ≡ (clean_up (renewed id (after c f v) ∷ rest) >>= λ ys.
              run ws (record s { clients = ys }))
    unfolding serve_connection
    run_block c f v id i ws active =
        let c' = with_sent c f (reads c f v).next in
        let ack = serialise_ack_packet (record { block_number = c.block_number }) in
        let reads_ack = events (on_client id (readable t (datagram ack)) (ok tt) ∷ []) in
        run_first id c c' i (writable r) (reads_ack ∷ ws)
          (ap (λ o. o >>= λ x. ok x.0) (handle_write_serving c f v r sends))
        ∙ ap (λ o. o >>= λ ys. run (reads_ack ∷ ws) (record s { clients = ys }))
            (clean_up-AllLive (renewed id c' ∷ rest) (active, live))
        ∙ run_first id c' (after c f v) (interest_of c') (readable t (datagram ack)) ws
            (handle_read-acknowledged t c' on_time refl v.is_word)

    -- The rounds of all blocks.
    run_blocks :
        (n : ℕ) (c : Connection) (f : ReadStream) (v : IsServing c f) (id : ℕ) (i : Interest)
        → c.finished ≡ false
        → 0 < c.block_size
        → length (pending c.file_reader f) < n
        → run
            (rounds r t id (data_blocks n c.block_size c.block_number (pending c.file_reader f)))
            (with_first (record { id = id; connection = c; interest = i }))
          ≡ (clean_up_from true rest >>= λ ys. ok (record s { clients = ys }))
    unfolding data_blocks run
    run_blocks zero c f v id i active size h = absurd (omega (arith, h))
    run_blocks (suc n) c f v id i active size h =
        let d = pending c.file_reader f in
        let x : Client = record { id = id; connection = c; interest = i } in
        let more = data_blocks n c.block_size (next_block c.block_number) (drop c.block_size d) in
        let first = λ (b : Bool) (e : ltb (length d) c.block_size ≡ b).
          ap (λ b. run (rounds r t id (block_of c f ∷ (if b then [] else more))) (with_first x)) e
          ∙ run_block c f v id i (rounds r t id (if b then [] else more)) active in
        elim (Bool-cases (ltb (length d) c.block_size)) [
          | inl short ↦
              first true short
              ∙ ap (λ o. o >>= λ ys. ok (record s { clients = ys }))
                  (clean_up-finished (renewed id (after c f v)) rest (after_last c f v short))
          | inr full ↦
              let c' = next c f v in
              let q = (reads c f v).queue in
              first false full
              ∙ ap
                  (λ a. clean_up (renewed id a ∷ rest) >>= λ ys.
                    run (rounds r t id more) (record s { clients = ys }))
                  (after_full c f v full)
              ∙ ap (λ o. o >>= λ ys. run (rounds r t id more) (record s { clients = ys }))
                  (clean_up-AllLive (renewed id c' ∷ rest) (active, live))
              ∙ ap
                  (λ d.
                    run (rounds r t id (data_blocks n c.block_size (next_block c.block_number) d))
                      (with_first (renewed id c')))
                  (sym q)
              ∙ run_blocks n c' (reads c f v).next_stream (next-IsServing c f v) id (interest_of c')
                  active size
                  (omega (
                    arith,
                    h,
                    size,
                    ap (λ d. length d) q,
                    length-drop c.block_size d,
                    ltb→le _ _ full,
                  ))
        ]

pub run_download :
    (s : Server) (x : Client) (others : List Client) (f : ReadStream) (r : SendResult)
    (t : TimerRead) (n : ℕ)
    → IsServing x.connection f
    → x.connection.finished ≡ false
    → 0 < x.connection.block_size
    → length (pending x.connection.file_reader f) < n
    → send_done r ≡ true
    → has_expired t ≡ false
    → AllLive others
    → let c = x.connection in
      let d = pending c.file_reader f in
      let ws = rounds r t x.id (data_blocks n c.block_size c.block_number d) in
      let server : Server = record s { clients = x ∷ others } in
      (others ≡ [] → run ws server ≡ undefined)
      × ((y : Client) (ys : List Client)
          → others ≡ y ∷ ys
          → run ws server ≡ ok (record s { clients = y ∷ ys }))
unfolding clean_up_from
run_download s x others f r t n v active size enough sends on_time live =
    let served =
      run_blocks s others r t sends on_time live n x.connection f v x.id x.interest active size
        enough in
    (
      λ none_left.
          served
          ∙ ap (λ l. clean_up_from true l >>= λ ys. ok (record s { clients = ys })) none_left,
      λ y ys e.
          served
          ∙ ap (λ l. clean_up_from true l >>= λ ys. ok (record s { clients = ys })) e
          ∙ ap (λ o. (o >>= λ zs. ok (y ∷ zs)) >>= λ ys. ok (record s { clients = ys }))
              (clean_up-AllLive ys (subst AllLive e live).1),
    )
