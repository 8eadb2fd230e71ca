-- ===== src/Server/Loop/Faults.antt =====
-- What an exception in one connection does to the loop of `start`.
use cpp_tftp.Common.{
  some-injective, ℕ, suc, ◌+◌, ◌-◌, ◌<◌, ◌≤◌, ◌≡◌, refl, ap, ◌∙◌, true, false, inl, inr, List, [],
  ◌∷◌, ◌++◌, Option, none, some, arith, ◌==◌, if◌then◌else◌, Bool-cases, length, take_of_le,
  length-append, Bytes,
}
use cpp_tftp.Common.Outcome.{Outcome, ok, throw, ◌>>=◌, Exception, bind-eq-ok, ok-injective}
use cpp_tftp.Utils.Netascii.{
  cr, netascii_to_native, netascii_to_native-Settled, netascii_to_native-ne_ok_of_cr_end,
}
use cpp_tftp.Tftp.Types.{Mode, DataPacket}
use cpp_tftp.Tftp.Serialise.{serialise_data_packet}
use cpp_tftp.File.Stream.{WriteStream}
use cpp_tftp.File.WriteFile.{WriteFile, write, write_mode, write_netascii, from_fd, error}
use cpp_tftp.Net.Udp.{datagram}
use cpp_tftp.Net.Timer.{TimerRead, has_expired}
use cpp_tftp.Server.Connection.{Connection, State}
use cpp_tftp.Server.Connection.Read
use cpp_tftp.Server.Connection.Read.{after_data, receive_data, accept_data, accepted}
use cpp_tftp.Server.Connection.Receive.{handle_read-data}
use cpp_tftp.Server.Connection.Oack.{deserialise_data_packet-take}
use cpp_tftp.Server.Loop.{
  Server, Client, Flags, Event, Waited, on_client, events, interest_of, readable, serve_connection,
  serve_client, handle_event, handle_events, clean_up, round, run,
}

-- A connection that waits for a block of a file in netascii.
pub record AwaitsNetascii (c : Connection) : Type 0 where
  pub stream : WriteStream
  pub waits : c.state ≡ State.wait_for_data
  pub opened : c.file_writer.fd ≡ some stream
  pub netascii : c.file_writer.mode ≡ Mode.netascii
  pub number : c.block_number < 65536

-- The block that is waited for, with a carriage return behind `text`.
abbrev pub cut_block : Bytes → Connection → DataPacket
cut_block text c = record { payload = text ++ cr ∷ []; block_number = c.block_number }

decoder_throws : (text : Bytes) → (e : Exception) × (netascii_to_native (text ++ cr ∷ []) ≡ throw e)
decoder_throws text = elim (netascii_to_native-Settled (text ++ cr ∷ [])) [
  | inl h ↦ h
  | inr (d, h) ↦ absurd (netascii_to_native-ne_ok_of_cr_end text d h)
]

write_throws :
    (payload : Bytes) (w : WriteFile) (s : WriteStream) (e : Exception)
    → w.fd ≡ some s
    → w.mode ≡ Mode.netascii
    → netascii_to_native payload ≡ throw e
    → write payload w ≡ throw e
unfolding write write_mode
write_throws payload w s e o m h =
    ap
      (λ o. from_fd o >>= λ s. write_mode w.mode payload s >>= λ s'. ok (record w { fd = some s' }))
      o
    ∙ ap (λ m. write_mode m payload s >>= λ s'. ok (record w { fd = some s' })) m
    ∙ ap
        (λ n. (n >>= λ d. write_netascii (suc (length d)) d 0 s) >>= λ s'.
          ok (record w { fd = some s' }))
        h

receive_data_throws :
    (p : DataPacket) (c : Connection) (e : Exception)
    → p.block_number ≡ c.block_number
    → write p.payload c.file_writer ≡ throw e
    → receive_data p c ≡ throw e
unfolding receive_data accept_data
receive_data_throws p c e n w =
    let new : (suc p.block_number == c.block_number) ≡ false = ground arith in
    let same : (p.block_number == c.block_number) ≡ true = ground arith in
    rw (new, same) (ap (λ m. m >>= λ writer. error writer >>= λ b. ok (accepted b writer p c)) w)

handle_read_throws :
    (t : TimerRead) (text : Bytes) (c : Connection)
    → AwaitsNetascii c
    → has_expired t ≡ false
    → length text + 5 ≤ c.block_size
    → (e : Exception) × (Read.handle_read t (datagram (serialise_data_packet (cut_block text c))) c
        ≡ throw e)
unfolding after_data
handle_read_throws t text c a on_time fits =
    let (e, decodes) = decoder_throws text in
    let p = cut_block text c in
    let size = length-append text (cr ∷ []) in
    let whole = take_of_le (c.block_size - 4) p.payload (omega (arith, fits, size)) in
    (
      e,
      handle_read-data t (serialise_data_packet p) c on_time (some p) a.waits (
            deserialise_data_packet-take c.block_size p a.number (omega (arith, fits))
            ∙ ap (λ d. ok (some (record p { payload = d }))) whole)
          ∙ receive_data_throws p c e refl
              (write_throws p.payload c.file_writer a.stream e a.opened a.netascii decodes),
    )

-- The element at an address.
abbrev pub find : ℕ → List Client → Option Client
find id [] = none
find id (x ∷ xs) = if x.id == id then some x else find id xs

serve_client_throws :
    (id : ℕ) (flags : Flags) (ctl : Outcome (Unit {0})) (xs : List Client) (x : Client)
    (e : Exception)
    → find id xs ≡ some x
    → serve_connection flags x.connection ≡ throw e
    → serve_client id flags ctl xs ≡ throw e
unfolding serve_client
serve_client_throws id flags ctl [] x e f h = cc f
serve_client_throws id flags ctl (y ∷ ys) x e f h = elim (Bool-cases (y.id == id)) [
  | inl here ↦
      let same : y ≡ x = some-injective (rw here at f) in
      rw here (
        ap
          (λ m.
            m >>= λ c. ctl >>= λ _. ok (record y { connection = c; interest = interest_of c } ∷ ys))
          (ap (λ y. serve_connection flags y.connection) same ∙ h))
  | inr later ↦ rw later (
      ap (λ m. m >>= λ zs. ok (y ∷ zs)) (serve_client_throws id flags ctl ys x e (rw later at f) h))
]

run-append : (ws vs : List Waited) (s s' : Server) → run ws s ≡ ok s' → run (ws ++ vs) s ≡ run vs s'
unfolding run
run-append [] vs s s' h = ap (run vs) (ok-injective h)
run-append (w ∷ ws) vs s s' h =
    let (t, e1, e2) = bind-eq-ok (round w s) _ h in
    ap (λ m. m >>= λ s. run (ws ++ vs) s) e1 ∙ run-append ws vs t s' e2

-- In a server whose loop has come to a connection that waits for a block of a file in netascii, a
-- block that ends with a carriage return, which the other half of a line end or a null may follow in
-- the next block, ends the loop with an exception, whatever the other connections are doing.
pub run_throws :
    (ws vs : List Waited) (es : List Event) (s s' : Server) (id : ℕ) (x : Client) (t : TimerRead)
    (text : Bytes) (ctl : Outcome (Unit {0}))
    → run ws s ≡ ok s'
    → find id s'.clients ≡ some x
    → AwaitsNetascii x.connection
    → has_expired t ≡ false
    → length text + 5 ≤ x.connection.block_size
    → let block = datagram (serialise_data_packet (cut_block text x.connection)) in
      (e : Exception) × (run (ws ++ (events (on_client id (readable t block) ctl ∷ es) ∷ vs)) s
        ≡ throw e)
unfolding run round handle_events handle_event serve_connection
run_throws ws vs es s s' id x t text ctl reached found a on_time fits =
    let (e, thrown) = handle_read_throws t text x.connection a on_time fits in
    let block = datagram (serialise_data_packet (cut_block text x.connection)) in
    let served = serve_client_throws id (readable t block) ctl s'.clients x e found thrown in
    (
      e,
      run-append ws (events (on_client id (readable t block) ctl ∷ es) ∷ vs) s s' reached
          ∙ ap
              (λ m.
                (((m >>= λ clients. ok (record s' { clients = clients })) >>= λ s.
                handle_events es s)
                  >>= λ s. clean_up s.clients >>= λ clients. ok (record s { clients = clients }))
                >>= λ s. run vs s)
              served,
    )
