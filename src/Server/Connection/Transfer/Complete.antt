-- ===== src/Server/Connection/Transfer/Complete.antt =====
-- A whole transfer to a client that acknowledges every packet.
use cpp_tftp.Common.{
  ℕ, zero, suc, ◌<◌, ◌≡◌, refl, ap, subst, ◌∙◌, Bool, true, false, inl, inr, List, [], ◌∷◌, map,
  Option, some, arith, ltb, ltb→le, if◌then◌else◌, Bool-cases, length, drop, length-drop, Bytes,
}
use cpp_tftp.Common.Outcome.{ok, ◌>>=◌}
use cpp_tftp.Tftp.Types.{DataPacket}
use cpp_tftp.Tftp.Serialise.{serialise_data_packet}
use cpp_tftp.File.Stream.{ReadStream}
use cpp_tftp.File.ReadFile.Pending.{pending}
use cpp_tftp.Net.Udp.{SendResult, send_done}
use cpp_tftp.Net.Timer.{TimerRead, has_expired}
use cpp_tftp.Server.Connection.{Connection, State}
use cpp_tftp.Server.Connection.Read.{next_block}
use cpp_tftp.Server.Connection.Transfer.{serve, data_blocks}
use cpp_tftp.Server.Connection.Transfer.Round.{
  IsServing, block_of, with_sent, acknowledged, reads, exchange_lem,
}

-- The blocks that are sent, as datagrams.
abbrev pub packets : List DataPacket → List (Option Bytes)
packets ps = map (λ p. some (serialise_data_packet p)) ps

module _ (c : Connection) (s : ReadStream) (v : IsServing c s) where
  abbrev pub after : Connection
  after = acknowledged (with_sent c s (reads c s v).next)

  -- The connection after a block that is not the last.
  abbrev pub next : Connection
  next = record (with_sent c s (reads c s v).next) {
    timeout_count = 0;
    final_ack = false;
    pkt_ready = false;
    state = State.send_data;
    block_number = next_block c.block_number;
  }

  pub after_full : ltb (length (pending c.file_reader s)) c.block_size ≡ false → after ≡ next
  after_full e = rw e

  pub after_last :
      ltb (length (pending c.file_reader s)) c.block_size ≡ true → after.finished ≡ true
  after_last e = rw e

  pub next-IsServing : IsServing next (reads c s v).next_stream
  next-IsServing = record {
    sends = refl;
    unread = refl;
    not_final = refl;
    is_word = omega arith;
    is_size = v.is_size;
    reading = (reads c s v).reading;
  }

module _ (r : SendResult) (t : TimerRead) (sends : send_done r ≡ true)
    (on_time : has_expired t ≡ false) where
  -- One round of `serve`, once what the exchange comes to is known.
  pub serve_round :
      (f : ℕ) (c : Connection) (s : ReadStream) (v : IsServing c s) (b : Bool)
      → (after c s v).finished ≡ b
      → serve (suc f) r t c ≡ (
          (if b then ok (after c s v, []) else serve f r t (after c s v)) >>= λ x.
          ok (x.0, some (serialise_data_packet (block_of c s)) ∷ x.1))
  unfolding serve
  serve_round f c s v b e =
      ap
        (λ o. o >>= λ x.
          (if x.0.finished then ok (x.0, []) else serve f r t x.0) >>= λ y. ok (y.0, x.1 ∷ y.1))
        (exchange_lem c s v r t sends on_time)
      ∙ ap
          (λ b. (if b then ok (after c s v, []) else serve f r t (after c s v)) >>= λ x.
            ok (x.0, some (serialise_data_packet (block_of c s)) ∷ x.1))
          e

-- What a transfer of d in blocks comes to.
pub record Served (f : ℕ) (r : SendResult) (t : TimerRead) (d : Bytes) (c : Connection)
    : Type 0 where
  pub last : Connection
  pub runs : serve f r t c ≡ ok (last, packets (data_blocks f c.block_size c.block_number d))
  pub last_finished : last.finished ≡ true

-- A connection that is about to send the next block of an open file, on a device that does not
-- fail, with a block size from 1 to 2 ^ 64 - 1: it sends the blocks that are left in order, each
-- once, to a client that acknowledges each, and is then finished. Each send succeeds, no timer runs
-- out, and the rounds are more than the bytes that are left.
pub serve-Served :
    (f : ℕ) (r : SendResult) (t : TimerRead) (c : Connection) (s : ReadStream)
    → send_done r ≡ true
    → has_expired t ≡ false
    → IsServing c s
    → c.finished ≡ false
    → 0 < c.block_size
    → length (pending c.file_reader s) < f
    → Served f r t (pending c.file_reader s) c
unfolding data_blocks
serve-Served zero r t c s sends on_time v active size h = absurd (omega (arith, h))
serve-Served (suc f) r t c s sends on_time v active size h =
    let d = pending c.file_reader s in
    let sent = some (serialise_data_packet (block_of c s)) in
    elim (Bool-cases (ltb (length d) c.block_size)) [
      | inl short ↦ record {
        last = after c s v;
        runs = serve_round r t sends on_time f c s v true (after_last c s v short) ∙ rw short;
        last_finished = after_last c s v short;
      }
      | inr full ↦
          let c' = next c s v in
          let q = (reads c s v).queue in
          let rest : Served f r t (drop c.block_size d) c' =
            subst (λ d. Served f r t d c') q
              (serve-Served f r t c' (reads c s v).next_stream sends on_time (next-IsServing c s v)
                active size
                (omega (
                  arith,
                  size,
                  ap (λ d. length d) q,
                  length-drop c.block_size d,
                  ltb→le _ _ full,
                ))) in
          record {
            last = rest.last;
            runs =
                serve_round r t sends on_time f c s v false
                  (ap (λ c. c.finished) (after_full c s v full) ∙ active)
                ∙ ap (λ c'. serve f r t c' >>= λ x. ok (x.0, sent ∷ x.1)) (after_full c s v full)
                ∙ ap (λ o. o >>= λ x. ok (x.0, sent ∷ x.1)) rest.runs
                ∙ rw full;
            last_finished = rest.last_finished;
          }
    ]
