-- ===== src/Server/Connection/Retransmit/Silence.antt =====
-- A client that falls silent: `handle_read` and `handle_write` on one timeout after another.
use cpp_tftp.Common.{
  suc, ◌+◌, ◌-◌, ◌≤◌, ◌≡◌, refl, ap, ap₂, ◌∙◌, true, false, List, [], ◌∷◌, Option, some, arith, All,
  if◌then◌else◌, length, replicate, Bytes,
}
use cpp_tftp.Common.Outcome.{Outcome, ok, ◌>>=◌}
use cpp_tftp.Server.Connection.{Connection, State, max_timeouts}
use cpp_tftp.Server.Connection.Read.{handle_read, handle_expired}
use cpp_tftp.Server.Connection.Write.{handle_write}
use cpp_tftp.Server.Connection.Retransmit.{
  last_packet_in, IsWaiting, for_ack, for_data, last_packet, handle_read_expired, waiting_again,
  Round, IsSilent, Resends, resends,
}

waiting_again-IsWaiting : (c : Connection) → IsWaiting c → IsWaiting (waiting_again c)
waiting_again-IsWaiting c (for_ack w p) = for_ack w p
waiting_again-IsWaiting c (for_data w f b) = for_data w f b

-- Rounds of `handle_read` and `handle_write`, until the connection is finished: what was sent.
pub rounds : List Round → Connection → Outcome (Connection × List (Option Bytes))
rounds [] c = ok (c, [])
rounds (r ∷ rest) c = do
  c' ← handle_read r.expiry r.received c
  let more = (do
    (c'', sent) ← handle_write r.sent c'
    (last, sents) ← rounds rest c''
    ok (last, sent ∷ sents))
  if c'.finished then ok (c', []) else more

last_packet_in-again :
    (s : State) (c : Connection) → last_packet_in s (waiting_again c) ≡ last_packet_in s c
last_packet_in-again State.wait_for_data c = refl
last_packet_in-again State.wait_for_ack c = refl
last_packet_in-again State.send_ack c = refl
last_packet_in-again State.send_data c = refl
last_packet_in-again State.send_oack c = refl
last_packet_in-again State.error c = refl

last_packet-again : (c : Connection) → last_packet (waiting_again c) ≡ last_packet c
unfolding last_packet
last_packet-again c = last_packet_in-again c.state c

rounds_resend :
    (r : Round) (rest : List Round) (c : Connection)
    → Resends r c
    → c.finished ≡ false
    → rounds (r ∷ rest) c
      ≡ (do (last, sents) ← rounds rest (waiting_again c); ok (last, some (last_packet c) ∷ sents))
unfolding rounds
rounds_resend r rest c q f =
    let more : Outcome (Connection × Option Bytes) → Outcome (Connection × List (Option Bytes)) =
      λ o. o >>= λ x. rounds rest x.0 >>= λ y. ok (y.0, x.1 ∷ y.1) in
    ap (λ o. o >>= λ c'. if c'.finished then ok (c', []) else more (handle_write r.sent c'))
      q.expires
    ∙ ap (λ b. if b then ok (q.sending, []) else more (handle_write r.sent q.sending))
        (q.same_finished ∙ f)
    ∙ ap more q.wrote

rounds_last :
    (r : Round) (c : Connection)
    → IsSilent r
    → max_timeouts ≤ c.timeout_count
    → rounds (r ∷ []) c ≡ ok (record c { finished = true }, [])
unfolding rounds handle_expired
rounds_last r c q h = rw (handle_read_expired r.expiry r.received c q.expired) (ground arith)

-- What rounds without an answer come to.
pub record GivesUp (rs : List Round) (c : Connection) : Type 0 where
  pub last : Connection
  pub runs :
      rounds rs c ≡ ok (last, replicate (max_timeouts - c.timeout_count) (some (last_packet c)))
  pub last_finished : last.finished ≡ true

-- A client that falls silent while a connection waits for its answer to a packet, with sends that
-- succeed: the packet is sent again, three times since the last answer in all, and with the next
-- timeout the connection is finished.
pub rounds-GivesUp :
    (rs : List Round) (c : Connection)
    → All IsSilent rs
    → IsWaiting c
    → c.finished ≡ false
    → length rs + c.timeout_count ≡ suc max_timeouts
    → c.timeout_count ≤ max_timeouts
    → GivesUp rs c
rounds-GivesUp [] c q w f n h = absurd (omega (arith, n))
rounds-GivesUp (r ∷ []) c q w f n h =
    let none_left : 0 ≡ max_timeouts - c.timeout_count = omega (arith, n) in
    record {
      last = record c { finished = true };
      runs =
          rounds_last r c q.0 (omega (arith, n))
          ∙ ap (λ k. ok (record c { finished = true }, replicate k (some (last_packet c))))
              none_left;
      last_finished = refl;
    }
rounds-GivesUp (r ∷ r' ∷ rest) c q w f n h =
    let later =
      rounds-GivesUp (r' ∷ rest) (waiting_again c) q.1 (waiting_again-IsWaiting c w) f
        (omega (arith, n)) (omega (arith, n)) in
    let left = max_timeouts - c.timeout_count in
    let one_less : max_timeouts - suc c.timeout_count ≡ left - 1 = omega arith in
    let one_more : suc (left - 1) ≡ left = omega (arith, n) in
    record {
      last = later.last;
      runs =
          rounds_resend r (r' ∷ rest) c (resends r c q.0 w (omega (arith, n))) f
          ∙ ap (λ o. o >>= λ y. ok (y.0, some (last_packet c) ∷ y.1)) later.runs
          ∙ ap₂ (λ k p. ok (later.last, some (last_packet c) ∷ replicate k (some p))) one_less
              (last_packet-again c)
          ∙ ap (λ k. ok (later.last, replicate k (some (last_packet c)))) one_more;
      last_finished = later.last_finished;
    }
