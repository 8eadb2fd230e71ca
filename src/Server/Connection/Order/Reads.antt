-- ===== src/Server/Connection/Order/Reads.antt =====
-- What `handle_read` makes of a connection that serves a file.
use cpp_tftp.Common.{
  ℕ, ◌+◌, ◌%◌, ◌≡◌, ◌⊎◌, inl, inr, refl, sym, ap, subst, ◌∙◌, Bool, true, false, Option, none, some,
  arith, leb, if◌then◌else◌, Bool-cases, ◌==◌, Bytes,
}
use cpp_tftp.Common.Outcome.{ok, bind-eq-ok, ok-injective}
use cpp_tftp.Tftp.Types.{AckPacket, ErrorPacket, ack_pkt_max_size}
use cpp_tftp.Tftp.Deserialise.{deserialise_ack_packet, deserialise_error_packet}
use cpp_tftp.Net.Udp.{Received, recv}
use cpp_tftp.Net.Timer.{Timer, TimerRead, has_expired}
use cpp_tftp.Server.Connection.{Connection, State, max_timeouts}
use cpp_tftp.Server.Connection.Read.{
  handle_read, handle_expired, retransmit_in, read_in, read_ack, after_ack, receive_ack,
  receive_other, ended_by, next_block, is_previous,
}

abbrev pub is_sender : State → Bool
is_sender State.send_data = true
is_sender State.wait_for_ack = true
is_sender _ = false

-- The members that a call may change without a change of the block.
abbrev pub tweak : Bool → ℕ → State → Timer → Connection → Connection
tweak finished timeout_count state timer c = record c {
  finished = finished;
  timeout_count = timeout_count;
  state = state;
  timer = timer;
}

-- A timeout finishes the connection, or makes it send again.
expired_step :
    (c : Connection) (q : State) (b : Bool)
    → c.state ≡ q
    → leb max_timeouts c.timeout_count ≡ b
    → handle_expired c ≡ (
        if b
        then tweak true c.timeout_count q c.timer c
        else retransmit_in q (tweak c.finished ((c.timeout_count + 1) % 256) q c.timer c))
unfolding handle_expired
expired_step c q b e f =
    ap
      (λ b.
        if b
        then record c { finished = true }
        else retransmit_in c.state (record c { timeout_count = (c.timeout_count + 1) % 256 }))
      f
    ∙ ap
        (λ q.
          if b
          then tweak true c.timeout_count q c.timer c
          else retransmit_in q (tweak c.finished ((c.timeout_count + 1) % 256) q c.timer c))
        e

expired_sends :
    (c : Connection)
    → c.state ≡ State.send_data
    → (f : Bool) × (n : ℕ) × (handle_expired c ≡ tweak f n State.send_data c.timer c)
unfolding retransmit_in
expired_sends c e = elim (Bool-cases (leb max_timeouts c.timeout_count)) [
  | inl f ↦ (true, c.timeout_count, expired_step c State.send_data true e f)
  | inr f ↦ (c.finished, (c.timeout_count + 1) % 256, expired_step c State.send_data false e f)
]

expired_waits :
    (c : Connection)
    → c.state ≡ State.wait_for_ack
    → (f : Bool) × (n : ℕ) × (q : State) × (is_sender q ≡ true)
      × (handle_expired c ≡ tweak f n q c.timer c)
unfolding retransmit_in
expired_waits c e = elim (Bool-cases (leb max_timeouts c.timeout_count)) [
  | inl f ↦
      (true, c.timeout_count, State.wait_for_ack, refl, expired_step c State.wait_for_ack true e f)
  | inr f ↦ (
    c.finished,
    (c.timeout_count + 1) % 256,
    State.send_data,
    refl,
    expired_step c State.wait_for_ack false e f,
  )
]

expired_failed :
    (c : Connection)
    → c.state ≡ State.error
    → (f : Bool) × (n : ℕ) × (handle_expired c ≡ tweak f n State.error c.timer c)
unfolding retransmit_in
expired_failed c e = elim (Bool-cases (leb max_timeouts c.timeout_count)) [
  | inl f ↦ (true, c.timeout_count, expired_step c State.error true e f)
  | inr f ↦ (c.finished, (c.timeout_count + 1) % 256, expired_step c State.error false e f)
]

pub sender_cases :
    (q : State) → is_sender q ≡ true → (q ≡ State.send_data) ⊎ (q ≡ State.wait_for_ack)
sender_cases State.send_data e = inl refl
sender_cases State.wait_for_ack e = inr refl
sender_cases State.send_ack e = cc e
sender_cases State.send_oack e = cc e
sender_cases State.wait_for_data e = cc e
sender_cases State.error e = cc e

-- What `handle_read` does when the timer has run out, and when it has not.
read_expired :
    (t : TimerRead) (r : Received) (c : Connection)
    → has_expired t ≡ true
    → handle_read t r c ≡ ok (handle_expired c)
unfolding handle_read
read_expired t r c e = rw e refl

read_in_time :
    (t : TimerRead) (r : Received) (c : Connection) (q : State)
    → has_expired t ≡ false
    → c.state ≡ q
    → handle_read t r c ≡ read_in q r c
unfolding handle_read
read_in_time t r c q e s =
    ap (λ b. if b then ok (handle_expired c) else read_in c.state r c) e ∙ ap (λ q. read_in q r c) s

-- While a block is to be sent, a datagram is left alone.
pub handle_read-sending :
    (t : TimerRead) (r : Received) (c : Connection)
    → c.state ≡ State.send_data
    → (f : Bool) × (n : ℕ) × (handle_read t r c ≡ ok (tweak f n State.send_data c.timer c))
unfolding read_in
handle_read-sending t r c e = elim (Bool-cases (has_expired t)) [
  | inl late ↦ let (f, n, p) = expired_sends c e in (f, n, read_expired t r c late ∙ ap ok p)
  | inr early ↦ (
    c.finished,
    c.timeout_count,
    read_in_time t r c State.send_data early e
        ∙ ap (λ q. ok (tweak c.finished c.timeout_count q c.timer c)) e,
  )
]

-- An acknowledgement, or what is none, that comes while one is awaited.
pub data Acked (c : Connection) : Connection → Type 0 where
  kept :
      (f : Bool) (n : ℕ) (q : State) (c' : Connection)
      → is_sender q ≡ true
      → tweak f n q c.timer c ≡ c'
      → Acked c c'
  acked :
      (c' : Connection)
      → c.final_ack ≡ false
      → record c {
        timeout_count = 0;
        pkt_ready = false;
        state = State.send_data;
        block_number = next_block c.block_number;
      }
        ≡ c'
      → Acked c c'
  refused : (c' : Connection) → c'.state ≡ State.error → Acked c c'

receive_ack-Acked :
    (p : AckPacket) (c : Connection) → c.state ≡ State.wait_for_ack → Acked c (receive_ack p c)
unfolding receive_ack
receive_ack-Acked p c e = elim (Bool-cases (is_previous p.block_number c.block_number)) [
  | inl before ↦ kept c.finished 0 State.send_data _ refl (rw before refl)
  | inr new ↦ elim (Bool-cases (p.block_number == c.block_number)) [
    | inr other ↦ refused _ (rw (new, other) refl)
    | inl same ↦ elim (Bool-cases c.final_ack) [
      | inl last ↦
          kept true 0 State.wait_for_ack _ refl
            (ap (λ q. tweak true 0 q c.timer c) (sym e) ∙ ground arith)
      | inr more ↦ acked _ more (ground arith)
    ]
  ]
]

receive_other-Acked :
    (d : Bytes) (c c' : Connection)
    → c.state ≡ State.wait_for_ack
    → receive_other d c ≡ ok c'
    → Acked c c'
unfolding receive_other
receive_other-Acked d c c' e h =
    let (o, _, p) = bind-eq-ok (deserialise_error_packet d) _ h in by_packet o (ok-injective p)
  where
    by_packet : (o : Option ErrorPacket) → ended_by o c ≡ c' → Acked c c'
    by_packet none p =
        kept c.finished c.timeout_count State.wait_for_ack c' refl
          (ap (λ q. tweak c.finished c.timeout_count q c.timer c) (sym e) ∙ p)
    by_packet (some _) p =
        kept true c.timeout_count State.wait_for_ack c' refl
          (ap (λ q. tweak true c.timeout_count q c.timer c) (sym e) ∙ p)

after_ack-Acked :
    (o : Option AckPacket) (d : Bytes) (c c' : Connection)
    → c.state ≡ State.wait_for_ack
    → after_ack o d c ≡ ok c'
    → Acked c c'
unfolding after_ack
after_ack-Acked (some p) d c c' e h = subst (Acked c) (ok-injective h) (receive_ack-Acked p c e)
after_ack-Acked none d c c' e h = receive_other-Acked d c c' e h

-- Whatever arrives while an acknowledgement is awaited.
pub handle_read-Acked :
    (t : TimerRead) (r : Received) (c c' : Connection)
    → c.state ≡ State.wait_for_ack
    → handle_read t r c ≡ ok c'
    → Acked c c'
unfolding read_in read_ack
handle_read-Acked t r c c' e h = elim (Bool-cases (has_expired t)) [
  | inl late ↦
      let (f, n, q, s, p) = expired_waits c e in
      kept f n q c' s (sym p ∙ ok-injective (sym (read_expired t r c late) ∙ h))
  | inr early ↦
      let h' = sym (read_in_time t r c State.wait_for_ack early e) ∙ h in
      let (d, _, p) = bind-eq-ok (recv ack_pkt_max_size r) _ h' in
      let (o, _, q) = bind-eq-ok (deserialise_ack_packet d) _ p in after_ack-Acked o d c c' e q
]

-- In the error state a connection only sends its error packet.
pub handle_read-failed :
    (t : TimerRead) (r : Received) (c c' : Connection)
    → c.state ≡ State.error
    → handle_read t r c ≡ ok c'
    → (c'.state ≡ State.error) × (c'.error_pkt ≡ c.error_pkt)
unfolding read_in
handle_read-failed t r c c' e h = elim (Bool-cases (has_expired t)) [
  | inl late ↦
      let (f, n, p) = expired_failed c e in
      let same = sym p ∙ ok-injective (sym (read_expired t r c late) ∙ h) in
      (ap (λ c. c.state) (sym same), ap (λ c. c.error_pkt) (sym same))
  | inr early ↦
      let same : c ≡ c' = ok-injective (sym (read_in_time t r c State.error early e) ∙ h) in
      (ap (λ c. c.state) (sym same) ∙ e, ap (λ c. c.error_pkt) (sym same))
]
