-- ===== src/Server/Connection/Retransmit.antt =====
-- What becomes of a packet that gets no answer.
pub mod Silence
use cpp_tftp.Common.{ℕ, suc, ◌<◌, ◌≡◌, refl, sym, ap, ◌∙◌, true, false, some, arith, Bytes}
use cpp_tftp.Common.Outcome.{ok}
use cpp_tftp.Tftp.Serialise.{serialise_data_packet, serialise_ack_packet}
use cpp_tftp.Net.Udp.{Received, SendResult, send_done}
use cpp_tftp.Net.Timer.{TimerRead, has_expired, arm_timer}
use cpp_tftp.Server.Connection.{Connection, State, max_timeouts}
use cpp_tftp.Server.Connection.Read.{handle_read, handle_expired, next_block, previous_block}
use cpp_tftp.Server.Connection.Write.{handle_write, write_in, sent_data, sent_ack}

-- The packet that a waiting connection has sent last.
abbrev pub last_packet_in : State → Connection → Bytes
last_packet_in State.wait_for_data c =
    serialise_ack_packet (record { block_number = previous_block c.block_number })
last_packet_in _ c = serialise_data_packet c.data_pkt

-- A connection that waits for an answer to a packet which it can send again.
pub data IsWaiting (c : Connection) : Type 0 where
  for_ack : c.state ≡ State.wait_for_ack → c.pkt_ready ≡ true → IsWaiting c
  for_data :
      c.state ≡ State.wait_for_data → c.final_ack ≡ false → c.block_number < 65536 → IsWaiting c

pub last_packet : Connection → Bytes
last_packet c = last_packet_in c.state c

pub handle_read_expired :
    (t : TimerRead) (x : Received) (c : Connection)
    → has_expired t ≡ true
    → handle_read t x c ≡ ok (handle_expired c)
unfolding handle_read
handle_read_expired t x c e = rw e

-- The connection after a packet was sent again.
abbrev pub waiting_again : Connection → Connection
waiting_again c = record c {
  timeout_count = suc c.timeout_count;
  timer = arm_timer c.timeout_s c.timer;
}

expired_ack :
    (c : Connection)
    → c.state ≡ State.wait_for_ack
    → c.timeout_count < max_timeouts
    → handle_expired c ≡ record c { timeout_count = suc c.timeout_count; state = State.send_data }
unfolding handle_expired
expired_ack c w h = ground arith

expired_data :
    (c : Connection)
    → c.state ≡ State.wait_for_data
    → c.timeout_count < max_timeouts
    → handle_expired c ≡ record c {
      timeout_count = suc c.timeout_count;
      state = State.send_ack;
      block_number = previous_block c.block_number;
    }
unfolding handle_expired
expired_data c w h = ground arith

-- A packet that is ready is sent as it stands.
handle_write_ready :
    (r : SendResult) (c : Connection)
    → c.state ≡ State.send_data
    → c.pkt_ready ≡ true
    → handle_write r c ≡ ok (sent_data r c, some (serialise_data_packet c.data_pkt))
unfolding handle_write
handle_write_ready r c s p = ap (λ s. write_in s r c) s ∙ rw p

pub handle_write_ack :
    (r : SendResult) (c : Connection)
    → c.state ≡ State.send_ack
    → handle_write r c
      ≡ ok (sent_ack r c, some (serialise_ack_packet (record { block_number = c.block_number })))
unfolding handle_write
handle_write_ack r c s = ap (λ s. write_in s r c) s

pub sent_data_done :
    (r : SendResult) (c : Connection)
    → send_done r ≡ true
    → sent_data r c ≡ record c { state = State.wait_for_ack; timer = arm_timer c.timeout_s c.timer }
unfolding sent_data
sent_data_done r c h = ground arith

pub sent_ack_done :
    (r : SendResult) (c : Connection)
    → send_done r ≡ true
    → c.final_ack ≡ false
    → sent_ack r c ≡ record c {
      block_number = next_block c.block_number;
      state = State.wait_for_data;
      timer = arm_timer c.timeout_s c.timer;
    }
unfolding sent_ack
sent_ack_done r c h f = ground arith

next-previous : (b : ℕ) → b < 65536 → next_block (previous_block b) ≡ b
next-previous b h = omega arith

-- A time out: what the timer and the socket give, and what `send` returns after it.
pub record Round : Type 0 where
  pub expiry : TimerRead
  pub received : Received
  pub sent : SendResult

pub record IsSilent (r : Round) : Type 0 where
  pub expired : has_expired r.expiry ≡ true
  pub done : send_done r.sent ≡ true

-- What a silent round does to a connection that may still send its packet again.
pub record Resends (r : Round) (c : Connection) : Type 0 where
  pub sending : Connection
  pub expires : handle_read r.expiry r.received c ≡ ok sending
  pub same_finished : sending.finished ≡ c.finished
  pub wrote : handle_write r.sent sending ≡ ok (waiting_again c, some (last_packet c))

-- While fewer than three timeouts have passed since the last answer, one more makes a connection
-- that waits for an answer send the same bytes again and wait as before, if the send succeeds.
pub resends :
    (r : Round) (c : Connection)
    → IsSilent r
    → IsWaiting c
    → c.timeout_count < max_timeouts
    → Resends r c
unfolding last_packet
resends r c q (for_ack w p) h =
    let sending : Connection = record c {
      timeout_count = suc c.timeout_count;
      state = State.send_data;
    } in
    record {
      sending = sending;
      expires = handle_read_expired r.expiry r.received c q.expired ∙ ap ok (expired_ack c w h);
      same_finished = refl;
      wrote =
          handle_write_ready r.sent sending refl p
          ∙ rw (sent_data_done r.sent sending q.done) (
              ap (λ s. ok (record (waiting_again c) { state = s }, some (last_packet_in s c)))
                (sym w));
    }
resends r c q (for_data w f b) h =
    let sending : Connection = record c {
      timeout_count = suc c.timeout_count;
      state = State.send_ack;
      block_number = previous_block c.block_number;
    } in
    record {
      sending = sending;
      expires = handle_read_expired r.expiry r.received c q.expired ∙ ap ok (expired_data c w h);
      same_finished = refl;
      wrote =
          handle_write_ack r.sent sending refl
          ∙ rw (sent_ack_done r.sent sending q.done f, next-previous c.block_number b)
              (ap (λ s. ok (record (waiting_again c) { state = s }, some (last_packet_in s c)))
                (sym w));
    }
