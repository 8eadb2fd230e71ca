-- ===== src/Server/Connection/Order/Steps.antt =====
-- One call on a connection that serves a file.
use cpp_tftp.Common.{
  ℕ, ◌≡◌, inl, inr, refl, sym, ap, subst, ◌∙◌, true, false, Option, none, some, arith,
  if◌then◌else◌, Bool-cases, drop, Bytes,
}
use cpp_tftp.Common.Outcome.{ok, ◌>>=◌, bind-eq-ok, ok-injective}
use cpp_tftp.Tftp.Serialise.{serialise_data_packet}
use cpp_tftp.File.Stream.{ReadStream}
use cpp_tftp.File.ReadFile.Pending.{pending}
use cpp_tftp.Net.Udp.{SendResult, send_failed, send_done}
use cpp_tftp.Net.Timer.{arm_timer}
use cpp_tftp.Server.Connection.{Connection, State, set_finished}
use cpp_tftp.Server.Connection.Read.{handle_read, next_block}
use cpp_tftp.Server.Connection.Write.{
  handle_write, write_in, write_data, prepare, read_block, send_prepared, sent_data,
}
use cpp_tftp.Server.Connection.Transfer.Round.{IsServing, with_block, reads, handle_write_block}
use cpp_tftp.Server.Connection.Order.{Call, on_read, on_write, on_failure, perform}
use cpp_tftp.Server.Connection.Order.Reads.{
  is_sender, sender_cases, tweak, Acked, kept, acked, refused, handle_read-sending,
  handle_read-Acked,
}
use cpp_tftp.Server.Connection.Order.States.{
  IsUnread, IsReady, IsSender, Outcomes, stays, sends, moves, IsUnread-tweak, IsReady-tweak,
}

-- What becomes of the connection when its packet was handed to `send`.
sent_data-IsSender :
    (size number : ℕ) (d : Bytes) (r : SendResult) (c : Connection)
    → IsReady size number d c
    → IsSender size true number d (sent_data r c)
unfolding sent_data
sent_data-IsSender size number d r c v = elim (Bool-cases (send_failed r)) [
  | inl bad ↦ inr (rw bad refl)
  | inr fine ↦ elim (Bool-cases (send_done r)) [
    | inl good ↦ inl (
        rw (fine, good)
          (IsReady-tweak size number d c c.finished c.timeout_count State.wait_for_ack
            (arm_timer c.timeout_s c.timer) refl v))
    | inr again ↦ inl (rw (fine, again) v)
  ]
]

with_block-IsReady :
    (c : Connection) (s : ReadStream) (v : IsServing c s)
    → IsReady c.block_size c.block_number
        (pending c.file_reader s)
        (with_block c s (reads c s v).next)
with_block-IsReady c s v = record {
  stream = (reads c s v).next_stream;
  state = ap is_sender v.sends;
  ready = refl;
  packet = refl;
  final = refl;
  is_word = v.is_word;
  is_size = v.is_size;
  reading = (reads c s v).reading;
  same_size = refl;
  same_number = refl;
  bytes = (reads c s v).queue;
}

-- The call that sends the block, from the connection's own point of view.
write_unread :
    (c : Connection) (s : ReadStream) (v : IsServing c s) (r : SendResult)
    (x : Connection × Option Bytes)
    → handle_write r c ≡ ok x
    → Outcomes c.block_size false c.block_number (pending c.file_reader s) x
write_unread c s v r x h =
    subst (Outcomes c.block_size false c.block_number (pending c.file_reader s))
      (ok-injective (sym (handle_write_block c s v r) ∙ h))
      (sends false c.block_number (pending c.file_reader s)
        (sent_data r (with_block c s (reads c s v).next))
        (sent_data-IsSender c.block_size c.block_number (pending c.file_reader s) r
          (with_block c s (reads c s v).next) (with_block-IsReady c s v)))

module _ (size number : ℕ) (d : Bytes) (c : Connection) where
  pub perform-unread :
      (call : Call) (x : Connection × Option Bytes)
      → IsUnread size number d c
      → perform call c ≡ ok x
      → Outcomes size false number d x
  unfolding perform set_finished
  perform-unread (on_read t r) x u h =
      let (f, n, p) = handle_read-sending t r c u.serving.sends in
      subst (Outcomes size false number d)
        (ok-injective (sym (ap (λ o. o >>= λ c'. ok (c', none)) p) ∙ h))
        (stays false number d _ (inl (IsUnread-tweak size number d c f n c.timer u)))
  perform-unread (on_write r) x u h =
      subst (λ m. Outcomes m false number d x) u.same_size
        (subst (λ m. Outcomes c.block_size false m d x) u.same_number
          (subst (λ e. Outcomes c.block_size false c.block_number e x) u.bytes
            (write_unread c u.stream u.serving r x h)))
  perform-unread on_failure x u h =
      subst (Outcomes size false number d)
        (ap (λ q. (tweak true c.timeout_count q c.timer c, none)) (sym u.serving.sends)
          ∙ ok-injective h)
        (stays false number d _
          (inl (IsUnread-tweak size number d c true c.timeout_count c.timer u)))

  Acked-moves :
      (c' : Connection)
      → IsReady size number d c
      → Acked c c'
      → Outcomes size true number d (c', none)
  Acked-moves c' v (kept f n q _ s e) =
      stays true number d c'
        (inl (subst (IsReady size number d) e (IsReady-tweak size number d c f n q c.timer s v)))
  Acked-moves c' v (refused _ e) = stays true number d c' (inr e)
  Acked-moves c' v (acked _ more e) = moves number d c' (sym v.final ∙ more) (
      subst (IsUnread size (next_block number) (drop size d)) e (record {
        stream = v.stream;
        serving = record {
          sends = refl;
          unread = refl;
          not_final = more;
          is_word = omega arith;
          is_size = v.is_size;
          reading = v.reading;
        };
        same_size = v.same_size;
        same_number = ap next_block v.same_number;
        bytes = v.bytes;
      }))

  write_ready :
      (r : SendResult) (x : Connection × Option Bytes)
      → IsReady size number d c
      → handle_write r c ≡ ok x
      → Outcomes size true number d x
  unfolding handle_write write_data prepare send_prepared write_in
  write_ready r x v h = elim (sender_cases c.state v.state) [
    | inr waits ↦ cc (ap (λ q. write_in q r c) waits, h)
    | inl sending ↦
        let first = ap (λ q. write_in q r c) (sym sending) ∙ h in
        let kept_packet =
          ap (λ b. (if b then ok (c, true) else read_block c) >>= λ y. ok (send_prepared r y.0 y.1))
            (sym v.ready)
          ∙ first in
        subst (Outcomes size true number d)
          (ap (λ p. (sent_data r c, some (serialise_data_packet p))) (sym v.packet)
            ∙ ok-injective kept_packet)
          (sends true number d (sent_data r c) (sent_data-IsSender size number d r c v))
  ]

  pub perform-ready :
      (call : Call) (x : Connection × Option Bytes)
      → IsReady size number d c
      → perform call c ≡ ok x
      → Outcomes size true number d x
  unfolding perform set_finished
  perform-ready (on_read t r) x v h =
      let (c', e, p) = bind-eq-ok (handle_read t r c) _ h in
      subst (Outcomes size true number d) (ok-injective p) (elim (sender_cases c.state v.state) [
        | inl sending ↦
            let (f, n, q) = handle_read-sending t r c sending in
            stays true number d c' (
              inl (
                subst (IsReady size number d) (ok-injective (sym q ∙ e))
                  (IsReady-tweak size number d c f n State.send_data c.timer refl v)))
        | inr waits ↦ Acked-moves c' v (handle_read-Acked t r c c' waits e)
      ])
  perform-ready (on_write r) x v h = write_ready r x v h
  perform-ready on_failure x v h = subst (Outcomes size true number d) (ok-injective h) (
      stays true number d _
        (inl (IsReady-tweak size number d c true c.timeout_count c.state c.timer v.state v)))
