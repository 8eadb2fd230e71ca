-- ===== src/Server/Connection/Order/Failed.antt =====
-- One call on a connection in the error state.
use cpp_tftp.Common.{◌≡◌, ◌⊎◌, inl, inr, sym, ap, ◌∙◌, Option, none, some, arith, Bytes}
use cpp_tftp.Common.Outcome.{ok, bind-eq-ok, ok-injective}
use cpp_tftp.Tftp.Serialise.{serialise_error_packet}
use cpp_tftp.Net.Udp.{SendResult}
use cpp_tftp.Server.Connection.{Connection, State, set_finished}
use cpp_tftp.Server.Connection.Read.{handle_read}
use cpp_tftp.Server.Connection.Write.{handle_write, write_in, sent_error}
use cpp_tftp.Server.Connection.Order.{Call, on_read, on_write, on_failure, perform}
use cpp_tftp.Server.Connection.Order.Reads.{handle_read-failed}

sent_error_keeps :
    (r : SendResult) (c : Connection)
    → ((sent_error r c).state ≡ c.state) × ((sent_error r c).error_pkt ≡ c.error_pkt)
unfolding sent_error
sent_error_keeps r c = ground arith

-- In the error state the error packet is the only thing that is sent.
pub perform-failed :
    (call : Call) (c c' : Connection) (sent : Option Bytes)
    → c.state ≡ State.error
    → perform call c ≡ ok (c', sent)
    → (c'.state ≡ State.error)
      × (c'.error_pkt ≡ c.error_pkt)
      × ((sent ≡ none) ⊎ (sent ≡ some (serialise_error_packet c.error_pkt)))
unfolding perform handle_write write_in set_finished
perform-failed (on_read t r) c c' sent e h =
    let (c'', p, q) = bind-eq-ok (handle_read t r c) _ h in
    let (s, k) = handle_read-failed t r c c'' e p in
    let pair = ok-injective q in
    (
      ap (λ x. x.0.state) (sym pair) ∙ s,
      ap (λ x. x.0.error_pkt) (sym pair) ∙ k,
      inl (sym (ap (λ x. x.1) pair)),
    )
perform-failed (on_write r) c c' sent e h =
    let pair = ok-injective (ap (λ q. write_in q r c) (sym e) ∙ h) in
    let (state, packet) = sent_error_keeps r c in
    (
      ap (λ x. x.0.state) (sym pair) ∙ state ∙ e,
      ap (λ x. x.0.error_pkt) (sym pair) ∙ packet,
      inr (sym (ap (λ x. x.1) pair)),
    )
perform-failed on_failure c c' sent e h =
    let pair = ok-injective h in
    (
      ap (λ x. x.0.state) (sym pair) ∙ e,
      ap (λ x. x.0.error_pkt) (sym pair),
      inl (sym (ap (λ x. x.1) pair)),
    )
