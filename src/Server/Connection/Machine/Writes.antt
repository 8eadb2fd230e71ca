-- ===== src/Server/Connection/Machine/Writes.antt =====
-- `handle_write` in the state machine.
use cpp_tftp.Common.{
  ◌≡◌, refl, sym, ap, subst, ◌∙◌, Bool, true, false, inl, inr, Option, arith, if◌then◌else◌, ◌||◌,
  Bool-cases, ltb, length, Bytes,
}
use cpp_tftp.Common.Outcome.{ok, bind-eq-ok, ok-injective}
use cpp_tftp.File.ReadFile
use cpp_tftp.File.ReadFile.{ReadFile, read_in_to}
use cpp_tftp.Net.Udp.{SendResult}
use cpp_tftp.Server.Connection.{Connection, State}
use cpp_tftp.Server.Connection.Host.{is_read, is_write}
use cpp_tftp.Server.Connection.Write.{
  handle_write, write_in, write_data, prepare, read_block, filled, send_prepared, sent_data,
  sent_ack, sent_oack, sent_error, fail_internal,
}
use cpp_tftp.Server.Connection.Machine.{IsConsistent, Moves, role_in, not_both, stays, Moves-trans}

module _ (c : Connection) (v : IsConsistent c) where
  sent_ack-Moves : (r : SendResult) → c.state ≡ State.send_ack → Moves c (sent_ack r c)
  unfolding sent_ack
  sent_ack-Moves r q =
      let role : is_write c.type ≡ true = role_in c v State.send_ack q in ground arith

  sent_oack-Moves : (r : SendResult) → c.state ≡ State.send_oack → Moves c (sent_oack r c)
  unfolding sent_oack
  sent_oack-Moves r q =
      let role : (is_read c.type || is_write c.type) ≡ true = role_in c v State.send_oack q in
      ground arith

  sent_error-Moves : (r : SendResult) → Moves c (sent_error r c)
  unfolding sent_error
  sent_error-Moves r = let role = v.role in ground arith

  sent_data-Moves : (r : SendResult) → is_read c.type ≡ true → Moves c (sent_data r c)
  unfolding sent_data
  sent_data-Moves r role = let state = v.role in ground arith

  -- The connection that `filled` returns, by what `eof` says and whether the block is short.
  filled_connection : Bytes → Bool → Bool → Connection
  filled_connection payload last short =
      let c' = if last then (if short then record c { final_ack = true } else c) else c in
      record c' {
        data_pkt = record { payload = payload; block_number = c.block_number };
        pkt_ready = true;
      }

  filled_connection-Moves :
      (payload : Bytes) (last short : Bool) → Moves c (filled_connection payload last short)
  unfolding filled_connection
  filled_connection-Moves payload last short = let state = v.role in ground arith

  filled-Moves :
      (b : Bool) (payload : Bytes) (reader : ReadFile) {x : Connection × Bool}
      → filled b payload reader c ≡ ok x
      → Moves c x.0
  unfolding filled filled_connection
  filled-Moves true payload reader h =
      let failed : Moves c (fail_internal c) = ground arith in
      subst (λ x. Moves c x.0) (ok-injective h) failed
  filled-Moves false payload reader h =
      let (last, _, e) =
        bind-eq-ok (if ltb (length payload) c.block_size then ok true else ReadFile.eof reader) _
          h in
      subst (λ x. Moves c x.0) (ok-injective e)
        (filled_connection-Moves payload last (ltb (length payload) c.block_size))

  block_read-Moves :
      (payload : Bytes) (reader : ReadFile)
      → is_read c.type ≡ true
      → Moves c
          (record c { file_reader = reader; data_pkt = record c.data_pkt { payload = payload } })
  block_read-Moves payload reader role =
      let state = v.role in let other = not_both c.type role in ground arith

module _ (c : Connection) (v : IsConsistent c) where
  read_block-Moves :
      {x : Connection × Bool} → is_read c.type ≡ true → read_block c ≡ ok x → Moves c x.0
  unfolding read_block
  read_block-Moves role h =
      let ((payload, reader), _, e1) = bind-eq-ok (read_in_to c.file_reader c.block_size) _ h in
      let (b, _, e2) = bind-eq-ok (ReadFile.error reader) _ e1 in
      let first = block_read-Moves c v payload reader role in
      Moves-trans c _ _ first (filled-Moves _ first.consistent b payload reader e2)

  prepare-Moves : {x : Connection × Bool} → is_read c.type ≡ true → prepare c ≡ ok x → Moves c x.0
  unfolding prepare
  prepare-Moves role h = elim (Bool-cases c.pkt_ready) [
    | inl ready ↦ subst (λ x. Moves c x.0) (ok-injective (pick true ready h)) (stays c v)
    | inr unready ↦ read_block-Moves role (pick false unready h)
  ]
    where
      pick :
          {x : Connection × Bool} (b : Bool)
          → c.pkt_ready ≡ b
          → (if c.pkt_ready then ok (c, true) else read_block c) ≡ ok x
          → (if b then ok (c, true) else read_block c) ≡ ok x
      pick b e h = ap (λ b. if b then ok (c, true) else read_block c) (sym e) ∙ h

  send_prepared-Moves :
      (r : SendResult) (b : Bool) → is_read c.type ≡ true → Moves c (send_prepared r c b).0
  unfolding send_prepared
  send_prepared-Moves r true role = sent_data-Moves c v r role
  send_prepared-Moves r false role = stays c v

module _ (c : Connection) (v : IsConsistent c) where
  write_data-Moves :
      (r : SendResult) {x : Connection × Option Bytes}
      → is_read c.type ≡ true
      → write_data r c ≡ ok x
      → Moves c x.0
  unfolding write_data
  write_data-Moves r role h =
      let ((c', b), p, e) = bind-eq-ok (prepare c) _ h in
      let first = prepare-Moves c v role p in
      subst (λ x. Moves c x.0) (ok-injective e)
        (Moves-trans c c' _ first
          (send_prepared-Moves c' first.consistent r b (ap is_read first.same_type ∙ role)))

  write_in-Moves :
      (q : State) (r : SendResult) {x : Connection × Option Bytes}
      → c.state ≡ q
      → write_in q r c ≡ ok x
      → Moves c x.0
  unfolding write_in
  write_in-Moves State.send_data r q h = write_data-Moves r (role_in c v State.send_data q) h
  write_in-Moves State.send_ack r q h =
      subst (λ x. Moves c x.0) (ok-injective h) (sent_ack-Moves c v r q)
  write_in-Moves State.send_oack r q h =
      subst (λ x. Moves c x.0) (ok-injective h) (sent_oack-Moves c v r q)
  write_in-Moves State.error r q h =
      subst (λ x. Moves c x.0) (ok-injective h) (sent_error-Moves c v r)
  write_in-Moves State.wait_for_ack r q h = cc h
  write_in-Moves State.wait_for_data r q h = cc h

pub handle_write-Moves :
    (r : SendResult) (c : Connection) {x : Connection × Option Bytes}
    → IsConsistent c
    → handle_write r c ≡ ok x
    → Moves c x.0
unfolding handle_write
handle_write-Moves r c v h = write_in-Moves c v c.state r refl h
