-- ===== src/Server/Loop/Invariant.antt =====
-- Induction over the rounds of the loop of src/server/tftp_server.cpp.
use cpp_tftp.Common.{
  ℕ, zero, suc, ◌≡◌, sym, ap, subst, ◌∙◌, Bool, true, false, inl, inr, List, [], ◌∷◌, if◌then◌else◌,
  Bool-cases, length,
}
use cpp_tftp.Common.Outcome.{Outcome, ok, ◌>>=◌, bind-eq-ok, ok-injective}
use cpp_tftp.Net.Udp.{Errno}
use cpp_tftp.Server.Connection.Host.{Host}
use cpp_tftp.Server.Handler
use cpp_tftp.Server.Handler.{Request}
use cpp_tftp.Server.Loop.{
  Server, Client, Flags, Event, Waited, on_port, on_client, events, failed, accept_one, may_accept,
  accept_pending, serve_client, handle_event, handle_events, clean_up, round, run,
}

-- What every step of the loop that changes the server keeps.
pub record Invariant (P : Server → Type 0) : Type 0 where
  pub accepts :
      (h : Host) (ctl : Outcome (Unit {0})) (s s' : Server)
      → may_accept s ≡ true
      → accept_one h ctl s ≡ ok s'
      → P s
      → P s'
  pub queues : (s : Server) (queue : List Request) → P s → P (record s { queue = queue })
  pub serves :
      (id : ℕ) (flags : Flags) (ctl : Outcome (Unit {0})) (s : Server) (ys : List Client)
      → serve_client id flags ctl s.clients ≡ ok ys
      → P s
      → P (record s { clients = ys })
  pub cleans :
      (s : Server) (ys : List Client)
      → clean_up s.clients ≡ ok ys
      → P s
      → P (record s { clients = ys })

module _ (P : Server → Type 0) (i : Invariant P) where
  accept_pending-Invariant :
      (f : ℕ) (h : Host) (ctl : Outcome (Unit {0})) (s s' : Server)
      → accept_pending f h ctl s ≡ ok s'
      → P s
      → P s'
  unfolding accept_pending
  accept_pending-Invariant zero h ctl s s' e p = cc e
  accept_pending-Invariant (suc f) h ctl s s' e p = elim (Bool-cases (may_accept s)) [
    | inl go ↦
        let (t, e1, e2) = bind-eq-ok (accept_one h ctl s) _ (step true go) in
        accept_pending-Invariant f h ctl t s' e2 (i.accepts h ctl s t go e1 p)
    | inr full ↦ subst P (ok-injective (step false full)) p
  ]
    where
      step :
          (b : Bool)
          → may_accept s ≡ b
          → (if b then accept_one h ctl s >>= (λ t. accept_pending f h ctl t) else ok s) ≡ ok s'
      step b q =
          ap (λ b. if b then accept_one h ctl s >>= (λ t. accept_pending f h ctl t) else ok s)
            (sym q)
          ∙ e

  handle_event-Invariant : (e : Event) (s s' : Server) → handle_event e s ≡ ok s' → P s → P s'
  unfolding handle_event
  handle_event-Invariant (on_port h r xs ctl) s s' e p =
      let (queue, _, e1) = bind-eq-ok (Handler.handle_read r xs s.queue) _ e in
      accept_pending-Invariant (suc (length queue)) h ctl (record s { queue = queue }) s' e1
        (i.queues s queue p)
  handle_event-Invariant (on_client id flags ctl) s s' e p =
      let (ys, e1, e2) = bind-eq-ok (serve_client id flags ctl s.clients) _ e in
      subst P (ok-injective e2) (i.serves id flags ctl s ys e1 p)

  handle_events-Invariant :
      (es : List Event) (s s' : Server) → handle_events es s ≡ ok s' → P s → P s'
  unfolding handle_events
  handle_events-Invariant [] s s' e p = subst P (ok-injective e) p
  handle_events-Invariant (x ∷ es) s s' e p =
      let (t, e1, e2) = bind-eq-ok (handle_event x s) _ e in
      handle_events-Invariant es t s' e2 (handle_event-Invariant x s t e1 p)

  round-Invariant : (w : Waited) (s s' : Server) → round w s ≡ ok s' → P s → P s'
  unfolding round
  round-Invariant (events es) s s' e p =
      let (t, e1, e2) = bind-eq-ok (handle_events es s) _ e in
      let (ys, e3, e4) = bind-eq-ok (clean_up t.clients) _ e2 in
      subst P (ok-injective e4) (i.cleans t ys e3 (handle_events-Invariant es s t e1 p))
  round-Invariant (failed Errno.eintr) s s' e p = subst P (ok-injective e) p
  round-Invariant (failed Errno.eagain) s s' e p = cc e
  round-Invariant (failed Errno.ewouldblock) s s' e p = cc e
  round-Invariant (failed Errno.other) s s' e p = cc e

  pub run-Invariant : (ws : List Waited) (s s' : Server) → run ws s ≡ ok s' → P s → P s'
  unfolding run
  run-Invariant [] s s' e p = subst P (ok-injective e) p
  run-Invariant (w ∷ ws) s s' e p =
      let (t, e1, e2) = bind-eq-ok (round w s) _ e in
      run-Invariant ws t s' e2 (round-Invariant w s t e1 p)
