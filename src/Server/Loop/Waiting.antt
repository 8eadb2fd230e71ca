-- ===== src/Server/Loop/Waiting.antt =====
-- What happens to the requests that wait while the server is full.
use cpp_tftp.Common.{ℕ, ◌≡◌, sym, ap, ◌∙◌, false, List, [], ◌∷◌, All}
use cpp_tftp.Common.Outcome.{ok, Outcome, bind-eq-ok, ok-injective}
use cpp_tftp.Net.Udp.{Errno}
use cpp_tftp.Server.Loop.{
  Server, Flags, Event, Waited, on_port, on_client, events, failed, serve_client, handle_event,
  handle_events, clean_up_from, round, run,
}

-- An event of a connection.
pub data OnClient : Event → Type 0 where
  on_client_only :
      (e : Event) (id : ℕ) (flags : Flags) (ctl : Outcome (Unit {0}))
      → e ≡ on_client id flags ctl
      → OnClient e

handle_event-queue :
    (e : Event) (s s' : Server) → OnClient e → handle_event e s ≡ ok s' → s'.queue ≡ s.queue
unfolding handle_event
handle_event-queue (on_client id flags ctl) s s' o e =
    let (clients, _, e2) = bind-eq-ok (serve_client id flags ctl s.clients) _ e in
    sym (ap (λ s. s.queue) (ok-injective e2))
handle_event-queue (on_port h r xs ctl) s s' (on_client_only _ id flags c q) e = cc q

handle_events-queue :
    (es : List Event) (s s' : Server)
    → All OnClient es
    → handle_events es s ≡ ok s'
    → s'.queue ≡ s.queue
unfolding handle_events
handle_events-queue [] s s' o e = sym (ap (λ s. s.queue) (ok-injective e))
handle_events-queue (x ∷ es) s s' o e =
    let (t, e1, e2) = bind-eq-ok (handle_event x s) _ e in
    handle_events-queue es t s' o.1 e2 ∙ handle_event-queue x s t o.0 e1

-- A round in which no datagram arrives on the server's port.
abbrev pub IsQuiet : Waited → Type 0
IsQuiet (events es) = All OnClient es
IsQuiet (failed _) = Unit

round-queue : (w : Waited) (s s' : Server) → IsQuiet w → round w s ≡ ok s' → s'.queue ≡ s.queue
unfolding round
round-queue (events es) s s' q e =
    let (t, e1, e2) = bind-eq-ok (handle_events es s) _ e in
    let (clients, _, e4) = bind-eq-ok (clean_up_from false t.clients) _ e2 in
    sym (ap (λ s. s.queue) (ok-injective e4)) ∙ handle_events-queue es s t q e1
round-queue (failed Errno.eintr) s s' q e = sym (ap (λ s. s.queue) (ok-injective e))
round-queue (failed Errno.eagain) s s' q e = cc e
round-queue (failed Errno.ewouldblock) s s' q e = cc e
round-queue (failed Errno.other) s s' q e = cc e

-- In rounds that return and in which no datagram arrives at the port, the queue stays as it is,
-- though connections may have ended and made room.
run-queue :
    (ws : List Waited) (s s' : Server) → All IsQuiet ws → run ws s ≡ ok s' → s'.queue ≡ s.queue
unfolding run
run-queue [] s s' q e = sym (ap (λ s. s.queue) (ok-injective e))
run-queue (w ∷ ws) s s' q e =
    let (t, e1, e2) = bind-eq-ok (round w s) _ e in
    run-queue ws t s' q.1 e2 ∙ round-queue w s t q.0 e1
