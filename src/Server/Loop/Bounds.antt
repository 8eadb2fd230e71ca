-- ===== src/Server/Loop/Bounds.antt =====
-- How many connections the server of src/server/tftp_server.cpp has.
use cpp_tftp.Common.{
  ℕ, suc, ◌<◌, ◌≤◌, ◌≡◌, refl, sym, ap, subst, ◌∙◌, Bool, true, false, inl, inr, List, [], ◌∷◌,
  arith, ltb, ltb→lt, Bool-cases, length, length-append, ◌==◌,
}
use cpp_tftp.Common.Outcome.{Outcome, ok, bind-eq-ok, ok-injective}
use cpp_tftp.Server.Connection.{is_finished}
use cpp_tftp.Server.Connection.Host.{Host}
use cpp_tftp.Server.Connection.Create.{create}
use cpp_tftp.Server.Handler.{get_request}
use cpp_tftp.Server.Loop.Invariant.{Invariant, run-Invariant}
use cpp_tftp.Server.Loop.{
  Server, Client, Flags, Waited, accept_one, may_accept, serve_connection, serve_client,
  clean_up_from, run, interest_of,
}

-- The server after some of its work: not above the limit of connections, and the limit is the same.
pub record Keeps (s s' : Server) : Type 0 where
  pub bounded : length s'.clients ≤ s'.max_clients
  pub same_max : s'.max_clients ≡ s.max_clients

accept_one-Keeps :
    (h : Host) (ctl : Outcome (Unit {0})) (s s' : Server)
    → length s.clients < s.max_clients
    → accept_one h ctl s ≡ ok s'
    → Keeps s s'
unfolding accept_one
accept_one-Keeps h ctl s s' room e =
    let ((r, queue), _, e1) = bind-eq-ok (get_request s.queue) _ e in
    let (c, _, e2) = bind-eq-ok (create h r.request r.client) _ e1 in
    let (_, _, e3) = bind-eq-ok ctl _ e2 in
    subst (Keeps s) (ok-injective e3) (record {
      bounded = omega (
        arith,
        room,
        length-append s.clients
            (record { id = s.next_id; connection = c; interest = interest_of c } ∷ []),
      );
      same_max = refl;
    })

length-serve_client :
    (id : ℕ) (flags : Flags) (ctl : Outcome (Unit {0})) (xs ys : List Client)
    → serve_client id flags ctl xs ≡ ok ys
    → length ys ≡ length xs
unfolding serve_client
length-serve_client id flags ctl [] ys e = cc e
length-serve_client id flags ctl (x ∷ xs) ys e = elim (Bool-cases (x.id == id)) [
  | inl here ↦
      let (c, _, e1) = bind-eq-ok (serve_connection flags x.connection) _ (rw here at e) in
      let (_, _, e2) = bind-eq-ok ctl _ e1 in sym (ap length (ok-injective e2))
  | inr later ↦
      let (zs, e1, e2) = bind-eq-ok (serve_client id flags ctl xs) _ (rw later at e) in
      sym (ap length (ok-injective e2)) ∙ ap suc (length-serve_client id flags ctl xs zs e1)
]

length-clean_up_from :
    (skips : Bool) (xs ys : List Client) → clean_up_from skips xs ≡ ok ys → length ys ≤ length xs
unfolding clean_up_from
length-clean_up_from true [] ys e = cc e
length-clean_up_from true (x ∷ xs) ys e =
    let (zs, e1, e2) = bind-eq-ok (clean_up_from false xs) _ e in
    omega (arith, ap (λ l. length l) (ok-injective e2), length-clean_up_from false xs zs e1)
length-clean_up_from false [] ys e = omega (arith, ap (λ l. length l) (ok-injective e))
length-clean_up_from false (x ∷ xs) ys e = elim (Bool-cases (is_finished x.connection)) [
  | inl over ↦ omega (arith, length-clean_up_from true xs ys (rw over at e))
  | inr active ↦
      let (zs, e1, e2) = bind-eq-ok (clean_up_from false xs) _ (rw active at e) in
      omega (arith, ap (λ l. length l) (ok-injective e2), length-clean_up_from false xs zs e1)
]

Keeps-Invariant : (s : Server) → Invariant (Keeps s)
Keeps-Invariant s = record {
  accepts = λ h ctl t t' room e k.
      let first = accept_one-Keeps h ctl t t' (ltb→lt _ _ (has_room t room)) e in
      record { bounded = first.bounded; same_max = first.same_max ∙ k.same_max };
  queues = λ t queue k. record { bounded = k.bounded; same_max = k.same_max };
  serves = λ id flags ctl t ys e k. record {
    bounded = omega (arith, k.bounded, length-serve_client id flags ctl t.clients ys e);
    same_max = k.same_max;
  };
  cleans = λ t ys e k. record {
    bounded = omega (arith, k.bounded, length-clean_up_from false t.clients ys e);
    same_max = k.same_max;
  };
}
  where
    has_room : (t : Server) → may_accept t ≡ true → ltb (length t.clients) t.max_clients ≡ true
    has_room t q = ground arith

-- A server that does not have more connections than its limit does not get more in any rounds that
-- return, however many requests arrive, and the limit stays the same.
pub run-Keeps :
    (ws : List Waited) (s s' : Server)
    → length s.clients ≤ s.max_clients
    → run ws s ≡ ok s'
    → Keeps s s'
run-Keeps ws s s' b e =
    run-Invariant (Keeps s) (Keeps-Invariant s) ws s s' e (record { bounded = b; same_max = refl })
