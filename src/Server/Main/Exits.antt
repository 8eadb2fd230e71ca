-- ===== src/Server/Main/Exits.antt =====
-- How the program of src/server/main.cpp ends.
use cpp_tftp.Common.{
  ℕ, zero, suc, ◌≡◌, ◌≢◌, refl, sym, ap, subst, ◌∙◌, ◌⊎◌, inl, inr, Bool, true, List, [], ◌∷◌, ◌++◌,
  some, arith, ltb, Bool-cases, Bytes,
}
use cpp_tftp.Common.Outcome.{
  Outcome, ok, throw, Exception, Settled, Settled-bind, and_then, leave, HasEnded, leave-HasEnded,
  leave-outcome, exit_status, epoll_add_failed,
}
use cpp_tftp.Common.Decimal.{stoul, stoul-Settled}
use cpp_tftp.Net.Descriptors.{Descriptors}
use cpp_tftp.Server.Loop.{Server, Waited, run}
use cpp_tftp.Server.Start.{
  ServerCalls, Started, Happening, stop, idle, destroy_server, start_unregistered, start, returns,
  start-run,
}
use cpp_tftp.Server.Start.Constructed.{Constructed, tftp_server-cases, destroy_server-opened}
use cpp_tftp.Server.Main.{
  Program, log_trace, initialise_logger, serve_root, or_return_1, with_logger, run_main, main,
}

-- A server was made and started on port 69, for at most 100 clients, and served the rounds `ws`.
pub record Serves (k : ServerCalls) (ws : List Waited) (server_root interface : Bytes)
    (fds : Descriptors) (status : Outcome ℕ) (fds' : Descriptors) : Type 0 where
  pub started : Started
  pub made : Constructed k server_root interface 69 100 started
  pub registered : k.epoll_ctl ≡ true
  pub exits : status ≡ exit_status (run ws (idle 100))
  pub closed : HasEnded (run ws (idle 100)) → fds' ≡ fds

module _ (k : ServerCalls) (ws : List Waited) (rest : List Happening)
    (positive : k.epoll_create1 ≢ some 0) (server_root interface : Bytes) (fds : Descriptors) where
  is_positive : (fd : ℕ) → k.epoll_create1 ≡ some fd → ltb 0 fd ≡ true
  is_positive zero e = absurd (positive e)
  is_positive (suc fd) e = ground arith

  abbrev served : Outcome Server × Descriptors
  served = serve_root k (returns ws ++ (stop ∷ rest)) server_root interface fds

  abbrev serve_started : Started → Descriptors → Outcome Server × Descriptors
  serve_started s fds =
      leave (destroy_server s) (start k (returns ws ++ (stop ∷ rest)) s.server) fds

  serve_root-cases :
      ((e : Exception) × (served ≡ (throw e, fds)))
      ⊎ Serves k ws server_root interface fds (exit_status served.0) served.1
  unfolding serve_root
  serve_root-cases = elim (tftp_server-cases k server_root interface 69 100 fds) [
    | inl (e, p) ↦ inl (e, ap (λ m. and_then m serve_started) p)
    | inr (s, c, p) ↦
        let all = s.epoll_fd ∷ s.conn_handler.sd ∷ fds in
        let runs = ap (λ m. and_then m serve_started) p in
        let positive_fd = is_positive s.epoll_fd c.epoll in
        elim (Bool-cases k.epoll_ctl) [
          | inr f ↦ inl (
            epoll_add_failed,
            runs
                ∙ ap (λ r. leave (destroy_server s) r all)
                    (start_unregistered k (returns ws ++ (stop ∷ rest)) s.server f)
                ∙ leave-HasEnded (destroy_server s) (throw epoll_add_failed) all fds
                    (destroy_server-opened s fds positive_fd) tt,
          )
          | inl f ↦
              let r = run ws (idle 100) in
              let rounds = start-run k ws rest s.server f ∙ ap (run ws) c.idles in
              let whole = runs ∙ ap (λ r. leave (destroy_server s) r all) rounds in
              inr (record {
                started = s;
                made = c;
                registered = f;
                exits =
                    ap exit_status (ap (λ x. x.0) whole ∙ leave-outcome (destroy_server s) r all);
                closed = λ h.
                    ap (λ x. x.1) whole
                    ∙ ap (λ x. x.1)
                        (leave-HasEnded (destroy_server s) r all fds
                          (destroy_server-opened s fds positive_fd) h);
              })
        ]
  ]

log_trace-Settled : (arguments : List Bytes) → Settled (log_trace arguments)
unfolding log_trace
log_trace-Settled [] = inr (_, refl)
log_trace-Settled (a ∷ _) = Settled-bind (stoul a) _ (stoul-Settled a) λ _ _. inr (_, refl)

-- A program that is stopped by a signal after some rounds, and whose logger is set up or throws.
abbrev pub stopped_after : Outcome (Unit {0}) → ServerCalls → List Waited → List Happening → Program
stopped_after logger k ws rest = record {
  logger = logger;
  calls = k;
  happenings = returns ws ++ (stop ∷ rest);
}

module _ (logger : Outcome (Unit {0})) (k : ServerCalls) (ws : List Waited) (rest : List Happening)
    (server_root interface : Bytes) where
  abbrev logged : Outcome (Unit {0}) → Descriptors → Outcome ℕ × Descriptors
  logged l fds =
      and_then (initialise_logger l, fds)
        (with_logger k (returns ws ++ (stop ∷ rest)) server_root interface)

  run_main_step :
      (arguments : List Bytes) (fds : Descriptors) (m : Outcome Bool)
      → log_trace arguments ≡ m
      → run_main (stopped_after logger k ws rest) server_root interface arguments fds
        ≡ or_return_1 m fds (λ _. logged logger fds)
  unfolding run_main
  run_main_step arguments fds m p = ap (λ m. or_return_1 m fds (λ _. logged logger fds)) p

  logger_step :
      (fds : Descriptors) (l : Outcome (Unit {0})) → logger ≡ l → logged logger fds ≡ logged l fds
  logger_step fds l q = ap (λ l. logged l fds) q

-- The arguments name a root and an interface, which the server serves.
pub record Runs (k : ServerCalls) (ws : List Waited) (argv : List Bytes) (fds : Descriptors)
    (exit : Outcome ℕ × Descriptors) : Type 0 where
  pub name : Bytes
  pub server_root : Bytes
  pub interface : Bytes
  pub arguments : List Bytes
  pub arguments_given : argv ≡ name ∷ server_root ∷ interface ∷ arguments
  pub serves : Serves k ws server_root interface fds exit.0 exit.1

pub main-Runs :
    (logger : Outcome (Unit {0})) (k : ServerCalls) (ws : List Waited) (rest : List Happening)
    (argv : List Bytes) (fds : Descriptors)
    → Settled logger
    → k.epoll_create1 ≢ some 0
    → let exit = main (stopped_after logger k ws rest) argv fds in
      (exit ≡ (ok 1, fds)) ⊎ Runs k ws argv fds exit
unfolding main with_logger
main-Runs logger k ws rest (name ∷ server_root ∷ interface ∷ arguments) fds l positive =
    elim (log_trace-Settled arguments) [
      | inl (e, p) ↦
          inl (run_main_step logger k ws rest server_root interface arguments fds (throw e) p)
      | inr (trace, p) ↦
          let first =
            run_main_step logger k ws rest server_root interface arguments fds (ok trace) p in
          elim l [
            | inl (e, q) ↦
                inl (first ∙ logger_step logger k ws rest server_root interface fds (throw e) q)
            | inr (u, q) ↦
                let second =
                  first ∙ logger_step logger k ws rest server_root interface fds (ok u) q in
                elim (serve_root-cases k ws rest positive server_root interface fds) [
                  | inl (e, r) ↦ inl (second ∙ ap (λ s. (exit_status s.0, s.1)) r)
                  | inr s ↦ inr (record {
                    name = name;
                    server_root = server_root;
                    interface = interface;
                    arguments = arguments;
                    arguments_given = refl;
                    serves =
                        subst (λ x. Serves k ws server_root interface fds x.0 x.1) (sym second) s;
                  })
                ]
          ]
    ]
main-Runs logger k ws rest [] fds l positive = inl refl
main-Runs logger k ws rest (_ ∷ []) fds l positive = inl refl
main-Runs logger k ws rest (_ ∷ _ ∷ []) fds l positive = inl refl
