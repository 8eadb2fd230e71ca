-- ===== src/Server/Start/Constructed.antt =====
-- What the constructors of the server and of its handler leave behind.
use cpp_tftp.Common.{
  ℕ, ◌⊎◌, inl, inr, Bool-cases, Option-cases, ltb, ◌≡◌, refl, sym, ap, ◌∙◌, Bool, true, false, ◌∷◌,
  Option, none, some, if◌then◌else◌, Bytes, to_u16,
}
use cpp_tftp.Common.Outcome.{
  ok, throw, Exception, system_error, Settled, Settled-bind, bind-eq-ok, unwind, and_then,
  failed_to_chdir, failed_to_create_epoll,
}
use cpp_tftp.Net.Udp.{Address}
use cpp_tftp.Net.Inet.{Inet}
use cpp_tftp.Net.Descriptors.{Descriptors, close-opened, close_positive-opened}
use cpp_tftp.Net.Socket.{
  Socket, SocketCalls, udp_connection-cases, destroy, bind, bind_address, bind-Settled, bind_ok,
  set_non_blocking-Settled, set_non_blocking_ok,
}
use cpp_tftp.Server.Start.{
  listen, listening, make_handler, ServerCalls, Started, idle, create_epoll, epoll_created,
  listen_on, made_server, with_handler, tftp_server, destroy_server,
}

listen-Settled :
    (inet : Inet) (k : SocketCalls) (addr : Bytes) (port : ℕ) (s : Socket)
    → Settled (listen inet k addr port s)
listen-Settled inet k addr port s =
    Settled-bind (bind inet k addr port s) _ (bind-Settled inet k addr port s)
      λ bound _. set_non_blocking-Settled k true bound

-- What the handler's socket is where its constructor returns.
pub record Listens (inet : Inet) (addr : Bytes) (port : ℕ) (s : Socket) : Type 0 where
  pub address : Address
  pub resolved : bind_address inet addr port ≡ ok address
  pub bound : s.local ≡ some address
  pub non_blocking : s.flags.o_nonblock ≡ true

listen_ok :
    (inet : Inet) (k : SocketCalls) (addr : Bytes) (port : ℕ) (s t : Socket)
    → listen inet k addr port s ≡ ok t
    → (t.sd ≡ s.sd) × Listens inet addr port t
listen_ok inet k addr port s t e =
    let (b, e1, e2) = bind-eq-ok (bind inet k addr port s) _ e in
    let (sa, e3, e4) = bind_ok inet k addr port s b e1 in
    let e5 = sym (set_non_blocking_ok k true b t e2) in
    (
      ap (λ (t : Socket). t.sd) e5 ∙ ap (λ (b : Socket). b.sd) (sym e4),
      record {
        address = sa;
        resolved = e3;
        bound = ap (λ (t : Socket). t.local) e5 ∙ ap (λ (b : Socket). b.local) (sym e4);
        non_blocking = ap (λ (t : Socket). t.flags.o_nonblock) e5;
      },
    )

make_handler-cases :
    (inet : Inet) (k : SocketCalls) (addr : Bytes) (port : ℕ) (fds : Descriptors)
    → ((e : Exception) × (make_handler inet k addr port fds ≡ (throw e, fds)))
      ⊎ ((s : Socket) × Listens inet addr port s
          × (make_handler inet k addr port fds ≡ (ok s, s.sd ∷ fds)))
unfolding make_handler unwind
make_handler-cases inet k addr port fds = elim (udp_connection-cases k fds) [
  | inl e ↦ inl (system_error, ap (λ m. and_then m (listening inet k addr port)) e)
  | inr (udp, e) ↦
      let made = ap (λ m. and_then m (listening inet k addr port)) e in
      elim (listen-Settled inet k addr port udp) [
        | inl (x, p) ↦ inl (
          x,
          made
              ∙ ap (λ m. unwind (destroy udp) m (udp.sd ∷ fds)) p
              ∙ ap (λ d. (throw x, d)) (close-opened udp.sd fds),
        )
        | inr (t, p) ↦
            let (same, listens) = listen_ok inet k addr port udp t p in
            inr (
              t,
              listens,
              made
                  ∙ ap (λ m. unwind (destroy udp) m (udp.sd ∷ fds)) p
                  ∙ ap (λ sd. (ok t, sd ∷ fds)) (sym same),
            )
      ]
]

-- A server as its constructor makes it.
pub record Constructed (k : ServerCalls) (server_root local_interface : Bytes)
    (port_num max_clients : ℕ) (s : Started) : Type 0 where
  pub entered : k.chdir server_root ≡ true
  pub epoll : k.epoll_create1 ≡ some s.epoll_fd
  pub listens : Listens k.inet (listen_on local_interface) (to_u16 port_num) s.conn_handler
  pub idles : s.server ≡ idle max_clients

module _ (k : ServerCalls) (server_root local_interface : Bytes) (port_num max_clients : ℕ)
    (fds : Descriptors) where
  abbrev pub Throws : Type 0
  Throws =
      (e : Exception) × (tftp_server k server_root local_interface port_num max_clients fds
        ≡ (throw e, fds))

  with_handler-throws :
      (udp : Socket) (e : Exception)
      → make_handler k.inet k.socket_calls (listen_on local_interface) (to_u16 port_num) fds
        ≡ (ok udp, udp.sd ∷ fds)
      → create_epoll k server_root (udp.sd ∷ fds) ≡ (throw e, udp.sd ∷ fds)
      → Throws
  unfolding tftp_server unwind
  with_handler-throws udp e made p = (
    e,
    ap (λ m. and_then m (with_handler k server_root max_clients)) made
        ∙ ap (λ m. unwind (destroy udp) (made_server max_clients udp m.0) m.1) p
        ∙ ap (λ d. (throw e, d)) (close-opened udp.sd fds),
  )

  create_epoll_step :
      (b : Bool) (o : Option ℕ) (fds : Descriptors)
      → k.chdir server_root ≡ b
      → k.epoll_create1 ≡ o
      → create_epoll k server_root fds
        ≡ (if b then epoll_created o fds else (throw failed_to_chdir, fds))
  unfolding create_epoll
  create_epoll_step b o fds e f =
      ap (λ b. if b then epoll_created k.epoll_create1 fds else (throw failed_to_chdir, fds)) e
      ∙ ap (λ o. if b then epoll_created o fds else (throw failed_to_chdir, fds)) f

  -- The constructor returns a server with its two descriptors open, or it throws and leaves the
  -- descriptors of the process as they were.
  pub tftp_server-cases :
      Throws
      ⊎ ((s : Started) × Constructed k server_root local_interface port_num max_clients s
          × (tftp_server k server_root local_interface port_num max_clients fds
              ≡ (ok s, s.epoll_fd ∷ s.conn_handler.sd ∷ fds)))
  unfolding tftp_server unwind
  tftp_server-cases =
      elim (make_handler-cases k.inet k.socket_calls (listen_on local_interface) (to_u16 port_num)
        fds) [
          | inl (e, p) ↦ inl (e, ap (λ m. and_then m (with_handler k server_root max_clients)) p)
          | inr (udp, listens, made) ↦ elim (Bool-cases (k.chdir server_root)) [
            | inr e ↦ inl (
                with_handler-throws udp failed_to_chdir made
                  (create_epoll_step false k.epoll_create1 (udp.sd ∷ fds) e refl))
            | inl e ↦ elim (Option-cases k.epoll_create1) [
              | inl f ↦ inl (
                  with_handler-throws udp failed_to_create_epoll made
                    (create_epoll_step true none (udp.sd ∷ fds) e f))
              | inr (fd, f) ↦ inr (
                record { conn_handler = udp; epoll_fd = fd; server = idle max_clients },
                record { entered = e; epoll = f; listens = listens; idles = refl },
                ap (λ m. and_then m (with_handler k server_root max_clients)) made
                    ∙ ap (λ m. unwind (destroy udp) (made_server max_clients udp m.0) m.1)
                        (create_epoll_step true (some fd) (udp.sd ∷ fds) e f),
              )
            ]
          ]
        ]

pub destroy_server-opened :
    (s : Started) (fds : Descriptors)
    → ltb 0 s.epoll_fd ≡ true
    → destroy_server s (s.epoll_fd ∷ s.conn_handler.sd ∷ fds) ≡ fds
unfolding destroy_server
destroy_server-opened s fds positive =
    ap (destroy s.conn_handler)
      (close_positive-opened s.epoll_fd (s.conn_handler.sd ∷ fds) positive)
    ∙ close-opened s.conn_handler.sd fds
