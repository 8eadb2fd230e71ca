-- ===== src/Net/Socket.antt =====
-- `udp_connection`: how a socket is made, set up and closed, on what the system calls return.
use cpp_tftp.Common.{
  ℕ, ◌⊎◌, inl, inr, arith, Bool-cases, Option-cases, ◌≡◌, refl, Bool, true, false, [], ◌∷◌, Option,
  none, some, is_empty, if◌then◌else◌, Bytes,
}
use cpp_tftp.Common.Outcome.{
  Outcome, ok, throw, ◌>>=◌, system_error, invalid_address, bind-eq-ok, ok-injective, Settled,
  Settled-bind,
}
use cpp_tftp.Net.Udp.{Address, SendResult}
use cpp_tftp.Net.Inet.{Inet, inaddr_any, sockaddr_in}
use cpp_tftp.Net.Descriptors.{Descriptors, close, close-opened}

-- The file status flags of a descriptor: `O_NONBLOCK`, and the other bits.
pub record StatusFlags : Type 0 where
  pub o_nonblock : Bool
  pub others : ℕ

-- `_sd`, with what the kernel knows of the socket.
pub record Socket : Type 0 where
  pub sd : ℕ
  pub reuse_addr : Bool
  pub flags : StatusFlags
  pub local : Option Address
  pub peer : Option Address

-- What the system calls of a socket return: the descriptor of `socket`, its flags, and whether the
-- others succeed.
pub record SocketCalls : Type 0 where
  pub socket_sd : Option ℕ
  pub initial_flags : StatusFlags
  pub setsockopt : Bool
  pub fcntl_getfl : Bool
  pub fcntl_setfl : Bool
  pub bind_call : Bool
  pub connect_call : Bool

-- A test of the result of a system call: `throw` where it fails.
abbrev pub check : Bool → Outcome (Unit {0})
check true = ok tt
check false = throw system_error

-- The socket once its descriptor is set up to be bound again.
abbrev pub made_socket : SocketCalls → ℕ → Socket
made_socket k sd = record {
  sd = sd;
  reuse_addr = true;
  flags = k.initial_flags;
  local = none;
  peer = none;
}

-- The constructor. Where `setsockopt` fails it closes the descriptor itself.
unfoldable pub udp_connection : SocketCalls → Descriptors → Outcome Socket × Descriptors
udp_connection k fds = elim k.socket_sd [
  | none ↦ (throw system_error, fds)
  | some sd ↦
      if k.setsockopt
      then (ok (made_socket k sd), sd ∷ fds)
      else (throw system_error, close sd (sd ∷ fds))
]

-- The destructor. A socket that was made has a descriptor of at least 0.
abbrev pub destroy : Socket → Descriptors → Descriptors
destroy s fds = close s.sd fds

unfoldable pub set_non_blocking : SocketCalls → Bool → Socket → Outcome Socket
set_non_blocking k enable s = do
  _ ← check k.fcntl_getfl
  _ ← check k.fcntl_setfl
  ok (record s { flags = record s.flags { o_nonblock = enable } })

-- The address that `bind` hands to the kernel.
unfoldable pub bind_address : Inet → Bytes → ℕ → Outcome Address
bind_address inet ip_address port_num =
    if is_empty ip_address
    then ok (sockaddr_in inaddr_any port_num)
    else elim (inet.inet_pton ip_address) [
      | none ↦ throw invalid_address
      | some sin_addr ↦ ok (sockaddr_in sin_addr port_num)
    ]

unfoldable pub bind : Inet → SocketCalls → Bytes → ℕ → Socket → Outcome Socket
bind inet k ip_address port_num s = do
  sa ← bind_address inet ip_address port_num
  _ ← check k.bind_call
  ok (record s { local = some sa })

-- The address that `connect` and `send_to` hand to the kernel.
unfoldable pub peer_address : Inet → Bytes → ℕ → Outcome Address
peer_address inet ip_address port_num = elim (inet.inet_pton ip_address) [
  | none ↦ throw invalid_address
  | some sin_addr ↦ ok (sockaddr_in sin_addr port_num)
]

-- `connect(sa)`
unfoldable pub connect_to : SocketCalls → Address → Socket → Outcome Socket
connect_to k sa s = do _ ← check k.connect_call; ok (record s { peer = some sa })

-- `connect(ip_address, port_num)`
unfoldable pub connect : Inet → SocketCalls → Bytes → ℕ → Socket → Outcome Socket
unfolding peer_address connect_to
connect inet k ip_address port_num s = do
  sa ← peer_address inet ip_address port_num
  connect_to k sa s

-- `send_to`, given what `::sendto` returns: that, with the address and the bytes that are sent.
unfoldable pub send_to :
    Inet → SendResult → Bytes → ℕ → Bytes → Outcome (SendResult × (Address × Bytes))
unfolding peer_address
send_to inet returned ip_address port_num payload = do
  sa ← peer_address inet ip_address port_num
  ok (returned, (sa, payload))

-- A socket is made and its descriptor is open, or nothing has changed.
pub udp_connection-cases :
    (k : SocketCalls) (fds : Descriptors)
    → (udp_connection k fds ≡ (throw system_error, fds))
      ⊎ ((s : Socket) × (udp_connection k fds ≡ (ok s, s.sd ∷ fds)))
unfolding udp_connection
udp_connection-cases k fds = elim (Option-cases k.socket_sd) [
  | inl e ↦ inl (ground arith)
  | inr (sd, e) ↦ elim (Bool-cases k.setsockopt) [
    | inr f ↦ inl (ground (arith, close-opened sd fds))
    | inl f ↦ inr (made_socket k sd, ground arith)
  ]
]

check-Settled : (b : Bool) → Settled (check b)
check-Settled true = inr (tt, refl)
check-Settled false = inl (system_error, refl)

pub set_non_blocking-Settled :
    (k : SocketCalls) (enable : Bool) (s : Socket) → Settled (set_non_blocking k enable s)
unfolding set_non_blocking
set_non_blocking-Settled k enable s =
    Settled-bind (check k.fcntl_getfl) _ (check-Settled k.fcntl_getfl)
      λ _ _. Settled-bind (check k.fcntl_setfl) _ (check-Settled k.fcntl_setfl) λ _ _. inr (_, refl)

pub set_non_blocking_ok :
    (k : SocketCalls) (enable : Bool) (s t : Socket)
    → set_non_blocking k enable s ≡ ok t
    → record s { flags = record s.flags { o_nonblock = enable } } ≡ t
unfolding set_non_blocking
set_non_blocking_ok k enable s t e =
    let (_, _, e1) = bind-eq-ok (check k.fcntl_getfl) _ e in
    let (_, _, e2) = bind-eq-ok (check k.fcntl_setfl) _ e1 in ok-injective e2

bind_address-Settled :
    (inet : Inet) (ip_address : Bytes) (port_num : ℕ)
    → Settled (bind_address inet ip_address port_num)
unfolding bind_address
bind_address-Settled inet [] port_num = inr (_, refl)
bind_address-Settled inet (x ∷ xs) port_num = elim (Option-cases (inet.inet_pton (x ∷ xs))) [
  | inl e ↦ inl (invalid_address, ground arith)
  | inr (sin_addr, e) ↦ inr (sockaddr_in sin_addr port_num, ground arith)
]

pub bind-Settled :
    (inet : Inet) (k : SocketCalls) (ip_address : Bytes) (port_num : ℕ) (s : Socket)
    → Settled (bind inet k ip_address port_num s)
unfolding bind
bind-Settled inet k ip_address port_num s =
    Settled-bind (bind_address inet ip_address port_num) _
      (bind_address-Settled inet ip_address port_num)
      λ _ _. Settled-bind (check k.bind_call) _ (check-Settled k.bind_call) λ _ _. inr (_, refl)

pub bind_ok :
    (inet : Inet) (k : SocketCalls) (ip_address : Bytes) (port_num : ℕ) (s t : Socket)
    → bind inet k ip_address port_num s ≡ ok t
    → (sa : Address) × (bind_address inet ip_address port_num ≡ ok sa)
      × (record s { local = some sa } ≡ t)
unfolding bind
bind_ok inet k ip_address port_num s t e =
    let (sa, e1, e2) = bind-eq-ok (bind_address inet ip_address port_num) _ e in
    let (_, _, e3) = bind-eq-ok (check k.bind_call) _ e2 in (sa, e1, ok-injective e3)

pub connect_to-Settled : (k : SocketCalls) (sa : Address) (s : Socket) → Settled (connect_to k sa s)
unfolding connect_to
connect_to-Settled k sa s =
    Settled-bind (check k.connect_call) _ (check-Settled k.connect_call) λ _ _. inr (_, refl)

pub connect_to_ok :
    (k : SocketCalls) (sa : Address) (s t : Socket)
    → connect_to k sa s ≡ ok t
    → record s { peer = some sa } ≡ t
unfolding connect_to
connect_to_ok k sa s t e = let (_, _, e1) = bind-eq-ok (check k.connect_call) _ e in ok-injective e1
