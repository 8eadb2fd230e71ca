-- ===== src/Server/Handler.antt =====
-- `tftp_connection_handler`, of src/server/tftp_connection_handler.cpp: the queue of requests.
use cpp_tftp.Common.{
  ℕ, suc, ◌≡◌, refl, sym, ap, ◌∙◌, Bool, false, not, inl, inr, List, [], ◌∷◌, ◌++◌, append-nil,
  append_assoc, Option, none, some, if◌then◌else◌, ◌⊎◌, map, All, is_empty, take, Bytes,
}
use cpp_tftp.Common.Outcome.{Outcome, ok, throw, ◌>>=◌, request_queue_empty}
use cpp_tftp.Tftp.Types.{RwPacket}
use cpp_tftp.Tftp.Deserialise.{deserialise_rw_packet}
use cpp_tftp.Tftp.Deserialise.Total.{deserialise-Returns}
use cpp_tftp.Net.Inet.{Inet, to_sockaddr_in}
use cpp_tftp.Net.Udp.{Address, ReceivedFrom, datagram_from, recv_from}

-- `request_t`
pub record Request : Type 0 where
  pub request : RwPacket
  pub client : Address

-- `to_sockaddr_in` reads the address of the client with `inet_pton`.
pub record Resolver : Type 0 where
  pub to_sockaddr_in : Address → Option Address

-- The one of src/common/utils.cpp.
abbrev pub resolver : Inet → Resolver
resolver inet = record { to_sockaddr_in = λ a. to_sockaddr_in inet a.ip_address a.port_num }

-- What becomes of a datagram: a request for the queue if both it and its sender can be parsed.
unfoldable pub enqueue : Option RwPacket → Option Address → List Request → List Request
enqueue (some request) (some client) queue =
    queue ++ record { request = request; client = client } ∷ []
enqueue none client queue = queue
enqueue request none queue = queue

abbrev no_address : Address
no_address = record { ip_address = []; port_num = 0 }

-- The loop of `handle_read`, on what the socket has to give. When that is used up, `recv_from`
-- finds nothing, which ends the loop as an empty datagram does.
unfoldable pub receive_requests :
    Resolver → Address → List ReceivedFrom → List Request → Outcome (List Request)
unfolding enqueue
receive_requests s sender [] queue = ok queue
receive_requests s sender (x ∷ xs) queue = do
  (recv_data, sender') ← recv_from 2048 sender x
  let more = (do
    request ← deserialise_rw_packet recv_data
    receive_requests s sender' xs (enqueue request (s.to_sockaddr_in sender') queue))
  if is_empty recv_data then ok queue else more

unfoldable pub handle_read : Resolver → List ReceivedFrom → List Request → Outcome (List Request)
handle_read s xs queue = receive_requests s no_address xs queue

abbrev pub requests_pending : List Request → Bool
requests_pending queue = not (is_empty queue)

-- The first request, and the queue without it.
unfoldable pub get_request : List Request → Outcome (Request × List Request)
get_request [] = throw request_queue_empty
get_request (x ∷ xs) = ok (x, xs)

-- The requests in a sequence of datagrams with their senders, in the order of arrival.
pub data Arrivals (s : Resolver) : List (Address × Bytes) → List Request → Type 0 where
  no_more : Arrivals s [] []
  request :
      (sender client : Address) (d : Bytes) (r : RwPacket) (xs : List (Address × Bytes))
      (rs : List Request)
      → deserialise_rw_packet (take 2048 d) ≡ ok (some r)
      → s.to_sockaddr_in sender ≡ some client
      → Arrivals s xs rs
      → Arrivals s ((sender, d) ∷ xs) (record { request = r; client = client } ∷ rs)
  no_request :
      (sender : Address) (d : Bytes) (xs : List (Address × Bytes)) (rs : List Request)
      → (deserialise_rw_packet (take 2048 d) ≡ ok none) ⊎ (s.to_sockaddr_in sender ≡ none)
      → Arrivals s xs rs
      → Arrivals s ((sender, d) ∷ xs) rs

abbrev pub arriving : List (Address × Bytes) → List ReceivedFrom
arriving xs = map (λ x. datagram_from x.0 x.1) xs

record Queues (s : Resolver) (old : Address) (xs : List (Address × Bytes)) (queue : List Request)
    : Type 0 where
  new : List Request
  arrivals : Arrivals s xs new
  runs : receive_requests s old (arriving xs) queue ≡ ok (queue ++ new)

receive_one :
    (s : Resolver) (old sender : Address) (d : Bytes) (xs : List ReceivedFrom)
    (queue : List Request) (o : Option RwPacket)
    → is_empty (take 2048 d) ≡ false
    → deserialise_rw_packet (take 2048 d) ≡ ok o
    → receive_requests s old (datagram_from sender d ∷ xs) queue
      ≡ receive_requests s sender xs (enqueue o (s.to_sockaddr_in sender) queue)
unfolding receive_requests recv_from
receive_one s old sender d xs queue o e p = rw (e, p)

is_empty-take : (n : ℕ) (d : Bytes) → is_empty d ≡ false → is_empty (take (suc n) d) ≡ false
is_empty-take n [] h = h
is_empty-take n (x ∷ d) h = refl

-- One datagram more at the front, by whether it and its sender can be parsed.
module _ (s : Resolver) (old sender : Address) (d : Bytes) (xs : List (Address × Bytes))
    (queue : List Request) (more : is_empty (take 2048 d) ≡ false)
    (later : (queue : List Request) → Queues s sender xs queue) where
  queue_one :
      (o : Option RwPacket) (client : Option Address)
      → deserialise_rw_packet (take 2048 d) ≡ ok o
      → s.to_sockaddr_in sender ≡ client
      → receive_requests s old (arriving ((sender, d) ∷ xs)) queue
        ≡ receive_requests s sender (arriving xs) (enqueue o client queue)
  queue_one o client p q =
      receive_one s old sender d (arriving xs) queue o more p
      ∙ ap (λ c. receive_requests s sender (arriving xs) (enqueue o c queue)) q

  queue_step :
      (o : Option RwPacket) (client : Option Address)
      → deserialise_rw_packet (take 2048 d) ≡ ok o
      → s.to_sockaddr_in sender ≡ client
      → Queues s old ((sender, d) ∷ xs) queue
  unfolding enqueue
  queue_step none client p q =
      let rest = later queue in
      record {
        new = rest.new;
        arrivals = no_request sender d xs rest.new (inl p) rest.arrivals;
        runs = queue_one none client p q ∙ rest.runs;
      }
  queue_step (some r) none p q =
      let rest = later queue in
      record {
        new = rest.new;
        arrivals = no_request sender d xs rest.new (inr q) rest.arrivals;
        runs = queue_one (some r) none p q ∙ rest.runs;
      }
  queue_step (some r) (some client) p q =
      let one : Request = record { request = r; client = client } in
      let rest = later (queue ++ one ∷ []) in
      record {
        new = one ∷ rest.new;
        arrivals = request sender client d r xs rest.new p q rest.arrivals;
        runs =
            queue_one (some r) (some client) p q
            ∙ rest.runs
            ∙ ap ok (append_assoc queue (one ∷ []) rest.new);
      }

receive_requests-Queues :
    (s : Resolver) (old : Address) (xs : List (Address × Bytes)) (queue : List Request)
    → All (λ x. is_empty x.1 ≡ false) xs
    → Queues s old xs queue
unfolding receive_requests
receive_requests-Queues s old [] queue h = record {
  new = [];
  arrivals = no_more;
  runs = ap ok (sym (append-nil queue));
}
receive_requests-Queues s old ((sender, d) ∷ xs) queue h =
    let (o, p) = (deserialise-Returns (take 2048 d)).0 in
    queue_step s old sender d xs queue (is_empty-take 2047 d h.0)
      (λ queue. receive_requests-Queues s sender xs queue h.1) o (s.to_sockaddr_in sender) p refl

-- Of the datagrams that have arrived, none empty, `handle_read` puts exactly the requests in the
-- queue, behind those that wait and in the order of arrival. It never throws on what is in them.
pub handle_read-Arrivals :
    (s : Resolver) (xs : List (Address × Bytes)) (queue : List Request)
    → All (λ x. is_empty x.1 ≡ false) xs
    → (new : List Request) × Arrivals s xs new
      × (handle_read s (arriving xs) queue ≡ ok (queue ++ new))
unfolding handle_read
handle_read-Arrivals s xs queue h =
    let q = receive_requests-Queues s no_address xs queue h in (q.new, q.arrivals, q.runs)

-- A single datagram with a request.
pub handle_read_one :
    (s : Resolver) (sender client : Address) (d : Bytes) (rw : RwPacket)
    → is_empty d ≡ false
    → deserialise_rw_packet (take 2048 d) ≡ ok (some rw)
    → s.to_sockaddr_in sender ≡ some client
    → handle_read s (arriving ((sender, d) ∷ [])) []
      ≡ ok (record { request = rw; client = client } ∷ [])
unfolding handle_read receive_requests
handle_read_one s sender client d rw more parsed resolved =
    receive_one s no_address sender d [] [] (some rw) (is_empty-take 2047 d more) parsed
    ∙ ap (λ c. receive_requests s sender [] (enqueue (some rw) c [])) resolved
