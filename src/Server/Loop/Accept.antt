-- ===== src/Server/Loop/Accept.antt =====
-- How the queue of requests becomes connections.
use cpp_tftp.Common.{ℕ, suc, ◌≡◌, refl, false, List, [], ◌∷◌, ◌++◌}
use cpp_tftp.Common.Outcome.{Outcome, ok}
use cpp_tftp.Server.Connection.{Connection}
use cpp_tftp.Server.Connection.Host.{Host}
use cpp_tftp.Server.Connection.Create.{create}
use cpp_tftp.Server.Handler.{Request}
use cpp_tftp.Server.Loop.{Server, Client, interest_of, may_accept}

-- The connections of a sequence of requests.
pub data Created (h : Host) : List Request → List Client → Type 0 where
  no_more : Created h [] []
  created :
      (r : Request) (c : Connection) (id : ℕ) (rs : List Request) (cs : List Client)
      → create h r.request r.client ≡ ok c
      → Created h rs cs
      → Created h (r ∷ rs) (record { id = id; connection = c; interest = interest_of c } ∷ cs)

-- What accepting connections comes to: the requests at the front of the queue are served, until
-- none is left or the server is full.
pub record Accepts (h : Host) (server server' : Server) : Type 0 where
  pub taken : List Request
  pub new : List Client
  pub front : server.queue ≡ taken ++ server'.queue
  pub made : Created h taken new
  pub clients : server'.clients ≡ server.clients ++ new
  pub same_max : server'.max_clients ≡ server.max_clients
  pub stopped : may_accept server' ≡ false

module _ (h : Host) (ctl : Outcome (Unit {0})) (socket : h.socket ≡ ok tt)
    (registers : ctl ≡ ok tt) where
  create_ok : (r : Request) → (c : Connection) × (create h r.request r.client ≡ ok c)
  unfolding create
  create_ok r = rw socket (_, refl)

  client_of : Request → ℕ → Client
  client_of r id =
      let c = (create_ok r).0 in record { id = id; connection = c; interest = interest_of c }

  -- The server with the first request accepted.
  with_accepted : Request → List Request → Server → Server
  with_accepted r rs server = record server {
    queue = rs;
    clients = server.clients ++ client_of r server.next_id ∷ [];
    next_id = suc server.next_id;
  }
