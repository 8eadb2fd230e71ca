-- ===== src/Server/Loop/Ids.antt =====
-- Which connection an event of src/server/tftp_server.cpp is for, and that it is the only one touched.
use cpp_tftp.Common.{ℕ, suc, ◌≤◌, ◌≡◌, ◌≢◌, List, [], ◌∷◌, some}
use cpp_tftp.Common.Outcome.{Outcome, ok}
use cpp_tftp.Server.Connection.{Connection}
use cpp_tftp.Server.Connection.Host.{Host}
use cpp_tftp.Server.Loop.{Server, Client, Flags, serve_connection, interest_of}
use cpp_tftp.Server.Loop.Invariant.{Invariant}
use cpp_tftp.Server.Loop.Faults.{find}

-- The elements stand in the order of their addresses, which are from `lo` and below `hi`.
abbrev pub Ascends : ℕ → List Client → ℕ → Type 0
Ascends lo [] hi = lo ≤ hi
Ascends lo (x ∷ xs) hi = (lo ≤ x.id) × Ascends (suc x.id) xs hi

-- The connections of a server are in the order of their acceptance, and no two have one address.
abbrev pub IsOrdered : Server → Type 0
IsOrdered s = Ascends 0 s.clients s.next_id

-- What serving the connection at an address comes to.
pub record IsServed (id : ℕ) (flags : Flags) (xs ys : List Client) : Type 0 where
  pub served : Client
  pub connection : Connection
  pub found : find id xs ≡ some served
  pub result : serve_connection flags served.connection ≡ ok connection
  pub renewed :
      find id ys
      ≡ some (record served { connection = connection; interest = interest_of connection })
  pub others : (j : ℕ) → j ≢ id → find j ys ≡ find j xs
