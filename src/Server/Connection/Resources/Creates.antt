-- ===== src/Server/Connection/Resources/Creates.antt =====
-- The constructor of `tftp_server_connection` with its descriptors, and `create` without them.
use cpp_tftp.Common.{ℕ}
use cpp_tftp.Common.Outcome.{Outcome, ok, ◌>>=◌}
use cpp_tftp.Net.Udp.{Address}
use cpp_tftp.Net.Descriptors.{Descriptors}
use cpp_tftp.Net.Socket.{Socket}
use cpp_tftp.Server.Connection.{Connection}
use cpp_tftp.Server.Connection.Host.{Host}
use cpp_tftp.Server.Connection.Resources.{Owned, ConnectionCalls, set_up}

-- The connection, its socket and its timer forgotten.
abbrev pub forget : Outcome Owned → Outcome Connection
forget m = m >>= λ o. ok o.connection

-- Whether the members are made and the socket is set up.
abbrev pub set_up_members : ConnectionCalls → Address → Outcome (Socket × ℕ) → Outcome (Unit {0})
set_up_members k client members = members >>= λ m. set_up k client m.0 >>= λ _. ok tt
