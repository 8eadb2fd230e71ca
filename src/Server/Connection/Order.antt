-- ===== src/Server/Connection/Order.antt =====
-- What a connection that serves a file sends, whatever calls the server's loop makes: the timer, the
-- datagrams and the results of `send` are arbitrary.
pub mod Reads
pub mod States
pub mod Steps
pub mod Failed
pub mod Sender
pub mod Prefix
use cpp_tftp.Common.{
  ℕ, ◌≡◌, Bool, true, false, List, [], ◌∷◌, Option, none, some, ltb, length, take, drop, All, Bytes,
}
use cpp_tftp.Common.Outcome.{Outcome, ok, ◌>>=◌}
use cpp_tftp.Tftp.Types.{DataPacket, ErrorPacket}
use cpp_tftp.Tftp.Serialise.{serialise_data_packet, serialise_error_packet}
use cpp_tftp.Net.Udp.{Received, SendResult}
use cpp_tftp.Net.Timer.{TimerRead}
use cpp_tftp.Server.Connection.{Connection, set_finished}
use cpp_tftp.Server.Connection.Read.{handle_read, next_block}
use cpp_tftp.Server.Connection.Write.{handle_write}

-- A call of the loop on a connection.
pub data Call : Type 0 where
  on_read : TimerRead → Received → Call
  on_write : SendResult → Call
  on_failure : Call

-- The connection after a call, and what was handed to `send`.
unfoldable pub perform : Call → Connection → Outcome (Connection × Option Bytes)
perform (on_read t r) c = do c' ← handle_read t r c; ok (c', none)
perform (on_write r) c = handle_write r c
perform on_failure c = ok (set_finished true c, none)

abbrev pub prepend : Option Bytes → List Bytes → List Bytes
prepend none xs = xs
prepend (some d) xs = d ∷ xs

unfoldable pub drive : List Call → Connection → Outcome (Connection × List Bytes)
unfolding perform
drive [] c = ok (c, [])
drive (x ∷ xs) c = do
  (c', sent) ← perform x c
  (last, more) ← drive xs c'
  ok (last, prepend sent more)

abbrev pub block_at : ℕ → ℕ → Bytes → DataPacket
block_at size number d = record { payload = take size d; block_number = number }

-- The protocol's sender, as the sequences of datagrams that it may send. `d` are the bytes from the
-- current block on, `number` is the number of that block, and `offered` whether it was sent. The
-- block may be sent any number of times; once it was, and if it was not the last, the next one may
-- become the current one. At any time the sender may give up, and send error packets only.
pub data Sends (size : ℕ) : Bool → ℕ → Bytes → List Bytes → Type 0 where
  silent : (offered : Bool) (number : ℕ) (d : Bytes) → Sends size offered number d []
  block :
      (offered : Bool) (number : ℕ) (d : Bytes) (xs : List Bytes)
      → Sends size true number d xs
      → Sends size offered number d (serialise_data_packet (block_at size number d) ∷ xs)
  move :
      (number : ℕ) (d : Bytes) (xs : List Bytes)
      → ltb (length d) size ≡ false
      → Sends size false (next_block number) (drop size d) xs
      → Sends size true number d xs
  fail :
      (offered : Bool) (number : ℕ) (d : Bytes) (e : ErrorPacket) (xs : List Bytes)
      → All (λ x. x ≡ serialise_error_packet e) xs
      → Sends size offered number d xs
