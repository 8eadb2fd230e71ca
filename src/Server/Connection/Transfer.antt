-- ===== src/Server/Connection/Transfer.antt =====
-- A transfer to a client: `handle_write` and `handle_read` in turn, as src/server/tftp_server.cpp
-- calls them, with a client that acknowledges each data packet.
pub mod Round
pub mod Complete
pub mod Request
pub mod Negotiated
pub mod Endless
use cpp_tftp.Common.{
  ℕ, zero, suc, ◌<◌, ◌≡◌, ◌∙◌, inl, inr, List, [], ◌∷◌, ◌++◌, append-nil, Option, none, some, arith,
  ltb, ltb→lt, ltb→le, if◌then◌else◌, Bool-cases, length, take, drop, take-append-drop, take_of_le,
  length-drop, Bytes,
}
use cpp_tftp.Common.Outcome.{Outcome, ok, ◌>>=◌}
use cpp_tftp.Tftp.Types.{DataPacket}
use cpp_tftp.Tftp.Serialise.{serialise_ack_packet}
use cpp_tftp.Tftp.Deserialise.{deserialise_data_packet}
use cpp_tftp.Net.Udp.{Received, datagram, failed, Errno, SendResult}
use cpp_tftp.Net.Timer.{TimerRead}
use cpp_tftp.Server.Connection.{Connection}
use cpp_tftp.Server.Connection.Read.{handle_read, next_block}
use cpp_tftp.Server.Connection.Write.{handle_write}

abbrev acknowledge : Option DataPacket → Received
acknowledge none = failed Errno.eagain
acknowledge (some p) = datagram (serialise_ack_packet (record { block_number = p.block_number }))

-- What a client sends back for what was sent to it.
unfoldable pub answer : Option Bytes → Outcome Received
answer none = ok (failed Errno.eagain)
answer (some d) = do p ← deserialise_data_packet d; ok (acknowledge p)

-- One packet and its acknowledgement.
unfoldable pub exchange : SendResult → TimerRead → Connection → Outcome (Connection × Option Bytes)
exchange s t c = do
  (c', sent) ← handle_write s c
  reply ← answer sent
  c'' ← handle_read t reply c'
  ok (c'', sent)

-- Exchanges until the connection is finished, and what was sent in them.
unfoldable pub serve :
    ℕ → SendResult → TimerRead → Connection → Outcome (Connection × List (Option Bytes))
serve zero s t c = ok (c, [])
serve (suc f) s t c = do
  (c', sent) ← exchange s t c
  let rest = serve f s t c'
  (last, more) ← (if c'.finished then ok (c', []) else rest)
  ok (last, sent ∷ more)

-- The blocks that RFC 1350 asks for: all have the full size but the last, which is shorter.
unfoldable pub data_blocks : ℕ → ℕ → ℕ → Bytes → List DataPacket
data_blocks zero size block d = []
data_blocks (suc f) size block d =
    let rest = data_blocks f size (next_block block) (drop size d) in
    record { payload = take size d; block_number = block }
    ∷ (if ltb (length d) size then [] else rest)

-- The payloads of the blocks, put together again.
unfoldable pub reassemble : List DataPacket → Bytes
reassemble [] = []
reassemble (p ∷ ps) = p.payload ++ reassemble ps

-- The blocks of a file carry the file.
reassemble-data_blocks :
    (f size block : ℕ) (d : Bytes)
    → 0 < size
    → length d < f
    → reassemble (data_blocks f size block d) ≡ d
unfolding reassemble data_blocks
reassemble-data_blocks zero size block d pos h = absurd (omega (arith, h))
reassemble-data_blocks (suc f) size block d pos h = elim (Bool-cases (ltb (length d) size)) [
  | inl short ↦
      rw short (append-nil (take size d) ∙ take_of_le size d (omega (arith, ltb→lt _ _ short)))
  | inr full ↦
      rw
        (
          full,
          reassemble-data_blocks f size (next_block block) (drop size d) pos
              (omega (arith, length-drop size d, ltb→le _ _ full)),
        )
        (take-append-drop size d)
]
