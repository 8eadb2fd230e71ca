-- ===== src/Download.antt =====
-- A file on its way: src/server/tftp_server_connection.cpp on the one side, `get_file` of
-- src/client/tftp_client.cpp on the other.
use cpp_tftp.Common.{ℕ, suc, ◌<◌, ◌≡◌, ap, ◌∙◌, true, false, List, ◌∷◌, some, length, refl, Bytes}
use cpp_tftp.Common.Outcome.{ok}
use cpp_tftp.Tftp.Types.{PacketType, Mode, DataPacket, rw_packet}
use cpp_tftp.Tftp.Serialise.{serialise_rw_packet, serialise_data_packet}
use cpp_tftp.File.Stream.{ReadStream}
use cpp_tftp.File.ReadFile.Loops.{IsGood}
use cpp_tftp.Net.Udp.{Address, SendResult, send_done, datagram_from}
use cpp_tftp.Net.Timer.{TimerRead, has_expired}
use cpp_tftp.Server.Connection.{Connection}
use cpp_tftp.Server.Connection.Host.{Host}
use cpp_tftp.Server.Connection.Create.{create}
use cpp_tftp.Server.Connection.Access.{IsAllowed}
use cpp_tftp.Server.Connection.Transfer.{serve}
use cpp_tftp.Server.Connection.Transfer.Complete.{packets}
use cpp_tftp.Server.Connection.Transfer.Request.{create-Served}
use cpp_tftp.Client.GetFile.{got, get_file}
use cpp_tftp.Client.GetFile.Complete.{ready, replies, acks, get_file-data_blocks}

-- A file that is sent by a connection and got by the client.
pub record Downloads (h : Host) (filename : Bytes) (client server : Address) (d : Bytes)
    (r : SendResult) (t : TimerRead) (f : ℕ) : Type 0 where
  pub start : Connection
  pub end : Connection
  pub first : DataPacket
  pub others : List DataPacket
  pub created : create h (rw_packet filename PacketType.read Mode.octet) client ≡ ok start
  pub served : serve (suc f) r t start ≡ ok (end, packets (first ∷ others))
  pub finished : end.finished ≡ true
  pub gets :
      get_file filename Mode.octet true
        (ok tt)
        ready
        (datagram_from server (serialise_data_packet first))
        (replies others)
      ≡ ok (
          got true d (
            serialise_rw_packet (rw_packet filename PacketType.read Mode.octet)
            ∷ acks (first ∷ others)))

-- A file that exists below the root and can be opened, on a device that does not fail, in octet
-- mode and of any length: the packets that the server sends for it make the client write exactly
-- that file and return true, and the acknowledgements of these packets finish the connection. The
-- socket can be set up, each packet arrives, and no timer runs out.
pub get_file-serve :
    (h : Host) (filename : Bytes) (client server : Address) (s : ReadStream) (r : SendResult)
    (t : TimerRead) (f : ℕ)
    → h.socket ≡ ok tt
    → IsAllowed h filename PacketType.read
    → h.fopen_read filename ≡ some s
    → IsGood s
    → send_done r ≡ true
    → has_expired t ≡ false
    → length s.rest < suc f
    → Downloads h filename client server s.rest r t f
get_file-serve h filename client server s r t f socket allowed file good sends on_time fuel =
    let request = rw_packet filename PacketType.read Mode.octet in
    let (made, transfer) =
      create-Served h request client s r t (suc f) socket refl refl allowed file good sends on_time
        fuel in
    let (p, ps, blocks, gets) = get_file-data_blocks filename server s.rest f fuel in
    record {
      start = _;
      end = transfer.last;
      first = p;
      others = ps;
      created = made;
      served = transfer.runs ∙ ap (λ q. ok (transfer.last, packets q)) blocks;
      finished = transfer.last_finished;
      gets = gets;
    }
