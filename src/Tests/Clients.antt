-- ===== src/Tests/Clients.antt =====
-- Tests of the client.
use cpp_tftp.Common.{
  ℕ, ◌≡◌, refl, true, false, [], ◌∷◌, some, arith, length, replicate, Bytes, codes,
}
use cpp_tftp.Common.Outcome.{ok}
use cpp_tftp.Tftp.Types.{Mode, PacketType, rw_packet}
use cpp_tftp.Tftp.Serialise.{serialise_rw_packet, serialise_ack_packet}
use cpp_tftp.Net.Udp.{datagram_from}
use cpp_tftp.Server.Connection.Transfer.{data_blocks}
use cpp_tftp.Client.GetFile.Complete.{ready}
use cpp_tftp.Client.SendFile.{done, send_file}
use cpp_tftp.Client.SendFile.Complete.{
  fresh, answers, datagrams, send_file-data_blocks, send_file_short,
}
use cpp_tftp.Tests.{client}

-- A file of a block and nothing more: a second block, which is empty, ends the transfer.
abbrev zeros : Bytes
zeros = replicate 512 0

two_blocks : length {A = ℕ} (7 ∷ 7 ∷ []) ≡ length (data_blocks 513 512 1 zeros)
unfolding data_blocks
two_blocks = refl

send_file-data_blocks_example :
    send_file
      (codes "f")
      Mode.octet
      (some (fresh zeros))
      (ok tt)
      ready
      (datagram_from client (serialise_ack_packet (record { block_number = 0 })))
      (answers (7 ∷ 7 ∷ []))
    ≡ ok (
        done true (
          serialise_rw_packet (rw_packet (codes "f") PacketType.write Mode.octet)
          ∷ datagrams (data_blocks 513 512 1 zeros)))
send_file-data_blocks_example =
    send_file-data_blocks (codes "f") client zeros 512 (7 ∷ 7 ∷ []) (omega arith) (omega arith)
      (ground arith) two_blocks

send_file_short_example :
    send_file
      (codes "f")
      Mode.octet
      (some (fresh (1 ∷ 2 ∷ [])))
      (ok tt)
      ready
      (datagram_from client (serialise_ack_packet (record { block_number = 0 })))
      []
    ≡ ok (done false (serialise_rw_packet (rw_packet (codes "f") PacketType.write Mode.octet) ∷ []))
send_file_short_example = send_file_short (codes "f") client (1 ∷ 2 ∷ []) [] (omega arith)
