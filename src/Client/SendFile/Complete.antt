-- ===== src/Client/SendFile/Complete.antt =====
-- `send_file` with a server that answers every block.
use cpp_tftp.Common.{
  ℕ, zero, suc, ◌<◌, ◌≤◌, ◌≡◌, refl, sym, ap, ◌∙◌, true, false, not, ◌&&◌, inl, inr, List, [], ◌∷◌,
  ◌++◌, append_assoc, map, some, arith, ltb, ltb→lt, ltb→le, lt→ltb, le→ltb, ==_refl, if◌then◌else◌,
  Bool-cases, length, take, drop, All, length-take, length-drop, take_of_le, Bytes,
}
use cpp_tftp.Common.Outcome.{ok}
use cpp_tftp.Tftp.Types.{Mode, PacketType, DataPacket, rw_packet}
use cpp_tftp.Tftp.Serialise.{serialise_rw_packet, serialise_data_packet, serialise_ack_packet}
use cpp_tftp.Tftp.RoundTrip.{deserialise_ack_packet-serialise_ack_packet}
use cpp_tftp.Net.Udp.{Address, datagram, datagram_from, recv, recv_from}
use cpp_tftp.Server.Connection.Read.{next_block}
use cpp_tftp.Server.Connection.Transfer.{data_blocks}
use cpp_tftp.Client.{Exchange}
use cpp_tftp.Client.GetFile.Complete.{
  ready, first_of, later_blocks, later_blocks_full, data_blocks_first,
}
use cpp_tftp.Client.SendFile.{
  InFile, read, failed, done, check_ack, send_blocks, send_first, send_opened, first_ack, send_file,
}

-- An acknowledgement of some number for each block.
abbrev pub answers : List ℕ → List Exchange
answers ns =
    map
      (λ n. record {
        polled = ready;
        received = datagram (serialise_ack_packet (record { block_number = n }));
      })
      ns

abbrev pub datagrams : List DataPacket → List Bytes
datagrams ps = map serialise_data_packet ps

-- A file that was just opened, and whose device does not break.
abbrev pub fresh : Bytes → InFile
fresh d = record { rest = d; breaks = false; eofbit = false; failbit = false; badbit = false }

-- The file once its first block, or all of it, was read.
abbrev after_first : Bytes → InFile
after_first d =
    if ltb (length d) 512
    then record { rest = []; breaks = false; eofbit = true; failbit = true; badbit = false }
    else fresh (drop 512 d)

read-fresh : (d : Bytes) → read 512 (fresh d) ≡ (take 512 d, after_first d)
unfolding read
read-fresh d = elim (Bool-cases (ltb (length d) 512)) [
  | inl short ↦
      rw short (ap (λ e. (e, after_end)) (sym (take_of_le 512 d (omega (arith, ltb→lt _ _ short)))))
  | inr full ↦ rw full
]
  where
    after_end : InFile
    after_end = record { rest = []; breaks = false; eofbit = true; failbit = true; badbit = false }

packet_of : Bytes → ℕ → DataPacket
packet_of block b = record { payload = block; block_number = next_block b }

-- A round in which the block is acknowledged with any number.
send_round :
    (p : DataPacket) (b n : ℕ) (s s' : InFile) (block : Bytes) (sent : List Bytes)
    (xs : List Exchange)
    → read 512 s ≡ (block, s')
    → (failed s' && not s'.eofbit) ≡ false
    → n < 65536
    → let sent' = sent ++ serialise_data_packet p ∷ [] in
      send_blocks Mode.octet p b s sent (
        record {
          polled = ready;
          received = datagram (serialise_ack_packet (record { block_number = n }));
        }
        ∷ xs)
      ≡ (if ltb (length p.payload) 512
          then ok (done true sent')
          else send_blocks Mode.octet (packet_of block b) (next_block b) s' sent' xs)
unfolding send_blocks check_ack packet_of recv serialise_ack_packet
send_round p b n s s' block sent xs reads fine small = rw (
  reads,
  fine,
  deserialise_ack_packet-serialise_ack_packet (record { block_number = n }) small,
  ==_refl (next_block b),
)

at_end : InFile
at_end = record { rest = []; breaks = false; eofbit = true; failbit = true; badbit = false }

read_at_end : read 512 at_end ≡ ([], at_end)
unfolding read at_end
read_at_end = refl

after_first-fine : (d : Bytes) → (failed (after_first d) && not (after_first d).eofbit) ≡ false
after_first-fine d = ground arith

payload_short : (d : Bytes) → ltb (length d) 512 ≡ true → ltb (length (take 512 d)) 512 ≡ true
payload_short d h = lt→ltb _ _ (omega (arith, length-take 512 d, ltb→lt _ _ h))

payload_full : (d : Bytes) → ltb (length d) 512 ≡ false → ltb (length (take 512 d)) 512 ≡ false
payload_full d h = le→ltb _ _ (omega (arith, length-take 512 d, ltb→le _ _ h))

send_last :
    (f b n : ℕ) (d : Bytes) (sent : List Bytes) (xs : List Exchange)
    → ltb (length d) 512 ≡ true
    → n < 65536
    → send_blocks Mode.octet (first_of b d) b (after_first d) sent (
        record {
          polled = ready;
          received = datagram (serialise_ack_packet (record { block_number = n }));
        }
        ∷ xs)
      ≡ ok (done true (sent ++ datagrams (first_of b d ∷ later_blocks f b d)))
unfolding first_of later_blocks at_end
send_last f b n d sent xs short small = rw short (
    send_round (first_of b d) b n at_end at_end [] sent xs read_at_end refl small
    ∙ rw (payload_short d short))

send_rest :
    (f b : ℕ) (d : Bytes) (sent : List Bytes) (ns : List ℕ)
    → length d < suc f
    → All (λ n. n < 65536) ns
    → length ns ≡ length (first_of b d ∷ later_blocks f b d)
    → send_blocks Mode.octet (first_of b d) b (after_first d) sent (answers ns)
      ≡ ok (done true (sent ++ datagrams (first_of b d ∷ later_blocks f b d)))
unfolding first_of packet_of
send_rest f b d sent [] h small count = absurd (omega (arith, count))
send_rest zero b d sent (n ∷ ns) h small count =
    send_last zero b n d sent (answers ns) (lt→ltb _ _ (omega (arith, h))) small.0
send_rest (suc g) b d sent (n ∷ ns) h small count = elim (Bool-cases (ltb (length d) 512)) [
  | inl short ↦ send_last (suc g) b n d sent (answers ns) short small.0
  | inr full ↦
      let b' = next_block b in
      let d' = drop 512 d in
      let p = first_of b d in
      let blocks = later_blocks_full g b d full in
      ap (λ s. send_blocks Mode.octet p b s sent (answers (n ∷ ns))) (after_full d full)
      ∙ send_round p b n (fresh d') (after_first d') (take 512 d') sent (answers ns) (read-fresh d')
          (after_first-fine d') small.0
      ∙ ap
          (λ t.
            if t
            then ok (done true (sent ++ serialise_data_packet p ∷ []))
            else send_blocks Mode.octet (first_of b' d') b' (after_first d')
                (sent ++ serialise_data_packet p ∷ []) (answers ns))
          (payload_full d full)
      ∙ send_rest g b' d' (sent ++ serialise_data_packet p ∷ []) ns
          (omega (arith, h, length-drop 512 d, ltb→le _ _ full)) small.1
          (omega (arith, count, ap (λ ps. length ps) blocks))
      ∙ ap (λ s. ok (done true s))
          (append_assoc sent (serialise_data_packet p ∷ [])
              (datagrams (first_of b' d' ∷ later_blocks g b' d'))
            ∙ ap (λ ps. sent ++ datagrams (p ∷ ps)) (sym blocks))
]
  where
    after_full : (d : Bytes) → ltb (length d) 512 ≡ false → after_first d ≡ fresh (drop 512 d)
    after_full d full = rw full

-- What `send_file` does once the server has answered the request with an acknowledgement of 0.
send_file_answered :
    (filename : Bytes) (server : Address) (d : Bytes) (xs : List Exchange)
    → let request = serialise_rw_packet (rw_packet filename PacketType.write Mode.octet) ∷ [] in
      send_file filename Mode.octet
        (some (fresh d))
        (ok tt)
        ready
        (datagram_from server (serialise_ack_packet (record { block_number = 0 })))
        xs
      ≡ (if failed (after_first d)
          then ok (done false request)
          else send_blocks Mode.octet (first_of 1 d) 1 (after_first d) request xs)
unfolding send_file first_ack send_opened send_first recv_from serialise_ack_packet first_of
send_file_answered filename server d xs = rw (
  deserialise_ack_packet-serialise_ack_packet (record { block_number = 0 }) (omega arith),
  read-fresh d,
)

-- A file of 512 bytes or more that can be opened, on a device that does not fail, in octet mode:
-- the client sends its blocks in order, each once, and returns true, whatever block numbers the
-- acknowledgements have, as long as one comes for each and the request is answered with number 0.
-- `suc f` is more than the length of the file.
pub send_file-data_blocks :
    (filename : Bytes) (server : Address) (d : Bytes) (f : ℕ) (ns : List ℕ)
    → 512 ≤ length d
    → length d < suc f
    → All (λ n. n < 65536) ns
    → length ns ≡ length (data_blocks (suc f) 512 1 d)
    → send_file filename Mode.octet
        (some (fresh d))
        (ok tt)
        ready
        (datagram_from server (serialise_ack_packet (record { block_number = 0 })))
        (answers ns)
      ≡ ok (
          done true (
            serialise_rw_packet (rw_packet filename PacketType.write Mode.octet)
            ∷ datagrams (data_blocks (suc f) 512 1 d)))
send_file-data_blocks filename server d f ns long h small count =
    let request = serialise_rw_packet (rw_packet filename PacketType.write Mode.octet) ∷ [] in
    let blocks = data_blocks_first f 1 d in
    let opens : failed (after_first d) ≡ false = rw (le→ltb (length d) 512 long) in
    send_file_answered filename server d (answers ns)
    ∙ ap
        (λ t.
          if t
          then ok (done false request)
          else send_blocks Mode.octet (first_of 1 d) 1 (after_first d) request (answers ns))
        opens
    ∙ send_rest f 1 d request ns h small (count ∙ ap (λ ps. length ps) blocks)
    ∙ ap (λ ps. ok (done true (request ++ datagrams ps))) (sym blocks)

-- A file of less than 512 bytes, in octet mode: the read of the first block reaches its end, which
-- counts as an error. The client returns false, and has sent nothing after its request.
pub send_file_short :
    (filename : Bytes) (server : Address) (d : Bytes) (xs : List Exchange)
    → length d < 512
    → send_file filename Mode.octet
        (some (fresh d))
        (ok tt)
        ready
        (datagram_from server (serialise_ack_packet (record { block_number = 0 })))
        xs
      ≡ ok (done false (serialise_rw_packet (rw_packet filename PacketType.write Mode.octet) ∷ []))
send_file_short filename server d xs h =
    let request = serialise_rw_packet (rw_packet filename PacketType.write Mode.octet) ∷ [] in
    let ended : failed (after_first d) ≡ true = rw (lt→ltb (length d) 512 h) in
    send_file_answered filename server d xs
    ∙ ap
        (λ t.
          if t
          then ok (done false request)
          else send_blocks Mode.octet (first_of 1 d) 1 (after_first d) request xs)
        ended
