-- ===== src/Client/GetFile/Complete.antt =====
-- `get_file` against the blocks that a server sends.
use cpp_tftp.Common.{
  ℕ, zero, suc, ◌<◌, ◌≤◌, ◌≡◌, refl, sym, ap, ap₂, ◌∙◌, true, false, inl, inr, List, [], ◌∷◌, ◌++◌,
  append_assoc, map, none, some, arith, ltb, ltb→lt, ltb→le, lt→ltb, le→ltb, ◌==◌, ==_refl,
  if◌then◌else◌, Bool-cases, length, take, drop, length-take, length-drop, take_of_le,
  take-append-drop, Bytes,
}
use cpp_tftp.Common.Outcome.{ok, ok-injective, ◌>>=◌}
use cpp_tftp.Tftp.Types.{Mode, PacketType, DataPacket, rw_packet}
use cpp_tftp.Tftp.Serialise.{serialise_rw_packet, serialise_data_packet, serialise_ack_packet}
use cpp_tftp.Tftp.Deserialise.{deserialise_data_packet}
use cpp_tftp.Tftp.RoundTrip.{deserialise_data_packet-serialise_data_packet}
use cpp_tftp.Net.Udp.{Address, datagram, datagram_from, recv, recv_from}
use cpp_tftp.Server.Connection.Read.{next_block}
use cpp_tftp.Server.Connection.Transfer.{data_blocks}
use cpp_tftp.Client.{Polled, Exchange, positive}
use cpp_tftp.Client.GetFile.{got, decode, receive_blocks, first_block, get_file}

abbrev pub ready : Polled
ready = record { ret = positive; pollout = true }

-- Each block comes when it is waited for.
abbrev pub replies : List DataPacket → List Exchange
replies ps = map (λ p. record { polled = ready; received = datagram (serialise_data_packet p) }) ps

abbrev pub acks : List DataPacket → List Bytes
acks ps = map (λ p. serialise_ack_packet (record { block_number = p.block_number })) ps

recv_block :
    (p : DataPacket)
    → length p.payload ≤ 512
    → recv 516 (datagram (serialise_data_packet p)) ≡ ok (serialise_data_packet p)
unfolding recv serialise_data_packet
recv_block p h = ap ok (take_of_le 516 (serialise_data_packet p) (omega (arith, h)))

ack_of : ℕ → Bytes
ack_of b = serialise_ack_packet (record { block_number = b })

receive_last :
    (b : ℕ) (p : DataPacket) (out : Bytes) (sent : List Bytes)
    → ltb (length p.payload) 512 ≡ true
    → receive_blocks Mode.octet b p out sent []
      ≡ ok (got true (out ++ p.payload) (sent ++ ack_of b ∷ []))
unfolding receive_blocks decode ack_of
receive_last b p out sent h = rw h

receive_next :
    (b : ℕ) (p q : DataPacket) (out : Bytes) (sent : List Bytes) (xs : List Exchange)
    → ltb (length p.payload) 512 ≡ false
    → length q.payload ≤ 512
    → q.block_number ≡ next_block b
    → receive_blocks Mode.octet b p out sent
        (record { polled = ready; received = datagram (serialise_data_packet q) } ∷ xs)
      ≡ receive_blocks Mode.octet (next_block b) q (out ++ p.payload) (sent ++ ack_of b ∷ []) xs
unfolding receive_blocks decode ack_of
receive_next b p q out sent xs full size number =
    let same : (q.block_number == next_block b) ≡ true =
      ap (λ n. n == next_block b) number ∙ ==_refl (next_block b) in
    rw
      (
        full,
        recv_block q size,
        deserialise_data_packet-serialise_data_packet q (omega (arith, number)),
      )
      (ap
        (λ o. elim o [
          | none ↦ ok (got false (out ++ p.payload) (sent ++ ack_of b ∷ []))
          | some packet ↦
              receive_blocks Mode.octet (next_block b) packet (out ++ p.payload)
                (sent ++ ack_of b ∷ []) xs
        ])
        (ap (λ t. if t then some q else none) same))

-- The blocks after the first of d.
unfoldable pub later_blocks : ℕ → ℕ → Bytes → List DataPacket
later_blocks f b d =
    if ltb (length d) 512 then [] else data_blocks f 512 (next_block b) (drop 512 d)

unfoldable pub first_of : ℕ → Bytes → DataPacket
first_of b d = record { payload = take 512 d; block_number = b }

pub data_blocks_first :
    (f b : ℕ) (d : Bytes) → data_blocks (suc f) 512 b d ≡ first_of b d ∷ later_blocks f b d
unfolding data_blocks first_of later_blocks
data_blocks_first f b d = refl

receive_short :
    (f b : ℕ) (d out : Bytes) (sent : List Bytes)
    → ltb (length d) 512 ≡ true
    → receive_blocks Mode.octet b (first_of b d) out sent (replies (later_blocks f b d))
      ≡ ok (got true (out ++ d) (sent ++ acks (first_of b d ∷ later_blocks f b d)))
unfolding first_of later_blocks ack_of
receive_short f b d out sent short =
    let whole : take 512 d ≡ d = take_of_le 512 d (omega (arith, ltb→lt _ _ short)) in
    rw short (
      receive_last b (first_of b d) out sent (ap (λ e. ltb (length e) 512) whole ∙ short)
      ∙ ap (λ e. ok (got true (out ++ e) (sent ++ ack_of b ∷ []))) whole)

pub later_blocks_full :
    (f b : ℕ) (d : Bytes)
    → ltb (length d) 512 ≡ false
    → later_blocks (suc f) b d
      ≡ first_of (next_block b) (drop 512 d) ∷ later_blocks f (next_block b) (drop 512 d)
unfolding later_blocks first_of data_blocks
later_blocks_full f b d full = rw full

receive_data_blocks :
    (f b : ℕ) (d out : Bytes) (sent : List Bytes)
    → length d < suc f
    → receive_blocks Mode.octet b (first_of b d) out sent (replies (later_blocks f b d))
      ≡ ok (got true (out ++ d) (sent ++ acks (first_of b d ∷ later_blocks f b d)))
unfolding ack_of first_of
receive_data_blocks zero b d out sent h =
    receive_short zero b d out sent (lt→ltb _ _ (omega (arith, h)))
receive_data_blocks (suc g) b d out sent h = elim (Bool-cases (ltb (length d) 512)) [
  | inl short ↦ receive_short (suc g) b d out sent short
  | inr full ↦
      let b' = next_block b in
      let d' = drop 512 d in
      let sent' = sent ++ ack_of b ∷ [] in
      let long : length (take 512 d) ≡ 512 = omega (arith, length-take 512 d, ltb→le _ _ full) in
      ap (λ ps. receive_blocks Mode.octet b (first_of b d) out sent (replies ps))
        (later_blocks_full g b d full)
      ∙ receive_next b (first_of b d) (first_of b' d') out sent (replies (later_blocks g b' d'))
          (le→ltb _ _ (omega (arith, long))) (omega (arith, length-take 512 d')) refl
      ∙ receive_data_blocks g b' d' (out ++ take 512 d) sent'
          (omega (arith, h, length-drop 512 d, ltb→le _ _ full))
      ∙ ap₂ (λ file sent. ok (got true file sent))
          (append_assoc out (take 512 d) d' ∙ ap (λ e. out ++ e) (take-append-drop 512 d))
          (append_assoc sent (ack_of b ∷ []) (acks (first_of b' d' ∷ later_blocks g b' d'))
            ∙ ap (λ ps. sent ++ acks (first_of b d ∷ ps)) (sym (later_blocks_full g b d full)))
]

-- The client that is sent the blocks of 512 bytes of a file, in octet mode and with a file that it
-- can open, writes that file, acknowledges each block once and in order, and returns true. `suc f`
-- is more than the length of the file.
pub get_file-data_blocks :
    (filename : Bytes) (server : Address) (d : Bytes) (f : ℕ)
    → length d < suc f
    → (p : DataPacket) × (ps : List DataPacket) × (data_blocks (suc f) 512 1 d ≡ p ∷ ps)
      × (get_file filename Mode.octet true
            (ok tt)
            ready
            (datagram_from server (serialise_data_packet p))
            (replies ps)
          ≡ ok (
              got true d (
                serialise_rw_packet (rw_packet filename PacketType.read Mode.octet)
                ∷ acks (p ∷ ps))))
unfolding get_file first_block recv recv_from first_of
get_file-data_blocks filename server d f h =
    let p = first_of 1 d in
    let ps = later_blocks f 1 d in
    let datagram_1 = serialise_data_packet p in
    let request = serialise_rw_packet (rw_packet filename PacketType.read Mode.octet) ∷ [] in
    (
      p,
      ps,
      data_blocks_first f 1 d,
      ap
            (λ e. deserialise_data_packet e >>= λ o.
              first_block Mode.octet true (ok tt) e o request (replies ps))
            (ok-injective (recv_block p (omega (arith, length-take 512 d))))
          ∙ ap
              (λ m.
                m >>= λ o. first_block Mode.octet true (ok tt) datagram_1 o request (replies ps))
              (deserialise_data_packet-serialise_data_packet p (omega arith))
          ∙ receive_data_blocks f 1 d [] request h,
    )
