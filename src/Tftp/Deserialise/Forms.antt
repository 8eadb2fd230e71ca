-- ===== src/Tftp/Deserialise/Forms.antt =====
-- What the three parsers of numbered packets compute to, on a long and on a short datagram.
use cpp_tftp.Common.{
  ℕ, ◌<◌, ◌≡◌, ◌∷◌, none, some, arith, lt→ltb, ◌==◌, if◌then◌else◌, length, Bytes,
}
use cpp_tftp.Common.Outcome.{ok, at}
use cpp_tftp.Tftp.Types.{DataPacket, AckPacket}
use cpp_tftp.Tftp.Deserialise.{
  deserialise_data_packet, deserialise_ack_packet, deserialise_error_packet, word_of, before_null,
  error_packet_at,
}

abbrev pub data_packet_at : ℕ → ℕ → Bytes → DataPacket
data_packet_at high low rest = record { payload = rest; block_number = word_of high low }

abbrev pub ack_packet_at : ℕ → ℕ → AckPacket
ack_packet_at high low = record { block_number = word_of high low }

pub deserialise_data_packet_long :
    (z c high low : ℕ) (rest : Bytes)
    → deserialise_data_packet (z ∷ c ∷ high ∷ low ∷ rest)
      ≡ ok (if c == 3 then some (data_packet_at high low rest) else none)
unfolding deserialise_data_packet at
deserialise_data_packet_long z c high low rest = ground arith

pub deserialise_data_packet_short : (d : Bytes) → length d < 4 → deserialise_data_packet d ≡ ok none
unfolding deserialise_data_packet
deserialise_data_packet_short d h = rw (lt→ltb (length d) 4 h)

pub deserialise_ack_packet_long :
    (z c high low : ℕ) (rest : Bytes)
    → deserialise_ack_packet (z ∷ c ∷ high ∷ low ∷ rest)
      ≡ ok (if c == 4 then some (ack_packet_at high low) else none)
unfolding deserialise_ack_packet at
deserialise_ack_packet_long z c high low rest = ground arith

pub deserialise_ack_packet_short : (d : Bytes) → length d < 4 → deserialise_ack_packet d ≡ ok none
unfolding deserialise_ack_packet
deserialise_ack_packet_short d h = rw (lt→ltb (length d) 4 h)

pub deserialise_error_packet_long :
    (z c high low x : ℕ) (rest : Bytes)
    → deserialise_error_packet (z ∷ c ∷ high ∷ low ∷ x ∷ rest)
      ≡ ok (if c == 5 then error_packet_at high low (before_null (x ∷ rest)) else none)
unfolding deserialise_error_packet at
deserialise_error_packet_long z c high low x rest = ground arith

pub deserialise_error_packet_short :
    (d : Bytes) → length d < 5 → deserialise_error_packet d ≡ ok none
unfolding deserialise_error_packet
deserialise_error_packet_short d h = rw (lt→ltb (length d) 5 h)
