-- ===== src/Tftp/RoundTrip.antt =====
-- Reading back what was serialised: the packets with a block number, and the error packet.
pub mod Strings
use cpp_tftp.Common.{
  ℕ, ◌<◌, ◌≤◌, ◌+◌, ◌*◌, ◌%◌, ◌≡◌, refl, sym, ap, subst, ◌∙◌, ==_iff, [], ◌∷◌, ◌++◌, none, some,
  false, inl, inr, arith, ltb, ltb→lt, lt→ltb, le→ltb, ltb→le, ◌==◌, if◌then◌else◌, Bool-cases,
  length, Bytes, IsBytes, sign_extend,
}
use cpp_tftp.Common.Words.{bit_and_low_byte, bit_or_word, bit_or_extended}
use cpp_tftp.Common.Outcome.{ok}
use cpp_tftp.Utils.CStrings.{HasNoNull}
use cpp_tftp.Tftp.Types.{DataPacket, AckPacket, ErrorPacket}
use cpp_tftp.Tftp.Serialise.{
  serialise_data_packet, serialise_ack_packet, serialise_error_packet, high_byte, low_byte,
}
use cpp_tftp.Tftp.Deserialise.{
  deserialise_data_packet, deserialise_ack_packet, deserialise_error_packet, word_of, before_null,
  error_packet_at,
}
use cpp_tftp.Tftp.Deserialise.Forms.{
  data_packet_at, deserialise_data_packet_long, deserialise_data_packet_short,
  deserialise_ack_packet_long, deserialise_error_packet_long,
}

pub word_of_bytes : (w : ℕ) → w < 65536 → word_of (high_byte w) (low_byte w) ≡ w
word_of_bytes w h =
    omega (arith, bit_and_low_byte w, bit_or_word (high_byte w) (low_byte w) (omega arith))

bytes_of_word :
    (h l : ℕ) → h < 256 → l < 256 → (high_byte (word_of h l) ≡ h) × (low_byte (word_of h l) ≡ l)
bytes_of_word h l p q = omega (arith, bit_and_low_byte (word_of h l), bit_or_word h l q)

-- A data packet is read back from its bytes.
pub deserialise_data_packet-serialise_data_packet :
    (p : DataPacket)
    → p.block_number < 65536
    → deserialise_data_packet (serialise_data_packet p) ≡ ok (some p)
unfolding serialise_data_packet
deserialise_data_packet-serialise_data_packet p h =
    deserialise_data_packet_long 0 3 _ _ p.payload
    ∙ ap (λ w. ok (some (record { payload = p.payload; block_number = w })))
        (word_of_bytes p.block_number h)

-- An acknowledgement is read back from its bytes.
pub deserialise_ack_packet-serialise_ack_packet :
    (p : AckPacket)
    → p.block_number < 65536
    → deserialise_ack_packet (serialise_ack_packet p) ≡ ok (some p)
unfolding serialise_ack_packet
deserialise_ack_packet-serialise_ack_packet p h =
    deserialise_ack_packet_long 0 4 _ _ []
    ∙ ap (λ w. ok (some (record { block_number = w }))) (word_of_bytes p.block_number h)

-- What the reader makes of an error number: a lower byte of 128 or more fills the upper byte.
abbrev pub received_code : ℕ → ℕ
received_code code = if ltb (code % 256) 128 then code else 0xff00 + code % 256

signed_word_small :
    (h l : ℕ) → h < 256 → l < 128 → word_of (sign_extend h) (sign_extend l) ≡ h * 256 + l
unfolding sign_extend
signed_word_small h l p q = rw (lt→ltb l 128 q) (elim (Bool-cases (ltb h 128)) [
  | inl e ↦ rw e (omega (arith, bit_or_word h l (omega arith)))
  | inr e ↦ rw e (omega (arith, bit_or_word (h + 0xff00) l (omega arith)))
])

signed_word_large :
    (h l : ℕ) → l < 256 → 128 ≤ l → word_of (sign_extend h) (sign_extend l) ≡ 0xff00 + l
unfolding sign_extend
signed_word_large h l p q =
    rw (le→ltb l 128 q) (omega (arith, bit_or_extended (if ltb h 128 then h else h + 0xff00) l p))

signed_word :
    (code : ℕ)
    → code < 65536
    → word_of (sign_extend (high_byte code)) (sign_extend (low_byte code)) ≡ received_code code
signed_word code h =
    let low : low_byte code ≡ code % 256 = omega (arith, bit_and_low_byte code) in
    rw low (elim (Bool-cases (ltb (code % 256) 128)) [
      | inl small ↦ rw small (
          omega (
            arith,
            signed_word_small (high_byte code) (code % 256) (omega arith) (ltb→lt _ _ small),
          ))
      | inr large ↦
          rw large
            (signed_word_large (high_byte code) (code % 256) (omega arith) (ltb→le _ _ large))
    ])

before_null-append : (s rest : Bytes) → HasNoNull s → before_null (s ++ (0 ∷ rest)) ≡ some s
unfolding before_null
before_null-append [] rest h = refl
before_null-append (c ∷ s) rest h =
    let e : (c == 0) ≡ false = ground arith in rw (e, before_null-append s rest h.1)

error_packet_long :
    (z h l : ℕ) (s : Bytes)
    → HasNoNull s
    → deserialise_error_packet (z ∷ 5 ∷ h ∷ l ∷ (s ++ 0 ∷ [])) ≡ ok (error_packet_at h l (some s))
error_packet_long z h l [] k =
    deserialise_error_packet_long z 5 h l 0 []
    ∙ ap (λ m. ok (error_packet_at h l m)) (before_null-append [] [] k)
error_packet_long z h l (c ∷ s) k =
    deserialise_error_packet_long z 5 h l c (s ++ 0 ∷ [])
    ∙ ap (λ m. ok (error_packet_at h l m)) (before_null-append (c ∷ s) [] k)

-- An error packet keeps its message when that has no null byte, and its number when the lower
-- byte of that is below 128. Otherwise the number that is read has 255 for its upper byte.
pub deserialise_error_packet-serialise_error_packet :
    (p : ErrorPacket)
    → p.error_code < 65536
    → HasNoNull p.error_msg
    → deserialise_error_packet (serialise_error_packet p)
      ≡ ok (some (record p { error_code = received_code p.error_code }))
unfolding serialise_error_packet
deserialise_error_packet-serialise_error_packet p h k =
    error_packet_long 0 _ _ p.error_msg k
    ∙ ap (λ w. ok (some (record { error_msg = p.error_msg; error_code = w })))
        (signed_word p.error_code h)

-- What a datagram says once its first byte is put to 0, which no parser looks at.
abbrev pub with_zero : Bytes → Bytes
with_zero [] = []
with_zero (z ∷ d) = 0 ∷ d

data_packet-inversion :
    (z c h l : ℕ) (rest : Bytes) {p : DataPacket}
    → h < 256
    → l < 256
    → ok (if c == 3 then some (data_packet_at h l rest) else none) ≡ ok (some p)
    → serialise_data_packet p ≡ 0 ∷ c ∷ h ∷ l ∷ rest
unfolding serialise_data_packet
data_packet-inversion z c h l rest {p} bh bl e = elim (Bool-cases (c == 3)) [
  | inl three ↦
      let same : data_packet_at h l rest ≡ p = cc (rw three at e) in
      let (high, low) = bytes_of_word h l bh bl in
      subst (λ p. serialise_data_packet p ≡ 0 ∷ c ∷ h ∷ l ∷ rest) same
        (rw (high, low, (==_iff c 3).0 three))
  | inr other ↦ cc (rw other at e)
]

data_packet-length :
    (d : Bytes) {p : DataPacket} → deserialise_data_packet d ≡ ok (some p) → 4 ≤ length d
data_packet-length d e = elim (Bool-cases (ltb (length d) 4)) [
  | inl short ↦ cc (e, deserialise_data_packet_short d (ltb→lt _ _ short))
  | inr long ↦ ltb→le _ _ long
]

-- A datagram that is accepted as a data packet is that packet's bytes, but for its first byte.
serialise_data_packet-deserialise_data_packet :
    (d : Bytes) {p : DataPacket}
    → IsBytes d
    → deserialise_data_packet d ≡ ok (some p)
    → serialise_data_packet p ≡ with_zero d
serialise_data_packet-deserialise_data_packet (z ∷ c ∷ h ∷ l ∷ rest) b e =
    data_packet-inversion z c h l rest b.1.1.0 b.1.1.1.0
      (sym (deserialise_data_packet_long z c h l rest) ∙ e)
serialise_data_packet-deserialise_data_packet d b e = absurd (omega (arith, data_packet-length d e))
