-- ===== src/Tftp/Deserialise/Total.antt =====
-- Whether a datagram can make a parser throw, or read outside its buffer.
use cpp_tftp.Common.{
  ℕ, zero, suc, ◌<◌, ◌%◌, ◌≡◌, ◌≤◌, refl, List, [], ◌∷◌, none, Bool, true, false, inl, inr, arith,
  ltb, ltb→le, le→ltb, ◌==◌, if◌then◌else◌, Bool-cases, Option-cases, length, Bytes,
}
use cpp_tftp.Common.Outcome.{Outcome, ok, ◌>>=◌, at}
use cpp_tftp.Tftp.Deserialise.Forms.{
  deserialise_data_packet_long, deserialise_data_packet_short, deserialise_ack_packet_long,
  deserialise_ack_packet_short, deserialise_error_packet_long, deserialise_error_packet_short,
}
use cpp_tftp.Utils.CStrings.{extract_c_strings_from_buffer}
use cpp_tftp.Tftp.Modes.{string_to_mode_t}
use cpp_tftp.Tftp.Types.{PacketType}
use cpp_tftp.Tftp.Deserialise.{
  deserialise_rw_packet, deserialise_data_packet, deserialise_ack_packet, deserialise_error_packet,
  deserialise_oack_packet, option_pairs, rw_packet_of, oack_packet_of, read_or_write,
}

-- The code returns: it neither throws nor runs into undefined behaviour.
abbrev pub Returns {ℓ} : {A : Type ℓ} → Outcome A → Type ℓ
Returns {A} m = (a : A) × (m ≡ ok a)

Returns-bind {ℓ κ} :
    {A : Type ℓ} {B : Type κ} (m : Outcome A) (f : A → Outcome B)
    → Returns m
    → ((a : A) → Returns (f a))
    → Returns (m >>= f)
Returns-bind m f (a, e) h = rw e (h a)

Returns-if {ℓ} :
    {A : Type ℓ} (b : Bool) (m n : Outcome A)
    → Returns m
    → (b ≡ false → Returns n)
    → Returns (if b then m else n)
Returns-if true m n h k = h
Returns-if false m n h k = k refl

at-Returns {ℓ} : {A : Type ℓ} (xs : List A) (i : ℕ) → i < length xs → Returns (at xs i)
unfolding at
at-Returns [] i h = absurd (omega arith)
at-Returns (x ∷ xs) zero h = (x, refl)
at-Returns (x ∷ xs) (suc i) h = at-Returns xs i (omega arith)

extract-Returns :
    (d : Bytes) (offset : ℕ) → offset ≤ length d → Returns (extract_c_strings_from_buffer d offset)
unfolding extract_c_strings_from_buffer
extract-Returns d offset h = rw (le→ltb _ _ h) (_, refl)

option_pairs-Returns :
    (params : List Bytes) → (length params % 2 == 0) ≡ true → Returns (option_pairs params)
unfolding option_pairs
option_pairs-Returns [] h = ([], refl)
option_pairs-Returns (a ∷ []) h = cc h
option_pairs-Returns (a ∷ b ∷ rest) h =
    let (pairs, e) = option_pairs-Returns rest (ground arith) in rw e ((a, b) ∷ pairs, refl)

rw_packet_of-Returns :
    (type : PacketType) (params : List Bytes) → Returns (rw_packet_of type params)
unfolding rw_packet_of
rw_packet_of-Returns type [] = (none, refl)
rw_packet_of-Returns type (a ∷ []) = (none, refl)
rw_packet_of-Returns type (filename ∷ mode_str ∷ rest) =
    elim (Option-cases (string_to_mode_t mode_str)) [
      | inl e ↦ rw (e, rw_packet_of) (none, refl)
      | inr (m, e) ↦
          rw (e, rw_packet_of)
            (elim (Bool-cases (length (filename ∷ mode_str ∷ rest) % 2 == 0)) [
              | inl even ↦
                  rw even
                    (Returns-bind _ _ (option_pairs-Returns rest (ground arith)) (λ ps. (_, refl)))
              | inr odd ↦ rw odd (_, refl)
            ])
    ]

oack_packet_of-Returns : (params : List Bytes) → Returns (oack_packet_of params)
unfolding oack_packet_of
oack_packet_of-Returns params = elim (Bool-cases (length params % 2 == 0)) [
  | inl even ↦ rw even (Returns-bind _ _ (option_pairs-Returns params even) (λ ps. (_, refl)))
  | inr odd ↦ rw odd (_, refl)
]

-- The shape that the five share: a test of the size, a test of the opcode, and the rest.
guarded-Returns {ℓ} :
    {A : Type ℓ} (d : Bytes) (n : ℕ) (refused : ℕ → Bool) (m : Outcome A) (k : ℕ → Outcome A)
    → Returns m
    → 1 < n
    → (n ≤ length d → (c : ℕ) → Returns (k c))
    → Returns (if ltb (length d) n then m else (at d 1 >>= λ c. if refused c then m else k c))
guarded-Returns d n refused m k r h go = Returns-if _ _ _ r (λ long.
    let size : n ≤ length d = ltb→le (length d) n long in
    Returns-bind _ _ (at-Returns d 1 (omega arith)) (λ c. Returns-if _ _ _ r (λ _. go size c)))

pub data_packet-Returns : (d : Bytes) → Returns (deserialise_data_packet d)
data_packet-Returns (z ∷ c ∷ h ∷ l ∷ rest) = (_, deserialise_data_packet_long z c h l rest)
data_packet-Returns [] = (none, deserialise_data_packet_short _ (omega arith))
data_packet-Returns _ = (none, deserialise_data_packet_short _ (omega arith))

ack_packet-Returns : (d : Bytes) → Returns (deserialise_ack_packet d)
ack_packet-Returns (z ∷ c ∷ h ∷ l ∷ rest) = (_, deserialise_ack_packet_long z c h l rest)
ack_packet-Returns [] = (none, deserialise_ack_packet_short _ (omega arith))
ack_packet-Returns _ = (none, deserialise_ack_packet_short _ (omega arith))

error_packet-Returns : (d : Bytes) → Returns (deserialise_error_packet d)
error_packet-Returns (z ∷ c ∷ h ∷ l ∷ x ∷ rest) = (_, deserialise_error_packet_long z c h l x rest)
error_packet-Returns [] = (none, deserialise_error_packet_short _ (omega arith))
error_packet-Returns _ = (none, deserialise_error_packet_short _ (omega arith))

-- Every datagram, of any length and any bytes, gets an answer from each of the five parsers.
pub deserialise-Returns :
    (d : Bytes)
    → Returns (deserialise_rw_packet d)
      × Returns (deserialise_data_packet d)
      × Returns (deserialise_ack_packet d)
      × Returns (deserialise_error_packet d)
      × Returns (deserialise_oack_packet d)
unfolding deserialise_rw_packet deserialise_oack_packet
deserialise-Returns d = (
  guarded-Returns d 4 _ _ _ (_, refl) (omega arith)
      (λ h c.
        Returns-bind _ _ (extract-Returns d 2 (omega arith))
          (rw_packet_of-Returns (read_or_write c))),
  data_packet-Returns d,
  ack_packet-Returns d,
  error_packet-Returns d,
  guarded-Returns d 2 _ _ _ (_, refl) (omega arith)
      (λ h _. Returns-bind _ _ (extract-Returns d 2 h) oack_packet_of-Returns),
)
