-- ===== src/Tftp/Deserialise.antt =====
-- The five `deserialise_` functions of src/common/tftp.cpp. Each call of `at` throws out of range,
-- and the search for strings is undefined past the end.
pub mod Total
pub mod Forms
use cpp_tftp.Common.{
  ℕ, ◌*◌, ◌%◌, ◌^◌, List, [], ◌∷◌, Option, none, some, not, ◌&&◌, map, bit_or, ltb, ◌==◌,
  if◌then◌else◌, length, drop, Bytes, toupper, sign_extend, to_u16,
}
use cpp_tftp.Common.Outcome.{Outcome, ok, throw, ◌>>=◌, out_of_range, at}
use cpp_tftp.Utils.CStrings.{extract_c_strings_from_buffer}
use cpp_tftp.Tftp.Types.{
  PacketType, opcode, Mode, Options, RwPacket, OackPacket, DataPacket, AckPacket, ErrorPacket,
}
use cpp_tftp.Tftp.Modes.{string_to_mode_t}

-- `i += 2` over `params.at(i)` and `params.at(i + 1)`.
unfoldable pub option_pairs : List Bytes → Outcome Options
option_pairs [] = ok []
option_pairs (name ∷ []) = throw out_of_range
option_pairs (name ∷ value ∷ rest) = do pairs ← option_pairs rest; ok ((name, value) ∷ pairs)

-- The two calls of `std::transform`.
abbrev pub upper_option : Bytes × Bytes → Bytes × Bytes
upper_option (name, value) = (map toupper name, map toupper value)

-- `static_cast<packet_t>`, at the opcode of a read or of a write request.
abbrev pub read_or_write : ℕ → PacketType
read_or_write c = if c == opcode PacketType.read then PacketType.read else PacketType.write

with_options : PacketType → Bytes → Mode → ℕ → List Bytes → Outcome (Option RwPacket)
with_options type filename mode size rest =
    let packet : RwPacket = record {
      type = type;
      filename = filename;
      mode = mode;
      options = [];
    } in
    if not (size % 2 == 0) then ok (some packet) else do
      pairs ← option_pairs rest
      ok (some (record packet { options = map upper_option pairs }))

-- What follows the call of `extract_c_strings_from_buffer`.
unfoldable pub rw_packet_of : PacketType → List Bytes → Outcome (Option RwPacket)
unfolding with_options
rw_packet_of type (filename ∷ mode_str ∷ rest) = elim (string_to_mode_t mode_str) [
  | none ↦ ok none
  | some mode ↦ with_options type filename mode (length (filename ∷ mode_str ∷ rest)) rest
]
rw_packet_of type _ = ok none

unfoldable pub deserialise_rw_packet : Bytes → Outcome (Option RwPacket)
unfolding rw_packet_of
deserialise_rw_packet d = if ltb (length d) 4 then ok none else do
  type ← at d 1
  if not (type == opcode PacketType.read) && not (type == opcode PacketType.write)
      then ok none
      else do params ← extract_c_strings_from_buffer d 2; rw_packet_of (read_or_write type) params

-- `(high << 8) | low` of two bytes, stored in a `uint16_t`.
abbrev pub word_of : ℕ → ℕ → ℕ
word_of high low = to_u16 (bit_or (high * 2 ^ 8) low)

unfoldable pub deserialise_data_packet : Bytes → Outcome (Option DataPacket)
deserialise_data_packet d = if ltb (length d) 4 then ok none else do
  type ← at d 1
  if not (type == opcode PacketType.data_pkt) then ok none else do
    high ← at d 2
    low ← at d 3
    ok (some (record { payload = drop 4 d; block_number = word_of high low }))

unfoldable pub deserialise_ack_packet : Bytes → Outcome (Option AckPacket)
deserialise_ack_packet d = if ltb (length d) 4 then ok none else do
  type ← at d 1
  if not (type == opcode PacketType.ack)
      then ok none
      else do high ← at d 2; low ← at d 3; ok (some (record { block_number = word_of high low }))

-- The text before the first null byte, if there is one.
unfoldable pub before_null : Bytes → Option Bytes
before_null [] = none
before_null (c ∷ cs) =
    let later : Option Bytes = elim (before_null cs) [ none ↦ none | some s ↦ some (c ∷ s) ] in
    if c == 0 then some [] else later

-- What the packet is once the null byte has been looked for. The bytes of the error number are
-- signed here: each is sign-extended to 16 bits.
abbrev pub error_packet_at : ℕ → ℕ → Option Bytes → Option ErrorPacket
error_packet_at high low none = none
error_packet_at high low (some msg) =
    some (record { error_msg = msg; error_code = word_of (sign_extend high) (sign_extend low) })

unfoldable pub deserialise_error_packet : Bytes → Outcome (Option ErrorPacket)
deserialise_error_packet d = if ltb (length d) 5 then ok none else do
  type ← at d 1
  if not (type == opcode PacketType.error)
      then ok none
      else do high ← at d 2; low ← at d 3; ok (error_packet_at high low (before_null (drop 4 d)))

unfoldable pub oack_packet_of : List Bytes → Outcome (Option OackPacket)
oack_packet_of params =
    if not (length params % 2 == 0)
    then ok (some (record { options = [] }))
    else do pairs ← option_pairs params; ok (some (record { options = pairs }))

unfoldable pub deserialise_oack_packet : Bytes → Outcome (Option OackPacket)
unfolding oack_packet_of
deserialise_oack_packet d = if ltb (length d) 2 then ok none else do
  type ← at d 1
  if not (type == opcode PacketType.oack)
      then ok none
      else do params ← extract_c_strings_from_buffer d 2; oack_packet_of params
