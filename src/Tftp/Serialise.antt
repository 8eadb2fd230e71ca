-- ===== src/Tftp/Serialise.antt =====
-- The five `serialise_` functions of src/common/tftp.cpp. `reserve` has no effect on the result.
use cpp_tftp.Common.{ℕ, ◌/◌, ◌^◌, [], ◌∷◌, ◌++◌, bit_and, Bytes, to_char}
use cpp_tftp.Tftp.Types.{
  PacketType, opcode, Options, RwPacket, OackPacket, DataPacket, AckPacket, ErrorPacket,
}
use cpp_tftp.Tftp.Modes.{mode_t_to_string}

unfoldable pub serialise_rw_packet : RwPacket → Bytes
serialise_rw_packet packet =
    0 ∷ opcode packet.type ∷ (packet.filename ++ (0 ∷ (mode_t_to_string packet.mode ++ 0 ∷ [])))

-- The two bytes of a word, as `push_back(w >> 8)` and `push_back(w & 0xFF)` leave them.
abbrev pub high_byte : ℕ → ℕ
high_byte w = to_char (w / 2 ^ 8)

abbrev pub low_byte : ℕ → ℕ
low_byte w = to_char (bit_and w 0xff)

unfoldable pub serialise_data_packet : DataPacket → Bytes
serialise_data_packet packet =
    0
    ∷ opcode PacketType.data_pkt
    ∷ high_byte packet.block_number
    ∷ low_byte packet.block_number
    ∷ packet.payload

unfoldable pub serialise_ack_packet : AckPacket → Bytes
serialise_ack_packet packet =
    0 ∷ opcode PacketType.ack ∷ high_byte packet.block_number ∷ low_byte packet.block_number ∷ []

unfoldable pub serialise_error_packet : ErrorPacket → Bytes
serialise_error_packet packet =
    0
    ∷ opcode PacketType.error
    ∷ high_byte packet.error_code
    ∷ low_byte packet.error_code
    ∷ (packet.error_msg ++ 0 ∷ [])

-- The loop over the options.
unfoldable pub serialise_options : Options → Bytes
serialise_options [] = []
serialise_options ((name, value) ∷ rest) = name ++ (0 ∷ (value ++ (0 ∷ serialise_options rest)))

unfoldable pub serialise_oack_packet : OackPacket → Bytes
unfolding serialise_options
serialise_oack_packet packet = 0 ∷ opcode PacketType.oack ∷ serialise_options packet.options
