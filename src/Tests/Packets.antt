-- ===== src/Tests/Packets.antt =====
-- Tests of the packets and of what is used to read them.
use cpp_tftp.Common.{
  ◌≡◌, ◌↔◌, refl, inl, [], ◌∷◌, ◌++◌, map, some, arith, codes, toupper, c_str, equal,
}
use cpp_tftp.Common.Outcome.{ok, at}
use cpp_tftp.Utils.Netascii.{
  native_to_netascii, netascii_to_native, Decodes, netascii_to_native-iff-Decodes,
  netascii_to_native-native_to_netascii,
}
use cpp_tftp.Utils.CStrings.{join_c_strings}
use cpp_tftp.Tftp.Types.{PacketType, Mode, DataPacket, ErrorPacket, OackPacket, rw_packet}
use cpp_tftp.Tftp.Modes.{string_to_mode_t}
use cpp_tftp.Tftp.Serialise.{serialise_error_packet}
use cpp_tftp.Tftp.Deserialise.{
  deserialise_rw_packet, deserialise_data_packet, deserialise_ack_packet, deserialise_error_packet,
  deserialise_oack_packet, upper_option,
}
use cpp_tftp.Tftp.Deserialise.Total.{Returns, deserialise-Returns}
use cpp_tftp.Tftp.RoundTrip.{received_code, deserialise_error_packet-serialise_error_packet}
use cpp_tftp.Tftp.RoundTrip.Strings.{deserialise_rw_packet-join}

abbrev block : DataPacket
block = record { payload = 1 ∷ 2 ∷ []; block_number = 300 }

abbrev unknown_user : ErrorPacket
unknown_user = record { error_msg = codes "no"; error_code = 200 }

abbrev accepted_size : OackPacket
accepted_size = record { options = (codes "TSIZE", codes "3") ∷ [] }

deserialise_error_packet-serialise_error_packet_example :
    deserialise_error_packet (serialise_error_packet unknown_user)
    ≡ ok (some (record unknown_user { error_code = received_code 200 }))
deserialise_error_packet-serialise_error_packet_example =
    deserialise_error_packet-serialise_error_packet unknown_user (omega arith) (ground arith)

parsed_block : deserialise_data_packet (7 ∷ 3 ∷ 1 ∷ 44 ∷ 1 ∷ 2 ∷ []) ≡ ok (some block)
unfolding deserialise_data_packet at
parsed_block = refl

octet_mode : string_to_mode_t (codes "Octet") ≡ some Mode.octet
unfolding string_to_mode_t equal c_str toupper
octet_mode = refl

deserialise_rw_packet-join_example :
    deserialise_rw_packet (
      0
      ∷ 1
      ∷ (join_c_strings (codes "f" ∷ codes "Octet" ∷ codes "tsize" ∷ codes "0" ∷ []) ++ codes "x"))
    ≡ ok (
        some (record (rw_packet (codes "f") PacketType.read Mode.octet) {
          options = map upper_option ((codes "tsize", codes "0") ∷ []);
        }))
deserialise_rw_packet-join_example =
    deserialise_rw_packet-join 0 PacketType.read (codes "f") (codes "Octet") Mode.octet
      ((codes "tsize", codes "0") ∷ []) (codes "x") (inl refl) (ground arith) (ground arith)
      octet_mode

deserialise-Returns_example :
    Returns (deserialise_rw_packet (0 ∷ 9 ∷ []))
    × Returns (deserialise_data_packet (0 ∷ 9 ∷ []))
    × Returns (deserialise_ack_packet (0 ∷ 9 ∷ []))
    × Returns (deserialise_error_packet (0 ∷ 9 ∷ []))
    × Returns (deserialise_oack_packet (0 ∷ 9 ∷ []))
deserialise-Returns_example = deserialise-Returns (0 ∷ 9 ∷ [])

netascii_to_native-native_to_netascii_example :
    netascii_to_native (native_to_netascii (13 ∷ 10 ∷ 65 ∷ [])) ≡ ok (13 ∷ 10 ∷ 65 ∷ [])
netascii_to_native-native_to_netascii_example =
    netascii_to_native-native_to_netascii (13 ∷ 10 ∷ 65 ∷ [])

netascii_to_native-iff-Decodes_example :
    (netascii_to_native (13 ∷ 10 ∷ []) ≡ ok (10 ∷ [])) ↔ Decodes (13 ∷ 10 ∷ []) (10 ∷ [])
netascii_to_native-iff-Decodes_example = netascii_to_native-iff-Decodes (13 ∷ 10 ∷ []) (10 ∷ [])
