-- ===== src/Tftp/RoundTrip/Strings.antt =====
-- Requests and option acknowledgements: the packets that are made of null-terminated strings.
use cpp_tftp.Common.{
  ℕ, ◌≤◌, ◌%◌, ◌≡◌, ◌⊎◌, refl, ap, ◌∙◌, List, [], ◌∷◌, ◌++◌, append-nil, some, arith, le→ltb, map,
  length, length-append, Bytes, All, toupper, c_str, equal,
}
use cpp_tftp.Common.Outcome.{ok, at}
use cpp_tftp.Utils.CStrings.{
  HasNoNull, join_c_strings, extract_c_strings_from_buffer, c_strings-join_c_strings,
}
use cpp_tftp.Tftp.Types.{PacketType, opcode, Mode, Options, RwPacket, rw_packet, OackPacket}
use cpp_tftp.Tftp.Modes.{string_to_mode_t, mode_t_to_string}
use cpp_tftp.Tftp.Serialise.{serialise_rw_packet, serialise_options, serialise_oack_packet}
use cpp_tftp.Tftp.Deserialise.{
  deserialise_rw_packet, deserialise_oack_packet, option_pairs, upper_option, rw_packet_of,
  oack_packet_of,
}

-- The strings of a list of options, in order.
abbrev pub option_strings : Options → List Bytes
option_strings [] = []
option_strings ((name, value) ∷ rest) = name ∷ value ∷ option_strings rest

option_pairs-option_strings : (o : Options) → option_pairs (option_strings o) ≡ ok o
unfolding option_pairs
option_pairs-option_strings [] = refl
option_pairs-option_strings ((name, value) ∷ rest) = rw (option_pairs-option_strings rest)

option_strings_even : (o : Options) → length (option_strings o) % 2 ≡ 0
option_strings_even [] = refl
option_strings_even ((name, value) ∷ rest) = omega (arith, option_strings_even rest)

serialise_options-join : (o : Options) → serialise_options o ≡ join_c_strings (option_strings o)
unfolding serialise_options
serialise_options-join [] = refl
serialise_options-join ((name, value) ∷ rest) = rw (serialise_options-join rest)

length-join-ge_two :
    (a b : Bytes) (ss : List Bytes) (rest : Bytes)
    → 2 ≤ length (join_c_strings (a ∷ b ∷ ss) ++ rest)
length-join-ge_two a b ss rest = omega (
  arith,
  length-append (join_c_strings (a ∷ b ∷ ss)) rest,
  length-append a (0 ∷ (b ++ (0 ∷ join_c_strings ss))),
  length-append b (0 ∷ join_c_strings ss),
)

extract-join :
    (a b : ℕ) (ss : List Bytes) (rest : Bytes)
    → All HasNoNull ss
    → HasNoNull rest
    → extract_c_strings_from_buffer (a ∷ b ∷ (join_c_strings ss ++ rest)) 2 ≡ ok ss
unfolding extract_c_strings_from_buffer
extract-join a b ss rest h k =
    rw (le→ltb (length (a ∷ b ∷ (join_c_strings ss ++ rest))) 2 (omega arith))
      (ap ok (c_strings-join_c_strings ss rest h k))

oack_packet_of-option_strings :
    (o : Options) → oack_packet_of (option_strings o) ≡ ok (some (record { options = o }))
unfolding oack_packet_of
oack_packet_of-option_strings o =
    ground (arith, option_strings_even o, option_pairs-option_strings o)

deserialise_oack_packet-extract :
    (z : ℕ) (body : Bytes) (params : List Bytes)
    → extract_c_strings_from_buffer (z ∷ 6 ∷ body) 2 ≡ ok params
    → deserialise_oack_packet (z ∷ 6 ∷ body) ≡ oack_packet_of params
unfolding deserialise_oack_packet at
deserialise_oack_packet-extract z body params h = ground arith

-- An option acknowledgement is read back, if no name and no value has a null byte.
deserialise_oack_packet-serialise_oack_packet :
    (p : OackPacket)
    → All HasNoNull (option_strings p.options)
    → deserialise_oack_packet (serialise_oack_packet p) ≡ ok (some p)
unfolding serialise_oack_packet
deserialise_oack_packet-serialise_oack_packet p h =
    let params = option_strings p.options in
    rw (serialise_options-join p.options, ← append-nil (join_c_strings params))
      (deserialise_oack_packet-extract 0 _ params (extract-join 0 6 params [] h tt)
        ∙ oack_packet_of-option_strings p.options)

rw_packet_of-option_strings :
    (type : PacketType) (filename mode_str : Bytes) (mode : Mode) (o : Options)
    → string_to_mode_t mode_str ≡ some mode
    → rw_packet_of type (filename ∷ mode_str ∷ option_strings o)
      ≡ ok (some (record (rw_packet filename type mode) { options = map upper_option o }))
unfolding rw_packet_of
rw_packet_of-option_strings type filename mode_str mode o m =
    ground (arith, option_strings_even o, option_pairs-option_strings o)

deserialise_rw_packet-extract :
    (z : ℕ) (type : PacketType) (body : Bytes) (params : List Bytes)
    → (type ≡ PacketType.read) ⊎ (type ≡ PacketType.write)
    → 2 ≤ length body
    → extract_c_strings_from_buffer (z ∷ opcode type ∷ body) 2 ≡ ok params
    → deserialise_rw_packet (z ∷ opcode type ∷ body) ≡ rw_packet_of type params
unfolding deserialise_rw_packet at
deserialise_rw_packet-extract z type body params t l h = ground arith

-- A request that is made of a name, a mode and options, each with its null byte, and of a rest
-- with none, is understood: the names and values of the options are put in upper case.
pub deserialise_rw_packet-join :
    (z : ℕ) (type : PacketType) (filename mode_str : Bytes) (mode : Mode) (o : Options)
    (rest : Bytes)
    → (type ≡ PacketType.read) ⊎ (type ≡ PacketType.write)
    → All HasNoNull (filename ∷ mode_str ∷ option_strings o)
    → HasNoNull rest
    → string_to_mode_t mode_str ≡ some mode
    → deserialise_rw_packet
        (z ∷ opcode type ∷ (join_c_strings (filename ∷ mode_str ∷ option_strings o) ++ rest))
      ≡ ok (some (record (rw_packet filename type mode) { options = map upper_option o }))
deserialise_rw_packet-join z type filename mode_str mode o rest t h k m =
    let params = filename ∷ mode_str ∷ option_strings o in
    deserialise_rw_packet-extract z type (join_c_strings params ++ rest) params t
      (length-join-ge_two filename mode_str (option_strings o) rest)
      (extract-join z (opcode type) params rest h k)
    ∙ rw_packet_of-option_strings type filename mode_str mode o m

mode_t_to_string_no_null : (m : Mode) → HasNoNull (mode_t_to_string m)
mode_t_to_string_no_null Mode.octet = omega arith
mode_t_to_string_no_null Mode.netascii = omega arith

mode_t_to_string_read : (m : Mode) → string_to_mode_t (mode_t_to_string m) ≡ some m
unfolding string_to_mode_t toupper c_str equal
mode_t_to_string_read Mode.octet = refl
mode_t_to_string_read Mode.netascii = refl

-- A request is read back without its options, which are not serialised, if its name has no null
-- byte.
deserialise_rw_packet-serialise_rw_packet :
    (p : RwPacket)
    → (p.type ≡ PacketType.read) ⊎ (p.type ≡ PacketType.write)
    → HasNoNull p.filename
    → deserialise_rw_packet (serialise_rw_packet p) ≡ ok (some (record p { options = [] }))
unfolding serialise_rw_packet
deserialise_rw_packet-serialise_rw_packet p t h =
    let text = join_c_strings (p.filename ∷ mode_t_to_string p.mode ∷ []) in
    rw (append-nil text) at (
      deserialise_rw_packet-join 0 p.type p.filename (mode_t_to_string p.mode) p.mode [] [] t
        (h, (mode_t_to_string_no_null p.mode, tt)) tt (mode_t_to_string_read p.mode))
