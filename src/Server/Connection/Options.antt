-- ===== src/Server/Connection/Options.antt =====
-- `process_options`.
pub mod Bounds
use cpp_tftp.Common.{
  ℕ, ◌%◌, ◌^◌, Bool, ◌&&◌, ◌||◌, [], ◌∷◌, ◌++◌, Option, none, some, ltb, if◌then◌else◌, Bytes,
  codes, c_str,
}
use cpp_tftp.Utils.FileSize.{get_file_size}
use cpp_tftp.Common.Outcome.{Outcome, ok}
use cpp_tftp.Common.Decimal.{stoul, to_string}
use cpp_tftp.Tftp.Types.{PacketType, Options, RwPacket}
use cpp_tftp.Tftp.Modes.{strcmp_eq}
use cpp_tftp.Server.Connection.{Connection}
use cpp_tftp.Server.Connection.Host.{Host}

abbrev pub blksize_opt : Bytes
blksize_opt = codes "BLKSIZE"

abbrev pub tsize_opt : Bytes
tsize_opt = codes "TSIZE"

abbrev pub timeout_opt : Bytes
timeout_opt = codes "TIMEOUT"

-- `_oack_packet.options.push_back`
abbrev pub reply : Bytes → Bytes → Connection → Connection
reply name value c = record c {
  oack_packet = record { options = c.oack_packet.options ++ (name, value) ∷ [] };
}

-- `MTU < static_cast<int>(_block_size)`, where the block size has 32 bits: as an `int` it is
-- negative from 2 ^ 31 on.
abbrev pub exceeds_mtu : ℕ → ℕ → Bool
exceeds_mtu mtu block_size = ltb block_size (2 ^ 31) && ltb mtu block_size

unfoldable pub set_block_size : Option ℕ → Bytes → Bytes → ℕ → Connection → Connection
set_block_size none name value size c = reply name value (record c { block_size = size })
set_block_size (some mtu) name value size c =
    if exceeds_mtu mtu size
    then reply name (to_string mtu) (record c { block_size = mtu })
    else reply name value (record c { block_size = size })

-- The `try` block, given what `stoul` comes to: it throws before anything is changed, and the
-- exception is caught.
unfoldable pub blksize_result : Host → Bytes → Bytes → Outcome ℕ → Connection → Connection
unfolding set_block_size
blksize_result h name value (ok val) c = set_block_size h.mtu name value (val % 2 ^ 32) c
blksize_result h name value _ c = c

abbrev pub blksize_option : Host → Bytes → Bytes → Connection → Connection
blksize_option h name value c = blksize_result h name value (stoul value) c

unfoldable pub tsize_option : Host → RwPacket → Bytes → Connection → Connection
tsize_option h request name c = elim request.type [
  | PacketType.read ↦
      reply name (to_string (get_file_size h.stat (some (c_str request.filename)))) c
  | _ ↦ c
]

unfoldable pub timeout_option : Bytes → Bytes → Connection → Connection
timeout_option name value c = elim (stoul value) [
  | ok req_timeout_s ↦
      if ltb req_timeout_s 1 || ltb 255 req_timeout_s
      then c
      else reply name (to_string (req_timeout_s % 256))
          (record c { timeout_s = req_timeout_s % 256 })
  | _ ↦ c
]

unfoldable pub process_option : Host → RwPacket → Bytes × Bytes → Connection → Connection
unfolding blksize_result tsize_option timeout_option
process_option h request (name, value) c =
    if strcmp_eq name blksize_opt
    then blksize_option h name value c
    else if strcmp_eq name tsize_opt
    then tsize_option h request name c
    else if strcmp_eq name timeout_opt
    then timeout_option name value c
    else c

unfoldable pub process_all : Host → RwPacket → Options → Connection → Connection
process_all h request [] c = c
process_all h request (opt ∷ opts) c = process_all h request opts (process_option h request opt c)

abbrev pub process_options : Host → RwPacket → Connection → Connection
process_options h request c = process_all h request request.options c
