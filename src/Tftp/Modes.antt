-- ===== src/Tftp/Modes.antt =====
-- `string_to_mode_t`, `mode_t_to_string` and `error_code_to_string` of src/common/tftp.cpp.
use cpp_tftp.Common.{
  ◌≡◌, Option, none, some, map, arith, if◌then◌else◌, equal, equal_iff, Bool, ◌↔◌, Bytes, codes,
  toupper, c_str,
}
use cpp_tftp.Tftp.Types.{Mode, ErrorType}

abbrev pub octet_mode_str : Bytes
octet_mode_str = codes "OCTET"

abbrev pub netascii_mode_str : Bytes
netascii_mode_str = codes "NETASCII"

-- `std::strcmp(s.c_str(), t) == 0` for a literal t.
unfoldable pub strcmp_eq : Bytes → Bytes → Bool
strcmp_eq s t = equal (c_str s) t

unfoldable pub string_to_mode_t : Bytes → Option Mode
unfolding strcmp_eq
string_to_mode_t mode_str =
    let upper = map toupper mode_str in
    if strcmp_eq upper octet_mode_str
    then some Mode.octet
    else if strcmp_eq upper netascii_mode_str
    then some Mode.netascii
    else none

-- A mode is one of two values, so the `default` of the switch is not reached.
abbrev pub mode_t_to_string : Mode → Bytes
mode_t_to_string Mode.octet = octet_mode_str
mode_t_to_string Mode.netascii = netascii_mode_str

abbrev pub error_code_to_string : ErrorType → Bytes
error_code_to_string ErrorType.not_defined = codes "Not defined"
error_code_to_string ErrorType.file_not_found = codes "File not found"
error_code_to_string ErrorType.access_error = codes "Access violation"
error_code_to_string ErrorType.disk_full = codes "Disk full or allocation exceeded"
error_code_to_string ErrorType.illegal_operation = codes "Illegal TFTP operation"
error_code_to_string ErrorType.unknown_tid = codes "Unknown transfer ID"
error_code_to_string ErrorType.file_exists = codes "File already exists"
error_code_to_string ErrorType.no_user = codes "No such user"

-- A text names a mode exactly when, in upper case and up to its first null byte, it is that mode's
-- name.
string_to_mode_t_iff :
    (s : Bytes) (m : Mode)
    → (string_to_mode_t s ≡ some m) ↔ (c_str (map toupper s) ≡ mode_t_to_string m)
unfolding string_to_mode_t
string_to_mode_t_iff s Mode.octet = ground (arith, equal_iff (c_str (map toupper s)) octet_mode_str)
string_to_mode_t_iff s Mode.netascii = ground (
  arith,
  equal_iff (c_str (map toupper s)) octet_mode_str,
  equal_iff (c_str (map toupper s)) netascii_mode_str,
)
