-- ===== src/Utils/FileSize.antt =====
-- `get_file_size` of src/common/utils.cpp.
use cpp_tftp.Common.{ℕ, Option, none, some, Bytes}

abbrev size_or_0 : Option ℕ → ℕ
size_or_0 none = 0
size_or_0 (some st_size) = st_size

-- `stat` gives the size of a file, or fails. A null pointer is `none`.
unfoldable pub get_file_size : (Bytes → Option ℕ) → Option Bytes → ℕ
get_file_size stat none = 0
get_file_size stat (some fname) = size_or_0 (stat fname)
