-- ===== src/Common/Chars.antt =====
-- `char`, `std::string` and `std::vector<char>`: a char is its bit pattern, a number below 256.
use Prim.Native.Nat.{ℕ, ◌+◌, ◌-◌, ◌%◌, ◌<◌}
use Prim.Native.Char.{code}
use Prim.Native.String.{String}
use mathlib.Core.Path.{◌≡◌}
use mathlib.Core.Bool.{◌&&◌}
use mathlib.Core.List.{List, [], ◌∷◌}
use native.Mathlib.Omega.{arith}
use cpp_tftp.Common.Bools.{leb, ltb, ◌==◌, if◌then◌else◌}
use cpp_tftp.Common.Lists.{All}

abbrev pub Bytes : Type 0
Bytes = List ℕ

-- The characters of an ASCII literal.
abbrev pub codes : String → Bytes
codes String.[] = []
codes (String.◌∷◌ c s) = code c ∷ codes s

abbrev pub IsByte : ℕ → Type 0
IsByte c = c < 256

abbrev pub IsBytes : Bytes → Type 0
IsBytes = All IsByte

-- Conversion of an integer to `char`, and to `uint16_t`.
abbrev pub to_char : ℕ → ℕ
to_char n = n % 256

abbrev pub to_u16 : ℕ → ℕ
to_u16 n = n % 65536

-- `static_cast<uint16_t>(c)` of a signed char: the sign bit is extended.
unfoldable pub sign_extend : ℕ → ℕ
sign_extend c = if ltb c 128 then c else c + 0xff00

-- `::toupper` in the C locale; a char outside ASCII stays.
unfoldable pub toupper : ℕ → ℕ
toupper c = if leb b'a' c && leb c b'z' then c - 32 else c

toupper_idem : (c : ℕ) → toupper (toupper c) ≡ toupper c
unfolding toupper
toupper_idem c = ground arith

-- `s.c_str()` as a C string ends at the first null byte.
unfoldable pub c_str : Bytes → Bytes
c_str [] = []
c_str (c ∷ s) = if c == 0 then [] else c ∷ c_str s
