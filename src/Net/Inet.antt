-- ===== src/Net/Inet.antt =====
-- The conversions of addresses of <arpa/inet.h>, and the functions of src/common/utils.cpp on
-- `sockaddr_in`.
use cpp_tftp.Common.{
  ℕ, ◌≡◌, ap, ◌∙◌, false, [], ◌∷◌, ◌++◌, Option, none, some, is_empty, if◌then◌else◌, Bytes, codes,
}
use cpp_tftp.Common.Decimal.{to_string}
use cpp_tftp.Net.Udp.{Address}

-- `inet_pton` and `inet_ntop` for `AF_INET`: text to the four bytes of an address, and back; `none`
-- where they fail.
pub record Inet : Type 0 where
  pub inet_pton : Bytes → Option Bytes
  pub inet_ntop : Bytes → Option Bytes

-- `INADDR_ANY`
abbrev pub inaddr_any : Bytes
inaddr_any = 0 ∷ 0 ∷ 0 ∷ 0 ∷ []

-- A `sockaddr_in` with these four bytes and this port; `htons` and its inverse are left out.
abbrev pub sockaddr_in : Bytes → ℕ → Address
sockaddr_in sin_addr sin_port = record { ip_address = sin_addr; port_num = sin_port }

abbrev with_port : ℕ → Option Bytes → Option Address
with_port port none = none
with_port port (some sin_addr) = some (sockaddr_in sin_addr port)

unfoldable pub to_sockaddr_in : Inet → Bytes → ℕ → Option Address
to_sockaddr_in inet addr port =
    if is_empty addr
    then some (sockaddr_in inaddr_any port)
    else with_port port (inet.inet_pton addr)

-- `addr_buf`, or what is printed where it cannot be filled.
abbrev or_unknown : Option Bytes → Bytes
or_unknown none = codes "unknown"
or_unknown (some addr_buf) = addr_buf

-- `operator<<`
unfoldable pub sockaddr_to_str : Inet → Address → Bytes
sockaddr_to_str inet sa =
    or_unknown (inet.inet_ntop sa.ip_address) ++ (b':' ∷ to_string sa.port_num)

-- An address in text that `inet_pton` reads and `inet_ntop` writes back is printed as it was given,
-- with its port after a colon.
sockaddr_to_str-to_sockaddr_in :
    (inet : Inet) (addr : Bytes) (port : ℕ) {b : Bytes}
    → is_empty addr ≡ false
    → inet.inet_pton addr ≡ some b
    → inet.inet_ntop b ≡ some addr
    → (sa : Address) × (to_sockaddr_in inet addr port ≡ some sa)
      × (sockaddr_to_str inet sa ≡ addr ++ (b':' ∷ to_string port))
unfolding to_sockaddr_in sockaddr_to_str
sockaddr_to_str-to_sockaddr_in inet addr port {b} text reads writes = (
  sockaddr_in b port,
  ap (λ e. if e then some (sockaddr_in inaddr_any port) else with_port port (inet.inet_pton addr))
        text
      ∙ ap (with_port port) reads,
  ap (λ o. or_unknown o ++ (b':' ∷ to_string port)) writes,
)
