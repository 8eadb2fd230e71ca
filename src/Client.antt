-- ===== src/Client.antt =====
-- `tftp_client`, of src/client/tftp_client.cpp: the two transfers of the command-line client.
pub mod GetFile
pub mod SendFile
pub mod Session
pub mod Online
pub mod Main
pub mod Program
use cpp_tftp.Common.{Bool, true, false, not, ◌||◌, []}
use cpp_tftp.Net.Udp.{Address, Received}

-- The sign of what `poll` returns.
pub data PollReturn : Type 0 where
  negative zero positive : PollReturn

-- What `poll` returns, and whether `revents` has `POLLOUT`.
pub record Polled : Type 0 where
  pub ret : PollReturn
  pub pollout : Bool

abbrev is_zero : PollReturn → Bool
is_zero PollReturn.zero = true
is_zero PollReturn.negative = false
is_zero PollReturn.positive = false

abbrev is_positive : PollReturn → Bool
is_positive PollReturn.positive = true
is_positive PollReturn.negative = false
is_positive PollReturn.zero = false

-- `!poll(...) || !(pfd.revents & POLLOUT)`
abbrev pub timed_out : Polled → Bool
timed_out p = is_zero p.ret || not p.pollout

-- `(poll(...) <= 0) || !(pfd.revents & POLLOUT)`
abbrev pub no_reply : Polled → Bool
no_reply p = not (is_positive p.ret) || not p.pollout

-- A wait for a packet and what is received after it. The socket blocks: when a list of these is
-- used up, the program is still waiting.
pub record Exchange : Type 0 where
  pub polled : Polled
  pub received : Received

abbrev pub no_sender : Address
no_sender = record { ip_address = []; port_num = 0 }
