-- ===== src/Net/Timer.antt =====
-- `timer`: a timer file descriptor.
use cpp_tftp.Common.{ℕ, Bool, ◌&&◌, ltb, ◌∷◌, Option, none, some}
use cpp_tftp.Common.Outcome.{Outcome, ok, throw, system_error}
use cpp_tftp.Net.Descriptors.{Descriptors, close_positive}

-- The seconds that the timer was last armed with. A failure to arm it is only logged.
pub record Timer : Type 0 where
  pub armed_s : Option ℕ

abbrev pub new_timer : Timer
new_timer = record { armed_s = none }

unfoldable pub arm_timer : ℕ → Timer → Timer
arm_timer seconds t = record t { armed_s = some seconds }

unfoldable pub disarm_timer : Timer → Timer
disarm_timer t = record t { armed_s = none }

-- What `read` of the descriptor returns: `ret`, or 0 where that is not positive, and the number of
-- expirations.
pub record TimerRead : Type 0 where
  pub ret : ℕ
  pub exp : ℕ

unfoldable pub has_expired : TimerRead → Bool
has_expired r = ltb 0 r.ret && ltb 0 r.exp

-- The constructor, given the descriptor that `timerfd_create` returns.
unfoldable pub make_timer : Option ℕ → Descriptors → Outcome ℕ × Descriptors
make_timer none fds = (throw system_error, fds)
make_timer (some fd) fds = (ok fd, fd ∷ fds)

-- The destructor. It leaves a descriptor of 0 open.
abbrev pub destroy_timer : ℕ → Descriptors → Descriptors
destroy_timer fd fds = close_positive fd fds
