-- ===== src/Net/Descriptors.antt =====
-- The open file descriptors of the process, and `close`.
use cpp_tftp.Common.{ℕ, ◌≡◌, ap, ◌∙◌, true, List, [], ◌∷◌, ◌==◌, ==_refl, ltb, if◌then◌else◌}

abbrev pub Descriptors : Type 0
Descriptors = List ℕ

unfoldable pub close : ℕ → Descriptors → Descriptors
close fd [] = []
close fd (x ∷ xs) = if x == fd then xs else x ∷ close fd xs

pub close-opened : (fd : ℕ) (fds : Descriptors) → close fd (fd ∷ fds) ≡ fds
unfolding close
close-opened fd fds = ap (λ b. if b then fds else fd ∷ close fd fds) (==_refl fd)

-- `if (fd > 0) { close(fd); }`
unfoldable pub close_positive : ℕ → Descriptors → Descriptors
unfolding close
close_positive fd fds = if ltb 0 fd then close fd fds else fds

pub close_positive-opened :
    (fd : ℕ) (fds : Descriptors) → ltb 0 fd ≡ true → close_positive fd (fd ∷ fds) ≡ fds
unfolding close_positive
close_positive-opened fd fds positive =
    ap (λ b. if b then close fd (fd ∷ fds) else fd ∷ fds) positive ∙ close-opened fd fds
