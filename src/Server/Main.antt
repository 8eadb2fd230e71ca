-- ===== src/Server/Main.antt =====
-- The program of src/server/main.cpp. What it prints is left out.
pub mod Exits
pub mod Faults
use cpp_tftp.Common.{ℕ, Bool, false, not, List, [], ◌∷◌, if◌then◌else◌, ◌==◌, Bytes}
use cpp_tftp.Common.Outcome.{
  Outcome, ok, throw, undefined, out_of_fuel, ◌>>=◌, and_then, leave, exit_status,
}
use cpp_tftp.Common.Decimal.{stoul}
use cpp_tftp.Net.Descriptors.{Descriptors}
use cpp_tftp.Server.Loop.{Server}
use cpp_tftp.Server.Start.{ServerCalls, Happening, tftp_server, destroy_server, start}

-- What the program finds: how setting up the logger ends, the system calls, and what happens while
-- the server runs.
pub record Program : Type 0 where
  pub logger : Outcome (Unit {0})
  pub calls : ServerCalls
  pub happenings : List Happening

-- `log_trace`, from the arguments after INTERFACE.
unfoldable pub log_trace : List Bytes → Outcome Bool
log_trace [] = ok false
log_trace (argument ∷ _) = do n ← stoul argument; ok (not (n == 0))

abbrev pub initialise_logger : Outcome (Unit {0}) → Outcome ℕ
initialise_logger setup = exit_status setup

-- The block in which the server lives.
unfoldable pub serve_root :
    ServerCalls → List Happening → Bytes → Bytes → Descriptors → Outcome Server × Descriptors
serve_root k happenings server_root interface fds =
    and_then (tftp_server k server_root interface 69 100 fds)
      λ s fds'. leave (destroy_server s) (start k happenings s.server) fds'

-- A block whose `catch` clause returns 1.
abbrev pub or_return_1 {ℓ} :
    {A : Type ℓ} → Outcome A → Descriptors → (A → Outcome ℕ × Descriptors) → Outcome ℕ × Descriptors
or_return_1 (ok a) fds f = f a
or_return_1 (throw e) fds f = (ok 1, fds)
or_return_1 undefined fds f = (undefined, fds)
or_return_1 out_of_fuel fds f = (out_of_fuel, fds)

-- What follows `initialise_logger`.
unfoldable pub with_logger :
    ServerCalls → List Happening → Bytes → Bytes → ℕ → Descriptors → Outcome ℕ × Descriptors
unfolding serve_root
with_logger k happenings server_root interface status fds =
    let (served, fds') = serve_root k happenings server_root interface fds in
    if status == 0 then (exit_status served, fds') else (ok 1, fds)

-- What follows the test of the number of arguments.
unfoldable pub run_main :
    Program → Bytes → Bytes → List Bytes → Descriptors → Outcome ℕ × Descriptors
unfolding log_trace with_logger
run_main p server_root interface arguments fds = or_return_1 (log_trace arguments) fds λ trace.
    and_then (initialise_logger p.logger, fds)
      (with_logger p.calls p.happenings server_root interface)

-- `main`, on the name of the program and its arguments.
unfoldable pub main : Program → List Bytes → Descriptors → Outcome ℕ × Descriptors
unfolding run_main
main p (name ∷ server_root ∷ interface ∷ arguments) fds =
    run_main p server_root interface arguments fds
main p _ fds = (ok 1, fds)
