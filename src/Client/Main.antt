-- ===== src/Client/Main.antt =====
-- The program of src/client/main.cpp. What it prints is left out, but for the files that it reports
-- as transferred. Its logger is taken to be set up.
pub mod Options
pub mod Reports
use cpp_tftp.Common.{
  ℕ, Bool, true, false, List, [], ◌∷◌, ◌++◌, Option, none, some, is_empty, if◌then◌else◌, Bytes,
}
use cpp_tftp.Common.Outcome.{Outcome, ok, and_then, exit_status}
use cpp_tftp.Tftp.Types.{Mode}
use cpp_tftp.Tftp.Modes.{string_to_mode_t}

-- What a call of `getopt_long` finds: an option of `long_options` that sets a flag, or what it
-- returns, with `optarg`. The long options of the last three are these letters too.
pub data Opt : Type 0 where
  verbose help put : Opt
  p v : Opt
  h i t : Bytes → Opt
  unrecognised : Opt

-- The variables that the options set.
pub record Settings : Type 0 where
  pub verbose_flag : Bool
  pub help_flag : Bool
  pub write_flag : Bool
  pub tftp_host : Bytes
  pub local_interface : Bytes
  pub transfer_mode : Bytes

abbrev pub defaults : Settings
defaults = record {
  verbose_flag = false;
  help_flag = false;
  write_flag = false;
  tftp_host = [];
  local_interface = [];
  transfer_mode = [];
}

unfoldable pub set_option : Opt → Settings → Settings
set_option Opt.verbose s = record s { verbose_flag = true }
set_option Opt.help s = record s { help_flag = true }
set_option Opt.put s = record s { write_flag = true }
set_option Opt.p s = record s { write_flag = true }
set_option Opt.v s = record s { verbose_flag = true }
set_option (Opt.h optarg) s = record s { tftp_host = optarg }
set_option (Opt.i optarg) s = record s { local_interface = optarg }
set_option (Opt.t optarg) s = record s { transfer_mode = optarg }
set_option Opt.unrecognised s = s

-- The loop over the options.
unfoldable pub read_options : List Opt → Settings → Settings
unfolding set_option
read_options [] s = s
read_options (o ∷ os) s = read_options os (set_option o s)

-- The mode of the transfers, unless the type is not one.
unfoldable pub chosen_mode : Bytes → Option Mode
chosen_mode transfer_mode =
    if is_empty transfer_mode then some Mode.octet else string_to_mode_t transfer_mode

-- `tftp_client`: the two functions on a file, the server, the mode and the local interface.
pub record TftpClient : Type 0 where
  pub get_file : Bytes → Bytes → Mode → Bytes → Outcome Bool
  pub send_file : Bytes → Bytes → Mode → Bytes → Outcome Bool

-- The call for one file.
abbrev pub transfer_file : TftpClient → Settings → Mode → Bytes → Outcome Bool
transfer_file c s mode file =
    if s.write_flag
    then c.send_file file s.tftp_host mode s.local_interface
    else c.get_file file s.tftp_host mode s.local_interface

-- The loop over the files. What a transfer returns is not looked at; `reported` are the files that
-- were reported as transferred.
unfoldable pub transfer_files :
    TftpClient → Settings → Mode → List Bytes → List Bytes → Outcome (Unit {0}) × List Bytes
transfer_files c s mode [] reported = (ok tt, reported)
transfer_files c s mode (file ∷ files) reported =
    and_then (transfer_file c s mode file, reported)
      λ _ reported. transfer_files c s mode files (reported ++ file ∷ [])

unfoldable pub run_mode : Option Mode → TftpClient → Settings → List Bytes → Outcome ℕ × List Bytes
unfolding transfer_files
run_mode none c s files = (ok 1, [])
run_mode (some mode) c s files =
    let (transferred, reported) = transfer_files c s mode files [] in
    (exit_status transferred, reported)

-- `main`, once `getopt_long` has given the options and the files. The status, and the files that are
-- reported as transferred.
unfoldable pub main : TftpClient → List Opt → List Bytes → Outcome ℕ × List Bytes
unfolding read_options chosen_mode run_mode
main c options files =
    let s = read_options options defaults in
    if s.help_flag then (ok 0, []) else run_mode (chosen_mode s.transfer_mode) c s files
