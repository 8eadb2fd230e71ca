-- ===== src/Client/Main/Options.antt =====
-- Which of several options of src/client/main.cpp counts.
use cpp_tftp.Common.{
  ◌≡◌, refl, sym, ap, ◌∙◌, Bool, true, false, ◌||◌, List, [], ◌∷◌, Option, none, some, arith, Bytes,
}
use cpp_tftp.Client.Main.{Opt, Settings, defaults, set_option, read_options}

-- The value that the last of the options gives, or else `old`.
abbrev pub last_of : (Opt → Option Bytes) → Bytes → List Opt → Bytes
last_of f old [] = old
last_of f old (o ∷ os) = last_of f (elim (f o) [ none ↦ old | some x ↦ x ]) os

abbrev pub any_of : (Opt → Bool) → List Opt → Bool
any_of f [] = false
any_of f (o ∷ os) = f o || any_of f os

abbrev pub gives_host : Opt → Option Bytes
gives_host (Opt.h optarg) = some optarg
gives_host _ = none

abbrev pub gives_interface : Opt → Option Bytes
gives_interface (Opt.i optarg) = some optarg
gives_interface _ = none

abbrev pub gives_type : Opt → Option Bytes
gives_type (Opt.t optarg) = some optarg
gives_type _ = none

abbrev pub asks_put : Opt → Bool
asks_put Opt.put = true
asks_put Opt.p = true
asks_put _ = false

abbrev pub asks_help : Opt → Bool
asks_help Opt.help = true
asks_help _ = false

abbrev pub asks_verbose : Opt → Bool
asks_verbose Opt.verbose = true
asks_verbose Opt.v = true
asks_verbose _ = false

-- The settings that a sequence of options describes, beginning with `s`.
pub record Describes (os : List Opt) (s s' : Settings) : Type 0 where
  pub verbose_flag : s'.verbose_flag ≡ (s.verbose_flag || any_of asks_verbose os)
  pub help_flag : s'.help_flag ≡ (s.help_flag || any_of asks_help os)
  pub write_flag : s'.write_flag ≡ (s.write_flag || any_of asks_put os)
  pub tftp_host : s'.tftp_host ≡ last_of gives_host s.tftp_host os
  pub local_interface : s'.local_interface ≡ last_of gives_interface s.local_interface os
  pub transfer_mode : s'.transfer_mode ≡ last_of gives_type s.transfer_mode os

or_flag : (x a b : Bool) → (x || (a || b)) ≡ ((x || a) || b)
or_flag x a b = ground arith

flags_of :
    (o : Opt) (s : Settings)
    → ((set_option o s).verbose_flag ≡ (s.verbose_flag || asks_verbose o))
      × ((set_option o s).help_flag ≡ (s.help_flag || asks_help o))
      × ((set_option o s).write_flag ≡ (s.write_flag || asks_put o))
unfolding set_option
flags_of o s = ground arith

values_of :
    (o : Opt) (s : Settings)
    → ((set_option o s).tftp_host ≡ (elim (gives_host o) [ none ↦ s.tftp_host | some x ↦ x ]))
      × ((set_option o s).local_interface
          ≡ (elim (gives_interface o) [ none ↦ s.local_interface | some x ↦ x ]))
      × ((set_option o s).transfer_mode
          ≡ (elim (gives_type o) [ none ↦ s.transfer_mode | some x ↦ x ]))
unfolding set_option
values_of o s = ground arith

describe_more : (os : List Opt) (s : Settings) → Describes os s (read_options os s)
unfolding read_options set_option
describe_more [] s = record {
  verbose_flag = ground arith;
  help_flag = ground arith;
  write_flag = ground arith;
  tftp_host = refl;
  local_interface = refl;
  transfer_mode = refl;
}
describe_more (o ∷ os) s =
    let r = describe_more os (set_option o s) in
    let (verbose, help, put) = flags_of o s in
    let (host, interface, type) = values_of o s in
    record {
      verbose_flag =
          r.verbose_flag
          ∙ ap (λ b. b || any_of asks_verbose os) verbose
          ∙ sym (or_flag s.verbose_flag (asks_verbose o) (any_of asks_verbose os));
      help_flag =
          r.help_flag
          ∙ ap (λ b. b || any_of asks_help os) help
          ∙ sym (or_flag s.help_flag (asks_help o) (any_of asks_help os));
      write_flag =
          r.write_flag
          ∙ ap (λ b. b || any_of asks_put os) put
          ∙ sym (or_flag s.write_flag (asks_put o) (any_of asks_put os));
      tftp_host = r.tftp_host ∙ ap (λ old. last_of gives_host old os) host;
      local_interface = r.local_interface ∙ ap (λ old. last_of gives_interface old os) interface;
      transfer_mode = r.transfer_mode ∙ ap (λ old. last_of gives_type old os) type;
    }

-- However the options are ordered and repeated: the server, the local interface and the type are
-- those of the last option that gives one, or empty, and a flag is set exactly when some option
-- asks for it.
read_options-Describes : (os : List Opt) → Describes os defaults (read_options os defaults)
read_options-Describes os = describe_more os defaults
