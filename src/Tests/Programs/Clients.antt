-- ===== src/Tests/Programs/Clients.antt =====
-- Tests of the program of src/client/main.cpp.
use cpp_tftp.Common.{
  ◌≡◌, inl, inr, refl, ap, Bool, true, false, List, [], ◌∷◌, none, some, arith, Bytes, codes,
  if◌then◌else◌, ◌==◌,
}
use cpp_tftp.Common.Outcome.{Outcome, ok, throw, Exception, system_error, Settled}
use cpp_tftp.Tftp.Types.{PacketType, Mode, DataPacket, rw_packet}
use cpp_tftp.Tftp.Serialise.{serialise_rw_packet, serialise_data_packet}
use cpp_tftp.Net.Udp.{datagram_from}
use cpp_tftp.Net.Inet.{inaddr_any, sockaddr_in}
use cpp_tftp.Net.Socket.{bind_address}
use cpp_tftp.Server.Connection.Transfer.{data_blocks}
use cpp_tftp.Client.{PollReturn}
use cpp_tftp.Client.GetFile.{got}
use cpp_tftp.Client.GetFile.Complete.{ready, replies, acks}
use cpp_tftp.Client.Session.{Meets, get_session}
use cpp_tftp.Client.Main.{
  Opt, Settings, defaults, read_options, set_option, chosen_mode, TftpClient, transfer_file,
}
use cpp_tftp.Client.Main.Reports.{Transferred, main-Transferred}
use cpp_tftp.Client.Online.{Online}
use cpp_tftp.Client.Program.{tftp_client, transfer_of, Gets, main-Gets}
use cpp_tftp.Client.Main
use cpp_tftp.Tests.{sent_ok, client}
use cpp_tftp.Tests.Programs.{inet, socket_calls}

abbrev options : List Opt
options = Opt.h (codes "a") ∷ Opt.v ∷ Opt.h (codes "b") ∷ Opt.t [] ∷ Opt.unrecognised ∷ []

-- The transfer of a file that is called b throws, and others return false.
abbrev transfer_one : Bytes → Outcome Bool
transfer_one [] = ok false
transfer_one (x ∷ _) = if x == b'b' then throw system_error else ok false

abbrev faulty : TftpClient
faulty = record { get_file = λ f _ _ _. transfer_one f; send_file = λ f _ _ _. transfer_one f }

if-Settled : (b : Bool) (e : Exception) (a : Bool) → Settled (if b then throw e else ok a)
if-Settled true e a = inl (e, refl)
if-Settled false e a = inr (a, refl)

transfer_one-Settled : (f : Bytes) → Settled (transfer_one f)
transfer_one-Settled [] = inr (false, refl)
transfer_one-Settled (x ∷ _) = if-Settled (x == b'b') _ _

transfer_file-Settled : (s : Settings) (f : Bytes) → Settled (transfer_file faulty s Mode.octet f)
transfer_file-Settled s f = either s.write_flag
  where
    either : (b : Bool) → Settled (if b then transfer_one f else transfer_one f)
    either true = transfer_one-Settled f
    either false = transfer_one-Settled f

abbrev files : List Bytes
files = codes "a" ∷ codes "b" ∷ codes "c" ∷ []

options_read :
    let s = read_options options defaults in
    (s.help_flag ≡ false) × (chosen_mode s.transfer_mode ≡ some Mode.octet)
unfolding read_options chosen_mode set_option
options_read = (refl, refl)

main-Transferred_example :
    Transferred
      (transfer_file faulty (read_options options defaults) Mode.octet)
      files
      (Main.main faulty options files).1
      (Main.main faulty options files).0
main-Transferred_example =
    main-Transferred faulty options files Mode.octet options_read.0 options_read.1
      (transfer_file-Settled (read_options options defaults))

-- A server that sends a file of one block.
abbrev one_block : DataPacket
one_block = record { payload = 1 ∷ 2 ∷ []; block_number = 1 }

abbrev answered : Meets
answered = record {
  inet = inet;
  socket_calls = socket_calls;
  sendto = sent_ok;
  polled = ready;
  first = datagram_from client (serialise_data_packet one_block);
  exchanges = [];
  out_file_opens = true;
  in_file = none;
}

-- No reply comes.
abbrev unanswered : Meets
unanswered = record answered { polled = record { ret = PollReturn.zero; pollout = false } }

abbrev plain : List Opt
plain = Opt.h (codes "10.0.0.1") ∷ []

plain-Gets : Gets plain Mode.octet
unfolding read_options chosen_mode set_option
plain-Gets = record { no_help = refl; no_put = refl; is_mode = refl }

plain-Online :
    (n : Meets)
    → n.inet ≡ inet
    → n.socket_calls ≡ socket_calls
    → Online (transfer_of (read_options plain defaults) Mode.octet (codes "f")) n
unfolding read_options set_option bind_address
plain-Online n i k = record {
  sd = 5;
  made = ap (λ k. k.socket_sd) k;
  reuses = ap (λ k. k.setsockopt) k;
  binds = ap (λ k. k.bind_call) k;
  connects = ap (λ k. k.connect_call) k;
  local = sockaddr_in inaddr_any 0;
  local_read = refl;
  server = codes "10.0.0.1";
  server_read = ap (λ i. i.inet_pton (codes "10.0.0.1")) i;
}

main-Gets_example :
    let s = read_options plain defaults in
    let x = transfer_of s Mode.octet (codes "f") in
    (p : DataPacket) × (ps : List DataPacket) × (data_blocks 3 512 1 (1 ∷ 2 ∷ []) ≡ p ∷ ps)
    × (answered.first ≡ datagram_from client (serialise_data_packet p)
        → answered.exchanges ≡ replies ps
        → ((get_session x answered []).0
            ≡ ok (
                got true (1 ∷ 2 ∷ []) (
                  serialise_rw_packet (rw_packet (codes "f") PacketType.read Mode.octet)
                  ∷ acks (p ∷ ps))))
          × (Main.main (tftp_client (λ _. answered) []) plain (codes "f" ∷ [])
              ≡ (ok 0, codes "f" ∷ [])))
main-Gets_example =
    main-Gets (λ _. answered) [] plain (codes "f") client (1 ∷ 2 ∷ []) 2 plain-Gets
      (plain-Online answered refl refl) refl refl (omega arith)
