-- ===== src/Client/Program.antt =====
-- The whole client: `main` of src/client/main.cpp on the two functions of
-- src/client/tftp_client.cpp and their sockets.
use cpp_tftp.Common.{
  ℕ, suc, ◌<◌, ◌≡◌, ap, ◌∙◌, true, false, List, [], ◌∷◌, some, if◌then◌else◌, length, Bytes,
}
use cpp_tftp.Common.Outcome.{Outcome, ok, ◌>>=◌}
use cpp_tftp.Tftp.Types.{Mode, PacketType, DataPacket, rw_packet}
use cpp_tftp.Tftp.Serialise.{serialise_rw_packet, serialise_data_packet}
use cpp_tftp.Net.Udp.{Address, datagram_from}
use cpp_tftp.Net.Descriptors.{Descriptors}
use cpp_tftp.Server.Connection.Transfer.{data_blocks}
use cpp_tftp.Client.{no_reply}
use cpp_tftp.Client.GetFile.{Got, got, get_file}
use cpp_tftp.Client.GetFile.Complete.{ready, replies, acks, get_file-data_blocks}
use cpp_tftp.Client.Session.{Transfer, Meets, get_session, send_session}
use cpp_tftp.Client.Online.{Online, get_session_online}
use cpp_tftp.Client.Main.{
  Opt, Settings, defaults, read_options, chosen_mode, TftpClient, transfer_file, main,
}
use cpp_tftp.Client.Main.Reports.{main_returned}

-- `tftp_client` on what the transfer of each file meets.
abbrev pub tftp_client : (Bytes → Meets) → Descriptors → TftpClient
tftp_client meets fds = record {
  get_file = λ file host mode interface.
      let x : Transfer = record {
        filename = file;
        tftp_server = host;
        mode = mode;
        local_interface = interface;
      } in
      (get_session x (meets file) fds).0 >>= λ g. ok g.result;
  send_file = λ file host mode interface.
      let x : Transfer = record {
        filename = file;
        tftp_server = host;
        mode = mode;
        local_interface = interface;
      } in
      (send_session x (meets file) fds).0 >>= λ s. ok s.result;
}

abbrev pub transfer_of : Settings → Mode → Bytes → Transfer
transfer_of s mode file = record {
  filename = file;
  tftp_server = s.tftp_host;
  mode = mode;
  local_interface = s.local_interface;
}

-- The options ask for files in a mode.
pub record Gets (options : List Opt) (mode : Mode) : Type 0 where
  pub no_help : (read_options options defaults).help_flag ≡ false
  pub no_put : (read_options options defaults).write_flag ≡ false
  pub is_mode : chosen_mode (read_options options defaults).transfer_mode ≡ some mode

transfer_file_got :
    (meets : Bytes → Meets) (fds : Descriptors) (s : Settings) (mode : Mode) (f : Bytes) (g : Got)
    → s.write_flag ≡ false
    → (get_session (transfer_of s mode f) (meets f) fds).0 ≡ ok g
    → transfer_file (tftp_client meets fds) s mode f ≡ ok g.result
transfer_file_got meets fds s mode f g no_put e =
    let c = tftp_client meets fds in
    ap
      (λ b.
        if b
        then c.send_file f s.tftp_host mode s.local_interface
        else c.get_file f s.tftp_host mode s.local_interface)
      no_put
    ∙ ap (λ r. r >>= λ g. ok g.result) e

-- Asked for a file that a server sends in blocks of 512 bytes, in octet mode, the program writes
-- that file, acknowledges each block, exits with 0 and reports the file. The calls on the socket
-- succeed, the file can be opened, and each block comes when it is waited for.
pub main-Gets :
    (meets : Bytes → Meets) (fds : Descriptors) (options : List Opt) (filename : Bytes)
    (server : Address) (d : Bytes) (f : ℕ)
    → Gets options Mode.octet
    → let s = read_options options defaults in
      let x = transfer_of s Mode.octet filename in
      let n = meets filename in
      Online x n
      → n.out_file_opens ≡ true
      → n.polled ≡ ready
      → length d < suc f
      → (p : DataPacket) × (ps : List DataPacket) × (data_blocks (suc f) 512 1 d ≡ p ∷ ps)
        × (n.first ≡ datagram_from server (serialise_data_packet p)
            → n.exchanges ≡ replies ps
            → ((get_session x n fds).0
                ≡ ok (
                    got true d (
                      serialise_rw_packet (rw_packet filename PacketType.read Mode.octet)
                      ∷ acks (p ∷ ps))))
              × (main (tftp_client meets fds) options (filename ∷ []) ≡ (ok 0, filename ∷ [])))
main-Gets meets fds options filename server d f gets online opens polled fuel =
    let s = read_options options defaults in
    let n = meets filename in
    let x = transfer_of s Mode.octet filename in
    let (p, ps, blocks, all) = get_file-data_blocks filename server d f fuel in
    (
      p,
      ps,
      blocks,
      λ first exchanges.
          let got_all =
            get_session_online x n online fds
            ∙ ap (λ b. get_file filename Mode.octet b (ok tt) n.polled n.first n.exchanges) opens
            ∙ ap (λ q. get_file filename Mode.octet true (ok tt) q n.first n.exchanges) polled
            ∙ ap (λ y. get_file filename Mode.octet true (ok tt) ready y n.exchanges) first
            ∙ ap
                (get_file filename Mode.octet true (ok tt) ready
                  (datagram_from server (serialise_data_packet p)))
                exchanges
            ∙ all in
          (
            got_all,
            main_returned (tftp_client meets fds) options (filename ∷ []) Mode.octet gets.no_help
                gets.is_mode
                (
                  (true, transfer_file_got meets fds s Mode.octet filename _ gets.no_put got_all),
                  tt,
                ),
          ),
    )

-- A file for which no reply comes to the request.
pub record Unanswered (x : Transfer) (n : Meets) : Type 0 where
  pub online : Online x n
  pub silent : no_reply n.polled ≡ true
