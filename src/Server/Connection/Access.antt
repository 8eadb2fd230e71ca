-- ===== src/Server/Connection/Access.antt =====
-- Which requests a connection serves, and what it opens for them.
use cpp_tftp.Common.{
  ◌≡◌, ◌⊎◌, refl, ap, ◌∙◌, true, false, inl, inr, ◌++◌, none, arith, Bool-cases, is_empty, Bytes,
}
use cpp_tftp.Common.Outcome.{ok, undefined, ◌>>=◌}
use cpp_tftp.Utils.Subpath.{FilePath, is_subpath, is_subpath_iff}
use cpp_tftp.Tftp.Types.{PacketType, RwPacket}
use cpp_tftp.File.ReadFile.{open_read, read_in_to}
use cpp_tftp.Net.Udp.{Address, SendResult}
use cpp_tftp.Server.Connection.{Connection, State, initial}
use cpp_tftp.Server.Connection.Host.{
  Host, is_operation_allowed, is_read, is_write, canonical_filepath, canonical_server_root,
}
use cpp_tftp.Server.Connection.Options.{process_options}
use cpp_tftp.Server.Connection.Create.{
  create, create_checked, create_type, create_read, resize_data,
}
use cpp_tftp.Server.Connection.Options.Bounds.{process_options-Keeps}
use cpp_tftp.Server.Connection.Write.{handle_write, prepare, read_block}

-- What the comment on `is_operation_allowed` promises.
pub record IsAllowed (h : Host) (file_request : Bytes) (type : PacketType) : Type 0 where
  pub below : FilePath
  pub inside : canonical_filepath h file_request ≡ canonical_server_root h ++ below
  pub write_is_new : is_write type ≡ true → h.exists (canonical_filepath h file_request) ≡ false
  pub read_exists : is_read type ≡ true → h.exists (canonical_filepath h file_request) ≡ true

of_allowed :
    (h : Host) (f : Bytes) (type : PacketType)
    → IsAllowed h f type
    → is_operation_allowed h f type ≡ none
unfolding is_operation_allowed
of_allowed h f type a =
    let path = canonical_filepath h f in
    let inside : is_subpath path (canonical_server_root h) ≡ true =
      (is_subpath_iff path (canonical_server_root h)).1 (a.below, a.inside) in
    rw inside (ground arith)

-- The connection as it is before the `switch` on the type of the request.
abbrev pub before_switch : Host → RwPacket → Address → Connection
before_switch h r client = process_options h r (resize_data (initial r.type client))

pub create_allowed :
    (h : Host) (r : RwPacket) (client : Address)
    → h.socket ≡ ok tt
    → IsAllowed h r.filename r.type
    → create h r client ≡ ok (create_type r.type h r (before_switch h r client))
unfolding create create_checked
create_allowed h r client s a =
    ap
      (λ m. m >>= λ _.
        ok (create_checked (is_operation_allowed h r.filename r.type) h r (initial r.type client)))
      s
    ∙ ap (λ o. ok (create_checked o h r (initial r.type client))) (of_allowed h r.filename r.type a)

send_unopened :
    (c : Connection) (send : SendResult)
    → c.state ≡ State.send_data
    → c.pkt_ready ≡ false
    → c.file_reader.fd ≡ none
    → handle_write send c ≡ undefined
unfolding handle_write prepare read_block read_in_to
send_unopened c send s p f = ground arith

create_read_unopened :
    (h : Host) (r : RwPacket) (c : Connection)
    → h.fopen_read r.filename ≡ none
    → let d = create_read h r c in
      ((d.state ≡ State.send_data) ⊎ (d.state ≡ State.send_oack))
      × (d.file_reader.fd ≡ none)
      × (d.pkt_ready ≡ c.pkt_ready)
unfolding create_read open_read
create_read_unopened h r c f = elim (Bool-cases (is_empty c.oack_packet.options)) [
  | inl e ↦ rw (f, e) (inl refl, refl, refl)
  | inr e ↦ rw (f, e) (inr refl, refl, refl)
]

-- A request to read a file that cannot be opened, though it exists, where a socket can be set up:
-- the error state that is set for it is overwritten. The connection goes on with a reader that has
-- no file, and if no options are to be acknowledged first its first send hands a null stream to
-- <cstdio>.
pub create_unopened_read :
    (h : Host) (r : RwPacket) (client : Address)
    → h.socket ≡ ok tt
    → r.type ≡ PacketType.read
    → IsAllowed h r.filename r.type
    → h.fopen_read r.filename ≡ none
    → (c : Connection) × (create h r client ≡ ok c)
      × ((c.state ≡ State.send_data) ⊎ (c.state ≡ State.send_oack))
      × (c.file_reader.fd ≡ none)
      × ((send : SendResult) → c.state ≡ State.send_data → handle_write send c ≡ undefined)
unfolding create_type
create_unopened_read h r client s t a f =
    let c = before_switch h r client in
    let (state, reader, ready) = create_read_unopened h r c f in
    let unready : c.pkt_ready ≡ false =
      ap (λ c. c.pkt_ready) (process_options-Keeps h r (resize_data (initial r.type client))) in
    (
      create_read h r c,
      create_allowed h r client s a ∙ ap (λ t. ok (create_type t h r c)) t,
      state,
      reader,
      λ send sends. send_unopened (create_read h r c) send sends (ready ∙ unready) reader,
    )
