-- ===== src/Server/Connection/Transfer/Endless.antt =====
-- A block size of 0, which nothing in src/server/tftp_server_connection.cpp refuses.
use cpp_tftp.Common.{
  ℕ, zero, suc, ◌%◌, ◌^◌, ◌≡◌, refl, ap, ◌∙◌, true, false, List, [], ◌∷◌, Option, none, some, arith,
  ltb, le→ltb, length, take, equal, c_str, Bytes,
}
use cpp_tftp.Common.Outcome.{ok, ◌>>=◌}
use cpp_tftp.Common.Decimal.{stoul}
use cpp_tftp.Tftp.Types.{PacketType, DataPacket, RwPacket}
use cpp_tftp.Tftp.Serialise.{serialise_data_packet}
use cpp_tftp.File.Stream.{ReadStream}
use cpp_tftp.File.ReadFile.{open_read}
use cpp_tftp.File.ReadFile.Loops.{IsGood}
use cpp_tftp.File.ReadFile.Pending.{pending}
use cpp_tftp.Net.Udp.{Address, SendResult, send_done}
use cpp_tftp.Net.Timer.{TimerRead, has_expired}
use cpp_tftp.Tftp.Modes.{strcmp_eq}
use cpp_tftp.Server.Connection.{Connection, State, initial}
use cpp_tftp.Server.Connection.Host.{Host, is_read}
use cpp_tftp.Server.Connection.Options.{
  blksize_opt, reply, set_block_size, blksize_result, process_option, process_all,
}
use cpp_tftp.Server.Connection.Read.{next_block}
use cpp_tftp.Server.Connection.Create.{create, create_type, create_read, resize_data}
use cpp_tftp.Server.Connection.Access.{IsAllowed, before_switch, create_allowed}
use cpp_tftp.Server.Connection.Transfer.{serve}
use cpp_tftp.Server.Connection.Transfer.Round.{IsServing, block_of, reads}
use cpp_tftp.Server.Connection.Transfer.Complete.{
  packets, next, after_full, next-IsServing, serve_round,
}
use cpp_tftp.Server.Connection.Transfer.Negotiated.{
  IsOffering, Agrees, agreed, agreed-IsServing, offer-Agrees,
}

-- Data packets with no data, numbered on from `block`.
unfoldable pub empty_blocks : ℕ → ℕ → List DataPacket
empty_blocks zero block = []
empty_blocks (suc f) block =
    record { payload = []; block_number = block } ∷ empty_blocks f (next_block block)

-- After f rounds the connection has sent f such packets, and is not finished.
pub record Endless (f : ℕ) (r : SendResult) (t : TimerRead) (c : Connection) : Type 0 where
  pub last : Connection
  pub runs : serve f r t c ≡ ok (last, packets (empty_blocks f c.block_number))
  pub unfinished : last.finished ≡ false

serve_none : (r : SendResult) (t : TimerRead) (c : Connection) → serve 0 r t c ≡ ok (c, [])
unfolding serve
serve_none r t c = refl

serve-Endless :
    (f : ℕ) (r : SendResult) (t : TimerRead) (c : Connection) (s : ReadStream)
    → send_done r ≡ true
    → has_expired t ≡ false
    → IsServing c s
    → c.finished ≡ false
    → c.block_size ≡ 0
    → Endless f r t c
unfolding empty_blocks
serve-Endless zero r t c s sends on_time v active z = record {
  last = c;
  runs = serve_none r t c;
  unfinished = active;
}
serve-Endless (suc f) r t c s sends on_time v active z =
    let full : ltb (length (pending c.file_reader s)) c.block_size ≡ false =
      ap (ltb (length (pending c.file_reader s))) z ∙ le→ltb _ _ (omega arith) in
    let rest =
      serve-Endless f r t (next c s v) (reads c s v).next_stream sends on_time
        (next-IsServing c s v) active z in
    let same = after_full c s v full in
    record {
      last = rest.last;
      runs =
          serve_round r t sends on_time f c s v false (ap (λ a. a.finished) same ∙ active)
          ∙ ap
              (λ a.
                serve f r t a >>= λ x. ok (x.0, some (serialise_data_packet (block_of c s)) ∷ x.1))
              same
          ∙ ap (λ o. o >>= λ x. ok (x.0, some (serialise_data_packet (block_of c s)) ∷ x.1))
              rest.runs
          ∙ ap
              (λ n. ok (
                rest.last,
                some (
                      serialise_data_packet (record {
                        payload = take n (pending c.file_reader s);
                        block_number = c.block_number;
                      }))
                    ∷ packets (empty_blocks f (next_block c.block_number)),
              ))
              z;
      unfinished = rest.unfinished;
    }

-- The connection for a request whose option sets the block size to 0.
abbrev pub zero_sized : RwPacket → Address → Bytes → ReadStream → Connection
zero_sized request client value s = record (resize_data (initial request.type client)) {
  file_reader = record { fd = some s; mode = request.mode; overflow_buffer = [] };
  state = State.send_oack;
  block_number = 0;
  block_size = 0;
  oack_packet = record { options = (blksize_opt, value) ∷ [] };
}

zero_sized-IsOffering :
    (request : RwPacket) (client : Address) (value : Bytes) (s : ReadStream)
    → request.type ≡ PacketType.read
    → IsGood s
    → IsOffering (zero_sized request client value s) s
zero_sized-IsOffering request client value s read good = record {
  offers = refl;
  reads = ap is_read read;
  at_start = refl;
  unread = refl;
  unfinished = refl;
  not_final = refl;
  is_size = omega arith;
  reading = record {
    opened = refl;
    good = good;
    overflow_fits = omega arith;
    octet_has_none = λ _. refl;
  };
}

set_zero :
    (mtu : Option ℕ) (value : Bytes) (c : Connection)
    → set_block_size mtu blksize_opt value 0 c
      ≡ reply blksize_opt value (record c { block_size = 0 })
unfolding set_block_size
set_zero none value c = refl
set_zero (some m) value c = ground arith

option_zero :
    (h : Host) (request : RwPacket) (value : Bytes) (n : ℕ) (c : Connection)
    → stoul value ≡ ok n
    → n % 2 ^ 32 ≡ 0
    → process_option h request (blksize_opt, value) c
      ≡ reply blksize_opt value (record c { block_size = 0 })
unfolding process_option blksize_result strcmp_eq equal c_str
option_zero h request value n c e z =
    ap (λ o. blksize_result h blksize_opt value o c) e
    ∙ ap (λ m. set_block_size h.mtu blksize_opt value m c) z
    ∙ set_zero h.mtu value c

create_read_zero :
    (h : Host) (request : RwPacket) (client : Address) (value : Bytes) (s : ReadStream)
    → h.fopen_read request.filename ≡ some s
    → create_read h request (
        reply blksize_opt value
          (record (resize_data (initial request.type client)) { block_size = 0 }))
      ≡ zero_sized request client value s
unfolding create_read open_read
create_read_zero h request client value s f = rw f

-- A request to read with the block size 0, or any multiple of 2 ^ 32, as its one option, for a file
-- that exists below the root and can be opened: the connection agrees to it, and then sends empty
-- blocks without end to a client that acknowledges each. After any number of rounds it is not
-- finished. The socket can be set up, each send succeeds, and no timer runs out.
pub create-Endless :
    (h : Host) (request : RwPacket) (client : Address) (value : Bytes) (n : ℕ) (s : ReadStream)
    (r : SendResult) (t : TimerRead)
    → h.socket ≡ ok tt
    → request.type ≡ PacketType.read
    → request.options ≡ (blksize_opt, value) ∷ []
    → stoul value ≡ ok n
    → n % 2 ^ 32 ≡ 0
    → IsAllowed h request.filename request.type
    → h.fopen_read request.filename ≡ some s
    → IsGood s
    → send_done r ≡ true
    → has_expired t ≡ false
    → let c = zero_sized request client value s in
      (create h request client ≡ ok c) × Agrees r t c × ((f : ℕ) → Endless f r t (agreed c))
unfolding create_type process_all
create-Endless h request client value n s r t socket read option parses is_zero allowed file good
      sends on_time =
    let c = zero_sized request client value s in
    let offers = zero_sized-IsOffering request client value s read good in
    let first = resize_data (initial request.type client) in
    (
      create_allowed h request client socket allowed
          ∙ ap (λ ty. ok (create_type ty h request (before_switch h request client))) read
          ∙ ap (λ o. ok (create_read h request (process_all h request o first))) option
          ∙ ap (λ c. ok (create_read h request c))
              (option_zero h request value n first parses is_zero)
          ∙ ap ok (create_read_zero h request client value s file),
      offer-Agrees r t c s sends on_time offers,
      λ f. serve-Endless f r t (agreed c) s sends on_time (agreed-IsServing c s offers) refl refl,
    )
