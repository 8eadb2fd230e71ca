-- ===== src/Server/Connection/Order/States.antt =====
-- The states of a connection that serves a file, and what a call makes of them.
use cpp_tftp.Common.{
  ℕ, ◌^◌, ◌<◌, ◌≡◌, ◌⊎◌, refl, Bool, true, false, Option, none, some, ltb, length, drop, Bytes,
}
use cpp_tftp.Tftp.Serialise.{serialise_data_packet}
use cpp_tftp.File.Stream.{ReadStream}
use cpp_tftp.File.ReadFile.Pending.{IsReading, pending}
use cpp_tftp.Net.Timer.{Timer}
use cpp_tftp.Server.Connection.{Connection, State}
use cpp_tftp.Server.Connection.Read.{next_block}
use cpp_tftp.Server.Connection.Transfer.Round.{IsServing}
use cpp_tftp.Server.Connection.Order.{block_at}
use cpp_tftp.Server.Connection.Order.Reads.{is_sender, tweak}

-- The current block has not been read from the file yet.
pub record IsUnread (size number : ℕ) (d : Bytes) (c : Connection) : Type 0 where
  pub stream : ReadStream
  pub serving : IsServing c stream
  pub same_size : c.block_size ≡ size
  pub same_number : c.block_number ≡ number
  pub bytes : pending c.file_reader stream ≡ d

-- The current block stands in the packet.
pub record IsReady (size number : ℕ) (d : Bytes) (c : Connection) : Type 0 where
  pub stream : ReadStream
  pub state : is_sender c.state ≡ true
  pub ready : c.pkt_ready ≡ true
  pub packet : c.data_pkt ≡ block_at size number d
  pub final : c.final_ack ≡ ltb (length d) size
  pub is_word : c.block_number < 65536
  pub is_size : c.block_size < 2 ^ 64
  pub reading : IsReading c.block_size c.file_reader stream
  pub same_size : c.block_size ≡ size
  pub same_number : c.block_number ≡ number
  pub bytes : pending c.file_reader stream ≡ drop size d

-- The states of a sender, by whether the current block was sent.
abbrev pub IsSender : ℕ → Bool → ℕ → Bytes → Connection → Type 0
IsSender size false number d c = IsUnread size number d c ⊎ (c.state ≡ State.error)
IsSender size true number d c = IsReady size number d c ⊎ (c.state ≡ State.error)

-- What a call comes to: nothing is sent and the block stays the current one, or it is sent, or the
-- next one becomes the current one.
pub data Outcomes (size : ℕ) : Bool → ℕ → Bytes → Connection × Option Bytes → Type 0 where
  stays :
      (offered : Bool) (number : ℕ) (d : Bytes) (c : Connection)
      → IsSender size offered number d c
      → Outcomes size offered number d (c, none)
  sends :
      (offered : Bool) (number : ℕ) (d : Bytes) (c : Connection)
      → IsSender size true number d c
      → Outcomes size offered number d (c, some (serialise_data_packet (block_at size number d)))
  moves :
      (number : ℕ) (d : Bytes) (c : Connection)
      → ltb (length d) size ≡ false
      → IsUnread size (next_block number) (drop size d) c
      → Outcomes size true number d (c, none)

pub IsUnread-tweak :
    (size number : ℕ) (d : Bytes) (c : Connection) (f : Bool) (n : ℕ) (tm : Timer)
    → IsUnread size number d c
    → IsUnread size number d (tweak f n State.send_data tm c)
IsUnread-tweak size number d c f n tm u =
    let v = u.serving in
    record {
      stream = u.stream;
      serving = record {
        sends = refl;
        unread = v.unread;
        not_final = v.not_final;
        is_word = v.is_word;
        is_size = v.is_size;
        reading = v.reading;
      };
      same_size = u.same_size;
      same_number = u.same_number;
      bytes = u.bytes;
    }

pub IsReady-tweak :
    (size number : ℕ) (d : Bytes) (c : Connection) (f : Bool) (n : ℕ) (q : State) (tm : Timer)
    → is_sender q ≡ true
    → IsReady size number d c
    → IsReady size number d (tweak f n q tm c)
IsReady-tweak size number d c f n q tm s r = record {
  stream = r.stream;
  state = s;
  ready = r.ready;
  packet = r.packet;
  final = r.final;
  is_word = r.is_word;
  is_size = r.is_size;
  reading = r.reading;
  same_size = r.same_size;
  same_number = r.same_number;
  bytes = r.bytes;
}
