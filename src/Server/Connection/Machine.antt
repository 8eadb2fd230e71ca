-- ===== src/Server/Connection/Machine.antt =====
-- The state machine of a connection: the states that its type of request can be in, and what a
-- call may change.
pub mod Reads
pub mod Writes
pub mod Reach
use cpp_tftp.Common.{◌<◌, ◌≤◌, ◌≡◌, refl, sym, ap, ◌∙◌, Bool, true, ◌||◌}
use cpp_tftp.Tftp.Types.{PacketType}
use cpp_tftp.File.ReadFile
use cpp_tftp.File.WriteFile.{write, error}
use cpp_tftp.Server.Connection.{Connection, State}
use cpp_tftp.Server.Connection.Host.{is_read, is_write}

-- The states that a connection for a type of request can be in.
abbrev pub belongs : State → PacketType → Bool
belongs State.send_data ty = is_read ty
belongs State.wait_for_ack ty = is_read ty
belongs State.send_ack ty = is_write ty
belongs State.wait_for_data ty = is_write ty
belongs State.send_oack ty = is_read ty || is_write ty
belongs State.error ty = true

-- A connection whose state is one for its type, and whose counters are in range.
pub record IsConsistent (c : Connection) : Type 0 where
  pub role : belongs c.state c.type ≡ true
  pub count : c.timeout_count ≤ 3
  pub is_word : c.block_number < 65536

-- What one call may do to a consistent connection: it stays consistent and keeps its client and
-- what was negotiated, and only the file that its request is about can change.
pub record Moves (c c' : Connection) : Type 0 where
  pub consistent : IsConsistent c'
  pub same_type : c'.type ≡ c.type
  pub same_client : c'.client ≡ c.client
  pub same_block_size : c'.block_size ≡ c.block_size
  pub same_timeout : c'.timeout_s ≡ c.timeout_s
  pub writer_kept : is_read c.type ≡ true → c'.file_writer ≡ c.file_writer
  pub reader_kept : is_write c.type ≡ true → c'.file_reader ≡ c.file_reader

pub not_both : (ty : PacketType) → is_read ty ≡ true → is_write ty ≡ true → ⊥
not_both PacketType.read r w = cc w
not_both PacketType.write r w = cc r
not_both PacketType.data_pkt r w = cc r
not_both PacketType.ack r w = cc r
not_both PacketType.error r w = cc r
not_both PacketType.oack r w = cc r

pub stays : (c : Connection) → IsConsistent c → Moves c c
stays c v = record {
  consistent = v;
  same_type = refl;
  same_client = refl;
  same_block_size = refl;
  same_timeout = refl;
  writer_kept = λ _. refl;
  reader_kept = λ _. refl;
}

pub role_in :
    (c : Connection) → IsConsistent c → (q : State) → c.state ≡ q → belongs q c.type ≡ true
role_in c v q e = ap (λ q. belongs q c.type) (sym e) ∙ v.role

pub Moves-trans : (c d e : Connection) → Moves c d → Moves d e → Moves c e
Moves-trans c d e p q = record {
  consistent = q.consistent;
  same_type = q.same_type ∙ p.same_type;
  same_client = q.same_client ∙ p.same_client;
  same_block_size = q.same_block_size ∙ p.same_block_size;
  same_timeout = q.same_timeout ∙ p.same_timeout;
  writer_kept = λ r. q.writer_kept (ap is_read p.same_type ∙ r) ∙ p.writer_kept r;
  reader_kept = λ w. q.reader_kept (ap is_write p.same_type ∙ w) ∙ p.reader_kept w;
}
