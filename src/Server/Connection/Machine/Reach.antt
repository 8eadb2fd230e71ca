-- ===== src/Server/Connection/Machine/Reach.antt =====
-- What a connection can come to, from its request on.
use cpp_tftp.Common.{
  ◌≡◌, ◌<◌, refl, ap, subst, true, ◌||◌, inl, inr, Option, none, some, arith, Bool-cases,
  Option-cases, is_empty, Bytes,
}
use cpp_tftp.Common.Outcome.{ok, bind-eq-ok, ok-injective}
use cpp_tftp.Tftp.Types.{PacketType, RwPacket, ErrorPacket}
use cpp_tftp.File.ReadFile.{open_read}
use cpp_tftp.File.WriteFile.{open_write}
use cpp_tftp.Net.Udp.{Address, Received, SendResult}
use cpp_tftp.Net.Timer.{TimerRead}
use cpp_tftp.Server.Connection.{Connection, initial, set_finished}
use cpp_tftp.Server.Connection.Host.{Host, is_operation_allowed, is_read, is_write}
use cpp_tftp.Server.Connection.Options.{process_options}
use cpp_tftp.Server.Connection.Options.Bounds.{process_options-Keeps}
use cpp_tftp.Server.Connection.Create.{
  create, create_checked, create_type, create_read, create_write, resize_data,
}
use cpp_tftp.Server.Connection.Read.{handle_read}
use cpp_tftp.Server.Connection.Write.{handle_write}
use cpp_tftp.Server.Connection.Machine.{IsConsistent, Moves, stays, Moves-trans}
use cpp_tftp.Server.Connection.Machine.Reads.{handle_read-Moves}
use cpp_tftp.Server.Connection.Machine.Writes.{handle_write-Moves}

-- A call of the server's loop on a connection, whatever the timer and the network give.
pub data Step : Connection → Connection → Type 0 where
  reads : (t : TimerRead) (r : Received) (c c' : Connection) → handle_read t r c ≡ ok c' → Step c c'
  writes :
      (r : SendResult) (c c' : Connection) (sent : Option Bytes)
      → handle_write r c ≡ ok (c', sent)
      → Step c c'
  closes : (c : Connection) → Step c (set_finished true c)

pub data Steps (c : Connection) : Connection → Type 0 where
  none_yet : Steps c c
  after : (d e : Connection) → Steps c d → Step d e → Steps c e

Step-Moves : (c d : Connection) → IsConsistent c → Step c d → Moves c d
unfolding set_finished
Step-Moves c d v (reads t r _ _ e) = handle_read-Moves c v t r e
Step-Moves c d v (writes r _ _ sent e) = handle_write-Moves r c v e
Step-Moves c d v (closes _) = let role = v.role in ground arith

Steps-Moves : (c d : Connection) → IsConsistent c → Steps c d → Moves c d
Steps-Moves c d v none_yet = stays c v
Steps-Moves c d v (after c' _ before step) =
    let m = Steps-Moves c c' v before in Moves-trans c c' d m (Step-Moves c' d m.consistent step)

create_read-IsConsistent :
    (h : Host) (r : RwPacket) (c : Connection)
    → is_read c.type ≡ true
    → c.timeout_count ≡ 0
    → IsConsistent (create_read h r c)
unfolding create_read open_read
create_read-IsConsistent h r c t z = elim (Bool-cases (is_empty c.oack_packet.options)) [
  | inl plain ↦ elim (Option-cases (h.fopen_read r.filename)) [
    | inl f ↦ rw (f, plain) (record { role = t; count = omega (arith, z); is_word = omega arith })
    | inr (s, f) ↦
        rw (f, plain) (record { role = t; count = omega (arith, z); is_word = omega arith })
  ]
  | inr asked ↦ elim (Option-cases (h.fopen_read r.filename)) [
    | inl f ↦
        rw (f, asked) (record { role = rw t; count = omega (arith, z); is_word = omega arith })
    | inr (s, f) ↦
        rw (f, asked) (record { role = rw t; count = omega (arith, z); is_word = omega arith })
  ]
]

create_write-IsConsistent :
    (h : Host) (r : RwPacket) (c : Connection)
    → is_write c.type ≡ true
    → c.timeout_count ≡ 0
    → IsConsistent (create_write h r c)
unfolding create_write open_write
create_write-IsConsistent h r c t z = elim (Option-cases (h.fopen_write r.filename)) [
  | inl f ↦ rw f (record { role = refl; count = omega (arith, z); is_word = omega arith })
  | inr (w, f) ↦
      let known : (is_read c.type || is_write c.type) ≡ true = ground arith in rw f (ground arith)
]

before-Keeps :
    (h : Host) (r : RwPacket) (client : Address)
    → let c = process_options h r (resize_data (initial r.type client)) in
      (c.type ≡ r.type) × (c.timeout_count ≡ 0)
before-Keeps h r client =
    let kept = process_options-Keeps h r (resize_data (initial r.type client)) in
    (ap (λ c. c.type) kept, ap (λ c. c.timeout_count) kept)

create_type-IsConsistent :
    (ty : PacketType) (h : Host) (r : RwPacket) (c : Connection)
    → c.type ≡ ty
    → c.timeout_count ≡ 0
    → c.block_number < 65536
    → IsConsistent (create_type ty h r c)
unfolding create_type
create_type-IsConsistent PacketType.read h r c t z b =
    create_read-IsConsistent h r c (ap is_read t) z
create_type-IsConsistent PacketType.write h r c t z b =
    create_write-IsConsistent h r c (ap is_write t) z
create_type-IsConsistent _ h r c t z b = record {
  role = refl;
  count = omega (arith, z);
  is_word = b;
}

create_checked-IsConsistent :
    (o : Option ErrorPacket) (h : Host) (r : RwPacket) (client : Address)
    → IsConsistent (create_checked o h r (initial r.type client))
unfolding create_checked
create_checked-IsConsistent (some e) h r client = record {
  role = refl;
  count = omega arith;
  is_word = omega arith;
}
create_checked-IsConsistent none h r client =
    let start = resize_data (initial r.type client) in
    let (type, count) = before-Keeps h r client in
    let number = ap (λ c. c.block_number) (process_options-Keeps h r start) in
    create_type-IsConsistent r.type h r (process_options h r start) type count
      (omega (arith, number))

create-IsConsistent :
    (h : Host) (r : RwPacket) (client : Address) {c : Connection}
    → create h r client ≡ ok c
    → IsConsistent c
unfolding create
create-IsConsistent h r client e =
    let (u, _, e1) = bind-eq-ok h.socket _ e in
    subst IsConsistent (ok-injective e1)
      (create_checked-IsConsistent (is_operation_allowed h r.filename r.type) h r client)

-- Whatever the timer and the network give, a connection stays in the states of its type of request,
-- its count of timeouts is at most three, it keeps its client, block size and timeout, and it only
-- touches the file that its request is about.
pub create-Moves :
    (h : Host) (r : RwPacket) (client : Address) (c d : Connection)
    → create h r client ≡ ok c
    → Steps c d
    → Moves c d
create-Moves h r client c d e steps = Steps-Moves c d (create-IsConsistent h r client e) steps
