-- ===== src/Server/Connection/Order/Prefix.antt =====
-- The blocks that a connection sends are those of a prefix of the file.
use cpp_tftp.Common.{
  ℕ, ◌<◌, ◌≡◌, refl, ap, ◌∙◌, Bool, true, false, List, [], ◌∷◌, ◌++◌, append_assoc, Option, none,
  some, arith, ◌==◌, ==_refl, if◌then◌else◌, take, drop, take-append-drop, All, Bytes,
}
use cpp_tftp.Common.Outcome.{Outcome, ok}
use cpp_tftp.Tftp.Types.{DataPacket, ErrorPacket}
use cpp_tftp.Tftp.Serialise.{serialise_data_packet, serialise_error_packet}
use cpp_tftp.Tftp.Deserialise.{deserialise_data_packet}
use cpp_tftp.Tftp.Deserialise.Forms.{deserialise_data_packet_long}
use cpp_tftp.Tftp.RoundTrip.{deserialise_data_packet-serialise_data_packet}
use cpp_tftp.File.Stream.{ReadStream}
use cpp_tftp.File.ReadFile.Pending.{pending}
use cpp_tftp.Server.Connection.{Connection}
use cpp_tftp.Server.Connection.Read.{next_block}
use cpp_tftp.Server.Connection.Transfer.Round.{IsServing}
use cpp_tftp.Server.Connection.Order.{Call, drive, block_at, Sends, silent, block, move, fail}
use cpp_tftp.Server.Connection.Order.Sender.{drive-Sends}

-- The data packet in a datagram, if it has the number that is waited for.
expected : ℕ → Outcome (Option DataPacket) → Option DataPacket
expected number (ok (some p)) = if p.block_number == number then some p else none
expected number _ = none

-- What a receiver puts together of the rest of a sequence, after a datagram that has or has not the
-- next block.
abbrev collected : Option DataPacket → ℕ → (ℕ → Bytes) → Bytes
collected none number rest = rest number
collected (some p) number rest = p.payload ++ rest (next_block number)

-- What a receiver puts together from a sequence of datagrams, the next number being `number`.
pub collect : ℕ → List Bytes → Bytes
unfolding expected
collect number [] = []
collect number (x ∷ xs) =
    collected (expected number (deserialise_data_packet x)) number (λ n. collect n xs)

collect-cons :
    (number : ℕ) (x : Bytes) (xs : List Bytes) (o : Option DataPacket)
    → expected number (deserialise_data_packet x) ≡ o
    → collect number (x ∷ xs) ≡ collected o number (λ n. collect n xs)
unfolding collect
collect-cons number x xs o e = ap (λ o. collected o number (λ n. collect n xs)) e

expected-block :
    (number : ℕ) (p : DataPacket) (b : Bool)
    → p.block_number < 65536
    → (p.block_number == number) ≡ b
    → expected number (deserialise_data_packet (serialise_data_packet p))
      ≡ (if b then some p else none)
unfolding expected
expected-block number p b h e =
    ap (expected number) (deserialise_data_packet-serialise_data_packet p h)
    ∙ ap (λ b. if b then some p else none) e

expected-error :
    (number : ℕ) (e : ErrorPacket)
    → expected number (deserialise_data_packet (serialise_error_packet e)) ≡ none
unfolding expected serialise_error_packet
expected-error number e = ap (expected number) (deserialise_data_packet_long 0 5 _ _ _)

collect-errors :
    (number : ℕ) (e : ErrorPacket) (xs : List Bytes)
    → All (λ x. x ≡ serialise_error_packet e) xs
    → collect number xs ≡ []
unfolding collect
collect-errors number e [] h = refl
collect-errors number e (x ∷ xs) h =
    collect-cons number x xs none
      (ap (λ x. expected number (deserialise_data_packet x)) h.0 ∙ expected-error number e)
    ∙ collect-errors number e xs h.1

-- Bytes that some bytes begin with.
abbrev pub IsPrefix : Bytes → Bytes → Type 0
IsPrefix a d = (rest : Bytes) × (a ++ rest ≡ d)

-- The number that a receiver waits for, and the bytes that it has yet to get.
abbrev waited : Bool → ℕ → ℕ
waited false number = number
waited true number = next_block number

abbrev missing : Bool → ℕ → Bytes → Bytes
missing false size d = d
missing true size d = drop size d

Sends-prefix :
    (size : ℕ) (offered : Bool) (number : ℕ) (d : Bytes) (xs : List Bytes)
    → number < 65536
    → Sends size offered number d xs
    → IsPrefix (collect (waited offered number) xs) (missing offered size d)
unfolding collect
Sends-prefix size offered number d [] w (silent _ _ _) = (missing offered size d, refl)
Sends-prefix size false number d _ w (block _ _ _ xs more) =
    let (rest, e) = Sends-prefix size true number d xs w more in
    let p = block_at size number d in
    (
      rest,
      ap (λ a. a ++ rest)
            (collect-cons number (serialise_data_packet p) xs (some p)
              (expected-block number p true w (==_refl number)))
          ∙ append_assoc (take size d) (collect (next_block number) xs) rest
          ∙ ap (λ a. take size d ++ a) e
          ∙ take-append-drop size d,
    )
Sends-prefix size true number d _ w (block _ _ _ xs more) =
    let (rest, e) = Sends-prefix size true number d xs w more in
    let p = block_at size number d in
    let other : (number == next_block number) ≡ false = ground arith in
    (
      rest,
      ap (λ a. a ++ rest)
            (collect-cons (next_block number) (serialise_data_packet p) xs none
              (expected-block (next_block number) p false w other))
          ∙ e,
    )
Sends-prefix size _ number d xs w (move _ _ _ full more) =
    Sends-prefix size false (next_block number) (drop size d) xs (omega arith) more
Sends-prefix size offered number d xs w (fail _ _ _ e _ all) = (
  missing offered size d,
  ap (λ a. a ++ missing offered size d) (collect-errors (waited offered number) e xs all),
)

-- A receiver that takes each block once, in the order of the numbers, from what a connection sends
-- under any calls, gets bytes that the file, in the mode's encoding, begins with: nothing is lost
-- between them, doubled or changed. The connection is about to send the next block of an open file
-- on a device that does not fail, and the bytes are those from that block on.
pub drive-IsPrefix :
    (calls : List Call) (c last : Connection) (s : ReadStream) (sent : List Bytes)
    → IsServing c s
    → drive calls c ≡ ok (last, sent)
    → IsPrefix (collect c.block_number sent) (pending c.file_reader s)
drive-IsPrefix calls c last s sent v h =
    Sends-prefix c.block_size false c.block_number (pending c.file_reader s) sent v.is_word
      (drive-Sends calls c last s sent v h)
