-- ===== src/Server/Connection/Order/Sender.antt =====
-- A connection that serves a file is a sender of its blocks.
use cpp_tftp.Common.{
  some-injective, ℕ, ◌≡◌, ◌⊎◌, inl, inr, refl, ap, subst, ◌∙◌, Bool, true, false, List, [], ◌∷◌,
  Option, none, some, All, drop, Bytes,
}
use cpp_tftp.Common.Outcome.{ok, bind-eq-ok, ok-injective}
use cpp_tftp.Server.Connection.Read.{next_block}
use cpp_tftp.Tftp.Types.{ErrorPacket}
use cpp_tftp.Tftp.Serialise.{serialise_error_packet}
use cpp_tftp.File.Stream.{ReadStream}
use cpp_tftp.File.ReadFile.Pending.{pending}
use cpp_tftp.Server.Connection.{Connection, State}
use cpp_tftp.Server.Connection.Transfer.Round.{IsServing}
use cpp_tftp.Server.Connection.Order.{
  Call, perform, prepend, drive, Sends, silent, block, move, fail,
}
use cpp_tftp.Server.Connection.Order.States.{IsSender, Outcomes, stays, sends, moves}
use cpp_tftp.Server.Connection.Order.Steps.{perform-unread, perform-ready}
use cpp_tftp.Server.Connection.Order.Failed.{perform-failed}

-- A run of one call more.
drive-cons :
    (call : Call) (calls : List Call) (c last : Connection) (sent : List Bytes)
    → drive (call ∷ calls) c ≡ ok (last, sent)
    → (c' : Connection) × (first : Option Bytes) × (more : List Bytes) × (perform call c
        ≡ ok (c', first))
      × (drive calls c' ≡ ok (last, more))
      × (prepend first more ≡ sent)
unfolding drive
drive-cons call calls c last sent h =
    let ((c', first), e, p) = bind-eq-ok (perform call c) _ h in
    let ((last', more), e', p') = bind-eq-ok (drive calls c') _ p in
    (
      c',
      first,
      more,
      e,
      e' ∙ ap (λ l. ok (l, more)) (ap (λ x. x.0) (ok-injective p')),
      ap (λ x. x.1) (ok-injective p'),
    )

drive-nil : (c last : Connection) (sent : List Bytes) → drive [] c ≡ ok (last, sent) → [] ≡ sent
unfolding drive
drive-nil c last sent h = ap (λ x. x.1) (ok-injective h)

prepend-All :
    (e : ErrorPacket) (first : Option Bytes) (xs : List Bytes)
    → (first ≡ none) ⊎ (first ≡ some (serialise_error_packet e))
    → All (λ x. x ≡ serialise_error_packet e) xs
    → All (λ x. x ≡ serialise_error_packet e) (prepend first xs)
prepend-All e none xs h a = a
prepend-All e (some d) xs (inl h) a = cc h
prepend-All e (some d) xs (inr h) a = (some-injective h, a)

drive-failed :
    (calls : List Call) (c last : Connection) (sent : List Bytes)
    → c.state ≡ State.error
    → drive calls c ≡ ok (last, sent)
    → All (λ x. x ≡ serialise_error_packet c.error_pkt) sent
drive-failed [] c last sent e h = subst (All _) (drive-nil c last sent h) tt
drive-failed (call ∷ calls) c last sent e h =
    let (c', first, more, p, q, r) = drive-cons call calls c last sent h in
    let (state, packet, only) = perform-failed call c c' first e p in
    let rest = drive-failed calls c' last more state q in
    subst (All _) r (
      prepend-All c.error_pkt first more only
        (subst (λ k. All (λ x. x ≡ serialise_error_packet k) more) packet rest))

-- What is sent after a call, given what is sent by the calls that follow.
Sends-after :
    (size : ℕ) (offered : Bool) (number : ℕ) (d : Bytes) (x : Connection × Option Bytes)
    (more : List Bytes)
    → Outcomes size offered number d x
    → ((offered : Bool) (number : ℕ) (d : Bytes)
        → IsSender size offered number d x.0
        → Sends size offered number d more)
    → Sends size offered number d (prepend x.1 more)
Sends-after size offered number d _ more (stays _ _ _ c v) ih = ih offered number d v
Sends-after size offered number d _ more (sends _ _ _ c v) ih =
    block offered number d more (ih true number d v)
Sends-after size _ number d _ more (moves _ _ c full u) ih =
    move number d more full (ih false (next_block number) (drop size d) (inl u))

perform-Outcomes :
    (size : ℕ) (offered : Bool) (number : ℕ) (d : Bytes) (call : Call) (c : Connection)
    (x : Connection × Option Bytes)
    → IsSender size offered number d c
    → perform call c ≡ ok x
    → Outcomes size offered number d x ⊎ (c.state ≡ State.error)
perform-Outcomes size false number d call c x (inl u) h =
    inl (perform-unread size number d c call x u h)
perform-Outcomes size true number d call c x (inl v) h =
    inl (perform-ready size number d c call x v h)
perform-Outcomes size false number d call c x (inr e) h = inr e
perform-Outcomes size true number d call c x (inr e) h = inr e

Sends-at :
    (size : ℕ) (last : Connection) (calls : List Call) (offered : Bool) (number : ℕ) (d : Bytes)
    (c : Connection) (sent : List Bytes)
    → IsSender size offered number d c
    → drive calls c ≡ ok (last, sent)
    → Sends size offered number d sent
Sends-at size last [] offered number d c sent v h =
    subst (Sends size offered number d) (drive-nil c last sent h) (silent offered number d)
Sends-at size last (call ∷ calls) offered number d c sent v h =
    let (c', first, more, p, q, r) = drive-cons call calls c last sent h in
    elim (perform-Outcomes size offered number d call c (c', first) v p) [
      | inl o ↦ subst (Sends size offered number d) r (
          Sends-after size offered number d (c', first) more o
            (λ offered number d w. Sends-at size last calls offered number d c' more w q))
      | inr e ↦ fail offered number d c.error_pkt sent (drive-failed (call ∷ calls) c last sent e h)
    ]

-- A connection that is about to send the next block of an open file, on a device that does not fail,
-- sends what the protocol's sender may send, whatever the calls on it are: each datagram is the
-- current block, again or for the first time, the block after a full one that was sent, or, once it
-- has given up, an error packet.
pub drive-Sends :
    (calls : List Call) (c last : Connection) (s : ReadStream) (sent : List Bytes)
    → IsServing c s
    → drive calls c ≡ ok (last, sent)
    → Sends c.block_size false c.block_number (pending c.file_reader s) sent
drive-Sends calls c last s sent v h =
    Sends-at c.block_size last calls false c.block_number (pending c.file_reader s) c sent
      (inl (record { stream = s; serving = v; same_size = refl; same_number = refl; bytes = refl }))
      h
