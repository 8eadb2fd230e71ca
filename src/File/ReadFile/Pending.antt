-- ===== src/File/ReadFile/Pending.antt =====
-- A file that is being read is a queue of bytes: those that are still to be sent, in the encoding
-- of the transfer. `read_in_to` takes from its front.
use cpp_tftp.Common.{
  ℕ, ◌-◌, ◌^◌, ◌≤◌, ◌<◌, ◌≡◌, refl, sym, ap, ◌∙◌, true, ◌||◌, ◌⊎◌, leb→le, inl, inr, [], ◌++◌,
  append-nil, append_assoc, some, arith, ltb, leb, ltb→le, Bool-cases, length, take, drop,
  length-append, length-take, length-drop, take-append-drop, take_of_le, drop_of_le,
  take_append_of_le, drop_append_of_le, Bytes,
}
use cpp_tftp.Common.Outcome.{ok, ◌>>=◌}
use cpp_tftp.Utils.Netascii.{
  native_to_netascii, length-native_to_netascii, native_to_netascii-append,
}
use cpp_tftp.Tftp.Types.{Mode}
use cpp_tftp.File.Stream.{ReadStream, sub_size}
use cpp_tftp.File.ReadFile.{ReadFile, from_fd, convert, read_mode, read_in_to}
use cpp_tftp.File.ReadFile.Loops.{IsGood, after_read, read_octet_lem, read_netascii_lem}

-- The bytes of a file in the encoding of a mode.
abbrev pub encode : Mode → Bytes → Bytes
encode Mode.octet d = d
encode Mode.netascii d = native_to_netascii d

abbrev pub pending_of : Mode → Bytes → Bytes → Bytes
pending_of mode overflow rest = overflow ++ encode mode rest

-- A file that was opened, whose device does not fail, and whose overflow fits a block.
pub record IsReading (size : ℕ) (r : ReadFile) (s : ReadStream) : Type 0 where
  pub opened : r.fd ≡ some s
  pub good : IsGood s
  pub overflow_fits : length r.overflow_buffer ≤ size
  pub octet_has_none : r.mode ≡ Mode.octet → r.overflow_buffer ≡ []

after_read-IsGood : (n : ℕ) (s : ReadStream) → IsGood s → IsGood (after_read n s)
after_read-IsGood n s g = record {
  no_error = g.no_error;
  no_fault = g.no_fault;
  at_end = λ e. ended e;
}
  where
    ended : (s.feof || ltb (length s.rest) n) ≡ true → drop n s.rest ≡ []
    ended e = drop_of_le n s.rest (elim (Bool-cases s.feof) [
      | inl f ↦ omega (arith, ap length (g.at_end f))
      | inr f ↦ ground arith
    ])

-- To cut a list in two pieces where the first is long enough, or the second empty.
cut_append :
    (n : ℕ) (a b : Bytes)
    → (n ≤ length a) ⊎ (b ≡ [])
    → (take n a ≡ take n (a ++ b)) × (drop n a ++ b ≡ drop n (a ++ b))
cut_append n a b (inl h) = (sym (take_append_of_le n a b h), sym (drop_append_of_le n a b h))
cut_append n a b (inr e) = rw (e, append-nil a, append-nil (drop n a)) (refl, refl)

-- `convert` fills a block and keeps the rest.
convert_lem :
    (r : ReadFile) (size : ℕ) (out : Bytes) (s : ReadStream)
    → let ret = r.overflow_buffer ++ native_to_netascii out in
      convert r size out s
      ≡ (take size ret, record r { fd = some s; overflow_buffer = drop size ret })
unfolding convert
convert_lem r size out s =
    let ret = r.overflow_buffer ++ native_to_netascii out in
    elim (Bool-cases (ltb size (length ret))) [
      | inl long ↦ rw long
      | inr short ↦
          let h : length ret ≤ size = ltb→le _ _ short in
          rw (short, take_of_le size ret h, drop_of_le size ret h)
    ]

-- The bytes that the loop was asked for fill the block, or are all that there are.
abbrev asked_of : ℕ → Bytes → ℕ
asked_of size overflow = size - length overflow

abbrev got_of : ℕ → Bytes → Bytes → Bytes
got_of size overflow rest = overflow ++ native_to_netascii (take (asked_of size overflow) rest)

module _ (size : ℕ) (overflow rest : Bytes) (fits : length overflow ≤ size) where
  abbrev asked : ℕ
  asked = asked_of size overflow

  abbrev got : Bytes
  got = got_of size overflow rest

  pending_parts : overflow ++ native_to_netascii rest ≡ got ++ native_to_netascii (drop asked rest)
  pending_parts =
      ap (λ d. overflow ++ native_to_netascii d) (sym (take-append-drop asked rest))
      ∙ ap (◌++◌ overflow) (native_to_netascii-append (take asked rest) (drop asked rest))
      ∙ sym (append_assoc overflow _ _)

  got_enough : (size ≤ length got) ⊎ (native_to_netascii (drop asked rest) ≡ [])
  unfolding native_to_netascii
  got_enough = elim (Bool-cases (leb asked (length rest))) [
    | inl long ↦ inl (
        omega (
          arith,
          length-append overflow (native_to_netascii (take asked rest)),
          length-native_to_netascii (take asked rest),
          length-take asked rest,
          leb→le asked (length rest) long,
        ))
    | inr short ↦ inr (rw (drop_of_le asked rest (ground arith)))
  ]

  got_bounded : length (drop size got) ≤ size
  got_bounded = omega (
    arith,
    length-drop size got,
    length-append overflow (native_to_netascii (take asked rest)),
    length-native_to_netascii (take asked rest),
    length-take asked rest,
  )

  got_cut :
      (take size got ≡ take size (overflow ++ native_to_netascii rest))
      × (drop size got ++ native_to_netascii (drop asked rest)
          ≡ drop size (overflow ++ native_to_netascii rest))
  got_cut = rw pending_parts (cut_append size got (native_to_netascii (drop asked rest)) got_enough)

abbrev pub pending : ReadFile → ReadStream → Bytes
pending r s = pending_of r.mode r.overflow_buffer s.rest

-- The file after a read of an open one.
abbrev after_block : Mode → ℕ → ReadFile → ReadStream → ReadFile
after_block Mode.octet size r s = record r { fd = some (after_read size s) }
after_block Mode.netascii size r s = record r {
  fd = some (after_read (asked_of size r.overflow_buffer) s);
  overflow_buffer = drop size (got_of size r.overflow_buffer s.rest);
}

abbrev after_stream : Mode → ℕ → ReadFile → ReadStream → ReadStream
after_stream Mode.octet size r s = after_read size s
after_stream Mode.netascii size r s = after_read (size - length r.overflow_buffer) s

read_mode_lem :
    (m : Mode) (size : ℕ) (r : ReadFile) (s : ReadStream)
    → size < 2 ^ 64
    → IsReading size r s
    → r.mode ≡ m
    → read_mode m r size s
      ≡ ok (take size (pending_of m r.overflow_buffer s.rest), after_block m size r s)
unfolding read_mode
read_mode_lem Mode.octet size r s h v e = rw (read_octet_lem size s v.good) (
    ap (λ o. ok (take size (o ++ s.rest), after_block Mode.octet size r s))
      (sym (v.octet_has_none e)))
read_mode_lem Mode.netascii size r s h v e =
    let k = asked_of size r.overflow_buffer in
    let asks : sub_size size (length r.overflow_buffer) ≡ k = omega (arith, v.overflow_fits, h) in
    rw (asks, read_netascii_lem size k s v.good (omega arith))
      (ap ok (
        convert_lem r size (take k s.rest) (after_read k s)
        ∙ ap (λ b. (b, after_block Mode.netascii size r s))
            (got_cut size r.overflow_buffer s.rest v.overflow_fits).0))

read_in_to-read_mode :
    (size : ℕ) (r : ReadFile) (s : ReadStream)
    → r.fd ≡ some s
    → read_in_to r size ≡ read_mode r.mode r size s
unfolding read_in_to
read_in_to-read_mode size r s e = ap (λ o. from_fd o >>= λ s. read_mode r.mode r size s) e

after_block-IsReading :
    (m : Mode) (size : ℕ) (r : ReadFile) (s : ReadStream)
    → IsReading size r s
    → r.mode ≡ m
    → IsReading size (after_block m size r s) (after_stream m size r s)
after_block-IsReading Mode.octet size r s v e = record {
  opened = refl;
  good = after_read-IsGood size s v.good;
  overflow_fits = v.overflow_fits;
  octet_has_none = v.octet_has_none;
}
after_block-IsReading Mode.netascii size r s v e = record {
  opened = refl;
  good = after_read-IsGood _ s v.good;
  overflow_fits = got_bounded size r.overflow_buffer s.rest v.overflow_fits;
  octet_has_none = λ o. cc (e, o);
}

after_block-pending :
    (m : Mode) (size : ℕ) (r : ReadFile) (s : ReadStream)
    → IsReading size r s
    → r.mode ≡ m
    → pending_of m (after_block m size r s).overflow_buffer (after_stream m size r s).rest
      ≡ drop size (pending_of m r.overflow_buffer s.rest)
after_block-pending Mode.octet size r s v e = rw (v.octet_has_none e)
after_block-pending Mode.netascii size r s v e =
    (got_cut size r.overflow_buffer s.rest v.overflow_fits).1

after_block-mode :
    (m : Mode) (size : ℕ) (r : ReadFile) (s : ReadStream) → (after_block m size r s).mode ≡ r.mode
after_block-mode Mode.octet size r s = refl
after_block-mode Mode.netascii size r s = refl

-- What a call of `read_in_to` does to an open file.
pub record Reads (size : ℕ) (r : ReadFile) (s : ReadStream) : Type 0 where
  pub next : ReadFile
  pub next_stream : ReadStream
  pub returns : read_in_to r size ≡ ok (take size (pending r s), next)
  pub reading : IsReading size next next_stream
  pub queue : pending next next_stream ≡ drop size (pending r s)
  pub same_mode : next.mode ≡ r.mode

-- A read of fewer than 2 ^ 64 bytes from an open file, whose device does not fail and whose
-- overflow is no longer than the read: it takes that many of the pending bytes, or all, and leaves
-- the others pending.
pub read_in_to-Reads :
    (size : ℕ) (r : ReadFile) (s : ReadStream) → size < 2 ^ 64 → IsReading size r s → Reads size r s
read_in_to-Reads size r s h v = record {
  next = after_block r.mode size r s;
  next_stream = after_stream r.mode size r s;
  returns = read_in_to-read_mode size r s v.opened ∙ read_mode_lem r.mode size r s h v refl;
  reading = after_block-IsReading r.mode size r s v refl;
  queue =
      ap
        (λ m.
          pending_of m (after_block r.mode size r s).overflow_buffer
            (after_stream r.mode size r s).rest)
        (after_block-mode r.mode size r s)
      ∙ after_block-pending r.mode size r s v refl;
  same_mode = after_block-mode r.mode size r s;
}
