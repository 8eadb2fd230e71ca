-- ===== src/File/ReadFile/Loops.antt =====
-- The read loops of `tftp_read_file`, on a stream that does not fail.
use cpp_tftp.Common.{
  ℕ, zero, suc, ◌-◌, ◌≤◌, ◌<◌, ◌≡◌, sym, ap, ◌∙◌, true, false, not, ◌&&◌, ◌||◌, inl, inr, [], arith,
  ltb, ltb→lt, ltb→le, le→ltb, Bool-cases, length, take, drop, length-take, take_of_le, drop_of_le,
  Bytes,
}
use cpp_tftp.Common.Outcome.{Outcome, ok}
use cpp_tftp.File.Stream.{ReadStream, fread}
use cpp_tftp.File.ReadFile.{read_octet, read_netascii}

-- A stream that does not fail.
pub record IsGood (s : ReadStream) : Type 0 where
  pub no_error : s.ferror ≡ false
  pub no_fault : s.fails ≡ false
  pub at_end : s.feof ≡ true → s.rest ≡ []

-- The stream after a loop that asked for n bytes.
abbrev pub after_read : ℕ → ReadStream → ReadStream
after_read n s = record s { rest = drop n s.rest; feof = s.feof || ltb (length s.rest) n }

abbrev pub read_of : ℕ → ReadStream → Bytes × ReadStream
read_of n s = (take n s.rest, after_read n s)

fread_good : (n : ℕ) (s : ReadStream) → s.fails ≡ false → s.feof ≡ false → fread n s ≡ read_of n s
unfolding fread
fread_good n s f e = ground (arith, take_of_le n s.rest, drop_of_le n s.rest)

length-fread : (n : ℕ) (s : ReadStream) → length (fread n s).0 ≤ n
unfolding fread
length-fread n s = ground (arith, length-take n s.rest)

-- A read loop that asks for n bytes in its first round: it reads them, or all that there is, in two
-- rounds at most.
module _ (n : ℕ) (loop : ℕ → Bytes → ReadStream → Outcome (Bytes × ReadStream))
    (stop : (f : ℕ) (out : Bytes) (s : ReadStream)
      → (not s.ferror && not s.feof && ltb (length out) n) ≡ false
      → loop (suc f) out s ≡ ok (out, s))
    (go : (f : ℕ) (s : ReadStream)
      → (not s.ferror && not s.feof && ltb 0 n) ≡ true
      → loop (suc f) [] s ≡ loop f (fread n s).0 (fread n s).1) where
  loop_ended : (s : ReadStream) → s.rest ≡ [] → s.feof ≡ true → read_of n s ≡ ([], s)
  loop_ended s e h =
      let len : length s.rest ≡ 0 = ap length e in
      ground (arith, take_of_le n s.rest, drop_of_le n s.rest, e, len)

  loop_none : (s : ReadStream) → n ≡ 0 → read_of n s ≡ ([], s)
  loop_none s e = rw e (ground arith)

  loop_two_rounds :
      (f : ℕ) (s : ReadStream)
      → IsGood s
      → s.feof ≡ false
      → 0 < n
      → n ≤ f
      → loop (suc f) [] s ≡ ok (read_of n s)
  loop_two_rounds zero s g more pos h = absurd (omega arith)
  loop_two_rounds (suc f) s g more pos h =
      go (suc f) s (ground arith)
      ∙ rw (fread_good n s g.no_fault more) (stop f _ _ (ground (arith, length-take n s.rest)))

  loop_lem : (f : ℕ) (s : ReadStream) → IsGood s → n ≤ f → loop (suc f) [] s ≡ ok (read_of n s)
  loop_lem f s g h = elim (Bool-cases s.feof) [
    | inl ended ↦ stop f [] s (ground arith) ∙ ap ok (sym (loop_ended s (g.at_end ended) ended))
    | inr more ↦ elim (Bool-cases (ltb 0 n)) [
      | inl pos ↦ loop_two_rounds f s g more (ltb→lt _ _ pos) h
      | inr empty ↦
          stop f [] s (ground arith) ∙ ap ok (sym (loop_none s (omega (arith, ltb→le _ _ empty))))
    ]
  ]

pub read_octet_lem :
    (size : ℕ) (s : ReadStream) → IsGood s → read_octet (suc size) size [] s ≡ ok (read_of size s)
unfolding read_octet
read_octet_lem size s g =
    loop_lem size (λ f out s. read_octet f size out s) (λ f out s h. rw h)
      (λ f s h. rw h (
        let e : size - 0 ≡ size = omega arith in
        ap (λ n. read_octet f size (fread n s).0 (fread n s).1) e))
      size s g (omega arith)

pub read_netascii_lem :
    (size k : ℕ) (s : ReadStream)
    → IsGood s
    → k ≤ size
    → read_netascii (suc size) size k [] s ≡ ok (read_of k s)
unfolding read_netascii
read_netascii_lem size k s g h =
    loop_lem k (λ f out s. read_netascii f size k out s) (λ f out s h. rw h)
      (λ f s e. rw e (rw (le→ltb size (length (fread k s).0) (omega (arith, length-fread k s)))))
      size s g h
