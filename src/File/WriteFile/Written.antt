-- ===== src/File/WriteFile/Written.antt =====
-- What a call of `write` leaves on the device.
use cpp_tftp.Common.{
  ℕ, zero, suc, ◌+◌, ◌-◌, ◌≤◌, ◌<◌, ◌≡◌, refl, sym, ap, subst, ◌∙◌, true, false, not, ◌&&◌, [], ◌∷◌,
  lt→ltb, le→ltb, ◌++◌, append-nil, some, arith, ltb, length, take, take_of_le, Bytes,
}
use cpp_tftp.Common.Outcome.{Outcome, ok, out_of_fuel, ◌>>=◌, ok-injective}
use cpp_tftp.Utils.Netascii.{netascii_to_native}
use cpp_tftp.Tftp.Types.{Mode}
use cpp_tftp.File.Stream.{WriteStream, fwrite}
use cpp_tftp.File.WriteFile.{WriteFile, from_fd, write_netascii, write_octet, write_mode, write}

-- The stream after n bytes of d were written.
abbrev pub after_write : Bytes → WriteStream → WriteStream
after_write d s = record s { written = s.written ++ d; room = s.room - length d }

fwrite_all :
    (d : Bytes) (n : ℕ) (s : WriteStream)
    → n ≡ length d
    → length d ≤ s.room
    → fwrite d n s ≡ (length d, after_write d s)
unfolding fwrite
fwrite_all d n s e h = rw e (ground (arith, take_of_le (length d) d))

after_write-nil : (d : Bytes) (s : WriteStream) → length d ≡ 0 → after_write d s ≡ s
after_write-nil [] s h = ground (arith, append-nil s.written)
after_write-nil (c ∷ d) s h = absurd (omega arith)

-- The stream after the device ran full.
abbrev pub after_full : Bytes → WriteStream → WriteStream
after_full d s = record s { written = s.written ++ take s.room d; room = 0; ferror = true }

fwrite_full :
    (d : Bytes) (n : ℕ) (s : WriteStream) → s.room < n → fwrite d n s ≡ (s.room, after_full d s)
unfolding fwrite
fwrite_full d n s h = ground arith

write_octet_stop :
    (f : ℕ) (d : Bytes) (b : ℕ) (s : WriteStream) → length d ≤ b → write_octet (suc f) d b s ≡ ok s
unfolding write_octet
write_octet_stop f d b s h = rw (le→ltb b (length d) h)

write_octet_go :
    (f : ℕ) (d : Bytes) (b : ℕ) (s s' : WriteStream) (put : ℕ)
    → b < length d
    → fwrite d (length d - b) s ≡ (put, s')
    → write_octet (suc f) d b s ≡ write_octet f d (b + put) s'
unfolding write_octet
write_octet_go f d b s s' put h e = rw (lt→ltb b (length d) h, e)

write_netascii_stop :
    (f : ℕ) (d : Bytes) (b : ℕ) (s : WriteStream)
    → (not s.ferror && ltb b (length d)) ≡ false
    → write_netascii (suc f) d b s ≡ ok s
unfolding write_netascii
write_netascii_stop f d b s h = rw h

write_netascii_go :
    (f : ℕ) (d : Bytes) (b : ℕ) (s s' : WriteStream) (put : ℕ)
    → (not s.ferror && ltb b (length d)) ≡ true
    → fwrite d (length d - b) s ≡ (put, s')
    → write_netascii (suc f) d b s ≡ write_netascii f d (b + put) s'
unfolding write_netascii
write_netascii_go f d b s s' put h e = rw (h, e)

write_octet_room :
    (d : Bytes) (s : WriteStream)
    → length d ≤ s.room
    → write_octet (suc (length d)) d 0 s ≡ ok (after_write d s)
write_octet_room [] s h =
    write_octet_stop 0 [] 0 s (omega arith) ∙ ap ok (sym (after_write-nil [] s refl))
write_octet_room (c ∷ d) s h =
    write_octet_go _ (c ∷ d) 0 s _ _ (omega arith) (fwrite_all (c ∷ d) _ s (omega arith) h)
    ∙ write_octet_stop (length d) (c ∷ d) _ _ (omega arith)

write_netascii_room :
    (d : Bytes) (s : WriteStream)
    → s.ferror ≡ false
    → length d ≤ s.room
    → write_netascii (suc (length d)) d 0 s ≡ ok (after_write d s)
write_netascii_room [] s e h =
    write_netascii_stop 0 [] 0 s (ground arith) ∙ ap ok (sym (after_write-nil [] s refl))
write_netascii_room (c ∷ d) s e h =
    write_netascii_go _ (c ∷ d) 0 s _ _ (ground arith) (fwrite_all (c ∷ d) _ s (omega arith) h)
    ∙ write_netascii_stop (length d) (c ∷ d) _ _ (ground arith)

-- The netascii loop ends on a full device, with the error indicator set.
write_netascii_full :
    (d : Bytes) (s : WriteStream)
    → s.ferror ≡ false
    → s.room < length d
    → write_netascii (suc (length d)) d 0 s ≡ ok (after_full d s)
write_netascii_full [] s e h = absurd (omega arith)
write_netascii_full (c ∷ d) s e h =
    write_netascii_go _ (c ∷ d) 0 s _ _ (ground arith)
      (fwrite_full (c ∷ d) (length (c ∷ d) - 0) s (omega arith))
    ∙ write_netascii_stop (length d) (c ∷ d) _ _ refl

write_octet_stuck :
    (fuel : ℕ) (d : Bytes) (b : ℕ) (s : WriteStream)
    → b + s.room < length d
    → write_octet fuel d b s ≡ out_of_fuel
unfolding write_octet
write_octet_stuck zero d b s h = refl
write_octet_stuck (suc fuel) d b s h =
    write_octet_go fuel d b s _ _ (omega arith) (fwrite_full d (length d - b) s (omega arith))
    ∙ write_octet_stuck fuel d (b + s.room) (after_full d s) (omega arith)

-- The bytes that a mode writes for a block.
abbrev pub native_of : Mode → Bytes → Outcome Bytes
native_of Mode.octet d = ok d
native_of Mode.netascii d = netascii_to_native d

abbrev put_stream : WriteFile → WriteStream → Outcome WriteFile
put_stream w s = ok (record w { fd = some s })

write-write_mode :
    (d : Bytes) (w : WriteFile) (s : WriteStream)
    → w.fd ≡ some s
    → write d w ≡ (write_mode w.mode d s >>= λ s. ok (record w { fd = some s }))
unfolding write
write-write_mode d w s e = ap (λ o. from_fd o >>= λ s. write_mode w.mode d s >>= put_stream w) e

write_mode_room :
    (m : Mode) (d : Bytes) {native : Bytes} (s : WriteStream)
    → s.ferror ≡ false
    → native_of m d ≡ ok native
    → length native ≤ s.room
    → write_mode m d s ≡ ok (after_write native s)
unfolding write_mode
write_mode_room Mode.octet d s e n h =
    let same = ok-injective n in
    write_octet_room d s (subst (λ d. length d ≤ s.room) (sym same) h)
    ∙ ap (λ d. ok (after_write d s)) same
write_mode_room Mode.netascii d {native} s e n h = rw n (write_netascii_room native s e h)

-- While the device has room, a block is written whole, after what was written before.
pub write_room :
    (d : Bytes) {native : Bytes} (w : WriteFile) (s : WriteStream)
    → w.fd ≡ some s
    → s.ferror ≡ false
    → native_of w.mode d ≡ ok native
    → length native ≤ s.room
    → write d w ≡ ok (record w { fd = some (after_write native s) })
write_room d w s o e n h =
    write-write_mode d w s o ∙ ap (λ m. m >>= put_stream w) (write_mode_room w.mode d s e n h)

-- In octet mode a device without enough room is never given up: whatever the number of rounds, the
-- loop is not over.
pub write_octet_full :
    (fuel : ℕ) (d : Bytes) (s : WriteStream)
    → s.room < length d
    → write_octet fuel d 0 s ≡ out_of_fuel
write_octet_full fuel d s h = write_octet_stuck fuel d 0 s (omega arith)
