-- ===== src/Utils/CStrings.antt =====
-- `extract_c_strings_from_buffer` of src/common/utils.cpp.
use cpp_tftp.Common.{
  ℕ, ◌≤◌, ◌≡◌, ◌≢◌, inl, inr, refl, sym, ap, subst, ◌∙◌, false, List, [], ◌∷◌, ◌++◌, append-nil,
  append_assoc, All-append, arith, ltb, le→ltb, ◌↔◌, ◌==◌, ==_iff, if◌then◌else◌, Bool-cases,
  length, drop, All, Bytes,
}
use cpp_tftp.Common.Outcome.{Outcome, ok, undefined, ok-injective}

-- The loop: `text` is what lies between `start` and the place that `std::find` has reached.
-- Text with no null byte behind it is dropped.
unfoldable pub c_strings : Bytes → Bytes → List Bytes
c_strings text [] = []
c_strings text (c ∷ cs) =
    let found = text ∷ c_strings [] cs in
    let on = c_strings (text ++ c ∷ []) cs in if c == 0 then found else on

-- An offset past the end makes `start` an iterator past the end.
unfoldable pub extract_c_strings_from_buffer : Bytes → ℕ → Outcome (List Bytes)
extract_c_strings_from_buffer buffer offset =
    if ltb (length buffer) offset then undefined else ok (c_strings [] (drop offset buffer))

abbrev pub HasNoNull : Bytes → Type 0
HasNoNull = All (λ c. c ≢ 0)

-- Strings, each with its null byte.
abbrev pub join_c_strings : List Bytes → Bytes
join_c_strings [] = []
join_c_strings (s ∷ ss) = s ++ (0 ∷ join_c_strings ss)

c_strings-append :
    (text s rest : Bytes)
    → HasNoNull s
    → c_strings text (s ++ (0 ∷ rest)) ≡ (text ++ s) ∷ c_strings [] rest
unfolding c_strings
c_strings-append text [] rest h = rw append-nil
c_strings-append text (c ∷ s) rest h =
    let e : (c == 0) ≡ false = ground arith in
    rw e (c_strings-append (text ++ c ∷ []) s rest h.1 ∙ rw append_assoc)

c_strings_no_null : (text rest : Bytes) → HasNoNull rest → c_strings text rest ≡ []
unfolding c_strings
c_strings_no_null text [] h = refl
c_strings_no_null text (c ∷ cs) h =
    let e : (c == 0) ≡ false = ground arith in rw e (c_strings_no_null (text ++ c ∷ []) cs h.1)

-- Strings written with their null bytes are read back, and a tail with no null byte is dropped.
pub c_strings-join_c_strings :
    (ss : List Bytes) (rest : Bytes)
    → All HasNoNull ss
    → HasNoNull rest
    → c_strings [] (join_c_strings ss ++ rest) ≡ ss
c_strings-join_c_strings [] rest h k = c_strings_no_null [] rest k
c_strings-join_c_strings (s ∷ ss) rest h k = rw (append_assoc s) (
    c_strings-append [] s (join_c_strings ss ++ rest) h.0
    ∙ ap (◌∷◌ s) (c_strings-join_c_strings ss rest h.1 k))

-- What a buffer holds: strings with their null bytes, and a rest with none.
pub record IsSplit (buffer : Bytes) (ss : List Bytes) : Type 0 where
  pub rest : Bytes
  pub joined : buffer ≡ join_c_strings ss ++ rest
  pub strings_no_null : All HasNoNull ss
  pub rest_no_null : HasNoNull rest

c_strings-IsSplit :
    (text buffer : Bytes) → HasNoNull text → IsSplit (text ++ buffer) (c_strings text buffer)
unfolding c_strings
c_strings-IsSplit text [] h = record {
  rest = text;
  joined = append-nil text;
  strings_no_null = tt;
  rest_no_null = h;
}
c_strings-IsSplit text (c ∷ cs) h = elim (Bool-cases (c == 0)) [
  | inl e ↦
      let split = c_strings-IsSplit [] cs tt in
      rw (e, (==_iff c 0).0 e)
        (record {
          rest = split.rest;
          joined = ap (λ b. text ++ (0 ∷ b)) split.joined ∙ sym (append_assoc text _ split.rest);
          strings_no_null = (h, split.strings_no_null);
          rest_no_null = split.rest_no_null;
        })
  | inr e ↦ rw e (
      subst (λ b. IsSplit b (c_strings (text ++ c ∷ []) cs)) (append_assoc text (c ∷ []) cs)
        (c_strings-IsSplit (text ++ c ∷ []) cs (All-append _ text (c ∷ []) h (ground arith, tt))))
]

-- Within the buffer, the strings found are the only way to split what stands behind the offset
-- into strings with null bytes and a rest without.
extract-iff-IsSplit :
    (buffer : Bytes) (offset : ℕ) (ss : List Bytes)
    → offset ≤ length buffer
    → (extract_c_strings_from_buffer buffer offset ≡ ok ss) ↔ IsSplit (drop offset buffer) ss
unfolding extract_c_strings_from_buffer
extract-iff-IsSplit buffer offset ss h = rw (le→ltb _ _ h) (
  (λ e. subst (IsSplit _) (ok-injective e) (c_strings-IsSplit [] (drop offset buffer) tt)),
  (λ s. ap ok (rw s.joined (c_strings-join_c_strings ss s.rest s.strings_no_null s.rest_no_null))),
)
