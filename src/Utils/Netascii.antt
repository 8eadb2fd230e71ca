-- ===== src/Utils/Netascii.antt =====
-- `native_to_netascii` and `netascii_to_native` of src/common/utils.cpp, and how they fit.
use cpp_tftp.Common.{
  ℕ, ◌*◌, ◌≤◌, ◌≡◌, ◌≢◌, ◌↔◌, inl, inr, refl, subst, Bool, true, false, [], ◌∷◌, ◌++◌, arith, ◌==◌,
  ==_iff, if◌then◌else◌, Bool-cases, length, Bytes,
}
use cpp_tftp.Common.Outcome.{
  Outcome, ok, throw, ◌>>=◌, cr_without_lf_or_null, eol_after_cr, bind-eq-ok, ok-injective, Settled,
  Settled-bind,
}

abbrev pub cr : ℕ
cr = 0x0d

abbrev pub lf : ℕ
lf = 0x0a

unfoldable pub native_to_netascii : Bytes → Bytes
native_to_netascii [] = []
native_to_netascii (c ∷ cs) =
    let rest = native_to_netascii cs in
    if c == lf then cr ∷ lf ∷ rest else if c == cr then cr ∷ 0 ∷ rest else c ∷ rest

-- `ret.push_back(c)` before the rest of the loop.
abbrev push : ℕ → Outcome Bytes → Outcome Bytes
push c m = m >>= λ cs. ok (c ∷ cs)

-- The iterator stands at the head of the list. A line feed after a carriage return is left for
-- the next round.
unfoldable pub netascii_to_native : Bytes → Outcome Bytes
netascii_to_native [] = ok []
netascii_to_native (c ∷ []) = if c == cr then throw eol_after_cr else ok (c ∷ [])
netascii_to_native (c ∷ next ∷ rest) =
    let skipping = netascii_to_native rest in
    let going_on = netascii_to_native (next ∷ rest) in
    if c == cr
    then (if next == 0
        then push c skipping
        else if next == lf
        then going_on
        else throw cr_without_lf_or_null)
    else push c going_on

netascii_to_native-cons :
    (c : ℕ) (cs : Bytes) → c ≢ cr → netascii_to_native (c ∷ cs) ≡ push c (netascii_to_native cs)
unfolding netascii_to_native
netascii_to_native-cons c [] h = ground arith
netascii_to_native-cons c (d ∷ ds) h = ground arith

-- The decoder returns or throws.
pub netascii_to_native-Settled : (d : Bytes) → Settled (netascii_to_native d)
unfolding netascii_to_native
netascii_to_native-Settled [] = inr ([], refl)
netascii_to_native-Settled (c ∷ []) = elim (Bool-cases (c == cr)) [
  | inl e ↦ inl (eol_after_cr, ground arith)
  | inr e ↦ inr (c ∷ [], ground arith)
]
netascii_to_native-Settled (c ∷ next ∷ rest) =
    let push_Settled = λ (c : ℕ) (m : Outcome Bytes) (h : Settled m).
      Settled-bind m (λ cs. ok (c ∷ cs)) h (λ cs _. inr (c ∷ cs, refl)) in
    let going_on = netascii_to_native-Settled (next ∷ rest) in
    elim (Bool-cases (c == cr)) [
      | inr e ↦ rw e (push_Settled c (netascii_to_native (next ∷ rest)) going_on)
      | inl e ↦ elim (Bool-cases (next == 0)) [
        | inl f ↦
            rw (e, f) (push_Settled c (netascii_to_native rest) (netascii_to_native-Settled rest))
        | inr f ↦ elim (Bool-cases (next == lf)) [
          | inl g ↦ rw (e, f, g) going_on
          | inr g ↦ inl (cr_without_lf_or_null, rw (e, f, g) refl)
        ]
      ]
    ]

-- The encoding at most doubles the length.
pub length-native_to_netascii :
    (d : Bytes)
    → (length d ≤ length (native_to_netascii d)) × (length (native_to_netascii d) ≤ 2 * length d)
unfolding native_to_netascii
length-native_to_netascii [] = omega arith
length-native_to_netascii (c ∷ cs) = ground (arith, length-native_to_netascii cs)

pub native_to_netascii-append :
    (d e : Bytes) → native_to_netascii (d ++ e) ≡ native_to_netascii d ++ native_to_netascii e
unfolding native_to_netascii
native_to_netascii-append [] e = refl
native_to_netascii-append (c ∷ cs) e = ground (arith, native_to_netascii-append cs e)

-- The netascii grammar: a carriage return stands before a null or a line feed. The second index
-- is the text that the bytes stand for.
pub data Decodes : Bytes → Bytes → Type 0 where
  nil : Decodes [] []
  plain : {e d : Bytes} (c : ℕ) → c ≢ cr → Decodes e d → Decodes (c ∷ e) (c ∷ d)
  cr_null : {e d : Bytes} → Decodes e d → Decodes (cr ∷ 0 ∷ e) (cr ∷ d)
  cr_lf : {e d : Bytes} → Decodes e d → Decodes (cr ∷ lf ∷ e) (lf ∷ d)

netascii_to_native-of_Decodes : {e d : Bytes} → Decodes e d → netascii_to_native e ≡ ok d
unfolding netascii_to_native
netascii_to_native-of_Decodes nil = refl
netascii_to_native-of_Decodes (plain {e} c h r) =
    ground (arith, netascii_to_native-cons c e h, netascii_to_native-of_Decodes r)
netascii_to_native-of_Decodes (cr_null r) = ground (arith, netascii_to_native-of_Decodes r)
netascii_to_native-of_Decodes (cr_lf {e} r) =
    ground (arith, netascii_to_native-cons lf e, netascii_to_native-of_Decodes r)

Decodes-push :
    (c : ℕ) (m : Outcome Bytes) {e d : Bytes}
    → ((ds : Bytes) → m ≡ ok ds → Decodes e (c ∷ ds))
    → push c m ≡ ok d
    → Decodes e d
Decodes-push c m {e} make h =
    let (ds, p, q) = bind-eq-ok m (λ ds. ok (c ∷ ds)) h in
    subst (Decodes e) (ok-injective q) (make ds p)

-- A line feed that the decoder left for the next round.
Decodes-cr :
    {n c : ℕ} {rest d : Bytes} → Decodes (n ∷ rest) d → n ≡ lf → c ≡ cr → Decodes (c ∷ n ∷ rest) d
Decodes-cr (plain n h r) p q = rw (p, q) (cr_lf r)
Decodes-cr (cr_null r) p q = absurd (omega arith)
Decodes-cr (cr_lf r) p q = absurd (omega arith)

Decodes-netascii_to_native : (e : Bytes) {d : Bytes} → netascii_to_native e ≡ ok d → Decodes e d
unfolding netascii_to_native
Decodes-netascii_to_native [] h = subst (Decodes []) (ok-injective h) nil
Decodes-netascii_to_native (c ∷ []) h = elim (Bool-cases (c == cr)) [
  | inl e ↦ cc (rw e at h)
  | inr e ↦ subst (Decodes _) (ok-injective (rw e at h)) (plain c (ground arith) nil)
]
Decodes-netascii_to_native (c ∷ n ∷ rest) {d} h = elim (Bool-cases (c == cr)) [
  | inr e ↦
      Decodes-push c _ (λ ds p. plain c (ground arith) (Decodes-netascii_to_native (n ∷ rest) p))
        (rw e at h)
  | inl e ↦ elim (Bool-cases (n == 0)) [
    | inl f ↦
        Decodes-push c _
          (λ ds p.
            rw ((==_iff c cr).0 e, (==_iff n 0).0 f) (cr_null (Decodes-netascii_to_native rest p)))
          (rw (e, f) at h)
    | inr f ↦ elim (Bool-cases (n == lf)) [
      | inl g ↦
          Decodes-cr (Decodes-netascii_to_native (n ∷ rest) (rw (e, f, g) at h)) ((==_iff n lf).0 g)
            ((==_iff c cr).0 e)
      | inr g ↦ cc (rw (e, f, g) at h)
    ]
  ]
]

-- The decoder accepts exactly the netascii grammar, with the text that it stands for.
pub netascii_to_native-iff-Decodes : (e d : Bytes) → (netascii_to_native e ≡ ok d) ↔ Decodes e d
netascii_to_native-iff-Decodes e d = (Decodes-netascii_to_native e, netascii_to_native-of_Decodes)

abbrev last_is_cr : Bytes → Bool
last_is_cr [] = false
last_is_cr (c ∷ []) = c == cr
last_is_cr (c ∷ d ∷ r) = last_is_cr (d ∷ r)

last_is_cr-cons : (c : ℕ) (e : Bytes) → c ≢ cr → last_is_cr e ≡ false → last_is_cr (c ∷ e) ≡ false
last_is_cr-cons c [] h p = ground arith
last_is_cr-cons c (d ∷ r) h p = p

last_is_cr-concat : (e : Bytes) → last_is_cr (e ++ cr ∷ []) ≡ true
last_is_cr-concat [] = refl
last_is_cr-concat (c ∷ []) = refl
last_is_cr-concat (c ∷ d ∷ r) = last_is_cr-concat (d ∷ r)

last_is_cr-Decodes : {e d : Bytes} → Decodes e d → last_is_cr e ≡ false
last_is_cr-Decodes nil = refl
last_is_cr-Decodes (plain {e} c h r) = last_is_cr-cons c e h (last_is_cr-Decodes r)
last_is_cr-Decodes (cr_null {e} r) = last_is_cr-cons 0 e (omega arith) (last_is_cr-Decodes r)
last_is_cr-Decodes (cr_lf {e} r) = last_is_cr-cons lf e (omega arith) (last_is_cr-Decodes r)

-- A block that ends in a carriage return is never decoded, whatever stands before it.
pub netascii_to_native-ne_ok_of_cr_end : (e d : Bytes) → netascii_to_native (e ++ cr ∷ []) ≢ ok d
netascii_to_native-ne_ok_of_cr_end e d h =
    cc (last_is_cr-concat e, last_is_cr-Decodes (Decodes-netascii_to_native (e ++ cr ∷ []) h))

Decodes-native_to_netascii : (d : Bytes) → Decodes (native_to_netascii d) d
unfolding native_to_netascii
Decodes-native_to_netascii [] = nil
Decodes-native_to_netascii (c ∷ cs) = elim (Bool-cases (c == lf)) [
  | inl e ↦ rw ((==_iff c lf).0 e) (cr_lf (Decodes-native_to_netascii cs))
  | inr e ↦ elim (Bool-cases (c == cr)) [
    | inl f ↦ rw ((==_iff c cr).0 f) (cr_null (Decodes-native_to_netascii cs))
    | inr f ↦ rw (e, f) (plain c (ground arith) (Decodes-native_to_netascii cs))
  ]
]

-- Decoding what was encoded gives the data back, and never throws.
pub netascii_to_native-native_to_netascii :
    (d : Bytes) → netascii_to_native (native_to_netascii d) ≡ ok d
netascii_to_native-native_to_netascii d =
    netascii_to_native-of_Decodes (Decodes-native_to_netascii d)
