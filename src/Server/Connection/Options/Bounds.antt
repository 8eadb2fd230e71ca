-- ===== src/Server/Connection/Options/Bounds.antt =====
-- What `process_options` changes, and the values that it leaves.
use cpp_tftp.Common.{
  ℕ, ◌%◌, ◌^◌, ◌≤◌, ◌<◌, max, ◌≡◌, refl, ap, ◌∙◌, true, inl, inr, [], ◌∷◌, Option, none, some,
  arith, Bool-cases, All, Bytes, c_str, equal,
}
use cpp_tftp.Common.Outcome.{Outcome, ok}
use cpp_tftp.Common.Decimal.{stoul}
use cpp_tftp.Tftp.Types.{Options, RwPacket}
use cpp_tftp.Tftp.Modes.{strcmp_eq}
use cpp_tftp.Server.Connection.{Connection}
use cpp_tftp.Server.Connection.Host.{Host}
use cpp_tftp.Server.Connection.Options.{
  blksize_opt, tsize_opt, timeout_opt, set_block_size, blksize_result, blksize_option, tsize_option,
  timeout_option, process_option, process_all, process_options,
}

-- Only the block size, the timeout and the reply may differ.
abbrev pub Keeps : Connection → Connection → Type 0
Keeps c c' = c' ≡ record c {
  block_size = c'.block_size;
  timeout_s = c'.timeout_s;
  oack_packet = c'.oack_packet;
}

abbrev pub IsTimeout : ℕ → Type 0
IsTimeout n = (1 ≤ n) × (n ≤ 255)

record Step (c c' : Connection) : Type 0 where
  keeps : Keeps c c'
  in_range : IsTimeout c.timeout_s → IsTimeout c'.timeout_s

blksize-Step :
    (h : Host) (name value : Bytes) (c : Connection) → Step c (blksize_option h name value c)
unfolding blksize_result
blksize-Step h name value c = ground arith

tsize-Step :
    (h : Host) (r : RwPacket) (name : Bytes) (c : Connection) → Step c (tsize_option h r name c)
unfolding tsize_option
tsize-Step h r name c = ground arith

timeout-Step : (name value : Bytes) (c : Connection) → Step c (timeout_option name value c)
unfolding timeout_option
timeout-Step name value c = ground arith

process_option-Step :
    (h : Host) (r : RwPacket) (o : Bytes × Bytes) (c : Connection) → Step c (process_option h r o c)
unfolding process_option
process_option-Step h r (name, value) c = elim (Bool-cases (strcmp_eq name blksize_opt)) [
  | inl b ↦ rw b (blksize-Step h name value c)
  | inr b ↦ elim (Bool-cases (strcmp_eq name tsize_opt)) [
    | inl t ↦ rw (b, t) (tsize-Step h r name c)
    | inr t ↦ elim (Bool-cases (strcmp_eq name timeout_opt)) [
      | inl e ↦ rw (b, t, e) (timeout-Step name value c)
      | inr e ↦ rw (b, t, e) (record { keeps = refl; in_range = λ v. v })
    ]
  ]
]

Keeps-trans : (c d e : Connection) → Keeps c d → Keeps d e → Keeps c e
Keeps-trans c d e p q = ground arith

process_all-Step :
    (h : Host) (r : RwPacket) (o : Options) (c : Connection) → Step c (process_all h r o c)
unfolding process_all
process_all-Step h r [] c = record { keeps = refl; in_range = λ v. v }
process_all-Step h r (opt ∷ opts) c =
    let first = process_option-Step h r opt c in
    let rest = process_all-Step h r opts (process_option h r opt c) in
    record {
      keeps = Keeps-trans c _ _ first.keeps rest.keeps;
      in_range = λ v. rest.in_range (first.in_range v);
    }

pub process_options-Keeps :
    (h : Host) (r : RwPacket) (c : Connection) → Keeps c (process_options h r c)
process_options-Keeps h r c = (process_all-Step h r r.options c).keeps

-- Whatever options a request has, the timeout stays a whole number of seconds from 1 to 255.
process_options-IsTimeout :
    (h : Host) (r : RwPacket) (c : Connection)
    → IsTimeout c.timeout_s
    → IsTimeout (process_options h r c).timeout_s
process_options-IsTimeout h r c = (process_all-Step h r r.options c).in_range

-- The value of a block size option is read as a number whose 32 low bits are no negative `int`.
abbrev pub IsModest : Bytes × Bytes → Type 0
IsModest (name, value) = (v : ℕ) → stoul value ≡ ok v → v % 2 ^ 32 < 2 ^ 31

module _ (h : Host) (m bound : ℕ) (known : h.mtu ≡ some m) (fits : m ≤ bound) where
  set_block_size-le :
      (name value : Bytes) (size : ℕ) (c : Connection)
      → size < 2 ^ 31
      → (set_block_size h.mtu name value size c).block_size ≤ bound
  unfolding set_block_size
  set_block_size-le name value size c s = rw known (ground arith)

  blksize_result-le :
      (name value : Bytes) (o : Outcome ℕ) (c : Connection)
      → stoul value ≡ o
      → IsModest (name, value)
      → c.block_size ≤ bound
      → (blksize_result h name value o c).block_size ≤ bound
  unfolding blksize_result
  blksize_result-le name value (ok v) c e modest le =
      set_block_size-le name value (v % 2 ^ 32) c (modest v e)
  blksize_result-le name value _ c e modest le = le

  process_option-le :
      (r : RwPacket) (o : Bytes × Bytes) (c : Connection)
      → IsModest o
      → c.block_size ≤ bound
      → (process_option h r o c).block_size ≤ bound
  unfolding process_option tsize_option timeout_option
  process_option-le r (name, value) c modest le = elim (Bool-cases (strcmp_eq name blksize_opt)) [
    | inl b ↦ rw b (blksize_result-le name value (stoul value) c refl modest le)
    | inr b ↦ rw b (ground arith)
  ]

  process_all-le :
      (r : RwPacket) (os : Options) (c : Connection)
      → All IsModest os
      → c.block_size ≤ bound
      → (process_all h r os c).block_size ≤ bound
  unfolding process_all
  process_all-le r [] c modest le = le
  process_all-le r (o ∷ os) c modest le =
      process_all-le r os (process_option h r o c) modest.1 (process_option-le r o c modest.0 le)

-- Where the MTU is known and each block size that is asked for is below 2 ^ 31, the block size
-- that is used is at most the MTU, or the one from before.
process_options-block_size :
    (h : Host) (r : RwPacket) (c : Connection) (m : ℕ)
    → h.mtu ≡ some m
    → All IsModest r.options
    → (process_options h r c).block_size ≤ max m c.block_size
process_options-block_size h r c m e v =
    process_all-le h m (max m c.block_size) e (omega arith) r r.options c v (omega arith)

set_block_size-large :
    (mtu : Option ℕ) (name value : Bytes) (size : ℕ) (c : Connection)
    → 2 ^ 31 ≤ size
    → (set_block_size mtu name value size c).block_size ≡ size
unfolding set_block_size
set_block_size-large none name value size c h = refl
set_block_size-large (some m) name value size c h = ground arith

blksize_opt_self : strcmp_eq blksize_opt blksize_opt ≡ true
unfolding strcmp_eq c_str equal
blksize_opt_self = refl

-- A request whose only option is a block size whose 32 low bits are a negative `int`: the size is
-- taken as it stands, whatever the MTU.
pub process_options-block_size_unbounded :
    (h : Host) (r : RwPacket) (c : Connection) (value : Bytes) (v : ℕ)
    → r.options ≡ (blksize_opt, value) ∷ []
    → stoul value ≡ ok v
    → 2 ^ 31 ≤ v % 2 ^ 32
    → (process_options h r c).block_size ≡ v % 2 ^ 32
unfolding process_all process_option
process_options-block_size_unbounded h r c value v o e large =
    ap (λ os. (process_all h r os c).block_size) o
    ∙ rw (blksize_opt_self, e) (set_block_size-large h.mtu blksize_opt value (v % 2 ^ 32) c large)
