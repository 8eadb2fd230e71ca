-- ===== src/Common/Outcome.antt =====
-- The result of code that may throw, or may run into undefined behaviour. A loop of the model that
-- has used up its rounds is `out_of_fuel`.
use mathlib.Core.Path.{◌≡◌, refl, ap, ◌∙◌}
use mathlib.Core.Logic.{◌⊎◌, inl, inr}
use mathlib.Core.List.{List, [], ◌∷◌}
use Prim.Native.Nat.{ℕ, zero, suc}

-- What a `throw` says.
pub data Exception : Type 0 where
  out_of_range : Exception
  invalid_argument : Exception
  cr_without_lf_or_null : Exception
  eol_after_cr : Exception
  error_state : Exception
  request_queue_empty : Exception
  system_error : Exception
  epoll_error : Exception
  invalid_address : Exception
  failed_to_chdir : Exception
  failed_to_create_epoll : Exception
  epoll_add_failed : Exception

pub data Outcome {ℓ} (A : Type ℓ) : Type ℓ where
  ok : A → Outcome A
  throw : Exception → Outcome A
  undefined : Outcome A
  out_of_fuel : Outcome A

infixl 5 ◌>>=◌
abbrev pub ◌>>=◌ {ℓ κ} : {A : Type ℓ} {B : Type κ} → Outcome A → (A → Outcome B) → Outcome B
ok a >>= f = f a
throw e >>= f = throw e
undefined >>= f = undefined
out_of_fuel >>= f = out_of_fuel

pub bind-eq-ok {ℓ κ} :
    {A : Type ℓ} {B : Type κ} (m : Outcome A) (f : A → Outcome B) {b : B}
    → (m >>= f) ≡ ok b
    → (a : A) × (m ≡ ok a) × (f a ≡ ok b)
bind-eq-ok (ok a) f h = (a, refl, h)
bind-eq-ok (throw e) f h = cc
bind-eq-ok undefined f h = cc
bind-eq-ok out_of_fuel f h = cc

-- The handlers on the way out of a block: `release` is what the destructors do to `s`, the state that
-- the block leaves when it is left by an exception.
unfoldable pub unwind {ℓ κ} : {A : Type ℓ} {S : Type κ} → (S → S) → Outcome A → S → Outcome A × S
unwind release (ok a) s = (ok a, s)
unwind release (throw e) s = (throw e, release s)
unwind release undefined s = (undefined, s)
unwind release out_of_fuel s = (out_of_fuel, s)

-- The end of a block, by its last statement or by an exception: `release` is what the destructors do.
unfoldable pub leave {ℓ κ} : {A : Type ℓ} {S : Type κ} → (S → S) → Outcome A → S → Outcome A × S
leave release (ok a) s = (ok a, release s)
leave release (throw e) s = (throw e, release s)
leave release undefined s = (undefined, s)
leave release out_of_fuel s = (out_of_fuel, s)

-- The status of a `main` that catches exceptions.
abbrev pub exit_status {ℓ} : {A : Type ℓ} → Outcome A → Outcome ℕ
exit_status (ok _) = ok 0
exit_status (throw _) = ok 1
exit_status undefined = undefined
exit_status out_of_fuel = out_of_fuel

-- What follows a step that has a result, on the state that the step leaves.
abbrev pub and_then {ℓ κ μ} :
    {A : Type ℓ} {B : Type κ} {S : Type μ} → Outcome A × S → (A → S → Outcome B × S) → Outcome B × S
and_then (ok a, s) f = f a s
and_then (throw e, s) f = (throw e, s)
and_then (undefined, s) f = (undefined, s)
and_then (out_of_fuel, s) f = (out_of_fuel, s)

pub bind-cong {ℓ κ} :
    {A : Type ℓ} {B : Type κ} (m : Outcome A) (f g : A → Outcome B)
    → ((a : A) → f a ≡ g a)
    → (m >>= f) ≡ (m >>= g)
bind-cong (ok a) f g h = h a
bind-cong (throw e) f g h = refl
bind-cong undefined f g h = refl
bind-cong out_of_fuel f g h = refl

pub ok-injective {ℓ} : {A : Type ℓ} {a b : A} → ok a ≡ ok b → a ≡ b
ok-injective h = cc

-- `vector::at`
unfoldable pub at {ℓ} : {A : Type ℓ} → List A → ℕ → Outcome A
at [] i = throw out_of_range
at (x ∷ xs) zero = ok x
at (x ∷ xs) (suc i) = at xs i

-- The outcome is a result or an exception.
abbrev pub Settled {ℓ} : {A : Type ℓ} → Outcome A → Type ℓ
Settled {A} m = ((e : Exception) × (m ≡ throw e)) ⊎ ((a : A) × (m ≡ ok a))

pub Settled-bind {ℓ κ} :
    {A : Type ℓ} {B : Type κ} (m : Outcome A) (f : A → Outcome B)
    → Settled m
    → ((a : A) → m ≡ ok a → Settled (f a))
    → Settled (m >>= f)
Settled-bind m f (inl (e, p)) h = inl (e, ap (λ m. m >>= f) p)
Settled-bind m f (inr (a, p)) h = elim (h a p) [
  | inl (e, q) ↦ inl (e, ap (λ m. m >>= f) p ∙ q)
  | inr (b, q) ↦ inr (b, ap (λ m. m >>= f) p ∙ q)
]

-- The outcome is neither undefined nor that of a loop that goes on.
abbrev pub HasEnded {ℓ} : {A : Type ℓ} → Outcome A → Type 0
HasEnded (ok _) = Unit
HasEnded (throw _) = Unit
HasEnded undefined = ⊥
HasEnded out_of_fuel = ⊥

pub leave-HasEnded {ℓ κ} :
    {A : Type ℓ} {S : Type κ} (release : S → S) (r : Outcome A) (s t : S)
    → release s ≡ t
    → HasEnded r
    → leave release r s ≡ (r, t)
unfolding leave
leave-HasEnded release (ok a) s t p h = ap (λ d. (ok a, d)) p
leave-HasEnded release (throw e) s t p h = ap (λ d. (throw e, d)) p
leave-HasEnded release undefined s t p h = absurd h
leave-HasEnded release out_of_fuel s t p h = absurd h

pub leave-outcome {ℓ κ} :
    {A : Type ℓ} {S : Type κ} (release : S → S) (r : Outcome A) (s : S) → (leave release r s).0 ≡ r
unfolding leave
leave-outcome release (ok a) s = refl
leave-outcome release (throw e) s = refl
leave-outcome release undefined s = refl
leave-outcome release out_of_fuel s = refl

pub unwind-outcome {ℓ κ} :
    {A : Type ℓ} {S : Type κ} (release : S → S) (r : Outcome A) (s : S) → (unwind release r s).0 ≡ r
unfolding unwind
unwind-outcome release (ok a) s = refl
unwind-outcome release (throw e) s = refl
unwind-outcome release undefined s = refl
unwind-outcome release out_of_fuel s = refl
