-- ===== src/Server/Loop/Cleanup.antt =====
-- Which connections the clean-up loop keeps, and where it goes past the end of the list.
use cpp_tftp.Common.{
  ◌%◌, ◌≡◌, refl, sym, ap, ◌∙◌, Bool, true, false, inl, inr, List, [], ◌∷◌, ◌++◌, append_assoc,
  arith, if◌then◌else◌, Bool-cases, length, All,
}
use cpp_tftp.Common.Outcome.{Outcome, ok, undefined, ◌>>=◌, bind-eq-ok, ok-injective}
use cpp_tftp.Tftp.Deserialise.Total.{Returns}
use cpp_tftp.Server.Connection.{is_finished}
use cpp_tftp.Server.Loop.{Client, clean_up, clean_up_from}

-- The connections that are not finished.
pub live : List Client → List Client
live [] = []
live (x ∷ xs) = if is_finished x.connection then live xs else x ∷ live xs

abbrev keep : Client → Outcome (List Client) → Outcome (List Client)
keep x o = o >>= λ ys. ok (x ∷ ys)

-- A step of the loop that does not follow an `erase`.
clean_up_step :
    (x : Client) (xs : List Client) (b : Bool)
    → is_finished x.connection ≡ b
    → clean_up_from false (x ∷ xs)
      ≡ (if b then clean_up_from true xs else keep x (clean_up_from false xs))
unfolding clean_up_from
clean_up_step x xs b e =
    ap (λ b. if b then clean_up_from true xs else keep x (clean_up_from false xs)) e

live_step :
    (x : Client) (xs : List Client) (b : Bool)
    → is_finished x.connection ≡ b
    → live (x ∷ xs) ≡ (if b then live xs else x ∷ live xs)
unfolding live
live_step x xs b e = ap (λ b. if b then live xs else x ∷ live xs) e

clean_up_from-live :
    (skips : Bool) (xs ys : List Client) → clean_up_from skips xs ≡ ok ys → live ys ≡ live xs
unfolding clean_up_from live
clean_up_from-live true [] ys h = cc h
clean_up_from-live true (x ∷ xs) ys h =
    let (zs, e, p) = bind-eq-ok (clean_up_from false xs) _ h in
    sym (ap live (ok-injective p))
    ∙ ap (λ l. if is_finished x.connection then l else x ∷ l) (clean_up_from-live false xs zs e)
clean_up_from-live false [] ys h = sym (ap live (ok-injective h))
clean_up_from-live false (x ∷ xs) ys h = elim (Bool-cases (is_finished x.connection)) [
  | inl over ↦
      clean_up_from-live true xs ys (sym (clean_up_step x xs true over) ∙ h)
      ∙ sym (live_step x xs true over)
  | inr active ↦
      let (zs, e, p) =
        bind-eq-ok (clean_up_from false xs) _ (sym (clean_up_step x xs false active) ∙ h) in
      sym (ap live (ok-injective p))
      ∙ ap (λ l. if is_finished x.connection then l else x ∷ l) (clean_up_from-live false xs zs e)
]

-- When the clean-up returns, the connections that are not finished are those from before, in their
-- order.
pub clean_up-live : (xs ys : List Client) → clean_up xs ≡ ok ys → live ys ≡ live xs
clean_up-live xs ys h = clean_up_from-live false xs ys h

-- A list that is empty or ends with a connection that is not finished.
pub data EndsLive : List Client → Type 0 where
  is_nil : EndsLive []
  ends :
      (xs : List Client) (x : Client) → is_finished x.connection ≡ false → EndsLive (xs ++ x ∷ [])

abbrev pub AllFinished : List Client → Type 0
AllFinished xs = All (λ x. is_finished x.connection ≡ true) xs

keep_bind :
    (x : Client) (kept : List Client) (o : Outcome (List Client))
    → keep x (o >>= λ ys. ok (kept ++ ys)) ≡ (o >>= λ ys. ok (x ∷ (kept ++ ys)))
keep_bind x kept o = ground arith

-- After a connection that is not finished, the rest of the list is cleaned up by itself.
past_live :
    (skips : Bool) (xs : List Client) (x : Client) (tail : List Client)
    → is_finished x.connection ≡ false
    → (kept : List Client) × (clean_up_from skips (xs ++ (x ∷ tail))
        ≡ (clean_up_from false tail >>= λ ys. ok (kept ++ ys)))
unfolding clean_up_from
past_live true [] x tail h = (x ∷ [], refl)
past_live false [] x tail h = (x ∷ [], clean_up_step x tail false h)
past_live true (y ∷ xs) x tail h =
    let (kept, e) = past_live false xs x tail h in
    (y ∷ kept, ap (keep y) e ∙ keep_bind y kept (clean_up_from false tail))
past_live false (y ∷ xs) x tail h = elim (Bool-cases (is_finished y.connection)) [
  | inl over ↦
      let (kept, e) = past_live true xs x tail h in
      (kept, clean_up_step y (xs ++ (x ∷ tail)) true over ∙ e)
  | inr active ↦
      let (kept, e) = past_live false xs x tail h in
      (
        y ∷ kept,
        clean_up_step y (xs ++ (x ∷ tail)) false active
            ∙ ap (keep y) e
            ∙ keep_bind y kept (clean_up_from false tail),
      )
]

clean_up_tail :
    (xs : List Client)
    → AllFinished xs
    → (length xs % 2 ≡ 1 → clean_up_from false xs ≡ undefined)
      × (length xs % 2 ≡ 0 → Returns (clean_up_from false xs))
unfolding clean_up_from
clean_up_tail [] h = (λ odd. absurd (omega (arith, odd)), λ _. ([], refl))
clean_up_tail (x ∷ []) h = (λ _. clean_up_step x [] true h.0, λ even. absurd (omega (arith, even)))
clean_up_tail (x ∷ y ∷ xs) h =
    let (odd, even) = clean_up_tail xs h.1.1 in
    let first = clean_up_step x (y ∷ xs) true h.0 in
    (
      λ o. first ∙ ap (keep y) (odd (omega (arith, o))),
      λ e. let (ys, q) = even (omega (arith, e)) in (y ∷ ys, first ∙ ap (keep y) q),
    )

-- Where a list that is empty or ends with a connection that is not finished is followed by an odd
-- number of finished connections, the clean-up goes past the end; by an even number, it returns.
pub clean_up-AllFinished :
    (xs tail : List Client)
    → EndsLive xs
    → AllFinished tail
    → (length tail % 2 ≡ 1 → clean_up (xs ++ tail) ≡ undefined)
      × (length tail % 2 ≡ 0 → Returns (clean_up (xs ++ tail)))
clean_up-AllFinished _ tail is_nil h = clean_up_tail tail h
clean_up-AllFinished _ tail (ends xs x e) h =
    let (kept, q) = past_live false xs x tail e in
    let (odd, even) = clean_up_tail tail h in
    let whole : clean_up ((xs ++ x ∷ []) ++ tail)
        ≡ (clean_up_from false tail >>= λ ys. ok (kept ++ ys)) =
      ap (clean_up_from false) (append_assoc xs (x ∷ []) tail) ∙ q in
    (
      λ o. whole ∙ ap (λ m. m >>= λ ys. ok (kept ++ ys)) (odd o),
      λ e. let (ys, q) = even e in (kept ++ ys, whole ∙ ap (λ m. m >>= λ ys. ok (kept ++ ys)) q),
    )
