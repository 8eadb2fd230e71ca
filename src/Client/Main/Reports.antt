-- ===== src/Client/Main/Reports.antt =====
-- Which files the program of src/client/main.cpp reports as transferred, and its status.
use cpp_tftp.Common.{
  ℕ, ◌≡◌, refl, sym, subst, fun_ext, none, ap, ◌∙◌, ◌⊎◌, inl, inr, Bool, true, false, List, [], ◌∷◌,
  ◌++◌, append-nil, append_assoc, Option, some, if◌then◌else◌, All, Bytes,
}
use cpp_tftp.Common.Outcome.{
  Outcome, ok, throw, undefined, out_of_fuel, ◌>>=◌, Exception, Settled, and_then, exit_status,
}
use cpp_tftp.Tftp.Types.{Mode}
use cpp_tftp.Client.Main.{
  Opt, Settings, defaults, read_options, chosen_mode, TftpClient, transfer_file, transfer_files,
  run_mode, main,
}

-- The files up to the first whose transfer throws.
pub record Transferred (transfer : Bytes → Outcome Bool) (files reported : List Bytes)
    (status : Outcome ℕ) : Type 0 where
  pub rest : List Bytes
  pub front : files ≡ reported ++ rest
  pub returned : All (λ f. (b : Bool) × (transfer f ≡ ok b)) reported
  pub ending :
      ((rest ≡ []) × (status ≡ ok 0))
      ⊎ ((f : Bytes) × (fs : List Bytes) × (e : Exception) × (rest ≡ f ∷ fs)
          × (transfer f ≡ throw e)
          × (status ≡ ok 1))

module _ (c : TftpClient) (s : Settings) (mode : Mode)
    (settled : (f : Bytes) → Settled (transfer_file c s mode f)) where
  record More (files before : List Bytes) : Type 0 where
    new : List Bytes
    reports : (transfer_files c s mode files before).1 ≡ before ++ new
    transferred :
        Transferred
          (transfer_file c s mode)
          files
          new
          (exit_status (transfer_files c s mode files before).0)

  files_step :
      (f : Bytes) (fs before : List Bytes) (r : Outcome Bool)
      → transfer_file c s mode f ≡ r
      → transfer_files c s mode (f ∷ fs) before
        ≡ and_then (r, before) (λ _ d. transfer_files c s mode fs (d ++ f ∷ []))
  unfolding transfer_files
  files_step f fs before r e =
      ap (λ r. and_then (r, before) (λ _ d. transfer_files c s mode fs (d ++ f ∷ []))) e

  transfer_files-More : (files before : List Bytes) → More files before
  unfolding transfer_files
  transfer_files-More [] before = record {
    new = [];
    reports = sym (append-nil before);
    transferred = record { rest = []; front = refl; returned = tt; ending = inl (refl, refl) };
  }
  transfer_files-More (f ∷ fs) before = elim (settled f) [
    | inl (e, p) ↦
        let step = files_step f fs before (throw e) p in
        record {
          new = [];
          reports = ap (λ x. x.1) step ∙ sym (append-nil before);
          transferred = record {
            rest = f ∷ fs;
            front = refl;
            returned = tt;
            ending = inr (f, fs, e, refl, p, ap (λ x. exit_status x.0) step);
          };
        }
    | inr (b, p) ↦
        let step = files_step f fs before (ok b) p in
        let m = transfer_files-More fs (before ++ f ∷ []) in
        let t = m.transferred in
        let status = ap (λ x. exit_status x.0) step in
        record {
          new = f ∷ m.new;
          reports = ap (λ x. x.1) step ∙ m.reports ∙ append_assoc before (f ∷ []) m.new;
          transferred = record {
            rest = t.rest;
            front = ap (λ l. f ∷ l) t.front;
            returned = ((b, p), t.returned);
            ending = elim t.ending [
              | inl (e, z) ↦ inl (e, status ∙ z)
              | inr (g, gs, e, q, r, z) ↦ inr (g, gs, e, q, r, status ∙ z)
            ];
          };
        }
  ]

-- Without `--help` and with a type that is a mode, the program transfers the files in order and in
-- that mode, until the first that throws. Exactly those before it are reported as transferred,
-- whatever their transfers returned; the status is 0 if none throws, and 1 otherwise.
pub main-Transferred :
    (c : TftpClient) (options : List Opt) (files : List Bytes) (mode : Mode)
    → let s = read_options options defaults in
      s.help_flag ≡ false
      → chosen_mode s.transfer_mode ≡ some mode
      → ((f : Bytes) → Settled (transfer_file c s mode f))
      → Transferred (transfer_file c s mode) files (main c options files).1 (main c options files).0
unfolding main run_mode
main-Transferred c options files mode no_help is_mode settled =
    let s = read_options options defaults in
    let m = transfer_files-More c s mode settled files [] in
    let runs : main c options files ≡ run_mode (some mode) c s files =
      ap (λ b. if b then (ok 0, []) else run_mode (chosen_mode s.transfer_mode) c s files) no_help
      ∙ ap (λ o. run_mode o c s files) is_mode in
    subst (λ x. Transferred (transfer_file c s mode) files x.1 x.0) (sym runs)
      (subst
        (λ l.
          Transferred (transfer_file c s mode) files l
            (exit_status (transfer_files c s mode files []).0))
        (sym m.reports) m.transferred)

transfer_files_returned :
    (c : TftpClient) (s : Settings) (mode : Mode) (files reported : List Bytes)
    → All (λ f. (b : Bool) × (transfer_file c s mode f ≡ ok b)) files
    → transfer_files c s mode files reported ≡ (ok tt, reported ++ files)
unfolding transfer_files
transfer_files_returned c s mode [] reported h = ap (λ l. (ok tt, l)) (sym (append-nil reported))
transfer_files_returned c s mode (f ∷ fs) reported h =
    ap (λ r. and_then (r, reported) (λ _ d. transfer_files c s mode fs (d ++ f ∷ []))) h.0.1
    ∙ transfer_files_returned c s mode fs (reported ++ f ∷ []) h.1
    ∙ ap (λ l. (ok tt, l)) (append_assoc reported (f ∷ []) fs)

pub main_returned :
    (c : TftpClient) (options : List Opt) (files : List Bytes) (mode : Mode)
    → let s = read_options options defaults in
      s.help_flag ≡ false
      → chosen_mode s.transfer_mode ≡ some mode
      → All (λ f. (b : Bool) × (transfer_file c s mode f ≡ ok b)) files
      → main c options files ≡ (ok 0, files)
unfolding main run_mode
main_returned c options files mode no_help is_mode h =
    let s = read_options options defaults in
    ap (λ b. if b then (ok 0, []) else run_mode (chosen_mode s.transfer_mode) c s files) no_help
    ∙ ap (λ o. run_mode o c s files) is_mode
    ∙ ap (λ x. (exit_status x.0, x.1)) (transfer_files_returned c s mode files [] h)

-- An outcome without its value.
abbrev pub discard {ℓ} : {A : Type ℓ} → Outcome A → Outcome (Unit {0})
discard m = m >>= λ _. ok tt

and_then-discard {ℓ κ} :
    {A : Type ℓ} {B : Type κ} (m : Outcome A) (s : List Bytes)
    (f : List Bytes → Outcome B × List Bytes)
    → and_then (m, s) (λ _ s. f s) ≡ and_then (discard m, s) (λ _ s. f s)
and_then-discard (ok a) s f = refl
and_then-discard (throw e) s f = refl
and_then-discard undefined s f = refl
and_then-discard out_of_fuel s f = refl

-- Two clients whose transfers throw alike, whatever they return.
pub record ThrowAlike (c c' : TftpClient) : Type 0 where
  pub get_file :
      (f host : Bytes) (mode : Mode) (interface : Bytes)
      → discard (c.get_file f host mode interface) ≡ discard (c'.get_file f host mode interface)
  pub send_file :
      (f host : Bytes) (mode : Mode) (interface : Bytes)
      → discard (c.send_file f host mode interface) ≡ discard (c'.send_file f host mode interface)

transfer_alike :
    (c c' : TftpClient) (s : Settings) (mode : Mode)
    → ThrowAlike c c'
    → (f : Bytes) → discard (transfer_file c s mode f) ≡ discard (transfer_file c' s mode f)
transfer_alike c c' s mode h f = by_flag s.write_flag
  where
    by_flag :
        (b : Bool)
        → discard (
            if b
            then c.send_file f s.tftp_host mode s.local_interface
            else c.get_file f s.tftp_host mode s.local_interface)
          ≡ discard (
              if b
              then c'.send_file f s.tftp_host mode s.local_interface
              else c'.get_file f s.tftp_host mode s.local_interface)
    by_flag true = h.send_file f s.tftp_host mode s.local_interface
    by_flag false = h.get_file f s.tftp_host mode s.local_interface

transfer_files_alike :
    (c c' : TftpClient) (s : Settings) (mode : Mode)
    → ThrowAlike c c'
    → (files reported : List Bytes)
    → transfer_files c s mode files reported ≡ transfer_files c' s mode files reported
unfolding transfer_files
transfer_files_alike c c' s mode h [] reported = refl
transfer_files_alike c c' s mode h (f ∷ fs) reported =
    let next = λ (c : TftpClient) (d : List Bytes). transfer_files c s mode fs (d ++ f ∷ []) in
    and_then-discard (transfer_file c s mode f) reported (next c)
    ∙ ap (λ m. and_then (m, reported) (λ _ d. next c d)) (transfer_alike c c' s mode h f)
    ∙ ap (λ next. and_then (discard (transfer_file c' s mode f), reported) (λ _ d. next d))
        (fun_ext (λ d. transfer_files_alike c c' s mode h fs (d ++ f ∷ [])))
    ∙ sym (and_then-discard (transfer_file c' s mode f) reported (next c'))

-- What the program reports and its status do not depend on what the transfers return: transfers that
-- return false in place of true are reported as successful and give the status 0 all the same.
main_ignores_results :
    (c c' : TftpClient) (options : List Opt) (files : List Bytes)
    → ThrowAlike c c'
    → main c options files ≡ main c' options files
unfolding main run_mode
main_ignores_results c c' options files h =
    let s = read_options options defaults in
    ap (λ r. if s.help_flag then (ok 0, []) else r) (by_mode (chosen_mode s.transfer_mode) s)
  where
    by_mode : (o : Option Mode) (s : Settings) → run_mode o c s files ≡ run_mode o c' s files
    by_mode none s = refl
    by_mode (some mode) s =
        ap (λ x. (exit_status x.0, x.1)) (transfer_files_alike c c' s mode h files [])
