-- ===== src/Storage/CloudAuth/Restored.antt =====
-- internal/storage/secret.go: the cleanup of `PrepareCloudAuth` restores the process.
use dtreesync.Base.{
  Text, Bool, ◌&&◌, true, false, not, Option, none, some, List, [], ◌∷◌, ◌++◌, ◌≡◌, ◌⊎◌, refl, sym,
  ◌∙◌, ap, inl, inr, ◌==◌, ==_iff, text_eq, Bool-cases, if◌then◌else◌, then_case, else_case,
  if_either,
}
use dtreesync.Storage.CloudAuth.{
  give_up, Process, System, EnvRestore, setenv, create, remove, cleanup, Prepared, ready, failed,
  then_prepare, decrypt_var, check_all, google, secret_vars, in_temp, file_decrypted, check_content,
  google_found, check_google, prepare_cloud_auth,
}
use dtreesync.Storage.CloudAuth.Undone.{
  Same, cleanup-vars, cleanup-files, cleanup-append, Undone, Fine, after, Distinct, vars_again,
  decrypt_var-Fine, check_all-Fine,
}

-- The same variables, and the same temporary files, but for one that was made and cannot be removed.
abbrev pub IsRestored : System → Process → Process → Type 0
IsRestored sys p q =
    ((k : Text) → p.vars k ≡ q.vars k)
    × ((f : Text)
        → (p.files f ≡ q.files f) ⊎ ((sys.create_temp ≡ some f) × (sys.can_remove f ≡ false)))

Same-IsRestored : (sys : System) (p q : Process) → Same p q → IsRestored sys p q
Same-IsRestored sys p q (vars, files) = (vars, λ f. inl (files f))

module _ (first : Process) (sys : System) where
  Back : Prepared → Type 0
  Back o = IsRestored sys (after sys o) first

  Fine-Back : (ks : List Text) (o : Prepared) → Fine sys first ks o → Back o
  unfolding Back
  Fine-Back ks (ready rs p) u = (u.vars_back, λ f. inl (u.files_back f))
  Fine-Back ks (failed p) u = Same-IsRestored sys p first u

  Undone-Back :
      (ks : List Text) (rs : List EnvRestore) (p : Process)
      → Undone sys first ks rs p
      → Back (ready rs p) × Back (give_up sys rs p)
  unfolding Back
  Undone-Back ks rs p u =
      let same = Same-IsRestored sys (cleanup sys rs p) first (u.vars_back, u.files_back) in
      (same, same)

  module _ (is_new : (f : Text) → sys.create_temp ≡ some f → first.files f ≡ false) where
    -- What the removal of the new file leaves.
    removed :
        (f g : Text) (b : Bool)
        → sys.create_temp ≡ some f
        → ((g == f) ≡ false → b ≡ first.files g)
        → ((if g == f && sys.can_remove f then false else b) ≡ first.files g)
          ⊎ ((sys.create_temp ≡ some g) × (sys.can_remove g ≡ false))
    removed f g b c other = elim (Bool-cases (g == f)) [
      | inr e ↦ inl (rw e (other e))
      | inl e ↦
          let same : g ≡ f = (==_iff g f).0 e in
          elim (Bool-cases (sys.can_remove f)) [
            | inl k ↦ inl (rw (e, k) (sym (is_new f c) ∙ ap first.files (sym same)))
            | inr k ↦ inr (rw same c, rw same k)
          ]
    ]

    in_temp-Back :
        (old : Text) (rs : List EnvRestore) (p : Process) (o : Option Text)
        → Undone sys first (google ∷ []) rs p
        → p.vars google ≡ some old
        → sys.create_temp ≡ o
        → Back (in_temp sys old rs p o)
    unfolding Back
    in_temp-Back old rs p none u e c = (Undone-Back _ rs p u).1
    in_temp-Back old rs p (some f) u e c = elim (Bool-cases sys.can_write) [
      | inl w ↦ then_case Back sys.can_write _ _ w kept_temp
      | inr w ↦ else_case Back sys.can_write _ _ w dropped_temp
    ]
      where
        r : EnvRestore
        r = record { key = google; old_val = old; existed = true; temp_file = some f }

        q : Process
        q = setenv google f (create f p)

        kept_temp : Back (ready (rs ++ (r ∷ [])) q)
        kept_temp = (
          λ j.
              rw (cleanup-append sys rs r q)
                (vars_again first sys google old [] rs p q j u e (λ other. rw other refl)),
          λ g. rw (cleanup-append sys rs r q) (
              removed f g _ c
                (λ other. cleanup-files sys rs q p g (rw other refl) ∙ u.files_back g)),
        )

        d : Process
        d = remove sys f (create f p)

        dropped_temp : Back (failed (cleanup sys rs d))
        dropped_temp = (
          λ k. cleanup-vars sys rs d p k refl ∙ u.vars_back k,
          λ g. dropped g (removed f g _ c (λ other. rw other (u.no_files g))),
        )
          where
            dropped :
                (g : Text)
                → (d.files g ≡ first.files g)
                  ⊎ ((sys.create_temp ≡ some g) × (sys.can_remove g ≡ false))
                → ((cleanup sys rs d).files g ≡ first.files g)
                  ⊎ ((sys.create_temp ≡ some g) × (sys.can_remove g ≡ false))
            dropped g (inl h) =
                inl (cleanup-files sys rs d p g (h ∙ sym (u.no_files g)) ∙ u.files_back g)
            dropped g (inr h) = inr h

    decrypt-Back :
        (old : Text) (rs : List EnvRestore) (p : Process)
        → Undone sys first (google ∷ []) rs p
        → p.vars google ≡ some old
        → Back (decrypt_var sys google old rs p)
    decrypt-Back old rs p u e =
        Fine-Back [] _ (decrypt_var-Fine first sys google old [] rs p tt u e)

    file_decrypted-Back :
        (old : Text) (rs : List EnvRestore) (p : Process) (o : Option Text)
        → Undone sys first (google ∷ []) rs p
        → p.vars google ≡ some old
        → Back (file_decrypted sys old rs p o)
    unfolding Back
    file_decrypted-Back old rs p none u e = (Undone-Back _ rs p u).1
    file_decrypted-Back old rs p (some _) u e = in_temp-Back old rs p sys.create_temp u e refl

    check_content-Back :
        (old : Text) (rs : List EnvRestore) (p : Process) (o : Option Text)
        → Undone sys first (google ∷ []) rs p
        → p.vars google ≡ some old
        → Back (check_content sys old rs p o)
    unfolding Back
    check_content-Back old rs p none u e = (Undone-Back _ rs p u).0
    check_content-Back old rs p (some content) u e =
        if_either Back (not (sys.is_encrypted content)) _ _ (Undone-Back _ rs p u).0 (
          if_either Back sys.has_key _ _ (file_decrypted-Back old rs p (sys.decrypt content) u e)
            (Undone-Back _ rs p u).1)

    google_found-Back :
        (rs : List EnvRestore) (p : Process) (o : Option Text)
        → Undone sys first (google ∷ []) rs p
        → p.vars google ≡ o
        → Back (google_found sys rs p o)
    unfolding Back
    google_found-Back rs p none u e = (Undone-Back _ rs p u).0
    google_found-Back rs p (some old) u e =
        if_either Back (old == []) _ _ (Undone-Back _ rs p u).0 (
          if_either Back (sys.is_encrypted old) _ _ (decrypt-Back old rs p u e)
            (check_content-Back old rs p (sys.read_file old) u e))

names_Distinct : Distinct (secret_vars ++ (google ∷ []))
unfolding text_eq
names_Distinct = (
  (refl, (refl, (refl, (refl, tt)))),
  ((refl, (refl, (refl, tt))), ((refl, (refl, tt)), ((refl, tt), (tt, tt)))),
)

-- Where a new temporary file is one that was not there: after `PrepareCloudAuth` and its cleanup, or after
-- an error of it, each variable of the environment is what it was, and so are the temporary files, but for
-- the one that was made, if it cannot be removed.
pub prepare_cloud_auth-IsRestored :
    (sys : System) (p : Process)
    → ((f : Text) → sys.create_temp ≡ some f → p.files f ≡ false)
    → IsRestored sys (after sys (prepare_cloud_auth sys p)) p
unfolding prepare_cloud_auth check_google cleanup
prepare_cloud_auth-IsRestored sys p is_new = google_last (check_all sys secret_vars [] p) (
    check_all-Fine p sys secret_vars google [] p names_Distinct (record {
      vars_back = λ k. refl;
      files_back = λ f. refl;
      untouched = (refl, (refl, (refl, (refl, (refl, tt)))));
      no_files = λ f. refl;
    }))
  where
    google_last :
        (o : Prepared)
        → Fine sys p (google ∷ []) o
        → IsRestored sys (after sys (then_prepare (check_google sys) o)) p
    google_last (ready rs q) u =
        unfold Back in google_found-Back p sys is_new rs q (q.vars google) u refl
    google_last (failed q) u = Same-IsRestored sys q p u
