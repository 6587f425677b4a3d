-- ===== src/Storage/CloudAuth/Undone.antt =====
-- internal/storage/secret.go: what the cleanup of `PrepareCloudAuth` makes of each variable and file, and
-- the variables that are decrypted one after the other.
use dtreesync.Base.{
  Text, Bool, true, false, not, ◌&&◌, Option, none, some, List, [], ◌∷◌, ◌++◌, ◌≡◌, refl, sym, ◌∙◌,
  ap, inl, inr, ◌==◌, ==_iff, text_eq, All, Bool-cases, if◌then◌else◌, arith, then_case, else_case,
}
use dtreesync.Storage.CloudAuth.{
  Process, System, EnvRestore, setenv, unsetenv, remove_temp, restore_var, cleanup, Prepared, ready,
  failed, then_prepare, replaced, decrypt_var, check_var, check_and_decrypt_env, check_all,
}

-- The same variables and the same temporary files.
abbrev pub Same : Process → Process → Type 0
Same p q = ((k : Text) → p.vars k ≡ q.vars k) × ((f : Text) → p.files f ≡ q.files f)

removed-vars :
    (sys : System) (t : Option Text) (p : Process) (k : Text)
    → (remove_temp sys t p).vars k ≡ p.vars k
removed-vars sys none p k = refl
removed-vars sys (some f) p k = refl

removed-files :
    (sys : System) (t : Option Text) (p q : Process) (f : Text)
    → p.files f ≡ q.files f
    → (remove_temp sys t p).files f ≡ (remove_temp sys t q).files f
removed-files sys none p q f e = e
removed-files sys (some g) p q f e = ap (λ b. if f == g && sys.can_remove g then false else b) e

if-vars :
    (b : Bool) (key old : Text) (p q : Process) (k : Text)
    → p.vars k ≡ q.vars k
    → (if b then setenv key old p else unsetenv key p).vars k
      ≡ (if b then setenv key old q else unsetenv key q).vars k
if-vars true key old p q k e = ap (λ v. if k == key then some old else v) e
if-vars false key old p q k e = ap (λ v. if k == key then none else v) e

if-files :
    (b : Bool) (key old : Text) (p : Process) (f : Text)
    → (if b then setenv key old p else unsetenv key p).files f ≡ p.files f
if-files true key old p f = refl
if-files false key old p f = refl

restore_var-local :
    (sys : System) (r : EnvRestore) (p q : Process) (k : Text)
    → p.vars k ≡ q.vars k
    → (restore_var r (remove_temp sys r.temp_file p)).vars k
      ≡ (restore_var r (remove_temp sys r.temp_file q)).vars k
restore_var-local sys r p q k e =
    if-vars r.existed r.key r.old_val _ _ k
      (removed-vars sys r.temp_file p k ∙ e ∙ sym (removed-vars sys r.temp_file q k))

restore_file-local :
    (sys : System) (r : EnvRestore) (p q : Process) (f : Text)
    → p.files f ≡ q.files f
    → (restore_var r (remove_temp sys r.temp_file p)).files f
      ≡ (restore_var r (remove_temp sys r.temp_file q)).files f
restore_file-local sys r p q f e =
    if-files r.existed r.key r.old_val (remove_temp sys r.temp_file p) f
    ∙ removed-files sys r.temp_file p q f e
    ∙ sym (if-files r.existed r.key r.old_val (remove_temp sys r.temp_file q) f)

-- What the cleanup makes of a variable, or of a file, depends on that one only.
pub cleanup-vars :
    (sys : System) (rs : List EnvRestore) (p q : Process) (k : Text)
    → p.vars k ≡ q.vars k
    → (cleanup sys rs p).vars k ≡ (cleanup sys rs q).vars k
unfolding cleanup
cleanup-vars sys [] p q k e = e
cleanup-vars sys (r ∷ rs) p q k e = cleanup-vars sys rs _ _ k (restore_var-local sys r p q k e)

pub cleanup-files :
    (sys : System) (rs : List EnvRestore) (p q : Process) (f : Text)
    → p.files f ≡ q.files f
    → (cleanup sys rs p).files f ≡ (cleanup sys rs q).files f
unfolding cleanup
cleanup-files sys [] p q f e = e
cleanup-files sys (r ∷ rs) p q f e = cleanup-files sys rs _ _ f (restore_file-local sys r p q f e)

pub cleanup-append :
    (sys : System) (rs : List EnvRestore) (r : EnvRestore) (p : Process)
    → cleanup sys (rs ++ (r ∷ [])) p
      ≡ restore_var r (remove_temp sys r.temp_file (cleanup sys rs p))
unfolding cleanup
cleanup-append sys [] r p = refl
cleanup-append sys (s ∷ rs) r p =
    cleanup-append sys rs r (restore_var s (remove_temp sys s.temp_file p))

-- The cleanup gives the first process back; these variables and the files are as they were.
pub record Undone (sys : System) (first : Process) (ks : List Text) (rs : List EnvRestore)
    (p : Process) : Type 0 where
  pub vars_back : (k : Text) → (cleanup sys rs p).vars k ≡ first.vars k
  pub files_back : (f : Text) → (cleanup sys rs p).files f ≡ first.files f
  pub untouched : All (λ k. p.vars k ≡ first.vars k) ks
  pub no_files : (f : Text) → p.files f ≡ first.files f

abbrev pub Fine : System → Process → List Text → Prepared → Type 0
Fine sys first ks (ready rs p) = Undone sys first ks rs p
Fine sys first ks (failed p) = Same p first

abbrev pub after : System → Prepared → Process
after sys (ready rs p) = cleanup sys rs p
after sys (failed p) = p

-- Each name once.
abbrev pub Distinct : List Text → Type 0
Distinct [] = Unit
Distinct (k ∷ ks) = All (λ j. (j == k) ≡ false) ks × Distinct ks

untouched_others :
    (first p : Process) (k new : Text) (ks : List Text)
    → All (λ j. (j == k) ≡ false) ks
    → All (λ j. p.vars j ≡ first.vars j) ks
    → All (λ j. (setenv k new p).vars j ≡ first.vars j) ks
untouched_others first p k new [] _ _ = tt
untouched_others first p k new (j ∷ ks) (d, ds) (u, us) =
    (ground arith, untouched_others first p k new ks ds us)

module _ (first : Process) (sys : System) where
  pub vars_again :
      (k old : Text) (ks : List Text) (rs : List EnvRestore) (p q : Process) (j : Text)
      → Undone sys first (k ∷ ks) rs p
      → p.vars k ≡ some old
      → ((j == k) ≡ false → q.vars j ≡ p.vars j)
      → (if j == k then some old else (cleanup sys rs q).vars j) ≡ first.vars j
  vars_again k old ks rs p q j u e h = elim (Bool-cases (j == k)) [
    | inl same ↦ rw same (sym e ∙ u.untouched.0 ∙ ap first.vars (sym ((==_iff j k).0 same)))
    | inr other ↦ rw other (cleanup-vars sys rs q p j (h other) ∙ u.vars_back j)
  ]

  replaced-Fine :
      (k old : Text) (ks : List Text) (rs : List EnvRestore) (p : Process) (o : Option Text)
      → All (λ j. (j == k) ≡ false) ks
      → Undone sys first (k ∷ ks) rs p
      → p.vars k ≡ some old
      → Fine sys first ks (replaced sys k old rs p o)
  replaced-Fine k old ks rs p none d u e = (u.vars_back, u.files_back)
  replaced-Fine k old ks rs p (some new) d u e =
      let r : EnvRestore = record { key = k; old_val = old; existed = true; temp_file = none } in
      record {
        vars_back = λ j.
            rw (cleanup-append sys rs r (setenv k new p))
              (vars_again k old ks rs p (setenv k new p) j u e (λ other. rw other refl));
        files_back = λ f.
            rw (cleanup-append sys rs r (setenv k new p))
              (cleanup-files sys rs (setenv k new p) p f refl ∙ u.files_back f);
        untouched = untouched_others first p k new ks d u.untouched.1;
        no_files = u.no_files;
      }

  pub decrypt_var-Fine :
      (k old : Text) (ks : List Text) (rs : List EnvRestore) (p : Process)
      → All (λ j. (j == k) ≡ false) ks
      → Undone sys first (k ∷ ks) rs p
      → p.vars k ≡ some old
      → Fine sys first ks (decrypt_var sys k old rs p)
  decrypt_var-Fine k old ks rs p d u e = elim (Bool-cases sys.has_key) [
    | inl h ↦
        then_case (Fine sys first ks) sys.has_key _ _ h
          (replaced-Fine k old ks rs p (sys.decrypt old) d u e)
    | inr h ↦ else_case (Fine sys first ks) sys.has_key _ _ h (u.vars_back, u.files_back)
  ]

  fewer :
      (k : Text) (ks : List Text) (rs : List EnvRestore) (p : Process)
      → Undone sys first (k ∷ ks) rs p
      → Undone sys first ks rs p
  fewer k ks rs p u = record {
    vars_back = u.vars_back;
    files_back = u.files_back;
    untouched = u.untouched.1;
    no_files = u.no_files;
  }

  check_var-Fine :
      (k : Text) (ks : List Text) (rs : List EnvRestore) (p : Process) (o : Option Text)
      → All (λ j. (j == k) ≡ false) ks
      → Undone sys first (k ∷ ks) rs p
      → p.vars k ≡ o
      → Fine sys first ks (check_var sys k rs p o)
  check_var-Fine k ks rs p none d u e = fewer k ks rs p u
  check_var-Fine k ks rs p (some old) d u e =
      elim (Bool-cases (not (old == []) && sys.is_encrypted old)) [
        | inl h ↦
            then_case (Fine sys first ks) (not (old == []) && sys.is_encrypted old) _ _ h
              (decrypt_var-Fine k old ks rs p d u e)
        | inr h ↦
            else_case (Fine sys first ks) (not (old == []) && sys.is_encrypted old) _ _ h
              (fewer k ks rs p u)
      ]

  then_prepare-Fine :
      (ks js : List Text) (next : List EnvRestore → Process → Prepared) (o : Prepared)
      → Fine sys first ks o
      → ((rs : List EnvRestore) (p : Process)
          → Undone sys first ks rs p
          → Fine sys first js (next rs p))
      → Fine sys first js (then_prepare next o)
  then_prepare-Fine ks js next (ready rs p) u h = h rs p u
  then_prepare-Fine ks js next (failed p) u h = u

  pub check_all-Fine :
      (ks : List Text) (last : Text) (rs : List EnvRestore) (p : Process)
      → Distinct (ks ++ (last ∷ []))
      → Undone sys first (ks ++ (last ∷ [])) rs p
      → Fine sys first (last ∷ []) (check_all sys ks rs p)
  unfolding check_all check_and_decrypt_env
  check_all-Fine [] last rs p d u = u
  check_all-Fine (k ∷ ks) last rs p (d, ds) u =
      then_prepare-Fine (ks ++ (last ∷ [])) (last ∷ []) (check_all sys ks) _
        (check_var-Fine k (ks ++ (last ∷ [])) rs p (p.vars k) d u refl)
        (λ qs q v. check_all-Fine ks last qs q ds v)
