-- ===== src/Cli/Success.antt =====
-- cmd/dtreesync/main.go: when the subcommand backup ends with success.
use dtreesync.Base.{
  Text, ℕ, Bool, true, false, not, ◌&&◌, ◌||◌, some, List, [], ◌≡◌, refl, Bool-cases, inl, inr, ◌↔◌,
  ◌==◌, text_eq, if◌then◌else◌, arith,
}
use dtreesync.Model.Types.{BackupConfig, BackupResult, ScanOptions, Result, ok, err, bad_sort_order}
use dtreesync.Base.Strings.{codes}
use dtreesync.Core.Order.{sort_mode, sort_records}
use dtreesync.Model.Types.{DirRecord}
use dtreesync.Cli.{exit_success, exit_usage_error, clean_sort, is_sort}
use dtreesync.Cli.Runs.{Step, World, with_log, go, ◌>>=◌, ◌>>◌, check}
use dtreesync.Cli.Backups.{
  BackupFlags, Ended, target_dest, backup_config, opens_audit_log, finish, ended, run_backup,
}

-- The order that the flag names is one that `Backup` sorts by.
abbrev pub Sorts : Text → Type 0
Sorts order =
    (recs : List DirRecord) → (found : Text × List DirRecord) × (sort_records order recs ≡ ok found)

finish-code :
    (world : World) (f : BackupFlags) (res : BackupResult)
    → (finish world f res).code ≡ exit_success
unfolding finish
finish-code world f res = elim (Bool-cases (f.git_repo == [])) [
  | inl e ↦ rw e refl
  | inr e ↦ rw e refl
]

same_mode : (order : Text) → clean_sort order ≡ sort_mode order
unfolding clean_sort sort_mode
same_mode order = refl

accepted_order : (order : Text) → is_sort (sort_mode order) ≡ true → Sorts order
unfolding is_sort sort_records
accepted_order order h recs = elim (Bool-cases (sort_mode order == codes "path")) [
  | inl p ↦ rw p (_, refl)
  | inr p ↦ elim (Bool-cases (sort_mode order == codes "depth")) [
    | inl d ↦ rw (p, d) (_, refl)
    | inr d ↦
        let n : (sort_mode order == codes "none") ≡ true = ground arith in rw (p, d, n) (_, refl)
  ]
]

refused_order :
    (order : Text) (recs : List DirRecord) (found : Text × List DirRecord)
    → is_sort (sort_mode order) ≡ false
    → sort_records order recs ≡ ok found
    → ⊥
unfolding is_sort sort_records
refused_order order recs found h k =
    let p : (sort_mode order == codes "path") ≡ false = ground arith in
    let d : (sort_mode order == codes "depth") ≡ false = ground arith in
    let n : (sort_mode order == codes "none") ≡ false = ground arith in
    let bad : err bad_sort_order ≡ ok found = rw (p, d, n) at k in cc

sort_flag : (order : Text) → (is_sort (clean_sort order) ≡ true) ↔ Sorts order
sort_flag order = rw (same_mode order) (
  λ h. accepted_order order h,
  λ s. elim (Bool-cases (is_sort (sort_mode order))) [
    | inl e ↦ e
    | inr e ↦ absurd (refused_order order [] (s []).0 e (s []).1)
  ],
)

backed_up :
    (world : World) (f : BackupFlags) (log : Bool) (o : Result BackupResult)
    → ((ended (with_log log o >>= λ res. go (finish world f res))).code ≡ exit_success)
      ↔ ((log ≡ true) × ((res : BackupResult) × (o ≡ ok res)))
backed_up world f false o = ((λ h. absurd (omega arith)), λ (h, _). absurd (cc h))
backed_up world f true (err e) = ((λ h. absurd (omega arith)), λ (_, (r, h)). absurd (cc h))
backed_up world f true (ok res) = ((λ _. (refl, (res, refl))), λ _. finish-code world f res)

checked :
    (a t s dry : Bool) (k j : Step Ended)
    → dry ≡ false
    → ((ended (
          check (not (a || (t && not dry))) exit_usage_error
          >> (check s exit_usage_error >> (if dry then k else j)))).code
        ≡ exit_success)
      ↔ (((a || t) ≡ false) × (s ≡ true) × ((ended j).code ≡ exit_success))
checked a t s true k j d = absurd (cc d)
checked true t s false k j d = ((λ h. absurd (omega arith)), λ (h, _, _). absurd (cc h))
checked false true s false k j d = ((λ h. absurd (omega arith)), λ (h, _, _). absurd (cc h))
checked false false false false k j d = ((λ h. absurd (omega arith)), λ (_, h, _). absurd (cc h))
checked false false true false k j d = ((λ h. (refl, refl, h)), λ (_, _, h). h)

-- Without the flag for a dry run, the subcommand backup exits with 0 exactly when a folder and a
-- destination are named, the order is one that `Backup` sorts by, the audit log can be opened and
-- `Backup` gives a result. A failure to commit the snapshot to the Git repository makes no difference.
pub run_backup_success :
    (world : World) (engine : BackupConfig → Result BackupResult)
    (scan : Text → ScanOptions → Result ℕ) (f : BackupFlags)
    → f.dry_run ≡ false
    → ((run_backup world engine scan (some f)).code ≡ exit_success) ↔ (
        ((f.base_folder == [] || target_dest world f == []) ≡ false)
        × Sorts f.sort_order
        × (opens_audit_log world f ≡ true)
        × ((res : BackupResult) × (engine (backup_config world f) ≡ ok res)))
unfolding run_backup
run_backup_success world engine scan f d =
    let outer =
      checked (f.base_folder == []) (target_dest world f == []) (is_sort (clean_sort f.sort_order))
        f.dry_run _ _ d in
    let order = sort_flag f.sort_order in
    let inner = backed_up world f (opens_audit_log world f) (engine (backup_config world f)) in
    (
      (λ h. let (n, s, r) = outer.0 h in let (l, res) = inner.0 r in (n, order.0 s, l, res)),
      λ (n, s, l, res). outer.1 (n, order.1 s, inner.1 (l, res)),
    )
