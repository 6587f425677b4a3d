-- ===== src/Core/Restore/Calls.antt =====
-- internal/core/restore.go: what holds of all calls that a restore makes.
use dtreesync.Base.{
  Text, ℕ, zero, suc, not, ◌&&◌, List, [], ◌∷◌, ◌==◌, text_eq, nat_eq, ◌≡◌, refl, inl, inr, All,
  Bool-cases,
}
use dtreesync.Model.Types.{DirRecord, RestoreConfig, PlatformMeta, Result, ok, err, RestoreResult}
use dtreesync.Model.Path.{validate_and_clean_path, parse_base_substitute}
use dtreesync.Core.Restore.{
  System, Progress, Call, make_dir, apply_meta, leaves_target, target_path, apply_perms, create,
  restore_dir, forward_layer, forward, set_dir_times, reverse_layer, reverse_pass, layer, mode_or,
  restore, collect, max_depth, start,
}
use dtreesync.Core.Restore.{time_call}
use dtreesync.Core.Restore.Paths.{IsInside, path_of, IfOk, IfOk-bind, IfOk-ok, target-IsInside}

module _ (sys : System) (cfg : RestoreConfig) (folder : Text) (P : Call → Type 0) where
  module _ (made : (path : Text) (mode : ℕ) → IsInside folder path → P (make_dir path mode))
      (applied : (path : Text) (m : PlatformMeta)
        → IsInside folder path
        → P (apply_meta path m)) where
    apply_perms-All :
        (path : Text) (m : PlatformMeta) (s : Progress)
        → IsInside folder path
        → All P s.calls
        → All P (apply_perms sys cfg folder path m s).calls
    unfolding apply_perms
    apply_perms-All path m s h k = elim (Bool-cases cfg.apply_perms) [
      | inr e ↦ rw e k
      | inl e ↦ elim (Bool-cases (sys.succeeds s.calls (apply_meta path m))) [
        | inl f ↦ rw (e, f) (applied path m h, k)
        | inr f ↦ rw (e, f) (applied path m h, k)
      ]
    ]

    create-All :
        (path : Text) (m : PlatformMeta) (s : Progress)
        → IsInside folder path
        → All P s.calls
        → All P (create sys cfg folder path m s).calls
    unfolding create
    create-All path m s h k =
        elim (Bool-cases (sys.succeeds s.calls (make_dir path (mode_or 493 m.mode)))) [
          | inl f ↦ rw f (apply_perms-All path m _ h (made path (mode_or 493 m.mode) h, k))
          | inr f ↦ rw f (made path (mode_or 493 m.mode) h, k)
        ]

    restore_dir-All :
        (rec : DirRecord) (s : Progress)
        → All P s.calls
        → All P (restore_dir sys cfg folder rec s).calls
    unfolding restore_dir
    restore_dir-All rec s k = elim (Bool-cases (sys.is_late s.calls)) [
      | inl late ↦ rw late k
      | inr late ↦
          elim (Bool-cases
            (not (rec.rel_path == []) && leaves_target folder (target_path folder rec.rel_path))) [
              | inl e ↦ rw (late, e) k
              | inr e ↦ elim (Bool-cases (sys.may_go s.calls)) [
                | inl f ↦
                    rw (late, e, f)
                      (create-All _ rec.metadata s (target-IsInside folder rec.rel_path e) k)
                | inr f ↦ rw (late, e, f) k
              ]
            ]
    ]

    forward_layer-All :
        (recs : List DirRecord) (s : Progress)
        → All P s.calls
        → IfOk (λ t. All P t.calls) (forward_layer sys cfg folder recs s)
    unfolding forward_layer
    forward_layer-All [] s k = k
    forward_layer-All (rec ∷ recs) s k = elim (Bool-cases (sys.is_done s.calls)) [
      | inl f ↦ rw f tt
      | inr f ↦
          rw f (forward_layer-All recs (restore_dir sys cfg folder rec s) (restore_dir-All rec s k))
    ]

    pub forward-All :
        (n d : ℕ) (recs : List DirRecord) (s : Progress)
        → All P s.calls
        → IfOk (λ t. All P t.calls) (forward sys cfg folder n d recs s)
    unfolding forward
    forward-All zero d recs s k = k
    forward-All (suc n) d recs s k =
        IfOk-bind (λ (t : Progress). All P t.calls)
          (forward_layer sys cfg folder (sys.schedule (layer d recs)) s) _ (forward_layer-All _ s k)
          (λ t h. forward-All n (suc d) recs t h)

  module _
      (timed : (rec : DirRecord)
        → IsInside folder (target_path folder rec.rel_path)
        → P (time_call folder rec)) where
    set_dir_times-All :
        (rec : DirRecord) (s : Progress)
        → All P s.calls
        → All P (set_dir_times sys cfg folder rec s).calls
    unfolding set_dir_times
    set_dir_times-All rec s k = elim (Bool-cases (sys.is_late s.calls)) [
      | inl late ↦ rw late k
      | inr late ↦
          elim (Bool-cases
            (not (rec.rel_path == []) && leaves_target folder (target_path folder rec.rel_path))) [
              | inl e ↦ rw (late, e) k
              | inr e ↦ rw (late, e) (timed rec (target-IsInside folder rec.rel_path e), k)
            ]
    ]

    reverse_layer-All :
        (recs : List DirRecord) (s : Progress)
        → All P s.calls
        → All P (reverse_layer sys cfg folder recs s).calls
    unfolding reverse_layer
    reverse_layer-All [] s k = k
    reverse_layer-All (rec ∷ recs) s k = elim (Bool-cases (sys.is_done s.calls)) [
      | inl f ↦ rw f k
      | inr f ↦ rw f (reverse_layer-All recs _ (set_dir_times-All rec s k))
    ]

    pub reverse_pass-All :
        (n : ℕ) (recs : List DirRecord) (s : Progress)
        → All P s.calls
        → All P (reverse_pass sys cfg folder n recs s).calls
    unfolding reverse_pass
    reverse_pass-All zero recs s k = k
    reverse_pass-All (suc n) recs s k = reverse_pass-All n recs _ (reverse_layer-All _ s k)

module _ (sys : System) (cfg : RestoreConfig) (folder : Text) where
  restored-IsInside :
      (snapshot : Result (List DirRecord)) (bases : Result (Text × Text))
      → validate_and_clean_path cfg.target_folder ≡ ok folder
      → parse_base_substitute cfg.base_substitute ≡ bases
      → IfOk (λ (_, calls). All (λ c. IsInside folder (path_of c)) calls) (restore sys cfg snapshot)
  unfolding restore
  restored-IsInside (err _) (ok b) e f = rw (e, f) tt
  restored-IsInside snapshot (err _) e f = rw (e, f) tt
  restored-IsInside (ok read) (ok bases) e f =
      let recs = collect cfg folder bases read in
      rw (e, f)
        (IfOk-bind _ (forward sys cfg folder (suc (max_depth recs)) 0 recs start) _
          (forward-All sys cfg folder (λ c. IsInside folder (path_of c)) (λ path _ h. h)
            (λ path _ h. h) (suc (max_depth recs)) 0 recs start tt)
          (λ t h.
            reverse_pass-All sys cfg folder (λ c. IsInside folder (path_of c)) (λ _ h. h)
              (suc (max_depth recs)) recs t h))

-- Every call by which a restore that succeeds makes a directory, applies metadata or sets times is about
-- the target folder or a path below it: the cleaned segments of the path start with those of the folder,
-- whatever the snapshot says. This is about the paths as texts, not about links that they lead through;
-- the evacuation of untracked items before the restore is not one of these calls.
pub restore-IsInside :
    (sys : System) (cfg : RestoreConfig) (snapshot : Result (List DirRecord)) (folder : Text)
    (result : RestoreResult) (calls : List Call)
    → validate_and_clean_path cfg.target_folder ≡ ok folder
    → restore sys cfg snapshot ≡ ok (result, calls)
    → All (λ c. IsInside folder (path_of c)) calls
restore-IsInside sys cfg snapshot folder result calls h k =
    IfOk-ok (λ (_, calls). All (λ c. IsInside folder (path_of c)) calls) k
      (restored-IsInside sys cfg folder snapshot (parse_base_substitute cfg.base_substitute) h refl)
