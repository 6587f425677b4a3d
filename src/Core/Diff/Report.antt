-- ===== src/Core/Diff/Report.antt =====
-- When the report is empty.
use mathlib.Core.List.{concat-ne-nil}
use dtreesync.Base.{
  Text, ℕ, Bool, true, false, not, ◌&&◌, Option, none, some, List, [], ◌∷◌, ◌≡◌, ◌≢◌, refl, ◌↔◌,
  ◌⊎◌, inl, inr, ◌==◌, text_eq, nat_eq, arith, All,
}
use dtreesync.Model.Types.{DirRecord, PlatformMeta, DriftItem}
use dtreesync.Model.Identity.{lookup}
use dtreesync.Core.Diff.{
  RecordMap, Tally, differ, modes_differ, normalize_sddl, compare_mode, compare_user, compare_sid,
  compare_sddl, compare_acl, compare_entry, compare_snapshot, compare_live_entry, compare_live,
  add_files, empty_tally, tally, add_drift_if,
}

abbrev IsQuiet : Tally → Type 0
IsQuiet t = t.items ≡ []

-- Where both sides have a value, it is the same.
abbrev pub SameMode : Option ℕ → Option ℕ → Type 0
SameMode (some a) (some b) = a ≡ b
SameMode _ _ = Unit

abbrev pub SameText : Text → Text → Type 0
SameText a b = a ≢ [] → b ≢ [] → a ≡ b

-- What a live directory has to share with its record.
abbrev pub Agrees : Bool → PlatformMeta → PlatformMeta → Type 0
Agrees ignore_owner s l =
    SameMode s.mode l.mode
    × (ignore_owner ≡ false → SameText s.username l.username)
    × (ignore_owner ≡ false → SameText s.owner_sid l.owner_sid)
    × (s.sddl ≢ [] → l.sddl ≢ [] → normalize_sddl s.sddl ≡ normalize_sddl l.sddl)
    × SameText s.acl_access l.acl_access

-- A step is quiet if the test fails on a tally that is quiet.
add_drift_if-IsQuiet :
    {C : Type 0} (test : Bool) (i : DriftItem) (t : Tally)
    → (test ≡ false) ↔ C
    → IsQuiet (add_drift_if test i t) ↔ (IsQuiet t × C)
unfolding add_drift_if
add_drift_if-IsQuiet true i t c = (λ h. absurd (concat-ne-nil _ _ h), λ (_, h). cc (c.1 h))
add_drift_if-IsQuiet false i t c = (λ h. (h, c.0 refl), λ (h, _). h)

modes_iff : (a b : Option ℕ) → (modes_differ a b ≡ false) ↔ SameMode a b
modes_iff (some a) (some b) = ground arith
modes_iff (some a) none = (λ _. tt, λ _. refl)
modes_iff none (some b) = (λ _. tt, λ _. refl)
modes_iff none none = (λ _. tt, λ _. refl)

differ_iff : (a b : Text) → (differ a b ≡ false) ↔ SameText a b
differ_iff a b = ground arith

owner_iff :
    (ignore : Bool) (a b : Text)
    → ((not ignore && differ a b) ≡ false) ↔ (ignore ≡ false → SameText a b)
owner_iff true a b = (λ _ h. cc h, λ _. refl)
owner_iff false a b = ((λ h _. (differ_iff a b).0 h), λ h. (differ_iff a b).1 (h refl))

sddl_iff :
    (a b : Text)
    → ((not (a == []) && not (b == []) && not (normalize_sddl a == normalize_sddl b)) ≡ false)
      ↔ (a ≢ [] → b ≢ [] → normalize_sddl a ≡ normalize_sddl b)
sddl_iff a b = ground arith

compare-IsQuiet :
    (b : Bool) (path : Text) (s : PlatformMeta) (rec : DirRecord) (t : Tally)
    → IsQuiet (compare_entry b path s (some rec) t) ↔ (IsQuiet t × Agrees b s rec.metadata)
unfolding compare_entry compare_mode compare_user compare_sid compare_sddl compare_acl
compare-IsQuiet b path s rec t =
    let l = rec.metadata in
    let q1 = add_drift_if-IsQuiet _ _ t (modes_iff s.mode l.mode) in
    let q2 = add_drift_if-IsQuiet _ _ _ (owner_iff b s.username l.username) in
    let q3 = add_drift_if-IsQuiet _ _ _ (owner_iff b s.owner_sid l.owner_sid) in
    let q4 = add_drift_if-IsQuiet _ _ _ (sddl_iff s.sddl l.sddl) in
    let q5 = add_drift_if-IsQuiet _ _ _ (differ_iff s.acl_access l.acl_access) in
    (
      (λ h.
          let (h4, acl) = q5.0 h in
          let (h3, sddl) = q4.0 h4 in
          let (h2, sid) = q3.0 h3 in
          let (h1, user) = q2.0 h2 in
          let (h0, mode) = q1.0 h1 in (h0, (mode, user, sid, sddl, acl))),
      λ (h, (mode, user, sid, sddl, acl)).
          q5.1 (q4.1 (q3.1 (q2.1 (q1.1 (h, mode), user), sid), sddl), acl),
    )

-- The record of the live scan is there and agrees.
abbrev pub IsMet : Bool → PlatformMeta → Option DirRecord → Type 0
IsMet b s none = ⊥
IsMet b s (some rec) = Agrees b s rec.metadata

missing_loud :
    (b : Bool) (path : Text) (s : PlatformMeta) (t : Tally)
    → ¬ IsQuiet (compare_entry b path s none t)
unfolding compare_entry
missing_loud b path s t h = concat-ne-nil _ _ h

compare_entry-IsQuiet :
    (b : Bool) (path : Text) (s : PlatformMeta) (o : Option DirRecord) (t : Tally)
    → IsQuiet (compare_entry b path s o t) ↔ (IsQuiet t × IsMet b s o)
compare_entry-IsQuiet b path s (some rec) t = compare-IsQuiet b path s rec t
compare_entry-IsQuiet b path s none t =
    ((λ h. absurd (missing_loud b path s t h)), λ (_, e). absurd e)

-- Each directory of the snapshot is met.
abbrev pub AllMet : Bool → RecordMap → RecordMap → Type 0
AllMet b snap live = All (λ (path, rec). IsMet b rec.metadata (lookup path live)) snap

compare_snapshot-IsQuiet :
    (b : Bool) (snap live : RecordMap) (t : Tally)
    → IsQuiet (compare_snapshot b snap live t) ↔ (IsQuiet t × AllMet b snap live)
unfolding compare_snapshot
compare_snapshot-IsQuiet b [] live t = ((λ h. (h, tt)), λ (h, _). h)
compare_snapshot-IsQuiet b ((path, rec) ∷ snap) live t =
    let here = compare_entry-IsQuiet b path rec.metadata (lookup path live) t in
    let later =
      compare_snapshot-IsQuiet b snap live
        (compare_entry b path rec.metadata (lookup path live) t) in
    (
      (λ h. let (h1, all) = later.0 h in let (h0, met) = here.0 h1 in (h0, (met, all))),
      λ (h, (met, all)). later.1 (here.1 (h, met), all),
    )

-- A live directory is in the snapshot or is the root.
abbrev pub IsTracked : Text → Option DirRecord → Type 0
IsTracked path o = (path ≡ []) ⊎ (o ≢ none)

compare_live_entry-IsQuiet :
    (path : Text) (o : Option DirRecord) (t : Tally)
    → IsQuiet (compare_live_entry path o t) ↔ (IsQuiet t × IsTracked path o)
unfolding compare_live_entry text_eq
compare_live_entry-IsQuiet path (some r) t = ((λ h. (h, inr (λ e. absurd (cc e)))), λ (h, _). h)
compare_live_entry-IsQuiet [] none t = ((λ h. (h, inl refl)), λ (h, _). h)
compare_live_entry-IsQuiet (c ∷ path) none t = (
  (λ h. absurd (concat-ne-nil _ _ h)),
  λ (_, e). elim e [ inl e ↦ absurd (cc e) | inr n ↦ absurd (n refl) ],
)

abbrev pub AllTracked : RecordMap → RecordMap → Type 0
AllTracked snap live = All (λ (path, _). IsTracked path (lookup path snap)) live

compare_live-IsQuiet :
    (snap live : RecordMap) (t : Tally)
    → IsQuiet (compare_live snap live t) ↔ (IsQuiet t × AllTracked snap live)
unfolding compare_live
compare_live-IsQuiet snap [] t = ((λ h. (h, tt)), λ (h, _). h)
compare_live-IsQuiet snap ((path, rec) ∷ live) t =
    let here = compare_live_entry-IsQuiet path (lookup path snap) t in
    let later = compare_live-IsQuiet snap live (compare_live_entry path (lookup path snap) t) in
    (
      (λ h. let (h1, all) = later.0 h in let (h0, met) = here.0 h1 in (h0, (met, all))),
      λ (h, (met, all)). later.1 (here.1 (h, met), all),
    )

add_files-IsQuiet :
    (files : List Text) (t : Tally) → IsQuiet (add_files files t) ↔ (IsQuiet t × (files ≡ []))
unfolding add_files
add_files-IsQuiet [] t = ((λ h. (h, refl)), λ (h, _). h)
add_files-IsQuiet (f ∷ fs) t =
    ((λ h. absurd (concat-ne-nil _ _ ((add_files-IsQuiet fs _).0 h).0)), λ (_, e). absurd (cc e))

-- The report has no item exactly when each directory of the snapshot is live with metadata that agrees,
-- each live directory but the root is in the snapshot, and no payload file was found.
pub tally-IsQuiet :
    (ignore_owner : Bool) (snap live : RecordMap) (files : List Text)
    → ((tally ignore_owner snap live files).items ≡ [])
      ↔ (AllMet ignore_owner snap live × AllTracked snap live × (files ≡ []))
unfolding tally
tally-IsQuiet b snap live files =
    let q1 = compare_snapshot-IsQuiet b snap live empty_tally in
    let q2 = compare_live-IsQuiet snap live (compare_snapshot b snap live empty_tally) in
    let q3 =
      add_files-IsQuiet files (compare_live snap live (compare_snapshot b snap live empty_tally)) in
    (
      (λ h.
          let (h2, none_found) = q3.0 h in
          let (h1, tracked) = q2.0 h2 in ((q1.0 h1).1, tracked, none_found)),
      λ (met, tracked, none_found). q3.1 (q2.1 (q1.1 (refl, met), tracked), none_found),
    )
