-- ===== src/Core/Diff/Counts.antt =====
-- The counters of the report.
use dtreesync.Base.{
  Text, ◌+◌, Bool, true, false, not, ◌&&◌, Option, none, some, List, [], ◌∷◌, ◌≡◌, refl, inl, inr,
  ◌==◌, text_eq, nat_eq, length, length-append, arith, Bool-cases,
}
use dtreesync.Model.Types.{DirRecord, PlatformMeta, DriftItem}
use dtreesync.Model.Identity.{lookup}
use dtreesync.Core.Diff.{
  RecordMap, Tally, differ, modes_differ, normalize_sddl, compare_mode, compare_user, compare_sid,
  compare_sddl, compare_acl, compare_entry, compare_snapshot, compare_live_entry, compare_live,
  add_files, empty_tally, tally, add_drift_if, add_extra, add_missing, item, mode_text,
}
use dtreesync.Base.Strings.{codes}

-- The counters add up to the items.
unfoldable pub IsCounted : Tally → Type 0
IsCounted t = length t.items ≡ t.missing + t.extra + t.drift

-- A comparison adds one item if its test passes, and counts it.
add_drift_if-IsCounted :
    (test : Bool) (i : DriftItem) (t : Tally) → IsCounted t → IsCounted (add_drift_if test i t)
unfolding add_drift_if IsCounted
add_drift_if-IsCounted true i t h = omega (arith, length-append t.items (i ∷ []))
add_drift_if-IsCounted false i t h = h

add_missing-IsCounted : (path : Text) (t : Tally) → IsCounted t → IsCounted (add_missing path t)
unfolding IsCounted
add_missing-IsCounted path t h = rw (length-append t.items) (omega arith)

compare_entry-IsCounted :
    (b : Bool) (path : Text) (s : PlatformMeta) (l : Option DirRecord) (t : Tally)
    → IsCounted t
    → IsCounted (compare_entry b path s l t)
unfolding compare_entry compare_mode compare_user compare_sid compare_sddl compare_acl
compare_entry-IsCounted b path s none t h = add_missing-IsCounted path t h
compare_entry-IsCounted b path s (some rec) t h =
    let l = rec.metadata in
    add_drift_if-IsCounted (differ s.acl_access l.acl_access)
      (item path (codes "acl_drift") (codes "acl_access") s.acl_access l.acl_access)
      (compare_sddl path s l
        (compare_sid b path s l (compare_user b path s l (compare_mode path s l t))))
      (add_drift_if-IsCounted
        (not (s.sddl == [])
          && not (l.sddl == [])
          && not (normalize_sddl s.sddl == normalize_sddl l.sddl))
        (item path (codes "acl_drift") (codes "sddl") s.sddl l.sddl)
        (compare_sid b path s l (compare_user b path s l (compare_mode path s l t)))
        (add_drift_if-IsCounted (not b && differ s.owner_sid l.owner_sid)
          (item path (codes "owner_drift") (codes "owner_sid") s.owner_sid l.owner_sid)
          (compare_user b path s l (compare_mode path s l t))
          (add_drift_if-IsCounted (not b && differ s.username l.username)
            (item path (codes "owner_drift") (codes "user") s.username l.username)
            (compare_mode path s l t)
            (add_drift_if-IsCounted (modes_differ s.mode l.mode)
              (item path (codes "permission_drift") (codes "mode") (mode_text s.mode)
                (mode_text l.mode))
              t h))))

compare_snapshot-IsCounted :
    (b : Bool) (snap live : RecordMap) (t : Tally)
    → IsCounted t
    → IsCounted (compare_snapshot b snap live t)
unfolding compare_snapshot
compare_snapshot-IsCounted b [] live t h = h
compare_snapshot-IsCounted b ((path, rec) ∷ snap) live t h =
    compare_snapshot-IsCounted b snap live _
      (compare_entry-IsCounted b path rec.metadata (lookup path live) t h)

add_extra-IsCounted : (i : DriftItem) (t : Tally) → IsCounted t → IsCounted (add_extra i t)
unfolding IsCounted
add_extra-IsCounted i t h = omega (arith, length-append t.items (i ∷ []))

compare_live_entry-IsCounted :
    (path : Text) (o : Option DirRecord) (t : Tally)
    → IsCounted t
    → IsCounted (compare_live_entry path o t)
unfolding compare_live_entry
compare_live_entry-IsCounted path (some _) t h = h
compare_live_entry-IsCounted path none t h = elim (Bool-cases (path == [])) [
  | inl e ↦ rw e h
  | inr e ↦ rw e (add_extra-IsCounted _ t h)
]

compare_live-IsCounted :
    (snap live : RecordMap) (t : Tally) → IsCounted t → IsCounted (compare_live snap live t)
unfolding compare_live
compare_live-IsCounted snap [] t h = h
compare_live-IsCounted snap ((path, _) ∷ live) t h =
    compare_live-IsCounted snap live _ (compare_live_entry-IsCounted path (lookup path snap) t h)

add_files-IsCounted : (files : List Text) (t : Tally) → IsCounted t → IsCounted (add_files files t)
unfolding add_files
add_files-IsCounted [] t h = h
add_files-IsCounted (f ∷ fs) t h = add_files-IsCounted fs _ (add_extra-IsCounted _ t h)

empty_tally-IsCounted : IsCounted empty_tally
unfolding IsCounted
empty_tally-IsCounted = refl

-- The three counters of the summary add up to the number of drift items.
pub tally-IsCounted :
    (ignore_owner : Bool) (snap live : RecordMap) (files : List Text)
    → IsCounted (tally ignore_owner snap live files)
unfolding tally
tally-IsCounted b snap live files = add_files-IsCounted files _ (
    compare_live-IsCounted snap live _
      (compare_snapshot-IsCounted b snap live _ empty_tally-IsCounted))
