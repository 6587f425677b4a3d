-- ===== src/Core/Diff.antt =====
-- internal/core/diff.go. The records of the snapshot and of the live scan, in the order in which they
-- arrive, are arguments, or the error that the reader or the scanner gave; the clock and the audit
-- log are left out. A Go map is a list of entries in the order in which it is ranged over.
pub mod Counts
pub mod Report
pub mod Aligned
use dtreesync.Base.{
  Text, ℕ, suc, ◌+◌, Bool, true, false, not, ◌||◌, ◌&&◌, Option, none, some, List, [], ◌∷◌, ◌++◌,
  ◌==◌, text_eq, nat_eq, ltb, length, if◌then◌else◌,
}
use dtreesync.Base.Strings.{codes, trim_space}
use dtreesync.Base.Decimal.{format_mode}
use dtreesync.Model.Types.{
  Error, drift_detected, PlatformMeta, DirRecord, IdentityMap, DiffConfig, DriftItem, DiffSummary,
  DiffResult, Result, ok, err, ◌>>=◌, Table,
}
use dtreesync.Model.Path.{validate_and_clean_path}
use dtreesync.Model.Identity.{apply_to_platform_meta, lookup}
use dtreesync.Model.Filter.{RecordFilter, new_record_filter, matches}

abbrev pub RecordMap : Type 0
RecordMap = Table Text DirRecord

-- `m[path] = rec`
unfoldable pub put : Text → DirRecord → RecordMap → RecordMap
put path rec [] = (path, rec) ∷ []
put path rec ((p, r) ∷ m) =
    let later = (p, r) ∷ put path rec m in if p == path then (p, rec) ∷ m else later

-- The records that pass the filter, in a map.
unfoldable pub record_map : RecordFilter → List DirRecord → RecordMap → RecordMap
unfolding put matches
record_map f [] m = m
record_map f (rec ∷ recs) m =
    record_map f recs (if matches f rec then put rec.rel_path rec m else m)

unfoldable pub translate_all : Option IdentityMap → List DirRecord → List DirRecord
unfolding apply_to_platform_meta
translate_all ids [] = []
translate_all ids (rec ∷ recs) =
    record rec { metadata = apply_to_platform_meta ids rec.metadata } ∷ translate_all ids recs

-- The items and the three counters.
pub record Tally : Type 0 where
  pub items : List DriftItem
  pub missing : ℕ
  pub extra : ℕ
  pub drift : ℕ

abbrev pub item : Text → Text → Text → Text → Text → DriftItem
item path drift_type field expected actual = record {
  path = path;
  drift_type = drift_type;
  field = field;
  expected = expected;
  actual = actual;
}

abbrev pub add_missing : Text → Tally → Tally
add_missing path t = record t {
  items =
      t.items
      ++ (item path (codes "missing_directory") (codes "existence") (codes "present")
            (codes "absent")
          ∷ []);
  missing = suc t.missing;
}

abbrev pub add_drift : DriftItem → Tally → Tally
add_drift i t = record t { items = t.items ++ (i ∷ []); drift = suc t.drift }

abbrev pub add_extra : DriftItem → Tally → Tally
add_extra i t = record t { items = t.items ++ (i ∷ []); extra = suc t.extra }

-- Both texts are there and differ.
abbrev pub differ : Text → Text → Bool
differ a b = not (a == []) && not (b == []) && not (a == b)

abbrev pub modes_differ : Option ℕ → Option ℕ → Bool
modes_differ (some a) (some b) = not (a == b)
modes_differ _ _ = false

abbrev pub mode_text : Option ℕ → Text
mode_text none = []
mode_text (some m) = format_mode m

-- The body of each comparison of a field.
unfoldable pub add_drift_if : Bool → DriftItem → Tally → Tally
add_drift_if test i t = if test then add_drift i t else t

unfoldable pub compare_mode : Text → PlatformMeta → PlatformMeta → Tally → Tally
unfolding format_mode add_drift_if
compare_mode path s l t =
    add_drift_if (modes_differ s.mode l.mode)
      (item path (codes "permission_drift") (codes "mode") (mode_text s.mode) (mode_text l.mode)) t

unfoldable pub compare_user : Bool → Text → PlatformMeta → PlatformMeta → Tally → Tally
unfolding add_drift_if
compare_user ignore_owner path s l t =
    add_drift_if (not ignore_owner && differ s.username l.username)
      (item path (codes "owner_drift") (codes "user") s.username l.username) t

unfoldable pub compare_sid : Bool → Text → PlatformMeta → PlatformMeta → Tally → Tally
unfolding add_drift_if
compare_sid ignore_owner path s l t =
    add_drift_if (not ignore_owner && differ s.owner_sid l.owner_sid)
      (item path (codes "owner_drift") (codes "owner_sid") s.owner_sid l.owner_sid) t

unfoldable pub normalize_sddl : Text → Text
unfolding trim_space
normalize_sddl s = trim_space s

unfoldable pub compare_sddl : Text → PlatformMeta → PlatformMeta → Tally → Tally
unfolding normalize_sddl add_drift_if
compare_sddl path s l t =
    add_drift_if
      (not (s.sddl == [])
        && not (l.sddl == [])
        && not (normalize_sddl s.sddl == normalize_sddl l.sddl))
      (item path (codes "acl_drift") (codes "sddl") s.sddl l.sddl) t

unfoldable pub compare_acl : Text → PlatformMeta → PlatformMeta → Tally → Tally
unfolding add_drift_if
compare_acl path s l t =
    add_drift_if (differ s.acl_access l.acl_access)
      (item path (codes "acl_drift") (codes "acl_access") s.acl_access l.acl_access) t

-- One entry of the snapshot against its live record.
unfoldable pub compare_entry : Bool → Text → PlatformMeta → Option DirRecord → Tally → Tally
unfolding compare_mode compare_user compare_sid compare_sddl compare_acl
compare_entry ignore_owner path s none t = add_missing path t
compare_entry ignore_owner path s (some rec) t =
    let l = rec.metadata in
    compare_acl path s l (
      compare_sddl path s l (
        compare_sid ignore_owner path s l
          (compare_user ignore_owner path s l (compare_mode path s l t))))

unfoldable pub compare_snapshot : Bool → RecordMap → RecordMap → Tally → Tally
unfolding compare_entry lookup
compare_snapshot ignore_owner [] live t = t
compare_snapshot ignore_owner ((path, rec) ∷ snap) live t =
    compare_snapshot ignore_owner snap live
      (compare_entry ignore_owner path rec.metadata (lookup path live) t)

unfoldable pub compare_live_entry : Text → Option DirRecord → Tally → Tally
compare_live_entry path (some _) t = t
compare_live_entry path none t =
    if path == []
    then t
    else add_extra
        (item path (codes "untracked_directory") (codes "existence") (codes "absent")
          (codes "present"))
        t

unfoldable pub compare_live : RecordMap → RecordMap → Tally → Tally
unfolding compare_live_entry lookup
compare_live snap [] t = t
compare_live snap ((path, _) ∷ live) t =
    compare_live snap live (compare_live_entry path (lookup path snap) t)

unfoldable pub add_files : List Text → Tally → Tally
add_files [] t = t
add_files (f ∷ fs) t = add_files fs (
    add_extra
      (item f (codes "untracked_file") (codes "payload_file") (codes "absent") (codes "present")) t)

abbrev pub empty_tally : Tally
empty_tally = record { items = []; missing = 0; extra = 0; drift = 0 }

unfoldable pub tally : Bool → RecordMap → RecordMap → List Text → Tally
unfolding compare_snapshot compare_live add_files
tally ignore_owner snap live files =
    add_files files (compare_live snap live (compare_snapshot ignore_owner snap live empty_tally))

unfoldable pub report : DiffConfig → Text → RecordMap → RecordMap → Tally → DiffResult
report cfg clean_live snap live t = record {
  status = (if ltb 0 (length t.items) then codes "drift_detected" else codes "aligned");
  base_folder = clean_live;
  tree_file = cfg.snapshot_url;
  summary = record {
    expected_directories = length snap;
    scanned_directories = length live;
    missing_count = t.missing;
    extra_count = t.extra;
    drift_count = t.drift;
  };
  total_drift = length t.items;
  drift_items = t.items;
}

-- The result is returned with `ErrDriftDetected` if there is an item.
unfoldable pub diff :
    DiffConfig
    → Result (List DirRecord)
    → Result (List DirRecord × List Text)
    → Result (DiffResult × Option Error)
unfolding record_map translate_all tally report validate_and_clean_path
diff cfg snapshot scan = do
  clean_live ← validate_and_clean_path cfg.live_folder
  snap_records ← snapshot
  (live_records, files) ← scan
  let filter = new_record_filter cfg.entities cfg.include cfg.exclude
  let snap = record_map filter (translate_all cfg.identity_map snap_records) []
  let live = record_map filter live_records []
  let t = tally cfg.ignore_owner snap live files
  ok (
    report cfg clean_live snap live t,
    (if ltb 0 (length t.items) then some drift_detected else none),
  )
