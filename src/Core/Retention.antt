-- ===== src/Core/Retention.antt =====
-- internal/core/retention.go. The directory listing, the clock and what `os.Remove` does are
-- arguments; the audit log is left out. Durations are 64-bit integers of nanoseconds.
pub mod Policy
use dtreesync.Base.{
  Text, ℕ, suc, ◌+◌, ◌-◌, ◌*◌, ◌%◌, ◌^◌, Bool, true, false, not, ◌||◌, ◌&&◌, Option, none, some,
  List, [], ◌∷◌, ◌==◌, text_eq, ltb, leb, min, if◌then◌else◌, map, keep,
}
use dtreesync.Base.Int.{ℤ, pos, negsuc, ltb_ℤ, sub_ℕ}
use dtreesync.Base.Strings.{codes, has_prefix, has_suffix}
use dtreesync.Base.GoPath.{join_path}
use dtreesync.Base.Sort.{sort}
use dtreesync.Model.Types.{Instant, Result, ok, err, ◌>>=◌, io_failure}
use dtreesync.Model.Path.{validate_and_clean_path}

-- A directory entry, with what `Info` says of its time.
pub record Entry : Type 0 where
  pub name : Text
  pub is_dir : Bool
  pub info : Option Instant

pub record FileMeta : Type 0 where
  pub name : Text
  pub path : Text
  pub mod_time : Instant

abbrev pub is_snapshot_name : Text → Bool
is_snapshot_name name =
    has_suffix (codes ".zst") name
    || has_suffix (codes ".tsv") name
    || has_suffix (codes ".jsonl") name
    || has_suffix (codes ".ndjson") name
    || has_suffix (codes ".db") name

-- The entries that the loop passes on.
abbrev pub is_considered : Text → Entry → Bool
is_considered prefix e =
    not e.is_dir && (prefix == [] || has_prefix prefix e.name) && is_snapshot_name e.name

abbrev pub with_time : Text → Entry → Option Instant → List FileMeta → List FileMeta
with_time dir e none rest = rest
with_time dir e (some t) rest =
    record { name = e.name; path = join_path dir e.name; mod_time = t } ∷ rest

unfoldable pub snapshots : Text → Text → List Entry → List FileMeta
unfolding has_prefix has_suffix join_path
snapshots dir prefix [] = []
snapshots dir prefix (e ∷ entries) =
    let rest = snapshots dir prefix entries in
    if is_considered prefix e then with_time dir e e.info rest else rest

-- Newest first.
abbrev pub newer : FileMeta → FileMeta → Bool
newer a b = leb b.mod_time a.mod_time

-- An integer as an `int64`.
abbrev pub int64 : ℕ → ℤ
int64 bits = if ltb bits (2 ^ 63) then pos bits else sub_ℕ bits (2 ^ 64)

abbrev pub day : ℕ
day = 24 * (3600 * 10 ^ 9)

-- `time.Duration(retentionDays)*24*time.Hour` for a positive number of days.
unfoldable pub retention_window : ℕ → ℤ
retention_window days = int64 ((days * day) % 2 ^ 64)

-- `now.Sub(modTime)`: the difference, no larger than an `int64` can be.
unfoldable pub age : Instant → Instant → ℤ
age now mod_time = elim (sub_ℕ now mod_time) [
  | pos n ↦ pos (min n (2 ^ 63 - 1))
  | negsuc n ↦ negsuc (min n (2 ^ 63 - 1))
]

abbrev pub exceeds_count : ℤ → ℕ → Bool
exceeds_count (negsuc n) idx = false
exceeds_count (pos n) idx = ltb 0 n && leb n idx

abbrev pub exceeds_age : ℤ → Instant → Instant → Bool
exceeds_age (negsuc n) now t = false
exceeds_age (pos n) now t = ltb 0 n && ltb_ℤ (retention_window n) (age now t)

unfoldable pub should_purge : ℤ → ℤ → Instant → ℕ → FileMeta → Bool
unfolding retention_window age
should_purge days count now idx snap = exceeds_count count idx || exceeds_age days now snap.mod_time

-- The loop over the sorted snapshots: the ones that are removed, with their paths.
unfoldable pub purge : ℤ → ℤ → Instant → (Text → Bool) → ℕ → List FileMeta → List Text
unfolding should_purge
purge days count now remove idx [] = []
purge days count now remove idx (snap ∷ snaps) =
    let rest = purge days count now remove (suc idx) snaps in
    if should_purge days count now idx snap && remove snap.path then snap.path ∷ rest else rest

abbrev is_off : ℤ → Bool
is_off (negsuc n) = true
is_off (pos n) = leb n 0

abbrev listed : Option (List Entry) → Result (List Entry)
listed none = err io_failure
listed (some entries) = ok entries

-- `read_dir` is `os.ReadDir`, `remove` whether `os.Remove` succeeds; an empty prefix is none.
unfoldable pub apply_retention :
    (Text → Option (List Entry))
    → (Text → Bool)
    → Instant
    → Text
    → ℤ
    → ℤ
    → Text
    → Result (List Text)
unfolding purge snapshots sort validate_and_clean_path
apply_retention read_dir remove now target_dir days count prefix =
    if is_off days && is_off count then ok [] else (do
      clean_dir ← validate_and_clean_path target_dir
      entries ← listed (read_dir clean_dir)
      ok (purge days count now remove 0 (sort newer (snapshots clean_dir prefix entries))))
