-- ===== src/Core/Diff/Aligned.antt =====
-- internal/core/diff.go: when `Diff` returns without `ErrDriftDetected`, by the records themselves.
use dtreesync.Base.{
  Text, false, ◌&&◌, Option, none, some, List, [], ◌∷◌, ◌≡◌, refl, ◌∙◌, sym, ◌↔◌, inl, inr, ◌==◌,
  text_eq, eq_refl, ==_iff, ltb, length, if◌then◌else◌, arith, Bool-cases, All,
}
use dtreesync.Model.Types.{
  Error, DirRecord, DriftItem, DiffConfig, DiffResult, Result, ok, drift_detected,
}
use dtreesync.Model.Path.{validate_and_clean_path}
use dtreesync.Model.Identity.{lookup}
use dtreesync.Model.Filter.{RecordFilter, new_record_filter, matches}
use dtreesync.Core.Diff.{RecordMap, put, record_map, translate_all, tally, report, diff}
use dtreesync.Core.Diff.Report.{IsMet, AllMet, IsTracked, AllTracked, tally-IsQuiet}

lookup-put :
    (q p : Text) (rec : DirRecord) (m : RecordMap)
    → lookup q (put p rec m) ≡ (if q == p then some rec else lookup q m)
unfolding lookup put
lookup-put q p rec [] = refl
lookup-put q p rec ((j, r) ∷ m) = ground (arith, lookup-put q p rec m)

-- The last record of a path that passes the filter.
unfoldable pub newest : RecordFilter → Text → List DirRecord → Option DirRecord → Option DirRecord
newest f p [] found = found
newest f p (rec ∷ recs) found =
    newest f p recs (if matches f rec && p == rec.rel_path then some rec else found)

pub lookup-record_map :
    (f : RecordFilter) (p : Text) (recs : List DirRecord) (m : RecordMap)
    → lookup p (record_map f recs m) ≡ newest f p recs (lookup p m)
unfolding record_map newest
lookup-record_map f p [] m = refl
lookup-record_map f p (rec ∷ recs) m = elim (Bool-cases (matches f rec)) [
  | inl e ↦
      rw (e, lookup-record_map f p recs (put rec.rel_path rec m), lookup-put p rec.rel_path rec m)
  | inr e ↦ rw (e, lookup-record_map f p recs m)
]

-- No key is listed twice.
abbrev NodupKeys : RecordMap → Type 0
NodupKeys [] = Unit
NodupKeys ((p, _) ∷ m) = (lookup p m ≡ none) × NodupKeys m

put-NodupKeys : (p : Text) (rec : DirRecord) (m : RecordMap) → NodupKeys m → NodupKeys (put p rec m)
unfolding put
put-NodupKeys p rec [] _ = (unfold lookup in refl, tt)
put-NodupKeys p rec ((j, r) ∷ m) (fresh, u) =
    ground (arith, put-NodupKeys p rec m u, lookup-put j p rec m)

record_map-NodupKeys :
    (f : RecordFilter) (recs : List DirRecord) (m : RecordMap)
    → NodupKeys m
    → NodupKeys (record_map f recs m)
unfolding record_map
record_map-NodupKeys f [] m u = u
record_map-NodupKeys f (rec ∷ recs) m u = elim (Bool-cases (matches f rec)) [
  | inl e ↦ rw e (record_map-NodupKeys f recs _ (put-NodupKeys rec.rel_path rec m u))
  | inr e ↦ rw e (record_map-NodupKeys f recs m u)
]

module _ (P : Text → DirRecord → Type 0) where
  entries→lookups :
      (m : RecordMap)
      → All (λ (p, r). P p r) m
      → (p : Text) (r : DirRecord) → lookup p m ≡ some r
      → P p r
  unfolding lookup
  entries→lookups [] _ p r h = absurd (cc h)
  entries→lookups ((j, w) ∷ m) (here, later) p r h = elim (Bool-cases (p == j)) [
    | inl e ↦ rw ((==_iff p j).0 e) (rw (some_inj w r (rw e at h)) at here)
    | inr e ↦ entries→lookups m later p r (rw e at h)
  ]
    where
      some_inj : (a b : DirRecord) → some a ≡ some b → a ≡ b
      some_inj a b q = cc q

  lookups→entries :
      (m : RecordMap)
      → NodupKeys m
      → ((p : Text) (r : DirRecord) → lookup p m ≡ some r → P p r)
      → All (λ (p, r). P p r) m
  unfolding lookup
  lookups→entries [] _ h = tt
  lookups→entries ((j, w) ∷ m) (fresh, u) h =
      (h j w (rw eq_refl), lookups→entries m u (λ p r e. h p r (rw (other p r e) e)))
    where
      other : (p : Text) (r : DirRecord) → lookup p m ≡ some r → (p == j) ≡ false
      other p r e = ground (arith, ==_iff p j)

-- What a diff compares: the records after translation, and those of the scan, both filtered.
abbrev filter_of : DiffConfig → RecordFilter
filter_of cfg = new_record_filter cfg.entities cfg.include cfg.exclude

abbrev pub expected : DiffConfig → List DirRecord → Text → Option DirRecord
expected cfg recs p = newest (filter_of cfg) p (translate_all cfg.identity_map recs) none

abbrev pub actual : DiffConfig → List DirRecord → Text → Option DirRecord
actual cfg recs p = newest (filter_of cfg) p recs none

-- Each expected directory is live with metadata that agrees, each live one but the root is
-- expected, and there is no payload file.
pub record IsAligned (cfg : DiffConfig) (snap live : List DirRecord) (files : List Text)
    : Type 0 where
  pub met :
      (p : Text) (r : DirRecord)
      → expected cfg snap p ≡ some r
      → IsMet cfg.ignore_owner r.metadata (actual cfg live p)
  pub tracked :
      (p : Text) (r : DirRecord) → actual cfg live p ≡ some r → IsTracked p (expected cfg snap p)
  pub no_files : files ≡ []

module _ (cfg : DiffConfig) (snap live : List DirRecord) (files : List Text) where
  snap_map : RecordMap
  snap_map = record_map (filter_of cfg) (translate_all cfg.identity_map snap) []

  live_map : RecordMap
  live_map = record_map (filter_of cfg) live []

  snap_lookup : (p : Text) → lookup p snap_map ≡ expected cfg snap p
  unfolding snap_map
  snap_lookup p =
      lookup-record_map (filter_of cfg) p (translate_all cfg.identity_map snap) []
      ∙ (unfold lookup in refl)

  live_lookup : (p : Text) → lookup p live_map ≡ actual cfg live p
  unfolding live_map
  live_lookup p = lookup-record_map (filter_of cfg) p live [] ∙ (unfold lookup in refl)

  snap_unique : NodupKeys snap_map
  unfolding snap_map
  snap_unique = record_map-NodupKeys (filter_of cfg) (translate_all cfg.identity_map snap) [] tt

  live_unique : NodupKeys live_map
  unfolding live_map
  live_unique = record_map-NodupKeys (filter_of cfg) live [] tt

  maps-IsAligned :
      (AllMet cfg.ignore_owner snap_map live_map × AllTracked snap_map live_map × (files ≡ []))
      ↔ IsAligned cfg snap live files
  maps-IsAligned = (
    (λ (met, tracked, none_found). record {
      met = λ p r e. rw (← live_lookup p) (
          entries→lookups (λ p r. IsMet cfg.ignore_owner r.metadata (lookup p live_map)) snap_map
            met p r (snap_lookup p ∙ e));
      tracked = λ p r e. rw (← snap_lookup p) (
          entries→lookups (λ p _. IsTracked p (lookup p snap_map)) live_map tracked p r
            (live_lookup p ∙ e));
      no_files = none_found;
    }),
    λ a. (
      lookups→entries (λ p r. IsMet cfg.ignore_owner r.metadata (lookup p live_map)) snap_map
          snap_unique (λ p r e. rw (live_lookup p) (a.met p r (sym (snap_lookup p) ∙ e))),
      lookups→entries (λ p _. IsTracked p (lookup p snap_map)) live_map live_unique
          (λ p r e. rw (snap_lookup p) (a.tracked p r (sym (live_lookup p) ∙ e))),
      a.no_files,
    ),
  )

  items-IsAligned :
      ((tally cfg.ignore_owner snap_map live_map files).items ≡ []) ↔ IsAligned cfg snap live files
  items-IsAligned =
      let q = tally-IsQuiet cfg.ignore_owner snap_map live_map files in
      (λ h. maps-IsAligned.0 (q.0 h), λ a. q.1 (maps-IsAligned.1 a))

-- A diff of a valid folder, whose snapshot can be read and whose scan succeeds, returns a report without
-- an error exactly when each expected directory is live with metadata that agrees, each live directory
-- but the root is expected, and no payload file was found. A directory is expected, or live, by the last
-- record of its path that passes the filter, after the translation of identities for the snapshot.
-- Metadata agree by mode, user name, owner SID, security descriptor and access ACL, each only where both
-- sides have it, user and SID only if owners count. Group, UID, GID, default ACL and times play no part.
pub diff-IsAligned :
    (cfg : DiffConfig) (folder : Text) (snap live : List DirRecord) (files : List Text)
    → validate_and_clean_path cfg.live_folder ≡ ok folder
    → ((result : DiffResult) × (diff cfg (ok snap) (ok (live, files)) ≡ ok (result, none)))
      ↔ IsAligned cfg snap live files
unfolding diff snap_map live_map
diff-IsAligned cfg folder snap live files h =
    let q = items-IsAligned cfg snap live files in
    let t =
      tally cfg.ignore_owner (snap_map cfg snap live files) (live_map cfg snap live files) files in
    let r = report cfg folder (snap_map cfg snap live files) (live_map cfg snap live files) t in
    rw h (
      (λ (result, e). q.0 (empty t.items (e_none t.items r result e))),
      λ a. (r, no_error t.items r (q.1 a)),
    )
  where
    e_none :
        (l : List DriftItem) (x : DiffResult) (y : DiffResult)
        → ◌≡◌ {A = Result (DiffResult × Option Error)}
            (ok (x, (if ltb 0 (length l) then some drift_detected else none)))
            (ok (y, none))
        → ltb 0 (length l) ≡ false
    e_none l x y e = ground arith

    empty : (l : List DriftItem) → ltb 0 (length l) ≡ false → l ≡ []
    empty [] _ = refl
    empty (i ∷ l) h = ground arith

    no_error :
        (l : List DriftItem) (x : DiffResult)
        → l ≡ []
        → ◌≡◌ {A = Result (DiffResult × Option Error)}
            (ok (x, (if ltb 0 (length l) then some drift_detected else none)))
            (ok (x, none))
    no_error l x e = rw e
