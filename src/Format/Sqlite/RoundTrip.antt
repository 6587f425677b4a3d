-- ===== src/Format/Sqlite/RoundTrip.antt =====
-- internal/format/sqlite.go: what was written is read back, ordered by path.
use mathlib.Core.List.{Perm}
use mathlib.Core.List.Perm
use dtreesync.Base.{
  Text, Bool, true, false, Option, none, some, List, [], ◌∷◌, ◌++◌, ◌≡◌, refl, sym, ◌∙◌, ap,
  append_assoc, append-nil, map, All, All-perm, arith,
}
use mathlib.Core.Path.{subst}
use dtreesync.Base.Int.{pos}
use dtreesync.Base.Sort.{Ordered}
use dtreesync.Model.Types.{BackupMetadata, DirRecord, PlatformMeta, ok}
use dtreesync.Base.Order.{text_leb}
use dtreesync.Format.Lines.{collect}
use dtreesync.Format.Sqlite.Driver.{MetaRow, DirRow, Engine, Laws, row_leb}
use dtreesync.Format.Sqlite.{
  Codec, meta_row, Writer, fresh, write_all, with_metadata, read_rows, read_sqlite_header,
  read_sqlite_records,
}
use dtreesync.Format.Sqlite.Batches.{row_of}
use dtreesync.Format.Sqlite.Stored.{IsStored, write_all-IsStored}

-- The JSON of a record's metadata decodes to it.
abbrev pub HasJson : Codec → DirRecord → Type 0
HasJson c rec =
    (json : Text) × (c.encode rec.metadata ≡ some json) × (c.decode json ≡ some rec.metadata)

abbrev pub by_path : DirRecord → DirRecord → Bool
by_path a b = text_leb a.rel_path b.rel_path

-- The zero value of the type.
abbrev zero_metadata : PlatformMeta
zero_metadata = record {
  uid = none;
  gid = none;
  username = [];
  group = [];
  mode = none;
  acl_access = [];
  acl_default = [];
  acl_text = [];
  selinux_context = [];
  owner_sid = [];
  group_sid = [];
  owner_name = [];
  group_name = [];
  sddl = [];
  file_attributes = none;
  birth_time = pos 0;
  mod_time = pos 0;
  access_time = pos 0;
  change_time = pos 0;
}

abbrev or_zero : Option PlatformMeta → PlatformMeta
or_zero none = zero_metadata
or_zero (some m) = m

abbrev is_there : Option PlatformMeta → Bool
is_there none = false
is_there (some m) = true

module _ (c : Codec) where
  record_of : DirRow → DirRecord
  record_of r = record {
    entity = r.entity;
    rel_path = r.rel_path;
    metadata = or_zero (c.decode r.meta_json);
  }

  abbrev decodes : DirRow → Bool
  decodes r = is_there (c.decode r.meta_json)

  row_of-decodes : (rec : DirRecord) → HasJson c rec → decodes (row_of c rec) ≡ true
  row_of-decodes rec (json, e, d) = ground arith

  record_of-row_of : (rec : DirRecord) → HasJson c rec → record_of (row_of c rec) ≡ rec
  unfolding record_of
  record_of-row_of rec (json, e, d) = ground arith

  rows-decode :
      (recs : List DirRecord)
      → All (HasJson c) recs
      → All (λ r. decodes r ≡ true) (map (row_of c) recs)
  rows-decode [] _ = tt
  rows-decode (rec ∷ recs) (h, hs) = (row_of-decodes rec h, rows-decode recs hs)

  records-back :
      (recs : List DirRecord) → All (HasJson c) recs → map record_of (map (row_of c) recs) ≡ recs
  records-back [] _ = refl
  records-back (rec ∷ recs) (h, hs) = ground (arith, record_of-row_of rec h, records-back recs hs)

  module _ (e : Engine) where
    with-record :
        (r : DirRow) (o : Option PlatformMeta)
        → is_there o ≡ true
        → with_metadata e c collect r o
          ≡ ok (record { entity = r.entity; rel_path = r.rel_path; metadata = or_zero o })
    with-record r none h = cc
    with-record r (some m) h = refl

    read_rows-collect :
        (rs : List DirRow) (found : List DirRecord)
        → All (λ r. decodes r ≡ true) rs
        → read_rows e c collect rs found ≡ ok (found ++ map record_of rs)
    unfolding read_rows record_of
    read_rows-collect [] found _ = ap ok (sym (append-nil found))
    read_rows-collect (r ∷ rs) found (h, hs) = rw (with-record r (c.decode r.meta_json) h) (
        read_rows-collect rs (found ++ (record_of r ∷ [])) hs
        ∙ ap ok (append_assoc found (record_of r ∷ []) (map record_of rs)))

  Ordered-record_of : (rs : List DirRow) → Ordered row_leb rs → Ordered by_path (map record_of rs)
  unfolding record_of
  Ordered-record_of [] _ = tt
  Ordered-record_of (r ∷ rs) (h, hs) = (above rs h, Ordered-record_of rs hs)
    where
      above :
          (xs : List DirRow)
          → All (λ y. row_leb r y ≡ true) xs
          → All (λ y. by_path (record_of r) y ≡ true) (map record_of xs)
      above [] _ = tt
      above (x ∷ xs) (k, ks) = (k, above xs ks)

  module _ (e : Engine) (laws : Laws e) where
    read-eq :
        (db : e.Db) (m : BackupMetadata) (recs : List DirRecord)
        → All (HasJson c) recs
        → e.meta_rows db ≡ meta_row c m ∷ []
        → e.rows db ≡ map (row_of c) recs
        → (found_meta : MetaRow) → e.select_meta db ≡ some found_meta
        → (rs : List DirRow) → e.select_dirs db ≡ some rs
        → c.parse_time (c.rfc3339 m.created_at) ≡ some m.created_at
        → (found : List DirRecord) × (read_sqlite_records e c collect (some db) []
            ≡ ok (record m { version = []; sort_order = [] }, found))
          × Perm found recs
          × Ordered by_path found
    unfolding read_sqlite_records read_sqlite_header
    read-eq db m recs h k l found_meta header rs q time =
        let (perm, ord) = laws.select_dirs_lem db rs q in
        let same = subst (λ xs. Perm rs xs) l perm in
        let is_row = laws.select_meta_lem db (meta_row c m) found_meta k header in
        let loop = read_rows-collect e rs [] (
          All-perm (λ r. is_there (c.decode r.meta_json)) rs (map (row_of c) recs) same
            (rows-decode recs h)) in
        (
          map record_of rs,
          rw (header, is_row, q, time, loop),
          subst (λ xs. Perm (map record_of rs) xs) (records-back recs h) (Perm.map record_of same),
          Ordered-record_of rs ord,
        )

    pub read-write_all :
        (db : e.Db) (m : BackupMetadata) (recs : List DirRecord) (w : Writer e c)
        → All (HasJson c) recs
        → e.rows db ≡ []
        → e.meta_rows db ≡ []
        → write_all e c m recs (fresh e c db) ≡ (w, true)
        → (found_meta : MetaRow) → e.select_meta w.database ≡ some found_meta
        → (rs : List DirRow) → e.select_dirs w.database ≡ some rs
        → c.parse_time (c.rfc3339 m.created_at) ≡ some m.created_at
        → (found : List DirRecord) × (read_sqlite_records e c collect (some w.database) []
            ≡ ok (record m { version = []; sort_order = [] }, found))
          × Perm found recs
          × Ordered by_path found
    read-write_all db m recs w h r k e' found_meta header rs q time =
        let (rows, metas) =
          subst (IsStored e c db m recs) e' (write_all-IsStored e c laws db m recs) in
        read-eq w.database m recs h (metas ∙ ap (λ xs. xs ++ (meta_row c m ∷ [])) k)
          (rows ∙ ap (λ xs. xs ++ map (row_of c) recs) r) found_meta header rs q time
