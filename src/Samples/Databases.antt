-- ===== src/Samples/Databases.antt =====
-- internal/format/sqlite.go over a database in memory.
use mathlib.Core.List.{Perm}
use dtreesync.Base.{
  Bool, true, Option, none, some, List, [], ◌∷◌, ◌++◌, ◌≡◌, refl, ◌⊎◌, any, arith, if◌then◌else◌,
  ◌==◌, text_eq, nat_eq,
}
use dtreesync.Base.Strings.{codes}
use dtreesync.Base.Order.{text_leb_total, text_leb_trans}
use dtreesync.Base.Sort.{sort, sort-perm, sort-Ordered, Ordered}
use dtreesync.Model.Types.{DirRecord, ok}
use dtreesync.Format.Lines.{collect}
use dtreesync.Format.Sqlite.Driver.{MetaRow, DirRow, Engine, Laws, row_leb}
use dtreesync.Format.Sqlite.{
  Codec, meta_row, Writer, fresh, write_all, write_header, write_records, write_record, close,
  flush_batch, read_sqlite_records,
}
use dtreesync.Format.Sqlite.Stored.{IsStored, write_all-IsStored}
use dtreesync.Format.Sqlite.RoundTrip.{by_path, read-write_all}
use dtreesync.Samples.Records.{root, top, owned, meta}

record Memory : Type 0 where
  metas : List MetaRow
  dirs : List DirRow
  batch : Option (List DirRow)

abbrev commit_batch : Memory → Option (List DirRow) → Option Memory
commit_batch db none = none
commit_batch db (some rs) = some (record db { dirs = db.dirs ++ rs; batch = none })

abbrev add_row : DirRow → Memory → Option (List DirRow) → Option Memory
add_row r db none = none
add_row r db (some rs) =
    if any (λ x. x.rel_path == r.rel_path) (db.dirs ++ rs)
    then none
    else some (record db { batch = some (rs ++ (r ∷ [])) })

abbrev head : List MetaRow → Option MetaRow
head [] = none
head (m ∷ _) = some m

abbrev memory : Engine
memory = record {
  Db = Memory;
  exec_schema = λ db. some db;
  insert_meta = λ m db. some (record db { metas = db.metas ++ (m ∷ []) });
  begin = λ db. some (record db { batch = some [] });
  can_prepare = λ _. true;
  insert_dir = λ r db. add_row r db db.batch;
  commit = λ db. commit_batch db db.batch;
  rollback = λ db. (record db { batch = none }, true);
  create_indices = λ db. db;
  close_db = λ db. db;
  select_meta = λ db. head db.metas;
  select_dirs = λ db. some (sort row_leb db.dirs);
  meta_rows = λ db. db.metas;
  rows = λ db. db.dirs;
  pending = λ db. db.batch;
}

row_leb_total : (a b : DirRow) → (row_leb a b ≡ true) ⊎ (row_leb b a ≡ true)
row_leb_total a b = text_leb_total a.rel_path b.rel_path

row_leb_trans : (a b c : DirRow) → row_leb a b ≡ true → row_leb b c ≡ true → row_leb a c ≡ true
row_leb_trans a b c = text_leb_trans a.rel_path b.rel_path c.rel_path

memory_laws : Laws memory
memory_laws = record {
  exec_schema_lem = λ db after h. ground arith;
  insert_meta_lem = λ m db after h. ground arith;
  begin_lem = λ db after h. ground arith;
  insert_dir_lem = λ r db after rs p h. ground arith;
  commit_lem = λ db after rs p h. ground arith;
  rollback_lem = λ db. (refl, refl);
  create_indices_lem = λ db. (refl, refl);
  close_db_lem = λ db. (refl, refl);
  select_meta_lem = λ db m found h k. ground arith;
  select_dirs_lem = λ db rs h.
      let same : rs ≡ sort row_leb db.dirs = ground arith in
      rw same (sort-perm row_leb db.dirs, sort-Ordered row_leb row_leb_total row_leb_trans db.dirs);
}

abbrev codec : Codec
codec = record {
  encode = λ _. some (codes "{}");
  decode = λ _. some owned;
  rfc3339 = λ _. codes "2026-01-01T00:00:00Z";
  parse_time = λ _. some 9;
}

abbrev empty : Memory
empty = record { metas = []; dirs = []; batch = none }

abbrev stored : Writer memory codec × Bool
stored = write_all memory codec meta (top ∷ root ∷ []) (fresh memory codec empty)

written : stored ≡ (stored.0, true)
unfolding write_all write_header write_records write_record close flush_batch text_eq nat_eq
written = refl

queried : memory.select_meta stored.0.database ≡ some (meta_row codec meta)
unfolding write_all write_header write_records write_record close flush_batch text_eq nat_eq
queried = refl

write_all-IsStored_example :
    IsStored memory codec empty meta
      (top ∷ root ∷ [])
      (write_all memory codec meta (top ∷ root ∷ []) (fresh memory codec empty))
write_all-IsStored_example =
    write_all-IsStored memory codec memory_laws empty meta (top ∷ root ∷ [])

read-write_all_example :
    (found : List DirRecord) × (read_sqlite_records memory codec collect (some stored.0.database) []
      ≡ ok (record meta { version = []; sort_order = [] }, found))
    × Perm found (top ∷ root ∷ [])
    × Ordered by_path found
read-write_all_example =
    read-write_all codec memory memory_laws empty meta (top ∷ root ∷ []) stored.0
      ((codes "{}", refl, refl), ((codes "{}", refl, refl), tt)) refl refl written
      (meta_row codec meta) queried (sort row_leb stored.0.database.dirs) refl refl
