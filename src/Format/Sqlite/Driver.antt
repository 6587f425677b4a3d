-- ===== src/Format/Sqlite/Driver.antt =====
-- The SQLite driver behind internal/format/sqlite.go: its calls, and what they do to the rows of the two
-- tables, those that are committed and those of the open transaction.
use mathlib.Core.List.{Perm}
use dtreesync.Base.{Text, Bool, Option, some, List, [], ◌∷◌, ◌++◌, ◌≡◌}
use dtreesync.Base.Int.{ℤ}
use dtreesync.Base.Order.{text_leb}
use dtreesync.Base.Sort.{Ordered}

-- A row of the table `metadata`.
pub record MetaRow : Type 0 where
  pub base_folder : Text
  pub entity : Text
  pub created_at : Text
  pub folder_count : ℤ
  pub tree_file : Text
  pub tree_format : Text
  pub compression : Bool
  pub host_os : Text
  pub hostname : Text
  pub payload_sha256 : Text

-- A row of the table `directories`.
pub record DirRow : Type 0 where
  pub entity : Text
  pub rel_path : Text
  pub meta_json : Text

abbrev pub row_leb : DirRow → DirRow → Bool
row_leb a b = text_leb a.rel_path b.rel_path

pub record Engine : Type 1 where
  pub Db : Type 0
  -- `Exec` of the schema; no database stands for an error, here and below.
  pub exec_schema : Db → Option Db
  pub insert_meta : MetaRow → Db → Option Db
  pub begin : Db → Option Db
  pub can_prepare : Db → Bool
  pub insert_dir : DirRow → Db → Option Db
  pub commit : Db → Option Db
  pub rollback : Db → Db × Bool
  pub create_indices : Db → Db
  pub close_db : Db → Db
  -- The queries of the readers; `LIMIT 1` and `ORDER BY rel_path ASC`.
  pub select_meta : Db → Option MetaRow
  pub select_dirs : Db → Option (List DirRow)
  -- The committed rows, and those of the open transaction.
  pub meta_rows : Db → List MetaRow
  pub rows : Db → List DirRow
  pub pending : Db → Option (List DirRow)

-- What is the same in two databases, except for the open transaction.
abbrev pub SameRows : (e : Engine) → e.Db → e.Db → Type 0
SameRows e a b = (e.rows a ≡ e.rows b) × (e.meta_rows a ≡ e.meta_rows b)

-- What SQLite documents of the statements and of transactions.
pub record Laws (e : Engine) : Type 0 where
  pub exec_schema_lem : (db after : e.Db) → e.exec_schema db ≡ some after → SameRows e after db
  pub insert_meta_lem :
      (m : MetaRow) (db after : e.Db)
      → e.insert_meta m db ≡ some after
      → (e.rows after ≡ e.rows db) × (e.meta_rows after ≡ e.meta_rows db ++ (m ∷ []))
  pub begin_lem :
      (db after : e.Db)
      → e.begin db ≡ some after
      → SameRows e after db × (e.pending after ≡ some [])
  pub insert_dir_lem :
      (r : DirRow) (db after : e.Db) (open_rows : List DirRow)
      → e.pending db ≡ some open_rows
      → e.insert_dir r db ≡ some after
      → SameRows e after db × (e.pending after ≡ some (open_rows ++ (r ∷ [])))
  pub commit_lem :
      (db after : e.Db) (open_rows : List DirRow)
      → e.pending db ≡ some open_rows
      → e.commit db ≡ some after
      → (e.rows after ≡ e.rows db ++ open_rows) × (e.meta_rows after ≡ e.meta_rows db)
  pub rollback_lem : (db : e.Db) → SameRows e (e.rollback db).0 db
  pub create_indices_lem : (db : e.Db) → SameRows e (e.create_indices db) db
  pub close_db_lem : (db : e.Db) → SameRows e (e.close_db db) db
  -- What the queries give, if they succeed.
  pub select_meta_lem :
      (db : e.Db) (m found : MetaRow)
      → e.meta_rows db ≡ m ∷ []
      → e.select_meta db ≡ some found
      → found ≡ m
  pub select_dirs_lem :
      (db : e.Db) (rs : List DirRow)
      → e.select_dirs db ≡ some rs
      → Perm rs (e.rows db) × Ordered row_leb rs
