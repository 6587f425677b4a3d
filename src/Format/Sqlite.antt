-- ===== src/Format/Sqlite.antt =====
-- internal/format/sqlite.go: the writer of a snapshot database, a record of its state with one function
-- for each method, and the two readers. A method's second result is the absence of an error. The driver
-- is the parameter `Engine`, and encoding/json and the format of times are `Codec`.
pub mod Driver
pub mod Batches
pub mod Stored
pub mod RoundTrip
use dtreesync.Base.{
  Text, ℕ, suc, Bool, true, false, not, ◌&&◌, ◌||◌, Option, none, some, List, [], ◌∷◌, leb,
  if◌then◌else◌,
}
use dtreesync.Base.Int.{ℤ}
use dtreesync.Model.Types.{
  BackupMetadata, DirRecord, PlatformMeta, Instant, Result, ok, err, ◌>>=◌, snapshot_corrupted,
  io_failure,
}
use dtreesync.Format.Sqlite.Driver.{MetaRow, DirRow, Engine}

-- `json.Marshal` and `json.Unmarshal` of a `PlatformMeta`, `Format` and `Parse` for time.RFC3339.
pub record Codec : Type 0 where
  pub encode : PlatformMeta → Option Text
  pub decode : Text → Option PlatformMeta
  pub rfc3339 : Instant → Text
  pub parse_time : Text → Option Instant

abbrev pub sqlite_batch_commit_size : ℕ
sqlite_batch_commit_size = 50000

abbrev pub meta_row : Codec → BackupMetadata → MetaRow
meta_row c m = record {
  base_folder = m.base_folder;
  entity = m.entity;
  created_at = c.rfc3339 m.created_at;
  folder_count = m.folder_count;
  tree_file = m.tree_file;
  tree_format = m.tree_format;
  compression = m.compression;
  host_os = m.host_os;
  hostname = m.hostname;
  payload_sha256 = m.payload_sha256;
}

abbrev pub dir_row : DirRecord → Text → DirRow
dir_row rec json = record { entity = rec.entity; rel_path = rec.rel_path; meta_json = json }

-- `is_open`, `tx` and `stmt` are whether the pointers are set; `database` is the one that the driver has
-- open.
pub record SqliteWriter (Db : Type 0) : Type 0 where
  pub database : Db
  pub is_open : Bool
  pub tx : Bool
  pub stmt : Bool
  pub row_count : ℕ
  pub in_batch : ℕ
  pub meta_saved : Bool
  pub failed : Bool

module _ (e : Engine) (c : Codec) where
  open e use {Db}

  abbrev pub Writer : Type 0
  Writer = SqliteWriter Db

  abbrev pub fresh : Db → Writer
  fresh db = record {
    database = db;
    is_open = true;
    tx = false;
    stmt = false;
    row_count = 0;
    in_batch = 0;
    meta_saved = false;
    failed = false;
  }

  abbrev with_schema : Option Db → Option Writer
  with_schema none = none
  with_schema (some db) = some (fresh db)

  -- The argument is what `sql.Open` gave.
  unfoldable pub new_sqlite_writer : Option Db → Option Writer
  new_sqlite_writer none = none
  new_sqlite_writer (some db) = with_schema (e.exec_schema db)

  abbrev pub fail : Writer → Writer × Bool
  fail w = (record w { failed = true }, false)

  -- `Begin` and `Prepare`, which are the end of `WriteHeader` and of `flushBatch`.
  abbrev pub prepared : Writer → Db → Bool → Writer × Bool
  prepared w db true = (record w { database = db; tx = true; stmt = true }, true)
  prepared w db false = fail (record w { database = (e.rollback db).0 })

  abbrev pub begun : Writer → Option Db → Writer × Bool
  begun w none = fail w
  begun w (some db) = prepared w db (e.can_prepare db)

  abbrev pub header_saved : Writer → Option Db → Writer × Bool
  header_saved w none = fail w
  header_saved w (some db) = begun (record w { database = db; meta_saved = true }) (e.begin db)

  unfoldable pub write_header : BackupMetadata → Writer → Writer × Bool
  write_header m w = header_saved w (e.insert_meta (meta_row c m) w.database)

  abbrev pub committed : Writer → Option Db → Writer × Bool
  committed w none = fail w
  committed w (some db) = begun (record w { database = db; tx = false; in_batch = 0 }) (e.begin db)

  unfoldable pub flush_batch : Writer → Writer × Bool
  flush_batch w =
      let closed = record w { stmt = false } in
      if w.tx
      then committed closed (e.commit w.database)
      else begun (record closed { in_batch = 0 }) (e.begin w.database)

  abbrev pub counted : Writer → Writer × Bool
  counted w = if leb sqlite_batch_commit_size w.in_batch then flush_batch w else (w, true)

  abbrev pub inserted : Writer → Option Db → Writer × Bool
  inserted w none = fail w
  inserted w (some db) =
      counted (record w { database = db; row_count = suc w.row_count; in_batch = suc w.in_batch })

  abbrev pub marshalled : Writer → DirRecord → Option Text → Writer × Bool
  marshalled w rec none = fail w
  marshalled w rec (some json) = inserted w (e.insert_dir (dir_row rec json) w.database)

  unfoldable pub write_record : DirRecord → Writer → Writer × Bool
  unfolding flush_batch
  write_record rec w =
      if w.failed || not w.stmt then (w, false) else marshalled w rec (c.encode rec.metadata)

  unfoldable pub rollback : Writer → Writer × Bool
  rollback w =
      let aborted = record w { failed = true; stmt = false } in
      if w.tx
      then (
        record aborted { database = (e.rollback w.database).0; tx = false },
        (e.rollback w.database).1,
      )
      else (aborted, true)

  abbrev pub shut : Writer → Writer
  shut w = record w { database = e.close_db w.database; is_open = false; stmt = false }

  abbrev pub closing : Writer → Option Db → Writer × Bool
  closing w none = (shut w, false)
  closing w (some db) = (shut (record w { database = e.create_indices db; tx = false }), true)

  unfoldable pub close : Writer → Writer × Bool
  close w =
      if not w.is_open
      then (record w { stmt = false }, true)
      else if w.tx && w.failed
      then (shut (record w { database = (e.rollback w.database).0; tx = false }), true)
      else if w.tx
      then closing w (e.commit w.database)
      else if w.failed
      then (shut w, true)
      else (shut (record w { database = e.create_indices w.database }), true)

  abbrev pub unless_failed : (Writer → Writer × Bool) → Writer × Bool → Writer × Bool
  unless_failed next (w, true) = next w
  unless_failed next (w, false) = (w, false)

  -- The loop of a backup over its records, up to the first error.
  unfoldable pub write_records : List DirRecord → Writer → Writer × Bool
  write_records [] w = (w, true)
  write_records (rec ∷ recs) w = unless_failed (write_records recs) (write_record rec w)

  abbrev pub or_aborted : Writer × Bool → Writer × Bool
  or_aborted (w, true) = close w
  or_aborted (w, false) = ((close (rollback w).0).0, false)

  -- How a backup writes a database: after an error it rolls back and closes.
  unfoldable pub write_all : BackupMetadata → List DirRecord → Writer → Writer × Bool
  write_all m recs w = or_aborted (unless_failed (write_records recs) (write_header m w))

  abbrev zero_time : Instant
  zero_time = 0

  abbrev or_zero : Option Instant → Instant
  or_zero none = zero_time
  or_zero (some t) = t

  -- The columns that there are; `version` and `sort_order` keep their zero values.
  abbrev pub header_of : MetaRow → BackupMetadata
  header_of m = record {
    version = [];
    base_folder = m.base_folder;
    entity = m.entity;
    created_at = or_zero (c.parse_time m.created_at);
    folder_count = m.folder_count;
    tree_file = m.tree_file;
    tree_format = m.tree_format;
    compression = m.compression;
    host_os = m.host_os;
    hostname = m.hostname;
    payload_sha256 = m.payload_sha256;
    sort_order = [];
  }

  abbrev scanned : Option MetaRow → Result BackupMetadata
  scanned none = err snapshot_corrupted
  scanned (some m) = ok (header_of m)

  unfoldable pub read_sqlite_header : Option Db → Result BackupMetadata
  read_sqlite_header none = err io_failure
  read_sqlite_header (some db) = scanned (e.select_meta db)

  module _ {ℓ} {S : Type ℓ} (on_record : S → DirRecord → Result S) where
    abbrev with_metadata : DirRow → Option PlatformMeta → Result DirRecord
    with_metadata r none = err snapshot_corrupted
    with_metadata r (some m) =
        ok (record { entity = r.entity; rel_path = r.rel_path; metadata = m })

    -- The rounds of the loop.
    unfoldable pub read_rows : List DirRow → S → Result S
    read_rows [] s = ok s
    read_rows (r ∷ rs) s = do
      rec ← with_metadata r (c.decode r.meta_json)
      t ← on_record s rec
      read_rows rs t

    abbrev queried : Option (List DirRow) → S → Result S
    queried none s = err io_failure
    queried (some rs) s = read_rows rs s

    abbrev select : Option Db → Option (List DirRow)
    select none = none
    select (some db) = e.select_dirs db

    unfoldable pub read_sqlite_records : Option Db → S → Result (BackupMetadata × S)
    unfolding read_sqlite_header read_rows
    read_sqlite_records db s = do
      meta ← read_sqlite_header db
      t ← queried (select db) s
      ok (meta, t)
