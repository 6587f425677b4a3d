-- ===== src/Format/Tsv.antt =====
-- internal/format/tsv.go. A stream is the whole text that is written or read; a write does not fail.
-- `encoding/json` is a parameter: `encode` and `decode` of the header. The callback of the reader
-- works on a state of its own.
pub mod Field
pub mod Row
pub mod Classify
pub mod Stream
pub mod Loss
use dtreesync.Base.{
  Text, ℕ, ◌*◌, Bool, not, ◌||◌, ◌&&◌, Option, none, some, List, [], ◌∷◌, ◌++◌, ◌==◌, text_eq,
  nat_eq, ltb, leb, length, if◌then◌else◌,
}
use dtreesync.Base.Int.{ℤ, pos}
use dtreesync.Base.Strings.{
  codes, split, join, has_prefix, trim_prefix, trim_space, replace_char, byte_length,
}
use dtreesync.Base.Decimal.{format_uint, format_mode, format_int, parse_uint, parse_int64}
use dtreesync.Format.Lines.{max_line, scan_lines, require_header}
use dtreesync.Model.Types.{
  BackupMetadata, PlatformMeta, DirRecord, Result, ok, err, ◌>>=◌, snapshot_corrupted, io_failure,
}

abbrev pub tsv_meta_prefix : Text
tsv_meta_prefix = codes "#META:"

abbrev pub tsv_null_value : Text
tsv_null_value = codes "-"

abbrev pub tsv_column_header : Text
tsv_column_header = join b'\t' (
    codes "entity"
    ∷ codes "rel_path"
    ∷ codes "mode"
    ∷ codes "uid"
    ∷ codes "gid"
    ∷ codes "user"
    ∷ codes "group"
    ∷ codes "acl_access"
    ∷ codes "acl_default"
    ∷ codes "selinux"
    ∷ codes "sddl"
    ∷ codes "attrs"
    ∷ codes "mtime"
    ∷ [])

unfoldable pub sanitize_tsv_field : Text → Text
sanitize_tsv_field val =
    if val == [] then tsv_null_value else replace_char b'\n' b' ' (replace_char b'\t' b' ' val)

unfoldable pub unnull : Text → Text
unfolding trim_space
unnull val = let trimmed = trim_space val in if trimmed == tsv_null_value then [] else trimmed

abbrev pub format_optional : (ℕ → Text) → Option ℕ → Text
format_optional f none = tsv_null_value
format_optional f (some n) = f n

-- The thirteen columns of a row.
unfoldable pub columns : DirRecord → List Text
unfolding sanitize_tsv_field format_mode format_uint format_int
columns rec =
    sanitize_tsv_field rec.entity
    ∷ sanitize_tsv_field rec.rel_path
    ∷ format_optional format_mode rec.metadata.mode
    ∷ format_optional (format_uint 10) rec.metadata.uid
    ∷ format_optional (format_uint 10) rec.metadata.gid
    ∷ sanitize_tsv_field rec.metadata.username
    ∷ sanitize_tsv_field rec.metadata.group
    ∷ sanitize_tsv_field rec.metadata.acl_access
    ∷ sanitize_tsv_field rec.metadata.acl_default
    ∷ sanitize_tsv_field rec.metadata.selinux_context
    ∷ sanitize_tsv_field rec.metadata.sddl
    ∷ format_optional (format_uint 10) rec.metadata.file_attributes
    ∷ format_int rec.metadata.mod_time
    ∷ []

unfoldable pub write_record : DirRecord → Text
unfolding columns join
write_record rec = join b'\t' (columns rec) ++ codes "\n"

unfoldable pub write_records : List DirRecord → Text
unfolding write_record
write_records [] = []
write_records (rec ∷ recs) = write_record rec ++ write_records recs

-- `encode` is `json.Marshal`, `rfc3339` prints the time of the header.
unfoldable pub write_header : (BackupMetadata → Text) → (ℕ → Text) → BackupMetadata → Text
unfolding join
write_header encode rfc3339 meta =
    (tsv_meta_prefix ++ (encode meta ++ codes "\n"))
    ++ (codes "# COMPLIANCE AUDIT RECORD: dtreesync\n"
        ++ ((codes "# SOURCE_BASE: " ++ (meta.base_folder ++ codes "\n"))
            ++ ((codes "# TIMESTAMP_UTC: " ++ (rfc3339 meta.created_at ++ codes "\n"))
                ++ (tsv_column_header ++ codes "\n"))))

abbrev pub parse_optional : ℕ → Text → Option ℕ
parse_optional base col = parse_uint base 32 (unnull col)

abbrev pub time_or_zero : Option ℤ → ℤ
time_or_zero none = pos 0
time_or_zero (some t) = t

abbrev pub parse_time : Text → ℤ
parse_time col = time_or_zero (parse_int64 (unnull col))

-- The fields that a row does not hold are left at their zero values.
unfoldable pub parse_row : List Text → Option DirRecord
unfolding unnull parse_uint parse_int64
parse_row
      (entity ∷ path ∷ mode ∷ uid ∷ gid ∷ user ∷ group ∷ access ∷ default ∷ selinux ∷ sddl ∷ attrs
        ∷ mtime ∷ _) =
    some (record {
      entity = unnull entity;
      rel_path = unnull path;
      metadata = record {
        uid = parse_optional 10 uid;
        gid = parse_optional 10 gid;
        username = unnull user;
        group = unnull group;
        mode = parse_optional 8 mode;
        acl_access = unnull access;
        acl_default = unnull default;
        acl_text = [];
        selinux_context = unnull selinux;
        owner_sid = [];
        group_sid = [];
        owner_name = [];
        group_name = [];
        sddl = unnull sddl;
        file_attributes = parse_optional 10 attrs;
        birth_time = pos 0;
        mod_time = parse_time mtime;
        access_time = pos 0;
        change_time = pos 0;
      };
    })
parse_row _ = none

-- What the reader makes of one line of the stream.
pub data Line : Type 0 where
  too_long blank comment short : Line
  header : Text → Line
  row : DirRecord → Line

abbrev pub row_or_short : Option DirRecord → Line
row_or_short none = short
row_or_short (some rec) = row rec

unfoldable pub classify : Text → Line
unfolding trim_space has_prefix trim_prefix split parse_row
classify raw =
    let line = trim_space raw in
    if leb max_line (byte_length raw)
    then too_long
    else if line == []
    then blank
    else if has_prefix tsv_meta_prefix line
    then header (trim_prefix tsv_meta_prefix line)
    else if has_prefix (codes "#") line || has_prefix (codes "entity\trel_path") line
    then comment
    else row_or_short (parse_row (split b'\t' line))

module _ {ℓ} {S : Type ℓ} (decode : Text → Option BackupMetadata)
    (on_record : S → DirRecord → Result S) where
  abbrev Rest : Type ℓ
  Rest = Option BackupMetadata → S → Result (BackupMetadata × S)

  read_header : Option BackupMetadata → Rest → S → Result (BackupMetadata × S)
  read_header none rest s = err snapshot_corrupted
  read_header (some meta) rest s = rest (some meta) s

  -- One round of the loop; `rest` are the rounds to come.
  read_line : Line → Rest → Rest
  unfolding read_header
  read_line too_long rest meta s = err io_failure
  read_line blank rest meta s = rest meta s
  read_line comment rest meta s = rest meta s
  read_line short rest meta s = err snapshot_corrupted
  read_line (header json) rest meta s = read_header (decode json) rest s
  read_line (row rec) rest meta s = on_record s rec >>= rest meta

  unfoldable pub read_lines : List Text → Rest
  unfolding read_line classify
  read_lines [] meta s = require_header meta s
  read_lines (line ∷ lines) meta s = read_line (classify line) (read_lines lines) meta s

  unfoldable pub read_tsv_records : Text → S → Result (BackupMetadata × S)
  unfolding read_lines scan_lines
  read_tsv_records stream s = read_lines (scan_lines stream) none s

-- `ReadTSVHeader`, on the text of the stream.
abbrev first_line : List Text → Text
first_line [] = []
first_line (l ∷ _) = l

abbrev corrupted_or : Option BackupMetadata → Result BackupMetadata
corrupted_or none = err snapshot_corrupted
corrupted_or (some meta) = ok meta

unfoldable pub read_tsv_header : (Text → Option BackupMetadata) → Text → Result BackupMetadata
unfolding split has_prefix trim_prefix trim_space
read_tsv_header decode stream =
    let trimmed = trim_space (first_line (split b'\n' stream)) in
    if not (has_prefix tsv_meta_prefix trimmed)
    then err snapshot_corrupted
    else corrupted_or (decode (trim_prefix tsv_meta_prefix trimmed))
