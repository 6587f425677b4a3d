-- ===== src/Format/Ndjson.antt =====
-- internal/format/ndjson.go. A stream is the whole text that is written or read; a write does not fail.
-- `encoding/json` is a parameter: `encode` and `decode` of a header and of a record. The callback of
-- the reader works on a state of its own.
pub mod Stream
use dtreesync.Base.{
  Text, Bool, true, false, ◌&&◌, Option, none, some, List, [], ◌∷◌, ◌++◌, ◌==◌, text_eq, leb,
  if◌then◌else◌,
}
use dtreesync.Base.Strings.{codes, byte_length, split, trim_space}
use dtreesync.Format.Lines.{max_line, scan_lines, drop_cr, require_header}
use dtreesync.Model.Types.{
  BackupMetadata, DirRecord, Result, ok, err, ◌>>=◌, snapshot_corrupted, io_failure,
}

-- `WriteHeader`; `encode` marshals an `NDJSONHeader`.
unfoldable pub write_header : (BackupMetadata → Text) → BackupMetadata → Text
write_header encode meta = encode meta ++ codes "\n"

unfoldable pub write_record : (DirRecord → Text) → DirRecord → Text
write_record encode rec = encode rec ++ codes "\n"

unfoldable pub write_records : (DirRecord → Text) → List DirRecord → Text
unfolding write_record
write_records encode [] = []
write_records encode (rec ∷ recs) = write_record encode rec ++ write_records encode recs

-- `ReadNDJSONHeader`, on the text of the stream.
abbrev first_line : List Text → Text
first_line [] = []
first_line (l ∷ _) = l

checked : Option BackupMetadata → Result BackupMetadata
checked none = err snapshot_corrupted
checked (some meta) =
    if meta.base_folder == [] && meta.version == [] then err snapshot_corrupted else ok meta

unfoldable pub read_ndjson_header : (Text → Option BackupMetadata) → Text → Result BackupMetadata
unfolding split trim_space checked
read_ndjson_header decode stream =
    let trimmed = trim_space (first_line (split b'\n' stream)) in
    if trimmed == [] then err snapshot_corrupted else checked (decode trimmed)

module _ {ℓ} {S : Type ℓ} (decode_header : Text → Option BackupMetadata)
    (decode_record : Text → Option DirRecord) (on_record : S → DirRecord → Result S) where
  abbrev Rest : Type ℓ
  Rest = Option BackupMetadata → S → Result (BackupMetadata × S)

  take_header : Option BackupMetadata → Rest → S → Result (BackupMetadata × S)
  take_header none rest s = err snapshot_corrupted
  take_header (some meta) rest s = rest (some meta) s

  take_record : Option DirRecord → Rest → Rest
  take_record none rest meta s = err snapshot_corrupted
  take_record (some rec) rest meta s = on_record s rec >>= rest meta

  -- The rounds of the loop; the first argument is whether the next line is line 1.
  unfoldable pub read_lines : Bool → List Text → Rest
  unfolding take_header take_record drop_cr
  read_lines first [] meta s = require_header meta s
  read_lines first (raw ∷ lines) meta s =
      let rest = read_lines false lines in
      let line = drop_cr raw in
      if leb max_line (byte_length raw)
      then err io_failure
      else if line == []
      then rest meta s
      else if first
      then take_header (decode_header line) rest s
      else take_record (decode_record line) rest meta s

  unfoldable pub read_ndjson_records : Text → S → Result (BackupMetadata × S)
  unfolding read_lines scan_lines
  read_ndjson_records stream s = read_lines true (scan_lines stream) none s
