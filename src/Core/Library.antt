-- ===== src/Core/Library.antt =====
-- What the engines call of other packages: encoding/json, time, crypto/sha256, klauspost/compress/zstd and
-- the database/sql driver. Compression is a function of the whole stream; a stream that cannot be
-- decompressed whole gives an error, of whatever kind the reader makes of it.
use dtreesync.Base.{Text, ℕ, Option}
use dtreesync.Model.Types.{BackupMetadata, DirRecord, Result}

pub record Library : Type 0 where
  -- `json.Marshal` and `json.Unmarshal` of a `BackupMetadata`, an `NDJSONHeader` and a `DirRecord`.
  pub encode_meta : BackupMetadata → Text
  pub decode_meta : Text → Option BackupMetadata
  pub encode_header : BackupMetadata → Text
  pub decode_header : Text → Option BackupMetadata
  pub encode_record : DirRecord → Text
  pub decode_record : Text → Option DirRecord
  -- `UTC().Format(time.RFC3339)`
  pub rfc3339 : ℕ → Text
  -- The digest in hexadecimal.
  pub sha256 : Text → Text
  pub compress : Text → Text
  pub decompress : Text → Result Text
