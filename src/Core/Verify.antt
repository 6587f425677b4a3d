-- ===== src/Core/Verify.antt =====
-- internal/core/verify.go. The clock and the audit log are left out. A stream that ends with an error
-- gives its text first; the wording of the messages is left out. Hexadecimal digests are compared
-- without regard to letter case.
mod Line
mod Report
pub mod Sound
pub mod Rows
pub mod Counted
pub mod Written
unfoldable pub use Line.*
unfoldable pub use Report.*
use dtreesync.Base.{
  Text, ℕ, suc, Bool, true, false, not, ◌||◌, ◌&&◌, Option, none, some, List, [], ◌∷◌, ◌++◌, ◌==◌,
  text_eq, nat_eq, ltb, leb, length, if◌then◌else◌,
}
use dtreesync.Base.Int.{ℤ, pos, negsuc}
use dtreesync.Base.Strings.{codes, split, has_prefix, trim_space, to_lower, byte_length}
use dtreesync.Format.Lines.{max_line, scan_lines, drop_cr}
use dtreesync.Format.Tsv.{tsv_null_value, read_tsv_header}
use dtreesync.Format.Ndjson.{read_ndjson_header}
use dtreesync.Format.Deduce.{
  deduce_format_and_compression, or_deduced_format, or_deduced_compression, is_sqlite,
}
use dtreesync.Storage.Url.{is_cloud_url}
use dtreesync.Model.Types.{
  Error, BackupMetadata, DirRecord, FormatType, no_format, CompressionType, VerifyConfig,
  VerifyResult, Issue, zstd_failed, header_unreadable, header_invalid, short_row, bad_record,
  bad_path, stream_failed, checksum_mismatch, count_mismatch, database_unreadable, integrity_failed,
  Result, ok, err, ◌>>=◌, snapshot_not_found, verification_failed,
}
use dtreesync.Model.Path.{validate_and_clean_path, normalize_rel_path}
use dtreesync.Core.Library.{Library}
use dtreesync.Core.Source.{Store, opened, is_compressed}

unfoldable pub verify_opened :
    Library → Tools → (Text → Verdict) → Bool → Opening → VerifyResult → VerifyResult × Option Error
unfolding reconcile inspect scan_lines
verify_opened lib tools judge broken unreadable r = (
  record r { frames_valid = false; errors = r.errors ++ (header_unreadable ∷ []) },
  some verification_failed,
)
verify_opened lib tools judge broken invalid r = (
  record r { syntax_valid = false; errors = r.errors ++ (header_invalid ∷ []) },
  some verification_failed,
)
verify_opened lib tools judge broken (payload meta text) r =
    reconcile lib tools meta text broken (inspect judge (scan_lines text)) r

-- `Peek(16)` needs sixteen bytes.
unfoldable pub detect_format : FormatType → Text → FormatType
unfolding has_prefix
detect_format no_format text =
    if leb 16 (byte_length text)
      && (has_prefix (codes "#") text || has_prefix (codes "entity\t") text)
    then FormatType.tsv
    else FormatType.ndjson
detect_format fmt text = fmt

unfoldable pub verify_stream :
    Library → Tools → FormatType → Stream → VerifyResult → VerifyResult × Option Error
unfolding verify_opened judge_line open_payload detect_format
verify_stream lib tools fmt s r =
    let found = detect_format fmt s.text in
    verify_opened lib tools (judge_line lib found) s.broken (open_payload lib found s.text)
      (record r { format = found })

unfoldable pub verify_unpacked :
    Library → Tools → FormatType → Option Stream → VerifyResult → VerifyResult × Option Error
unfolding verify_stream
verify_unpacked lib tools fmt none r = (
  record r { frames_valid = false; errors = r.errors ++ (zstd_failed ∷ []) },
  some verification_failed,
)
verify_unpacked lib tools fmt (some s) r = verify_stream lib tools fmt s r

-- The stream behind the compression.
unfoldable pub unpacked : Tools → CompressionType → Text → Option Stream
unfolding is_compressed
unpacked tools comp input =
    if is_compressed comp input
    then tools.open_zstd input
    else some (record { text = input; broken = false })

unfoldable pub verify_input :
    Library
    → Tools
    → FormatType
    → CompressionType
    → Text
    → VerifyResult
    → VerifyResult × Option Error
unfolding verify_unpacked is_compressed unpacked
verify_input lib tools fmt comp input r =
    verify_unpacked lib tools fmt (unpacked tools comp input)
      (record r { compression = is_compressed comp input })

-- The reader goes before the URL.
unfoldable pub open_input : Store → Option Text → Text → Result Text
unfolding is_cloud_url validate_and_clean_path
open_input store (some input) url = ok input
open_input store none [] = err snapshot_not_found
open_input store none (c ∷ url) =
    if is_cloud_url (c ∷ url)
    then opened (store.open_cloud (c ∷ url))
    else (do path ← validate_and_clean_path (c ∷ url); opened (store.open_file path))

abbrev is_zstd : CompressionType → Bool
is_zstd CompressionType.zstd = true
is_zstd _ = false

abbrev pub fresh_result : Text → FormatType → CompressionType → VerifyResult
fresh_result url fmt comp = record {
  tree_file = url;
  format = fmt;
  compression = is_zstd comp;
  record_count = 0;
  payload_sha256 = [];
  expected_sha256 = [];
  checksum_valid = true;
  frames_valid = true;
  syntax_valid = true;
  errors = [];
}

-- What the configuration leaves open is deduced from the URL, if there is one.
unfoldable pub chosen_format : VerifyConfig → FormatType
unfolding deduce_format_and_compression
chosen_format cfg =
    if cfg.source_url == []
    then cfg.format
    else or_deduced_format cfg.format (deduce_format_and_compression cfg.source_url).0

unfoldable pub chosen_compression : VerifyConfig → CompressionType
unfolding deduce_format_and_compression
chosen_compression cfg =
    if cfg.source_url == []
    then cfg.compression
    else or_deduced_compression cfg.compression (deduce_format_and_compression cfg.source_url).1

-- The result is returned with `ErrVerificationFailed`, or without an error.
unfoldable pub verify :
    Library → Tools → Store → VerifyConfig → Result (VerifyResult × Option Error)
unfolding verify_input verify_database open_input chosen_format chosen_compression
    validate_and_clean_path
verify lib tools store cfg =
    let fmt = chosen_format cfg in
    let comp = chosen_compression cfg in
    let start = fresh_result cfg.source_url fmt comp in
    if is_sqlite fmt
    then (do
      path ← validate_and_clean_path cfg.source_url
      ok (verify_database (tools.database path).header (tools.database path) start))
    else (do
      input ← open_input store cfg.reader cfg.source_url
      ok (verify_input lib tools fmt comp input start))
