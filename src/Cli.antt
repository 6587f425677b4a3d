-- ===== src/Cli.antt =====
-- cmd/dtreesync/main.go: how the command line turns flags into settings of the engines.
pub mod Runs
pub mod Backups
pub mod Exits
pub mod Success
use dtreesync.Base.{
  Text, ℕ, ◌*◌, ◌%◌, ◌^◌, Bool, true, false, not, ◌&&◌, ◌||◌, Option, none, some, List, [], ◌∷◌,
  ◌==◌, text_eq, ltb, if◌then◌else◌,
}
use dtreesync.Base.Int.{ℤ, pos, negsuc}
use dtreesync.Base.Strings.{codes, split, to_lower, trim_space}
use dtreesync.Model.Types.{FormatType, no_format, CompressionType, no_compression, none_compression}

abbrev pub exit_success : ℕ
exit_success = 0

abbrev pub exit_partial_warning : ℕ
exit_partial_warning = 2

abbrev pub exit_drift_detected : ℕ
exit_drift_detected = 3

abbrev pub exit_verification_failed : ℕ
exit_verification_failed = 4

abbrev pub exit_auth_failure : ℕ
exit_auth_failure = 5

abbrev pub exit_usage_error : ℕ
exit_usage_error = 6

abbrev at_least_one : ℕ → ℕ
at_least_one w = if ltb w 1 then 1 else w

abbrev at_most_32 : ℕ → ℕ
at_most_32 w = if ltb 32 w then 32 else w

abbrev pub or_default : ℕ → ℤ → ℕ
or_default cpus (pos n) = if ltb 0 n then n else cpus * 2
or_default cpus (negsuc n) = cpus * 2

-- The first argument is `runtime.NumCPU`.
unfoldable pub clamp_workers : ℕ → ℤ → ℤ
clamp_workers cpus w = pos (at_most_32 (at_least_one (or_default cpus w)))

unfoldable pub resolve_log_path : Text → Text → Text
resolve_log_path log1 log2 = if not (log1 == []) then log1 else log2

unfoldable pub resolve_output_mode : Text → Bool → Text
resolve_output_mode output json =
    if json then codes "json" else if not (output == []) then to_lower output else codes "table"

-- A list of patterns or entities, separated by commas.
unfoldable pub comma_list : Text → List Text
unfolding split
comma_list s = if not (s == []) then split b',' s else []

unfoldable pub clean_sort : Text → Text
unfolding trim_space
clean_sort order =
    let m = to_lower (trim_space order) in
    if m == [] || m == codes "canonical" then codes "path" else m

unfoldable pub is_sort : Text → Bool
is_sort m = m == codes "path" || m == codes "depth" || m == codes "none"

-- `model.FormatType(s)` and `model.CompressionType(s)`.
unfoldable pub format_type : Text → FormatType
format_type s =
    if s == []
    then no_format
    else if s == codes "tsv"
    then FormatType.tsv
    else if s == codes "ndjson"
    then FormatType.ndjson
    else if s == codes "sqlite"
    then FormatType.sqlite
    else FormatType.other_format s

unfoldable pub compression_type : Text → CompressionType
compression_type s =
    if s == []
    then no_compression
    else if s == codes "zstd"
    then CompressionType.zstd
    else if s == codes "none"
    then none_compression
    else CompressionType.other_compression s

-- The flags that name where a snapshot is, and which accounts are mapped.
pub record SourceFlags : Type 0 where
  pub tree_file : Text
  pub base_folder : Text
  pub id_map : Text
  pub git_repo : Text
  pub git_ref : Text
  pub log : Text
  pub log_file : Text
  pub entity : Text
  pub include : Text
  pub exclude : Text
  pub threads : ℤ

-- The file in a Git repository where none is named.
unfoldable pub source_dest : SourceFlags → Text
source_dest f =
    if f.tree_file == [] && not (f.git_repo == []) then codes "tree.ndjson.zst" else f.tree_file
