-- ===== src/Model/Types.antt =====
-- internal/model/types.go and errors.go: the records that the other packages pass around. A `*uint32`
-- is an optional number, an `int64` of nanoseconds an integer, a `time.Time` the nanoseconds since
-- the year 1, which Go counts from as well. Writers, loggers, secrets and callbacks are left out.
use dtreesync.Base.{ℕ, Text, Bool, Option, List}
use dtreesync.Base.Int.{ℤ}

-- The sentinel errors that the modelled code returns, and the failure of a call to the system.
pub data Error : Type 0 where
  drift_detected snapshot_corrupted verification_failed boundary_escaped : Error
  snapshot_not_found relative_path_not_allowed invalid_path format_unsupported : Error
  bad_sort_order canceled io_failure bad_json : Error

pub data FormatType : Type 0 where
  no_format tsv ndjson sqlite : FormatType
  other_format : Text → FormatType

pub data CompressionType : Type 0 where
  no_compression zstd none_compression : CompressionType
  other_compression : Text → CompressionType

abbrev pub Instant : Type 0
Instant = ℕ

pub record BackupMetadata : Type 0 where
  pub version : Text
  pub base_folder : Text
  pub entity : Text
  pub created_at : Instant
  pub folder_count : ℤ
  pub tree_file : Text
  pub tree_format : Text
  pub compression : Bool
  pub host_os : Text
  pub hostname : Text
  pub payload_sha256 : Text
  pub sort_order : Text

pub record PlatformMeta : Type 0 where
  pub uid : Option ℕ
  pub gid : Option ℕ
  pub username : Text
  pub group : Text
  pub mode : Option ℕ
  pub acl_access : Text
  pub acl_default : Text
  pub acl_text : Text
  pub selinux_context : Text
  pub owner_sid : Text
  pub group_sid : Text
  pub owner_name : Text
  pub group_name : Text
  pub sddl : Text
  pub file_attributes : Option ℕ
  pub birth_time : ℤ
  pub mod_time : ℤ
  pub access_time : ℤ
  pub change_time : ℤ

pub record DirRecord : Type 0 where
  pub entity : Text
  pub rel_path : Text
  pub metadata : PlatformMeta

-- A Go map with text keys, or with numbers as keys.
abbrev pub Table {ℓ κ} : Type ℓ → Type κ → Type (ℓ ⊔ κ)
Table K V = List (K × V)

pub record IdentityMap : Type 0 where
  pub users : Table Text Text
  pub groups : Table Text Text
  pub uids : Table ℕ ℕ
  pub gids : Table ℕ ℕ
  pub sids : Table Text Text

-- What `VerifyResult` lists, without the wording.
pub data Issue : Type 0 where
  zstd_failed header_unreadable header_invalid : Issue
  short_row bad_record bad_path stream_failed : Issue
  checksum_mismatch count_mismatch : Issue
  database_unreadable integrity_failed : Issue

pub record VerifyResult : Type 0 where
  pub tree_file : Text
  pub format : FormatType
  pub compression : Bool
  pub record_count : ℕ
  pub payload_sha256 : Text
  pub expected_sha256 : Text
  pub checksum_valid : Bool
  pub frames_valid : Bool
  pub syntax_valid : Bool
  pub errors : List Issue

pub record BackupConfig : Type 0 where
  pub base_folder : Text
  pub entity : Text
  pub target_url : Text
  -- Whether a `Writer` is set.
  pub has_writer : Bool
  pub format : FormatType
  pub compression : CompressionType
  pub workers : ℤ
  pub include : List Text
  pub exclude : List Text
  pub one_file_system : Bool
  pub retention_days : ℤ
  pub retention_count : ℤ
  pub retention_prefix : Text
  pub sort_order : Text

pub record BackupResult : Type 0 where
  pub folder_count : ℕ
  pub payload_bytes : ℕ
  pub sha256_hash : Text
  pub artifact_url : Text

pub record RestoreConfig : Type 0 where
  pub target_folder : Text
  pub base_substitute : Text
  pub identity_map : Option IdentityMap
  pub entities : List Text
  pub include : List Text
  pub exclude : List Text
  pub sync_type : Text
  pub archive_extra_folder : Text
  pub apply_perms : Bool
  pub workers : ℤ

-- A warning of a restore, by what its message says.
pub data Warning : Type 0 where
  escaping_path mkdir_failed perm_failed : Text → Warning
  evacuation_failed : Warning

pub record RestoreResult : Type 0 where
  pub created_folders : ℕ
  pub applied_perms : ℕ
  pub evacuated_archive : Text
  pub warnings : List Warning

pub record DiffConfig : Type 0 where
  pub live_folder : Text
  pub snapshot_url : Text
  pub identity_map : Option IdentityMap
  pub entities : List Text
  pub include : List Text
  pub exclude : List Text
  pub ignore_owner : Bool

pub record DriftItem : Type 0 where
  pub path : Text
  pub drift_type : Text
  pub field : Text
  pub expected : Text
  pub actual : Text

pub record DiffSummary : Type 0 where
  pub expected_directories : ℕ
  pub scanned_directories : ℕ
  pub missing_count : ℕ
  pub extra_count : ℕ
  pub drift_count : ℕ

pub record DiffResult : Type 0 where
  pub status : Text
  pub base_folder : Text
  pub tree_file : Text
  pub summary : DiffSummary
  pub total_drift : ℕ
  pub drift_items : List DriftItem

pub record VerifyConfig : Type 0 where
  pub source_url : Text
  pub reader : Option Text
  pub format : FormatType
  pub compression : CompressionType

pub record ScanOptions : Type 0 where
  pub entity : Text
  pub include : List Text
  pub exclude : List Text
  pub one_file_system : Bool

pub data Result {ℓ} (A : Type ℓ) : Type ℓ where
  ok : A → Result A
  err : Error → Result A

infixl 5 ◌>>=◌
abbrev pub ◌>>=◌ {ℓ κ} : {A : Type ℓ} {B : Type κ} → Result A → (A → Result B) → Result B
ok a >>= f = f a
err e >>= f = err e
