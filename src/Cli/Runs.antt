-- ===== src/Cli/Runs.antt =====
-- cmd/dtreesync/main.go: the subcommands backup, restore, diff and verify, from their flags to the exit
-- code. The engines, what the system answers and `fs.Parse` are arguments; what is printed is left out.
use dtreesync.Base.{
  Text, ℕ, Bool, true, false, not, ◌&&◌, ◌||◌, Option, none, some, [], ◌==◌, text_eq, ltb, length,
  if◌then◌else◌,
}
use dtreesync.Core.Signal.{exit_fatal_error}
use dtreesync.Model.Types.{
  IdentityMap, RestoreConfig, RestoreResult, DiffConfig, DiffResult, VerifyConfig, VerifyResult,
  Error, drift_detected, verification_failed, Result, ok, err, no_format, no_compression,
}
use dtreesync.Cli.{
  exit_success, exit_partial_warning, exit_drift_detected, exit_verification_failed,
  exit_auth_failure, exit_usage_error, clamp_workers, resolve_log_path, comma_list, SourceFlags,
  source_dest,
}

-- A run goes on, or has called `osExit`.
pub data Step {ℓ} (A : Type ℓ) : Type ℓ where
  go : A → Step A
  stop : ℕ → Step A

infixl 5 ◌>>=◌ ◌>>◌
abbrev pub ◌>>=◌ {ℓ κ} : {A : Type ℓ} {B : Type κ} → Step A → (A → Step B) → Step B
go a >>= f = f a
stop code >>= f = stop code

abbrev pub ◌>>◌ {ℓ} : {B : Type ℓ} → Step (Unit {0}) → Step B → Step B
m >> k = m >>= λ _. k

abbrev pub check : Bool → ℕ → Step (Unit {0})
check true code = go tt
check false code = stop code

pub record World : Type 0 where
  pub num_cpu : ℕ
  pub load_identity_map : Text → Option IdentityMap
  -- The repository, the branch, the tag and the file.
  pub read_snapshot_from_git : Text → Text → Text → Text → Option Text
  -- `CommitSnapshotToGit` of the file at a path, and the hash of the commit.
  pub read_file : Text → Option Text
  pub commit_snapshot_to_git : Text → Text → Text → Text → Text → Option Text
  pub temp_dir : Text
  -- `NewAuditLoggerFromFile`
  pub opens_log : Text → Bool

abbrev pub loaded : Option IdentityMap → Step (Option IdentityMap)
loaded none = stop exit_fatal_error
loaded (some m) = go (some m)

unfoldable pub identity_map : World → SourceFlags → Step (Option IdentityMap)
identity_map world f =
    if not (f.id_map == []) then loaded (world.load_identity_map f.id_map) else go none

abbrev pub pulled : Option Text → Step (Option Text)
pulled none = stop exit_auth_failure
pulled (some text) = go (some text)

-- The text of a snapshot in a Git repository; the reference is given as the branch and as the tag.
unfoldable pub stream_reader : World → SourceFlags → Step (Option Text)
unfolding source_dest
stream_reader world f =
    if not (f.git_repo == [])
    then pulled (world.read_snapshot_from_git f.git_repo f.git_ref f.git_ref (source_dest f))
    else go none

-- `initAuditLogger` of the public package, with no writer.
unfoldable pub init_audit_logger : World → SourceFlags → Bool
unfolding resolve_log_path
init_audit_logger world f =
    let path = resolve_log_path f.log f.log_file in path == [] || world.opens_log path

-- An engine behind the public package: it needs the log.
abbrev pub with_log {ℓ} : {A : Type ℓ} → Bool → Result A → Step A
with_log false r = stop exit_fatal_error
with_log true (err e) = stop exit_fatal_error
with_log true (ok a) = go a

abbrev pub exit_code : Step ℕ → ℕ
exit_code (go code) = code
exit_code (stop code) = code

-- `errors.Is` with the error of a report that is complete all the same.
abbrev pub no_error_but_drift : Option Error → Bool
no_error_but_drift none = true
no_error_but_drift (some drift_detected) = true
no_error_but_drift (some _) = false

abbrev pub no_error_but_failed : Option Error → Bool
no_error_but_failed none = true
no_error_but_failed (some verification_failed) = true
no_error_but_failed (some _) = false

abbrev pub diff_config : SourceFlags → Bool → Option IdentityMap → DiffConfig
diff_config f ignore_owner ids = record {
  live_folder = f.base_folder;
  snapshot_url = source_dest f;
  identity_map = ids;
  entities = comma_list f.entity;
  include = comma_list f.include;
  exclude = comma_list f.exclude;
  ignore_owner = ignore_owner;
}

-- What follows the engine, here and below.
abbrev pub diff_exit : DiffResult × Option Error → Step ℕ
diff_exit (res, e) = do
  check (no_error_but_drift e) exit_fatal_error
  go (if ltb 0 res.total_drift then exit_drift_detected else exit_success)

-- No flags stand for an error of `fs.Parse`, here and below.
unfoldable pub run_diff :
    World
    → (DiffConfig → Option Text → Result (DiffResult × Option Error))
    → Option (SourceFlags × Bool)
    → ℕ
unfolding identity_map stream_reader init_audit_logger source_dest
run_diff world engine none = exit_usage_error
run_diff world engine (some (f, ignore_owner)) = exit_code (do
  check (not (f.base_folder == [] || source_dest f == [])) exit_usage_error
  ids ← identity_map world f
  reader ← stream_reader world f
  found ← with_log (init_audit_logger world f) (engine (diff_config f ignore_owner ids) reader)
  diff_exit found)

pub record RestoreFlags : Type 0 where
  pub source : SourceFlags
  pub base_substitute : Text
  pub sync_type : Text
  pub archive_extra : Text
  pub apply_perms : Bool
  pub dry_run : Bool

abbrev pub restore_config : World → RestoreFlags → Option IdentityMap → RestoreConfig
restore_config world r ids = record {
  target_folder = r.source.base_folder;
  base_substitute = r.base_substitute;
  identity_map = ids;
  entities = comma_list r.source.entity;
  include = comma_list r.source.include;
  exclude = comma_list r.source.exclude;
  sync_type = r.sync_type;
  archive_extra_folder = r.archive_extra;
  apply_perms = r.apply_perms;
  workers = clamp_workers world.num_cpu r.source.threads;
}

-- The engine is given the source, the text that was pulled and the settings.
unfoldable pub run_restore :
    World → (Text → Option Text → RestoreConfig → Result RestoreResult) → Option RestoreFlags → ℕ
unfolding identity_map stream_reader init_audit_logger source_dest
run_restore world engine none = exit_usage_error
run_restore world engine (some r) = exit_code (do
  let f = r.source
  check (not (source_dest f == [] || f.base_folder == [])) exit_usage_error
  ids ← identity_map world f
  reader ← stream_reader world f
  check (not r.dry_run) exit_success
  res ←
      with_log (init_audit_logger world f)
        (engine (source_dest f) reader (restore_config world r ids))
  go (if ltb 0 (length res.warnings) then exit_partial_warning else exit_success))

abbrev pub verify_config : SourceFlags → Option Text → VerifyConfig
verify_config f reader = record {
  source_url = source_dest f;
  reader = reader;
  format = no_format;
  compression = no_compression;
}

abbrev pub all_valid : VerifyResult → Bool
all_valid r = r.checksum_valid && r.frames_valid && r.syntax_valid

abbrev pub verify_exit : VerifyResult × Option Error → Step ℕ
verify_exit (res, e) = do
  check (no_error_but_failed e) exit_fatal_error
  go (if not (all_valid res) then exit_verification_failed else exit_success)

unfoldable pub run_verify :
    World → (VerifyConfig → Result (VerifyResult × Option Error)) → Option SourceFlags → ℕ
unfolding stream_reader init_audit_logger source_dest
run_verify world engine none = exit_usage_error
run_verify world engine (some f) = exit_code (do
  check (not (source_dest f == [])) exit_usage_error
  reader ← stream_reader world f
  found ← with_log (init_audit_logger world f) (engine (verify_config f reader))
  verify_exit found)
