-- ===== src/Cli/Backups.antt =====
-- cmd/dtreesync/main.go: the subcommand backup, with its dry run and the commit to a Git repository.
use dtreesync.Base.{
  Text, ℕ, Bool, false, not, ◌&&◌, ◌||◌, Option, none, some, List, [], ◌∷◌, ◌++◌, ◌==◌, text_eq,
  nat_eq, if◌then◌else◌,
}
use dtreesync.Base.Int.{ℤ, pos, negsuc}
use dtreesync.Base.Strings.{codes}
use dtreesync.Base.GoPath.{join_path, base, clean}
use dtreesync.Model.Types.{BackupConfig, BackupResult, ScanOptions, Result}
use dtreesync.Cli.{
  exit_success, exit_usage_error, clamp_workers, resolve_log_path, comma_list, clean_sort, is_sort,
  format_type, compression_type,
}
use dtreesync.Cli.Runs.{Step, go, stop, ◌>>=◌, ◌>>◌, check, World, with_log}

pub record BackupFlags : Type 0 where
  pub base_folder : Text
  pub tree_file : Text
  pub format : Text
  pub tree_format : Text
  pub compression : Text
  pub backup_compress : Bool
  pub threads : ℤ
  pub one_file_system : Bool
  pub log : Text
  pub log_file : Text
  pub retention_days : ℤ
  pub backup_retention : ℤ
  pub retention_count : ℤ
  pub entity : Text
  pub include : Text
  pub exclude : Text
  pub dry_run : Bool
  pub sort_order : Text
  pub git_repo : Text
  pub git_branch : Text
  pub git_tag : Text

abbrev pub is_temp : BackupFlags → Bool
is_temp f = f.tree_file == [] && not (f.git_repo == [])

unfoldable pub target_dest : World → BackupFlags → Text
unfolding join_path
target_dest world f =
    if is_temp f
    then join_path world.temp_dir (codes "dtreesync_git_tree.ndjson.zst")
    else f.tree_file

abbrev first_set : Text → Text → Text
first_set a b = if a == [] then b else a

abbrev chosen_compression : BackupFlags → Text
chosen_compression f =
    first_set f.compression (if f.backup_compress then codes "zstd" else codes "none")

abbrev chosen_days : ℤ → ℤ → ℤ
chosen_days (pos n) other = if n == 0 then other else pos n
chosen_days (negsuc n) other = negsuc n

unfoldable pub backup_config : World → BackupFlags → BackupConfig
unfolding target_dest clamp_workers comma_list clean_sort format_type compression_type
backup_config world f = record {
  base_folder = f.base_folder;
  entity = f.entity;
  target_url = target_dest world f;
  has_writer = false;
  format = format_type (first_set f.format f.tree_format);
  compression = compression_type (chosen_compression f);
  workers = clamp_workers world.num_cpu f.threads;
  include = comma_list f.include;
  exclude = comma_list f.exclude;
  one_file_system = f.one_file_system;
  retention_days = chosen_days f.retention_days f.backup_retention;
  retention_count = f.retention_count;
  retention_prefix = [];
  sort_order = clean_sort f.sort_order;
}

unfoldable pub scan_options : BackupFlags → ScanOptions
unfolding comma_list
scan_options f = record {
  entity = f.entity;
  include = comma_list f.include;
  exclude = comma_list f.exclude;
  one_file_system = f.one_file_system;
}

-- The exit code, the address that is reported, and the files that are removed.
pub record Ended : Type 0 where
  pub code : ℕ
  pub artifact_url : Text
  pub removed : List Text

abbrev pub stopped : ℕ → Ended
stopped code = record { code = code; artifact_url = []; removed = [] }

abbrev pub ended : Step Ended → Ended
ended (go e) = e
ended (stop code) = stopped code

-- A commit that fails is a warning.
abbrev committed : BackupFlags → Text → Option Text → Text
committed f url none = url
committed f url (some hash) = codes "git:" ++ (f.git_repo ++ (b'@' ∷ hash))

abbrev pushed : World → BackupFlags → Text → Option Text → Text
pushed world f url none = url
pushed world f url (some content) = committed f url (
    world.commit_snapshot_to_git f.git_repo f.git_branch f.git_tag (base (target_dest world f))
      content)

unfoldable pub finish : World → BackupFlags → BackupResult → Ended
unfolding target_dest base clean
finish world f res =
    if f.git_repo == []
    then record { code = exit_success; artifact_url = res.artifact_url; removed = [] }
    else record {
      code = exit_success;
      artifact_url =
          pushed world f res.artifact_url (world.read_file (clean (target_dest world f)));
      removed = (if is_temp f then target_dest world f ∷ [] else []);
    }

unfoldable pub opens_audit_log : World → BackupFlags → Bool
unfolding resolve_log_path
opens_audit_log world f =
    let path = resolve_log_path f.log f.log_file in path == [] || world.opens_log path

-- `scan` counts the directories of a dry run.
unfoldable pub run_backup :
    World
    → (BackupConfig → Result BackupResult)
    → (Text → ScanOptions → Result ℕ)
    → Option BackupFlags
    → Ended
unfolding target_dest clean_sort is_sort finish opens_audit_log backup_config scan_options
run_backup world engine scan none = stopped exit_usage_error
run_backup world engine scan (some f) = ended (do
  check (not (f.base_folder == [] || (target_dest world f == [] && not f.dry_run))) exit_usage_error
  check (is_sort (clean_sort f.sort_order)) exit_usage_error
  (if f.dry_run
      then (do
        found ← with_log (opens_audit_log world f) (scan f.base_folder (scan_options f))
        stop exit_success)
      else (do
        res ← with_log (opens_audit_log world f) (engine (backup_config world f))
        go (finish world f res))))
