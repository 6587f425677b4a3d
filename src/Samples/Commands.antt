-- ===== src/Samples/Commands.antt =====
-- cmd/dtreesync/main.go at concrete flags.
use dtreesync.Base.{
  Text, ℕ, true, false, none, some, [], ◌∷◌, ◌||◌, ◌==◌, ◌≡◌, ◌↔◌, refl, Option, text_eq, nat_eq,
}
use dtreesync.Base.Int.{pos}
use dtreesync.Base.Strings.{codes, split, join, has_suffix, has_prefix}
use dtreesync.Base.GoPath.{clean, segments, clean_from, push, pop}
use dtreesync.Model.Types.{
  DiffConfig, DiffResult, Error, Result, BackupConfig, BackupResult, ScanOptions, ok,
}
use dtreesync.Model.Path.{validate_and_clean_path}
use dtreesync.Format.Deduce.{is_sqlite, deduce_format_and_compression}
use dtreesync.Core.Diff.{diff}
use dtreesync.Core.Diff.Aligned.{IsAligned}
use dtreesync.Core.Verify.{verify, open_input, chosen_format, chosen_compression, unpacked}
use dtreesync.Core.Verify.Sound.{IsAccepted}
use dtreesync.Cli.{exit_success, SourceFlags, source_dest, resolve_log_path}
use dtreesync.Cli.Runs.{
  World, go, identity_map, stream_reader, init_audit_logger, diff_config, run_diff, verify_config,
  run_verify,
}
use dtreesync.Cli.Exits.{run_diff-IsAligned, run_verify-IsAccepted}
use dtreesync.Cli.Backups.{BackupFlags, target_dest, backup_config, opens_audit_log, run_backup}
use dtreesync.Cli.Success.{Sorts, run_backup_success}
use dtreesync.Samples.Records.{root, top}
use dtreesync.Samples.Stored.{lib, store, tools, text}

abbrev world : World
world = record {
  num_cpu = 4;
  load_identity_map = λ _. none;
  read_snapshot_from_git = λ _ _ _ _. some (lib.compress text);
  read_file = λ _. none;
  commit_snapshot_to_git = λ _ _ _ _ _. none;
  temp_dir = codes "/tmp";
  opens_log = λ _. true;
}

abbrev flags : SourceFlags
flags = record {
  tree_file = [];
  base_folder = codes "/srv/";
  id_map = [];
  git_repo = codes "git@host:repo";
  git_ref = codes "v1";
  log = [];
  log_file = [];
  entity = [];
  include = [];
  exclude = [];
  threads = pos 0;
}

dest : source_dest flags ≡ codes "tree.ndjson.zst"
unfolding source_dest text_eq
dest = refl

named : (flags.base_folder == [] || source_dest flags == []) ≡ false
unfolding source_dest text_eq
named = refl

has_source : (source_dest flags == []) ≡ false
unfolding source_dest text_eq
has_source = refl

no_map : identity_map world flags ≡ go none
unfolding identity_map text_eq
no_map = refl

from_git : stream_reader world flags ≡ go (some (lib.compress text))
unfolding stream_reader text_eq
from_git = refl

logs : init_audit_logger world flags ≡ true
unfolding init_audit_logger resolve_log_path text_eq
logs = refl

valid : validate_and_clean_path flags.base_folder ≡ ok (codes "/srv")
unfolding validate_and_clean_path clean segments clean_from push pop split join text_eq nat_eq
valid = refl

abbrev engine : DiffConfig → Option Text → Result (DiffResult × Option Error)
engine cfg _ = diff cfg (ok (top ∷ [])) (ok (root ∷ top ∷ [], []))

run_diff-IsAligned_example :
    (run_diff world engine (some (flags, false)) ≡ exit_success)
    ↔ IsAligned (diff_config flags false none) (top ∷ []) (root ∷ top ∷ []) []
run_diff-IsAligned_example =
    run_diff-IsAligned world engine flags false none (some (lib.compress text)) (codes "/srv")
      (top ∷ []) (root ∷ top ∷ []) [] named no_map from_git logs valid refl

no_database : is_sqlite (chosen_format (verify_config flags (some (lib.compress text)))) ≡ false
unfolding chosen_format deduce_format_and_compression source_dest has_suffix has_prefix text_eq
    nat_eq
no_database = refl

pulled_input :
    open_input store (some (lib.compress text)) (source_dest flags) ≡ ok (lib.compress text)
unfolding open_input
pulled_input = refl

run_verify-IsAccepted_example :
    (run_verify world (verify lib tools store) (some flags) ≡ exit_success)
    ↔ IsAccepted lib (chosen_format (verify_config flags (some (lib.compress text)))) (
        unpacked tools
          (chosen_compression (verify_config flags (some (lib.compress text))))
          (lib.compress text))
run_verify-IsAccepted_example =
    run_verify-IsAccepted world lib tools store flags (some (lib.compress text)) (lib.compress text)
      has_source from_git logs no_database pulled_input

abbrev backup_flags : BackupFlags
backup_flags = record {
  base_folder = codes "/srv";
  tree_file = [];
  format = [];
  tree_format = [];
  compression = [];
  backup_compress = true;
  threads = pos 0;
  one_file_system = false;
  log = [];
  log_file = [];
  retention_days = pos 0;
  backup_retention = pos 0;
  retention_count = pos 0;
  entity = [];
  include = [];
  exclude = [];
  dry_run = false;
  sort_order = codes "path";
  git_repo = codes "git@host:repo";
  git_branch = codes "main";
  git_tag = [];
}

abbrev backed : BackupResult
backed = record { folder_count = 1; payload_bytes = 2; sha256_hash = []; artifact_url = [] }

abbrev backup_engine : BackupConfig → Result BackupResult
backup_engine _ = ok backed

abbrev count_one : Text → ScanOptions → Result ℕ
count_one _ _ = ok 1

-- The commit fails, since the file cannot be read.
run_backup_success_example :
    ((run_backup world backup_engine count_one (some backup_flags)).code ≡ exit_success) ↔ (
      ((backup_flags.base_folder == [] || target_dest world backup_flags == []) ≡ false)
      × Sorts (codes "path")
      × (opens_audit_log world backup_flags ≡ true)
      × ((res : BackupResult) × (backup_engine (backup_config world backup_flags) ≡ ok res)))
run_backup_success_example = run_backup_success world backup_engine count_one backup_flags refl
