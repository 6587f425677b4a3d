-- ===== src/Core/Restore.antt =====
-- internal/core/restore.go, `Restore`. The snapshot is the list of the records that the reader hands
-- to the collector, or its error. The system is a record of answers to the calls so far; the audit log,
-- the clock, the number of workers and the progress callback are left out. The workers of a layer
-- run in an order that the system chooses, one directory after the other.
pub mod Paths
pub mod Calls
pub mod Passes
pub mod Times
use dtreesync.Base.{
  Text, ℕ, zero, suc, ◌+◌, Bool, true, false, not, ◌||◌, ◌&&◌, Option, none, some, List, [], ◌∷◌,
  ◌++◌, ◌==◌, text_eq, nat_eq, contains, keep, length, ltb, if◌then◌else◌, map,
}
use dtreesync.Base.Int.{ℤ}
use dtreesync.Base.Strings.{codes, has_prefix, count_char}
use dtreesync.Base.GoPath.{dot_dot, join_path, rel_path}
use dtreesync.Base.Order.{text_leb}
use dtreesync.Base.Sort.{sort}
use dtreesync.Model.Types.{
  DirRecord, PlatformMeta, RestoreConfig, RestoreResult, Warning, escaping_path, mkdir_failed,
  perm_failed, evacuation_failed, Result, ok, err, ◌>>=◌, canceled,
}
use dtreesync.Model.Path.{validate_and_clean_path, normalize_rel_path, parse_base_substitute}
use dtreesync.Model.Rebase.{rebase_path}
use dtreesync.Model.Identity.{apply_to_platform_meta}
use dtreesync.Model.Filter.{RecordFilter, new_record_filter, matches}
use dtreesync.Core.Order.{path_leb}

-- The result of `NormalizeRelPath`, or the path as it was.
abbrev or_same : Text → Result Text → Text
or_same p (ok norm) = norm
or_same p (err _) = p

unfoldable pub rebase_record : Text → Text → Text → DirRecord → DirRecord
unfolding join_path rebase_path rel_path normalize_rel_path
rebase_record clean_target old_base new_base rec =
    if not (old_base == []) && not (new_base == [])
    then record rec {
      rel_path = or_same rec.rel_path (
          normalize_rel_path (
            rel_path clean_target
              (rebase_path (join_path clean_target rec.rel_path) old_base new_base)));
    }
    else rec

-- `recordCollector` over the records of the snapshot.
unfoldable pub collect : RestoreConfig → Text → Text × Text → List DirRecord → List DirRecord
unfolding rebase_record apply_to_platform_meta matches
collect cfg clean_target bases [] = []
collect cfg clean_target bases (rec ∷ recs) =
    let rebased = rebase_record clean_target bases.0 bases.1 rec in
    let mapped = record rebased {
      metadata = apply_to_platform_meta cfg.identity_map rebased.metadata;
    } in
    let rest = collect cfg clean_target bases recs in
    if matches (new_record_filter cfg.entities cfg.include cfg.exclude) mapped
    then mapped ∷ rest
    else rest

unfoldable pub depth : Text → ℕ
depth p = if p == [] then 0 else count_char b'/' p + 1

unfoldable pub max_depth : List DirRecord → ℕ
unfolding depth
max_depth [] = 0
max_depth (rec ∷ recs) =
    let deepest = max_depth recs in
    if ltb deepest (depth rec.rel_path) then depth rec.rel_path else deepest

-- `depthMap[d]`, sorted.
unfoldable pub layer : ℕ → List DirRecord → List DirRecord
unfolding depth sort path_leb
layer d recs = sort path_leb (keep (λ rec. depth rec.rel_path == d) recs)

unfoldable pub target_path : Text → Text → Text
unfolding join_path
target_path clean_target rel = if rel == [] then clean_target else join_path clean_target rel

-- The test of the path from the target to the directory.
unfoldable pub leaves_target : Text → Text → Bool
unfolding rel_path has_prefix
leaves_target clean_target path =
    let rel = rel_path clean_target path in rel == dot_dot || has_prefix (codes "../") rel

pub data Call : Type 0 where
  make_dir : Text → ℕ → Call
  apply_meta : Text → PlatformMeta → Call
  set_times : Text → ℤ → ℤ → ℤ → Call

-- `SetTimes` on the directory of a record.
abbrev pub time_call : Text → DirRecord → Call
time_call folder rec =
    set_times (target_path folder rec.rel_path) rec.metadata.birth_time rec.metadata.mod_time
      rec.metadata.access_time

-- What is below a directory, for `WalkDir`.
mutual
  pub data Node : Type 0 where
    file : Text → Node
    directory : Text → Nodes → Node

  pub data Nodes : Type 0 where
    end : Nodes
    also : Node → Nodes → Nodes

-- The answers of the system, from the calls so far, the last one first.
pub record System : Type 0 where
  -- The order in which the workers of a layer take effect.
  pub schedule : List DirRecord → List DirRecord
  -- The `select` of a layer's loop takes the branch of the context that is done.
  pub is_done : List Call → Bool
  -- A worker that starts finds the context done.
  pub is_late : List Call → Bool
  -- `limiter.Wait` gives no error.
  pub may_go : List Call → Bool
  -- A call gives no error.
  pub succeeds : List Call → Call → Bool
  -- What is below the target folder.
  pub tree : List Call → Nodes
  -- `EvacuateUntracked`
  pub evacuate : List Call → Text → List Text → Option Text

pub record Progress : Type 0 where
  pub created : ℕ
  pub applied : ℕ
  pub warnings : List Warning
  pub calls : List Call

abbrev pub warn : Warning → Progress → Progress
warn w s = record s { warnings = s.warnings ++ (w ∷ []) }

abbrev pub call : Call → Progress → Progress
call c s = record s { calls = c ∷ s.calls }

abbrev pub mode_or : ℕ → Option ℕ → ℕ
mode_or m none = m
mode_or m (some n) = n

module _ (sys : System) (cfg : RestoreConfig) (clean_target : Text) where
  unfoldable pub apply_perms : Text → PlatformMeta → Progress → Progress
  apply_perms path m s =
      let made = call (apply_meta path m) s in
      if not cfg.apply_perms
      then s
      else if sys.succeeds s.calls (apply_meta path m)
      then record made { applied = suc made.applied }
      else warn (perm_failed path) made

  unfoldable pub create : Text → PlatformMeta → Progress → Progress
  unfolding apply_perms
  create path m s =
      let c = make_dir path (mode_or 493 m.mode) in
      let made = call c s in
      if sys.succeeds s.calls c
      then apply_perms path m (record made { created = suc made.created })
      else warn (mkdir_failed path) made

  -- A worker of the forward pass.
  unfoldable pub restore_dir : DirRecord → Progress → Progress
  unfolding create target_path leaves_target
  restore_dir rec s =
      let path = target_path clean_target rec.rel_path in
      if sys.is_late s.calls
      then s
      else if not (rec.rel_path == []) && leaves_target clean_target path
      then warn (escaping_path rec.rel_path) s
      else if sys.may_go s.calls
      then create path rec.metadata s
      else s

  unfoldable pub forward_layer : List DirRecord → Progress → Result Progress
  unfolding restore_dir
  forward_layer [] s = ok s
  forward_layer (rec ∷ recs) s =
      if sys.is_done s.calls then err canceled else forward_layer recs (restore_dir rec s)

  -- The layers from depth `d`, as many as `n`.
  unfoldable pub forward : ℕ → ℕ → List DirRecord → Progress → Result Progress
  unfolding forward_layer layer
  forward zero d recs s = ok s
  forward (suc n) d recs s = do
    t ← forward_layer (sys.schedule (layer d recs)) s
    forward n (suc d) recs t

  -- A worker of the reverse pass.
  unfoldable pub set_dir_times : DirRecord → Progress → Progress
  unfolding target_path leaves_target
  set_dir_times rec s =
      let path = target_path clean_target rec.rel_path in
      if sys.is_late s.calls
      then s
      else if not (rec.rel_path == []) && leaves_target clean_target path
      then s
      else call (time_call clean_target rec) s

  unfoldable pub reverse_layer : List DirRecord → Progress → Progress
  unfolding set_dir_times
  reverse_layer [] s = s
  reverse_layer (rec ∷ recs) s =
      if sys.is_done s.calls then s else reverse_layer recs (set_dir_times rec s)

  -- The layers below depth `n`, the deepest one first.
  unfoldable pub reverse_pass : ℕ → List DirRecord → Progress → Progress
  unfolding reverse_layer layer
  reverse_pass zero recs s = s
  reverse_pass (suc n) recs s = reverse_pass n recs (reverse_layer (sys.schedule (layer n recs)) s)

abbrev pub below : Text → Text → Text
below [] name = name
below (c ∷ dir) name = (c ∷ dir) ++ (b'/' ∷ name)

-- The untracked items below a directory: an untracked directory is not entered.
unfoldable mutual
  pub untracked : List Text → Text → Nodes → List Text
  untracked expected dir end = []
  untracked expected dir (also n ns) = untracked_node expected dir n ++ untracked expected dir ns

  pub untracked_node : List Text → Text → Node → List Text
  untracked_node expected dir (file name) = below dir name ∷ []
  untracked_node expected dir (directory name ns) =
      let inside = untracked expected (below dir name) ns in
      if contains expected (below dir name) then inside else below dir name ∷ []

abbrev archived : Option Text → Text × List Warning
archived (some archive) = (archive, [])
archived none = ([], evacuation_failed ∷ [])

-- Mirror evacuation: the archive and what it warns of.
unfoldable pub evacuation :
    System → RestoreConfig → Text → List DirRecord → Progress → Text × List Warning
unfolding untracked
evacuation sys cfg clean_target recs s =
    let items = untracked (map (λ rec. rec.rel_path) recs) [] (sys.tree s.calls) in
    if not (cfg.sync_type == codes "mirror") || cfg.archive_extra_folder == []
    then ([], [])
    else if length items == 0
    then ([], [])
    else archived (sys.evacuate s.calls cfg.archive_extra_folder items)

abbrev pub start : Progress
start = record { created = 0; applied = 0; warnings = []; calls = [] }

-- The result, and the calls that were made.
unfoldable pub restore :
    System → RestoreConfig → Result (List DirRecord) → Result (RestoreResult × List Call)
unfolding validate_and_clean_path parse_base_substitute collect max_depth forward evacuation
    reverse_pass
restore sys cfg snapshot = do
  clean_target ← validate_and_clean_path cfg.target_folder
  bases ← parse_base_substitute cfg.base_substitute
  read ← snapshot
  let recs = collect cfg clean_target bases read
  let layers = suc (max_depth recs)
  s ← forward sys cfg clean_target layers 0 recs start
  let (archive, warned) = evacuation sys cfg clean_target recs s
  let t = reverse_pass sys cfg clean_target layers recs s
  ok (
    record {
      created_folders = t.created;
      applied_perms = t.applied;
      evacuated_archive = archive;
      warnings = t.warnings ++ warned;
    },
    t.calls,
  )
