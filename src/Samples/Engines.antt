-- ===== src/Samples/Engines.antt =====
-- internal/core/restore.go, diff.go and signal.go at concrete snapshots and systems.
use mathlib.Core.List.{Perm}
use mathlib.Core.List.Perm
use dtreesync.Base.{
  Text, suc, true, false, none, List, [], ◌∷◌, ◌≡◌, ◌↔◌, refl, All, text_eq, nat_eq,
}
use dtreesync.Base.Int.{pos}
use dtreesync.Base.Strings.{codes, split, join, has_prefix, contains_text}
use dtreesync.Base.GoPath.{
  clean, segments, clean_from, push, pop, rel_path, rel_segments, join_path,
}
use dtreesync.Base.Order.{text_leb}
use dtreesync.Base.Sort.{sort, insert}
use dtreesync.Model.Types.{DirRecord, RestoreConfig, RestoreResult, DiffConfig, DiffResult, ok}
use dtreesync.Model.Path.{validate_and_clean_path, normalize_rel_path, parse_base_substitute}
use dtreesync.Model.Identity.{apply_to_platform_meta}
use dtreesync.Model.Filter.{matches}
use dtreesync.Core.Order.{path_leb}
use dtreesync.Core.Restore.{
  System, Call, make_dir, apply_meta, set_times, end, restore, collect, rebase_record, max_depth,
  depth, layer, target_path, leaves_target, apply_perms, create, restore_dir, forward_layer,
  forward, set_dir_times, reverse_layer, reverse_pass, untracked, evacuation, start,
}
use dtreesync.Core.Restore.Paths.{IsInside, path_of}
use dtreesync.Core.Restore.Calls.{restore-IsInside}
use dtreesync.Core.Restore.Passes.{forward_visits, Deepens}
use dtreesync.Core.Restore.Times.{TimesLast, restore-TimesLast}
use dtreesync.Core.Diff.{RecordMap, tally, diff}
use dtreesync.Core.Diff.Counts.{IsCounted, tally-IsCounted}
use dtreesync.Core.Diff.Aligned.{IsAligned, diff-IsAligned}
use dtreesync.Core.Signal.{
  Trap, armed, on_signal, signal, Reach, begin, next, IsTrapState, Reach-IsTrapState,
}
use dtreesync.Samples.Records.{root, top, sub, owned}

-- A system in which every call succeeds.
abbrev sys : System
sys = record {
  schedule = λ recs. recs;
  is_done = λ _. false;
  is_late = λ _. false;
  may_go = λ _. true;
  succeeds = λ _ _. true;
  tree = λ _. end;
  evacuate = λ _ _ _. none;
}

abbrev fair : (xs : List DirRecord) → Perm (sys.schedule xs) xs
fair xs = Perm.refl xs

abbrev cfg : RestoreConfig
cfg = record {
  target_folder = codes "/srv/";
  base_substitute = [];
  identity_map = none;
  entities = [];
  include = [];
  exclude = [];
  sync_type = codes "merge";
  archive_extra_folder = [];
  apply_perms = true;
  workers = pos 2;
}

abbrev calls : List Call
calls =
    set_times (codes "/srv") (pos 0) (pos 7) (pos 0)
    ∷ set_times (codes "/srv/a") (pos 0) (pos 7) (pos 0)
    ∷ apply_meta (codes "/srv/a") owned
    ∷ make_dir (codes "/srv/a") 488
    ∷ apply_meta (codes "/srv") owned
    ∷ make_dir (codes "/srv") 488
    ∷ []

abbrev result : RestoreResult
result = record { created_folders = 2; applied_perms = 2; evacuated_archive = []; warnings = [] }

valid : validate_and_clean_path (codes "/srv/") ≡ ok (codes "/srv")
unfolding validate_and_clean_path clean segments clean_from push pop split join text_eq nat_eq
valid = refl

restored : restore sys cfg (ok (top ∷ root ∷ [])) ≡ ok (result, calls)
unfolding restore collect rebase_record max_depth depth layer target_path leaves_target apply_perms
    create restore_dir forward_layer forward set_dir_times reverse_layer reverse_pass untracked
    evacuation validate_and_clean_path parse_base_substitute normalize_rel_path
    apply_to_platform_meta matches sort insert path_leb text_leb rel_path rel_segments join_path
    clean segments clean_from push pop split join has_prefix contains_text text_eq nat_eq
restored = refl

restore-IsInside_example : All (λ c. IsInside (codes "/srv") (path_of c)) calls
restore-IsInside_example =
    restore-IsInside sys cfg (ok (top ∷ root ∷ [])) (codes "/srv") result calls valid restored

restore-TimesLast_example : TimesLast (codes "/srv") calls
restore-TimesLast_example =
    restore-TimesLast sys cfg (ok (top ∷ root ∷ [])) (codes "/srv") result calls fair valid restored

forward_visits_example :
    (visits : List DirRecord) × (forward sys cfg
        (codes "/srv")
        (suc (max_depth (sub ∷ root ∷ [])))
        0
        (sub ∷ root ∷ [])
        start
      ≡ forward_layer sys cfg (codes "/srv") visits start)
    × Perm visits (sub ∷ root ∷ [])
    × Deepens visits
forward_visits_example = forward_visits sys fair cfg (codes "/srv") (sub ∷ root ∷ []) start

abbrev compare : DiffConfig
compare = record {
  live_folder = codes "/srv/";
  snapshot_url = codes "/backup/a.tsv";
  identity_map = none;
  entities = [];
  include = [];
  exclude = [];
  ignore_owner = false;
}

diff-IsAligned_example :
    ((result : DiffResult) × (diff compare (ok (top ∷ [])) (ok (root ∷ top ∷ [], []))
        ≡ ok (result, none)))
    ↔ IsAligned compare (top ∷ []) (root ∷ top ∷ []) []
diff-IsAligned_example = diff-IsAligned compare (codes "/srv") (top ∷ []) (root ∷ top ∷ []) [] valid

abbrev expected : RecordMap
expected = (codes "a", top) ∷ (codes "a/b", sub) ∷ []

abbrev found : RecordMap
found = ([], root) ∷ (codes "a", top) ∷ []

abbrev no_files : List Text
no_files = []

tally-IsCounted_example : IsCounted (tally false expected found (codes "a/f" ∷ []))
tally-IsCounted_example = tally-IsCounted false expected found (codes "a/f" ∷ [])

abbrev forced : Trap
forced = on_signal (on_signal armed)

twice : Reach true forced
unfolding on_signal nat_eq
twice = next (next begin (signal refl)) (signal refl)

Reach-IsTrapState_example : IsTrapState true forced
Reach-IsTrapState_example = Reach-IsTrapState true forced twice
