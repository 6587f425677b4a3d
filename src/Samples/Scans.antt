-- ===== src/Samples/Scans.antt =====
-- internal/core/scanner.go at a small tree.
use mathlib.Core.List.{Perm}
use dtreesync.Base.{true, false, [], ◌∷◌, ◌≡◌, ◌≤◌, ◌↔◌, refl, text_eq, nat_eq}
use dtreesync.Base.Strings.{codes, trim, trim_left, trim_right, has_prefix, contains_text, split}
use dtreesync.Model.Types.{DirRecord, ScanOptions}
use dtreesync.Model.Glob.{match_glob, write_regex}
use dtreesync.Model.Glob.Regex.{regex_match, accepts, derive, nullable}
use dtreesync.Model.Glob.Pattern.{path_match, parse_items, match_items, fits}
use dtreesync.Core.Scanner.{
  folder, file, Entries, end, also, ScanTask, start, Run, read_subdirs, is_selected, is_excluded,
  is_traversable, is_match_include, record_of, sent_by, take, stop, step,
}
use dtreesync.Core.Scanner.Runs.{walk, Run-walk, scan}
use dtreesync.Core.Scanner.Steps.{reached, steps, steps_bounded}
use dtreesync.Samples.Records.{owned, top, sub}

abbrev opts : ScanOptions
opts = record { entity = []; include = []; exclude = codes "tmp" ∷ []; one_file_system = false }

abbrev inside : Entries
inside = also (folder (codes "b") true owned end) end

abbrev entries : Entries
entries =
    also (file (codes "f"))
      (also (folder (codes "tmp") true owned end) (also (folder (codes "a") true owned inside) end))

abbrev task_a : ScanTask
task_a = record { rel_path = codes "a"; metadata = owned; entries = inside }

abbrev task_b : ScanTask
task_b = record { rel_path = codes "a/b"; metadata = owned; entries = end }

abbrev in_a : DirRecord
in_a = record top { entity = codes "a" }

abbrev in_b : DirRecord
in_b = record sub { entity = codes "a" }

abbrev root : DirRecord
root = record { entity = []; rel_path = []; metadata = owned }

-- The file and the excluded directory are passed over.
finished : Run opts (start opts owned entries) (scan [] (in_b ∷ in_a ∷ root ∷ []))
unfolding start read_subdirs is_selected is_excluded is_traversable is_match_include record_of
    sent_by match_glob path_match parse_items match_items fits trim trim_left trim_right has_prefix
    contains_text split text_eq nat_eq
finished = step (take [] task_a [] refl) (step (take [] task_b [] refl) stop)

Run-walk_example : Perm (in_b ∷ in_a ∷ root ∷ []) (root ∷ walk opts [] entries)
Run-walk_example = Run-walk opts owned entries (scan [] (in_b ∷ in_a ∷ root ∷ [])) finished refl

steps_bounded_example :
    (steps finished ≤ reached opts [] entries)
    × (((scan [] (in_b ∷ in_a ∷ root ∷ [])).queue ≡ [])
        ↔ (steps finished ≡ reached opts [] entries))
steps_bounded_example =
    steps_bounded opts owned entries (scan [] (in_b ∷ in_a ∷ root ∷ [])) finished

abbrev logs : ScanOptions
logs = record { entity = []; include = codes "**/logs" ∷ []; exclude = []; one_file_system = false }

-- A directory that the pattern includes, below one that is not traversed.
missed_below :
    (is_match_include logs (codes "a/logs") ≡ true) × (is_traversable logs (codes "a") ≡ false)
unfolding is_match_include is_traversable match_glob write_regex regex_match accepts derive nullable
    trim trim_left trim_right has_prefix contains_text text_eq nat_eq
missed_below = (refl, refl)
