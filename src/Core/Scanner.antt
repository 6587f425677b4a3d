-- ===== src/Core/Scanner.antt =====
-- internal/core/scanner.go. The tree is what the system answers; a run is a sequence of tasks that the
-- workers take off the queue, in any order. A worker sends the record of its directory before it
-- passes its children on. Cancellation, the rate limiter, the audit log and `OnFile` are left out.
pub mod Runs
pub mod Steps
use dtreesync.Base.{
  Text, ℕ, Bool, true, false, not, ◌||◌, ◌&&◌, List, [], ◌∷◌, ◌++◌, ◌==◌, text_eq, nat_eq, any,
  length, if◌then◌else◌, ◌≡◌,
}
use dtreesync.Base.Strings.{codes, split, has_prefix, trim, is_slash}
use dtreesync.Model.Types.{DirRecord, PlatformMeta, ScanOptions}
use dtreesync.Model.Glob.{match_glob}

-- What a directory holds, as `ReadDir` lists it. Of a directory: whether it is on the device of the
-- root, its metadata, empty if they cannot be read, and its entries, none if it cannot be read.
mutual
  pub data Entry : Type 0 where
    file link : Text → Entry
    folder : Text → Bool → PlatformMeta → Entries → Entry

  pub data Entries : Type 0 where
    end : Entries
    also : Entry → Entries → Entries

unfoldable pub is_excluded : ScanOptions → Text → Bool
unfolding match_glob
is_excluded opts rel = any (λ pattern. match_glob pattern rel) opts.exclude

-- The path matches a pattern, or the text of a pattern goes on behind it.
unfoldable pub is_traversable : ScanOptions → Text → Bool
unfolding match_glob trim has_prefix
is_traversable opts rel =
    length opts.include == 0
    || any
        (λ pattern.
          match_glob pattern rel
          || has_prefix (rel ++ codes "/") (trim is_slash pattern)
          || has_prefix rel (trim is_slash pattern))
        opts.include

unfoldable pub is_match_include : ScanOptions → Text → Bool
unfolding match_glob
is_match_include opts rel =
    length opts.include == 0 || rel == [] || any (λ pattern. match_glob pattern rel) opts.include

abbrev pub child_path : Text → Text → Text
child_path [] name = name
child_path (c ∷ dir) name = (c ∷ dir) ++ (b'/' ∷ name)

-- The tests that a subdirectory passes to become a task.
unfoldable pub is_selected : ScanOptions → Text → Text → Bool → Bool
is_selected opts dir name same_device =
    not (dir == [] && not (opts.entity == []) && not (name == opts.entity))
    && not (is_excluded opts (child_path dir name))
    && is_traversable opts (child_path dir name)
    && not (opts.one_file_system && not same_device)

pub record ScanTask : Type 0 where
  pub rel_path : Text
  pub metadata : PlatformMeta
  pub entries : Entries

-- `readSubdirs`
unfoldable pub read_subdirs : ScanOptions → Text → Entries → List ScanTask
read_subdirs opts dir end = []
read_subdirs opts dir (also (file name) es) = read_subdirs opts dir es
read_subdirs opts dir (also (link name) es) = read_subdirs opts dir es
read_subdirs opts dir (also (folder name same_device m inside) es) =
    let rest = read_subdirs opts dir es in
    if is_selected opts dir name same_device
    then record { rel_path = child_path dir name; metadata = m; entries = inside } ∷ rest
    else rest

abbrev first_part : List Text → Text
first_part [] = []
first_part (p ∷ _) = p

-- The record of a directory; its entity is the first segment of its path.
unfoldable pub record_of : Text → PlatformMeta → DirRecord
unfolding split
record_of rel m = record { entity = first_part (split b'/' rel); rel_path = rel; metadata = m }

-- What `processTask` sends.
unfoldable pub sent_by : ScanOptions → Text → PlatformMeta → List DirRecord
sent_by opts rel m = if is_match_include opts rel then record_of rel m ∷ [] else []

-- The backlog, and the records that were sent, the last ones first.
pub record Scan : Type 0 where
  pub queue : List ScanTask
  pub sent : List DirRecord

-- A worker processes a task.
abbrev pub process : ScanOptions → ScanTask → List ScanTask → Scan → Scan
process opts task others s = record {
  queue = others ++ read_subdirs opts task.rel_path task.entries;
  sent = sent_by opts task.rel_path task.metadata ++ s.sent;
}

pub data Step (opts : ScanOptions) : Scan → Scan → Type 0 where
  take :
      {s : Scan} (before : List ScanTask) (task : ScanTask) (after : List ScanTask)
      → s.queue ≡ before ++ (task ∷ after)
      → Step opts s (process opts task (before ++ after) s)

-- `Stream` sends the root, whatever the patterns are, and starts with its subdirectories.
unfoldable pub start : ScanOptions → PlatformMeta → Entries → Scan
start opts m entries = record {
  queue = read_subdirs opts [] entries;
  sent = record { entity = []; rel_path = []; metadata = m } ∷ [];
}

pub data Run (opts : ScanOptions) : Scan → Scan → Type 0 where
  stop : {s : Scan} → Run opts s s
  step : {s t u : Scan} → Step opts s t → Run opts t u → Run opts s u
