-- ===== src/Samples/Mirrors.antt =====
-- internal/core/mirror.go on a directory with a file, and a path where nothing is.
use dtreesync.Base.{
  true, false, none, some, List, [], ◌∷◌, ◌≡◌, refl, All, if◌then◌else◌, ◌==◌, text_eq, nat_eq,
}
use dtreesync.Base.Strings.{codes, split, join, has_suffix}
use dtreesync.Base.GoPath.{clean, segments, clean_from, push, pop, join_path}
use dtreesync.Model.Types.{ok}
use dtreesync.Model.Path.{validate_and_clean_path}
use dtreesync.Core.Mirror.{
  FileInfo, Node, file, folder, end, also, regular, directory, header, body, Event, wrote, remove,
  System, entry_name, add_file_to_tar, evacuate_items, evacuate_untracked,
}
use dtreesync.Core.Mirror.Saved.{AllSaved, evacuate-AllSaved}
use dtreesync.Core.Mirror.Visits.{IsHandled, evacuate-Handled}

abbrev info : FileInfo
info = record { mode = 493; mod_time = 7 }

abbrev old : Node
old = folder info (also (codes "f") (file info (codes "text")) end)

abbrev sys : System
sys = record {
  is_done = λ _. false;
  lstat = λ _ p. if p == codes "/srv/old" then some old else none;
  can_stat = λ _. true;
  can_read = λ _. true;
  can_write = λ _. true;
  can_remove = λ _ _. true;
  can_create = true;
  can_close_tar = true;
  can_close_zstd = true;
  archive_name = codes "dtreesync_1.tar.zst";
}

abbrev events : List Event
events =
    wrote (header (record { name = codes "old/"; info = info; type_flag = directory }))
    ∷ wrote (header (record { name = codes "old/f"; info = info; type_flag = regular }))
    ∷ wrote (body (codes "text"))
    ∷ remove (codes "/srv/old") true
    ∷ []

valid : validate_and_clean_path (codes "/srv/") ≡ ok (codes "/srv")
unfolding validate_and_clean_path clean segments clean_from push pop split join text_eq nat_eq
valid = refl

evacuated :
    evacuate_untracked sys (codes "/srv/") (codes "/bin") (codes "old" ∷ codes "gone" ∷ [])
    ≡ (events, ok (codes "/bin/dtreesync_1.tar.zst"))
unfolding evacuate_untracked evacuate_items add_file_to_tar entry_name has_suffix join_path
    validate_and_clean_path clean segments clean_from push pop split join text_eq nat_eq
evacuated = refl

evacuate-AllSaved_example :
    AllSaved sys
      (codes "/srv")
      (codes "old" ∷ codes "gone" ∷ [])
      []
      (evacuate_untracked sys (codes "/srv/") (codes "/bin") (codes "old" ∷ codes "gone" ∷ [])).0
evacuate-AllSaved_example =
    evacuate-AllSaved sys (codes "/srv/") (codes "/bin") (codes "/srv")
      (codes "old" ∷ codes "gone" ∷ []) valid

evacuate-Handled_example :
    All (IsHandled sys (codes "/srv") events) (codes "old" ∷ codes "gone" ∷ [])
    × (sys.can_close_tar ≡ true)
    × (sys.can_close_zstd ≡ true)
evacuate-Handled_example =
    evacuate-Handled sys (codes "/srv/") (codes "/bin") (codes "/srv") (codes "old")
      (codes "/bin/dtreesync_1.tar.zst") (codes "gone" ∷ []) events valid evacuated
