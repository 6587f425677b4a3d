-- ===== src/Core/Order.antt =====
-- internal/core/backup.go: the order in which a backup writes its records (`Backup`, step 3, and
-- `dirDepth`).
pub mod Parents
use dtreesync.Base.{
  Text, ℕ, suc, ◌+◌, Bool, List, [], ◌∷◌, ◌==◌, text_eq, nat_eq, leb, if◌then◌else◌, ◌||◌,
}
use dtreesync.Base.Strings.{codes, trim_space, to_lower, count_char}
use dtreesync.Base.GoPath.{clean, dot}
use dtreesync.Base.Order.{text_leb}
use dtreesync.Base.Sort.{sort}
use dtreesync.Model.Types.{DirRecord, Result, ok, err, bad_sort_order}

unfoldable pub dir_depth : Text → ℕ
unfolding clean
dir_depth p = if clean p == [] || clean p == dot then 0 else count_char b'/' (clean p) + 1

unfoldable pub path_leb : DirRecord → DirRecord → Bool
unfolding text_leb
path_leb a b = text_leb a.rel_path b.rel_path

unfoldable pub depth_leb : DirRecord → DirRecord → Bool
unfolding dir_depth text_leb
depth_leb a b =
    if dir_depth a.rel_path == dir_depth b.rel_path
    then text_leb a.rel_path b.rel_path
    else leb (dir_depth a.rel_path) (dir_depth b.rel_path)

-- The mode that the setting names: `path` if it is empty.
unfoldable pub sort_mode : Text → Text
unfolding trim_space
sort_mode order =
    let m = to_lower (trim_space order) in
    if m == [] || m == codes "canonical" then codes "path" else m

-- The mode, which goes into the header, and the records in the order of the payload.
unfoldable pub sort_records : Text → List DirRecord → Result (Text × List DirRecord)
unfolding sort_mode sort path_leb depth_leb
sort_records order recs =
    let mode = sort_mode order in
    if mode == codes "path"
    then ok (mode, sort path_leb recs)
    else if mode == codes "depth"
    then ok (mode, sort depth_leb recs)
    else if mode == codes "none"
    then ok (mode, recs)
    else err bad_sort_order
