-- ===== src/Model/Rebase.antt =====
-- internal/model/path.go, `RebasePath`, as on a POSIX system.
use dtreesync.Base.{Text, ◌||◌, not, [], ◌++◌, ◌==◌, text_eq, length, drop, if◌then◌else◌}
use dtreesync.Base.Strings.{codes, has_prefix, trim_prefix}
use dtreesync.Base.GoPath.{clean, join_path}

unfoldable pub rebase_path : Text → Text → Text → Text
unfolding clean has_prefix trim_prefix join_path
rebase_path target_path old_base new_base =
    let target = clean target_path in
    let old = clean old_base in
    let new = clean new_base in
    let rel = trim_prefix (codes "/") (drop (length old) target) in
    if old_base == [] || new_base == []
    then target_path
    else if not (target == old || has_prefix (old ++ codes "/") target)
    then target_path
    else if rel == []
    then new
    else join_path new rel
