-- ===== src/Samples/Paths.antt =====
-- internal/model/path.go at concrete paths.
use dtreesync.Base.{[], ◌≡◌, refl, ◌⊎◌, All, ◌==◌, if◌then◌else◌, text_eq, nat_eq}
use dtreesync.Base.Strings.{
  codes, split, join, has_prefix, contains_text, trim, before, trim_left, trim_right,
}
use dtreesync.Base.GoPath.{dot, clean, segments, clean_from, push, pop}
use dtreesync.Model.Types.{ok}
use dtreesync.Model.Path.{normalize_rel_path, escapes, is_reserved_windows_device_name}
use dtreesync.Model.Path.Normal.{IsSafeSegment}
use dtreesync.Model.Path.Accepts.{normalize_rel_path-IsSafe, normalize_rel_path_again}

normal : normalize_rel_path (codes "a//x/../b") ≡ ok (codes "a/b")
unfolding normalize_rel_path trim trim_left trim_right clean segments clean_from push pop split join
    escapes has_prefix contains_text is_reserved_windows_device_name before text_eq nat_eq
normal = refl

normalize_rel_path-IsSafe_example :
    (codes "a/b" ≡ []) ⊎ (codes "a/b" ≡ dot) ⊎ All IsSafeSegment (split b'/' (codes "a/b"))
normalize_rel_path-IsSafe_example = normalize_rel_path-IsSafe (codes "a//x/../b") normal

-- `a/..` gives `.`.
up : normalize_rel_path (codes "a/..") ≡ ok dot
unfolding normalize_rel_path trim trim_left trim_right clean segments clean_from push pop split join
    escapes has_prefix contains_text is_reserved_windows_device_name before text_eq nat_eq
up = refl

normalize_rel_path_again_example : normalize_rel_path dot ≡ ok (if dot == dot then [] else dot)
normalize_rel_path_again_example = normalize_rel_path_again (codes "a/..") up
