-- ===== src/Model/Path.antt =====
-- internal/model/path.go, the checks of absolute and relative paths, as on a POSIX system
-- (`runtime.GOOS` is not "windows"). Errors are told apart by their sentinel, without the message.
pub mod Clean
pub mod Normal
pub mod Accepts
use dtreesync.Base.{
  Text, ℕ, Bool, true, false, not, ◌||◌, ◌&&◌, List, [], ◌∷◌, ◌==◌, text_eq, nat_eq, any, contains,
  length, if◌then◌else◌, map,
}
use dtreesync.Base.Strings.{
  codes, split, has_prefix, contains_text, has_char, replace_char, trim, is_slash, before, to_upper,
  trim_space, trim_prefix,
}
use dtreesync.Base.GoPath.{clean, dot, dot_dot, is_rooted}
use dtreesync.Model.Types.{
  Error, Result, ok, err, ◌>>=◌, invalid_path, relative_path_not_allowed, boundary_escaped,
}

-- The names of the DOS devices.
abbrev pub device_names : List Text
device_names = map codes (
    "CON" ∷ "PRN" ∷ "AUX" ∷ "NUL" ∷ "COM1" ∷ "COM2" ∷ "COM3" ∷ "COM4" ∷ "COM5" ∷ "COM6" ∷ "COM7"
    ∷ "COM8" ∷ "COM9" ∷ "LPT1" ∷ "LPT2" ∷ "LPT3" ∷ "LPT4" ∷ "LPT5" ∷ "LPT6" ∷ "LPT7" ∷ "LPT8"
    ∷ "LPT9" ∷ [])

unfoldable pub is_reserved_windows_device_name : Text → Bool
unfolding before
is_reserved_windows_device_name segment =
    contains device_names (to_upper (before (λ c. c == b'.') segment))

unfoldable pub validate_and_clean_path : Text → Result Text
unfolding clean
validate_and_clean_path p =
    if p == []
    then err invalid_path
    else if has_char 0 p
    then err invalid_path
    else if not (is_rooted p)
    then err relative_path_not_allowed
    else if not (is_rooted (clean p))
    then err relative_path_not_allowed
    else ok (clean p)

-- The test that a cleaned relative path leaves its root.
unfoldable pub escapes : Text → Bool
unfolding has_prefix contains_text
escapes cleaned =
    cleaned == dot_dot || has_prefix (codes "../") cleaned || contains_text (codes "/../") cleaned

unfoldable pub normalize_rel_path : Text → Result Text
unfolding trim clean escapes split is_reserved_windows_device_name
normalize_rel_path rel =
    let slashed = trim is_slash (replace_char b'\\' b'/' rel) in
    let cleaned = clean slashed in
    if rel == []
    then ok []
    else if has_char 0 rel
    then err invalid_path
    else if slashed == [] || slashed == dot
    then ok []
    else if escapes cleaned
    then err boundary_escaped
    else if any is_reserved_windows_device_name (split b'/' cleaned)
    then err invalid_path
    else ok cleaned

-- `filepath.Separator` is `/`, and letter case matters.
pair_bases : List Text → Result (Text × Text)
unfolding validate_and_clean_path trim_space
pair_bases (old ∷ new ∷ []) = do
  old_cleaned ← validate_and_clean_path (trim_space old)
  new_cleaned ← validate_and_clean_path (trim_space new)
  if old_cleaned == new_cleaned then err invalid_path else ok (old_cleaned, new_cleaned)
pair_bases _ = err invalid_path

unfoldable pub parse_base_substitute : Text → Result (Text × Text)
unfolding pair_bases split
parse_base_substitute sub = if sub == [] then ok ([], []) else pair_bases (split b',' sub)
