-- ===== src/Model/Glob.antt =====
-- internal/model/path.go, `MatchGlob`, with the standard `path.Match` and the regular expressions
-- that it writes. The matchers are in Model/Glob/Pattern and Model/Glob/Regex.
pub mod Pattern
pub mod Regex
use dtreesync.Base.{
  Text, ℕ, zero, suc, Bool, true, false, not, ◌&&◌, ◌||◌, Option, none, some, List, [], ◌∷◌, ◌++◌,
  ◌==◌, text_eq, nat_eq, length, drop, if◌then◌else◌,
}
use dtreesync.Base.Strings.{codes, has_prefix, contains_text, trim, is_slash, split}
use dtreesync.Model.Glob.Pattern.{path_match}
use dtreesync.Model.Glob.Regex.{Token, regex_match}

-- The last part of a trimmed path that is not empty: `path.Base`.
abbrev pub last_part : List Text → Text
last_part [] = []
last_part (p ∷ []) = p
last_part (p ∷ q ∷ ps) = last_part (q ∷ ps)

-- The loop that writes the regular expression; `fuel` is at least the length of the pattern left.
-- `at_start` is `i == 0`.
unfoldable pub write_regex : ℕ → Bool → Text → List Token
unfolding has_prefix
write_regex zero at_start pattern = []
write_regex (suc fuel) at_start [] = []
write_regex (suc fuel) at_start (c ∷ s) =
    let onward = λ (n : ℕ). write_regex fuel false (drop n (c ∷ s)) in
    let leading = Token.some_dirs ∷ onward 3 in
    let middle = Token.slash_dirs ∷ onward 4 in
    let double = Token.any_text ∷ onward 2 in
    let star = Token.any_name ∷ onward 1 in
    let one = Token.one_char ∷ onward 1 in
    let char = Token.char c ∷ onward 1 in
    if (c ∷ s) == codes "/**"
    then Token.below ∷ []
    else if at_start && has_prefix (codes "**/") (c ∷ s)
    then leading
    else if has_prefix (codes "/**/") (c ∷ s)
    then middle
    else if has_prefix (codes "**") (c ∷ s)
    then double
    else if c == b'*'
    then star
    else if c == b'?'
    then one
    else char

unfoldable pub match_glob : Text → Text → Bool
unfolding trim contains_text path_match write_regex regex_match split
match_glob pattern0 rel_path0 =
    let pattern = trim is_slash pattern0 in
    let rel_path = trim is_slash rel_path0 in
    if pattern == codes "**"
    then true
    else if pattern == [] || rel_path == []
    then pattern == rel_path
    else if not (contains_text (codes "**") pattern)
    then path_match pattern rel_path || path_match pattern (last_part (split b'/' rel_path))
    else regex_match (write_regex (length pattern) true pattern) rel_path
