-- ===== src/Base/GoPath.antt =====
-- The lexical functions of the standard packages path and path/filepath, on a POSIX system: `Clean`,
-- `Join`, `Rel`, `Base` and `Dir`, by the segments between the slashes. Only rooted paths are made
-- relative to one another.

use mathlib.Core.List.{reverse}
use dtreesync.Base.{
  Text, Bool, true, false, not, List, [], ◌∷◌, ◌++◌, ◌==◌, text_eq, nat_eq, if◌then◌else◌,
}
use dtreesync.Base.Strings.{codes, split, join}

abbrev pub dot : Text
dot = codes "."

abbrev pub dot_dot : Text
dot_dot = codes ".."

-- The segment `..` against the segments before it, the last one first.
unfoldable pub pop : Bool → List Text → List Text
pop true [] = []
pop false [] = dot_dot ∷ []
pop rooted (s ∷ stack) = if s == dot_dot then dot_dot ∷ s ∷ stack else stack

unfoldable pub push : Bool → Text → List Text → List Text
unfolding pop
push rooted s stack =
    if s == []
    then stack
    else if s == dot
    then stack
    else if s == dot_dot
    then pop rooted stack
    else s ∷ stack

unfoldable pub clean_from : Bool → List Text → List Text → List Text
unfolding push
clean_from rooted [] stack = stack
clean_from rooted (s ∷ segs) stack = clean_from rooted segs (push rooted s stack)

abbrev pub is_rooted : Text → Bool
is_rooted [] = false
is_rooted (c ∷ _) = c == b'/'

-- The segments of the cleaned path.
unfoldable pub segments : Text → List Text
unfolding clean_from split
segments p = reverse (clean_from (is_rooted p) (split b'/' p) [])

abbrev pub spell : Bool → List Text → Text
spell true segs = b'/' ∷ join b'/' segs
spell false [] = dot
spell false (s ∷ segs) = join b'/' (s ∷ segs)

-- `path.Clean` and `filepath.Clean`.
unfoldable pub clean : Text → Text
unfolding segments join
clean p = spell (is_rooted p) (segments p)

-- `filepath.Join` of two elements: empty ones are left out.
unfoldable pub join_path : Text → Text → Text
unfolding clean
join_path a b = if a == [] then (if b == [] then [] else clean b) else clean (a ++ (b'/' ∷ b))

-- `filepath.Base`: the last segment that is not empty.
abbrev last_name : Text → List Text → Text
last_name found [] = found
last_name found (s ∷ segs) = last_name (if s == [] then found else s) segs

unfoldable pub base : Text → Text
unfolding split
base p = if p == [] then dot else last_name (codes "/") (split b'/' p)

-- `filepath.Dir`: what comes before the last segment, cleaned.
abbrev up_to_slash : Text → Text
up_to_slash [] = []
up_to_slash (c ∷ s) =
    let rest = up_to_slash s in
    if not (rest == []) then c ∷ rest else if c == b'/' then c ∷ [] else []

unfoldable pub dir : Text → Text
unfolding clean
dir p = clean (up_to_slash p)

-- One `..` for each segment of the base that is left, then the target.
abbrev pub climb : List Text → List Text → List Text
climb [] targ = targ
climb (_ ∷ base) targ = dot_dot ∷ climb base targ

-- `filepath.Rel` of rooted paths: up from what is left of the base, then down.
unfoldable pub rel_segments : List Text → List Text → List Text
rel_segments [] targ = targ
rel_segments (b ∷ base) [] = climb (b ∷ base) []
rel_segments (b ∷ base) (t ∷ targ) =
    let down = rel_segments base targ in if b == t then down else climb (b ∷ base) (t ∷ targ)

unfoldable pub rel_path : Text → Text → Text
unfolding rel_segments segments join
rel_path base targ = spell false (rel_segments (segments base) (segments targ))
