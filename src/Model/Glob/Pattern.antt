-- ===== src/Model/Glob/Pattern.antt =====
-- The standard `path.Match`: a malformed pattern matches nothing, since its error is dropped.
use dtreesync.Base.{
  Text, ℕ, zero, suc, Bool, true, false, not, ◌&&◌, ◌||◌, Option, none, some, List, [], ◌∷◌, ◌==◌,
  nat_eq, leb, length, if◌then◌else◌,
}

-- The parts of a pattern. A class holds ranges.
pub data Item : Type 0 where
  star any_char : Item
  lit : ℕ → Item
  class : Bool → List (ℕ × ℕ) → Item

-- `getEsc`: one end of a range, and the pattern behind it, which may not be empty.
get_esc : Text → Option (ℕ × Text)
get_esc [] = none
get_esc (c ∷ []) = none
get_esc (c ∷ d ∷ s) =
    if c == b'-' || c == b']'
    then none
    else if c == b'\\'
    then (elim s [ [] ↦ none | x ∷ r ↦ some (d, x ∷ r) ])
    else some (c, d ∷ s)

abbrev end_range : ℕ → Option (ℕ × Text) → Option ((ℕ × ℕ) × Text)
end_range lo none = none
end_range lo (some (hi, rest)) = some ((lo, hi), rest)

-- One range, `lo` or `lo-hi`.
get_range : Option (ℕ × Text) → Option ((ℕ × ℕ) × Text)
unfolding get_esc
get_range none = none
get_range (some (lo, [])) = none
get_range (some (lo, c ∷ s)) =
    if c == b'-' then end_range lo (get_esc s) else some ((lo, lo), c ∷ s)

abbrev closes : Text → Bool
closes [] = false
closes (c ∷ _) = c == b']'

-- The ranges up to the closing bracket; `fuel` is at least the length of the pattern.
abbrev next_class :
    (Text → Option (List (ℕ × ℕ) × Text)) → Option ((ℕ × ℕ) × Text) → Option (List (ℕ × ℕ) × Text)
next_class more none = none
next_class more (some (range, rest)) = elim (more rest) [
  | none ↦ none
  | some (ranges, tail) ↦ some (range ∷ ranges, tail)
]

parse_class : ℕ → Bool → Text → Option (List (ℕ × ℕ) × Text)
unfolding get_range get_esc
parse_class zero first s = none
parse_class (suc fuel) first s =
    let more = next_class (parse_class fuel false) (get_range (get_esc s)) in
    if not first && closes s then some ([], elim s [ [] ↦ [] | _ ∷ r ↦ r ]) else more

abbrev cons_item : Item → Option (List Item) → Option (List Item)
cons_item i none = none
cons_item i (some items) = some (i ∷ items)

abbrev after_class :
    Bool → (Text → Option (List Item)) → Option (List (ℕ × ℕ) × Text) → Option (List Item)
after_class negated parse none = none
after_class negated parse (some (ranges, rest)) = cons_item (class negated ranges) (parse rest)

abbrev after_escape : (Text → Option (List Item)) → Text → Option (List Item)
after_escape parse [] = none
after_escape parse (c ∷ s) = cons_item (lit c) (parse s)

abbrev open_class : ℕ → (Text → Option (List Item)) → Text → Option (List Item)
open_class fuel parse [] = none
open_class fuel parse (c ∷ s) =
    if c == b'^'
    then after_class true parse (parse_class fuel true s)
    else after_class false parse (parse_class fuel true (c ∷ s))

unfoldable pub parse_items : ℕ → Text → Option (List Item)
unfolding parse_class
parse_items zero [] = some []
parse_items zero (c ∷ s) = none
parse_items (suc fuel) [] = some []
parse_items (suc fuel) (c ∷ s) =
    let wild = cons_item star (parse_items fuel s) in
    let one = cons_item any_char (parse_items fuel s) in
    let bracket = open_class (suc fuel) (parse_items fuel) s in
    let escape = after_escape (parse_items fuel) s in
    let literal = cons_item (lit c) (parse_items fuel s) in
    if c == b'*'
    then wild
    else if c == b'?'
    then one
    else if c == b'['
    then bracket
    else if c == b'\\'
    then escape
    else literal

in_ranges : List (ℕ × ℕ) → ℕ → Bool
in_ranges [] c = false
in_ranges ((lo, hi) ∷ rs) c = (leb lo c && leb c hi) || in_ranges rs c

unfoldable pub fits : Item → ℕ → Bool
unfolding in_ranges
fits star c = not (c == b'/')
fits any_char c = not (c == b'/')
fits (lit x) c = c == x
fits (class negated ranges) c = if negated then not (in_ranges ranges c) else in_ranges ranges c

-- The whole name against the items. `star` takes any characters but slashes.
abbrev take_star : (Text → Bool) → Text → Bool
take_star rest [] = rest []
take_star rest (c ∷ s) = rest (c ∷ s) || (not (c == b'/') && take_star rest s)

unfoldable pub match_items : List Item → Text → Bool
unfolding fits
match_items [] [] = true
match_items [] (c ∷ s) = false
match_items (star ∷ items) s = take_star (match_items items) s
match_items (any_char ∷ items) [] = false
match_items (any_char ∷ items) (c ∷ s) = fits any_char c && match_items items s
match_items (lit x ∷ items) [] = false
match_items (lit x ∷ items) (c ∷ s) = fits (lit x) c && match_items items s
match_items (class n r ∷ items) [] = false
match_items (class n r ∷ items) (c ∷ s) = fits (class n r) c && match_items items s

unfoldable pub path_match : Text → Text → Bool
unfolding parse_items match_items
path_match pattern name = elim (parse_items (length pattern) pattern) [
  | none ↦ false
  | some items ↦ match_items items name
]
