-- ===== src/Base/Strings.antt =====
-- The functions of the standard packages strings and strconv that the program calls, on texts as
-- lists of code points. Proofs about cutting and joining are in Base/Strings/Parts, about trimming in
-- Base/Strings/Trim.
pub mod Parts
pub mod Trim
use Prim.Native.Nat.{ℕ, zero, suc, ◌+◌, ◌-◌, ◌≤◌}
use Prim.Native.Char.{code}
use Prim.Native.String.{String}
use mathlib.Core.Bool.{Bool, true, false, not, ◌&&◌, ◌||◌}
use mathlib.Core.Option.{Option, none, some}
use mathlib.Core.List.{List, [], ◌∷◌, ◌++◌, map, reverse, foldl}
use dtreesync.Base.Tests.{ltb, leb, if◌then◌else◌}
use dtreesync.Base.Equality.{Text, ◌==◌, nat_eq, text_eq}
use dtreesync.Base.Lists.{length, any}

-- The code points of a literal.
abbrev pub codes : String → Text
codes String.[] = []
codes (String.◌∷◌ c s) = code c ∷ codes s

-- `strings.HasPrefix`, the prefix first.
unfoldable pub has_prefix : Text → Text → Bool
has_prefix [] s = true
has_prefix (p ∷ ps) [] = false
has_prefix (p ∷ ps) (c ∷ s) = p == c && has_prefix ps s

-- `strings.TrimPrefix`: what follows the prefix, or the text.
abbrev pub strip : Text → Text → Text
strip [] t = t
strip (_ ∷ ps) [] = []
strip (_ ∷ ps) (_ ∷ t) = strip ps t

unfoldable pub trim_prefix : Text → Text → Text
unfolding has_prefix
trim_prefix p s = if has_prefix p s then strip p s else s

-- `strings.HasSuffix`, the suffix first.
unfoldable pub has_suffix : Text → Text → Bool
has_suffix suf [] = suf == []
has_suffix suf (c ∷ s) = suf == (c ∷ s) || has_suffix suf s

-- `strings.TrimSuffix`.
unfoldable pub trim_suffix : Text → Text → Text
trim_suffix suf [] = []
trim_suffix suf (c ∷ s) = let rest = c ∷ trim_suffix suf s in if suf == (c ∷ s) then [] else rest

-- `strings.Contains`.
unfoldable pub contains_text : Text → Text → Bool
unfolding has_prefix
contains_text t [] = has_prefix t []
contains_text t (c ∷ s) = has_prefix t (c ∷ s) || contains_text t s

-- `strings.ContainsRune` and `strings.IndexByte(…) != -1`.
abbrev pub has_char : ℕ → Text → Bool
has_char c [] = false
has_char c (x ∷ s) = x == c || has_char c s

-- `strings.Count` of one character.
abbrev pub count_char : ℕ → Text → ℕ
count_char c [] = 0
count_char c (x ∷ s) = (if x == c then 1 else 0) + count_char c s

-- `strings.Split` at one character.
abbrev pub cons_head : ℕ → List Text → List Text
cons_head c [] = (c ∷ []) ∷ []
cons_head c (p ∷ ps) = (c ∷ p) ∷ ps

unfoldable pub split : ℕ → Text → List Text
split sep [] = [] ∷ []
split sep (c ∷ s) = let rest = split sep s in if c == sep then [] ∷ rest else cons_head c rest

-- `strings.Join` with one character.
unfoldable pub join : ℕ → List Text → Text
join sep [] = []
join sep (p ∷ []) = p
join sep (p ∷ q ∷ ps) = p ++ (sep ∷ join sep (q ∷ ps))

-- `strings.ReplaceAll` of one character by another.
abbrev pub replace_char : ℕ → ℕ → Text → Text
replace_char old new = map (λ c. if c == old then new else c)

-- `strings.ReplaceAll`. `skip` is what is left of an occurrence; an empty `old` is found at every
-- position.
replace_from : Text → Text → ℕ → Text → Text
unfolding has_prefix
replace_from old new skip [] = []
replace_from old new (suc skip) (c ∷ s) = replace_from old new skip s
replace_from old new zero (c ∷ s) =
    let copy = c ∷ replace_from old new 0 s in
    let found = new ++ replace_from old new (length old - 1) s in
    if has_prefix old (c ∷ s) then found else copy

intersperse_all : Text → Text → Text
intersperse_all new [] = new
intersperse_all new (c ∷ s) = new ++ (c ∷ intersperse_all new s)

unfoldable pub replace_all : Text → Text → Text → Text
unfolding replace_from intersperse_all
replace_all [] new s = intersperse_all new s
replace_all (o ∷ old) new s = replace_from (o ∷ old) new 0 s

-- `unicode.IsSpace`.
unfoldable pub is_space : ℕ → Bool
is_space c =
    (leb 9 c && leb c 13)
    || c == 32
    || c == 0x85
    || c == 0xa0
    || c == 0x1680
    || (leb 0x2000 c && leb c 0x200a)
    || c == 0x2028
    || c == 0x2029
    || c == 0x202f
    || c == 0x205f
    || c == 0x3000

-- `strings.TrimLeftFunc` and `strings.TrimRightFunc`.
unfoldable pub trim_left : (ℕ → Bool) → Text → Text
trim_left p [] = []
trim_left p (c ∷ s) = let rest = trim_left p s in if p c then rest else c ∷ s

abbrev pub glue_right : (ℕ → Bool) → ℕ → Text → Text
glue_right p c [] = if p c then [] else c ∷ []
glue_right p c (x ∷ s) = c ∷ x ∷ s

unfoldable pub trim_right : (ℕ → Bool) → Text → Text
trim_right p [] = []
trim_right p (c ∷ s) = glue_right p c (trim_right p s)

unfoldable pub trim : (ℕ → Bool) → Text → Text
unfolding trim_left trim_right
trim p s = trim_right p (trim_left p s)

-- `strings.TrimSpace` and `strings.Trim(s, "/")`.
unfoldable pub trim_space : Text → Text
unfolding trim is_space
trim_space = trim is_space

abbrev pub is_slash : ℕ → Bool
is_slash c = c == b'/'

-- `strings.ToUpper` and `strings.ToLower` on ASCII, and the two letters outside it whose lower case
-- is in ASCII. No test of the program looks at another letter.
abbrev pub upper_char : ℕ → ℕ
upper_char c = if leb b'a' c && leb c b'z' then c - 32 else c

abbrev pub lower_char : ℕ → ℕ
lower_char c =
    if leb b'A' c && leb c b'Z'
    then c + 32
    else if c == 0x130
    then b'i'
    else if c == 0x212a
    then b'k'
    else c

abbrev pub to_upper : Text → Text
to_upper = map upper_char

abbrev pub to_lower : Text → Text
to_lower = map lower_char

-- The text before the first character that passes the test.
unfoldable pub before : (ℕ → Bool) → Text → Text
before p [] = []
before p (c ∷ s) = let rest = c ∷ before p s in if p c then [] else rest

-- `len(s)`: the bytes of the UTF-8 form.
abbrev pub char_size : ℕ → ℕ
char_size c = if ltb c 0x80 then 1 else if ltb c 0x800 then 2 else if ltb c 0x10000 then 3 else 4

abbrev pub byte_length : Text → ℕ
byte_length [] = 0
byte_length (c ∷ s) = char_size c + byte_length s
