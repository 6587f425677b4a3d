-- ===== src/Model/Glob/Regex.antt =====
-- The regular expressions that `MatchGlob` compiles, and matching a whole text by derivatives. `.`
-- matches no newline, as in package regexp.
use dtreesync.Base.{
  Text, ℕ, Bool, true, false, not, ◌&&◌, ◌||◌, List, [], ◌∷◌, ◌==◌, nat_eq, if◌then◌else◌,
}

-- What one context of the loop writes.
pub data Token : Type 0 where
  -- `(?:/.*)?`, `(?:.*/)?` and `/(?:.*/)?`
  below some_dirs slash_dirs : Token
  -- `.*`, `[^/]*` and `[^/]`
  any_text any_name one_char : Token
  char : ℕ → Token

-- A character class, and the constructors of the syntax that occurs.
pub data Class : Type 0 where
  dot_class not_slash : Class
  only : ℕ → Class

pub data Regex : Type 0 where
  void empty : Regex
  one : Class → Regex
  cat alt : Regex → Regex → Regex
  star : Regex → Regex

abbrev pub in_class : Class → ℕ → Bool
in_class dot_class c = not (c == b'\n')
in_class not_slash c = not (c == b'/')
in_class (only x) c = c == x

abbrev pub optional : Regex → Regex
optional r = alt r empty

abbrev pub token_regex : Token → Regex
token_regex Token.below = optional (cat (one (only b'/')) (star (one dot_class)))
token_regex Token.some_dirs = optional (cat (star (one dot_class)) (one (only b'/')))
token_regex Token.slash_dirs =
    cat (one (only b'/')) (optional (cat (star (one dot_class)) (one (only b'/'))))
token_regex Token.any_text = star (one dot_class)
token_regex Token.any_name = star (one not_slash)
token_regex Token.one_char = one not_slash
token_regex (Token.char c) = one (only c)

abbrev pub tokens_regex : List Token → Regex
tokens_regex [] = empty
tokens_regex (t ∷ ts) = cat (token_regex t) (tokens_regex ts)

unfoldable pub nullable : Regex → Bool
nullable void = false
nullable empty = true
nullable (one _) = false
nullable (cat r s) = nullable r && nullable s
nullable (alt r s) = nullable r || nullable s
nullable (star r) = true

unfoldable pub derive : ℕ → Regex → Regex
unfolding nullable
derive c void = void
derive c empty = void
derive c (one k) = if in_class k c then empty else void
derive c (cat r s) =
    if nullable r then alt (cat (derive c r) s) (derive c s) else cat (derive c r) s
derive c (alt r s) = alt (derive c r) (derive c s)
derive c (star r) = cat (derive c r) (star r)

unfoldable pub accepts : Regex → Text → Bool
unfolding nullable derive
accepts r [] = nullable r
accepts r (c ∷ s) = accepts (derive c r) s

unfoldable pub regex_match : List Token → Text → Bool
unfolding accepts
regex_match ts s = accepts (tokens_regex ts) s
