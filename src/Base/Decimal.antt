-- ===== src/Base/Decimal.antt =====
-- `strconv.FormatUint`, `FormatInt`, `ParseUint` and `ParseInt` in bases up to ten, and the verb
-- `%04o` of package fmt.
pub mod RoundTrip
use dtreesync.Base.{
  Text, ℕ, zero, suc, ◌+◌, ◌-◌, ◌*◌, ◌/◌, ◌%◌, ◌^◌, Bool, ◌&&◌, Option, none, some, [], ◌∷◌, ◌++◌,
  ◌==◌, nat_eq, text_eq, ltb, leb, length, if◌then◌else◌,
}
use dtreesync.Base.Int.{ℤ, pos, negsuc}

-- One digit for each division by the base; `fuel` above the number is enough.
unfoldable pub digits : ℕ → ℕ → ℕ → Text
digits zero base n = []
digits (suc fuel) base n =
    let more = digits fuel base (n / base) ++ ((b'0' + n % base) ∷ []) in
    if ltb n base then (b'0' + n) ∷ [] else more

unfoldable pub format_uint : ℕ → ℕ → Text
unfolding digits
format_uint base n = digits (suc n) base n

abbrev pub zeros : ℕ → Text → Text
zeros zero s = s
zeros (suc k) s = b'0' ∷ zeros k s

-- `%04o`
unfoldable pub format_mode : ℕ → Text
unfolding format_uint
format_mode n = zeros (4 - length (format_uint 8 n)) (format_uint 8 n)

unfoldable pub format_int : ℤ → Text
unfolding format_uint
format_int (pos n) = format_uint 10 n
format_int (negsuc n) = b'-' ∷ format_uint 10 (suc n)

unfoldable pub scan : ℕ → Text → ℕ → Option ℕ
scan base [] n = some n
scan base (c ∷ s) n =
    let rest = scan base s (n * base + (c - b'0')) in
    if leb b'0' c && ltb c (b'0' + base) then rest else none

abbrev pub in_range : ℕ → Option ℕ → Option ℕ
in_range limit none = none
in_range limit (some n) = if ltb n limit then some n else none

-- `ParseUint(s, base, bits)`; `none` is an error of syntax or range.
unfoldable pub parse_uint : ℕ → ℕ → Text → Option ℕ
unfolding scan
parse_uint base bits [] = none
parse_uint base bits (c ∷ s) = in_range (2 ^ bits) (scan base (c ∷ s) 0)

abbrev negate : Option ℕ → Option ℤ
negate none = none
negate (some zero) = some (pos 0)
negate (some (suc n)) = some (negsuc n)

abbrev positive : Option ℕ → Option ℤ
positive none = none
positive (some n) = some (pos n)

unsigned : Text → Option ℕ
unfolding scan
unsigned [] = none
unsigned (c ∷ s) = scan 10 (c ∷ s) 0

-- `ParseInt(s, 10, 64)`
unfoldable pub parse_int64 : Text → Option ℤ
unfolding unsigned
parse_int64 [] = none
parse_int64 (c ∷ s) =
    if c == b'-'
    then negate (in_range (2 ^ 63 + 1) (unsigned s))
    else if c == b'+'
    then positive (in_range (2 ^ 63) (unsigned s))
    else positive (in_range (2 ^ 63) (unsigned (c ∷ s)))
