-- ===== src/Format/Tsv/Field.antt =====
-- One column of a row: what is written, and what is read back.
use dtreesync.Base.{
  Text, ℕ, ◌^◌, ◌≤◌, ◌<◌, false, Option, none, some, [], ◌∷◌, ◌≡◌, ◌≢◌, refl, ◌==◌, text_eq, nat_eq,
  ==_of_ne, All, Bool-cases, inl, inr, arith,
}
use mathlib.Core.List.{cons-ne-nil}
use mathlib.Core.Path.{ap₂}
use dtreesync.Base.Int.{ℤ}
use dtreesync.Base.Strings.{replace_char, trim_space, is_space}
use dtreesync.Base.Strings.Parts.{Lacks}
use dtreesync.Base.Strings.Trim.{trim_space_id}
use dtreesync.Base.Decimal.{format_uint, format_mode, format_int, parse_uint}
use dtreesync.Base.Decimal.RoundTrip.{
  IsNumberChar, IsInt64, parse_uint-format_uint, parse_uint-format_mode, parse_int64-format_int,
  format_uint-ne-dash, format_mode-ne-dash, format_int-ne-dash, format_uint-chars,
  format_mode-chars, format_int-chars,
}
use dtreesync.Format.Tsv.{
  tsv_null_value, sanitize_tsv_field, unnull, format_optional, parse_optional, parse_time,
}

-- The characters that would end a column or a row.
abbrev pub StaysInCell : ℕ → Type 0
StaysInCell c = (c ≢ b'\t') × (c ≢ b'\n')

-- A field that a row holds exactly: no space at its ends, no tab or newline, and not the null value.
abbrev pub IsClean : Text → Type 0
IsClean t = (trim_space t ≡ t) × All StaysInCell t × (t ≢ tsv_null_value)

replaced-stays : (t : Text) → All StaysInCell (replace_char b'\n' b' ' (replace_char b'\t' b' ' t))
replaced-stays [] = tt
replaced-stays (c ∷ t) = (ground arith, replaced-stays t)

-- No column holds a tab or a newline, whatever the field is.
pub sanitize-stays : (t : Text) → All StaysInCell (sanitize_tsv_field t)
unfolding sanitize_tsv_field
sanitize-stays t = elim (Bool-cases (t == [])) [
  | inl e ↦ rw e (omega arith)
  | inr e ↦ rw e (replaced-stays t)
]

replaced_id :
    (t : Text) → All StaysInCell t → replace_char b'\n' b' ' (replace_char b'\t' b' ' t) ≡ t
replaced_id [] _ = refl
replaced_id (c ∷ t) ((a, b), h) =
    ap₂ ◌∷◌ (rw (==_of_ne c b'\t' a, ==_of_ne c b'\n' b)) (replaced_id t h)

pub sanitize_clean : (c : ℕ) (t : Text) → IsClean (c ∷ t) → sanitize_tsv_field (c ∷ t) ≡ c ∷ t
unfolding sanitize_tsv_field
sanitize_clean c t (_, h, _) = rw (==_of_ne (c ∷ t) [] (cons-ne-nil c t)) (replaced_id (c ∷ t) h)

unnull_id : (t : Text) → trim_space t ≡ t → t ≢ tsv_null_value → unnull t ≡ t
unfolding unnull
unnull_id t e h = rw (e, ==_of_ne t tsv_null_value h)

pub unnull_null : unnull tsv_null_value ≡ []
unfolding unnull text_eq nat_eq
unnull_null = refl

pub sanitize-nil : sanitize_tsv_field [] ≡ tsv_null_value
unfolding sanitize_tsv_field text_eq
sanitize-nil = refl

-- A clean field is read back as it was.
pub unnull-sanitize : (t : Text) → IsClean t → unnull (sanitize_tsv_field t) ≡ t
unnull-sanitize [] _ = rw sanitize-nil unnull_null
unnull-sanitize (c ∷ t) h = rw (sanitize_clean c t h) (unnull_id (c ∷ t) h.0 h.2)

printable-no_space : (c : ℕ) → 33 ≤ c → c < 127 → is_space c ≡ false
unfolding is_space
printable-no_space c a b = ground arith

pub number-no_space : (s : Text) → All IsNumberChar s → All (λ c. is_space c ≡ false) s
number-no_space [] _ = tt
number-no_space (c ∷ s) (h, hs) =
    (printable-no_space c (omega arith) (omega arith), number-no_space s hs)

number-stays : (s : Text) → All IsNumberChar s → All StaysInCell s
number-stays [] _ = tt
number-stays (c ∷ s) (h, hs) = ((omega arith, omega arith), number-stays s hs)

unnull-number : (s : Text) → All IsNumberChar s → s ≢ tsv_null_value → unnull s ≡ s
unnull-number s h ne = unnull_id s (trim_space_id s (number-no_space s h)) ne

-- An optional number of 32 bits.
abbrev pub IsUint32 : Option ℕ → Type 0
IsUint32 none = Unit
IsUint32 (some n) = n < 2 ^ 32

parse_null : (base : ℕ) → parse_optional base tsv_null_value ≡ none
parse_null base = rw unnull_null (unfold parse_uint in refl)

pub parse-format_uint :
    (o : Option ℕ) → IsUint32 o → parse_optional 10 (format_optional (format_uint 10) o) ≡ o
parse-format_uint none _ = parse_null 10
parse-format_uint (some n) h =
    rw
      (unnull-number (format_uint 10 n) (format_uint-chars 10 n (omega arith) (omega arith))
        (format_uint-ne-dash 10 n (omega arith) (omega arith)))
      (parse_uint-format_uint 10 32 n (omega arith) h)

pub parse-format_mode :
    (o : Option ℕ) → IsUint32 o → parse_optional 8 (format_optional format_mode o) ≡ o
parse-format_mode none _ = parse_null 8
parse-format_mode (some n) h =
    rw (unnull-number (format_mode n) (format_mode-chars n) (format_mode-ne-dash n))
      (parse_uint-format_mode n h)

pub parse-format_time : (z : ℤ) → IsInt64 z → parse_time (format_int z) ≡ z
parse-format_time z h = rw (
  unnull-number (format_int z) (format_int-chars z) (format_int-ne-dash z),
  parse_int64-format_int z h,
)

pub format_uint-stays : (o : Option ℕ) → All StaysInCell (format_optional (format_uint 10) o)
format_uint-stays none = omega arith
format_uint-stays (some n) = number-stays _ (format_uint-chars 10 n (omega arith) (omega arith))

pub format_mode-stays : (o : Option ℕ) → All StaysInCell (format_optional format_mode o)
format_mode-stays none = omega arith
format_mode-stays (some n) = number-stays _ (format_mode-chars n)

pub format_int-stays : (z : ℤ) → All StaysInCell (format_int z)
format_int-stays z = number-stays _ (format_int-chars z)

pub Lacks-tab : (t : Text) → All StaysInCell t → Lacks b'\t' t
Lacks-tab [] _ = tt
Lacks-tab (c ∷ t) ((h, _), hs) = (h, Lacks-tab t hs)
