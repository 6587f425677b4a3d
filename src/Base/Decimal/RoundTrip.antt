-- ===== src/Base/Decimal/RoundTrip.antt =====
-- A number that is written is read back.
use native.Mathlib.Nat.{div-add-mod', mod-lt, div-lt_self}
use mathlib.Core.List.{cons-ne-nil, concat-ne-nil}
use dtreesync.Base.{
  Text, ℕ, zero, suc, ◌+◌, ◌-◌, ◌*◌, ◌/◌, ◌%◌, ◌^◌, ◌≤◌, ◌<◌, some, [], ◌∷◌, ◌++◌, ◌≡◌, ◌≢◌, refl,
  ap, ◌∙◌, arith, ltb, All, All-append, Bool-cases, inl, inr, nat_eq, ==_of_ne, eq_refl, ◌⊎◌,
}
use dtreesync.Base.Int.{ℤ, pos, negsuc}
use dtreesync.Base.Decimal.{
  digits, format_uint, format_mode, zeros, format_int, scan, in_range, parse_uint, parse_int64,
  unsigned,
}

abbrev pub IsDigit : ℕ → Type 0
IsDigit c = (b'0' ≤ c) × (c ≤ b'9')

-- The digit that is added at the end.
scan-append :
    (base : ℕ) (s : Text) (d n m : ℕ)
    → scan base s n ≡ some m
    → d < base
    → scan base (s ++ ((b'0' + d) ∷ [])) n ≡ some (m * base + d)
unfolding scan
scan-append base [] d n m h lt = ground arith
scan-append base (c ∷ s) d n m h lt = ground (arith, scan-append base s d (n * base + (c - b'0')) m)

shrinks : (base n : ℕ) {fuel : ℕ} → 2 ≤ base → n < suc fuel → base ≤ n → n / base < fuel
shrinks base n two h k =
    let less = div-lt_self {n = n} {k = base} (omega arith) (omega arith) in omega arith

scan-digits : (base fuel n : ℕ) → 2 ≤ base → n < fuel → scan base (digits fuel base n) 0 ≡ some n
unfolding digits
scan-digits base zero n two h = absurd (omega arith)
scan-digits base (suc fuel) n two h = elim (Bool-cases (ltb n base)) [
  | inl e ↦ rw e (unfold scan in ground arith)
  | inr e ↦ rw e (
      scan-append base (digits fuel base (n / base)) (n % base) 0 (n / base)
        (scan-digits base fuel (n / base) two (shrinks base n two h (ground arith)))
        (mod-lt n (omega arith))
      ∙ ap some (div-add-mod' n base))
]

digits-IsDigit : (base fuel n : ℕ) → 0 < base → base ≤ 10 → All IsDigit (digits fuel base n)
unfolding digits
digits-IsDigit base zero n h k = tt
digits-IsDigit base (suc fuel) n h k = elim (Bool-cases (ltb n base)) [
  | inl e ↦ rw e (ground arith)
  | inr e ↦ rw e (
      All-append IsDigit (digits fuel base (n / base)) _ (digits-IsDigit base fuel (n / base) h k)
        (ground (arith, mod-lt n h)))
]

digits-ne-nil : (base fuel n : ℕ) → digits (suc fuel) base n ≢ []
unfolding digits
digits-ne-nil base fuel n = elim (Bool-cases (ltb n base)) [
  | inl e ↦ rw e (cons-ne-nil _ _)
  | inr e ↦ rw e (concat-ne-nil _ _)
]

parse_uint-scan :
    (base bits : ℕ) (s : Text)
    → s ≢ []
    → parse_uint base bits s ≡ in_range (2 ^ bits) (scan base s 0)
unfolding parse_uint
parse_uint-scan base bits [] h = absurd (h refl)
parse_uint-scan base bits (c ∷ s) _ = refl

-- A number below the limit is read back from its digits, in every base from two to ten.
pub parse_uint-format_uint :
    (base bits n : ℕ) → 2 ≤ base → n < 2 ^ bits → parse_uint base bits (format_uint base n) ≡ some n
unfolding format_uint
parse_uint-format_uint base bits n two h =
    rw
      (
        parse_uint-scan base bits _ (digits-ne-nil base n n),
        scan-digits base (suc n) n two (omega arith),
      )
      (ground arith)

scan-zeros : (k : ℕ) (s : Text) → scan 8 (zeros k s) 0 ≡ scan 8 s 0
unfolding scan
scan-zeros zero s = refl
scan-zeros (suc k) s = scan-zeros k s

zeros-ne-nil : (k : ℕ) (s : Text) → s ≢ [] → zeros k s ≢ []
zeros-ne-nil zero s h = h
zeros-ne-nil (suc k) s h = cons-ne-nil _ _

pub format_mode-ne-nil : (n : ℕ) → format_mode n ≢ []
unfolding format_mode format_uint
format_mode-ne-nil n = zeros-ne-nil _ _ (digits-ne-nil 8 n n)

pub parse_uint-format_mode : (n : ℕ) → n < 2 ^ 32 → parse_uint 8 32 (format_mode n) ≡ some n
parse_uint-format_mode n h = rw (parse_uint-scan 8 32 _ (format_mode-ne-nil n)) (
    unfold format_mode format_uint in
    rw (scan-zeros _ _, scan-digits 8 (suc n) n (omega arith) (omega arith)) (ground arith))

unsigned-scan : (s : Text) → s ≢ [] → unsigned s ≡ scan 10 s 0
unfolding unsigned
unsigned-scan [] h = absurd (h refl)
unsigned-scan (c ∷ s) _ = refl

unsigned-format_uint : (n : ℕ) → unsigned (format_uint 10 n) ≡ some n
unfolding format_uint
unsigned-format_uint n =
    unsigned-scan _ (digits-ne-nil 10 n n) ∙ scan-digits 10 (suc n) n (omega arith) (omega arith)

-- A text that starts with a digit has no sign.
parse_digits :
    (s : Text) (n : ℕ)
    → All IsDigit s
    → unsigned s ≡ some n
    → n < 2 ^ 63
    → parse_int64 s ≡ some (pos n)
unfolding parse_int64 unsigned
parse_digits [] n h e _ = cc e
parse_digits (c ∷ s) n (h, _) e lt =
    rw (==_of_ne c b'-' (omega arith), ==_of_ne c b'+' (omega arith), e) (ground arith)

-- The integers of 64 bits.
abbrev pub IsInt64 : ℤ → Type 0
IsInt64 (pos n) = n < 2 ^ 63
IsInt64 (negsuc n) = n < 2 ^ 63

pub parse_int64-format_int : (z : ℤ) → IsInt64 z → parse_int64 (format_int z) ≡ some z
unfolding format_int
parse_int64-format_int (pos n) h =
    parse_digits _ n (unfold format_uint in digits-IsDigit 10 (suc n) n (omega arith) (omega arith))
      (unsigned-format_uint n) h
parse_int64-format_int (negsuc n) h =
    unfold parse_int64 in rw (eq_refl, unsigned-format_uint (suc n)) (ground arith)

-- The characters of a printed number: digits, behind a sign.
abbrev pub IsNumberChar : ℕ → Type 0
IsNumberChar c = (c ≡ b'-') ⊎ IsDigit c

number_chars : (s : Text) → All IsDigit s → All IsNumberChar s
number_chars [] _ = tt
number_chars (c ∷ s) (h, hs) = (inr h, number_chars s hs)

pub format_uint-chars : (base n : ℕ) → 0 < base → base ≤ 10 → All IsNumberChar (format_uint base n)
unfolding format_uint
format_uint-chars base n h k = number_chars _ (digits-IsDigit base (suc n) n h k)

zeros-chars : (k : ℕ) (s : Text) → All IsNumberChar s → All IsNumberChar (zeros k s)
zeros-chars zero s h = h
zeros-chars (suc k) s h = (inr (omega arith, omega arith), zeros-chars k s h)

pub format_mode-chars : (n : ℕ) → All IsNumberChar (format_mode n)
unfolding format_mode
format_mode-chars n = zeros-chars _ _ (format_uint-chars 8 n (omega arith) (omega arith))

pub format_int-chars : (z : ℤ) → All IsNumberChar (format_int z)
unfolding format_int
format_int-chars (pos n) = format_uint-chars 10 n (omega arith) (omega arith)
format_int-chars (negsuc n) = (inl refl, format_uint-chars 10 (suc n) (omega arith) (omega arith))

pub format_uint-ne-nil : (base n : ℕ) → format_uint base n ≢ []
unfolding format_uint
format_uint-ne-nil base n = digits-ne-nil base n n

pub format_int-ne-nil : (z : ℤ) → format_int z ≢ []
unfolding format_int
format_int-ne-nil (pos n) = format_uint-ne-nil 10 n
format_int-ne-nil (negsuc n) = cons-ne-nil _ _

digit-ne-dash : (s : Text) → All IsDigit s → s ≢ b'-' ∷ []
digit-ne-dash [] _ = ground arith
digit-ne-dash (c ∷ s) (h, _) = ground arith

pub format_uint-ne-dash : (base n : ℕ) → 0 < base → base ≤ 10 → format_uint base n ≢ b'-' ∷ []
unfolding format_uint
format_uint-ne-dash base n h k = digit-ne-dash _ (digits-IsDigit base (suc n) n h k)

zeros-IsDigit : (k : ℕ) (s : Text) → All IsDigit s → All IsDigit (zeros k s)
zeros-IsDigit zero s h = h
zeros-IsDigit (suc k) s h = ((omega arith, omega arith), zeros-IsDigit k s h)

pub format_mode-ne-dash : (n : ℕ) → format_mode n ≢ b'-' ∷ []
unfolding format_mode format_uint
format_mode-ne-dash n =
    digit-ne-dash _ (zeros-IsDigit _ _ (digits-IsDigit 8 (suc n) n (omega arith) (omega arith)))

pub format_int-ne-dash : (z : ℤ) → format_int z ≢ b'-' ∷ []
unfolding format_int
format_int-ne-dash (pos n) = format_uint-ne-dash 10 n (omega arith) (omega arith)
format_int-ne-dash (negsuc n) = λ e. format_uint-ne-nil 10 (suc n) (cc e)
