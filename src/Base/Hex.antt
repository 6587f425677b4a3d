-- ===== src/Base/Hex.antt =====
-- encoding/hex: bytes as pairs of hexadecimal digits.
use dtreesync.Base.{
  Text, ℕ, ◌+◌, ◌-◌, ◌*◌, ◌/◌, ◌%◌, ◌<◌, ◌&&◌, Option, none, some, List, [], ◌∷◌, ◌≡◌, ◌≢◌, refl,
  All, ltb, leb, if◌then◌else◌, arith,
}

abbrev digit : ℕ → ℕ
digit n = if ltb n 10 then b'0' + n else b'a' + n - 10

-- `hex.EncodeToString`
unfoldable pub encode_to_string : List ℕ → Text
encode_to_string [] = []
encode_to_string (b ∷ bs) = digit (b / 16) ∷ digit (b % 16) ∷ encode_to_string bs

abbrev value : ℕ → Option ℕ
value c =
    if leb b'0' c && leb c b'9'
    then some (c - b'0')
    else if leb b'a' c && leb c b'f'
    then some (c - b'a' + 10)
    else if leb b'A' c && leb c b'F'
    then some (c - b'A' + 10)
    else none

abbrev byte : Option ℕ → Option ℕ → Option (List ℕ) → Option (List ℕ)
byte none low rest = none
byte (some h) none rest = none
byte (some h) (some l) none = none
byte (some h) (some l) (some bs) = some ((h * 16 + l) ∷ bs)

-- `hex.DecodeString`; `none` is an odd length or a character that is no digit.
unfoldable pub decode_string : Text → Option (List ℕ)
decode_string [] = some []
decode_string (c ∷ []) = none
decode_string (c ∷ d ∷ s) = byte (value c) (value d) (decode_string s)

value-digit : (n : ℕ) → n < 16 → value (digit n) ≡ some n
value-digit n h = ground arith

pub decode_string-encode_to_string :
    (bs : List ℕ) → All (λ b. b < 256) bs → decode_string (encode_to_string bs) ≡ some bs
unfolding decode_string encode_to_string
decode_string-encode_to_string [] _ = refl
decode_string-encode_to_string (b ∷ bs) (h, hs) =
    rw
      (
        value-digit (b / 16) (ground arith),
        value-digit (b % 16) (ground arith),
        decode_string-encode_to_string bs hs,
      )
      (ground arith)

pub encode_to_string-ne-nil : (b : ℕ) (bs : List ℕ) → encode_to_string (b ∷ bs) ≢ []
unfolding encode_to_string
encode_to_string-ne-nil b bs = ground arith
