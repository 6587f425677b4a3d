-- ===== src/Base/Strings/Parts.antt =====
-- Cutting a text at a character and joining the parts.
use Prim.Native.Nat.{ℕ, ◌+◌}
use mathlib.Core.Path.{◌≡◌, refl, ap}
use mathlib.Core.Logic.{◌≢◌}
use mathlib.Core.List.{List, [], ◌∷◌, ◌++◌}
use native.Mathlib.Omega.{arith}
use dtreesync.Base.Tests.{if◌then◌else◌}
use dtreesync.Base.Equality.{Text, ◌==◌, nat_eq, eq_refl}
use dtreesync.Base.Lists.{length, All}
use dtreesync.Base.Strings.{split, join, cons_head, byte_length}

abbrev pub Lacks : ℕ → Text → Type 0
Lacks b = All (λ c. c ≢ b)

pub split-ne-nil : (sep : ℕ) (s : Text) → split sep s ≢ []
unfolding split
split-ne-nil sep [] = ground arith
split-ne-nil sep (c ∷ s) =
    elim (split sep s) as (λ r. (if c == sep then [] ∷ r else cons_head c r) ≢ []) [
      | [] ↦ ground arith
      | p ∷ ps ↦ ground arith
    ]

pub split-append :
    (sep : ℕ) (p rest : Text) → Lacks sep p → split sep (p ++ (sep ∷ rest)) ≡ p ∷ split sep rest
unfolding split
split-append sep [] rest _ = rw eq_refl
split-append sep (c ∷ p) rest (h, hs) = rw (split-append sep p rest hs) (ground arith)

split-one_part : (sep : ℕ) (p : Text) → Lacks sep p → split sep p ≡ p ∷ []
unfolding split
split-one_part sep [] _ = refl
split-one_part sep (c ∷ p) (h, hs) = rw (split-one_part sep p hs) (ground arith)

-- Cutting what was joined gives the parts back, if there is a part and none holds the separator.
pub split-join :
    (sep : ℕ) (ps : List Text) → ps ≢ [] → All (Lacks sep) ps → split sep (join sep ps) ≡ ps
unfolding join
split-join sep [] h _ = absurd (h refl)
split-join sep (p ∷ []) _ (hp, _) = split-one_part sep p hp
split-join sep (p ∷ q ∷ ps) _ (hp, hps) =
    rw (split-append sep p _ hp, split-join sep (q ∷ ps) (ground arith) hps)

pub split-Lacks : (sep : ℕ) (s : Text) → All (Lacks sep) (split sep s)
unfolding split
split-Lacks sep [] = (tt, tt)
split-Lacks sep (c ∷ s) = go (split sep s) (split-Lacks sep s)
  where
    go :
        (r : List Text)
        → All (Lacks sep) r
        → All (Lacks sep) (if c == sep then [] ∷ r else cons_head c r)
    go [] h = ground arith
    go (p ∷ ps) (hp, h) = ground arith

pub length-split :
    (sep : ℕ) (ps : List Text)
    → ps ≢ []
    → All (Lacks sep) ps
    → length (split sep (join sep ps)) ≡ length ps
length-split sep ps h k = ap length (split-join sep ps h k)

pub byte_length-append : (s t : Text) → byte_length (s ++ t) ≡ byte_length s + byte_length t
byte_length-append [] t = ground arith
byte_length-append (c ∷ s) t = ground (arith, byte_length-append s t)
