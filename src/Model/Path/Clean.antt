-- ===== src/Model/Path/Clean.antt =====
-- What cleaning a relative path leaves: names, or a path that starts with `..`.
use mathlib.Core.List.{reverse, reverse-append}
use dtreesync.Base.{
  Text, ℕ, List, [], ◌∷◌, ◌++◌, append_assoc, ◌≡◌, ◌≢◌, refl, ap, false, arith, All, All-append,
  All-reverse, ◌==◌, text_eq, nat_eq, eq_refl, if◌then◌else◌, Bool-cases, ◌⊎◌, inl, inr,
}
use dtreesync.Base.Strings.{join, split, cons_head}
use dtreesync.Base.Strings.Parts.{Lacks}
use dtreesync.Base.GoPath.{dot, dot_dot, pop, push, clean_from}

-- A segment that names a child.
abbrev pub IsName : Text → Type 0
IsName s = (s ≢ []) × (s ≢ dot) × (s ≢ dot_dot) × Lacks b'/' s

abbrev IsUp : Text → Type 0
IsUp s = s ≡ dot_dot

-- The segments so far, the last one first: names, above a number of `..`.
abbrev pub IsStack : List Text → Type 0
IsStack [] = Unit
IsStack (s ∷ stack) = (IsName s × IsStack stack) ⊎ (IsUp s × All IsUp stack)

Ups-IsStack : (stack : List Text) → All IsUp stack → IsStack stack
Ups-IsStack [] _ = tt
Ups-IsStack (s ∷ stack) (h, hs) = inr (h, hs)

pop-IsStack : (stack : List Text) → IsStack stack → IsStack (pop false stack)
unfolding pop
pop-IsStack [] _ = inr (refl, tt)
pop-IsStack (s ∷ stack) (inr (h, hs)) = rw (h, eq_refl) (inr (refl, (refl, hs)))
pop-IsStack (s ∷ stack) (inl (h, hs)) = ground arith

push-IsStack :
    (s : Text) (stack : List Text) → Lacks b'/' s → IsStack stack → IsStack (push false s stack)
unfolding push
push-IsStack s stack l h = elim (Bool-cases (s == [])) [
  | inl e ↦ rw e h
  | inr a ↦ elim (Bool-cases (s == dot)) [
    | inl e ↦ rw (a, e) h
    | inr b ↦ elim (Bool-cases (s == dot_dot)) [
      | inl e ↦ rw (a, b, e) (pop-IsStack stack h)
      | inr c ↦ rw (a, b, c) (inl ((ground arith, ground arith, ground arith, l), h))
    ]
  ]
]

pub clean_from-IsStack :
    (segs stack : List Text)
    → All (Lacks b'/') segs
    → IsStack stack
    → IsStack (clean_from false segs stack)
unfolding clean_from
clean_from-IsStack [] stack _ h = h
clean_from-IsStack (s ∷ segs) stack (l, ls) h =
    clean_from-IsStack segs (push false s stack) ls (push-IsStack s stack l h)

-- A stack holds names only, or ends with `..`.
ups_end :
    (s : Text) (stack : List Text)
    → IsUp s
    → All IsUp stack
    → (front : List Text) × (s ∷ stack ≡ front ++ (dot_dot ∷ []))
ups_end s [] h _ = ([], rw h)
ups_end s (t ∷ stack) h (k, ks) = let (front, e) = ups_end t stack k ks in (s ∷ front, ap (◌∷◌ s) e)

stack_end :
    (stack : List Text)
    → IsStack stack
    → All IsName stack ⊎ ((front : List Text) × (stack ≡ front ++ (dot_dot ∷ [])))
stack_end [] _ = inl tt
stack_end (s ∷ stack) (inr (h, hs)) = inr (ups_end s stack h hs)
stack_end (s ∷ stack) (inl (h, hs)) = elim (stack_end stack hs) [
  | inl names ↦ inl (h, names)
  | inr (front, e) ↦ inr (s ∷ front, ap (◌∷◌ s) e)
]

-- The cleaned segments, in order.
pub clean_cases :
    (stack : List Text)
    → IsStack stack
    → All IsName (reverse stack) ⊎ ((rest : List Text) × (reverse stack ≡ dot_dot ∷ rest))
clean_cases stack h = elim (stack_end stack h) [
  | inl names ↦ inl (All-reverse IsName stack names)
  | inr (front, e) ↦ inr (reverse front, rw e (reverse-append front (dot_dot ∷ [])))
]

push_name : (s : Text) (stack : List Text) → IsName s → push false s stack ≡ s ∷ stack
unfolding push
push_name s stack h = ground arith

-- Names are kept as they stand.
pub clean_from-names :
    (segs stack : List Text) → All IsName segs → clean_from false segs stack ≡ reverse segs ++ stack
unfolding clean_from
clean_from-names [] stack _ = refl
clean_from-names (s ∷ segs) stack (h, hs) = rw (
  push_name s stack h,
  clean_from-names segs (s ∷ stack) hs,
  reverse-append (s ∷ []) segs,
  append_assoc,
)

module _ (P : ℕ → Type 0) (at_dot : P b'.') where
  push-All :
      (s : Text) (stack : List Text)
      → All P s
      → All (All P) stack
      → All (All P) (push false s stack)
  unfolding push pop
  push-All s [] h hs = ground arith
  push-All s (t ∷ stack) h hs = ground arith

  pub clean_from-All :
      (segs stack : List Text)
      → All (All P) segs
      → All (All P) stack
      → All (All P) (clean_from false segs stack)
  unfolding clean_from
  clean_from-All [] stack _ h = h
  clean_from-All (s ∷ segs) stack (l, ls) h =
      clean_from-All segs (push false s stack) ls (push-All s stack l h)

module _ (P : ℕ → Type 0) (sep : ℕ) where
  pub join-All : (segs : List Text) → P sep → All (All P) segs → All P (join sep segs)
  unfolding join
  join-All [] _ _ = tt
  join-All (s ∷ []) _ (h, _) = h
  join-All (s ∷ t ∷ segs) k (h, hs) = All-append P s _ h (k, join-All (t ∷ segs) k hs)

  pub split-All : (s : Text) → All P s → All (All P) (split sep s)
  unfolding split
  split-All [] _ = (tt, tt)
  split-All (c ∷ s) (h, hs) = go (split sep s) (split-All s hs)
    where
      go :
          (r : List Text) → All (All P) r → All (All P) (if c == sep then [] ∷ r else cons_head c r)
      go [] k = ground arith
      go (p ∷ ps) k = ground arith
