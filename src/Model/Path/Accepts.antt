-- ===== src/Model/Path/Accepts.antt =====
-- `NormalizeRelPath` as a whole: which paths it returns, and which it returns unchanged.
use mathlib.Core.List.{cons-ne-nil}
use mathlib.Core.Path.{subst}
use dtreesync.Base.{
  Text, ℕ, List, [], ◌∷◌, ◌++◌, append-nil, ◌≡◌, ◌≢◌, refl, ap, sym, ◌∙◌, false, Bool, ◌&&◌, ◌||◌,
  arith, All, All-reverse, ◌==◌, text_eq, nat_eq, eq_refl, ==_iff, ==_of_ne, ||_false, Bool-cases,
  ◌⊎◌, inl, inr, any, if◌then◌else◌,
}
use dtreesync.Base.Strings.{
  join, split, codes, has_prefix, contains_text, is_slash, trim, trim_left, trim_right,
}
use dtreesync.Base.Strings.Parts.{Lacks}
use dtreesync.Base.Strings.Trim.{trim-All}
use dtreesync.Base.GoPath.{dot, dot_dot, spell, segments, clean, clean_from, push, pop}
use dtreesync.Model.Types.{ok}
use dtreesync.Model.Path.{is_reserved_windows_device_name, escapes, normalize_rel_path}
use dtreesync.Model.Path.Clean.{IsName, clean_from-All, join-All, split-All}
use dtreesync.Model.Path.Normal.{
  IsSafeSegment, IsPlain, replaced-All, clean_relative, slashed, IsCleaned, normalize_inv,
  slashed_relative, joined_trim, joined_split, joined_clean, joined-ne-nil, plain_replaced,
}

two_dots : (c d : ℕ) (b : Bool) → (c ∷ d ∷ []) ≢ dot_dot → (b'.' == c && (b'.' == d && b)) ≡ false
two_dots c d b h = elim (Bool-cases (b'.' == c)) [
  | inr e ↦ rw e
  | inl e ↦ elim (Bool-cases (b'.' == d)) [
    | inr k ↦ rw (e, k)
    | inl k ↦ absurd (h (cc ((==_iff b'.' c).0 e, (==_iff b'.' d).0 k)))
  ]
]

-- No name is followed by a step up.
name_no_up :
    (s : Text) (segs : List Text)
    → All IsName (s ∷ segs)
    → has_prefix (codes "../") (join b'/' (s ∷ segs)) ≡ false
unfolding join has_prefix
name_no_up [] segs ((h, _, _, _), _) = absurd (h refl)
name_no_up (c ∷ []) [] h = ground arith
name_no_up (c ∷ []) (t ∷ segs) h = ground arith
name_no_up (c ∷ d ∷ []) [] h = ground arith
name_no_up (c ∷ d ∷ []) (t ∷ segs) ((_, _, h, _), _) = two_dots c d _ h
name_no_up (c ∷ d ∷ e ∷ s) [] ((_, _, _, (_, (_, (l, _)))), _) = ground arith
name_no_up (c ∷ d ∷ e ∷ s) (t ∷ segs) ((_, _, _, (_, (_, (l, _)))), _) = ground arith

skip_part :
    (s rest : Text)
    → Lacks b'/' s
    → contains_text (codes "/../") (s ++ rest) ≡ contains_text (codes "/../") rest
unfolding contains_text has_prefix
skip_part [] rest _ = refl
skip_part (c ∷ s) rest (h, hs) = rw (==_of_ne b'/' c (λ e. h (sym e))) (skip_part s rest hs)

at_slash :
    (s : Text)
    → contains_text (codes "/../") (b'/' ∷ s)
      ≡ (has_prefix (codes "../") s || contains_text (codes "/../") s)
unfolding contains_text has_prefix
at_slash s = rw eq_refl

no_inner_up :
    (s : Text) (segs : List Text)
    → All IsName (s ∷ segs)
    → contains_text (codes "/../") (join b'/' (s ∷ segs)) ≡ false
unfolding join
no_inner_up s [] ((_, _, _, l), _) =
    rw (← append-nil s) (rw (skip_part s [] l) (unfold contains_text has_prefix in refl))
no_inner_up s (t ∷ segs) ((_, _, _, l), hs) =
    rw (skip_part s _ l, at_slash, name_no_up t segs hs) (no_inner_up t segs hs)

split_up : split b'/' dot_dot ≡ dot_dot ∷ []
unfolding split nat_eq
split_up = refl

joined-ne-up :
    (s : Text) (segs : List Text) → All IsName (s ∷ segs) → join b'/' (s ∷ segs) ≢ dot_dot
joined-ne-up s segs h e = h.0.2 (cc (joined_split s segs h, split_up, ap (split b'/') e))

names_stay :
    (s : Text) (segs : List Text) → All IsName (s ∷ segs) → escapes (join b'/' (s ∷ segs)) ≡ false
unfolding escapes
names_stay s segs h = rw (
  name_no_up s segs h,
  no_inner_up s segs h,
  ==_of_ne (join b'/' (s ∷ segs)) dot_dot (joined-ne-up s segs h),
)

-- What follows is the same for `.`.
split-dot : split b'/' dot ≡ dot ∷ []
unfolding split nat_eq
split-dot = refl

joined-ne-dot : (s : Text) (segs : List Text) → All IsName (s ∷ segs) → join b'/' (s ∷ segs) ≢ dot
joined-ne-dot s segs h e = h.0.1 (cc (joined_split s segs h, split-dot, ap (split b'/') e))

safe-names : (segs : List Text) → All IsSafeSegment segs → All IsName segs
safe-names [] _ = tt
safe-names (s ∷ segs) ((h, _), hs) = (h, safe-names segs hs)

safe_no_device :
    (segs : List Text) → All IsSafeSegment segs → any is_reserved_windows_device_name segs ≡ false
safe_no_device [] _ = refl
safe_no_device (s ∷ segs) ((_, h), hs) = rw (h, safe_no_device segs hs)

-- A path of safe names, joined by slashes and free of NUL and backslash, is accepted and returned
-- unchanged.
pub normalize_rel_path-join :
    (segs : List Text)
    → segs ≢ []
    → All IsSafeSegment segs
    → All IsPlain (join b'/' segs)
    → normalize_rel_path (join b'/' segs) ≡ ok (join b'/' segs)
unfolding normalize_rel_path
normalize_rel_path-join [] ne _ _ = absurd (ne refl)
normalize_rel_path-join (s ∷ segs) _ safe plain =
    let names = safe-names (s ∷ segs) safe in
    let (same, no_nul) = plain_replaced _ plain in
    rw (
      same,
      no_nul,
      joined_trim s segs names,
      joined_clean s segs names,
      joined_split s segs names,
      ==_of_ne _ _ (joined-ne-nil s segs names),
      ==_of_ne _ _ (joined-ne-dot s segs names),
      names_stay s segs names,
      safe_no_device (s ∷ segs) safe,
    )

no_device-safe :
    (segs : List Text)
    → All IsName segs
    → any is_reserved_windows_device_name segs ≡ false
    → All IsSafeSegment segs
no_device-safe [] _ _ = tt
no_device-safe (s ∷ segs) (n, ns) h =
    let (a, b) = ||_false (is_reserved_windows_device_name s) _ h in
    ((n, a), no_device-safe segs ns b)

-- A result other than the root and `.` is spelled by safe names.
cleaned_safe :
    (rel out : Text)
    → IsCleaned rel out
    → (out ≡ dot)
      ⊎ ((segs : List Text) × (segs ≢ []) × All IsSafeSegment segs × (join b'/' segs ≡ out))
cleaned_safe rel out c =
    let (segs, names, e) =
      clean_relative (slashed rel) (slashed_relative rel) (rw c.cleaned c.inside) in
    go segs names (sym c.cleaned ∙ e)
  where
    go :
        (segs : List Text)
        → All IsName segs
        → out ≡ spell false segs
        → (out ≡ dot)
          ⊎ ((segs : List Text) × (segs ≢ []) × All IsSafeSegment segs × (join b'/' segs ≡ out))
    go [] _ e = inl e
    go (s ∷ segs) names e = inr (
      s ∷ segs,
      cons-ne-nil s segs,
      no_device-safe (s ∷ segs) names (rw (e, joined_split s segs names) at c.no_device),
      sym e,
    )

-- Every result is the root, `.`, or a path whose segments are names: not empty, not `.`, not `..`,
-- and no reserved device. So no result leads out of the root that it is joined to.
pub normalize_rel_path-IsSafe :
    (rel : Text) {out : Text}
    → normalize_rel_path rel ≡ ok out
    → (out ≡ []) ⊎ (out ≡ dot) ⊎ All IsSafeSegment (split b'/' out)
normalize_rel_path-IsSafe rel {out} h = elim (normalize_inv rel h) [
  | inl e ↦ inl e
  | inr c ↦ elim (cleaned_safe rel out c) [
    | inl e ↦ inr (inl e)
    | inr (s ∷ segs, ne, safe, e) ↦
        inr (inr (rw (← e, joined_split s segs (safe-names (s ∷ segs) safe)) safe))
    | inr ([], ne, safe, e) ↦ absurd (ne refl)
  ]
]

spell-All : (segs : List Text) → All (All IsPlain) segs → All IsPlain (spell false segs)
spell-All [] _ = ((omega arith, omega arith), tt)
spell-All (s ∷ segs) h = join-All IsPlain b'/' (s ∷ segs) (omega arith, omega arith) h

cleaned-IsPlain : (rel out : Text) → IsCleaned rel out → All IsPlain out
unfolding clean segments
cleaned-IsPlain rel out c =
    let plain = trim-All is_slash IsPlain _ (replaced-All rel c.no_nul) in
    let segs =
      clean_from-All IsPlain (omega arith, omega arith) _ []
        (split-All IsPlain b'/' (slashed rel) plain) tt in
    rw (← c.cleaned, slashed_relative rel) (spell-All _ (All-reverse (All IsPlain) _ segs))

dot_again : normalize_rel_path dot ≡ ok (if dot == dot then [] else dot)
unfolding normalize_rel_path trim trim_left trim_right clean segments clean_from push pop split join
    text_eq nat_eq
dot_again = refl

names_again :
    (segs : List Text)
    → segs ≢ []
    → All IsSafeSegment segs
    → All IsPlain (join b'/' segs)
    → normalize_rel_path (join b'/' segs)
      ≡ ok (if join b'/' segs == dot then [] else join b'/' segs)
names_again [] ne safe plain = absurd (ne refl)
names_again (s ∷ segs) ne safe plain =
    rw (==_of_ne _ _ (joined-ne-dot s segs (safe-names (s ∷ segs) safe)))
      (normalize_rel_path-join (s ∷ segs) ne safe plain)

-- Normalising a result again returns it, except for `.`, which gives the empty path.
pub normalize_rel_path_again :
    (rel : Text) {out : Text}
    → normalize_rel_path rel ≡ ok out
    → normalize_rel_path out ≡ ok (if out == dot then [] else out)
normalize_rel_path_again rel {out} h = elim (normalize_inv rel h) [
  | inl e ↦ rw e (unfold normalize_rel_path text_eq nat_eq in refl)
  | inr c ↦ elim (cleaned_safe rel out c) [
    | inl e ↦ rw e dot_again
    | inr (segs, some_seg, safe, e) ↦
        subst (λ p. normalize_rel_path p ≡ ok (if p == dot then [] else p)) e
          (names_again segs some_seg safe (rw e (cleaned-IsPlain rel out c)))
  ]
]
