-- ===== src/Model/Path/Normal.antt =====
-- What `NormalizeRelPath` accepts, and that its results are normal.
use mathlib.Core.List.{cons-ne-nil, reverse, reverse-reverse}
use dtreesync.Base.{
  Text, ℕ, List, [], ◌∷◌, ◌++◌, append-nil, ◌≡◌, ◌≢◌, refl, true, false, Bool, ◌||◌, arith, All,
  ◌==◌, text_eq, nat_eq, ne_of_==, ==_of_ne, ||_false, if◌then◌else◌, ◌⊎◌, inl, inr, any,
}
use dtreesync.Base.Strings.{
  join, split, has_char, has_prefix, contains_text, replace_char, trim, trim_right, is_slash,
}
use dtreesync.Base.Strings.Parts.{Lacks, split-join, split-Lacks}
use dtreesync.Base.Strings.Trim.{trim_id, trim_right_id, trim_right-append, trim_head}
use dtreesync.Base.GoPath.{dot, dot_dot, clean_from, spell, segments, clean, is_rooted}
use mathlib.Core.Path.{subst, ap₂}
use dtreesync.Model.Types.{Result, ok, err, invalid_path, boundary_escaped}
use dtreesync.Model.Path.{is_reserved_windows_device_name, escapes, normalize_rel_path}
use dtreesync.Model.Path.Clean.{IsName, clean_from-IsStack, clean_cases, clean_from-names}

-- A segment that a record may hold: a name that is no device.
abbrev pub IsSafeSegment : Text → Type 0
IsSafeSegment s = IsName s × (is_reserved_windows_device_name s ≡ false)

-- The characters of a normalised path: no NUL and no backslash.
abbrev pub IsPlain : ℕ → Type 0
IsPlain c = (c ≢ 0) × (c ≢ b'\\')

pub replaced-All : (rel : Text) → has_char 0 rel ≡ false → All IsPlain (replace_char b'\\' b'/' rel)
replaced-All [] _ = tt
replaced-All (c ∷ rel) h = (ground arith, replaced-All rel (ground arith))

spell_up-escapes : (rest : List Text) → escapes (spell false (dot_dot ∷ rest)) ≡ true
unfolding escapes join has_prefix contains_text text_eq nat_eq
spell_up-escapes [] = refl
spell_up-escapes (s ∷ rest) = refl

-- The cleaned form of a path that does not start with a slash.
pub clean_relative :
    (p : Text)
    → is_rooted p ≡ false
    → escapes (clean p) ≡ false
    → (segs : List Text) × All IsName segs × (clean p ≡ spell false segs)
unfolding clean segments
clean_relative p root safe =
    elim (clean_cases (clean_from false (split b'/' p) [])
      (clean_from-IsStack _ [] (split-Lacks b'/' p) tt)) [
        | inl names ↦ (reverse (clean_from false (split b'/' p) []), names, rw root)
        | inr (rest, e) ↦ cc (safe, spell_up-escapes rest, root, e)
      ]

abbrev pub slashed : Text → Text
slashed rel = trim is_slash (replace_char b'\\' b'/' rel)

-- What a result other than the root says of its input.
pub record IsCleaned (rel out : Text) : Type 0 where
  pub no_nul : has_char 0 rel ≡ false
  pub not_empty : slashed rel ≢ []
  pub inside : escapes out ≡ false
  pub no_device : any is_reserved_windows_device_name (split b'/' out) ≡ false
  pub cleaned : clean (slashed rel) ≡ out

-- The branches of `NormalizeRelPath` over the values of its tests.
abbrev verdict : Bool → Bool → Bool → Bool → Bool → Text → Result Text
verdict empty nul root up device cleaned =
    if empty
    then ok []
    else if nul
    then err invalid_path
    else if root
    then ok []
    else if up
    then err boundary_escaped
    else if device
    then err invalid_path
    else ok cleaned

verdict_inv :
    (empty nul root up device : Bool) (cleaned : Text) {out : Text}
    → verdict empty nul root up device cleaned ≡ ok out
    → (out ≡ [])
      ⊎ ((nul ≡ false) × (root ≡ false) × (up ≡ false) × (device ≡ false) × (cleaned ≡ out))
verdict_inv true nul root up device cleaned h = inl (ground arith)
verdict_inv false true root up device cleaned h = cc
verdict_inv false false true up device cleaned h = inl (ground arith)
verdict_inv false false false true device cleaned h = cc
verdict_inv false false false false true cleaned h = cc
verdict_inv false false false false false cleaned h = inr (refl, refl, refl, refl, ground arith)

pub normalize_inv :
    (rel : Text) {out : Text} → normalize_rel_path rel ≡ ok out → (out ≡ []) ⊎ IsCleaned rel out
unfolding normalize_rel_path
normalize_inv rel {out} h =
    elim (verdict_inv (rel == []) (has_char 0 rel) (slashed rel == [] || slashed rel == dot)
      (escapes (clean (slashed rel)))
      (any is_reserved_windows_device_name (split b'/' (clean (slashed rel)))) (clean (slashed rel))
      h) [
        | inl e ↦ inl e
        | inr (nul, root, up, device, e) ↦ inr (record {
          no_nul = nul;
          not_empty = ne_of_== (slashed rel) [] (||_false _ _ root).0;
          inside = subst (λ c. escapes c ≡ false) e up;
          no_device =
              subst (λ c. any is_reserved_windows_device_name (split b'/' c) ≡ false) e device;
          cleaned = e;
        })
      ]

pub slashed_relative : (rel : Text) → is_rooted (slashed rel) ≡ false
slashed_relative rel = go (slashed rel) refl
  where
    go : (s : Text) → slashed rel ≡ s → is_rooted s ≡ false
    go [] e = refl
    go (c ∷ s) e = trim_head is_slash (replace_char b'\\' b'/' rel) s c e

-- A path of names neither starts nor ends with a slash.
joined_head :
    (s : Text) (segs : List Text)
    → All IsName (s ∷ segs)
    → (c : ℕ) × (t : Text) × (join b'/' (s ∷ segs) ≡ c ∷ t) × (c ≢ b'/')
unfolding join
joined_head [] segs ((h, _, _, _), _) = absurd (h refl)
joined_head (c ∷ s) [] ((_, _, _, (l, _)), _) = (c, s, refl, l)
joined_head (c ∷ s) (t ∷ segs) ((_, _, _, (l, _)), _) =
    (c, s ++ (b'/' ∷ join b'/' (t ∷ segs)), refl, l)

pub joined-ne-nil :
    (s : Text) (segs : List Text) → All IsName (s ∷ segs) → join b'/' (s ∷ segs) ≢ []
joined-ne-nil s segs h = let (c, t, e, _) = joined_head s segs h in cc e

lacks→stays : (s : Text) → Lacks b'/' s → All (λ c. is_slash c ≡ false) s
lacks→stays [] _ = tt
lacks→stays (c ∷ s) (h, hs) = (==_of_ne c b'/' h, lacks→stays s hs)

joined_tail :
    (s : Text) (segs : List Text)
    → All IsName (s ∷ segs)
    → trim_right is_slash (join b'/' (s ∷ segs)) ≡ join b'/' (s ∷ segs)
unfolding join
joined_tail s [] ((_, _, _, l), _) = trim_right_id is_slash s (lacks→stays s l)
joined_tail s (t ∷ segs) (_, hs) =
    trim_right-append is_slash s (b'/' ∷ join b'/' (t ∷ segs)) (cons-ne-nil _ _) (
      trim_right-append is_slash (b'/' ∷ []) (join b'/' (t ∷ segs)) (joined-ne-nil t segs hs)
        (joined_tail t segs hs))

names-Lacks : (segs : List Text) → All IsName segs → All (Lacks b'/') segs
names-Lacks [] _ = tt
names-Lacks (s ∷ segs) ((_, _, _, l), hs) = (l, names-Lacks segs hs)

module _ (s : Text) (segs : List Text) (names : All IsName (s ∷ segs)) where
  joined_relative : is_rooted (join b'/' (s ∷ segs)) ≡ false
  joined_relative = let (c, t, e, h) = joined_head s segs names in rw e (==_of_ne c b'/' h)

  pub joined_trim : trim is_slash (join b'/' (s ∷ segs)) ≡ join b'/' (s ∷ segs)
  joined_trim =
      let (c, t, e, h) = joined_head s segs names in
      rw e (trim_id is_slash c t (==_of_ne c b'/' h) (rw e at (joined_tail s segs names)))

  pub joined_split : split b'/' (join b'/' (s ∷ segs)) ≡ s ∷ segs
  joined_split = split-join b'/' (s ∷ segs) (cons-ne-nil s segs) (names-Lacks (s ∷ segs) names)

  pub joined_clean : clean (join b'/' (s ∷ segs)) ≡ join b'/' (s ∷ segs)
  unfolding clean segments
  joined_clean = rw (
    joined_relative,
    joined_split,
    clean_from-names (s ∷ segs) [] names,
    append-nil,
    reverse-reverse,
  )

-- A path of plain characters is not changed by the replacement of backslashes.
pub plain_replaced :
    (s : Text) → All IsPlain s → (replace_char b'\\' b'/' s ≡ s) × (has_char 0 s ≡ false)
plain_replaced [] _ = (refl, refl)
plain_replaced (c ∷ s) (h, hs) =
    (ap₂ ◌∷◌ (ground arith) (plain_replaced s hs).0, ground (arith, plain_replaced s hs))
