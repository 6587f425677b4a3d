-- ===== src/Core/Restore/Paths.antt =====
-- internal/core/restore.go: the test that keeps a directory in the target folder.
use dtreesync.Base.{
  Text, true, false, not, ◌||◌, ◌&&◌, List, [], ◌∷◌, ◌++◌, append-nil, ◌==◌, text_eq, nat_eq, ◌≡◌,
  refl, sym, ◌⊎◌, inl, inr, Bool-cases, ==_iff,
}
use dtreesync.Base.Strings.{codes, has_prefix, join}
use dtreesync.Base.GoPath.{dot_dot, segments, rel_segments, rel_path, spell, climb}
use dtreesync.Model.Types.{Result, ok, err, ◌>>=◌}
use dtreesync.Core.Restore.{Call, make_dir, apply_meta, set_times, leaves_target, target_path}

-- The cleaned segments of the path start with those of the folder.
abbrev pub IsInside : Text → Text → Type 0
IsInside folder path = (rest : List Text) × (segments path ≡ segments folder ++ rest)

-- The way from the base goes up, or the base is a prefix.
rel_cases :
    (base targ : List Text)
    → ((rest : List Text) × (rel_segments base targ ≡ dot_dot ∷ rest))
      ⊎ ((rest : List Text) × (targ ≡ base ++ rest))
unfolding rel_segments
rel_cases [] targ = inr (targ, refl)
rel_cases (b ∷ base) [] = inl (climb base [], refl)
rel_cases (b ∷ base) (t ∷ targ) = elim (Bool-cases (b == t)) [
  | inr e ↦ rw e (inl (climb base (t ∷ targ), refl))
  | inl e ↦ elim (rel_cases base targ) [
    | inl (rest, k) ↦ inl (rest, rw e k)
    | inr (rest, k) ↦ inr (rest, rw (k, (==_iff b t).0 e) refl)
  ]
]

up_leaves :
    (folder path : Text) (rest : List Text)
    → rel_segments (segments folder) (segments path) ≡ dot_dot ∷ rest
    → leaves_target folder path ≡ true
unfolding leaves_target rel_path join has_prefix text_eq nat_eq
up_leaves folder path rest e = rw e (starts rest)
  where
    starts :
        (rest : List Text)
        → (spell false (dot_dot ∷ rest) == dot_dot
            || has_prefix (codes "../") (spell false (dot_dot ∷ rest)))
          ≡ true
    starts [] = refl
    starts (s ∷ rest) = refl

stays-IsInside : (folder path : Text) → leaves_target folder path ≡ false → IsInside folder path
stays-IsInside folder path h = elim (rel_cases (segments folder) (segments path)) [
  | inl (rest, e) ↦ absurd (cc (h, up_leaves folder path rest e))
  | inr inside ↦ inside
]

abbrev pub path_of : Call → Text
path_of (make_dir path _) = path
path_of (apply_meta path _) = path
path_of (set_times path _ _ _) = path

root-IsInside : (folder : Text) → IsInside folder folder
root-IsInside folder = ([], sym (append-nil _))

-- The path of a record that passes the test.
pub target-IsInside :
    (folder rel : Text)
    → (not (rel == []) && leaves_target folder (target_path folder rel)) ≡ false
    → IsInside folder (target_path folder rel)
unfolding target_path
target-IsInside folder rel h = elim (Bool-cases (rel == [])) [
  | inl e ↦ rw e (root-IsInside folder)
  | inr e ↦ stays-IsInside folder (target_path folder rel) (cc (h, e))
]

-- What holds of a result if there is one.
abbrev pub IfOk : {A : Type 0} → (A → Type 0) → Result A → Type 0
IfOk P (ok a) = P a
IfOk P (err _) = Unit

pub IfOk-bind :
    {A B : Type 0} {P : A → Type 0} (Q : B → Type 0) (r : Result A) (f : A → Result B)
    → IfOk P r
    → ((a : A) → P a → IfOk Q (f a))
    → IfOk Q (r >>= f)
IfOk-bind Q (ok a) f h k = k a h
IfOk-bind Q (err _) f h k = tt

pub IfOk-ok : {A : Type 0} (P : A → Type 0) {r : Result A} {a : A} → r ≡ ok a → IfOk P r → P a
IfOk-ok P e h = rw e at h
