-- ===== src/Base/Strings/Trim.antt =====
-- Trimming: texts that it leaves alone, and what it keeps of a text's characters.
use dtreesync.Base.{
  Text, ℕ, [], ◌∷◌, ◌++◌, ◌≡◌, ◌≢◌, refl, false, Bool, arith, All, nat_eq, Bool-cases, inl, inr,
}
use dtreesync.Base.Strings.{trim_left, trim_right, trim, glue_right, is_space, trim_space}

module _ (p : ℕ → Bool) where
  pub trim_left_id : (c : ℕ) (s : Text) → p c ≡ false → trim_left p (c ∷ s) ≡ c ∷ s
  unfolding trim_left
  trim_left_id c s h = rw h

  -- A character that stays keeps all before it.
  pub trim_right-append :
      (a s : Text) → s ≢ [] → trim_right p s ≡ s → trim_right p (a ++ s) ≡ a ++ s
  unfolding trim_right
  trim_right-append [] s _ h = h
  trim_right-append (c ∷ a) [] ne h = absurd (ne refl)
  trim_right-append (c ∷ []) (d ∷ s) ne h = rw h
  trim_right-append (c ∷ d ∷ a) (e ∷ s) ne h = rw (trim_right-append (d ∷ a) (e ∷ s) ne h)

  pub trim_right_id : (s : Text) → All (λ c. p c ≡ false) s → trim_right p s ≡ s
  unfolding trim_right
  trim_right_id [] _ = refl
  trim_right_id (c ∷ []) (h, _) = rw h
  trim_right_id (c ∷ d ∷ s) (h, hs) = rw (trim_right_id (d ∷ s) hs)

  pub trim_id :
      (c : ℕ) (s : Text) → p c ≡ false → trim_right p (c ∷ s) ≡ c ∷ s → trim p (c ∷ s) ≡ c ∷ s
  unfolding trim
  trim_id c s h k = rw (trim_left_id c s h, k)

  module _ {ℓ} (P : ℕ → Type ℓ) where
    trim_left-All : (s : Text) → All P s → All P (trim_left p s)
    unfolding trim_left
    trim_left-All [] _ = tt
    trim_left-All (c ∷ s) (h, hs) = elim (Bool-cases (p c)) [
      | inl e ↦ rw e (trim_left-All s hs)
      | inr e ↦ rw e (h, hs)
    ]

    trim_right-All : (s : Text) → All P s → All P (trim_right p s)
    unfolding trim_right
    trim_right-All [] _ = tt
    trim_right-All (c ∷ s) (h, hs) = go (trim_right p s) (trim_right-All s hs)
      where
        go : (t : Text) → All P t → All P (glue_right p c t)
        go (d ∷ t) k = (h, k)
        go [] k = elim (Bool-cases (p c)) [ inl e ↦ rw e tt | inr e ↦ rw e (h, tt) ]

    pub trim-All : (s : Text) → All P s → All P (trim p s)
    unfolding trim
    trim-All s h = trim_right-All _ (trim_left-All s h)

  -- What is left of a text begins with a character that stays.
  trim_left_head : (s t : Text) (c : ℕ) → trim_left p s ≡ c ∷ t → p c ≡ false
  unfolding trim_left
  trim_left_head [] t c h = cc
  trim_left_head (d ∷ s) t c h = elim (Bool-cases (p d)) [
    | inl e ↦ trim_left_head s t c (rw e at h)
    | inr e ↦ ground arith
  ]

  trim_right_head : (s t : Text) (c : ℕ) → trim_right p s ≡ c ∷ t → (r : Text) × (s ≡ c ∷ r)
  unfolding trim_right
  trim_right_head [] t c h = cc
  trim_right_head (d ∷ s) t c h = (s, go (trim_right p s) h)
    where
      go : (r : Text) → glue_right p d r ≡ c ∷ t → d ∷ s ≡ c ∷ s
      go [] e = ground arith
      go (x ∷ r) e = cc

  pub trim_head : (s t : Text) (c : ℕ) → trim p s ≡ c ∷ t → p c ≡ false
  unfolding trim
  trim_head s t c h = let (r, e) = trim_right_head (trim_left p s) t c h in trim_left_head s r c e

-- A text with no space in it.
pub trim_space_id : (s : Text) → All (λ c. is_space c ≡ false) s → trim_space s ≡ s
unfolding trim_space
trim_space_id [] _ = unfold trim trim_left trim_right in refl
trim_space_id (c ∷ s) h = trim_id is_space c s h.0 (trim_right_id is_space (c ∷ s) h)

-- A text that starts as a trimmed one and ends in a part with no space.
pub trim_space-append :
    (c : ℕ) (a s : Text)
    → is_space c ≡ false
    → s ≢ []
    → All (λ d. is_space d ≡ false) s
    → trim_space ((c ∷ a) ++ s) ≡ (c ∷ a) ++ s
unfolding trim_space
trim_space-append c a s h ne hs =
    trim_id is_space c (a ++ s) h
      (trim_right-append is_space (c ∷ a) s ne (trim_right_id is_space s hs))

pub trim_space_head : (s t : Text) (c : ℕ) → trim_space s ≡ c ∷ t → is_space c ≡ false
unfolding trim_space
trim_space_head s t c h = trim_head is_space s t c h
