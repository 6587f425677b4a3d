-- ===== src/Base/Sort.antt =====
-- `slices.SortFunc`, as an insertion sort: the order of equal elements is not fixed by the library,
-- and no theorem speaks of it.
use mathlib.Core.List.{Perm}
use mathlib.Core.List.Perm
use dtreesync.Base.{
  Bool, true, false, List, [], ◌∷◌, ◌≡◌, ◌⊎◌, inl, inr, All, Bool-cases, if◌then◌else◌, arith,
}

module _ {ℓ} {A : Type ℓ} (le : A → A → Bool) where
  unfoldable pub insert : A → List A → List A
  insert a [] = a ∷ []
  insert a (x ∷ xs) = let later = x ∷ insert a xs in if le a x then a ∷ x ∷ xs else later

  unfoldable pub sort : List A → List A
  unfolding insert
  sort [] = []
  sort (x ∷ xs) = insert x (sort xs)

  abbrev pub Ordered : List A → Type ℓ
  Ordered [] = Unit
  Ordered (x ∷ xs) = All (λ y. le x y ≡ true) xs × Ordered xs

  insert-perm : (a : A) (xs : List A) → Perm (insert a xs) (a ∷ xs)
  unfolding insert
  insert-perm a [] = Perm.refl (a ∷ [])
  insert-perm a (x ∷ xs) = elim (Bool-cases (le a x)) [
    | inl e ↦ rw e (Perm.refl (a ∷ x ∷ xs))
    | inr e ↦ rw e (Perm.trans (Perm.cons x (insert-perm a xs)) (Perm.swap a x xs))
  ]

  pub sort-perm : (xs : List A) → Perm (sort xs) xs
  unfolding sort
  sort-perm [] = Perm.refl []
  sort-perm (x ∷ xs) = Perm.trans (insert-perm x (sort xs)) (Perm.cons x (sort-perm xs))

  insert-All {κ} : (P : A → Type κ) (a : A) (xs : List A) → P a → All P xs → All P (insert a xs)
  unfolding insert
  insert-All P a [] h _ = (h, tt)
  insert-All P a (x ∷ xs) h (k, ks) = elim (Bool-cases (le a x)) [
    | inl e ↦ rw e (h, (k, ks))
    | inr e ↦ rw e (k, insert-All P a xs h ks)
  ]

  pub sort-All {κ} : (P : A → Type κ) (xs : List A) → All P xs → All P (sort xs)
  unfolding sort
  sort-All P [] _ = tt
  sort-All P (x ∷ xs) (h, hs) = insert-All P x (sort xs) h (sort-All P xs hs)

  module _ (total : (a b : A) → (le a b ≡ true) ⊎ (le b a ≡ true))
      (trans : (a b c : A) → le a b ≡ true → le b c ≡ true → le a c ≡ true) where
    above :
        (a x : A) (xs : List A)
        → le a x ≡ true
        → All (λ y. le x y ≡ true) xs
        → All (λ y. le a y ≡ true) xs
    above a x [] h _ = tt
    above a x (y ∷ xs) h (k, ks) = (trans a x y h k, above a x xs h ks)

    other_way : (a x : A) → le a x ≡ false → le x a ≡ true
    other_way a x h = elim (total a x) [ inl e ↦ ground arith | inr e ↦ e ]

    insert-Ordered : (a : A) (xs : List A) → Ordered xs → Ordered (insert a xs)
    unfolding insert
    insert-Ordered a [] _ = (tt, tt)
    insert-Ordered a (x ∷ xs) (h, hs) = elim (Bool-cases (le a x)) [
      | inl e ↦ rw e ((e, above a x xs e h), (h, hs))
      | inr e ↦
          rw e (insert-All (λ y. le x y ≡ true) a xs (other_way a x e) h, insert-Ordered a xs hs)
    ]

    pub sort-Ordered : (xs : List A) → Ordered (sort xs)
    unfolding sort
    sort-Ordered [] = tt
    sort-Ordered (x ∷ xs) = insert-Ordered x (sort xs) (sort-Ordered xs)
