-- ===== src/Base/Order.antt =====
-- `cmp.Compare` of texts: the lexicographical order, which is the same by bytes and by code points.
use dtreesync.Base.{
  Text, ℕ, Bool, true, false, [], ◌∷◌, ◌++◌, ◌≡◌, refl, ◌⊎◌, inl, inr, ltb, if◌then◌else◌, arith,
}

unfoldable pub text_leb : Text → Text → Bool
text_leb [] s = true
text_leb (c ∷ s) [] = false
text_leb (c ∷ s) (d ∷ t) =
    let rest = text_leb s t in if ltb c d then true else if ltb d c then false else rest

pub text_leb_total : (s t : Text) → (text_leb s t ≡ true) ⊎ (text_leb t s ≡ true)
unfolding text_leb
text_leb_total [] t = inl refl
text_leb_total (c ∷ s) [] = inr refl
text_leb_total (c ∷ s) (d ∷ t) = ground (arith, text_leb_total s t)

pub text_leb_trans :
    (s t u : Text) → text_leb s t ≡ true → text_leb t u ≡ true → text_leb s u ≡ true
unfolding text_leb
text_leb_trans [] t u _ _ = refl
text_leb_trans (c ∷ s) [] u h _ = cc
text_leb_trans (c ∷ s) (d ∷ t) [] _ h = cc
text_leb_trans (c ∷ s) (d ∷ t) (e ∷ u) h k = ground (arith, text_leb_trans s t u)

pub text_leb_antisym : (s t : Text) → text_leb s t ≡ true → text_leb t s ≡ true → s ≡ t
unfolding text_leb
text_leb_antisym [] [] _ _ = refl
text_leb_antisym [] (d ∷ t) _ h = cc
text_leb_antisym (c ∷ s) [] h _ = cc
text_leb_antisym (c ∷ s) (d ∷ t) h k = ground (arith, text_leb_antisym s t)

-- A text that goes on is above, and never below.
pub text_leb-append : (s t : Text) → text_leb s (s ++ t) ≡ true
unfolding text_leb
text_leb-append [] t = refl
text_leb-append (c ∷ s) t = ground (arith, text_leb-append s t)

pub append_not_leb : (s : Text) (c : ℕ) (t : Text) → text_leb (s ++ (c ∷ t)) s ≡ false
unfolding text_leb
append_not_leb [] c t = refl
append_not_leb (d ∷ s) c t = ground (arith, append_not_leb s c t)
