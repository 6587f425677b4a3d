-- ===== src/Core/Order/Parents.antt =====
-- A directory is written before what is below it.
use mathlib.Core.List.{Perm}
use mathlib.Core.List.Perm
use dtreesync.Base.{
  Text, ℕ, ◌+◌, Bool, true, List, [], ◌∷◌, ◌++◌, ◌≡◌, ◌≢◌, refl, ◌⊎◌, inl, inr, ◌==◌, text_eq,
  nat_eq, leb, ltb, if◌then◌else◌, All, arith, sym, ◌∙◌, ap,
}
use dtreesync.Base.Strings.{codes, count_char}
use dtreesync.Base.GoPath.{clean, dot}
use dtreesync.Base.Order.{text_leb, text_leb_total, text_leb_trans, append_not_leb}
use dtreesync.Base.Sort.{sort, sort-perm, sort-Ordered, sort-All, Ordered}
use dtreesync.Model.Types.{DirRecord, ok}
use dtreesync.Core.Order.{dir_depth, path_leb, depth_leb, sort_records}

-- The three modes.
pub sort_records_cases :
    (order mode : Text) (recs out : List DirRecord)
    → sort_records order recs ≡ ok (mode, out)
    → ((mode ≡ codes "path") × (out ≡ sort path_leb recs))
      ⊎ ((mode ≡ codes "depth") × (out ≡ sort depth_leb recs))
      ⊎ ((mode ≡ codes "none") × (out ≡ recs))
unfolding sort_records
sort_records_cases order mode recs out h = ground arith

-- Sorting neither loses nor invents a record.
pub sort_records-perm :
    (order mode : Text) (recs out : List DirRecord)
    → sort_records order recs ≡ ok (mode, out)
    → Perm out recs
sort_records-perm order mode recs out h = elim (sort_records_cases order mode recs out h) [
  | inl (_, e) ↦ rw e (sort-perm path_leb recs)
  | inr (inl (_, e)) ↦ rw e (sort-perm depth_leb recs)
  | inr (inr (_, e)) ↦ rw e (Perm.refl recs)
]

-- The path of a directory below another.
abbrev pub IsBelow : Text → Text → Type 0
IsBelow p q = ((p ≡ []) × (q ≢ [])) ⊎ ((t : Text) × (q ≡ p ++ (b'/' ∷ t)))

-- A relative path as the scanner writes it.
abbrev pub IsCleanPath : Text → Type 0
IsCleanPath p = (p ≡ []) ⊎ ((clean p ≡ p) × (p ≢ dot) × (p ≢ []))

-- No directory stands before one that it is below of.
abbrev pub ParentsFirst : List DirRecord → Type 0
ParentsFirst [] = Unit
ParentsFirst (x ∷ xs) = All (λ y. ¬ IsBelow y.rel_path x.rel_path) xs × ParentsFirst xs

leb_nil : (p : Text) → text_leb p [] ≡ true → p ≡ []
unfolding text_leb
leb_nil [] h = refl
leb_nil (c ∷ p) h = absurd (cc h)

leb_not-IsBelow : (p q : Text) → text_leb p q ≡ true → ¬ IsBelow q p
leb_not-IsBelow p q h (inl (e, n)) = n (leb_nil p (rw (sym e) h))
leb_not-IsBelow p q h (inr (t, e)) = cc (h, ap (λ r. text_leb r q) e, append_not_leb q b'/' t)

count_append : (c : ℕ) (s t : Text) → count_char c (s ++ t) ≡ count_char c s + count_char c t
count_append c [] t = omega arith
count_append c (d ∷ s) t = ground (arith, count_append c s t)

dir_depth_nil : dir_depth [] ≡ 0
unfolding dir_depth clean text_eq nat_eq
dir_depth_nil = refl

dir_depth-clean : (p : Text) → clean p ≡ p → p ≢ dot → p ≢ [] → dir_depth p ≡ count_char b'/' p + 1
unfolding dir_depth
dir_depth-clean p e n k = rw e (ground arith)

append_cons_ne : (p : Text) (c : ℕ) (t : Text) → p ++ (c ∷ t) ≢ []
append_cons_ne [] c t h = cc h
append_cons_ne (d ∷ p) c t h = cc h

more : (n : ℕ) (t : Text) → ltb (n + 1) (n + count_char b'/' (b'/' ∷ t) + 1) ≡ true
unfolding nat_eq
more n t = ground arith

-- What is below another directory is deeper.
below_deeper :
    (p q : Text)
    → IsCleanPath p
    → IsCleanPath q
    → IsBelow p q
    → ltb (dir_depth p) (dir_depth q) ≡ true
below_deeper p q hp (inl e) (inl (_, n)) = absurd (n e)
below_deeper p q hp (inl e) (inr (t, k)) = absurd (append_cons_ne p b'/' t (sym k ∙ e))
below_deeper p q hp (inr (c, n, k)) (inl (e, _)) =
    rw e (rw dir_depth_nil (rw (dir_depth-clean q c n k) (ground arith)))
below_deeper p q (inl e) (inr (c, n, k)) (inr _) =
    rw e (rw dir_depth_nil (rw (dir_depth-clean q c n k) (ground arith)))
below_deeper p q (inr (c, n, k)) (inr (c1, n1, k1)) (inr (t, e)) = rw (dir_depth-clean p c n k) (
    rw (dir_depth-clean q c1 n1 k1)
      (rw (ap (count_char b'/') e ∙ count_append b'/' p (b'/' ∷ t)) (more (count_char b'/' p) t)))

depth_not-IsBelow :
    (p q : DirRecord)
    → depth_leb p q ≡ true
    → IsCleanPath p.rel_path
    → IsCleanPath q.rel_path
    → ¬ IsBelow q.rel_path p.rel_path
unfolding depth_leb
depth_not-IsBelow p q h hp hq b = ground (arith, below_deeper q.rel_path p.rel_path hq hp b)

-- The order by a number, then by a text.
abbrev lex : ℕ → ℕ → Text → Text → Bool
lex m n s t = if m == n then text_leb s t else leb m n

lex_total : (m n : ℕ) (s t : Text) → (lex m n s t ≡ true) ⊎ (lex n m t s ≡ true)
lex_total m n s t = ground (arith, text_leb_total s t)

lex_trans :
    (m n o : ℕ) (s t u : Text) → lex m n s t ≡ true → lex n o t u ≡ true → lex m o s u ≡ true
lex_trans m n o s t u h k = ground (arith, text_leb_trans s t u)

depth_leb_total : (a b : DirRecord) → (depth_leb a b ≡ true) ⊎ (depth_leb b a ≡ true)
unfolding depth_leb
depth_leb_total a b = lex_total (dir_depth a.rel_path) (dir_depth b.rel_path) a.rel_path b.rel_path

depth_leb_trans :
    (a b c : DirRecord) → depth_leb a b ≡ true → depth_leb b c ≡ true → depth_leb a c ≡ true
unfolding depth_leb
depth_leb_trans a b c h k =
    lex_trans (dir_depth a.rel_path) (dir_depth b.rel_path) (dir_depth c.rel_path) a.rel_path
      b.rel_path c.rel_path h k

path_leb_total : (a b : DirRecord) → (path_leb a b ≡ true) ⊎ (path_leb b a ≡ true)
unfolding path_leb
path_leb_total a b = text_leb_total a.rel_path b.rel_path

path_leb_trans :
    (a b c : DirRecord) → path_leb a b ≡ true → path_leb b c ≡ true → path_leb a c ≡ true
unfolding path_leb
path_leb_trans a b c h k = text_leb_trans a.rel_path b.rel_path c.rel_path h k

-- Elements that are in order are not below the later ones.
path_not-IsBelow :
    (p q : DirRecord)
    → path_leb p q ≡ true
    → IsCleanPath p.rel_path
    → IsCleanPath q.rel_path
    → ¬ IsBelow q.rel_path p.rel_path
unfolding path_leb
path_not-IsBelow p q h _ _ b = leb_not-IsBelow p.rel_path q.rel_path h b

Ordered-ParentsFirst :
    (le : DirRecord → DirRecord → Bool) (P : DirRecord → Type 0)
    (not_below : (a b : DirRecord) → le a b ≡ true → P a → P b → ¬ IsBelow b.rel_path a.rel_path)
    (xs : List DirRecord)
    → All P xs
    → Ordered le xs
    → ParentsFirst xs
Ordered-ParentsFirst le P nb [] _ _ = tt
Ordered-ParentsFirst le P nb (x ∷ xs) (h, hs) (o, os) =
    (heads x xs h hs o, Ordered-ParentsFirst le P nb xs hs os)
  where
    heads :
        (x : DirRecord) (xs : List DirRecord)
        → P x
        → All P xs
        → All (λ y. le x y ≡ true) xs
        → All (λ y. ¬ IsBelow y.rel_path x.rel_path) xs
    heads x [] _ _ _ = tt
    heads x (y ∷ ys) h (k, ks) (o, os) = (nb x y o h k, heads x ys h ks os)

-- Unless the mode is `none`, the records of clean relative paths are written parents first.
pub sort_records-ParentsFirst :
    (order mode : Text) (recs out : List DirRecord)
    → sort_records order recs ≡ ok (mode, out)
    → mode ≢ codes "none"
    → All (λ r. IsCleanPath r.rel_path) recs
    → ParentsFirst out
sort_records-ParentsFirst order mode recs out h n clean_paths =
    elim (sort_records_cases order mode recs out h) [
      | inl (_, e) ↦ rw e (
          Ordered-ParentsFirst path_leb (λ r. IsCleanPath r.rel_path) path_not-IsBelow _
            (sort-All path_leb _ recs clean_paths)
            (sort-Ordered path_leb path_leb_total path_leb_trans recs))
      | inr (inl (_, e)) ↦ rw e (
          Ordered-ParentsFirst depth_leb (λ r. IsCleanPath r.rel_path) depth_not-IsBelow _
            (sort-All depth_leb _ recs clean_paths)
            (sort-Ordered depth_leb depth_leb_total depth_leb_trans recs))
      | inr (inr (m, _)) ↦ absurd (n m)
    ]
