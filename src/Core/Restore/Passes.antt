-- ===== src/Core/Restore/Passes.antt =====
-- The order of the passes of a restore: parents first, then children first.
use mathlib.Core.List.{Perm}
use mathlib.Core.List.Perm
use mathlib.Core.List.{perm_middle, Permᴰ}
use mathlib.Core.Logic.{∥∥₁_elim}
use mathlib.Core.Bool.{Bool-set}
use dtreesync.Base.{
  Text, ℕ, zero, suc, ◌+◌, Bool, true, false, ◌||◌, ◌&&◌, List, [], ◌∷◌, ◌++◌, ◌==◌, text_eq,
  nat_eq, ◌≡◌, refl, sym, ◌∙◌, ap, inl, inr, All, keep, arith, Bool-cases, ltb, leb, ◌≤◌,
}
use mathlib.Core.Path.{subst}
use dtreesync.Base.Sort.{sort-perm}
use dtreesync.Core.Order.{path_leb}
use dtreesync.Model.Types.{DirRecord, RestoreConfig, ◌>>=◌}
use dtreesync.Core.Restore.{System, Progress, forward_layer, forward, layer, depth, max_depth}

module _ (sys : System) where
  -- The directories of the layers from depth `d`, as many as `n`, in the order of the forward pass.
  unfoldable pub downward : ℕ → ℕ → List DirRecord → List DirRecord
  downward zero d recs = []
  downward (suc n) d recs = sys.schedule (layer d recs) ++ downward n (suc d) recs

  module _ (cfg : RestoreConfig) (folder : Text) where
    forward_layer-append :
        (xs ys : List DirRecord) (s : Progress)
        → forward_layer sys cfg folder (xs ++ ys) s
          ≡ (forward_layer sys cfg folder xs s >>= forward_layer sys cfg folder ys)
    unfolding forward_layer
    forward_layer-append [] ys s = refl
    forward_layer-append (x ∷ xs) ys s = elim (Bool-cases (sys.is_done s.calls)) [
      | inl e ↦ rw e refl
      | inr e ↦ rw e (forward_layer-append xs ys _)
    ]

    -- The forward pass is one run over all its directories.
    forward-downward :
        (n d : ℕ) (recs : List DirRecord) (s : Progress)
        → forward sys cfg folder n d recs s ≡ forward_layer sys cfg folder (downward n d recs) s
    unfolding forward downward
    forward-downward zero d recs s = refl
    forward-downward (suc n) d recs s =
        ap (λ f. forward_layer sys cfg folder (sys.schedule (layer d recs)) s >>= f)
          (λ i t. forward-downward n (suc d) recs t i)
        ∙ sym (forward_layer-append (sys.schedule (layer d recs)) (downward n (suc d) recs) s)

keep-All : (p : DirRecord → Bool) (xs : List DirRecord) → All (λ x. p x ≡ true) (keep p xs)
keep-All p [] = tt
keep-All p (x ∷ xs) = elim (Bool-cases (p x)) [
  | inl e ↦ rw e (e, keep-All p xs)
  | inr e ↦ rw e (keep-All p xs)
]

-- Two tests that exclude one another.
keep-perm :
    (p q : DirRecord → Bool) (xs : List DirRecord)
    → ((x : DirRecord) → p x ≡ true → q x ≡ false)
    → Perm (keep p xs ++ keep q xs) (keep (λ x. p x || q x) xs)
keep-perm p q [] h = Perm.refl []
keep-perm p q (x ∷ xs) h = elim (Bool-cases (p x)) [
  | inl e ↦ rw (e, h x e) (Perm.cons x (keep-perm p q xs h))
  | inr e ↦ elim (Bool-cases (q x)) [
    | inl f ↦
        rw (e, f)
          (Perm.trans (perm_middle (keep p xs) (keep q xs)) (Perm.cons x (keep-perm p q xs h)))
    | inr f ↦ rw (e, f) (keep-perm p q xs h)
  ]
]

-- The depths from `d`, as many as `n`.
abbrev in_layers : ℕ → ℕ → DirRecord → Bool
in_layers n d rec = leb d (depth rec.rel_path) && ltb (depth rec.rel_path) (d + n)

keep-cong :
    (p q : DirRecord → Bool) (xs : List DirRecord)
    → ((x : DirRecord) → p x ≡ q x)
    → keep p xs ≡ keep q xs
keep-cong p q xs h = ap (λ f. keep f xs) (λ i x. h x i)

keep-nothing :
    (p : DirRecord → Bool) (xs : List DirRecord) → ((x : DirRecord) → p x ≡ false) → keep p xs ≡ []
keep-nothing p [] h = refl
keep-nothing p (x ∷ xs) h = rw (h x) (keep-nothing p xs h)

layer-perm :
    (d : ℕ) (recs : List DirRecord) → Perm (layer d recs) (keep (λ r. depth r.rel_path == d) recs)
unfolding layer
layer-perm d recs = sort-perm path_leb _

module _ (sys : System) (fair : (xs : List DirRecord) → Perm (sys.schedule xs) xs) where
  downward-perm :
      (n d : ℕ) (recs : List DirRecord) → Perm (downward sys n d recs) (keep (in_layers n d) recs)
  unfolding downward
  downward-perm zero d recs =
      rw (keep-nothing (in_layers 0 d) recs (λ x. ground arith)) (Perm.refl [])
  downward-perm (suc n) d recs =
      Perm.trans
        (Perm.append (Perm.trans (fair (layer d recs)) (layer-perm d recs))
          (downward-perm n (suc d) recs))
        (rw
          (keep-cong (in_layers (suc n) d) (λ r. (depth r.rel_path == d) || in_layers n (suc d) r)
            recs (λ x. ground arith))
          (keep-perm (λ r. depth r.rel_path == d) (in_layers n (suc d)) recs (λ x h. ground arith)))

keep-everything :
    (p : DirRecord → Bool) (xs : List DirRecord) → All (λ x. p x ≡ true) xs → keep p xs ≡ xs
keep-everything p [] h = refl
keep-everything p (x ∷ xs) (h, hs) = rw h (ap (◌∷◌ x) (keep-everything p xs hs))

-- No record is deeper than the deepest.
max_depth-All :
    (recs : List DirRecord) (m : ℕ)
    → max_depth recs ≤ m
    → All (λ r. in_layers (suc m) 0 r ≡ true) recs
unfolding max_depth
max_depth-All [] m h = tt
max_depth-All (r ∷ recs) m h = (ground arith, max_depth-All recs m (ground arith))

abbrev pub every : (DirRecord → Bool) → List DirRecord → Bool
every p [] = true
every p (x ∷ xs) = p x && every p xs

every_D : (p : DirRecord → Bool) {xs ys : List DirRecord} → Permᴰ xs ys → every p xs ≡ every p ys
every_D p Permᴰ.nil = refl
every_D p (Permᴰ.cons e d) = cc (e, every_D p d)
every_D p (Permᴰ.swap e f) = rw (e, f) (ground arith)
every_D p (Permᴰ.trans d e) = every_D p d ∙ every_D p e

every-perm : (p : DirRecord → Bool) (xs ys : List DirRecord) → Perm xs ys → every p xs ≡ every p ys
every-perm p xs ys h = ∥∥₁_elim h (Bool-set (every p xs) (every p ys)) (every_D p)

every-keep : (p : DirRecord → Bool) (xs : List DirRecord) → every p (keep p xs) ≡ true
every-keep p [] = refl
every-keep p (x ∷ xs) = elim (Bool-cases (p x)) [
  | inl e ↦ rw (e, e) (every-keep p xs)
  | inr e ↦ rw e (every-keep p xs)
]

-- The depths of the directories, in order, never decrease.
abbrev pub Deepens : List DirRecord → Type 0
Deepens [] = Unit
Deepens (x ∷ xs) = (every (λ y. leb (depth x.rel_path) (depth y.rel_path)) xs ≡ true) × Deepens xs

pub every_weaken :
    (p q : DirRecord → Bool) (xs : List DirRecord)
    → ((x : DirRecord) → p x ≡ true → q x ≡ true)
    → every p xs ≡ true
    → every q xs ≡ true
every_weaken p q [] h k = refl
every_weaken p q (x ∷ xs) h k = ground (arith, h x, every_weaken p q xs h)

pub every-append :
    (p : DirRecord → Bool) (xs ys : List DirRecord) → every p (xs ++ ys) ≡ every p xs && every p ys
every-append p [] ys = refl
every-append p (x ∷ xs) ys = ground (arith, every-append p xs ys)

module _ (d : ℕ) where
  -- One layer, then what is not above it.
  layer_first :
      (xs ys : List DirRecord)
      → every (λ r. depth r.rel_path == d) xs ≡ true
      → every (λ r. leb d (depth r.rel_path)) ys ≡ true
      → Deepens ys
      → Deepens (xs ++ ys)
  layer_first [] ys h k o = o
  layer_first (x ∷ xs) ys h k o =
      let later = layer_first xs ys (ground arith) k o in
      let e : depth x.rel_path ≡ d = ground arith in
      let h1 : every (λ r. depth r.rel_path == d) xs ≡ true = ground arith in
      let here =
        every_weaken (λ r. depth r.rel_path == d) (λ y. leb d (depth y.rel_path)) xs
          (λ x h. ground arith) h1 in
      (rw (e, every-append, here) k, later)

module _ (sys : System) (fair : (xs : List DirRecord) → Perm (sys.schedule xs) xs) where
  pub scheduled_depth :
      (d : ℕ) (recs : List DirRecord)
      → every (λ r. depth r.rel_path == d) (sys.schedule (layer d recs)) ≡ true
  scheduled_depth d recs =
      every-perm _ _ _ (Perm.trans (fair (layer d recs)) (layer-perm d recs))
      ∙ every-keep (λ r. depth r.rel_path == d) recs

  downward_above :
      (n d : ℕ) (recs : List DirRecord)
      → every (λ r. leb d (depth r.rel_path)) (downward sys n d recs) ≡ true
  unfolding downward
  downward_above zero d recs = refl
  downward_above (suc n) d recs = rw every-append (
      cc (
        every_weaken (λ r. depth r.rel_path == d) (λ r. leb d (depth r.rel_path)) _
            (λ x h. ground arith) (scheduled_depth d recs),
        every_weaken (λ r. leb (suc d) (depth r.rel_path)) (λ r. leb d (depth r.rel_path)) _
            (λ x h. ground arith) (downward_above n (suc d) recs),
      ))

  downward-Deepens : (n d : ℕ) (recs : List DirRecord) → Deepens (downward sys n d recs)
  unfolding downward
  downward-Deepens zero d recs = tt
  downward-Deepens (suc n) d recs =
      layer_first d _ _ (scheduled_depth d recs)
        (every_weaken (λ r. leb (suc d) (depth r.rel_path)) (λ r. leb d (depth r.rel_path)) _
          (λ x h. ground arith) (downward_above n (suc d) recs))
        (downward-Deepens n (suc d) recs)

  -- The forward pass over all layers is one run over the records, each of them once, in an order in
  -- which no directory comes before one of a smaller depth, if the workers of a layer take each record once.
  pub forward_visits :
      (cfg : RestoreConfig) (folder : Text) (recs : List DirRecord) (s : Progress)
      → (visits : List DirRecord) × (forward sys cfg folder (suc (max_depth recs)) 0 recs s
          ≡ forward_layer sys cfg folder visits s)
        × Perm visits recs
        × Deepens visits
  forward_visits cfg folder recs s =
      let n = suc (max_depth recs) in
      (
        downward sys n 0 recs,
        forward-downward sys cfg folder n 0 recs s,
        subst (Perm (downward sys n 0 recs))
            (keep-everything _ recs (max_depth-All recs (max_depth recs) (omega arith)))
            (downward-perm sys fair n 0 recs),
        downward-Deepens n 0 recs,
      )
