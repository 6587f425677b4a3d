-- ===== src/Core/Retention/Policy.antt =====
-- Which snapshots a run of the retention removes.
use dtreesync.Base.{
  Text, ℕ, zero, suc, ◌+◌, ◌-◌, ◌*◌, ◌^◌, ◌≤◌, ◌<◌, Bool, true, Option, some, List, [], ◌∷◌, ◌≡◌,
  refl, ◌⊎◌, inl, inr, ◌↔◌, leb, min, map, drop, All, arith, Bool-cases, leb→le, drop-nil,
}
use dtreesync.Base.Int.{pos, negsuc}
use mathlib.Core.List.{Perm}
use native.Mathlib.Nat.{sub-zero}
use dtreesync.Base.{not_leb}
use dtreesync.Base.Sort.{sort, sort-perm, Ordered, sort-Ordered}
use dtreesync.Model.Types.{ok}
use dtreesync.Model.Path.{validate_and_clean_path}
use dtreesync.Core.Retention.{
  Entry, snapshots, newer, apply_retention, exceeds_count, FileMeta, day, retention_window, age,
  exceeds_age, should_purge, purge,
}

window_exact : (days : ℕ) → days ≤ 106751 → retention_window days ≡ pos (days * day)
unfolding retention_window
window_exact days h = ground arith

age_of_past : (now t : ℕ) → t ≤ now → age now t ≡ pos (min (now - t) (2 ^ 63 - 1))
unfolding age
age_of_past now t h = ground arith

age_of_future : (now t : ℕ) → now < t → age now t ≡ negsuc (min (t - now - 1) (2 ^ 63 - 1))
unfolding age
age_of_future now t h = ground arith

exceeds_past :
    (days now t : ℕ)
    → 0 < days
    → days ≤ 106751
    → t ≤ now
    → (exceeds_age (pos days) now t ≡ true) ↔ (t + days * day < now)
exceeds_past days now t p q h =
    rw (window_exact days q, age_of_past now t h) (ground arith, ground arith)

-- With windows of at most 106,751 days, the age test is the exact comparison of the two times.
pub exceeds_age_exact :
    (days now t : ℕ)
    → 0 < days
    → days ≤ 106751
    → (exceeds_age (pos days) now t ≡ true) ↔ (t + days * day < now)
exceeds_age_exact days now t p q = elim (Bool-cases (leb t now)) [
  | inl h ↦ exceeds_past days now t p q (leb→le t now h)
  | inr h ↦
      rw (window_exact days q, age_of_future now t (ground arith))
        (λ e. absurd (ground arith), λ e. absurd (ground arith))
]

window_wrapped :
    (days : ℕ) → 106751 < days → days ≤ 213503 → (n : ℕ) × (retention_window days ≡ negsuc n)
unfolding retention_window
window_wrapped days h k = (2 ^ 64 - days * day - 1, ground arith)

-- Windows of 106,752 to 213,503 days wrap around to negative ones, and every snapshot that is not from
-- the future counts as older than such a window.
pub exceeds_age_wrapped :
    (days now t : ℕ) → 106751 < days → days ≤ 213503 → t ≤ now → exceeds_age (pos days) now t ≡ true
exceeds_age_wrapped days now t h k l =
    let (n, e) = window_wrapped days h k in rw (e, age_of_past now t l) (ground arith)

abbrev pub path_of : FileMeta → Text
path_of s = s.path

by_count :
    (count idx now : ℕ) (s : FileMeta)
    → 0 < count
    → should_purge (pos 0) (pos count) now idx s ≡ leb count idx
unfolding should_purge
by_count count idx now s h = ground arith

purge_count :
    (count idx now : ℕ) (snaps : List FileMeta)
    → 0 < count
    → purge (pos 0) (pos count) now (λ _. true) idx snaps ≡ map path_of (drop (count - idx) snaps)
unfolding purge
purge_count count idx now [] h = rw drop-nil
purge_count count idx now (s ∷ snaps) h = elim (Bool-cases (leb count idx)) [
  | inl e ↦
      let none_left : count - idx ≡ 0 = ground arith in
      let still_none : count - suc idx ≡ 0 = ground arith in
      rw (
        by_count count idx now s h,
        e,
        purge_count count (suc idx) now snaps h,
        none_left,
        still_none,
      )
  | inr e ↦
      let one_more : count - idx ≡ suc (count - suc idx) = ground arith in
      rw (by_count count idx now s h, e, purge_count count (suc idx) now snaps h, one_more)
]

newer_total : (a b : FileMeta) → (newer a b ≡ true) ⊎ (newer b a ≡ true)
newer_total a b = ground arith

newer_trans : (a b c : FileMeta) → newer a b ≡ true → newer b c ≡ true → newer a c ≡ true
newer_trans a b c h k = ground arith

-- A run with a count and no age limit, on a directory that can be listed and where every removal
-- succeeds: it removes exactly the snapshots behind the first `count` of a list that holds the
-- considered snapshots, each as often, newest first.
pub apply_retention_count :
    (read_dir : Text → Option (List Entry)) (now : ℕ) (target_dir clean_dir prefix : Text)
    (count : ℕ) (entries : List Entry)
    → 0 < count
    → validate_and_clean_path target_dir ≡ ok clean_dir
    → read_dir clean_dir ≡ some entries
    → (ranked : List FileMeta) × Perm ranked (snapshots clean_dir prefix entries)
      × Ordered newer ranked
      × (apply_retention read_dir (λ _. true) now target_dir (pos 0) (pos count) prefix
          ≡ ok (map path_of (drop count ranked)))
unfolding apply_retention
apply_retention_count read_dir now target_dir clean_dir prefix count entries h valid listing =
    let found = snapshots clean_dir prefix entries in
    let ranked = sort newer found in
    (
      ranked,
      sort-perm newer found,
      sort-Ordered newer newer_total newer_trans found,
      rw (valid, listing, not_leb count 0 h, purge_count count 0 now ranked h, sub-zero),
    )

-- A snapshot at a rank may go: it is behind the count, or older than the window.
abbrev pub MayGo : ℕ → ℕ → ℕ → ℕ → FileMeta → Type 0
MayGo days count now rank s =
    ((0 < count) × (count ≤ rank)) ⊎ ((0 < days) × (s.mod_time + days * day < now))

-- One of the ranked snapshots that may go, by its path.
abbrev pub GoesFrom : ℕ → ℕ → ℕ → ℕ → List FileMeta → Text → Type 0
GoesFrom days count now rank [] p = ⊥
GoesFrom days count now rank (s ∷ snaps) p =
    ((p ≡ s.path) × MayGo days count now rank s) ⊎ GoesFrom days count now (suc rank) snaps p

older :
    (days now t : ℕ)
    → days ≤ 106751
    → exceeds_age (pos days) now t ≡ true
    → (0 < days) × (t + days * day < now)
older zero now t q h = cc h
older (suc days) now t q h = (omega arith, (exceeds_age_exact (suc days) now t (omega arith) q).0 h)

purged-MayGo :
    (days count now rank : ℕ) (s : FileMeta)
    → days ≤ 106751
    → should_purge (pos days) (pos count) now rank s ≡ true
    → MayGo days count now rank s
unfolding should_purge
purged-MayGo days count now rank s q h = elim (Bool-cases (exceeds_count (pos count) rank)) [
  | inl e ↦ inl (ground arith)
  | inr e ↦ inr (older days now s.mod_time q (rw e at h))
]

weaken :
    (days count now rank : ℕ) (s : FileMeta) (snaps : List FileMeta) (ps : List Text)
    → All (GoesFrom days count now (suc rank) snaps) ps
    → All (GoesFrom days count now rank (s ∷ snaps)) ps
weaken days count now rank s snaps [] _ = tt
weaken days count now rank s snaps (p ∷ ps) (h, hs) =
    (inr h, weaken days count now rank s snaps ps hs)

-- Every path that is removed is that of a listed snapshot which is ranked behind the count or is
-- older than the window, whichever removals fail. The window is at most 106,751 days.
pub purge_sound :
    (days count now rank : ℕ) (remove : Text → Bool) (snaps : List FileMeta)
    → days ≤ 106751
    → All (GoesFrom days count now rank snaps) (purge (pos days) (pos count) now remove rank snaps)
unfolding purge
purge_sound days count now rank remove [] q = tt
purge_sound days count now rank remove (s ∷ snaps) q =
    let more =
      weaken days count now rank s snaps _ (purge_sound days count now (suc rank) remove snaps q) in
    elim (Bool-cases (should_purge (pos days) (pos count) now rank s)) [
      | inr e ↦ rw e more
      | inl e ↦ elim (Bool-cases (remove s.path)) [
        | inr k ↦ rw (e, k) more
        | inl k ↦ rw (e, k) (inl (refl, purged-MayGo days count now rank s q e), more)
      ]
    ]
