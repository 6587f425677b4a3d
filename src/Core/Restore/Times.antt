-- ===== src/Core/Restore/Times.antt =====
-- internal/core/restore.go: when the reverse pass sets the timestamps.
use mathlib.Core.List.{Perm}
use dtreesync.Base.{
  Text, ℕ, zero, suc, ◌<◌, Bool, true, not, ◌&&◌, List, [], ◌∷◌, ◌++◌, append_assoc, ◌==◌, text_eq,
  nat_eq, ◌≡◌, refl, sym, ◌∙◌, ap, inl, inr, All, arith, Bool-cases, ltb, leb, map,
}
use dtreesync.Model.Types.{DirRecord, RestoreConfig, Result, ok, err, RestoreResult}
use dtreesync.Model.Path.{validate_and_clean_path, parse_base_substitute}
use dtreesync.Core.Restore.{
  System, Progress, Call, set_times, time_call, target_path, leaves_target, forward, set_dir_times,
  reverse_layer, reverse_pass, layer, depth, max_depth, restore, collect, start,
}
use dtreesync.Core.Restore.Paths.{IfOk, IfOk-bind, IfOk-ok}
use dtreesync.Core.Restore.Calls.{forward-All}
use dtreesync.Core.Restore.Passes.{scheduled_depth, every, every_weaken, every-append, Deepens}

abbrev pub IsTimeCall : Call → Type 0
IsTimeCall (set_times _ _ _ _) = Unit
IsTimeCall _ = ⊥

-- No timestamp has been set.
abbrev pub NoTimes : List Call → Type 0
NoTimes = All (λ c. ¬ IsTimeCall c)

map_append :
    (f : DirRecord → Call) (xs ys : List DirRecord) → map f (xs ++ ys) ≡ map f xs ++ map f ys
map_append f [] ys = refl
map_append f (x ∷ xs) ys = ap (◌∷◌ (f x)) (map_append f xs ys)

module _ (sys : System) (cfg : RestoreConfig) (folder : Text) where
  -- The directories whose timestamps were set, the last one first, and the calls before.
  abbrev Added : (DirRecord → Bool) → Progress → Progress → Type 0
  Added p s t =
      (vs : List DirRecord) × (t.calls ≡ map (time_call folder) vs ++ s.calls) × (every p vs ≡ true)

  set_dir_times-Added :
      (p : DirRecord → Bool) (rec : DirRecord) (s : Progress)
      → p rec ≡ true
      → Added p s (set_dir_times sys cfg folder rec s)
  unfolding set_dir_times
  set_dir_times-Added p rec s h = elim (Bool-cases (sys.is_late s.calls)) [
    | inl late ↦ rw late ([], refl, refl)
    | inr late ↦
        elim (Bool-cases
          (not (rec.rel_path == []) && leaves_target folder (target_path folder rec.rel_path))) [
            | inl e ↦ rw (late, e) ([], refl, refl)
            | inr e ↦ rw (late, e) (rec ∷ [], refl, rw h)
          ]
  ]

  reverse_layer-Added :
      (p : DirRecord → Bool) (recs : List DirRecord) (s : Progress)
      → every p recs ≡ true
      → Added p s (reverse_layer sys cfg folder recs s)
  unfolding reverse_layer
  reverse_layer-Added p [] s h = ([], refl, refl)
  reverse_layer-Added p (rec ∷ recs) s h = elim (Bool-cases (sys.is_done s.calls)) [
    | inl f ↦ rw f ([], refl, refl)
    | inr f ↦
        let t = set_dir_times sys cfg folder rec s in
        let (vs, e, k) = set_dir_times-Added p rec s (ground arith) in
        let (ws, e', k') = reverse_layer-Added p recs t (ground arith) in
        rw f (
          ws ++ vs,
          e'
              ∙ ap (◌++◌ (map (time_call folder) ws)) e
              ∙ sym (append_assoc (map (time_call folder) ws) (map (time_call folder) vs) s.calls)
              ∙ ap (λ l. l ++ s.calls) (sym (map_append (time_call folder) ws vs)),
          rw (every-append, k, k'),
        )
  ]

-- A layer behind what is above it.
layer_last :
    (d : ℕ) (xs ys : List DirRecord)
    → every (λ r. ltb (depth r.rel_path) d) xs ≡ true
    → Deepens xs
    → every (λ r. depth r.rel_path == d) ys ≡ true
    → Deepens (xs ++ ys)
layer_last d [] [] h o k = tt
layer_last d [] (y ∷ ys) h o k =
    let e : depth y.rel_path ≡ d = ground arith in
    let h1 : every (λ r. depth r.rel_path == d) ys ≡ true = ground arith in
    (
      every_weaken (λ r. depth r.rel_path == d) _ ys (λ x h. ground arith) h1,
      layer_last d [] ys refl tt h1,
    )
layer_last d (x ∷ xs) ys h (o, os) k =
    let h0 : depth x.rel_path < d = ground arith in
    let h1 : every (λ r. ltb (depth r.rel_path) d) xs ≡ true = ground arith in
    let later : every (λ y. leb (depth x.rel_path) (depth y.rel_path)) ys ≡ true =
      every_weaken (λ r. depth r.rel_path == d) _ ys (λ x h. ground arith) k in
    (rw (every-append, o) later, layer_last d xs ys h1 os k)

module _ (sys : System) (fair : (xs : List DirRecord) → Perm (sys.schedule xs) xs)
    (cfg : RestoreConfig) (folder : Text) (recs : List DirRecord) where
  -- The layers from the deepest one up: the timestamps of a directory are set after those below it.
  reverse_pass-Deepens :
      (n : ℕ) (s : Progress)
      → (vs : List DirRecord) × ((reverse_pass sys cfg folder n recs s).calls
          ≡ map (time_call folder) vs ++ s.calls)
        × (every (λ r. ltb (depth r.rel_path) n) vs ≡ true)
        × Deepens vs
  unfolding reverse_pass
  reverse_pass-Deepens zero s = ([], refl, refl, tt)
  reverse_pass-Deepens (suc n) s =
      let deepest = sys.schedule (layer n recs) in
      let t = reverse_layer sys cfg folder deepest s in
      let (ws, e, k) =
        reverse_layer-Added sys cfg folder (λ r. depth r.rel_path == n) deepest s
          (scheduled_depth sys fair n recs) in
      let (vs, e', k', o) = reverse_pass-Deepens n t in
      (
        vs ++ ws,
        e'
            ∙ ap (◌++◌ (map (time_call folder) vs)) e
            ∙ sym (append_assoc (map (time_call folder) vs) (map (time_call folder) ws) s.calls)
            ∙ ap (λ l. l ++ s.calls) (sym (map_append (time_call folder) vs ws)),
        rw
            (
              every-append,
              every_weaken (λ r. ltb (depth r.rel_path) n) (λ r. ltb (depth r.rel_path) (suc n)) vs
                  (λ x h. ground arith) k',
            )
            (every_weaken (λ r. depth r.rel_path == n) (λ r. ltb (depth r.rel_path) (suc n)) ws
              (λ x h. ground arith) k),
        layer_last n vs ws k' o k,
      )

-- The calls of a restore, the last one first: the timestamps of directories whose depths never
-- fall towards the start, and before them no call that sets a timestamp.
abbrev pub TimesLast : Text → List Call → Type 0
TimesLast folder calls =
    (vs : List DirRecord) × (before : List Call) × (calls ≡ map (time_call folder) vs ++ before)
    × Deepens vs
    × NoTimes before

module _ (sys : System) (fair : (xs : List DirRecord) → Perm (sys.schedule xs) xs)
    (cfg : RestoreConfig) (folder : Text) where
  restored-TimesLast :
      (snapshot : Result (List DirRecord)) (bases : Result (Text × Text))
      → validate_and_clean_path cfg.target_folder ≡ ok folder
      → parse_base_substitute cfg.base_substitute ≡ bases
      → IfOk (λ (_, calls). TimesLast folder calls) (restore sys cfg snapshot)
  unfolding restore
  restored-TimesLast (err _) (ok b) e f = rw (e, f) tt
  restored-TimesLast snapshot (err _) e f = rw (e, f) tt
  restored-TimesLast (ok read) (ok bases) e f =
      let recs = collect cfg folder bases read in
      rw (e, f)
        (IfOk-bind _ (forward sys cfg folder (suc (max_depth recs)) 0 recs start) _
          (forward-All sys cfg folder (λ c. ¬ IsTimeCall c) (λ _ _ _ h. h) (λ _ _ _ h. h)
            (suc (max_depth recs)) 0 recs start tt)
          (λ t h.
            let (vs, eq, _, o) =
              reverse_pass-Deepens sys fair cfg folder recs (suc (max_depth recs)) t in
            (vs, t.calls, eq, o, h)))

-- A restore that succeeds sets timestamps only after its last call that creates a directory or applies
-- metadata, and never those of a directory before those of a deeper one, if the workers of a layer take
-- each record once.
pub restore-TimesLast :
    (sys : System) (cfg : RestoreConfig) (snapshot : Result (List DirRecord)) (folder : Text)
    (result : RestoreResult) (calls : List Call)
    → ((xs : List DirRecord) → Perm (sys.schedule xs) xs)
    → validate_and_clean_path cfg.target_folder ≡ ok folder
    → restore sys cfg snapshot ≡ ok (result, calls)
    → TimesLast folder calls
restore-TimesLast sys cfg snapshot folder result calls fair h k =
    IfOk-ok (λ (_, calls). TimesLast folder calls) k
      (restored-TimesLast sys fair cfg folder snapshot (parse_base_substitute cfg.base_substitute) h
        refl)
