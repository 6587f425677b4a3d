-- ===== src/Core/Mirror/Visits.antt =====
-- internal/core/mirror.go: what a success of the evacuation says of the items.
use dtreesync.Base.{
  Text, Bool, true, false, Option, none, some, List, [], ◌∷◌, ◌++◌, ◌≡◌, refl, sym, ◌∙◌, ap, ◌⊎◌,
  inl, inr, arith, append_assoc, Bool-cases, All,
}
use mathlib.Core.Path.{subst}
use dtreesync.Base.GoPath.{join_path}
use dtreesync.Model.Types.{Result, ok, err}
use dtreesync.Model.Path.{validate_and_clean_path}
use dtreesync.Core.Mirror.{
  Node, Part, Event, remove, System, Packed, Outcome, wrote_all, prefixed, after_pack,
  evacuate_item, evacuate_items, finish, into, evacuate_untracked, add_file_to_tar,
}
use dtreesync.Core.Mirror.Contents.{Saved, packed-Saved}

-- At some point of the run the item is not there; or it is found there, the parts that are written next
-- hold all of it, and right after them its removal is called, which may fail.
abbrev pub IsHandled : System → Text → List Event → Text → Type 0
IsHandled sys target es rel =
    (before : List Event) × (after : List Event) × (es ≡ before ++ after)
    × ((sys.lstat before (join_path target rel) ≡ none)
        ⊎ ((n : Node) × (ps : List Part) × (done : Bool) × (rest : List Event) × (sys.lstat before
                (join_path target rel)
              ≡ some n)
            × Saved ps rel n
            × (sys.can_remove (before ++ wrote_all ps) (join_path target rel) ≡ done)
            × (after ≡ wrote_all ps ++ (remove (join_path target rel) done ∷ rest))))

prefixed-none :
    (now es : List Event) (o : Outcome)
    → prefixed now o ≡ (es, none)
    → (fs : List Event) × (o ≡ (fs, none)) × (es ≡ now ++ fs)
prefixed-none now es (fs, e) h = (fs, ground arith, ground arith)

module _ (sys : System) (target : Text) where
  after_pack-Handled :
      (done es : List Event) (rel : Text) (n : Node) (rels : List Text)
      (rest : List Event → Outcome) (p : Packed)
      → sys.lstat done (join_path target rel) ≡ some n
      → add_file_to_tar sys (join_path target rel) rel n ≡ p
      → after_pack sys done (join_path target rel) rest p ≡ (es, none)
      → ((d fs : List Event) → rest d ≡ (fs, none) → All (IsHandled sys target (d ++ fs)) rels)
      → All (IsHandled sys target (done ++ es)) (rel ∷ rels)
  after_pack-Handled done es rel n rels rest (ps, false) l packed e h = cc
  after_pack-Handled done es rel n rels rest (ps, true) l packed e h =
      let r =
        remove (join_path target rel)
          (sys.can_remove (done ++ wrote_all ps) (join_path target rel)) in
      let now = wrote_all ps ++ (r ∷ []) in
      let (fs, o, k) = prefixed-none now es (rest (done ++ now)) e in
      (
        (
          done,
          es,
          refl,
          inr (
            n,
            ps,
            sys.can_remove (done ++ wrote_all ps) (join_path target rel),
            fs,
            l,
            packed-Saved sys (join_path target rel) rel n ps packed,
            refl,
            k ∙ append_assoc (wrote_all ps) (r ∷ []) fs,
          ),
        ),
        subst (λ l. All (IsHandled sys target l) rels)
            (append_assoc done now fs ∙ ap (λ l. done ++ l) (sym k)) (h (done ++ now) fs o),
      )

  evacuate_item-Handled :
      (done es : List Event) (rel : Text) (rels : List Text) (rest : List Event → Outcome)
      (found : Option Node)
      → sys.lstat done (join_path target rel) ≡ found
      → evacuate_item sys done (join_path target rel) rel rest found ≡ (es, none)
      → ((d fs : List Event) → rest d ≡ (fs, none) → All (IsHandled sys target (d ++ fs)) rels)
      → All (IsHandled sys target (done ++ es)) (rel ∷ rels)
  evacuate_item-Handled done es rel rels rest none l e h = ((done, es, refl, inl l), h done es e)
  evacuate_item-Handled done es rel rels rest (some n) l e h =
      after_pack-Handled done es rel n rels rest _ l refl e h

  items-Handled :
      (rels : List Text) (done es : List Event)
      → evacuate_items sys target done rels ≡ (es, none)
      → All (IsHandled sys target (done ++ es)) rels
  unfolding evacuate_items
  items-Handled [] done es e = tt
  items-Handled (rel ∷ rels) done es e = elim (Bool-cases (sys.is_done done)) [
    | inl late ↦ absurd (ground arith)
    | inr more ↦
        evacuate_item-Handled done es rel rels (λ d. evacuate_items sys target d rels) _ refl
          (rw more at e) (items-Handled rels)
  ]

finish-ok :
    (sys : System) (archive a : Text) (o : Outcome) (es : List Event)
    → finish sys archive o ≡ (es, ok a)
    → (o ≡ (es, none)) × (a ≡ archive) × (sys.can_close_tar ≡ true) × (sys.can_close_zstd ≡ true)
finish-ok sys archive a (es, some x) fs e = cc
finish-ok sys archive a (es, none) fs e = ground arith

into-Handled :
    (sys : System) (items : List Text) (target a : Text) (archive : Result Text) (es : List Event)
    → into sys items target archive ≡ (es, ok a)
    → All (IsHandled sys target es) items × (sys.can_close_tar ≡ true) × (sys.can_close_zstd ≡ true)
into-Handled sys items target a (err x) es e = cc
into-Handled sys items target a (ok archive) es e =
    let k : finish sys (join_path archive sys.archive_name) (evacuate_items sys target [] items)
        ≡ (es, ok a) =
      ground arith in
    let (o, _, t, z) = finish-ok sys _ a _ es k in (items-Handled sys target items [] es o, t, z)

-- If the evacuation gives an archive for a list of items, then each of them was missing at some point of
-- the run, or was found then, the parts that hold all of it were written, and right after them its removal
-- was called, which may have failed; and the archive was closed with no error.
pub evacuate-Handled :
    (sys : System) (target_folder archive_folder target rel a : Text) (rels : List Text)
    (es : List Event)
    → validate_and_clean_path target_folder ≡ ok target
    → evacuate_untracked sys target_folder archive_folder (rel ∷ rels) ≡ (es, ok a)
    → All (IsHandled sys target es) (rel ∷ rels)
      × (sys.can_close_tar ≡ true)
      × (sys.can_close_zstd ≡ true)
unfolding evacuate_untracked
evacuate-Handled sys target_folder archive_folder target rel a rels es v e =
    into-Handled sys (rel ∷ rels) target a (validate_and_clean_path archive_folder) es (rw v at e)
