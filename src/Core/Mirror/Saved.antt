-- ===== src/Core/Mirror/Saved.antt =====
-- internal/core/mirror.go: nothing is removed that is not in the archive.
use mathlib.Core.List.{Mem, mem-cons_self, mem-cons_of_mem}
use dtreesync.Base.{
  Text, Bool, true, false, Option, none, some, List, [], ◌∷◌, ◌++◌, ◌≡◌, refl, inl, inr,
  append_assoc, append-nil, Bool-cases, if◌then◌else◌,
}
use dtreesync.Base.GoPath.{join_path}
use dtreesync.Model.Types.{Result, ok, err, io_failure}
use dtreesync.Model.Path.{validate_and_clean_path}
use dtreesync.Core.Mirror.{
  Node, Part, Event, wrote, remove, System, Packed, add_file_to_tar, Outcome, wrote_all, after_pack,
  evacuate_item, evacuate_items, finish, into, evacuate_untracked,
}
use dtreesync.Core.Mirror.Contents.{Saved, packed-Saved}

-- What is removed is an item of the list, it was there before it was packed, and its parts, written just
-- before the removal, hold all of it.
abbrev pub RemovesSaved : System → Text → List Text → List Event → Text → Type 0
RemovesSaved sys target items earlier abs =
    (rel : Text) × (n : Node) × (start : List Event) × (ps : List Part) × Mem rel items
    × (abs ≡ join_path target rel)
    × (sys.lstat start abs ≡ some n)
    × (earlier ≡ start ++ wrote_all ps)
    × Saved ps rel n

module _ (sys : System) (target : Text) (items : List Text) where
  -- This holds of every removal among the events after the earlier ones.
  unfoldable pub AllSaved : List Event → List Event → Type 0
  AllSaved earlier [] = Unit
  AllSaved earlier (wrote p ∷ es) = AllSaved (earlier ++ (wrote p ∷ [])) es
  AllSaved earlier (remove abs done ∷ es) =
      RemovesSaved sys target items earlier abs × AllSaved (earlier ++ (remove abs done ∷ [])) es

  AllSaved-append :
      (earlier xs ys : List Event)
      → AllSaved earlier xs
      → AllSaved (earlier ++ xs) ys
      → AllSaved earlier (xs ++ ys)
  unfolding AllSaved
  AllSaved-append earlier [] ys _ h = rw (← append-nil earlier) h
  AllSaved-append earlier (wrote p ∷ xs) ys h k =
      AllSaved-append (earlier ++ (wrote p ∷ [])) xs ys h
        (rw (append_assoc earlier (wrote p ∷ []) xs) k)
  AllSaved-append earlier (remove abs done ∷ xs) ys (r, h) k = (
    r,
    AllSaved-append (earlier ++ (remove abs done ∷ [])) xs ys h
        (rw (append_assoc earlier (remove abs done ∷ []) xs) k),
  )

  AllSaved-wrote_all : (earlier : List Event) (ps : List Part) → AllSaved earlier (wrote_all ps)
  unfolding AllSaved
  AllSaved-wrote_all earlier [] = tt
  AllSaved-wrote_all earlier (p ∷ ps) = AllSaved-wrote_all (earlier ++ (wrote p ∷ [])) ps

  after_pack-AllSaved :
      (done : List Event) (rel : Text) (n : Node) (rest : List Event → Outcome) (p : Packed)
      → Mem rel items
      → sys.lstat done (join_path target rel) ≡ some n
      → add_file_to_tar sys (join_path target rel) rel n ≡ p
      → ((d : List Event) → AllSaved d (rest d).0)
      → AllSaved done (after_pack sys done (join_path target rel) rest p).0
  unfolding AllSaved
  after_pack-AllSaved done rel n rest (ps, false) m l e h = AllSaved-wrote_all done ps
  after_pack-AllSaved done rel n rest (ps, true) m l e h =
      let abs = join_path target rel in
      let r = remove abs (sys.can_remove (done ++ wrote_all ps) abs) in
      let saved = packed-Saved sys abs rel n ps e in
      let now = wrote_all ps ++ (r ∷ []) in
      AllSaved-append done now (rest (done ++ now)).0
        (AllSaved-append done (wrote_all ps) (r ∷ []) (AllSaved-wrote_all done ps)
          ((rel, n, done, ps, m, refl, l, refl, saved), tt))
        (h (done ++ now))

  evacuate_item-AllSaved :
      (done : List Event) (rel : Text) (rest : List Event → Outcome) (found : Option Node)
      → Mem rel items
      → sys.lstat done (join_path target rel) ≡ found
      → ((d : List Event) → AllSaved d (rest d).0)
      → AllSaved done (evacuate_item sys done (join_path target rel) rel rest found).0
  evacuate_item-AllSaved done rel rest none m l h = h done
  evacuate_item-AllSaved done rel rest (some n) m l h =
      after_pack-AllSaved done rel n rest _ m l refl h

  items-AllSaved :
      (rels : List Text) (done : List Event)
      → ((rel : Text) → Mem rel rels → Mem rel items)
      → AllSaved done (evacuate_items sys target done rels).0
  unfolding AllSaved evacuate_items
  items-AllSaved [] done m = tt
  items-AllSaved (rel ∷ rels) done m = elim (Bool-cases (sys.is_done done)) [
    | inl e ↦ rw e tt
    | inr e ↦ rw e (
        evacuate_item-AllSaved done rel (λ d. evacuate_items sys target d rels) _
          (m rel mem-cons_self) refl
          (λ d. items-AllSaved rels d (λ r k. m r (mem-cons_of_mem rel k))))
  ]

finish-AllSaved :
    (sys : System) (items : List Text) (target archive : Text) (o : Outcome)
    → AllSaved sys target items [] o.0
    → AllSaved sys target items [] (finish sys archive o).0
finish-AllSaved sys items target archive (es, none) h = h
finish-AllSaved sys items target archive (es, some e) h = h

if-AllSaved :
    (sys : System) (items : List Text) (target : Text) (b : Bool) (r s : List Event × Result Text)
    → AllSaved sys target items [] r.0
    → AllSaved sys target items [] s.0
    → AllSaved sys target items [] (if b then r else s).0
if-AllSaved sys items target true r s h k = h
if-AllSaved sys items target false r s h k = k

into-AllSaved :
    (sys : System) (items : List Text) (target : Text) (archive : Result Text)
    → AllSaved sys target items [] (into sys items target archive).0
unfolding AllSaved
into-AllSaved sys items target (err e) = tt
into-AllSaved sys items target (ok archive) =
    if-AllSaved sys items target sys.can_create _ ([], err io_failure)
      (finish-AllSaved sys items target (join_path archive sys.archive_name)
        (evacuate_items sys target [] items) (items-AllSaved sys target items items [] (λ r k. k)))
      tt

-- Whatever the calls of the system give, at each removal of a path from the target folder: the path is
-- that of an item of the list, and all files, links and directories that were found there have been
-- given to the tar writer, under their paths and just before the removal. What the writer and the
-- compressor still hold then reaches the archive when they are closed, after the last removal.
pub evacuate-AllSaved :
    (sys : System) (target_folder archive_folder target : Text) (items : List Text)
    → validate_and_clean_path target_folder ≡ ok target
    → AllSaved sys target items [] (evacuate_untracked sys target_folder archive_folder items).0
unfolding evacuate_untracked AllSaved
evacuate-AllSaved sys target_folder archive_folder target [] v = tt
evacuate-AllSaved sys target_folder archive_folder target (rel ∷ rels) v =
    rw v (into-AllSaved sys (rel ∷ rels) target (validate_and_clean_path archive_folder))
