-- ===== src/Core/Scanner/Runs.antt =====
-- internal/core/scanner.go: what a run sends does not depend on the order of the workers.
use mathlib.Core.List.{Perm}
use mathlib.Core.List.Perm
use mathlib.Core.List.{perm_middle}
use dtreesync.Base.{
  Text, List, [], ◌∷◌, ◌++◌, append_assoc, append-nil, ◌≡◌, refl, sym, ◌∙◌, ap, inl, inr,
  Bool-cases, if◌then◌else◌,
}
use mathlib.Core.Path.{subst}
use dtreesync.Model.Types.{DirRecord, PlatformMeta, ScanOptions}
use dtreesync.Core.Scanner.{
  Entry, file, link, folder, Entries, end, also, is_selected, child_path, ScanTask, read_subdirs,
  sent_by, Scan, Step, take, start, Run, stop, step,
}

-- One directory after the other, each before what is below it.
unfoldable mutual
  pub walk : ScanOptions → Text → Entries → List DirRecord
  walk opts dir end = []
  walk opts dir (also e es) = walk_entry opts dir e ++ walk opts dir es

  pub walk_entry : ScanOptions → Text → Entry → List DirRecord
  walk_entry opts dir (file name) = []
  walk_entry opts dir (link name) = []
  walk_entry opts dir (folder name same_device m inside) =
      let below = sent_by opts (child_path dir name) m ++ walk opts (child_path dir name) inside in
      if is_selected opts dir name same_device then below else []

-- What the tasks of a queue will send.
unfoldable pub pending : ScanOptions → List ScanTask → List DirRecord
pending opts [] = []
pending opts (t ∷ ts) =
    (sent_by opts t.rel_path t.metadata ++ walk opts t.rel_path t.entries) ++ pending opts ts

pending-cons :
    (opts : ScanOptions) (t : ScanTask) (ts : List ScanTask)
    → pending opts (t ∷ ts)
      ≡ (sent_by opts t.rel_path t.metadata ++ walk opts t.rel_path t.entries) ++ pending opts ts
unfolding pending
pending-cons opts t ts = refl

pending-append :
    (opts : ScanOptions) (xs ys : List ScanTask)
    → pending opts (xs ++ ys) ≡ pending opts xs ++ pending opts ys
unfolding pending
pending-append opts [] ys = refl
pending-append opts (x ∷ xs) ys =
    let first = sent_by opts x.rel_path x.metadata ++ walk opts x.rel_path x.entries in
    ap (λ r. first ++ r) (pending-append opts xs ys)
    ∙ sym (append_assoc first (pending opts xs) (pending opts ys))

pending-read_subdirs :
    (opts : ScanOptions) (dir : Text) (es : Entries)
    → pending opts (read_subdirs opts dir es) ≡ walk opts dir es
unfolding pending read_subdirs walk
pending-read_subdirs opts dir end = refl
pending-read_subdirs opts dir (also (file name) es) = pending-read_subdirs opts dir es
pending-read_subdirs opts dir (also (link name) es) = pending-read_subdirs opts dir es
pending-read_subdirs opts dir (also (folder name same m inside) es) =
    elim (Bool-cases (is_selected opts dir name same)) [
      | inl e ↦ rw (e, pending-read_subdirs opts dir es)
      | inr e ↦ rw (e, pending-read_subdirs opts dir es)
    ]

exchange : (xs ys : List DirRecord) → Perm (xs ++ ys) (ys ++ xs)
exchange [] ys = rw append-nil (Perm.refl ys)
exchange (x ∷ xs) ys = Perm.trans (Perm.cons x (exchange xs ys)) (Perm.symm (perm_middle ys xs))

-- The parts of two queues and what was sent.
rearrange :
    (pb pa w s x : List DirRecord)
    → Perm (((pb ++ pa) ++ w) ++ (s ++ x)) ((pb ++ ((s ++ w) ++ pa)) ++ x)
rearrange pb pa w s x =
    let turned : Perm (pa ++ (w ++ s)) ((s ++ w) ++ pa) =
      Perm.trans (exchange pa (w ++ s)) (Perm.append_right pa (exchange w s)) in
    let shape : ((pb ++ pa) ++ w) ++ (s ++ x) ≡ (pb ++ (pa ++ (w ++ s))) ++ x =
      append_assoc (pb ++ pa) w (s ++ x)
      ∙ append_assoc pb pa (w ++ (s ++ x))
      ∙ sym (
          append_assoc pb (pa ++ (w ++ s)) x
          ∙ ap (λ l. pb ++ l)
              (append_assoc pa (w ++ s) x ∙ ap (λ l. pa ++ l) (append_assoc w s x))) in
    subst (λ l. Perm l ((pb ++ ((s ++ w) ++ pa)) ++ x)) (sym shape)
      (Perm.append_right x (Perm.append_left pb turned))

-- Everything that is sent in the end.
abbrev total : ScanOptions → Scan → List DirRecord
total opts s = pending opts s.queue ++ s.sent

Step-total : (opts : ScanOptions) {s t : Scan} → Step opts s t → Perm (total opts t) (total opts s)
Step-total opts (take {s} before task after e) =
    let sent = sent_by opts task.rel_path task.metadata in
    let below = walk opts task.rel_path task.entries in
    let now : pending opts s.queue
        ≡ pending opts before ++ ((sent ++ below) ++ pending opts after) =
      ap (pending opts) e
      ∙ pending-append opts before (task ∷ after)
      ∙ ap (λ l. pending opts before ++ l) (pending-cons opts task after) in
    let then_on : pending opts ((before ++ after) ++ read_subdirs opts task.rel_path task.entries)
        ≡ (pending opts before ++ pending opts after) ++ below =
      pending-append opts (before ++ after) (read_subdirs opts task.rel_path task.entries)
      ∙ ap (λ l. l ++ pending opts (read_subdirs opts task.rel_path task.entries))
          (pending-append opts before after)
      ∙ ap (λ l. (pending opts before ++ pending opts after) ++ l)
          (pending-read_subdirs opts task.rel_path task.entries) in
    rw (now, then_on) (rearrange (pending opts before) (pending opts after) below sent s.sent)

Run-total : (opts : ScanOptions) {s t : Scan} → Run opts s t → Perm (total opts t) (total opts s)
Run-total opts stop = Perm.refl _
Run-total opts (step h r) = Perm.trans (Run-total opts r) (Step-total opts h)

-- A run that empties the queue has sent the root and then, in some order, what a walk over the tree
-- gives, each directory as often: the order in which the workers take their tasks makes no difference.
pub Run-walk :
    (opts : ScanOptions) (m : PlatformMeta) (entries : Entries) (t : Scan)
    → Run opts (start opts m entries) t
    → t.queue ≡ []
    → Perm t.sent (record { entity = []; rel_path = []; metadata = m } ∷ walk opts [] entries)
unfolding start
Run-walk opts m entries t r e =
    let root : DirRecord = record { entity = []; rel_path = []; metadata = m } in
    let all : Perm (pending opts t.queue ++ t.sent)
        (pending opts (read_subdirs opts [] entries) ++ (root ∷ [])) =
      Run-total opts r in
    let left : pending opts t.queue ++ t.sent ≡ t.sent =
      ap (λ q. pending opts q ++ t.sent) e ∙ nothing t in
    Perm.trans
      (subst (λ l. Perm l (walk opts [] entries ++ (root ∷ []))) left
        (subst (λ w. Perm (pending opts t.queue ++ t.sent) (w ++ (root ∷ [])))
          (pending-read_subdirs opts [] entries) all))
      (exchange (walk opts [] entries) (root ∷ []))
  where
    nothing : (s : Scan) → pending opts [] ++ s.sent ≡ s.sent
    nothing s = unfold pending in refl

abbrev pub scan : List ScanTask → List DirRecord → Scan
scan queue sent = record { queue = queue; sent = sent }
