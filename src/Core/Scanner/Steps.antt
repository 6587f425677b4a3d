-- ===== src/Core/Scanner/Steps.antt =====
-- internal/core/scanner.go: how long a run of the workers can be.
use dtreesync.Base.{
  Text, ℕ, suc, ◌+◌, ◌≤◌, List, [], ◌∷◌, ◌++◌, ◌≡◌, ◌↔◌, refl, ap, inl, inr, Bool-cases,
  if◌then◌else◌, arith,
}
use dtreesync.Model.Types.{PlatformMeta, ScanOptions}
use dtreesync.Core.Scanner.{
  Entry, file, link, folder, Entries, end, also, is_selected, child_path, ScanTask, read_subdirs,
  Scan, Step, take, start, Run, stop, step,
}

-- The directories below a directory that the selection reaches.
unfoldable mutual
  pub reached : ScanOptions → Text → Entries → ℕ
  reached opts dir end = 0
  reached opts dir (also e es) = reached_entry opts dir e + reached opts dir es

  pub reached_entry : ScanOptions → Text → Entry → ℕ
  reached_entry opts dir (file name) = 0
  reached_entry opts dir (link name) = 0
  reached_entry opts dir (folder name same_device m inside) =
      let below = suc (reached opts (child_path dir name) inside) in
      if is_selected opts dir name same_device then below else 0

-- The tasks that a queue stands for, those still to come included.
unfoldable pub size : ScanOptions → List ScanTask → ℕ
size opts [] = 0
size opts (t ∷ ts) = suc (reached opts t.rel_path t.entries) + size opts ts

size-cons :
    (opts : ScanOptions) (t : ScanTask) (ts : List ScanTask)
    → size opts (t ∷ ts) ≡ suc (reached opts t.rel_path t.entries) + size opts ts
unfolding size
size-cons opts t ts = refl

size-empty : (opts : ScanOptions) (q : List ScanTask) → q ≡ [] → size opts q ≡ 0
unfolding size
size-empty opts q e = rw e refl

size-append :
    (opts : ScanOptions) (xs ys : List ScanTask)
    → size opts (xs ++ ys) ≡ size opts xs + size opts ys
unfolding size
size-append opts [] ys = omega arith
size-append opts (x ∷ xs) ys = omega (arith, size-append opts xs ys)

size-read_subdirs :
    (opts : ScanOptions) (dir : Text) (es : Entries)
    → size opts (read_subdirs opts dir es) ≡ reached opts dir es
unfolding size read_subdirs reached
size-read_subdirs opts dir end = refl
size-read_subdirs opts dir (also (file name) es) = omega (arith, size-read_subdirs opts dir es)
size-read_subdirs opts dir (also (link name) es) = omega (arith, size-read_subdirs opts dir es)
size-read_subdirs opts dir (also (folder name same m inside) es) =
    elim (Bool-cases (is_selected opts dir name same)) [
      | inl e ↦ rw (e, size-read_subdirs opts dir es)
      | inr e ↦ rw (e, size-read_subdirs opts dir es) (omega arith)
    ]

unfoldable pub steps : {opts : ScanOptions} {s t : Scan} → Run opts s t → ℕ
steps stop = 0
steps (step st run) = suc (steps run)

size-nil : (opts : ScanOptions) (q : List ScanTask) → size opts q ≡ 0 → q ≡ []
unfolding size
size-nil opts [] h = refl
size-nil opts (t ∷ ts) h = absurd (omega arith)

Step-size :
    (opts : ScanOptions) (s t : Scan) → Step opts s t → suc (size opts t.queue) ≡ size opts s.queue
Step-size opts s t (take before task after e) =
    let new = read_subdirs opts task.rel_path task.entries in
    let top : size opts (task ∷ after)
        ≡ suc (reached opts task.rel_path task.entries) + size opts after =
      size-cons opts task after in
    omega (
      arith,
      ap (size opts) e,
      top,
      size-append opts before (task ∷ after),
      size-append opts (before ++ after) new,
      size-append opts before after,
      size-read_subdirs opts task.rel_path task.entries,
    )

steps-size :
    (opts : ScanOptions) (s t : Scan) (run : Run opts s t)
    → steps run + size opts t.queue ≡ size opts s.queue
unfolding steps
steps-size opts s t stop = omega arith
steps-size opts s u (step {t} st run) =
    omega (arith, Step-size opts s t st, steps-size opts t u run)

-- A scan ends whatever the workers do: a run takes at most one step for each directory below the root
-- that the selection reaches, and after exactly so many steps, and not before, the backlog is empty.
pub steps_bounded :
    (opts : ScanOptions) (m : PlatformMeta) (es : Entries) (t : Scan)
    (run : Run opts (start opts m es) t)
    → (steps run ≤ reached opts [] es) × ((t.queue ≡ []) ↔ (steps run ≡ reached opts [] es))
unfolding start
steps_bounded opts m es t run =
    let total = steps-size opts (start opts m es) t run in
    let first = size-read_subdirs opts [] es in
    (
      omega arith,
      ((λ e. omega (arith, size-empty opts t.queue e)), λ k. size-nil opts t.queue (omega arith)),
    )
