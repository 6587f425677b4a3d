-- ===== src/Format/Lines.antt =====
-- The lines that a `bufio.Scanner` with the buffer of internal/format reads from a stream.
use dtreesync.Base.{
  Text, ℕ, ◌*◌, List, [], ◌∷◌, ◌++◌, append_assoc, ◌==◌, text_eq, nat_eq, ==_of_ne, ◌≡◌, ◌≢◌, refl,
  ap, All, Option, none, some, if◌then◌else◌,
}
use dtreesync.Base.Strings.{codes, split}
use dtreesync.Model.Types.{BackupMetadata, DirRecord, Result, ok, err, snapshot_corrupted}
use dtreesync.Base.Strings.Parts.{Lacks, split-append, split-ne-nil}

-- The limit of `scanner.Buffer`, in bytes.
abbrev pub max_line : ℕ
max_line = 16 * 1024 * 1024

-- The lines of a `bufio.Scanner`: no empty line behind the last newline.
abbrev pub drop_last_empty : List Text → List Text
drop_last_empty [] = []
drop_last_empty (l ∷ []) = if l == [] then [] else l ∷ []
drop_last_empty (l ∷ m ∷ ls) = l ∷ drop_last_empty (m ∷ ls)

unfoldable pub scan_lines : Text → List Text
unfolding split
scan_lines s = drop_last_empty (split b'\n' s)

-- A line in front of a stream.
pub scan_lines-cons :
    (l rest : Text) → Lacks b'\n' l → scan_lines (l ++ (b'\n' ∷ rest)) ≡ l ∷ scan_lines rest
unfolding scan_lines
scan_lines-cons l rest h =
    rw (split-append b'\n' l rest h) (go (split b'\n' rest) (split-ne-nil b'\n' rest))
  where
    go : (ls : List Text) → ls ≢ [] → drop_last_empty (l ∷ ls) ≡ l ∷ drop_last_empty ls
    go [] ne = absurd (ne refl)
    go (m ∷ ls) _ = refl

-- Lines, each with its newline.
abbrev pub text_of_lines : List Text → Text
text_of_lines [] = []
text_of_lines (l ∷ ls) = (l ++ codes "\n") ++ text_of_lines ls

pub scan_lines-text_of_lines :
    (ls : List Text) (rest : Text)
    → All (Lacks b'\n') ls
    → scan_lines (text_of_lines ls ++ rest) ≡ ls ++ scan_lines rest
scan_lines-text_of_lines [] rest _ = refl
scan_lines-text_of_lines (l ∷ ls) rest (h, hs) = rw (
  append_assoc,
  append_assoc,
  scan_lines-cons l (text_of_lines ls ++ rest) h,
  scan_lines-text_of_lines ls rest hs,
)

-- The carriage return that a `bufio.Scanner` drops from the end of a line.
unfoldable pub drop_cr : Text → Text
drop_cr [] = []
drop_cr (c ∷ []) = if c == b'\r' then [] else c ∷ []
drop_cr (c ∷ d ∷ s) = c ∷ drop_cr (d ∷ s)

-- The callback that keeps every record.
abbrev pub collect : List DirRecord → DirRecord → Result (List DirRecord)
collect recs rec = ok (recs ++ (rec ∷ []))

-- The end of a reader's loop.
abbrev pub require_header {ℓ} :
    {S : Type ℓ} → Option BackupMetadata → S → Result (BackupMetadata × S)
require_header none s = err snapshot_corrupted
require_header (some meta) s = ok (meta, s)

-- A line that ends with another character is whole.
pub drop_cr-append : (s : Text) (c : ℕ) → c ≢ b'\r' → drop_cr (s ++ (c ∷ [])) ≡ s ++ (c ∷ [])
unfolding drop_cr
drop_cr-append [] c h = rw (==_of_ne c b'\r' h)
drop_cr-append (d ∷ []) c h = rw (==_of_ne c b'\r' h)
drop_cr-append (d ∷ e ∷ s) c h = ap (◌∷◌ d) (drop_cr-append (e ∷ s) c h)
