-- ===== src/Core/Verify/Rows.antt =====
-- internal/core/verify.go: the lines before the data rows, and the rows, as the TSV writer leaves them.
use dtreesync.Base.{
  Text, ℕ, true, false, ◌||◌, some, List, [], ◌∷◌, ◌++◌, append_assoc, append-nil, ◌≡◌, ◌≢◌, refl,
  sym, ◌∙◌, ap, ◌⊎◌, inl, inr, ◌==◌, text_eq, nat_eq, eq_refl, ==_of_ne, All, Bool-cases, arith,
  map, if◌then◌else◌,
}
use mathlib.Core.List.{cons-ne-nil}
use dtreesync.Base.Strings.{codes, join, has_prefix}
use dtreesync.Base.Strings.Parts.{Lacks}
use dtreesync.Format.Lines.{text_of_lines}
use dtreesync.Format.Tsv.{
  tsv_null_value, tsv_column_header, sanitize_tsv_field, columns, write_record, write_records,
}
use dtreesync.Format.Tsv.Field.{sanitize-stays, Lacks-tab, sanitize_clean, sanitize-nil, IsClean}
use dtreesync.Format.Tsv.Row.{IsTsvRecord, line_of, split-line_of}
use dtreesync.Format.Tsv.Classify.{
  line_parts, column_head, prefix_cell, no_hash_prefix, line_trimmed,
}
use dtreesync.Model.Types.{DirRecord, ok}
use dtreesync.Model.Path.{normalize_rel_path}
use dtreesync.Core.Verify.{counted, cut_line, skip_preamble, judge_path, judge_row, judge_tsv}
use dtreesync.Core.Verify.Sound.{IsSound}

pub cut_line-append :
    (l rest : Text) → Lacks b'\n' l → cut_line (l ++ (b'\n' ∷ rest)) ≡ some (l ++ codes "\n", rest)
unfolding cut_line
cut_line-append [] rest _ = rw eq_refl
cut_line-append (c ∷ l) rest (h, hs) = rw (==_of_ne c b'\n' h, cut_line-append l rest hs)

skip_rest :
    (l rest : Text)
    → Lacks b'\n' l
    → skip_preamble false (l ++ (b'\n' ∷ rest)) ≡ skip_preamble true rest
unfolding skip_preamble
skip_rest [] rest _ = unfold nat_eq in refl
skip_rest (c ∷ l) rest (h, hs) =
    ap (λ b. skip_preamble b (l ++ (b'\n' ∷ rest))) (==_of_ne c b'\n' h) ∙ skip_rest l rest hs

abbrev IsPreamble : Text → Type 0
IsPreamble l = (has_prefix (codes "#") l || has_prefix (codes "entity\t") l) ≡ true

skip_line :
    (c : ℕ) (s rest : Text)
    → IsPreamble ((c ∷ s) ++ (b'\n' ∷ rest))
    → Lacks b'\n' (c ∷ s)
    → skip_preamble true ((c ∷ s) ++ (b'\n' ∷ rest)) ≡ skip_preamble true rest
unfolding skip_preamble
skip_line c s rest starts (_, h) = rw starts (skip_rest s rest h)

pub skip_comment :
    (s rest : Text)
    → Lacks b'\n' s
    → skip_preamble true ((b'#' ∷ s) ++ (b'\n' ∷ rest)) ≡ skip_preamble true rest
skip_comment s rest h = skip_line b'#' s rest (unfold has_prefix nat_eq in refl) (omega arith, h)

pub skip_column_header :
    (rest : Text)
    → skip_preamble true (tsv_column_header ++ (b'\n' ∷ rest)) ≡ skip_preamble true rest
unfolding join skip_preamble has_prefix nat_eq
skip_column_header rest = refl

path_counted :
    (p : Text)
    → IsClean p
    → (p ≡ []) ⊎ (normalize_rel_path p ≡ ok p)
    → (if sanitize_tsv_field p == tsv_null_value || sanitize_tsv_field p == []
        then counted
        else judge_path (sanitize_tsv_field p))
      ≡ counted
path_counted [] _ _ = rw sanitize-nil (unfold text_eq nat_eq in refl)
path_counted (c ∷ p) h (inl e) = absurd (cons-ne-nil c p e)
path_counted (c ∷ p) h (inr e) =
    rw
      (
        sanitize_clean c p h,
        ==_of_ne (c ∷ p) tsv_null_value h.2,
        ==_of_ne (c ∷ p) [] (cons-ne-nil c p),
      )
      (unfold judge_path in rw (e, eq_refl))

module _ (rec : DirRecord) (h : IsTsvRecord rec) where
  -- The line of a row is no comment, and does not start as the column header does.
  line_starts :
      (rest : Text)
      → (has_prefix (codes "#") (line_of rec ++ rest) ≡ false)
        × (has_prefix (codes "entity\t") (line_of rec ++ rest) ≡ false)
        × (line_of rec ≢ [])
  line_starts rest =
      let (c, s, e, _, hash, ne) = column_head rec.entity h.entity h.no_comment h.no_column_name in
      let (b, eq) = (line_parts rec).1 in
      let shape : line_of rec ≡ c ∷ (s ++ (b'\t' ∷ b)) = rw (eq, e) in
      let longer : line_of rec ++ rest ≡ sanitize_tsv_field rec.entity ++ (b'\t' ∷ (b ++ rest)) =
        rw (eq, append_assoc) in
      (
        rw shape (no_hash_prefix [] c (s ++ (b'\t' ∷ b) ++ rest) hash),
        rw longer
            (elim (Bool-cases (
              has_prefix (codes "entity\t")
                (sanitize_tsv_field rec.entity ++ (b'\t' ∷ (b ++ rest))))) [
                  | inr k ↦ k
                  | inl k ↦ absurd (
                      ne (
                        sym (
                          prefix_cell (codes "entity") [] (sanitize_tsv_field rec.entity)
                            (b ++ rest) (omega arith) (Lacks-tab _ (sanitize-stays rec.entity)) k
                          ∙ e)))
                ]),
        λ z. cons-ne-nil c (s ++ (b'\t' ∷ b)) (sym shape ∙ z),
      )

  -- What `Verify` makes of the row, if its path is in normal form.
  pub judge_line_of :
      (rec.rel_path ≡ []) ⊎ (normalize_rel_path rec.rel_path ≡ ok rec.rel_path)
      → judge_tsv (line_of rec) ≡ counted
  unfolding judge_tsv
  judge_line_of normal =
      let (hash, _, filled) = line_starts [] in
      rw (line_trimmed rec h, ==_of_ne _ _ filled, (rw append-nil at hash), split-line_of rec)
        (row_counted normal)
    where
      row_counted :
          (rec.rel_path ≡ []) ⊎ (normalize_rel_path rec.rel_path ≡ ok rec.rel_path)
          → judge_row (columns rec) ≡ counted
      row_counted k = unfold judge_row columns in path_counted rec.rel_path h.rel_path k

skip_none :
    (t : Text)
    → has_prefix (codes "#") t ≡ false
    → has_prefix (codes "entity\t") t ≡ false
    → skip_preamble true t ≡ t
unfolding skip_preamble
skip_none [] _ _ = refl
skip_none (c ∷ s) h k = rw (h, k)

pub skip_records :
    (recs : List DirRecord)
    → All IsTsvRecord recs
    → skip_preamble true (write_records recs) ≡ write_records recs
unfolding write_records write_record
skip_records [] _ = unfold skip_preamble in refl
skip_records (rec ∷ recs) (h, _) =
    let (hash, name, _) = line_starts rec h (codes "\n" ++ write_records recs) in
    skip_none _ (rw append_assoc hash) (rw append_assoc name)

-- A record whose row is in order: its path is in normal form.
abbrev pub IsInOrder : DirRecord → Type 0
IsInOrder rec =
    IsTsvRecord rec × ((rec.rel_path ≡ []) ⊎ (normalize_rel_path rec.rel_path ≡ ok rec.rel_path))

pub rows-IsSound :
    (recs : List DirRecord) → All IsInOrder recs → All (IsSound judge_tsv) (map line_of recs)
rows-IsSound [] _ = tt
rows-IsSound (rec ∷ recs) ((h, k), hs) =
    ((h.fits, inr (judge_line_of rec h k)), rows-IsSound recs hs)

pub fits-All : (recs : List DirRecord) → All IsInOrder recs → All IsTsvRecord recs
fits-All [] _ = tt
fits-All (rec ∷ recs) ((h, _), hs) = (h, fits-All recs hs)

pub line_first :
    (l rest : Text) (ls : List Text)
    → text_of_lines (l ∷ ls) ++ rest ≡ l ++ (b'\n' ∷ (text_of_lines ls ++ rest))
line_first l rest ls = rw (append_assoc, append_assoc)

-- A line that the loop before the data rows passes over.
abbrev pub IsSkipped : Text → Type 0
IsSkipped l = (rest : Text) → skip_preamble true (l ++ (b'\n' ∷ rest)) ≡ skip_preamble true rest

pub skip_lines :
    (ls : List Text) (rest : Text)
    → All IsSkipped ls
    → skip_preamble true (text_of_lines ls ++ rest) ≡ skip_preamble true rest
skip_lines [] rest _ = refl
skip_lines (l ∷ ls) rest (h, hs) =
    rw (line_first l rest ls) (h (text_of_lines ls ++ rest) ∙ skip_lines ls rest hs)
