-- ===== src/Format/Tsv/Loss.antt =====
-- internal/format/tsv.go: rows that the reader takes for comments.
use dtreesync.Base.{
  Text, ℕ, ◌<◌, Bool, true, false, not, Option, some, List, [], ◌∷◌, ◌++◌, append_assoc, append-nil,
  ◌≡◌, refl, ◌⊎◌, inl, inr, text_eq, nat_eq, eq_refl, ==_of_ne, All, keep, arith, not_leb, map,
  ◌==◌,
}
use mathlib.Core.List.{cons-ne-nil}
use dtreesync.Base.Strings.{codes, trim_space, is_space, has_prefix, byte_length, replace_char}
use dtreesync.Base.Strings.Parts.{Lacks}
use dtreesync.Base.Strings.Trim.{trim_space-append}
use dtreesync.Base.Decimal.{format_int}
use dtreesync.Base.Decimal.RoundTrip.{format_int-ne-nil, format_int-chars}
use dtreesync.Format.Lines.{collect, max_line, scan_lines-text_of_lines}
use dtreesync.Model.Types.{DirRecord, BackupMetadata, ok}
use dtreesync.Format.Tsv.{
  tsv_meta_prefix, sanitize_tsv_field, classify, comment, write_header, write_records, read_lines,
  read_line, read_tsv_records,
}
use dtreesync.Format.Tsv.Field.{number-no_space}
use dtreesync.Format.Tsv.Row.{IsTsvRecord, in_columns, line_of}
use dtreesync.Format.Tsv.Classify.{line_parts, classify-line_of}
use dtreesync.Format.Tsv.Stream.{
  IsCodec, IsHeader, scan_lines-write_records, header_lines, header_text, header_lines-Lacks,
  read_header_lines,
}

-- The entity starts as a comment does, but its cell not as the header does, and the row fits the
-- reader's buffer.
pub record IsHashRecord (rec : DirRecord) : Type 0 where
  pub hash : has_prefix (codes "#") rec.entity ≡ true
  pub no_meta : has_prefix tsv_meta_prefix (sanitize_tsv_field rec.entity) ≡ false
  pub fits : byte_length (line_of rec) < max_line

hash_cell :
    (e : Text) → has_prefix (codes "#") e ≡ true → (s : Text) × (sanitize_tsv_field e ≡ b'#' ∷ s)
unfolding has_prefix sanitize_tsv_field
hash_cell [] h = absurd (cc h)
hash_cell (c ∷ e) h =
    let is_hash : c ≡ b'#' = ground arith in
    (
      replace_char b'\n' b' ' (replace_char b'\t' b' ' e),
      rw (is_hash, ==_of_ne (b'#' ∷ e) [] (cons-ne-nil b'#' e)) (unfold nat_eq in refl),
    )

-- A prefix without a tab lies in the first cell.
prefix_in_cell :
    (p e rest : Text)
    → Lacks b'\t' p
    → has_prefix p e ≡ false
    → has_prefix p (e ++ (b'\t' ∷ rest)) ≡ false
unfolding has_prefix
prefix_in_cell [] e rest _ h = absurd (cc h)
prefix_in_cell (c ∷ p) [] rest (k, _) _ = rw (==_of_ne c b'\t' k)
prefix_in_cell (c ∷ p) (d ∷ e) rest (_, ks) h = ground (arith, prefix_in_cell p e rest ks)

-- The row of such a record is read as a comment.
classify-hash : (rec : DirRecord) → IsHashRecord rec → classify (line_of rec) ≡ comment
unfolding classify
classify-hash rec h =
    let (s, e) = hash_cell rec.entity h.hash in
    let (a, shape_a) = (line_parts rec).0 in
    let (b, shape_b) = (line_parts rec).1 in
    let whole : line_of rec ≡ (b'#' ∷ (s ++ a)) ++ format_int rec.metadata.mod_time =
      rw (shape_a, e, append_assoc) in
    let starts : line_of rec ≡ b'#' ∷ (s ++ (b'\t' ∷ b)) = rw (shape_b, e) in
    let trimmed : trim_space (line_of rec) ≡ line_of rec = rw whole (
      trim_space-append b'#' (s ++ a) (format_int rec.metadata.mod_time)
        (unfold is_space nat_eq in refl) (format_int-ne-nil rec.metadata.mod_time)
        (number-no_space _ (format_int-chars rec.metadata.mod_time))) in
    let no_meta : has_prefix tsv_meta_prefix (line_of rec) ≡ false =
      rw shape_b (
        prefix_in_cell tsv_meta_prefix (sanitize_tsv_field rec.entity) b (omega arith) h.no_meta) in
    let hash : has_prefix (codes "#") (line_of rec) ≡ true =
      rw starts (unfold has_prefix in rw eq_refl) in
    let filled : (line_of rec == []) ≡ false =
      rw starts (==_of_ne _ _ (cons-ne-nil b'#' (s ++ (b'\t' ∷ b)))) in
    rw (trimmed, not_leb _ _ h.fits, filled, no_meta, hash)

abbrev pub has_hash : DirRecord → Bool
has_hash rec = has_prefix (codes "#") rec.entity

module _ (decode : Text → Option BackupMetadata) where
  read_rows :
      (recs before : List DirRecord) (meta : BackupMetadata)
      → All (λ r. IsTsvRecord r ⊎ IsHashRecord r) recs
      → read_lines decode collect (map line_of recs) (some meta) before
        ≡ ok (meta, before ++ map in_columns (keep (λ r. not (has_hash r)) recs))
  unfolding read_lines
  read_rows [] before meta _ = rw append-nil
  read_rows (rec ∷ recs) before meta (inl h, hs) =
      rw (classify-line_of rec h, h.no_comment)
        (unfold read_line in
          rw (read_rows recs (before ++ (in_columns rec ∷ [])) meta hs, append_assoc))
  read_rows (rec ∷ recs) before meta (inr h, hs) =
      rw (classify-hash rec h, h.hash) (unfold read_line in rw (read_rows recs before meta hs))

-- Of a snapshot whose records are ones that a row can hold, or have an entity that starts with `#`,
-- reading gives the header's data and, in order, what is in the columns of the records whose entity does
-- not start with `#`: the others are lost without an error.
pub read_tsv_records-lossy :
    (encode : BackupMetadata → Text) (decode : Text → Option BackupMetadata) (rfc3339 : ℕ → Text)
    (meta : BackupMetadata) (recs : List DirRecord)
    → IsCodec encode decode meta
    → IsHeader encode rfc3339 meta
    → All (λ r. IsTsvRecord r ⊎ IsHashRecord r) recs
    → read_tsv_records decode collect (write_header encode rfc3339 meta ++ write_records recs) []
      ≡ ok (meta, map in_columns (keep (λ r. not (has_hash r)) recs))
unfolding read_tsv_records
read_tsv_records-lossy encode decode rfc3339 meta recs codec fits h =
    let lines = header_lines encode decode rfc3339 meta codec fits in
    rw
      (
        header_text encode decode rfc3339 meta codec fits,
        scan_lines-text_of_lines lines (write_records recs)
            (header_lines-Lacks encode decode rfc3339 meta codec fits),
        scan_lines-write_records recs,
        read_header_lines encode decode rfc3339 meta codec fits (map line_of recs) [],
      )
      (read_rows decode recs [] meta h)
