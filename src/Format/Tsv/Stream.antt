-- ===== src/Format/Tsv/Stream.antt =====
-- A whole stream: the header and the rows that are written are read back.
use dtreesync.Base.{
  Text, ℕ, ◌<◌, true, false, Option, none, some, List, [], ◌∷◌, ◌++◌, append_assoc, append-nil, ◌≡◌,
  ◌≢◌, refl, text_eq, nat_eq, eq_refl, ==_of_ne, All, All-append, arith, not_leb, map,
}
use mathlib.Core.List.{cons-ne-nil}
use dtreesync.Base.Strings.{
  codes, split, join, trim_space, is_space, has_prefix, byte_length, trim, trim_right, glue_right,
}
use dtreesync.Base.Strings.Parts.{Lacks}
use dtreesync.Base.Strings.Trim.{trim_space-append, trim_left_id}
use dtreesync.Format.Lines.{
  collect, max_line, scan_lines, scan_lines-cons, text_of_lines, scan_lines-text_of_lines,
}
use dtreesync.Model.Types.{DirRecord, BackupMetadata, ok}
use dtreesync.Model.Path.Clean.{join-All}
use dtreesync.Format.Tsv.{
  tsv_meta_prefix, tsv_column_header, columns, classify, header, comment, write_record,
  write_records, write_header, read_lines, read_line, read_header, read_tsv_records,
}
use dtreesync.Format.Tsv.Field.{StaysInCell}
use dtreesync.Format.Tsv.Row.{IsTsvRecord, in_columns, line_of, columns-stay}
use dtreesync.Format.Tsv.Classify.{classify-line_of}

Lacks-newline : (t : Text) → All StaysInCell t → Lacks b'\n' t
Lacks-newline [] _ = tt
Lacks-newline (c ∷ t) ((_, h), hs) = (h, Lacks-newline t hs)

-- The characters of a line that stay in it: tabs may occur between the columns.
cells-Lack-newline : (cols : List Text) → All (All StaysInCell) cols → All (Lacks b'\n') cols
cells-Lack-newline [] _ = tt
cells-Lack-newline (c ∷ cols) (h, hs) = (Lacks-newline c h, cells-Lack-newline cols hs)

line_of-Lacks : (rec : DirRecord) → Lacks b'\n' (line_of rec)
line_of-Lacks rec =
    join-All (λ c. c ≢ b'\n') b'\t' (columns rec) (omega arith)
      (cells-Lack-newline _ (columns-stay rec))

-- Every record is one line.
pub scan_lines-write_records :
    (recs : List DirRecord) → scan_lines (write_records recs) ≡ map line_of recs
unfolding write_records write_record
scan_lines-write_records [] = unfold scan_lines split text_eq nat_eq in refl
scan_lines-write_records (rec ∷ recs) = rw (
  append_assoc (line_of rec) (codes "\n") (write_records recs),
  scan_lines-cons (line_of rec) (write_records recs) (line_of-Lacks rec),
  scan_lines-write_records recs,
)

module _ (decode : Text → Option BackupMetadata) where
  read_rows :
      (recs before : List DirRecord) (meta : BackupMetadata)
      → All IsTsvRecord recs
      → read_lines decode collect (map line_of recs) (some meta) before
        ≡ ok (meta, before ++ map in_columns recs)
  unfolding read_lines
  read_rows [] before meta _ = rw append-nil
  read_rows (rec ∷ recs) before meta (h, hs) = rw (classify-line_of rec h) (
      unfold read_line in
      rw (read_rows recs (before ++ (in_columns rec ∷ [])) meta hs, append_assoc))

-- A line that starts with `# ` is a comment, however it is trimmed.
glue_hash : (t : Text) → glue_right is_space b'#' t ≡ b'#' ∷ t
unfolding is_space nat_eq
glue_hash [] = refl
glue_hash (c ∷ t) = refl

glue_space : (t : Text) → has_prefix (codes "META:") (glue_right is_space b' ' t) ≡ false
unfolding is_space nat_eq has_prefix
glue_space [] = refl
glue_space (c ∷ t) = refl

trim_comment : (s : Text) → trim_space (b'#' ∷ b' ' ∷ s) ≡ b'#' ∷ trim_right is_space (b' ' ∷ s)
unfolding trim_space trim
trim_comment s =
    rw (trim_left_id is_space b'#' (b' ' ∷ s) (unfold is_space nat_eq in refl), trim_right)
      (glue_hash (trim_right is_space (b' ' ∷ s)))

comment_no_meta :
    (s : Text) → has_prefix tsv_meta_prefix (b'#' ∷ trim_right is_space (b' ' ∷ s)) ≡ false
unfolding has_prefix
comment_no_meta s = rw (eq_refl) (unfold trim_right in glue_space (trim_right is_space s))

pub classify-comment :
    (s : Text) → byte_length (codes "# " ++ s) < max_line → classify (codes "# " ++ s) ≡ comment
unfolding classify
classify-comment s h =
    rw
      (
        not_leb _ _ h,
        trim_comment s,
        ==_of_ne _ _ (cons-ne-nil b'#' (trim_right is_space (b' ' ∷ s))),
        comment_no_meta s,
      )
      (unfold has_prefix in rw eq_refl)

column_header_line : classify tsv_column_header ≡ comment
unfolding classify is_space text_eq nat_eq join
column_header_line = refl

column_header-Lacks : Lacks b'\n' tsv_column_header
unfolding join
column_header-Lacks = omega arith

-- What the header needs of `encoding/json`: one line that ends with a brace and decodes to what it
-- was made from.
pub record IsCodec (encode : BackupMetadata → Text) (decode : Text → Option BackupMetadata)
    (meta : BackupMetadata) : Type 0 where
  pub decode-encode : decode (encode meta) ≡ some meta
  pub body : Text
  pub braces : encode meta ≡ body ++ codes "}"
  pub one_line : Lacks b'\n' (encode meta)

pub strip_prefix : (p s : Text) → has_prefix p (p ++ s) ≡ true
unfolding has_prefix
strip_prefix [] s = refl
strip_prefix (c ∷ p) s = rw (eq_refl, strip_prefix p s)

module _ (encode : BackupMetadata → Text) (decode : Text → Option BackupMetadata)
    (meta : BackupMetadata) (codec : IsCodec encode decode meta) where
  pub meta_trimmed : trim_space (tsv_meta_prefix ++ encode meta) ≡ tsv_meta_prefix ++ encode meta
  meta_trimmed = rw codec.braces (
      trim_space-append b'#' (codes "META:" ++ codec.body) (codes "}")
        (unfold is_space nat_eq in refl) (ground arith) (unfold is_space nat_eq in (refl, tt)))

  classify-meta :
      byte_length (tsv_meta_prefix ++ encode meta) < max_line
      → classify (tsv_meta_prefix ++ encode meta) ≡ header (encode meta)
  unfolding classify
  classify-meta h = rw (
    not_leb _ _ h,
    meta_trimmed,
    ==_of_ne _ _ (cons-ne-nil b'#' (codes "META:" ++ encode meta)),
    strip_prefix tsv_meta_prefix (encode meta),
  )

-- A header that fits the reader: its lines are below the limit, and its base folder and time hold
-- no newline.
pub record IsHeader (encode : BackupMetadata → Text) (rfc3339 : ℕ → Text) (meta : BackupMetadata)
    : Type 0 where
  pub base_line : Lacks b'\n' meta.base_folder
  pub time_line : Lacks b'\n' (rfc3339 meta.created_at)
  pub meta_fits : byte_length (tsv_meta_prefix ++ encode meta) < max_line
  pub base_fits : byte_length (codes "# SOURCE_BASE: " ++ meta.base_folder) < max_line
  pub time_fits : byte_length (codes "# TIMESTAMP_UTC: " ++ rfc3339 meta.created_at) < max_line

module _ (encode : BackupMetadata → Text) (decode : Text → Option BackupMetadata)
    (rfc3339 : ℕ → Text) (meta : BackupMetadata) (codec : IsCodec encode decode meta)
    (fits : IsHeader encode rfc3339 meta) where
  prefixed : (p t : Text) → Lacks b'\n' p → Lacks b'\n' t → Lacks b'\n' (p ++ t)
  prefixed p t = All-append (λ c. c ≢ b'\n') p t

  unfoldable pub header_lines : List Text
  header_lines =
      (tsv_meta_prefix ++ encode meta)
      ∷ codes "# COMPLIANCE AUDIT RECORD: dtreesync"
      ∷ (codes "# SOURCE_BASE: " ++ meta.base_folder)
      ∷ (codes "# TIMESTAMP_UTC: " ++ rfc3339 meta.created_at)
      ∷ tsv_column_header
      ∷ []

  pub header_text : write_header encode rfc3339 meta ≡ text_of_lines header_lines
  unfolding write_header join header_lines
  header_text = refl

  pub header_lines-Lacks : All (Lacks b'\n') header_lines
  unfolding header_lines
  header_lines-Lacks = (
    prefixed tsv_meta_prefix (encode meta) (omega arith) codec.one_line,
    (
      omega arith,
      (
        prefixed (codes "# SOURCE_BASE: ") meta.base_folder (omega arith) fits.base_line,
        (
          prefixed (codes "# TIMESTAMP_UTC: ") (rfc3339 meta.created_at) (omega arith)
              fits.time_line,
          (column_header-Lacks, tt),
        ),
      ),
    ),
  )

  pub read_header_lines :
      (lines : List Text) (s : List DirRecord)
      → read_lines decode collect (header_lines ++ lines) none s
        ≡ read_lines decode collect lines (some meta) s
  unfolding header_lines read_lines
  read_header_lines lines s =
      rw
        (
          classify-meta encode decode meta codec fits.meta_fits,
          classify-comment (codes "COMPLIANCE AUDIT RECORD: dtreesync") (omega arith),
          classify-comment (codes "SOURCE_BASE: " ++ meta.base_folder) fits.base_fits,
          classify-comment (codes "TIMESTAMP_UTC: " ++ rfc3339 meta.created_at) fits.time_fits,
          column_header_line,
        )
        (unfold read_line read_header in rw codec.decode-encode)

  -- A snapshot that is written as a header and rows is read back: the header's data and of every record,
  -- in order, the fields that have a column, the others at their zero values. The columns of the records
  -- are ones that a row can hold.
  pub read_tsv_records-write :
      (recs : List DirRecord)
      → All IsTsvRecord recs
      → read_tsv_records decode collect (write_header encode rfc3339 meta ++ write_records recs) []
        ≡ ok (meta, map in_columns recs)
  unfolding read_tsv_records
  read_tsv_records-write recs h =
      rw
        (
          header_text,
          scan_lines-text_of_lines header_lines (write_records recs) header_lines-Lacks,
          scan_lines-write_records recs,
          read_header_lines (map line_of recs) [],
        )
        (read_rows decode recs [] meta h)
