-- ===== src/Format/Ndjson/Stream.antt =====
-- internal/format/ndjson.go: the header and the records that are written are read back.
use dtreesync.Base.{
  Text, ◌<◌, false, Option, some, List, [], ◌∷◌, ◌++◌, append_assoc, append-nil, ◌≡◌, ◌≢◌, refl,
  All, map, not_leb, ==_of_ne, text_eq, arith,
}
use mathlib.Core.List.{concat-ne-nil}
use dtreesync.Base.Strings.{codes, byte_length, split}
use dtreesync.Base.Strings.Parts.{Lacks}
use dtreesync.Format.Lines.{collect, max_line, scan_lines, scan_lines-cons, drop_cr, drop_cr-append}
use dtreesync.Model.Types.{BackupMetadata, DirRecord, ok}
use dtreesync.Format.Ndjson.{
  write_header, write_record, write_records, read_lines, take_header, take_record,
  read_ndjson_records,
}

-- What the stream needs of `encoding/json` at one value: one line that ends with a brace, fits the
-- reader's buffer and decodes to what it was made from.
pub record IsLineCodec {ℓ} {A : Type ℓ} (encode : A → Text) (decode : Text → Option A) (a : A)
    : Type ℓ where
  pub decode-encode : decode (encode a) ≡ some a
  pub body : Text
  pub braces : encode a ≡ body ++ codes "}"
  pub one_line : Lacks b'\n' (encode a)
  pub fits : byte_length (encode a) < max_line

module _ {ℓ} {A : Type ℓ} (encode : A → Text) (decode : Text → Option A) (a : A)
    (c : IsLineCodec encode decode a) where
  line_kept : drop_cr (encode a) ≡ encode a
  line_kept = rw c.braces (drop_cr-append c.body b'}' (omega arith))

  line_filled : encode a ≢ []
  line_filled e = concat-ne-nil _ _ (rw c.braces at e)

module _ (encode_header : BackupMetadata → Text) (decode_header : Text → Option BackupMetadata)
    (encode_record : DirRecord → Text) (decode_record : Text → Option DirRecord) where
  scan_lines-write_records :
      (recs : List DirRecord)
      → All (IsLineCodec encode_record decode_record) recs
      → scan_lines (write_records encode_record recs) ≡ map encode_record recs
  unfolding write_records write_record
  scan_lines-write_records [] _ = unfold scan_lines split text_eq in refl
  scan_lines-write_records (rec ∷ recs) (h, hs) = rw (
    append_assoc (encode_record rec) (codes "\n") (write_records encode_record recs),
    scan_lines-cons (encode_record rec) (write_records encode_record recs) h.one_line,
    scan_lines-write_records recs hs,
  )

  read_rows :
      (recs before : List DirRecord) (meta : BackupMetadata)
      → All (IsLineCodec encode_record decode_record) recs
      → read_lines decode_header decode_record collect false
          (map encode_record recs)
          (some meta)
          before
        ≡ ok (meta, before ++ recs)
  unfolding read_lines
  read_rows [] before meta _ = rw append-nil
  read_rows (rec ∷ recs) before meta (h, hs) =
      rw
        (
          not_leb _ _ h.fits,
          line_kept encode_record decode_record rec h,
          ==_of_ne _ _ (line_filled encode_record decode_record rec h),
          h.decode-encode,
        )
        (unfold take_record in rw (read_rows recs (before ++ (rec ∷ [])) meta hs, append_assoc))

  -- A snapshot that is written as a header and records is read back whole: the header's data and every
  -- record, in order, if each of them is encoded on a line of its own that decodes to it.
  pub read_ndjson_records-write :
      (meta : BackupMetadata) (recs : List DirRecord)
      → IsLineCodec encode_header decode_header meta
      → All (IsLineCodec encode_record decode_record) recs
      → read_ndjson_records decode_header decode_record collect
          (write_header encode_header meta ++ write_records encode_record recs)
          []
        ≡ ok (meta, recs)
  unfolding read_ndjson_records write_header
  read_ndjson_records-write meta recs c h =
      rw
        (
          append_assoc (encode_header meta) (codes "\n") (write_records encode_record recs),
          scan_lines-cons (encode_header meta) (write_records encode_record recs) c.one_line,
          scan_lines-write_records recs h,
          read_lines,
        )
        (rw
          (
            not_leb _ _ c.fits,
            line_kept encode_header decode_header meta c,
            ==_of_ne _ _ (line_filled encode_header decode_header meta c),
            c.decode-encode,
          )
          (unfold take_header in read_rows recs [] meta h))
