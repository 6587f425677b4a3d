-- ===== src/Samples/Formats.antt =====
-- internal/format at concrete records.
use dtreesync.Base.{not, [], ◌∷◌, ◌++◌, keep, map, ◌≡◌, inl, inr, refl, text_eq, nat_eq, arith}
use dtreesync.Base.Strings.{
  codes, join, has_prefix, trim_space, trim, trim_left, trim_right, is_space,
}
use dtreesync.Base.Decimal.{digits, format_mode, format_uint, format_int}
use dtreesync.Model.Types.{ok}
use dtreesync.Format.Lines.{collect}
use dtreesync.Format.Tsv.{
  columns, sanitize_tsv_field, write_header, write_records, read_tsv_records,
}
use dtreesync.Format.Tsv.Row.{IsTsvMeta, IsTsvRecord, in_columns}
use dtreesync.Format.Tsv.Stream.{IsCodec, IsHeader, read_tsv_records-write}
use dtreesync.Format.Tsv.Loss.{IsHashRecord, has_hash, read_tsv_records-lossy}
use dtreesync.Format.Ndjson
use dtreesync.Format.Ndjson.Stream.{IsLineCodec, read_ndjson_records-write}
use dtreesync.Samples.Records.{
  top, timed_dir, hashed, meta, encode, decode, encode_dir, decode_dir, rfc3339,
}

codec : IsCodec encode decode meta
unfolding text_eq nat_eq
codec = record { decode-encode = refl; body = codes "{"; braces = refl; one_line = omega arith }

fits : IsHeader encode rfc3339 meta
fits = record {
  base_line = omega arith;
  time_line = omega arith;
  meta_fits = omega arith;
  base_fits = omega arith;
  time_fits = omega arith;
}

timed_dir-IsTsvMeta : IsTsvMeta timed_dir.metadata
unfolding trim_space trim trim_left trim_right is_space text_eq nat_eq
timed_dir-IsTsvMeta = record {
  uid = omega arith;
  gid = omega arith;
  mode = omega arith;
  file_attributes = tt;
  mod_time = omega arith;
  username = (refl, omega arith, ground arith);
  group = (refl, tt, ground arith);
  acl_access = (refl, tt, ground arith);
  acl_default = (refl, tt, ground arith);
  selinux_context = (refl, tt, ground arith);
  sddl = (refl, tt, ground arith);
}

pub timed_dir-IsTsvRecord : IsTsvRecord timed_dir
unfolding trim_space trim trim_left trim_right is_space has_prefix columns sanitize_tsv_field
    format_mode format_uint format_int digits join text_eq nat_eq
timed_dir-IsTsvRecord = record {
  metadata = timed_dir-IsTsvMeta;
  entity = (refl, omega arith, ground arith);
  rel_path = (refl, omega arith, ground arith);
  no_comment = refl;
  no_column_name = ground arith;
  fits = omega arith;
}

hashed-IsHashRecord : IsHashRecord hashed
unfolding trim_space trim trim_left trim_right is_space has_prefix columns sanitize_tsv_field
    format_mode format_uint format_int digits join text_eq nat_eq
hashed-IsHashRecord = record { hash = refl; no_meta = refl; fits = omega arith }

read_tsv_records-write_example :
    read_tsv_records decode collect
      (write_header encode rfc3339 meta ++ write_records (timed_dir ∷ []))
      []
    ≡ ok (meta, map in_columns (timed_dir ∷ []))
read_tsv_records-write_example =
    read_tsv_records-write encode decode rfc3339 meta codec fits (timed_dir ∷ [])
      (timed_dir-IsTsvRecord, tt)

read_tsv_records-lossy_example :
    read_tsv_records decode collect
      (write_header encode rfc3339 meta ++ write_records (hashed ∷ timed_dir ∷ []))
      []
    ≡ ok (meta, map in_columns (keep (λ r. not (has_hash r)) (hashed ∷ timed_dir ∷ [])))
read_tsv_records-lossy_example =
    read_tsv_records-lossy encode decode rfc3339 meta (hashed ∷ timed_dir ∷ []) codec fits
      (inr hashed-IsHashRecord, (inl timed_dir-IsTsvRecord, tt))

meta_line : IsLineCodec encode decode meta
unfolding text_eq nat_eq
meta_line = record {
  decode-encode = refl;
  body = codes "{";
  braces = refl;
  one_line = omega arith;
  fits = omega arith;
}

top_line : IsLineCodec encode_dir decode_dir top
unfolding text_eq nat_eq
top_line = record {
  decode-encode = refl;
  body = codes "{dir";
  braces = refl;
  one_line = omega arith;
  fits = omega arith;
}

read_ndjson_records-write_example :
    Ndjson.read_ndjson_records decode decode_dir collect
      (Ndjson.write_header encode meta ++ Ndjson.write_records encode_dir (top ∷ []))
      []
    ≡ ok (meta, top ∷ [])
read_ndjson_records-write_example =
    read_ndjson_records-write encode decode encode_dir decode_dir meta (top ∷ []) meta_line
      (top_line, tt)
