-- ===== src/Samples/Stored.antt =====
-- internal/core/backup.go and verify.go at a concrete tree.
use mathlib.Core.List.{Perm}
use dtreesync.Base.{
  Text, true, false, none, some, [], ◌∷◌, ◌++◌, ◌==◌, ◌≡◌, ◌↔◌, refl, inr, drop, map, if◌then◌else◌,
  text_eq, nat_eq, arith,
}
use dtreesync.Base.Int.{pos}
use dtreesync.Base.Strings.{
  codes, split, join, has_prefix, contains_text, trim, trim_left, trim_right, trim_space, before,
  has_suffix, trim_suffix,
}
use dtreesync.Base.GoPath.{clean, segments, clean_from, push, pop, base}
use dtreesync.Base.Sort.{sort, insert}
use dtreesync.Format.Deduce.{deduce_format_and_compression, is_sqlite}
use dtreesync.Format.Lines.{collect}
use dtreesync.Format.Tsv
use dtreesync.Format.Tsv.Row.{in_columns}
use dtreesync.Format.Tsv.Stream.{IsCodec, IsHeader}
use dtreesync.Storage.Url.{is_cloud_url}
use dtreesync.Model.Types.{
  BackupMetadata, BackupConfig, BackupResult, FormatType, no_format, no_compression, VerifyConfig,
  VerifyResult, count_mismatch, ok, err, io_failure,
}
use dtreesync.Model.Path.{
  validate_and_clean_path, normalize_rel_path, escapes, is_reserved_windows_device_name,
}
use dtreesync.Core.Library.{Library}
use dtreesync.Core.Order.{sort_records, sort_mode}
use dtreesync.Core.Buffer.{done}
use dtreesync.Core.Source.{Store, read_snapshot_from_reader, is_compressed, has_zstd_magic}
use dtreesync.Core.Backup.{
  World, Effects, backup, backup_format, backup_compression, metadata_of, open_destination,
}
use dtreesync.Core.Backup.Stored.{final_metadata, backup-read}
use dtreesync.Core.Backup.Buffered.{all_done, IsReliable}
use dtreesync.Core.Verify.{
  Tools, Database, chosen_format, chosen_compression, unpacked, open_input, verify, verify_database,
  fresh_result, miscounted, issue_if,
}
use dtreesync.Core.Backup.Verified.{check_of, backup-verify}
use dtreesync.Core.Verify.Sound.{IsAccepted, verify-IsAccepted, verify_database_iff}
use dtreesync.Core.Verify.Written.{verify-written}
use dtreesync.Samples.Records.{timed_dir, meta, encode_dir, decode_dir, rfc3339}
use dtreesync.Samples.Formats.{timed_dir-IsTsvRecord}

-- The header that the backup below writes.
abbrev stored_meta : BackupMetadata
stored_meta = record {
  version = codes "2.0";
  base_folder = codes "/srv";
  entity = codes "web";
  created_at = 9;
  folder_count = pos 1;
  tree_file = codes "a.tsv.zst";
  tree_format = codes "tsv";
  compression = true;
  host_os = codes "linux";
  hostname = codes "h";
  payload_sha256 = codes "ab";
  sort_order = codes "path";
}

abbrev pub lib : Library
lib = record {
  encode_meta = λ _. codes "{}";
  decode_meta = λ line. if line == codes "{}" then some stored_meta else none;
  encode_header = λ _. codes "{}";
  decode_header = λ line. if line == codes "{}" then some stored_meta else none;
  encode_record = encode_dir;
  decode_record = decode_dir;
  rfc3339 = rfc3339;
  sha256 = λ _. codes "ab";
  compress = λ text. 0x28 ∷ 0xb5 ∷ 0x2f ∷ 0xfd ∷ text;
  decompress = λ text. ok (drop 4 text);
}

abbrev cfg : BackupConfig
cfg = record {
  base_folder = codes "/srv/";
  entity = codes "web";
  target_url = codes "/b/a.tsv.zst";
  has_writer = false;
  format = no_format;
  compression = no_compression;
  workers = pos 2;
  include = [];
  exclude = [];
  one_file_system = false;
  retention_days = pos 0;
  retention_count = pos 0;
  retention_prefix = [];
  sort_order = [];
}

abbrev world : World
world = record {
  scan = ok (timed_dir ∷ []);
  now = 9;
  host_os = codes "linux";
  hostname = codes "h";
  buffered = λ text. ([], text);
  answers = λ _. all_done;
  opens = λ _. true;
  header_writes = true;
  header_write = done;
  payload_write = true;
  closes = true;
  write_sqlite = λ _ _ _. err io_failure;
  read_dir = λ _. none;
  remove = λ _. false;
}

reliable : IsReliable world
reliable = record {
  writes = λ _. refl;
  passes_on = λ _. refl;
  header_taken = refl;
  header_written = refl;
  payload_written = refl;
  closed = refl;
}

is_tsv : backup_format cfg ≡ FormatType.tsv
unfolding backup_format deduce_format_and_compression before has_suffix trim_suffix text_eq nat_eq
is_tsv = refl

destination : open_destination world cfg ≡ ok (codes "/b/a.tsv.zst")
unfolding open_destination is_cloud_url has_prefix validate_and_clean_path clean segments clean_from
    push pop split join text_eq nat_eq
destination = refl

valid : validate_and_clean_path cfg.base_folder ≡ ok (codes "/srv")
unfolding validate_and_clean_path clean segments clean_from push pop split join text_eq nat_eq
valid = refl

sorted : sort_records [] (timed_dir ∷ []) ≡ ok (codes "path", timed_dir ∷ [])
unfolding sort_records sort_mode sort insert trim_space trim trim_left trim_right text_eq nat_eq
sorted = refl

stored_header :
    final_metadata lib world cfg (codes "/srv") (codes "path") (timed_dir ∷ []) ≡ stored_meta
unfolding metadata_of base split backup_format backup_compression deduce_format_and_compression
    before has_suffix trim_suffix text_eq nat_eq
stored_header = refl

codec : IsCodec lib.encode_meta lib.decode_meta stored_meta
unfolding text_eq nat_eq
codec = record { decode-encode = refl; body = codes "{"; braces = refl; one_line = omega arith }

fits : IsHeader lib.encode_meta lib.rfc3339 stored_meta
fits = record {
  base_line = omega arith;
  time_line = omega arith;
  meta_fits = omega arith;
  base_fits = omega arith;
  time_fits = omega arith;
}

backup-read_example :
    (result : BackupResult) × (effects : Effects) × (backup lib world cfg ≡ ok (result, effects))
    × (read_snapshot_from_reader lib collect effects.written FormatType.tsv
          (backup_compression cfg)
          []
        ≡ ok (
          final_metadata lib world cfg (codes "/srv") (codes "path") (timed_dir ∷ []),
          map in_columns (timed_dir ∷ []),
        ))
    × Perm (timed_dir ∷ []) (timed_dir ∷ [])
backup-read_example =
    backup-read lib world cfg (codes "/srv") (codes "path") (codes "/b/a.tsv.zst") (timed_dir ∷ [])
      (timed_dir ∷ []) reliable (λ _. refl) is_tsv destination valid refl sorted
      (rw stored_header codec) (rw stored_header fits) (timed_dir-IsTsvRecord, tt)

-- The snapshot, and a store that holds it.
abbrev pub text : Text
text =
    Tsv.write_header lib.encode_meta lib.rfc3339 stored_meta ++ Tsv.write_records (timed_dir ∷ [])

abbrev pub store : Store
store = record { open_file = λ _. none; open_cloud = λ _. none; read_sqlite = λ _. err io_failure }

abbrev pub tools : Tools
tools = record {
  open_zstd = λ packed. some (record { text = drop 4 packed; broken = false });
  taken = λ rows. rows;
  database = λ _. record { header = err io_failure; opens = false; is_intact = false; count = 0 };
}

abbrev check : VerifyConfig
check = record {
  source_url = [];
  reader = some (lib.compress text);
  format = FormatType.tsv;
  compression = no_compression;
}

checked_format : chosen_format check ≡ FormatType.tsv
unfolding chosen_format text_eq
checked_format = refl

opened_input : open_input store check.reader check.source_url ≡ ok (lib.compress text)
unfolding open_input
opened_input = refl

unpacked_text :
    unpacked tools (chosen_compression check) (lib.compress text)
    ≡ some (record { text = text; broken = false })
unfolding unpacked is_compressed has_zstd_magic chosen_compression text_eq nat_eq
unpacked_text = refl

normal : normalize_rel_path (codes "a") ≡ ok (codes "a")
unfolding normalize_rel_path trim trim_left trim_right clean segments clean_from push pop split join
    escapes has_prefix contains_text is_reserved_windows_device_name before text_eq nat_eq
normal = refl

verify-written_example :
    (r : VerifyResult) × (verify lib tools store check ≡ ok (r, none))
    × (r.record_count ≡ 1)
    × (r.errors ≡ issue_if (miscounted stored_meta.folder_count 1) count_mismatch)
verify-written_example =
    verify-written lib tools store check (lib.compress text) stored_meta (timed_dir ∷ []) codec fits
      ((timed_dir-IsTsvRecord, inr normal), tt) (inr refl) checked_format opened_input unpacked_text

not_sqlite : is_sqlite (chosen_format check) ≡ false
unfolding chosen_format text_eq
not_sqlite = refl

verify-IsAccepted_example :
    ((r : VerifyResult) × (verify lib tools store check ≡ ok (r, none)))
    ↔ IsAccepted lib
        (chosen_format check)
        (unpacked tools (chosen_compression check) (lib.compress text))
verify-IsAccepted_example =
    verify-IsAccepted lib tools store check (lib.compress text) not_sqlite opened_input

-- A database that its integrity check finds damaged.
abbrev damaged : Database
damaged = record { header = ok meta; opens = true; is_intact = false; count = 1 }

verify_database_iff_example :
    ((verify_database (ok meta) damaged (fresh_result [] FormatType.sqlite no_compression)).1
      ≡ none)
    ↔ ((m : BackupMetadata) × (ok meta ≡ ok m)
        × (damaged.opens ≡ true)
        × (miscounted m.folder_count 1 ≡ false))
verify_database_iff_example =
    verify_database_iff (ok meta) damaged (fresh_result [] FormatType.sqlite no_compression)

backup-verify_example :
    (result : BackupResult) × (effects : Effects) × (backup lib world cfg ≡ ok (result, effects))
    × ((r : VerifyResult) × (verify lib tools store (check_of cfg effects.written) ≡ ok (r, none))
        × (r.record_count ≡ 1)
        × (r.errors ≡ []))
backup-verify_example =
    backup-verify lib tools store world cfg (codes "/srv") (codes "path") (codes "/b/a.tsv.zst")
      (timed_dir ∷ []) (timed_dir ∷ []) reliable (λ _. refl) is_tsv destination valid refl sorted
      (rw stored_header codec) (rw stored_header fits) ((timed_dir-IsTsvRecord, inr normal), tt)
