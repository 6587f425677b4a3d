-- ===== src/Format/Tsv/Row.antt =====
-- One row: its columns, its line, and the record that is read from it.
use dtreesync.Base.{Text, ◌<◌, false, some, List, [], ◌∷◌, ◌≡◌, ◌≢◌, text_eq, nat_eq, All}
use mathlib.Core.List.{cons-ne-nil}
use dtreesync.Base.Int.{pos}
use dtreesync.Base.Strings.{codes, split, join, has_prefix, byte_length}
use dtreesync.Base.Strings.Parts.{Lacks, split-join}
use dtreesync.Base.Decimal.RoundTrip.{IsInt64}
use dtreesync.Format.Lines.{max_line}
use dtreesync.Model.Types.{DirRecord, PlatformMeta}
use dtreesync.Format.Tsv.{columns, parse_row}
use dtreesync.Format.Tsv.Field.{
  StaysInCell, IsClean, IsUint32, sanitize-stays, unnull-sanitize, parse-format_uint,
  parse-format_mode, parse-format_time, format_uint-stays, format_mode-stays, format_int-stays,
  Lacks-tab,
}

-- What a row can hold in its columns: the texts are clean, and the numbers have their width. The fields
-- without a column are free.
pub record IsTsvMeta (m : PlatformMeta) : Type 0 where
  pub uid : IsUint32 m.uid
  pub gid : IsUint32 m.gid
  pub mode : IsUint32 m.mode
  pub file_attributes : IsUint32 m.file_attributes
  pub mod_time : IsInt64 m.mod_time
  pub username : IsClean m.username
  pub group : IsClean m.group
  pub acl_access : IsClean m.acl_access
  pub acl_default : IsClean m.acl_default
  pub selinux_context : IsClean m.selinux_context
  pub sddl : IsClean m.sddl

-- A row must not look like a comment or the column header, and must fit the reader's buffer.
pub record IsTsvRecord (rec : DirRecord) : Type 0 where
  pub metadata : IsTsvMeta rec.metadata
  pub entity : IsClean rec.entity
  pub rel_path : IsClean rec.rel_path
  pub no_comment : has_prefix (codes "#") rec.entity ≡ false
  pub no_column_name : rec.entity ≢ codes "entity"
  pub fits : byte_length (join b'\t' (columns rec)) < max_line

-- The fields of a record that have a column; the others are at their zero values.
abbrev pub in_columns : DirRecord → DirRecord
in_columns rec = record rec {
  metadata = record rec.metadata {
    acl_text = [];
    owner_sid = [];
    group_sid = [];
    owner_name = [];
    group_name = [];
    birth_time = pos 0;
    access_time = pos 0;
    change_time = pos 0;
  };
}

-- The columns of a record that a row can hold are read back as the fields that have one.
pub parse_row-columns :
    (rec : DirRecord) → IsTsvRecord rec → parse_row (columns rec) ≡ some (in_columns rec)
unfolding columns parse_row
parse_row-columns rec h =
    let m = h.metadata in
    λ i. some (record {
      entity = unnull-sanitize rec.entity h.entity i;
      rel_path = unnull-sanitize rec.rel_path h.rel_path i;
      metadata = record {
        uid = parse-format_uint rec.metadata.uid m.uid i;
        gid = parse-format_uint rec.metadata.gid m.gid i;
        username = unnull-sanitize rec.metadata.username m.username i;
        group = unnull-sanitize rec.metadata.group m.group i;
        mode = parse-format_mode rec.metadata.mode m.mode i;
        acl_access = unnull-sanitize rec.metadata.acl_access m.acl_access i;
        acl_default = unnull-sanitize rec.metadata.acl_default m.acl_default i;
        acl_text = [];
        selinux_context = unnull-sanitize rec.metadata.selinux_context m.selinux_context i;
        owner_sid = [];
        group_sid = [];
        owner_name = [];
        group_name = [];
        sddl = unnull-sanitize rec.metadata.sddl m.sddl i;
        file_attributes = parse-format_uint rec.metadata.file_attributes m.file_attributes i;
        birth_time = pos 0;
        mod_time = parse-format_time rec.metadata.mod_time m.mod_time i;
        access_time = pos 0;
        change_time = pos 0;
      };
    })

pub columns-stay : (rec : DirRecord) → All (All StaysInCell) (columns rec)
unfolding columns
columns-stay rec = (
  sanitize-stays rec.entity,
  (
    sanitize-stays rec.rel_path,
    (
      format_mode-stays rec.metadata.mode,
      (
        format_uint-stays rec.metadata.uid,
        (
          format_uint-stays rec.metadata.gid,
          (
            sanitize-stays rec.metadata.username,
            (
              sanitize-stays rec.metadata.group,
              (
                sanitize-stays rec.metadata.acl_access,
                (
                  sanitize-stays rec.metadata.acl_default,
                  (
                    sanitize-stays rec.metadata.selinux_context,
                    (
                      sanitize-stays rec.metadata.sddl,
                      (
                        format_uint-stays rec.metadata.file_attributes,
                        (format_int-stays rec.metadata.mod_time, tt),
                      ),
                    ),
                  ),
                ),
              ),
            ),
          ),
        ),
      ),
    ),
  ),
)

cells-Lack-tab : (cols : List Text) → All (All StaysInCell) cols → All (Lacks b'\t') cols
cells-Lack-tab [] _ = tt
cells-Lack-tab (c ∷ cols) (h, hs) = (Lacks-tab c h, cells-Lack-tab cols hs)

-- The line of a row.
abbrev pub line_of : DirRecord → Text
line_of rec = join b'\t' (columns rec)

columns-ne-nil : (rec : DirRecord) → columns rec ≢ []
unfolding columns
columns-ne-nil rec = cons-ne-nil _ _

-- A row has as many columns as were written, whatever the record holds.
pub split-line_of : (rec : DirRecord) → split b'\t' (line_of rec) ≡ columns rec
split-line_of rec =
    split-join b'\t' (columns rec) (columns-ne-nil rec) (cells-Lack-tab _ (columns-stay rec))
