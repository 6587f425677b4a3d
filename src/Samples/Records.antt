-- ===== src/Samples/Records.antt =====
-- Directories, a header and an encoding of each that fits this header and these directories only.
use dtreesync.Base.{Text, ℕ, false, Option, none, some, [], ◌==◌, text_eq, if◌then◌else◌}
use dtreesync.Base.Int.{pos}
use dtreesync.Base.Strings.{codes}
use dtreesync.Model.Types.{BackupMetadata, PlatformMeta, DirRecord}

abbrev pub no_meta : PlatformMeta
no_meta = record {
  uid = none;
  gid = none;
  username = [];
  group = [];
  mode = none;
  acl_access = [];
  acl_default = [];
  acl_text = [];
  selinux_context = [];
  owner_sid = [];
  group_sid = [];
  owner_name = [];
  group_name = [];
  sddl = [];
  file_attributes = none;
  birth_time = pos 0;
  mod_time = pos 0;
  access_time = pos 0;
  change_time = pos 0;
}

abbrev pub owned : PlatformMeta
owned = record no_meta {
  uid = some 1000;
  gid = some 50;
  username = codes "ann";
  mode = some 488;
  mod_time = pos 7;
}

abbrev pub root : DirRecord
root = record { entity = codes "web"; rel_path = []; metadata = owned }

abbrev pub sub : DirRecord
sub = record { entity = codes "web"; rel_path = codes "a/b"; metadata = owned }

abbrev pub top : DirRecord
top = record { entity = codes "web"; rel_path = codes "a"; metadata = owned }

-- As a scan gives it, with the times that have no column.
abbrev pub timed_dir : DirRecord
timed_dir = record top { metadata = record owned { access_time = pos 8; change_time = pos 7 } }

abbrev pub hashed : DirRecord
hashed = record { entity = codes "#web"; rel_path = codes "a"; metadata = owned }

abbrev pub meta : BackupMetadata
meta = record {
  version = codes "1.0";
  base_folder = codes "/srv";
  entity = codes "web";
  created_at = 9;
  folder_count = pos 1;
  tree_file = [];
  tree_format = codes "tsv";
  compression = false;
  host_os = [];
  hostname = [];
  payload_sha256 = [];
  sort_order = codes "path";
}

abbrev pub encode : BackupMetadata → Text
encode _ = codes "{}"

abbrev pub decode : Text → Option BackupMetadata
decode line = if line == codes "{}" then some meta else none

abbrev pub encode_dir : DirRecord → Text
encode_dir _ = codes "{dir}"

abbrev pub decode_dir : Text → Option DirRecord
decode_dir line = if line == codes "{dir}" then some top else none

abbrev pub rfc3339 : ℕ → Text
rfc3339 _ = codes "2026-01-01T00:00:00Z"
