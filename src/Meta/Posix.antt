-- ===== src/Meta/Posix.antt =====
-- internal/meta/meta_posix.go and meta_linux.go: `ReadMeta`, `ApplyMeta` and `SetTimes`. What the system
-- says of a path is a `Stat`; the calls that change it are listed in their order, and only a chown has
-- an answer that matters.
pub mod RoundTrip
use dtreesync.Base.{
  Text, ℕ, suc, ◌+◌, ◌%◌, ◌^◌, Bool, true, false, not, ◌&&◌, ◌||◌, Option, none, some, List, [],
  ◌∷◌, ◌++◌, ◌==◌, text_eq, nat_eq, leb, ltb, length, if◌then◌else◌,
}
use dtreesync.Base.Int.{ℤ, pos, negsuc, ltb_ℤ}
use dtreesync.Base.Strings.{codes}
use dtreesync.Base.Hex.{encode_to_string, decode_string}
use dtreesync.Model.Types.{PlatformMeta}
use dtreesync.Meta.Names.{
  at_most, Accounts, Cache, lookup_username, lookup_group_name, lookup_name_to_uid,
  lookup_name_to_gid, name_of_id, id_of_name,
}

abbrev pub Bytes : Type 0
Bytes = List ℕ

-- `Lstat`, with the permission bits and others in `mode`, and the extended attributes.
pub record Stat : Type 0 where
  pub uid : ℕ
  pub gid : ℕ
  pub mode : ℕ
  pub mtim : ℤ
  pub atim : ℤ
  pub ctim : ℤ
  pub acl_access : Option Bytes
  pub acl_default : Option Bytes
  pub selinux : Option Bytes

-- The accounts of the host.
pub record Host : Type 0 where
  pub users : Accounts
  pub groups : Accounts

pub record Caches : Type 0 where
  pub users : Cache
  pub groups : Cache

-- `FileMode.Perm`
abbrev pub perm : ℕ → ℕ
perm mode = mode % 512

-- `unix.Getxattr` into a buffer of 1024 bytes gives an error for a longer value.
abbrev fitting : Bytes → Option Bytes
fitting value = if leb (length value) 1024 then some value else none

abbrev pub getxattr : Option Bytes → Option Bytes
getxattr none = none
getxattr (some value) = fitting value

abbrev pub hex_of : Option Bytes → Text
hex_of none = []
hex_of (some value) = encode_to_string value

-- A null byte at the end is cut.
unfoldable pub cut_null : Bytes → Bytes
cut_null [] = []
cut_null (b ∷ []) = if b == 0 then [] else b ∷ []
cut_null (b ∷ c ∷ bs) = b ∷ cut_null (c ∷ bs)

abbrev pub context_of : Option Bytes → Text
context_of none = []
context_of (some value) = cut_null value

-- `extractPosixXattrs`; an attribute that is not there stays empty.
unfoldable pub extract_posix_xattrs : Stat → PlatformMeta → PlatformMeta
unfolding encode_to_string cut_null
extract_posix_xattrs st m = record m {
  acl_access = hex_of (getxattr st.acl_access);
  acl_default = hex_of (getxattr st.acl_default);
  selinux_context = context_of (getxattr st.selinux);
}

unfoldable pub extract_posix_timestamps : Stat → PlatformMeta → PlatformMeta
extract_posix_timestamps st m = record m {
  access_time = st.atim;
  mod_time = st.mtim;
  change_time = st.ctim;
}

abbrev named : Stat → Text → Text → PlatformMeta
named st user group = record {
  uid = some st.uid;
  gid = some st.gid;
  username = user;
  group = group;
  mode = some (perm st.mode);
  acl_access = [];
  acl_default = [];
  acl_text = [];
  selinux_context = [];
  owner_sid = [];
  group_sid = [];
  owner_name = [];
  group_name = [];
  sddl = [];
  file_attributes = none;
  birth_time = pos 0;
  mod_time = st.mtim;
  access_time = pos 0;
  change_time = pos 0;
}

abbrev pub both : Text × Cache → Text × Cache → Stat → PlatformMeta × Caches
both (user, us) (group, gs) st = (
  extract_posix_xattrs st (extract_posix_timestamps st (named st user group)),
  record { users = us; groups = gs },
)

-- `ReadMeta` of a path that `Lstat` finds.
abbrev pub read_found : Host → Caches → Stat → PlatformMeta × Caches
read_found host c st =
    both (lookup_username host.users st.uid c.users) (lookup_group_name host.groups st.gid c.groups)
      st

unfoldable pub read_meta : Host → Caches → Option Stat → Option PlatformMeta × Caches
unfolding extract_posix_xattrs extract_posix_timestamps name_of_id
read_meta host c none = (none, c)
read_meta host c (some st) = let (m, c') = read_found host c st in (some m, c')

-- No number in a chown is -1, which leaves the owner or the group.
pub data Call : Type 0 where
  chmod : ℕ → Call
  chown : Option ℕ → Option ℕ → Call
  setxattr : Text → Bytes → Call
  chtimes : Option ℕ → Option ℕ → Call

pub data Chown : Type 0 where
  done denied broken : Chown

abbrev pub set_mode : Option ℕ → List Call
set_mode none = []
set_mode (some mode) = chmod mode ∷ []

-- The number of the name, or else the one in the snapshot.
abbrev pub or_number : Option ℕ → Option ℕ → Option ℕ
or_number (some id) number = some id
or_number none number = at_most number

abbrev pub by_name : Option ℕ → Option ℕ × Cache → Option ℕ × Cache
by_name number (found, c) = (or_number (at_most found) number, c)

abbrev pub target_uid : Accounts → Cache → Text → Option ℕ → Option ℕ × Cache
target_uid db c name number =
    if name == [] then (at_most number, c) else by_name number (lookup_name_to_uid db name c)

abbrev pub target_gid : Accounts → Cache → Text → Option ℕ → Option ℕ × Cache
target_gid db c name number =
    if name == [] then (at_most number, c) else by_name number (lookup_name_to_gid db name c)

abbrev pub set_raw : Text → Option Bytes → List Call
set_raw attr none = []
set_raw attr (some raw) = setxattr attr raw ∷ []

abbrev pub access_attr : Text
access_attr = codes "system.posix_acl_access"

abbrev pub default_attr : Text
default_attr = codes "system.posix_acl_default"

abbrev pub selinux_attr : Text
selinux_attr = codes "security.selinux"

abbrev pub set_acl : Text → Text → List Call
set_acl attr hex = if hex == [] then [] else set_raw attr (decode_string hex)

abbrev pub set_context : Text → List Call
set_context context = if context == [] then [] else setxattr selinux_attr (context ++ (0 ∷ [])) ∷ []

unfoldable pub apply_posix_xattrs : PlatformMeta → List Call
unfolding decode_string
apply_posix_xattrs m =
    set_acl access_attr m.acl_access
    ++ (set_acl default_attr m.acl_default ++ set_context m.selinux_context)

-- The calls, the caches, and whether there is no error.
abbrev pub Applied : Type 0
Applied = List Call × Caches × Bool

-- A chown that is not permitted is no error.
abbrev pub answered : PlatformMeta → Option ℕ → Option ℕ → Caches → Chown → Applied
answered m uid gid c broken = (set_mode m.mode ++ (chown uid gid ∷ []), c, false)
answered m uid gid c done = (set_mode m.mode ++ (chown uid gid ∷ apply_posix_xattrs m), c, true)
answered m uid gid c denied = (set_mode m.mode ++ (chown uid gid ∷ apply_posix_xattrs m), c, true)

abbrev pub chowned :
    (Option ℕ → Option ℕ → Chown) → PlatformMeta → Option ℕ × Cache → Option ℕ × Cache → Applied
chowned answer m (uid, us) (gid, gs) =
    answered m uid gid (record { users = us; groups = gs }) (answer uid gid)

abbrev is_set : Option ℕ → Bool
is_set none = false
is_set (some _) = true

abbrev pub applied : Host → (Option ℕ → Option ℕ → Chown) → Caches → PlatformMeta → Bool → Applied
applied host answer c m false = (set_mode m.mode, c, true)
applied host answer c m true =
    if is_set m.uid || is_set m.gid
    then chowned answer m (target_uid host.users c.users m.username m.uid)
        (target_gid host.groups c.groups m.group m.gid)
    else (set_mode m.mode ++ apply_posix_xattrs m, c, true)

-- `ApplyMeta`; the argument before the last is nil or the metadata.
unfoldable pub apply_meta :
    Host → (Option ℕ → Option ℕ → Chown) → Caches → Option PlatformMeta → Bool → Applied
unfolding apply_posix_xattrs id_of_name
apply_meta host answer c none apply_perms = ([], c, true)
apply_meta host answer c (some m) apply_perms = applied host answer c m apply_perms

-- A time that is not positive becomes the time of the call.
abbrev pub time_or_now : ℤ → Option ℕ
time_or_now (pos n) = if ltb 0 n then some n else none
time_or_now (negsuc n) = none

-- `SetTimes`; the birth time is not used.
unfoldable pub set_times : ℤ → ℤ → ℤ → List Call
set_times birth modified accessed = chtimes (time_or_now accessed) (time_or_now modified) ∷ []
