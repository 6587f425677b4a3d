-- ===== src/Meta/Names.antt =====
-- internal/meta/meta_posix.go: the names of users and groups, with the two caches of each. The accounts
-- are what package os/user finds.
pub mod Mirrored
use dtreesync.Base.{
  Text, ℕ, Option, none, some, List, [], ◌∷◌, ◌==◌, text_eq, nat_eq, leb, if◌then◌else◌,
}
use dtreesync.Base.Decimal.{parse_uint}
use dtreesync.Model.Types.{Table}
use dtreesync.Model.Identity.{lookup}

abbrev pub max_int32 : ℕ
max_int32 = 2147483647

-- `user.LookupId` and `user.Lookup` (or those of groups): the name of a number, and the text of the
-- number of a name.
pub record Accounts : Type 0 where
  pub name_of : ℕ → Option Text
  pub id_of : Text → Option Text

-- `uidToNameCache` and `nameToUIDCache`, or those of groups.
pub record Cache : Type 0 where
  pub names : Table ℕ Text
  pub ids : Table Text ℕ

-- A number above the largest `int32` does not count.
abbrev pub at_most : Option ℕ → Option ℕ
at_most none = none
at_most (some id) = if leb id max_int32 then some id else none

abbrev pub store : ℕ → Text → Cache → Cache
store id name c = record { names = (id, name) ∷ c.names; ids = (name, id) ∷ c.ids }

abbrev pub name_found : ℕ → Cache → Option Text → Text × Cache
name_found id c none = ([], c)
name_found id c (some name) = if name == [] then ([], c) else (name, store id name c)

abbrev pub name_cached : Accounts → ℕ → Cache → Option Text → Text × Cache
name_cached db id c (some name) = (name, c)
name_cached db id c none = name_found id c (db.name_of id)

-- `lookupUsername` and `lookupGroupName`; an empty name is none.
unfoldable pub name_of_id : Accounts → ℕ → Cache → Text × Cache
unfolding lookup
name_of_id db id c = name_cached db id c (lookup id c.names)

abbrev pub lookup_username : Accounts → ℕ → Cache → Text × Cache
lookup_username = name_of_id

abbrev pub lookup_group_name : Accounts → ℕ → Cache → Text × Cache
lookup_group_name = name_of_id

abbrev pub parsed : Option Text → Option ℕ
parsed none = none
parsed (some text) = parse_uint 10 32 text

abbrev pub id_found : Text → Cache → Option ℕ → Option ℕ × Cache
id_found name c none = (none, c)
id_found name c (some id) = if leb id max_int32 then (some id, store id name c) else (none, c)

abbrev pub id_cached : Accounts → Text → Cache → Option ℕ → Option ℕ × Cache
id_cached db name c (some id) = (some id, c)
id_cached db name c none = id_found name c (parsed (db.id_of name))

-- `lookupNameToUID` and `lookupNameToGID`.
unfoldable pub id_of_name : Accounts → Text → Cache → Option ℕ × Cache
unfolding lookup parse_uint
id_of_name db name c = id_cached db name c (lookup name c.ids)

abbrev pub lookup_name_to_uid : Accounts → Text → Cache → Option ℕ × Cache
lookup_name_to_uid = id_of_name

abbrev pub lookup_name_to_gid : Accounts → Text → Cache → Option ℕ × Cache
lookup_name_to_gid = id_of_name
