-- ===== src/Model/Identity.antt =====
-- internal/model/idmap.go: the translation of accounts, groups and SIDs. A nil map is `none`. A Go
-- map is listed in the order in which it is ranged over; any order may be given.
use dtreesync.Base.{
  Text, ℕ, Bool, not, ◌||◌, ◌&&◌, Option, none, some, List, [], ◌∷◌, ◌==◌, nat_eq, text_eq, leb,
  length, map, if◌then◌else◌, Eq,
}
use dtreesync.Base.Strings.{
  codes, split, join, has_prefix, has_char, replace_all, trim_space, byte_length,
}
use dtreesync.Model.Types.{Table, IdentityMap, PlatformMeta}

-- `m[k]`, with what a missing key yields.
unfoldable pub lookup {ℓ κ} : {K : Type ℓ} {V : Type κ} ⦃e : Eq K⦄ → K → Table K V → Option V
lookup k [] = none
lookup k ((j, v) ∷ m) = if k == j then some v else lookup k m

abbrev pub or_original : Text → Option Text → Text
or_original u none = u
or_original u (some target) = if target == [] then u else target

-- `TranslateUser`, `TranslateGroup` and `TranslateSID` over their table.
unfoldable pub translate_name : Table Text Text → Text → Text
unfolding lookup
translate_name table u = if length table == 0 || u == [] then u else or_original u (lookup u table)

abbrev pub translate_user : IdentityMap → Text → Text
translate_user m = translate_name m.users

abbrev pub translate_group : IdentityMap → Text → Text
translate_group m = translate_name m.groups

abbrev pub translate_sid : IdentityMap → Text → Text
translate_sid m = translate_name m.sids

-- `TranslateUID` and `TranslateGID`; the Boolean result is `some`.
unfoldable pub translate_id : Table ℕ ℕ → ℕ → Option ℕ
unfolding lookup
translate_id table id = if length table == 0 then none else lookup id table

-- `slices.SortFunc` by falling byte length of the key.
unfoldable pub insert_by_length : Text × Text → Table Text Text → Table Text Text
insert_by_length (k, v) [] = (k, v) ∷ []
insert_by_length (k, v) ((j, w) ∷ m) =
    let later = (j, w) ∷ insert_by_length (k, v) m in
    if leb (byte_length j) (byte_length k) then (k, v) ∷ (j, w) ∷ m else later

unfoldable pub sort_by_length : Table Text Text → Table Text Text
unfolding insert_by_length
sort_by_length [] = []
sort_by_length (e ∷ m) = insert_by_length e (sort_by_length m)

-- The loop over the sorted SIDs.
unfoldable pub replace_sids : Table Text Text → Text → Text
unfolding replace_all
replace_sids [] result = result
replace_sids ((old, new) ∷ m) result =
    replace_sids m
      (if not (new == []) && not (old == new) then replace_all old new result else result)

unfoldable pub translate_sddl : IdentityMap → Text → Text
unfolding replace_sids sort_by_length
translate_sddl m sddl =
    if length m.sids == 0 || sddl == [] then sddl else replace_sids (sort_by_length m.sids) sddl

abbrev pub is_user_tag : Text → Bool
is_user_tag tag = tag == codes "u" || tag == codes "user"

abbrev pub is_group_tag : Text → Bool
is_group_tag tag = tag == codes "g" || tag == codes "group"

-- The name of one entry, `tag:name:…`.
unfoldable pub translate_entry : IdentityMap → List Text → List Text
unfolding translate_name
translate_entry m (tag ∷ name ∷ perms ∷ rest) =
    (if is_user_tag tag && not (name == [])
      then tag ∷ translate_user m name ∷ perms ∷ rest
      else if is_group_tag tag && not (name == [])
      then tag ∷ translate_group m name ∷ perms ∷ rest
      else tag ∷ name ∷ perms ∷ rest)
translate_entry m parts = parts

-- A default entry has one more part in front.
unfoldable pub translate_parts : IdentityMap → List Text → List Text
unfolding translate_entry
translate_parts m [] = []
translate_parts m (head ∷ rest) =
    if leb 3 (length rest) && (head == codes "d" || head == codes "default")
    then head ∷ translate_entry m rest
    else translate_entry m (head ∷ rest)

unfoldable pub translate_line : IdentityMap → Text → Text
unfolding translate_parts split join trim_space has_prefix
translate_line m line =
    let trimmed = trim_space line in
    if trimmed == [] || has_prefix (codes "#") trimmed
    then line
    else join b':' (translate_parts m (split b':' trimmed))

abbrev pub delimiter : Text → ℕ
delimiter acl_text = if has_char b',' acl_text && not (has_char b'\n' acl_text) then b',' else b'\n'

unfoldable pub translate_acl_text : IdentityMap → Text → Text
unfolding translate_line split join
translate_acl_text m acl_text =
    if acl_text == [] || (length m.users == 0 && length m.groups == 0)
    then acl_text
    else join (delimiter acl_text) (map (translate_line m) (split (delimiter acl_text) acl_text))

abbrev pub translate_present : (Text → Text) → Text → Text
translate_present f t = if t == [] then t else f t

abbrev pub translate_optional : Table ℕ ℕ → Option ℕ → Option ℕ
translate_optional table none = none
translate_optional table (some id) = elim (translate_id table id) [
  | none ↦ some id
  | some new ↦ some new
]

unfoldable pub apply_to_platform_meta : Option IdentityMap → PlatformMeta → PlatformMeta
unfolding translate_name translate_id translate_acl_text translate_sddl
apply_to_platform_meta none meta = meta
apply_to_platform_meta (some m) meta = record meta {
  username = translate_present (translate_user m) meta.username;
  group = translate_present (translate_group m) meta.group;
  uid = translate_optional m.uids meta.uid;
  gid = translate_optional m.gids meta.gid;
  acl_text = translate_present (translate_acl_text m) meta.acl_text;
  owner_sid = translate_present (translate_sid m) meta.owner_sid;
  group_sid = translate_present (translate_sid m) meta.group_sid;
  owner_name = translate_present (translate_user m) meta.owner_name;
  group_name = translate_present (translate_group m) meta.group_name;
  sddl = translate_present (translate_sddl m) meta.sddl;
}
