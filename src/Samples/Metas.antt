-- ===== src/Samples/Metas.antt =====
-- internal/meta/meta_posix.go on a host with one account.
use dtreesync.Base.{
  Text, ℕ, true, false, Option, none, some, [], ◌∷◌, ◌≡◌, ◌≢◌, refl, ◌==◌, ==_iff, eq_refl, nat_eq,
  text_eq, if◌then◌else◌, arith,
}
use dtreesync.Base.Int.{pos}
use dtreesync.Base.Strings.{codes}
use dtreesync.Base.Decimal.{parse_uint, scan}
use dtreesync.Model.Identity.{lookup}
use dtreesync.Meta.Names.{Accounts, Cache, parsed, name_of_id, id_of_name, at_most}
use dtreesync.Meta.Names.Mirrored.{IsConsistent, IsMirrored, plain_name, lookup-IsMirrored}
use dtreesync.Meta.Posix.{Stat, Host, Caches, Chown, denied, broken, read_meta, apply_meta}
use dtreesync.Meta.Posix.RoundTrip.{calls_of, read-apply}

abbrev ann : Text
ann = codes "ann"

abbrev name_of : ℕ → Option Text
name_of id = if id == 1000 then some ann else none

abbrev id_of : Text → Option Text
id_of name = if name == ann then some (codes "1000") else none

abbrev accounts : Accounts
accounts = record { name_of = name_of; id_of = id_of }

number : parsed (some (codes "1000")) ≡ some 1000
unfolding parse_uint scan
number = refl

id_of_ann : (name : Text) → name ≡ ann → parsed (id_of name) ≡ some 1000
id_of_ann name e = rw e (rw (eq_refl ann) number)

id_of_other : (name : Text) → (name == ann) ≡ false → parsed (id_of name) ≡ none
id_of_other name e = rw e refl

accounts-IsConsistent : IsConsistent accounts
accounts-IsConsistent = record {
  id_back = λ id name e. ground (arith, ==_iff id 1000, id_of_ann name);
  name_back = λ id name e.
      ground (arith, ==_iff id 1000, ==_iff name ann, id_of_ann name, id_of_other name);
}

abbrev no_cache : Cache
no_cache = record { names = []; ids = [] }

no_cache-IsMirrored : IsMirrored accounts no_cache
unfolding lookup
no_cache-IsMirrored = record { names_from = λ id name e. cc; ids_from = λ id name e. cc }

abbrev host : Host
host = record { users = accounts; groups = accounts }

abbrev caches : Caches
caches = record { users = no_cache; groups = no_cache }

abbrev st : Stat
st = record {
  uid = 1000;
  gid = 7;
  mode = 16872;
  mtim = pos 5;
  atim = pos 6;
  ctim = pos 7;
  acl_access = some (2 ∷ 0 ∷ 255 ∷ []);
  acl_default = none;
  selinux = some (117 ∷ 0 ∷ []);
}

abbrev answer : Option ℕ → Option ℕ → Chown
answer _ _ = denied

lookup-IsMirrored_example :
    ((name_of_id accounts 1000 no_cache).0 ≡ plain_name (name_of 1000))
    × (at_most (id_of_name accounts ann no_cache).0 ≡ at_most (parsed (id_of ann)))
    × IsMirrored accounts (name_of_id accounts 1000 no_cache).1
    × IsMirrored accounts (id_of_name accounts ann no_cache).1
lookup-IsMirrored_example =
    lookup-IsMirrored accounts 1000 ann no_cache accounts-IsConsistent no_cache-IsMirrored

not_broken : denied ≢ broken
not_broken = λ e. cc

read-apply_example :
    ((apply_meta host answer
        (read_meta host caches (some st)).1
        (read_meta host caches (some st)).0
        true).0
      ≡ calls_of st)
    × ((apply_meta host answer
          (read_meta host caches (some st)).1
          (read_meta host caches (some st)).0
          true).2
        ≡ true)
read-apply_example =
    read-apply host answer caches st accounts-IsConsistent accounts-IsConsistent no_cache-IsMirrored
      no_cache-IsMirrored (omega arith) (omega arith) (omega arith) tt (117, [], refl) not_broken
