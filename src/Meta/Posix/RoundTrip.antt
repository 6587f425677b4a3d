-- ===== src/Meta/Posix/RoundTrip.antt =====
-- internal/meta/meta_posix.go: what was read of a directory is what is set when it is applied.
use dtreesync.Base.{
  Text, ℕ, ◌≤◌, ◌<◌, Bool, true, false, Option, none, some, List, [], ◌∷◌, ◌++◌, ◌≡◌, ◌≢◌, refl,
  sym, ◌∙◌, ap, All, text_eq, nat_eq, ==_of_ne, leb, length, if◌then◌else◌, arith,
}
use dtreesync.Base.Hex.{encode_to_string, decode_string-encode_to_string, encode_to_string-ne-nil}
use dtreesync.Model.Types.{PlatformMeta}
use dtreesync.Meta.Names.{at_most, max_int32, Accounts, Cache, name_of_id, id_of_name}
use dtreesync.Meta.Names.Mirrored.{IsConsistent, IsMirrored, plain_name, lookup-IsMirrored}
use dtreesync.Meta.Posix.{
  Bytes, Stat, Host, Caches, perm, getxattr, hex_of, cut_null, context_of, read_meta, Call, chmod,
  chown, setxattr, Chown, done, denied, broken, named, both, applied, target_gid, target_uid,
  access_attr, default_attr, selinux_attr, set_acl, set_context, apply_posix_xattrs, set_mode,
  answered, chowned, apply_meta, extract_posix_xattrs, extract_posix_timestamps,
}

abbrev pub AreBytes : Option Bytes → Type 0
AreBytes none = Unit
AreBytes (some value) = All (λ b. b < 256) value

-- A context ends with a null byte and is not empty.
abbrev pub IsContext : Option Bytes → Type 0
IsContext none = Unit
IsContext (some value) = (b : ℕ) × (bs : Bytes) × (value ≡ (b ∷ bs) ++ (0 ∷ []))

-- An attribute of 1 to 1024 bytes is set again as it is.
abbrev pub set_again : Text → Option Bytes → List Call
set_again attr none = []
set_again attr (some []) = []
set_again attr (some (b ∷ bs)) =
    if leb (length (b ∷ bs)) 1024 then setxattr attr (b ∷ bs) ∷ [] else []

set_acl-encode :
    (attr : Text) (b : ℕ) (bs : Bytes)
    → All (λ x. x < 256) (b ∷ bs)
    → set_acl attr (encode_to_string (b ∷ bs)) ≡ setxattr attr (b ∷ bs) ∷ []
set_acl-encode attr b bs h =
    rw (==_of_ne _ _ (encode_to_string-ne-nil b bs), decode_string-encode_to_string (b ∷ bs) h) refl

set_acl-if :
    (attr : Text) (b : ℕ) (bs : Bytes) (fits : Bool)
    → All (λ x. x < 256) (b ∷ bs)
    → set_acl attr (hex_of (if fits then some (b ∷ bs) else none))
      ≡ (if fits then setxattr attr (b ∷ bs) ∷ [] else [])
unfolding text_eq
set_acl-if attr b bs true h = set_acl-encode attr b bs h
set_acl-if attr b bs false h = refl

set_acl-again :
    (attr : Text) (o : Option Bytes)
    → AreBytes o
    → set_acl attr (hex_of (getxattr o)) ≡ set_again attr o
unfolding text_eq encode_to_string
set_acl-again attr none h = refl
set_acl-again attr (some []) h = refl
set_acl-again attr (some (b ∷ bs)) h = set_acl-if attr b bs (leb (length (b ∷ bs)) 1024) h

cut_null-append : (t : Bytes) → cut_null (t ++ (0 ∷ [])) ≡ t
unfolding cut_null nat_eq
cut_null-append [] = refl
cut_null-append (b ∷ []) = refl
cut_null-append (b ∷ c ∷ t) = ap (λ l. b ∷ l) (cut_null-append (c ∷ t))

set_context-if :
    (b : ℕ) (bs : Bytes) (fits : Bool)
    → set_context (context_of (if fits then some ((b ∷ bs) ++ (0 ∷ [])) else none))
      ≡ (if fits then setxattr selinux_attr ((b ∷ bs) ++ (0 ∷ [])) ∷ [] else [])
unfolding text_eq
set_context-if b bs true = rw (cut_null-append (b ∷ bs)) refl
set_context-if b bs false = refl

set_context-again :
    (o : Option Bytes)
    → IsContext o
    → set_context (context_of (getxattr o)) ≡ set_again selinux_attr o
unfolding text_eq
set_context-again none h = refl
set_context-again (some value) (b, bs, e) =
    rw e (set_context-if b bs (leb (length ((b ∷ bs) ++ (0 ∷ []))) 1024))

plain-some : (o : Option Text) (b : ℕ) (bs : Text) → plain_name o ≡ b ∷ bs → o ≡ some (b ∷ bs)
plain-some none b bs e = cc
plain-some (some name) b bs e = ap some e

-- The owner that is set is the one that was read.
target-back :
    (db : Accounts) (id : ℕ) (c : Cache) (name : Text)
    → IsConsistent db
    → IsMirrored db c
    → id ≤ max_int32
    → plain_name (db.name_of id) ≡ name
    → (target_uid db c name (some id)).0 ≡ some id
unfolding text_eq
target-back db id c [] con h small e = ground arith
target-back db id c (b ∷ bs) con h small e =
    let found = (lookup-IsMirrored db id (b ∷ bs) c con h).1 in
    let back = con.id_back id (b ∷ bs) (plain-some (db.name_of id) b bs e) in
    let same : at_most (id_of_name db (b ∷ bs) c).0 ≡ some id =
      found ∙ ap at_most back ∙ ground arith in
    rw same refl

-- The calls for the metadata that were read.
abbrev pub calls_of : Stat → List Call
calls_of st =
    chmod (perm st.mode) ∷ chown (some st.uid) (some st.gid) ∷ set_again access_attr st.acl_access
    ++ (set_again default_attr st.acl_default ++ set_again selinux_attr st.selinux)

xattrs-again :
    (st : Stat) (m : PlatformMeta)
    → AreBytes st.acl_access
    → AreBytes st.acl_default
    → IsContext st.selinux
    → apply_posix_xattrs (extract_posix_xattrs st m)
      ≡ set_again access_attr st.acl_access
        ++ (set_again default_attr st.acl_default ++ set_again selinux_attr st.selinux)
unfolding apply_posix_xattrs extract_posix_xattrs
xattrs-again st m ba bd bc =
    rw
      (
        set_acl-again access_attr st.acl_access ba,
        set_acl-again default_attr st.acl_default bd,
        set_context-again st.selinux bc,
      )
      refl

answered-eq :
    (m : PlatformMeta) (uid gid : Option ℕ) (c : Caches) (o : Chown)
    → o ≢ broken
    → ((answered m uid gid c o).0 ≡ set_mode m.mode ++ (chown uid gid ∷ apply_posix_xattrs m))
      × ((answered m uid gid c o).2 ≡ true)
answered-eq m uid gid c done h = (refl, refl)
answered-eq m uid gid c denied h = (refl, refl)
answered-eq m uid gid c broken h = absurd (h refl)

chowned-eq :
    (answer : Option ℕ → Option ℕ → Chown) (m : PlatformMeta) (u g : ℕ) (p q : Option ℕ × Cache)
    → p.0 ≡ some u
    → q.0 ≡ some g
    → answer (some u) (some g) ≢ broken
    → ((chowned answer m p q).0
        ≡ set_mode m.mode ++ (chown (some u) (some g) ∷ apply_posix_xattrs m))
      × ((chowned answer m p q).2 ≡ true)
chowned-eq answer m u g (uid, us) (gid, gs) e f h =
    rw (e, f) (answered-eq m (some u) (some g) (record { users = us; groups = gs }) _ h)

both-apply :
    (host : Host) (answer : Option ℕ → Option ℕ → Chown) (st : Stat) (p q : Text × Cache)
    → (target_uid host.users p.1 p.0 (some st.uid)).0 ≡ some st.uid
    → (target_gid host.groups q.1 q.0 (some st.gid)).0 ≡ some st.gid
    → AreBytes st.acl_access
    → AreBytes st.acl_default
    → IsContext st.selinux
    → answer (some st.uid) (some st.gid) ≢ broken
    → ((applied host answer (both p q st).1 (both p q st).0 true).0 ≡ calls_of st)
      × ((applied host answer (both p q st).1 (both p q st).0 true).2 ≡ true)
unfolding extract_posix_xattrs extract_posix_timestamps
both-apply host answer st (name, us) (group, gs) eu eg ba bd bc h =
    let before = extract_posix_timestamps st (named st name group) in
    let (calls, fine) =
      chowned-eq answer (extract_posix_xattrs st before) st.uid st.gid
        (target_uid host.users us name (some st.uid))
        (target_gid host.groups gs group (some st.gid)) eu eg h in
    (
      calls
          ∙ ap (λ l. chmod (perm st.mode) ∷ chown (some st.uid) (some st.gid) ∷ l)
              (xattrs-again st before ba bd bc),
      fine,
    )

-- On a host whose accounts give each name one number and each number one name, with caches that hold
-- only what the accounts say: what `ReadMeta` gives for a directory, applied with permissions, makes the
-- calls that set its permission bits (the low nine bits of the mode: setuid, setgid and sticky are not
-- read, and so are cleared), its owner and group, and each of its attributes of 1 to 1024 bytes, and there
-- is no error unless the chown fails for another reason than a missing permission. The numbers are at
-- most the largest `int32`, and the SELinux context ends with a null byte.
pub read-apply :
    (host : Host) (answer : Option ℕ → Option ℕ → Chown) (c : Caches) (st : Stat)
    → IsConsistent host.users
    → IsConsistent host.groups
    → IsMirrored host.users c.users
    → IsMirrored host.groups c.groups
    → st.uid ≤ max_int32
    → st.gid ≤ max_int32
    → AreBytes st.acl_access
    → AreBytes st.acl_default
    → IsContext st.selinux
    → answer (some st.uid) (some st.gid) ≢ broken
    → ((apply_meta host answer (read_meta host c (some st)).1 (read_meta host c (some st)).0 true).0
        ≡ calls_of st)
      × ((apply_meta host answer
            (read_meta host c (some st)).1
            (read_meta host c (some st)).0
            true).2
          ≡ true)
unfolding read_meta apply_meta
read-apply host answer c st cu cg mu mg su sg ba bd bc h =
    let p = name_of_id host.users st.uid c.users in
    let q = name_of_id host.groups st.gid c.groups in
    let users = lookup-IsMirrored host.users st.uid [] c.users cu mu in
    let groups = lookup-IsMirrored host.groups st.gid [] c.groups cg mg in
    both-apply host answer st p q
      (target-back host.users st.uid p.1 p.0 cu users.2 su (sym users.0))
      (target-back host.groups st.gid q.1 q.0 cg groups.2 sg (sym groups.0)) ba bd bc h
