-- ===== src/Meta/Names/Mirrored.antt =====
-- internal/meta/meta_posix.go: the two caches of names stay inverse to each other.
use dtreesync.Base.{
  Text, ℕ, Option, none, some, [], ◌∷◌, ◌≡◌, refl, ==_iff, text_eq, nat_eq, arith, leb, Bool-cases,
  inl, inr,
}
use dtreesync.Model.Identity.{lookup}
use dtreesync.Meta.Names.{
  at_most, max_int32, Accounts, Cache, store, name_found, name_cached, name_of_id, parsed, id_found,
  id_cached, id_of_name,
}

-- The accounts give each name one number, and each number one name.
pub record IsConsistent (db : Accounts) : Type 0 where
  pub id_back :
      (id : ℕ) (name : Text) → db.name_of id ≡ some name → parsed (db.id_of name) ≡ some id
  pub name_back :
      (id : ℕ) (name : Text) → parsed (db.id_of name) ≡ some id → db.name_of id ≡ some name

-- What is in the caches is what the accounts say.
pub record IsMirrored (db : Accounts) (c : Cache) : Type 0 where
  pub names_from :
      (id : ℕ) (name : Text) → lookup id c.names ≡ some name → db.name_of id ≡ some name
  pub ids_from :
      (id : ℕ) (name : Text) → lookup name c.ids ≡ some id → parsed (db.id_of name) ≡ some id

module _ (db : Accounts) (con : IsConsistent db) where
  store-IsMirrored :
      (id : ℕ) (name : Text) (c : Cache)
      → db.name_of id ≡ some name
      → IsMirrored db c
      → IsMirrored db (store id name c)
  unfolding lookup
  store-IsMirrored id name c e h = record {
    names_from = λ j n k. ground (arith, ==_iff j id, h.names_from j n);
    ids_from = λ j n k. ground (arith, ==_iff n name, h.ids_from j n, con.id_back id name e);
  }

  name_found-IsMirrored :
      (id : ℕ) (c : Cache) (o : Option Text)
      → db.name_of id ≡ o
      → IsMirrored db c
      → IsMirrored db (name_found id c o).1
  unfolding text_eq
  name_found-IsMirrored id c none e h = h
  name_found-IsMirrored id c (some []) e h = h
  name_found-IsMirrored id c (some (b ∷ bs)) e h = store-IsMirrored id (b ∷ bs) c e h

  name_cached-IsMirrored :
      (id : ℕ) (c : Cache) (o : Option Text)
      → IsMirrored db c
      → IsMirrored db (name_cached db id c o).1
  name_cached-IsMirrored id c none h = name_found-IsMirrored id c (db.name_of id) refl h
  name_cached-IsMirrored id c (some name) h = h

  id_found-IsMirrored :
      (name : Text) (c : Cache) (o : Option ℕ)
      → parsed (db.id_of name) ≡ o
      → IsMirrored db c
      → IsMirrored db (id_found name c o).1
  id_found-IsMirrored name c none e h = h
  id_found-IsMirrored name c (some id) e h = elim (Bool-cases (leb id max_int32)) [
    | inl small ↦ rw small (store-IsMirrored id name c (con.name_back id name e) h)
    | inr large ↦ rw large h
  ]

  id_cached-IsMirrored :
      (name : Text) (c : Cache) (o : Option ℕ)
      → IsMirrored db c
      → IsMirrored db (id_cached db name c o).1
  id_cached-IsMirrored name c none h = id_found-IsMirrored name c (parsed (db.id_of name)) refl h
  id_cached-IsMirrored name c (some id) h = h

-- The answer without the caches.
abbrev pub plain_name : Option Text → Text
plain_name none = []
plain_name (some name) = name

module _ (db : Accounts) where
  name_cached-eq :
      (id : ℕ) (c : Cache) (o : Option Text)
      → lookup id c.names ≡ o
      → IsMirrored db c
      → (name_cached db id c o).0 ≡ plain_name (db.name_of id)
  unfolding text_eq
  name_cached-eq id c (some name) e h = ground (arith, h.names_from id name)
  name_cached-eq id c none e h = from_accounts (db.name_of id)
    where
      from_accounts : (o : Option Text) → (name_found id c o).0 ≡ plain_name o
      from_accounts none = refl
      from_accounts (some []) = refl
      from_accounts (some (b ∷ bs)) = refl

  id_cached-eq :
      (name : Text) (c : Cache) (o : Option ℕ)
      → lookup name c.ids ≡ o
      → IsMirrored db c
      → at_most (id_cached db name c o).0 ≡ at_most (parsed (db.id_of name))
  id_cached-eq name c (some id) e h = rw (h.ids_from id name e) refl
  id_cached-eq name c none e h = from_accounts (parsed (db.id_of name))
    where
      from_accounts : (o : Option ℕ) → at_most (id_found name c o).0 ≡ at_most o
      from_accounts none = refl
      from_accounts (some id) = ground arith

-- Where the accounts give each name one number and each number one name, and the caches hold only what
-- the accounts say: a lookup in either direction answers what the accounts say (numbers above the
-- largest `int32` aside), and leaves caches that again hold only that.
pub lookup-IsMirrored :
    (db : Accounts) (id : ℕ) (name : Text) (c : Cache)
    → IsConsistent db
    → IsMirrored db c
    → ((name_of_id db id c).0 ≡ plain_name (db.name_of id))
      × (at_most (id_of_name db name c).0 ≡ at_most (parsed (db.id_of name)))
      × IsMirrored db (name_of_id db id c).1
      × IsMirrored db (id_of_name db name c).1
unfolding name_of_id id_of_name
lookup-IsMirrored db id name c con h = (
  name_cached-eq db id c (lookup id c.names) refl h,
  id_cached-eq db name c (lookup name c.ids) refl h,
  name_cached-IsMirrored db con id c (lookup id c.names) h,
  id_cached-IsMirrored db con name c (lookup name c.ids) h,
)
