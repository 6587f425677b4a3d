-- ===== src/Core/Mirror/Contents.antt =====
-- internal/core/mirror.go: the parts that packing an item writes hold all of it.
use dtreesync.Base.{
  Text, true, false, Bool-cases, inl, inr, text_eq, if◌then◌else◌, List, [], ◌∷◌, ◌++◌, ◌≡◌, refl,
  sym, ◌∙◌, ap, arith, append_assoc, append-nil,
}
use dtreesync.Base.Strings.{codes, has_suffix, replace_char}
use dtreesync.Core.Mirror.{
  FileInfo, regular, directory, symlink, entry_name, Node, file, link, folder, Nodes, end, also,
  Header, Part, header, body, System, header_of, Packed, and_then, write_header, write_body,
  list_dir, below, add_file_to_tar, add_children,
}

-- The path with slashes; that of a directory ends in one.
abbrev pub slashed : Text → Text
slashed rel = replace_char 92 b'/' rel

unfoldable pub slashed_dir : Text → Text
slashed_dir rel =
    if has_suffix (codes "/") (slashed rel) then slashed rel else slashed rel ++ codes "/"

-- The parts of a node itself: its header, with the path, the mode, the time and the kind, and the bytes
-- of a file.
abbrev pub own_parts : Text → Node → List Part
own_parts rel (file info content) =
    header (record { name = slashed rel; info = info; type_flag = regular }) ∷ body content ∷ []
own_parts rel (link info target) =
    header (record { name = slashed rel; info = info; type_flag = symlink target }) ∷ []
own_parts rel (folder info inside) =
    header (record { name = slashed_dir rel; info = info; type_flag = directory }) ∷ []

abbrev header_part : Text → Node → Part
header_part rel n = header (header_of rel n)

file_header :
    (rel content : Text) (info : FileInfo)
    → header_part rel (file info content)
      ≡ header (record { name = slashed rel; info = info; type_flag = regular })
unfolding entry_name
file_header rel content info = refl

link_header :
    (rel target : Text) (info : FileInfo)
    → header_part rel (link info target)
      ≡ header (record { name = slashed rel; info = info; type_flag = symlink target })
unfolding entry_name
link_header rel target info = refl

folder_header :
    (rel : Text) (info : FileInfo) (inside : Nodes)
    → header_part rel (folder info inside)
      ≡ header (record { name = slashed_dir rel; info = info; type_flag = directory })
unfolding entry_name slashed_dir
folder_header rel info inside = elim (Bool-cases (has_suffix (codes "/") (slashed rel))) [
  | inl e ↦ rw e refl
  | inr e ↦ rw e refl
]

abbrev pub Holds : List Part → Text → Node → Type 0
Holds ps rel n =
    (before : List Part) × (after : List Part) × (ps ≡ before ++ (own_parts rel n ++ after))

-- The parts hold a node and all that is below it, under their paths.
unfoldable mutual
  pub Saved : List Part → Text → Node → Type 0
  Saved ps rel (file info content) = Holds ps rel (file info content)
  Saved ps rel (link info target) = Holds ps rel (link info target)
  Saved ps rel (folder info inside) = Holds ps rel (folder info inside) × SavedAll ps rel inside

  pub SavedAll : List Part → Text → Nodes → Type 0
  SavedAll ps rel end = Unit
  SavedAll ps rel (also name n ns) = Saved ps (below rel name) n × SavedAll ps rel ns

Holds-within :
    (xs ps ys : List Part) (rel : Text) (n : Node) → Holds ps rel n → Holds (xs ++ (ps ++ ys)) rel n
Holds-within xs ps ys rel n (before, after, e) = (
  xs ++ before,
  after ++ ys,
  ap (λ l. xs ++ (l ++ ys)) e
      ∙ ap (λ l. xs ++ l)
          (append_assoc before (own_parts rel n ++ after) ys
            ∙ ap (λ l. before ++ l) (append_assoc (own_parts rel n) after ys))
      ∙ sym (append_assoc xs before (own_parts rel n ++ (after ++ ys))),
)

mutual
  unfolding Saved SavedAll

  Saved-within :
      (xs ps ys : List Part) (rel : Text) (n : Node)
      → Saved ps rel n
      → Saved (xs ++ (ps ++ ys)) rel n
  Saved-within xs ps ys rel (file info content) h = Holds-within xs ps ys rel (file info content) h
  Saved-within xs ps ys rel (link info target) h = Holds-within xs ps ys rel (link info target) h
  Saved-within xs ps ys rel (folder info inside) (h, hs) =
      (Holds-within xs ps ys rel (folder info inside) h, SavedAll-within xs ps ys rel inside hs)

  SavedAll-within :
      (xs ps ys : List Part) (rel : Text) (ns : Nodes)
      → SavedAll ps rel ns
      → SavedAll (xs ++ (ps ++ ys)) rel ns
  SavedAll-within xs ps ys rel end _ = tt
  SavedAll-within xs ps ys rel (also name n ns) (h, hs) =
      (Saved-within xs ps ys (below rel name) n h, SavedAll-within xs ps ys rel ns hs)

Saved-first :
    (xs ys ps : List Part) (rel : Text) (n : Node) → ps ≡ xs ++ ys → Saved xs rel n → Saved ps rel n
Saved-first xs ys ps rel n e h = rw e (Saved-within [] xs ys rel n h)

SavedAll-last :
    (xs ys ps : List Part) (rel : Text) (ns : Nodes)
    → ps ≡ xs ++ ys
    → SavedAll ys rel ns
    → SavedAll ps rel ns
SavedAll-last xs ys ps rel ns e h =
    let k : ps ≡ xs ++ (ys ++ []) = e ∙ ap (λ l. xs ++ l) (sym (append-nil ys)) in
    rw k (SavedAll-within xs ys [] rel ns h)

and_then-eq_true :
    (a b : Packed) (ps : List Part)
    → and_then a b ≡ (ps, true)
    → (xs : List Part) × (ys : List Part) × (a ≡ (xs, true)) × (b ≡ (ys, true)) × (ps ≡ xs ++ ys)
and_then-eq_true (xs, true) (ys, fine) ps e = (xs, ys, refl, ground arith, ground arith)
and_then-eq_true (xs, false) b ps e = cc

write_header-eq_true :
    (sys : System) (abs : Text) (h : Header) (ps : List Part)
    → write_header sys abs h ≡ (ps, true)
    → ps ≡ header h ∷ []
write_header-eq_true sys abs h ps e = ground arith

write_body-eq_true :
    (sys : System) (abs content : Text) (ps : List Part)
    → write_body sys abs content ≡ (ps, true)
    → ps ≡ body content ∷ []
write_body-eq_true sys abs content ps e = ground arith

list_dir-eq_true :
    (sys : System) (abs : Text) (ps : List Part) → list_dir sys abs ≡ (ps, true) → ps ≡ []
list_dir-eq_true sys abs ps e = ground arith

mutual
  unfolding add_file_to_tar add_children Saved SavedAll

  pub packed-Saved :
      (sys : System) (abs rel : Text) (n : Node) (ps : List Part)
      → add_file_to_tar sys abs rel n ≡ (ps, true)
      → Saved ps rel n
  packed-Saved sys abs rel (file info content) ps e =
      let (xs, ys, a, b, k) = and_then-eq_true _ _ ps e in
      let top = write_header-eq_true sys abs (header_of rel (file info content)) xs a in
      let content_of = write_body-eq_true sys abs content ys b in
      let named = file_header rel content info in ([], [], cc)
  packed-Saved sys abs rel (link info target) ps e =
      let top = write_header-eq_true sys abs (header_of rel (link info target)) ps e in
      let named = link_header rel target info in ([], [], cc)
  packed-Saved sys abs rel (folder info inside) ps e =
      let (xs, ys, a, b, k) = and_then-eq_true _ _ ps e in
      let top = write_header-eq_true sys abs (header_of rel (folder info inside)) xs a in
      let (us, vs, c, d, l) = and_then-eq_true _ _ ys b in
      let nothing = list_dir-eq_true sys abs us c in
      let same : ys ≡ vs = ground arith in
      let named = folder_header rel info inside in
      (
        (
          [],
          vs,
          k
              ∙ ap (λ m. m ++ ys) top
              ∙ ap (λ m. (m ∷ []) ++ ys) named
              ∙ ap (λ m. own_parts rel (folder info inside) ++ m) same,
        ),
        SavedAll-last xs vs ps rel inside (k ∙ ap (λ m. xs ++ m) same)
            (packed-SavedAll sys abs rel inside vs d),
      )

  packed-SavedAll :
      (sys : System) (abs rel : Text) (ns : Nodes) (ps : List Part)
      → add_children sys abs rel ns ≡ (ps, true)
      → SavedAll ps rel ns
  packed-SavedAll sys abs rel end ps e = tt
  packed-SavedAll sys abs rel (also name n ns) ps e =
      let (xs, ys, a, b, k) = and_then-eq_true _ _ ps e in
      (
        Saved-first xs ys ps (below rel name) n k
            (packed-Saved sys (below abs name) (below rel name) n xs a),
        SavedAll-last xs ys ps rel ns k (packed-SavedAll sys abs rel ns ys b),
      )
