-- ===== src/Core/Mirror.antt =====
-- internal/core/mirror.go: `EvacuateUntracked` packs items of a tree into a tar archive and removes them.
-- An item is what `Lstat` and the walk find of it, children in the order of the walk; it does not
-- change while it is packed. The audit log is left out.
pub mod Contents
pub mod Saved
pub mod Visits
use dtreesync.Base.{
  Text, ℕ, Bool, true, false, not, ◌&&◌, Option, none, some, List, [], ◌∷◌, ◌++◌, ◌==◌, nat_eq,
  text_eq, if◌then◌else◌, map,
}
use dtreesync.Base.Strings.{codes, has_suffix, replace_char}
use dtreesync.Base.GoPath.{join_path}
use dtreesync.Model.Types.{Instant, Error, Result, ok, err, canceled, io_failure}
use dtreesync.Model.Path.{validate_and_clean_path}

pub record FileInfo : Type 0 where
  pub mode : ℕ
  pub mod_time : Instant

mutual
  pub data Node : Type 0 where
    file : FileInfo → Text → Node
    link : FileInfo → Text → Node
    folder : FileInfo → Nodes → Node

  pub data Nodes : Type 0 where
    end : Nodes
    also : Text → Node → Nodes → Nodes

pub data TypeFlag : Type 0 where
  regular directory : TypeFlag
  symlink : Text → TypeFlag

pub record Header : Type 0 where
  pub name : Text
  pub info : FileInfo
  pub type_flag : TypeFlag

-- What is written to the archive: a header, or the bytes of a file.
pub data Part : Type 0 where
  header : Header → Part
  body : Text → Part

pub data Event : Type 0 where
  wrote : Part → Event
  -- `os.RemoveAll` was called, and whether it succeeded.
  remove : Text → Bool → Event

-- The answers of the system; those that change while the function runs depend on what it has done.
pub record System : Type 0 where
  pub is_done : List Event → Bool
  pub lstat : List Event → Text → Option Node
  -- `Readlink`, `FileInfoHeader` and `DirEntry.Info` succeed at a path.
  pub can_stat : Text → Bool
  -- A file can be opened and read, a directory listed.
  pub can_read : Text → Bool
  -- The archive takes a part.
  pub can_write : Part → Bool
  pub can_remove : List Event → Text → Bool
  -- The archive folder, the file and the compressor can be made.
  pub can_create : Bool
  pub can_close_tar : Bool
  pub can_close_zstd : Bool
  -- `dtreesync_<timestamp>.tar.zst`
  pub archive_name : Text

-- `strings.ReplaceAll(s, "\\", "/")`
abbrev pub slashes : Text → Text
slashes s = replace_char 92 b'/' s

abbrev pub is_folder : Node → Bool
is_folder (folder _ _) = true
is_folder _ = false

unfoldable pub entry_name : Text → Bool → Text
unfolding has_suffix
entry_name rel is_dir =
    let name = slashes rel in
    if is_dir && not (has_suffix (codes "/") name) then name ++ codes "/" else name

abbrev pub header_of : Text → Node → Header
header_of rel (file info _) = record {
  name = entry_name rel false;
  info = info;
  type_flag = regular;
}
header_of rel (link info target) = record {
  name = entry_name rel false;
  info = info;
  type_flag = symlink target;
}
header_of rel (folder info _) = record {
  name = entry_name rel true;
  info = info;
  type_flag = directory;
}

-- The parts that were written, and whether there was no error.
abbrev pub Packed : Type 0
Packed = List Part × Bool

abbrev pub and_then : Packed → Packed → Packed
and_then (ps, true) (qs, fine) = (ps ++ qs, fine)
and_then (ps, false) _ = (ps, false)

abbrev pub write_part : System → Part → Packed
write_part sys p = if sys.can_write p then (p ∷ [], true) else ([], false)

abbrev pub write_header : System → Text → Header → Packed
write_header sys abs h = if sys.can_stat abs then write_part sys (header h) else ([], false)

abbrev pub write_body : System → Text → Text → Packed
write_body sys abs content = if sys.can_read abs then write_part sys (body content) else ([], false)

abbrev pub list_dir : System → Text → Packed
list_dir sys abs = ([], sys.can_read abs)

abbrev pub below : Text → Text → Text
below dir name = dir ++ (b'/' ∷ name)

-- `addFileToTar`, and the walk below a directory.
unfoldable mutual
  unfolding entry_name

  pub add_file_to_tar : System → Text → Text → Node → Packed
  add_file_to_tar sys abs rel (file info content) =
      and_then (write_header sys abs (header_of rel (file info content)))
        (write_body sys abs content)
  add_file_to_tar sys abs rel (link info target) =
      write_header sys abs (header_of rel (link info target))
  add_file_to_tar sys abs rel (folder info inside) =
      and_then (write_header sys abs (header_of rel (folder info inside)))
        (and_then (list_dir sys abs) (add_children sys abs rel inside))

  pub add_children : System → Text → Text → Nodes → Packed
  add_children sys abs rel end = ([], true)
  add_children sys abs rel (also name n ns) =
      and_then (add_file_to_tar sys (below abs name) (below rel name) n)
        (add_children sys abs rel ns)

abbrev pub Outcome : Type 0
Outcome = List Event × Option Error

abbrev pub wrote_all : List Part → List Event
wrote_all ps = map wrote ps

abbrev pub prefixed : List Event → Outcome → Outcome
prefixed es (fs, e) = (es ++ fs, e)

-- The events after those of `done`; `rest` is the loop after this item.
abbrev pub after_pack : System → List Event → Text → (List Event → Outcome) → Packed → Outcome
after_pack sys done abs rest (ps, false) = (wrote_all ps, some io_failure)
after_pack sys done abs rest (ps, true) =
    let es = wrote_all ps ++ (remove abs (sys.can_remove (done ++ wrote_all ps) abs) ∷ []) in
    prefixed es (rest (done ++ es))

abbrev pub evacuate_item :
    System → List Event → Text → Text → (List Event → Outcome) → Option Node → Outcome
evacuate_item sys done abs rel rest none = rest done
evacuate_item sys done abs rel rest (some n) =
    after_pack sys done abs rest (add_file_to_tar sys abs rel n)

unfoldable pub evacuate_items : System → Text → List Event → List Text → Outcome
unfolding add_file_to_tar add_children
evacuate_items sys target done [] = ([], none)
evacuate_items sys target done (rel ∷ rels) =
    let abs = join_path target rel in
    let go : Outcome =
      evacuate_item sys done abs rel (λ d. evacuate_items sys target d rels) (sys.lstat done abs) in
    if sys.is_done done then ([], some canceled) else go

abbrev pub finish : System → Text → Outcome → List Event × Result Text
finish sys archive (es, some e) = (es, err e)
finish sys archive (es, none) =
    (es, if sys.can_close_tar && sys.can_close_zstd then ok archive else err io_failure)

abbrev into : System → List Text → Text → Result Text → List Event × Result Text
into sys items target (err e) = ([], err e)
into sys items target (ok archive) =
    if sys.can_create
    then finish sys (join_path archive sys.archive_name) (evacuate_items sys target [] items)
    else ([], err io_failure)

abbrev from : System → Text → List Text → Result Text → List Event × Result Text
from sys archive_folder items (err e) = ([], err e)
from sys archive_folder items (ok target) =
    into sys items target (validate_and_clean_path archive_folder)

-- An empty text stands for no archive.
unfoldable pub evacuate_untracked : System → Text → Text → List Text → List Event × Result Text
unfolding evacuate_items validate_and_clean_path
evacuate_untracked sys target_folder archive_folder [] = ([], ok [])
evacuate_untracked sys target_folder archive_folder (rel ∷ rels) =
    from sys archive_folder (rel ∷ rels) (validate_and_clean_path target_folder)
