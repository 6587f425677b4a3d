-- ===== src/Samples/Backups.antt =====
-- internal/core/backup.go and retention.go at concrete records, writes and directories.
use mathlib.Core.List.{Perm}
use dtreesync.Base.{
  Text, ◌+◌, ◌*◌, ◌≤◌, ◌<◌, true, false, Option, some, List, [], ◌∷◌, map, drop, ◌≡◌, ◌↔◌, refl,
  inl, inr, arith, text_eq, nat_eq, All,
}
use dtreesync.Base.Int.{pos}
use dtreesync.Base.Strings.{
  byte_length, codes, split, join, trim_space, trim_left, trim_right, trim, is_space,
}
use dtreesync.Base.GoPath.{clean, segments, clean_from, push, pop}
use dtreesync.Base.Order.{text_leb}
use dtreesync.Base.Sort.{sort, insert, Ordered}
use dtreesync.Model.Types.{ok}
use dtreesync.Model.Path.{validate_and_clean_path}
use dtreesync.Core.Order.{sort_records, sort_mode, path_leb, depth_leb, dir_depth}
use dtreesync.Core.Order.Parents.{ParentsFirst, sort_records-ParentsFirst}
use dtreesync.Core.Buffer.{
  new_hybrid_buffer, write_all, write, write_to, spill_over, write_file, reader, Bytes, Answers,
  done,
}
use dtreesync.Core.Buffer.Contents.{reader-write_all, write_all_bounded}
use dtreesync.Core.Retention.{
  Entry, FileMeta, snapshots, newer, apply_retention, purge, day, exceeds_age,
}
use dtreesync.Core.Retention.Policy.{
  apply_retention_count, path_of, purge_sound, GoesFrom, exceeds_age_exact, exceeds_age_wrapped,
}
use dtreesync.Samples.Records.{root, top, sub}

sorted :
    sort_records (codes "Depth ") (sub ∷ root ∷ top ∷ [])
    ≡ ok (codes "depth", root ∷ top ∷ sub ∷ [])
unfolding sort_records sort_mode sort insert path_leb depth_leb dir_depth text_leb clean segments
    clean_from push pop split join trim_space trim_left trim_right trim is_space text_eq nat_eq
sorted = refl

clean_top : clean (codes "a") ≡ codes "a"
unfolding clean segments clean_from push pop split join text_eq nat_eq
clean_top = refl

clean_sub : clean (codes "a/b") ≡ codes "a/b"
unfolding clean segments clean_from push pop split join text_eq nat_eq
clean_sub = refl

sort_records-ParentsFirst_example : ParentsFirst (root ∷ top ∷ sub ∷ [])
sort_records-ParentsFirst_example =
    sort_records-ParentsFirst (codes "Depth ") (codes "depth") (sub ∷ root ∷ top ∷ [])
      (root ∷ top ∷ sub ∷ []) sorted (ground arith)
      (
        inr (clean_sub, ground arith, ground arith),
        (inl refl, (inr (clean_top, ground arith, ground arith), tt)),
      )

-- The second write outgrows the memory.
abbrev writes : List (Bytes × Answers)
writes =
    (codes "ab", record { create = true; spill = done; append = done })
    ∷ (codes "cd", record { create = true; spill = done; append = done })
    ∷ []

written_whole : (write_all (new_hybrid_buffer (pos 3)) writes).1 ≡ true
unfolding write_all write write_to spill_over write_file new_hybrid_buffer
written_whole = refl

reader-write_all_example :
    (reader (write_all (new_hybrid_buffer (pos 3)) writes).0 ≡ codes "abcd")
    × ((write_all (new_hybrid_buffer (pos 3)) writes).0.size ≡ 4)
reader-write_all_example = reader-write_all (pos 3) writes written_whole

write_all_bounded_example :
    byte_length (write_all (new_hybrid_buffer (pos 3)) writes).0.buf
    ≤ (new_hybrid_buffer (pos 3)).max_mem
write_all_bounded_example = write_all_bounded (new_hybrid_buffer (pos 3)) writes small
  where
    small : byte_length (new_hybrid_buffer (pos 3)).buf ≤ (new_hybrid_buffer (pos 3)).max_mem
    small = unfold new_hybrid_buffer in omega arith

abbrev entries : List Entry
entries =
    record { name = codes "a.tsv"; is_dir = false; info = some 5 }
    ∷ record { name = codes "b.tsv"; is_dir = false; info = some 8 }
    ∷ []

abbrev read_dir : Text → Option (List Entry)
read_dir _ = some entries

valid : validate_and_clean_path (codes "/srv/") ≡ ok (codes "/srv")
unfolding validate_and_clean_path clean segments clean_from push pop split join text_eq nat_eq
valid = refl

apply_retention_count_example :
    (ranked : List FileMeta) × Perm ranked (snapshots (codes "/srv") [] entries)
    × Ordered newer ranked
    × (apply_retention read_dir (λ _. true) 9 (codes "/srv/") (pos 0) (pos 1) []
        ≡ ok (map path_of (drop 1 ranked)))
apply_retention_count_example =
    apply_retention_count read_dir 9 (codes "/srv/") (codes "/srv") [] 1 entries (omega arith) valid
      refl

abbrev snaps : List FileMeta
snaps =
    record { name = codes "b.tsv"; path = codes "/srv/b.tsv"; mod_time = 8 }
    ∷ record { name = codes "a.tsv"; path = codes "/srv/a.tsv"; mod_time = 5 }
    ∷ []

purge_sound_example :
    All (GoesFrom 30 1 (31 * day) 0 snaps) (purge (pos 30) (pos 1) (31 * day) (λ _. true) 0 snaps)
purge_sound_example = purge_sound 30 1 (31 * day) 0 (λ _. true) snaps (omega arith)

exceeds_age_exact_example : (exceeds_age (pos 30) (31 * day) 8 ≡ true) ↔ (8 + 30 * day < 31 * day)
exceeds_age_exact_example = exceeds_age_exact 30 (31 * day) 8 (omega arith) (omega arith)

exceeds_age_wrapped_example : exceeds_age (pos 200000) 9 8 ≡ true
exceeds_age_wrapped_example =
    exceeds_age_wrapped 200000 9 8 (omega arith) (omega arith) (omega arith)
