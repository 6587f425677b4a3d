-- ===== src/Format/Tsv/Classify.antt =====
-- How the line of a row is classified, and what its parts are.
use dtreesync.Base.{
  Text, ℕ, true, false, List, [], ◌∷◌, ◌++◌, append_assoc, ◌≡◌, ◌≢◌, refl, ◌∙◌, sym, ◌==◌, text_eq,
  nat_eq, ==_of_ne, ==_iff, All, Bool-cases, inl, inr, arith, leb, not_leb,
}
use mathlib.Core.List.{cons-ne-nil}
use dtreesync.Base.Strings.{codes, join, trim_space, is_space, has_prefix, byte_length}
use dtreesync.Base.Strings.Parts.{Lacks}
use dtreesync.Base.Strings.Trim.{trim_space_head, trim_space-append}
use dtreesync.Base.Decimal.{format_uint, format_mode, format_int}
use dtreesync.Base.Decimal.RoundTrip.{format_int-ne-nil, format_int-chars}
use dtreesync.Format.Lines.{max_line}
use dtreesync.Model.Types.{DirRecord}
use dtreesync.Format.Tsv.{
  tsv_meta_prefix, sanitize_tsv_field, columns, classify, row, format_optional,
}
use dtreesync.Format.Tsv.Field.{
  StaysInCell, IsClean, sanitize-stays, sanitize_clean, sanitize-nil, number-no_space, Lacks-tab,
}
use dtreesync.Format.Tsv.Row.{IsTsvRecord, in_columns, parse_row-columns, line_of, split-line_of}

-- The first column of a record that a row can hold.
abbrev pub IsFirst : Text → Type 0
IsFirst e =
    (c : ℕ) × (s : Text) × (e ≡ c ∷ s)
    × (is_space c ≡ false)
    × ((b'#' == c) ≡ false)
    × (c ∷ s ≢ codes "entity")

no_hash : (c : ℕ) (e : Text) → has_prefix (codes "#") (c ∷ e) ≡ false → (b'#' == c) ≡ false
unfolding has_prefix
no_hash c e h = ground arith

pub column_head :
    (e : Text)
    → IsClean e
    → has_prefix (codes "#") e ≡ false
    → e ≢ codes "entity"
    → IsFirst (sanitize_tsv_field e)
column_head [] h k n =
    (b'-', [], sanitize-nil, unfold is_space nat_eq in refl, unfold nat_eq in refl, ground arith)
column_head (c ∷ e) h k n =
    (c, e, sanitize_clean c e h, trim_space_head (c ∷ e) e c h.0, no_hash c e k, n)

-- The text between the first column and the last one.
join-snoc :
    (sep : ℕ) (p : Text) (ps : List Text) (x : Text)
    → (a : Text) × (join sep (p ∷ (ps ++ (x ∷ []))) ≡ p ++ (a ++ x))
unfolding join
join-snoc sep p [] x = (sep ∷ [], refl)
join-snoc sep p (q ∷ ps) x =
    let (a, e) = join-snoc sep q ps x in (sep ∷ (q ++ a), rw (e, append_assoc))

pub line_parts :
    (rec : DirRecord)
    → ((a : Text) × (line_of rec
          ≡ sanitize_tsv_field rec.entity ++ (a ++ format_int rec.metadata.mod_time)))
      × ((b : Text) × (line_of rec ≡ sanitize_tsv_field rec.entity ++ (b'\t' ∷ b)))
unfolding columns
line_parts rec =
    let meta = rec.metadata in
    let middle : List Text =
      sanitize_tsv_field rec.rel_path
      ∷ format_optional format_mode meta.mode
      ∷ format_optional (format_uint 10) meta.uid
      ∷ format_optional (format_uint 10) meta.gid
      ∷ sanitize_tsv_field meta.username
      ∷ sanitize_tsv_field meta.group
      ∷ sanitize_tsv_field meta.acl_access
      ∷ sanitize_tsv_field meta.acl_default
      ∷ sanitize_tsv_field meta.selinux_context
      ∷ sanitize_tsv_field meta.sddl
      ∷ format_optional (format_uint 10) meta.file_attributes
      ∷ [] in
    (
      join-snoc b'\t' (sanitize_tsv_field rec.entity) middle (format_int meta.mod_time),
      (join b'\t' (middle ++ (format_int meta.mod_time ∷ [])), unfold join in refl),
    )

-- A cell that another text starts with, up to the tab.
pub prefix_cell :
    (p q e s : Text)
    → Lacks b'\t' p
    → Lacks b'\t' e
    → has_prefix (p ++ (b'\t' ∷ q)) (e ++ (b'\t' ∷ s)) ≡ true
    → p ≡ e
unfolding has_prefix
prefix_cell [] q [] s _ _ _ = refl
prefix_cell [] q (d ∷ e) s _ (k, _) h = absurd (k (sym ((==_iff b'\t' d).0 (ground arith))))
prefix_cell (c ∷ p) q [] s (k, _) _ h = absurd (k ((==_iff c b'\t').0 (ground arith)))
prefix_cell (c ∷ p) q (d ∷ e) s (_, ks) (_, ls) h = ground (arith, prefix_cell p q e s ks ls)

first_no_name :
    (e rest : Text)
    → IsFirst e
    → All StaysInCell e
    → has_prefix (codes "entity\trel_path") (e ++ (b'\t' ∷ rest)) ≡ false
first_no_name e rest (c, s, eq, _, _, ne) stays =
    elim (Bool-cases (has_prefix (codes "entity\trel_path") (e ++ (b'\t' ∷ rest)))) [
      | inr h ↦ h
      | inl h ↦ absurd (
          ne (
            sym (
              prefix_cell (codes "entity") (codes "rel_path") e rest (omega arith)
                (Lacks-tab e stays) h
              ∙ eq)))
    ]

pub no_hash_prefix :
    (p : Text) (c : ℕ) (s : Text) → (b'#' == c) ≡ false → has_prefix (b'#' ∷ p) (c ∷ s) ≡ false
unfolding has_prefix
no_hash_prefix p c s h = rw h

module _ (rec : DirRecord) (h : IsTsvRecord rec) where
  pub line_trimmed : trim_space (line_of rec) ≡ line_of rec
  line_trimmed =
      let (c, s, e, space, _, _) = column_head rec.entity h.entity h.no_comment h.no_column_name in
      let (a, eq) = (line_parts rec).0 in
      let shape : line_of rec ≡ (c ∷ (s ++ a)) ++ format_int rec.metadata.mod_time =
        rw (eq, e, append_assoc) in
      rw shape (
        trim_space-append c (s ++ a) (format_int rec.metadata.mod_time) space
          (format_int-ne-nil rec.metadata.mod_time)
          (number-no_space _ (format_int-chars rec.metadata.mod_time)))

  -- The line of a record that a row can hold is read as what is in its columns.
  pub classify-line_of : classify (line_of rec) ≡ row (in_columns rec)
  unfolding classify
  classify-line_of =
      let (c, s, e, _, hash, ne) = column_head rec.entity h.entity h.no_comment h.no_column_name in
      let (b, eq) = (line_parts rec).1 in
      let shape : line_of rec ≡ c ∷ (s ++ (b'\t' ∷ b)) = rw (eq, e) in
      let name : has_prefix (codes "entity\trel_path") (line_of rec) ≡ false = rw eq (
        first_no_name _ b (column_head rec.entity h.entity h.no_comment h.no_column_name)
          (sanitize-stays rec.entity)) in
      let meta : has_prefix tsv_meta_prefix (line_of rec) ≡ false =
        rw shape (no_hash_prefix (codes "META:") c (s ++ (b'\t' ∷ b)) hash) in
      let comment : has_prefix (codes "#") (line_of rec) ≡ false =
        rw shape (no_hash_prefix [] c (s ++ (b'\t' ∷ b)) hash) in
      let filled : (line_of rec == []) ≡ false =
        ==_of_ne _ _ (λ z. cons-ne-nil c (s ++ (b'\t' ∷ b)) (sym shape ∙ z)) in
      rw (
        line_trimmed,
        short_enough,
        filled,
        meta,
        comment,
        name,
        split-line_of rec,
        parse_row-columns rec h,
      )
    where
      short_enough : leb max_line (byte_length (line_of rec)) ≡ false
      short_enough = not_leb _ _ h.fits
