-- ===== src/Format/Sqlite/Stored.antt =====
-- internal/format/sqlite.go and the database branch of internal/core/backup.go: what a database holds
-- after it was written, whether or not there was an error, and what the readers make of it.
use mathlib.Core.Path.{subst}
use dtreesync.Base.{
  ◌%◌, Bool, true, false, not, ◌&&◌, Option, none, some, List, [], ◌∷◌, ◌++◌, ◌≡◌, refl, sym, ◌∙◌,
  ap, ◌⊎◌, inl, inr, length, append_assoc, append-nil, map, arith, then_case, else_case,
}
use dtreesync.Model.Types.{BackupMetadata, DirRecord}
use dtreesync.Format.Sqlite.Driver.{MetaRow, DirRow, Engine, Laws, SameRows}
use dtreesync.Format.Sqlite.{
  Codec, sqlite_batch_commit_size, meta_row, Writer, fresh, fail, header_saved, write_header,
  rollback, closing, close, unless_failed, write_records, or_aborted, write_all,
}
use dtreesync.Format.Sqlite.Batches.{row_of, Live, Batched, begun-Batched, write_record-Batched}

module _ (e : Engine) (c : Codec) where
  -- The database after a backup: all rows and the header, or after an error some full batches.
  abbrev pub IsStored : e.Db → BackupMetadata → List DirRecord → Writer e c × Bool → Type 0
  IsStored db m recs (w, true) =
      (e.rows w.database ≡ e.rows db ++ map (row_of c) recs)
      × (e.meta_rows w.database ≡ e.meta_rows db ++ (meta_row c m ∷ []))
  IsStored db m recs (w, false) =
      (full : List DirRow) × (lost : List DirRow) × (full ++ lost ≡ map (row_of c) recs)
      × (e.rows w.database ≡ e.rows db ++ full)
      × (length full % sqlite_batch_commit_size ≡ 0)
      × ((e.meta_rows w.database ≡ e.meta_rows db)
          ⊎ (e.meta_rows w.database ≡ e.meta_rows db ++ (meta_row c m ∷ [])))

  module _ (laws : Laws e) where
    module _ (base : List DirRow) (ms : List MetaRow) where
      unless_failed-Batched :
          (rs all : List DirRow) (next : Writer e c → Writer e c × Bool) (o : Writer e c × Bool)
          → Batched e c base ms all o
          → ((full batch : List DirRow) (w : Writer e c)
              → Live e c base ms full batch w
              → Batched e c base ms (full ++ (batch ++ rs)) (next w))
          → Batched e c base ms (all ++ rs) (unless_failed e c next o)
      unless_failed-Batched rs all next (w, true) (full, batch, k, l) h =
          subst (λ xs. Batched e c base ms xs (next w))
            (sym (append_assoc full batch rs) ∙ ap (λ xs. xs ++ rs) k) (h full batch w l)
      unless_failed-Batched rs all next (w, false) (full, lost, k, l, f) h =
          (full, lost ++ rs, sym (append_assoc full lost rs) ∙ ap (λ xs. xs ++ rs) k, l, f)

      write_records-Batched :
          (recs : List DirRecord) (full batch : List DirRow) (w : Writer e c)
          → Live e c base ms full batch w
          → Batched e c base ms (full ++ (batch ++ map (row_of c) recs)) (write_records e c recs w)
      unfolding write_records
      write_records-Batched [] full batch w l =
          (full, batch, ap (λ xs. full ++ xs) (sym (append-nil batch)), l)
      write_records-Batched (rec ∷ recs) full batch w l =
          subst (λ xs. Batched e c base ms xs (write_records e c (rec ∷ recs) w))
            (append_assoc full (batch ++ (row_of c rec ∷ [])) (map (row_of c) recs)
              ∙ ap (λ xs. full ++ xs)
                  (append_assoc batch (row_of c rec ∷ []) (map (row_of c) recs)))
            (unless_failed-Batched (map (row_of c) recs) _ (write_records e c recs) _
              (write_record-Batched e c laws base ms full batch rec w l)
              (write_records-Batched recs))

    aborted-SameRows :
        (w : Writer e c) → SameRows e (close e c (rollback e c w).0).0.database w.database
    unfolding close rollback
    aborted-SameRows w = ground (
      arith,
      laws.rollback_lem w.database,
      laws.close_db_lem w.database,
      laws.close_db_lem (e.rollback w.database).0,
    )

    -- The commit at the end.
    closing-IsStored :
        (db : e.Db) (m : BackupMetadata) (recs : List DirRecord) (full batch : List DirRow)
        (w : Writer e c) (o : Option e.Db)
        → Live e c (e.rows db) (e.meta_rows db ++ (meta_row c m ∷ [])) full batch w
        → full ++ batch ≡ map (row_of c) recs
        → e.commit w.database ≡ o
        → IsStored db m recs (closing e c w o)
    closing-IsStored db m recs full batch w none l k b =
        let h = laws.close_db_lem w.database in
        (full, batch, k, h.0 ∙ l.kept.saved, l.kept.whole, inr (h.1 ∙ l.kept.header))
    closing-IsStored db m recs full batch w (some after) l k b =
        let h = laws.commit_lem w.database after batch l.pending b in
        let i = laws.create_indices_lem after in
        let s = laws.close_db_lem (e.create_indices after) in
        (
          s.0
              ∙ i.0
              ∙ h.0
              ∙ ap (λ xs. xs ++ batch) l.kept.saved
              ∙ append_assoc (e.rows db) full batch
              ∙ ap (λ xs. e.rows db ++ xs) k,
          s.1 ∙ i.1 ∙ h.1 ∙ l.kept.header,
        )

    close-IsStored :
        (db : e.Db) (m : BackupMetadata) (recs : List DirRecord) (full batch : List DirRow)
        (w : Writer e c)
        → Live e c (e.rows db) (e.meta_rows db ++ (meta_row c m ∷ [])) full batch w
        → full ++ batch ≡ map (row_of c) recs
        → IsStored db m recs (close e c w)
    unfolding close
    close-IsStored db m recs full batch w l k =
        else_case (IsStored db m recs) (not w.is_open) _ _ (ground (arith, l.kept.opened)) (
          else_case (IsStored db m recs) (w.tx && w.failed) _ _
            (ground (arith, l.unfailed, l.has_tx))
            (then_case (IsStored db m recs) w.tx _ _ l.has_tx
              (closing-IsStored db m recs full batch w (e.commit w.database) l k refl)))

    or_aborted-IsStored :
        (db : e.Db) (m : BackupMetadata) (recs : List DirRecord) (o : Writer e c × Bool)
        → Batched e c (e.rows db) (e.meta_rows db ++ (meta_row c m ∷ [])) (map (row_of c) recs) o
        → IsStored db m recs (or_aborted e c o)
    or_aborted-IsStored db m recs (w, true) (full, batch, k, l) =
        close-IsStored db m recs full batch w l k
    or_aborted-IsStored db m recs (w, false) (full, lost, k, l, f) =
        let h = aborted-SameRows w in (full, lost, k, h.0 ∙ l.saved, l.whole, inr (h.1 ∙ l.header))

    header_saved-IsStored :
        (db : e.Db) (m : BackupMetadata) (recs : List DirRecord) (o : Option e.Db)
        → e.insert_meta (meta_row c m) db ≡ o
        → IsStored db m recs (
            or_aborted e c
              (unless_failed e c (write_records e c recs) (header_saved e c (fresh e c db) o)))
    header_saved-IsStored db m recs none b =
        let h = aborted-SameRows (fail e c (fresh e c db)).0 in
        ([], map (row_of c) recs, refl, h.0 ∙ sym (append-nil (e.rows db)), refl, inl h.1)
    header_saved-IsStored db m recs (some after) b =
        let h = laws.insert_meta_lem (meta_row c m) db after b in
        let base = e.rows db in
        let ms = e.meta_rows db ++ (meta_row c m ∷ []) in
        or_aborted-IsStored db m recs _ (
          unless_failed-Batched base ms (map (row_of c) recs) [] (write_records e c recs) _
            (begun-Batched e c laws base ms [] _ (e.begin after)
              (record {
                saved = h.0 ∙ sym (append-nil base);
                header = h.1;
                whole = refl;
                opened = refl;
              })
              refl refl refl refl)
            (λ full batch w l. write_records-Batched base ms recs full batch w l))

    -- After a backup has written a database with no error, its rows are those that were there and one for
    -- each record, in order, and the header is added to its table. After an error the added rows are full
    -- batches of 50,000 from the start of the records, and the header is added or not.
    pub write_all-IsStored :
        (db : e.Db) (m : BackupMetadata) (recs : List DirRecord)
        → IsStored db m recs (write_all e c m recs (fresh e c db))
    unfolding write_all write_header
    write_all-IsStored db m recs =
        header_saved-IsStored db m recs (e.insert_meta (meta_row c m) db) refl
