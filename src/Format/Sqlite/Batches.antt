-- ===== src/Format/Sqlite/Batches.antt =====
-- internal/format/sqlite.go: the rows that a writer commits, batch by batch.
use dtreesync.Base.{
  Text, ◌+◌, ◌%◌, ◌<◌, ◌≤◌, Bool, true, false, not, ◌||◌, Option, none, some, List, [], ◌∷◌, ◌++◌,
  ◌≡◌, refl, ap, inl, inr, length, length-append, append_assoc, append-nil, arith, leb, Bool-cases,
  then_case, else_case,
}
use dtreesync.Model.Types.{DirRecord}
use dtreesync.Format.Sqlite.Driver.{MetaRow, DirRow, Engine, Laws}
use dtreesync.Format.Sqlite.{
  Codec, sqlite_batch_commit_size, dir_row, Writer, prepared, begun, committed, flush_batch,
  counted, inserted, marshalled, write_record,
}

abbrev json_of : Option Text → Text
json_of none = []
json_of (some json) = json

-- The row of a record.
abbrev pub row_of : Codec → DirRecord → DirRow
row_of c rec = dir_row rec (json_of (c.encode rec.metadata))

module _ (e : Engine) (c : Codec) where
  -- The committed rows are those there were and full batches.
  pub record Kept (base : List DirRow) (ms : List MetaRow) (full : List DirRow) (w : Writer e c)
      : Type 0 where
    pub saved : e.rows w.database ≡ base ++ full
    pub header : e.meta_rows w.database ≡ ms
    pub whole : length full % sqlite_batch_commit_size ≡ 0
    pub opened : w.is_open ≡ true

  -- The writer is in the middle of a batch.
  pub record Live (base : List DirRow) (ms : List MetaRow) (full batch : List DirRow)
      (w : Writer e c) : Type 0 where
    pub kept : Kept base ms full w
    pub pending : e.pending w.database ≡ some batch
    pub size : length batch ≡ w.in_batch
    pub small : w.in_batch < sqlite_batch_commit_size
    pub count : w.row_count ≡ length full + length batch
    pub has_tx : w.tx ≡ true
    pub has_stmt : w.stmt ≡ true
    pub unfailed : w.failed ≡ false

  -- What a call leaves, after the insertion of these rows.
  abbrev pub Batched : List DirRow → List MetaRow → List DirRow → Writer e c × Bool → Type 0
  Batched base ms all (w, true) =
      (full : List DirRow) × (batch : List DirRow) × (full ++ batch ≡ all)
      × Live base ms full batch w
  Batched base ms all (w, false) =
      (full : List DirRow) × (lost : List DirRow) × (full ++ lost ≡ all)
      × Kept base ms full w
      × (w.failed ≡ true)

  module _ (laws : Laws e) (base : List DirRow) (ms : List MetaRow) where
    prepared-Batched :
        (full : List DirRow) (w : Writer e c) (db : e.Db) (can : Bool)
        → Kept base ms full w
        → w.in_batch ≡ 0
        → w.row_count ≡ length full
        → w.failed ≡ false
        → e.begin w.database ≡ some db
        → Batched base ms full (prepared e c w db can)
    prepared-Batched full w db true k z n f b =
        let h = laws.begin_lem w.database db b in
        (
          full,
          [],
          append-nil full,
          record {
            kept = ground arith;
            pending = ground arith;
            size = ground arith;
            small = ground arith;
            count = ground arith;
            has_tx = refl;
            has_stmt = refl;
            unfailed = f;
          },
        )
    prepared-Batched full w db false k z n f b =
        let h = laws.begin_lem w.database db b in
        let r = laws.rollback_lem db in (full, [], append-nil full, ground arith, refl)

    pub begun-Batched :
        (full : List DirRow) (w : Writer e c) (o : Option e.Db)
        → Kept base ms full w
        → w.in_batch ≡ 0
        → w.row_count ≡ length full
        → w.failed ≡ false
        → e.begin w.database ≡ o
        → Batched base ms full (begun e c w o)
    begun-Batched full w none k z n f b = (full, [], append-nil full, ground arith, refl)
    begun-Batched full w (some db) k z n f b =
        prepared-Batched full w db (e.can_prepare db) k z n f b

    -- A full batch is committed, or stays out.
    committed-Batched :
        (full batch : List DirRow) (w : Writer e c) (o : Option e.Db)
        → Kept base ms full w
        → e.pending w.database ≡ some batch
        → length batch ≡ sqlite_batch_commit_size
        → w.row_count ≡ length full + length batch
        → w.failed ≡ false
        → e.commit w.database ≡ o
        → Batched base ms (full ++ batch) (committed e c w o)
    committed-Batched full batch w none k p s n f b = (full, batch, refl, ground arith, refl)
    committed-Batched full batch w (some db) k p s n f b =
        let h = laws.commit_lem w.database db batch p b in
        let l = length-append full batch in
        begun-Batched (full ++ batch) (record w { database = db; tx = false; in_batch = 0 })
          (e.begin db) (ground (arith, append_assoc base full batch)) refl (ground arith) f refl

    counted-Batched :
        (full batch : List DirRow) (w : Writer e c)
        → Kept base ms full w
        → e.pending w.database ≡ some batch
        → length batch ≡ w.in_batch
        → w.in_batch ≤ sqlite_batch_commit_size
        → w.row_count ≡ length full + length batch
        → w.tx ≡ true
        → w.stmt ≡ true
        → w.failed ≡ false
        → Batched base ms (full ++ batch) (counted e c w)
    unfolding flush_batch
    counted-Batched full batch w k p s b n t st f =
        elim (Bool-cases (leb sqlite_batch_commit_size w.in_batch)) [
          | inl last ↦ rw last (
              then_case (Batched base ms (full ++ batch)) w.tx _ _ t (
                committed-Batched full batch (record w { stmt = false }) (e.commit w.database)
                  (ground arith) p (ground arith) n f refl))
          | inr more ↦ rw more (full, batch, refl, ground arith)
        ]

    inserted-Batched :
        (full batch : List DirRow) (r : DirRow) (w : Writer e c) (o : Option e.Db)
        → Live base ms full batch w
        → e.insert_dir r w.database ≡ o
        → Batched base ms (full ++ (batch ++ (r ∷ []))) (inserted e c w o)
    inserted-Batched full batch r w none l b = (full, batch ++ (r ∷ []), refl, ground arith, refl)
    inserted-Batched full batch r w (some db) l b =
        let h = laws.insert_dir_lem r w.database db batch l.pending b in
        let s = length-append batch (r ∷ []) in
        counted-Batched full (batch ++ (r ∷ [])) _ (ground arith) (ground arith) (ground arith)
          (ground arith) (ground arith) l.has_tx l.has_stmt l.unfailed

    marshalled-Batched :
        (full batch : List DirRow) (rec : DirRecord) (w : Writer e c) (o : Option Text)
        → Live base ms full batch w
        → c.encode rec.metadata ≡ o
        → Batched base ms (full ++ (batch ++ (row_of c rec ∷ []))) (marshalled e c w rec o)
    marshalled-Batched full batch rec w none l b =
        (full, batch ++ (row_of c rec ∷ []), refl, ground arith, refl)
    marshalled-Batched full batch rec w (some json) l b =
        let same : row_of c rec ≡ dir_row rec json = ap (λ o. dir_row rec (json_of o)) b in
        rw same (
          inserted-Batched full batch (dir_row rec json) w
            (e.insert_dir (dir_row rec json) w.database) l refl)

    pub write_record-Batched :
        (full batch : List DirRow) (rec : DirRecord) (w : Writer e c)
        → Live base ms full batch w
        → Batched base ms (full ++ (batch ++ (row_of c rec ∷ []))) (write_record e c rec w)
    unfolding write_record
    write_record-Batched full batch rec w l =
        else_case (Batched base ms (full ++ (batch ++ (row_of c rec ∷ []))))
          (w.failed || not w.stmt) _ _ (ground arith)
          (marshalled-Batched full batch rec w (c.encode rec.metadata) l refl)
