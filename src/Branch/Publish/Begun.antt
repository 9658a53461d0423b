-- ===== src/Branch/Publish/Begun.antt =====
-- The first and the last statement of the snapshot's transaction in `Publish` of
-- internal/store/branch.go, and the contents before it.
use wowdoc.Base.{◌≡◌, refl, ap, subst, ◌∙◌, Option, none, some}
use wowdoc.Base.{[], Text, codes, text_eq, nat_eq, ok}
use wowdoc.Base.{if_elim}
use wowdoc.Base.Dict.{Dict, lookup, insert, lookup-insert_self}
use wowdoc.Branch.Types.{
  FileFact, SnapshotBatch, ContentRow, ContentDb, SnapshotRow, content_key_eq, path_key_eq,
}
use wowdoc.Branch.Content.{key_of, map_files}
use wowdoc.Branch.Content.Mapped.{IsMapped}
use wowdoc.Branch.Facts.{publish_content}
use wowdoc.Branch.Facts.Stored.{store_batch-keeps}
use wowdoc.Branch.Snapshot.{
  Publication, begin_found, begin_snapshot, ready_found, building, has_commit, mark_ready,
}

-- The row of a snapshot that was begun.
pub IsBegun : Publication → Option SnapshotRow → Type 0
IsBegun p o =
    (row : SnapshotRow) × (o ≡ some row)
    × (row.parser_schema ≡ p.parser_schema)
    × (row.index_schema ≡ p.index_schema)
    × (row.build_interface ≡ p.build_interface)

pub begin_snapshot-IsBegun :
    (p : Publication) (rows rows' : Dict Text SnapshotRow)
    → begin_snapshot p rows ≡ ok rows'
    → IsBegun p (lookup p.snapshot rows')
unfolding begin_snapshot IsBegun
begin_snapshot-IsBegun p rows rows' h0 = found (lookup p.snapshot rows) h0
  where
    found :
        (o : Option SnapshotRow)
        → begin_found o p rows ≡ ok rows'
        → IsBegun p (lookup p.snapshot rows')
    found (some row) h =
        let same : insert p.snapshot (building p row.commit_hash) rows ≡ rows' = cc in
        subst (λ r. IsBegun p (lookup p.snapshot r)) same
          (building p row.commit_hash, lookup-insert_self p.snapshot _ rows, refl, refl, refl)
    found none h =
        if_elim (λ r. r ≡ ok rows' → IsBegun p (lookup p.snapshot rows'))
          (has_commit p.snapshot p.commit rows) (λ taken k. absurd (cc))
          (λ free k.
            let same : insert p.snapshot (building p p.commit) rows ≡ rows' = cc in
            subst (λ r. IsBegun p (lookup p.snapshot r)) same
              (building p p.commit, lookup-insert_self p.snapshot _ rows, refl, refl, refl))
          h

pub mark_ready-ready :
    (p : Publication) (rows : Dict Text SnapshotRow)
    → IsBegun p (lookup p.snapshot rows)
    → (row : SnapshotRow) × (lookup p.snapshot (mark_ready p.snapshot rows) ≡ some row)
      × (row.status ≡ codes "ready")
      × (row.parser_schema ≡ p.parser_schema)
      × (row.index_schema ≡ p.index_schema)
      × (row.build_interface ≡ p.build_interface)
unfolding IsBegun
mark_ready-ready p rows (row, there, parser, index, build) = (
  record row { status = codes "ready" },
  ap (λ o. lookup p.snapshot (ready_found o p.snapshot rows)) there
      ∙ lookup-insert_self p.snapshot _ rows,
  refl,
  parser,
  index,
  build,
)

-- Every file of a published content is mapped to the row of its hash and language.
pub publish_content-IsMapped :
    (parser index : Text) (batch : SnapshotBatch) (db : ContentDb) (f : FileFact)
    → IsMapped parser index
        (map_files parser index batch.files
          (db, record { path_content = []; new_content = []; fact_path = [] }))
        f
    → (row : ContentRow) × (lookup f.path (publish_content parser index batch db).1 ≡ some row.id)
      × (lookup (key_of parser index f) (publish_content parser index batch db).0.contents
          ≡ some row)
unfolding publish_content
publish_content-IsMapped parser index batch db f (row, path, there) =
    let s =
      map_files parser index batch.files
        (db, record { path_content = []; new_content = []; fact_path = [] }) in
    (
      row,
      path,
      ap (λ rows. lookup (key_of parser index f) rows)
            (store_batch-keeps s.0.contents s.1 batch (record { db = s.0; string_ids = db.strings })
              refl)
          ∙ there,
    )
