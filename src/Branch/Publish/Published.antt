-- ===== src/Branch/Publish/Published.antt =====
-- What a publication that succeeds leaves, `Publish` of internal/store/branch.go.
use wowdoc.Base.{ℕ, ◌≡◌, refl, ap, subst, ◌≢◌, ◌∙◌, inl, inr, Option, none, some, List}
use wowdoc.Base.{[], ◌∷◌, Text, All, Any, All-map, All-zip, codes, text_eq, nat_eq, Result, ok, err}
use wowdoc.Base.{first_value, arith}
use wowdoc.Base.Dict.{Dict, lookup, insert, lookup-insert_self}
use wowdoc.Results.{Failure}
use wowdoc.Branch.Types.{
  FileFact, SnapshotBatch, ContentRow, ContentDb, SnapshotRow, FileRow, BranchDb, PathKey,
  content_key_eq, path_key_eq,
}
use wowdoc.Branch.Content.{Mapping, key_of, map_files}
use wowdoc.Branch.Content.Mapped.{IsMapped, map_files-IsMapped}
use wowdoc.Branch.Facts.{publish_content}
use wowdoc.Branch.Snapshot.{
  Publication, begin_snapshot, mark_ready, insert_files, insert_assets, without_snapshot,
  ensure_branch_fts, unique_content_ids, publish_branch,
}
use wowdoc.Branch.Snapshot.Files.{
  path_key, lookup-without_snapshot, IsInserted, insert_files-IsInserted, insert_files-only,
  insert_files-HasDistinctPaths,
}
use wowdoc.Branch.Publish.{
  State, Outside, committed, failed_or, publish_locked, publish_guarded, publish,
}
use wowdoc.Branch.Publish.Begun.{begin_snapshot-IsBegun, mark_ready-ready, publish_content-IsMapped}

-- A file of the snapshot has its role, and the content of its hash and language.
abbrev pub IsServed : Publication → State → FileFact → Type 0
IsServed p s f =
    (row : ContentRow) × (lookup (path_key p.snapshot f.path) s.branch.snapshot_files
      ≡ some (record { content = row.id; role = f.role }))
    × (lookup (key_of p.parser_schema p.index_schema f) s.content.contents ≡ some row)

-- The snapshot is ready in its schemas, it is the active one, its files are those of the batch,
-- and the files of the other snapshots are as they were.
pub record IsPublished (p : Publication) (batch : SnapshotBatch) (before after : State)
    : Type 0 where
  pub ready :
      (row : SnapshotRow) × (lookup p.snapshot after.branch.snapshots ≡ some row)
      × (row.status ≡ codes "ready")
      × (row.parser_schema ≡ p.parser_schema)
      × (row.index_schema ≡ p.index_schema)
      × (row.build_interface ≡ p.build_interface)
  pub active : lookup (codes "active_snapshot") after.branch.state ≡ some p.snapshot
  pub served : All (IsServed p after) batch.files
  pub only :
      (path : Text) (row : FileRow)
      → lookup (path_key p.snapshot path) after.branch.snapshot_files ≡ some row
      → Any (λ f. path ≡ f.path) batch.files
  pub others :
      (k : PathKey)
      → k.snapshot ≢ p.snapshot
      → lookup k after.branch.snapshot_files ≡ lookup k before.branch.snapshot_files

module _ (p : Publication) (batch : SnapshotBatch) (s : State) where
  abbrev published : ContentDb × Dict Text ℕ
  published = publish_content p.parser_schema p.index_schema batch s.content

  abbrev mapped_files : ContentDb × Mapping
  mapped_files =
      map_files p.parser_schema p.index_schema batch.files
        (s.content, record { path_content = []; new_content = []; fact_path = [] })

  abbrev after : BranchDb → State
  after b = record { content = published.0; branch = b }

  -- The new rows of the files.
  module _ (files : Dict PathKey FileRow)
      (inserted : insert_files p.snapshot published.1 batch.files
          (without_snapshot p.snapshot s.branch.snapshot_files)
        ≡ ok files) where
    abbrev HasServed : FileFact → Type 0
    HasServed f =
        (row : ContentRow) × (lookup (path_key p.snapshot f.path) files
          ≡ some (record { content = row.id; role = f.role }))
        × (lookup (key_of p.parser_schema p.index_schema f) published.0.contents ≡ some row)

    served_file :
        (f : FileFact)
        → IsInserted p.snapshot published.1 files f
          × IsMapped p.parser_schema p.index_schema mapped_files f
        → HasServed f
    served_file f ((content, mapped, there), m) =
        let (row, path, known) =
          publish_content-IsMapped p.parser_schema p.index_schema batch s.content f m in
        let same : content ≡ row.id = cc in
        (row, there ∙ ap (λ (n : ℕ). some (record { content = n; role = f.role })) same, known)

    served_files : All HasServed batch.files
    served_files = All-map served_file batch.files (
        All-zip (IsInserted p.snapshot published.1 files)
          (IsMapped p.parser_schema p.index_schema mapped_files) batch.files
          (insert_files-IsInserted p.snapshot published.1 batch.files _ files inserted)
          (map_files-IsMapped p.parser_schema p.index_schema batch.files _
            (insert_files-HasDistinctPaths p.snapshot published.1 batch.files _ files inserted)))

    only_files :
        (path : Text) (row : FileRow)
        → lookup (path_key p.snapshot path) files ≡ some row
        → Any (λ f. path ≡ f.path) batch.files
    only_files path row h =
        elim (insert_files-only p.snapshot published.1 batch.files _ files
          (path_key p.snapshot path) inserted) [
            | inl old ↦ absurd (
                ground (
                  arith,
                  old,
                  lookup-without_snapshot p.snapshot (path_key p.snapshot path)
                      s.branch.snapshot_files,
                ))
            | inr new ↦ Any-path batch.files new
          ]
      where
        Any-path :
            (fs : List FileFact)
            → Any (λ f. path_key p.snapshot path ≡ path_key p.snapshot f.path) fs
            → Any (λ f. path ≡ f.path) fs
        Any-path [] a = a
        Any-path (f ∷ fs) (inl e) = inl (cc)
        Any-path (f ∷ fs) (inr a) = inr (Any-path fs a)

    other_files :
        (k : PathKey) → k.snapshot ≢ p.snapshot → lookup k files ≡ lookup k s.branch.snapshot_files
    other_files k differ =
        elim (insert_files-only p.snapshot published.1 batch.files _ files k inserted) [
          | inl old ↦
              ground (arith, old, lookup-without_snapshot p.snapshot k s.branch.snapshot_files)
          | inr new ↦ absurd (not_new batch.files new)
        ]
      where
        not_new : (fs : List FileFact) → Any (λ f. k ≡ path_key p.snapshot f.path) fs → ⊥
        not_new [] a = a
        not_new (f ∷ fs) (inl e) = differ (cc)
        not_new (f ∷ fs) (inr a) = not_new fs a

  publish_branch-IsPublished :
      (source : Text → Result Failure Text) (b : BranchDb)
      → publish_branch source p batch published.0 published.1 s.branch ≡ ok b
      → IsPublished p batch s (after b)
  unfolding publish_branch
  publish_branch-IsPublished source b h =
      let old = without_snapshot p.snapshot s.branch.snapshot_files in
      let (snapshots, e1, h1) = first_value (begin_snapshot p s.branch.snapshots) _ h in
      let (files, e2, h2) =
        first_value (insert_files p.snapshot published.1 batch.files old) _ h1 in
      let (indexed, e3, h3) =
        first_value
          (ensure_branch_fts source published.0 (unique_content_ids [] published.1) s.branch) _
          h2 in
      let (assets, e4, h4) =
        first_value
          (insert_assets p.snapshot published.1 batch.assets
            (without_snapshot p.snapshot s.branch.snapshot_assets))
          _ h3 in
      let same : record indexed {
        snapshots = mark_ready p.snapshot snapshots;
        snapshot_files = files;
        snapshot_assets = assets;
        state = insert (codes "active_snapshot") p.snapshot s.branch.state;
      }
          ≡ b =
        cc in
      subst (λ c. IsPublished p batch s (after c)) same
        (record {
          ready =
              mark_ready-ready p snapshots
                (begin_snapshot-IsBegun p s.branch.snapshots snapshots e1);
          active = lookup-insert_self (codes "active_snapshot") p.snapshot s.branch.state;
          served = served_files files e2;
          only = only_files files e2;
          others = other_files files e2;
        })

failed_or-ok :
    (o : Option Failure) (r : Result Failure BranchDb) (b : BranchDb)
    → failed_or o r ≡ ok b
    → r ≡ ok b
failed_or-ok none r b h = h
failed_or-ok (some e) r b h = absurd (cc)

committed-IsPublished :
    (p : Publication) (batch : SnapshotBatch) (s s' : State) (r : Result Failure BranchDb)
    → ((b : BranchDb) → r ≡ ok b → IsPublished p batch s (after p batch s b))
    → committed s (published p batch s).0 r ≡ (ok tt, s')
    → IsPublished p batch s s'
committed-IsPublished p batch s s' (ok b) h e =
    let same : after p batch s b ≡ s' = cc in subst (IsPublished p batch s) same (h b refl)
committed-IsPublished p batch s s' (err e') h e = absurd (cc)

publish_locked-IsPublished :
    (o : Option Failure) (out : Outside) (p : Publication) (batch : SnapshotBatch) (s s' : State)
    → publish_locked out p batch s o ≡ (ok tt, s')
    → IsPublished p batch s s'
publish_locked-IsPublished (some e) out p batch s s' h = absurd (cc)
publish_locked-IsPublished none out p batch s s' h =
    committed-IsPublished p batch s s' _
      (λ b e.
        publish_branch-IsPublished p batch s out.source b (failed_or-ok out.branch_error _ b e))
      h

-- After a publication of a snapshot that reports success, the snapshot is ready in its schemas and
-- is the active one; each file of the batch has a row with its role and with the content of its
-- hash and language, no other path has a row of the snapshot, and the file rows of the other
-- snapshots are as they were.
pub publish-IsPublished :
    (out : Outside) (p : Publication) (batch : SnapshotBatch) (s s' : State)
    → publish out p batch s ≡ (ok tt, s')
    → IsPublished p batch s s'
unfolding publish
publish-IsPublished out p batch s s' h = guarded out.lock_error h
  where
    guarded :
        (o : Option Failure)
        → publish_guarded o out p batch s ≡ (ok tt, s')
        → IsPublished p batch s s'
    guarded (some e) k = absurd (cc)
    guarded none k = publish_locked-IsPublished out.content_error out p batch s s' k
