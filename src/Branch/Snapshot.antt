-- ===== src/Branch/Snapshot.antt =====
-- The rows of a snapshot, the second transaction of `Publish` of internal/store/branch.go.
pub mod Files
use wowdoc.Base.{
  ℕ, zero, suc, Bool, true, false, not, ◌&&◌, ◌||◌, Option, none, some, List, [], ◌∷◌, ◌++◌, Text,
}
use wowdoc.Base.{
  codes, ◌==◌, text_eq, nat_eq, contains, eqb, Result, ok, err, ◌>>=◌, guard, required, length,
}
use wowdoc.Base.{if◌then◌else◌, map}
use wowdoc.Base.Dict.{Dict, lookup, insert}
use wowdoc.Strings.{trim_space}
use wowdoc.Results.{Failure, plain, wrapped}
use wowdoc.Branch.Types.{
  FileFact, AssetFact, SnapshotBatch, ContentKey, ContentRow, AliasKey, DocRow, AssetRow, ContentDb,
  SnapshotRow, PathKey, FileRow, AssetPathRow, BranchDb, content_key_eq, alias_key_eq, path_key_eq,
}
use wowdoc.Branch.Facts.{publish_content}

-- The arguments of `Publish`, less the batch.
pub record Publication : Type 0 where
  pub snapshot : Text
  pub commit : Text
  pub requested_ref : Text
  pub tag : Text
  pub build_interface : Text
  pub parser_schema : Text
  pub index_schema : Text

abbrev constraint : Failure
constraint = plain (codes "UNIQUE constraint failed")

abbrev pub has_commit : Text → Text → Dict Text SnapshotRow → Bool
has_commit id commit [] = false
has_commit id commit ((k, row) ∷ rows) =
    not (k == id) && row.commit_hash == commit || has_commit id commit rows

abbrev pub building : Publication → Text → SnapshotRow
building p commit = record {
  commit_hash = commit;
  requested_ref = p.requested_ref;
  tag = p.tag;
  build_interface = p.build_interface;
  build_interface_checked = true;
  status = codes "building";
  parser_schema = p.parser_schema;
  index_schema = p.index_schema;
}

abbrev pub begin_found :
    Option SnapshotRow
    → Publication
    → Dict Text SnapshotRow
    → Result Failure (Dict Text SnapshotRow)
begin_found (some row) p rows = ok (insert p.snapshot (building p row.commit_hash) rows)
begin_found none p rows =
    if has_commit p.snapshot p.commit rows
    then err constraint
    else ok (insert p.snapshot (building p p.commit) rows)

-- INSERT INTO snapshots ... ON CONFLICT(id) DO UPDATE, which leaves the commit of a row as it is.
unfoldable pub begin_snapshot :
    Publication → Dict Text SnapshotRow → Result Failure (Dict Text SnapshotRow)
begin_snapshot p rows = begin_found (lookup p.snapshot rows) p rows

-- DELETE FROM a table WHERE snapshot_id=?
unfoldable pub without_snapshot {ℓ} : {V : Type ℓ} → Text → Dict PathKey V → Dict PathKey V
without_snapshot id [] = []
without_snapshot id ((k, row) ∷ rows) =
    let rest = without_snapshot id rows in if k.snapshot == id then rest else (k, row) ∷ rest

abbrev pub absent_or_refused {ℓ κ} : {V : Type ℓ} {A : Type κ} → Option V → A → Result Failure A
absent_or_refused none rows = ok rows
absent_or_refused (some other) rows = err constraint

-- An insert into a table with a primary key.
abbrev pub insert_new {ℓ} :
    {V : Type ℓ} → PathKey → V → Dict PathKey V → Result Failure (Dict PathKey V)
insert_new k row rows = absent_or_refused (lookup k rows) (insert k row rows)

abbrev pub mapped_id : Option ℕ → Option ℕ
mapped_id none = none
mapped_id (some zero) = none
mapped_id (some (suc n)) = some (suc n)

-- The loop over the files of the batch.
unfoldable pub insert_files :
    Text
    → Dict Text ℕ
    → List FileFact
    → Dict PathKey FileRow
    → Result Failure (Dict PathKey FileRow)
insert_files id paths [] rows = ok rows
insert_files id paths (f ∷ files) rows = do
  content ←
      required (mapped_id (lookup f.path paths))
        (plain (codes "content mapping missing for " ++ f.path))
  rows' ←
      insert_new (record { snapshot = id; path = f.path })
        (record { content = content; role = f.role }) rows
  insert_files id paths files rows'

-- The loop over the assets of the batch; an asset that has no content is left out.
unfoldable pub insert_assets :
    Text
    → Dict Text ℕ
    → List AssetFact
    → Dict PathKey AssetPathRow
    → Result Failure (Dict PathKey AssetPathRow)
insert_assets id paths [] rows = ok rows
insert_assets id paths (a ∷ assets) rows = elim (mapped_id (lookup a.path paths)) [
  | none ↦ insert_assets id paths assets rows
  | some content ↦
      insert_new (record { snapshot = id; path = a.path })
        (record { normalized_path = a.normalized_path; content = content }) rows
      >>= λ rows'. insert_assets id paths assets rows'
]

-- `uniqueContentIDs`, in the order of the map.
unfoldable pub unique_content_ids : List ℕ → Dict Text ℕ → List ℕ
unique_content_ids seen [] = []
unique_content_ids seen ((path, id) ∷ paths) =
    let again = unique_content_ids seen paths in
    let first = id ∷ unique_content_ids (id ∷ seen) paths in
    if eqb id 0 || contains seen id then again else first

abbrev pub docs_of : ℕ → List DocRow → List DocRow
docs_of id [] = []
docs_of id (d ∷ docs) = let rest = docs_of id docs in if eqb d.content id then d ∷ rest else rest

abbrev pub hash_of : ℕ → Dict ContentKey ContentRow → Text
hash_of id [] = []
hash_of id ((k, row) ∷ rows) = if eqb row.id id then k.hash else hash_of id rows

-- The text of a document: that of a source is read from the object store.
unfoldable pub indexed_text : (Text → Result Failure Text) → Text → DocRow → Result Failure Text
indexed_text source hash d =
    if d.kind == codes "source" && d.text == []
    then (source hash >>= λ content. ok (trim_space content))
    else ok d.text

-- The loop over the documents of a content.
unfoldable pub index_docs :
    (Text → Result Failure Text) → Text → List DocRow → Dict ℕ Text → Result Failure (Dict ℕ Text)
index_docs source hash [] fts = ok fts
index_docs source hash (d ∷ docs) fts =
    indexed_text source hash d >>= λ text. index_docs source hash docs (insert d.id text fts)

-- One content of `ensureBranchFTS`.
abbrev pub index_content :
    (Text → Result Failure Text) → ContentDb → ℕ → BranchDb → Result Failure BranchDb
index_content source content id b =
    if contains b.branch_contents id
    then ok b
    else (index_docs source (hash_of id content.contents) (docs_of id content.search_docs)
          b.search_fts
        >>= λ fts.
            ok (record b { branch_contents = b.branch_contents ++ id ∷ []; search_fts = fts }))

-- `ensureBranchFTS`
unfoldable pub ensure_branch_fts :
    (Text → Result Failure Text) → ContentDb → List ℕ → BranchDb → Result Failure BranchDb
ensure_branch_fts source content [] b = ok b
ensure_branch_fts source content (id ∷ ids) b =
    index_content source content id b >>= λ b'. ensure_branch_fts source content ids b'

abbrev pub ready_found : Option SnapshotRow → Text → Dict Text SnapshotRow → Dict Text SnapshotRow
ready_found none id rows = rows
ready_found (some row) id rows = insert id (record row { status = codes "ready" }) rows

-- UPDATE snapshots SET status='ready'
abbrev pub mark_ready : Text → Dict Text SnapshotRow → Dict Text SnapshotRow
mark_ready id rows = ready_found (lookup id rows) id rows

-- The second transaction of `Publish`, up to its commit.
unfoldable pub publish_branch :
    (Text → Result Failure Text)
    → Publication
    → SnapshotBatch
    → ContentDb
    → Dict Text ℕ
    → BranchDb
    → Result Failure BranchDb
publish_branch source p batch content paths b = do
  snapshots ← begin_snapshot p b.snapshots
  files ← insert_files p.snapshot paths batch.files (without_snapshot p.snapshot b.snapshot_files)
  indexed ← ensure_branch_fts source content (unique_content_ids [] paths) b
  assets ←
      insert_assets p.snapshot paths batch.assets (without_snapshot p.snapshot b.snapshot_assets)
  ok (record indexed {
    snapshots = mark_ready p.snapshot snapshots;
    snapshot_files = files;
    snapshot_assets = assets;
    state = insert (codes "active_snapshot") p.snapshot b.state;
  })
