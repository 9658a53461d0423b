-- ===== src/Branch/Read.antt =====
-- What a branch tells of its snapshots and contents, internal/store/branch.go: `ReadySnapshot`,
-- `SnapshotBuildInterfaceState`, `SnapshotBuildInterface`, `LookupOID` and `LookupHash`.
use wowdoc.Base.{
  ℕ, ◌+◌, Bool, true, false, not, ◌&&◌, Option, none, some, [], ◌∷◌, Text, codes, ◌==◌,
}
use wowdoc.Base.{text_eq, nat_eq, eqb, if◌then◌else◌}
use wowdoc.Base.Dict.{Dict, lookup}
use wowdoc.Strings.{trim_space}
use wowdoc.Branch.Types.{
  ContentKey, ContentRow, AliasKey, AssetRow, ContentDb, SnapshotRow, PathKey, FileRow,
  content_key_eq, alias_key_eq,
}
use wowdoc.Branch.Publish.{State}

-- `SnapshotSummary`
pub record SnapshotSummary : Type 0 where
  pub files : ℕ
  pub lua : ℕ
  pub xml : ℕ
  pub toc : ℕ
  pub assets : ℕ
  pub ast : ℕ

abbrev pub row_of_id : ℕ → Dict ContentKey ContentRow → Option (ContentKey × ContentRow)
row_of_id id [] = none
row_of_id id ((k, row) ∷ rows) = if eqb row.id id then some (k, row) else row_of_id id rows

-- The rows of a snapshot, counted where a test of their contents holds.
unfoldable pub count_rows {ℓ} : {V : Type ℓ} → Text → (V → Bool) → Dict PathKey V → ℕ
count_rows id test [] = 0
count_rows id test ((k, row) ∷ rows) =
    (if k.snapshot == id && test row then 1 else 0) + count_rows id test rows

abbrev pub joined : (ContentKey → ContentRow → Bool) → Option (ContentKey × ContentRow) → Bool
joined test none = false
joined test (some (k, row)) = test k row

abbrev pub count_files : Text → State → (ContentKey → ContentRow → Bool) → ℕ
count_files id s test =
    count_rows id (λ (f : FileRow). joined test (row_of_id f.content s.content.contents))
      s.branch.snapshot_files

unfoldable pub summary : Text → State → SnapshotSummary
unfolding count_rows
summary id s = record {
  files = count_rows id (λ f. true) s.branch.snapshot_files;
  lua = count_files id s (λ k row. k.language == codes "lua");
  xml = count_files id s (λ k row. k.language == codes "xml");
  toc = count_files id s (λ k row. k.language == codes "toc");
  assets = count_rows id (λ a. true) s.branch.snapshot_assets;
  ast = count_files id s (λ k row. not (row.ast_hash == []));
}

abbrev pub is_built : Text → Text → SnapshotRow → Bool
is_built parser index row =
    row.status == codes "ready" && (row.parser_schema == parser && row.index_schema == index)

-- `ReadySnapshot`; `none` where there is no such snapshot, or it must be built again.
unfoldable pub ready_snapshot : Text → Text → Text → State → Option SnapshotSummary
unfolding summary
ready_snapshot id parser index s = elim (lookup id s.branch.snapshots) [
  | none ↦ none
  | some row ↦ if is_built parser index row then some (summary id s) else none
]

-- `SnapshotBuildInterfaceState`
unfoldable pub build_interface_state : Text → State → Option (Text × Bool)
build_interface_state id s = elim (lookup id s.branch.snapshots) [
  | none ↦ none
  | some row ↦ some (trim_space row.build_interface, row.build_interface_checked)
]

-- `SnapshotBuildInterface`
unfoldable pub build_interface : Text → State → Option Text
build_interface id s = elim (lookup id s.branch.snapshots) [
  | none ↦ none
  | some row ↦ some (trim_space row.build_interface)
]

-- `ContentRecord`
pub record ContentRecord : Type 0 where
  pub id : ℕ
  pub content_hash : Text
  pub ast_hash : Text
  pub language : Text
  pub size : ℕ
  pub asset : Option AssetRow

abbrev pub record_of : ContentKey → ContentRow → ContentDb → ContentRecord
record_of k row db = record {
  id = row.id;
  content_hash = k.hash;
  ast_hash = row.ast_hash;
  language = k.language;
  size = row.bytes;
  asset = lookup row.id db.assets;
}

-- `LookupHash`
unfoldable pub lookup_hash : Text → Text → Text → Text → ContentDb → Option ContentRecord
lookup_hash hash language parser index db =
    let k : ContentKey = record {
      hash = hash;
      language = language;
      parser_schema = parser;
      index_schema = index;
    } in
    elim (lookup k db.contents) [ none ↦ none | some row ↦ some (record_of k row db) ]

abbrev pub of_schema :
    Text → Text → Option (ContentKey × ContentRow) → ContentDb → Option ContentRecord
of_schema parser index none db = none
of_schema parser index (some (k, row)) db =
    if k.parser_schema == parser && k.index_schema == index then some (record_of k row db) else none

-- `LookupOID`
unfoldable pub lookup_oid : Text → Text → Text → Text → ContentDb → Option ContentRecord
lookup_oid oid language parser index db =
    let k : AliasKey = record { git_oid = oid; language = language } in
    elim (lookup k db.blob_aliases) [
      | none ↦ none
      | some id ↦ of_schema parser index (row_of_id id db.contents) db
    ]
