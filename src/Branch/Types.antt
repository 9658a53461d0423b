-- ===== src/Branch/Types.antt =====
-- The facts of a snapshot and the tables of the branch databases, internal/store/branch.go.
use wowdoc.Base.{ℕ, Bool, List, Text, Eq, text_eq, ℕ_discrete}
use wowdoc.Base.Dict.{Dict}

-- `FileFact`
pub record FileFact : Type 0 where
  pub path : Text
  pub content_hash : Text
  pub ast_hash : Text
  pub language : Text
  pub role : Text
  pub git_oid : Text
  pub size : ℕ

-- `SymbolFact`
pub record SymbolFact : Type 0 where
  pub name : Text
  pub qualified : Text
  pub kind : Text
  pub path : Text
  pub signature : Text
  pub required_role : Text
  pub line : ℕ
  pub end_line : ℕ

-- `EdgeFact`
pub record EdgeFact : Type 0 where
  pub source : Text
  pub target : Text
  pub kind : Text
  pub confidence : Text
  pub path : Text
  pub required_role : Text
  pub line : ℕ

-- `XMLFact`
pub record XmlFact : Type 0 where
  pub name : Text
  pub kind : Text
  pub path : Text
  pub required_role : Text
  pub line : ℕ
  pub attributes : Text

-- `TOCFact`
pub record TocFact : Type 0 where
  pub path : Text
  pub key : Text
  pub value : Text
  pub required_role : Text
  pub line : ℕ

-- `SearchFact`
pub record SearchFact : Type 0 where
  pub path : Text
  pub kind : Text
  pub name : Text
  pub text : Text
  pub required_role : Text
  pub line : ℕ

-- `AssetFact`
pub record AssetFact : Type 0 where
  pub path : Text
  pub normalized_path : Text
  pub content_hash : Text
  pub git_oid : Text
  pub extension : Text
  pub mime : Text
  pub format : Text
  pub size : ℕ
  pub width : ℕ
  pub height : ℕ

-- `AssetRefFact`
pub record AssetRefFact : Type 0 where
  pub source_path : Text
  pub value : Text
  pub normalized_value : Text
  pub kind : Text
  pub required_role : Text
  pub line : ℕ

-- `SnapshotBatch`
pub record SnapshotBatch : Type 0 where
  pub files : List FileFact
  pub symbols : List SymbolFact
  pub edges : List EdgeFact
  pub xml : List XmlFact
  pub toc : List TocFact
  pub search : List SearchFact
  pub assets : List AssetFact
  pub asset_refs : List AssetRefFact

-- The unique columns of `contents`.
pub record ContentKey : Type 0 where
  pub hash : Text
  pub language : Text
  pub parser_schema : Text
  pub index_schema : Text

content_key_dec : Discrete ContentKey
content_key_dec = hlevel ℕ_discrete

instance unfoldable pub content_key_eq : Eq ContentKey
unfolding content_key_dec
content_key_eq = record { dec = content_key_dec }

-- The other columns of `contents`.
pub record ContentRow : Type 0 where
  pub id : ℕ
  pub ast_hash : Text
  pub bytes : ℕ

-- The primary key of `blob_aliases`.
pub record AliasKey : Type 0 where
  pub git_oid : Text
  pub language : Text

alias_key_dec : Discrete AliasKey
alias_key_dec = hlevel ℕ_discrete

instance unfoldable pub alias_key_eq : Eq AliasKey
unfolding alias_key_dec
alias_key_eq = record { dec = alias_key_dec }

pub record SymbolRow : Type 0 where
  pub content : ℕ
  pub name : ℕ
  pub qualified : ℕ
  pub kind : Text
  pub line : ℕ
  pub end_line : ℕ
  pub signature : ℕ
  pub required_role : Text

pub record EdgeRow : Type 0 where
  pub content : ℕ
  pub source : ℕ
  pub target : ℕ
  pub kind : Text
  pub confidence : Text
  pub line : ℕ
  pub required_role : Text

pub record XmlRow : Type 0 where
  pub content : ℕ
  pub name : ℕ
  pub kind : ℕ
  pub line : ℕ
  pub attributes : ℕ
  pub required_role : Text

pub record TocRow : Type 0 where
  pub content : ℕ
  pub line : ℕ
  pub key : Text
  pub value : Text
  pub required_role : Text

pub record DocRow : Type 0 where
  pub id : ℕ
  pub content : ℕ
  pub line : ℕ
  pub kind : Text
  pub name : ℕ
  pub text : Text
  pub required_role : Text

pub record AssetRow : Type 0 where
  pub extension : Text
  pub mime : Text
  pub bytes : ℕ
  pub width : ℕ
  pub height : ℕ
  pub format : Text

pub record AssetRefRow : Type 0 where
  pub content : ℕ
  pub line : ℕ
  pub kind : Text
  pub value : Text
  pub normalized_value : Text
  pub required_role : Text

-- The shared content database.
pub record ContentDb : Type 0 where
  pub contents : Dict ContentKey ContentRow
  pub blob_aliases : Dict AliasKey ℕ
  pub strings : Dict Text ℕ
  pub symbols : List SymbolRow
  pub edges : List EdgeRow
  pub xml_nodes : List XmlRow
  pub toc_entries : List TocRow
  pub search_docs : List DocRow
  pub assets : Dict ℕ AssetRow
  pub asset_refs : List AssetRefRow

-- A row of `snapshots`, less its times.
pub record SnapshotRow : Type 0 where
  pub commit_hash : Text
  pub requested_ref : Text
  pub tag : Text
  pub build_interface : Text
  pub build_interface_checked : Bool
  pub status : Text
  pub parser_schema : Text
  pub index_schema : Text

-- The primary key of `snapshot_files` and of `snapshot_assets`.
pub record PathKey : Type 0 where
  pub snapshot : Text
  pub path : Text

path_key_dec : Discrete PathKey
path_key_dec = hlevel ℕ_discrete

instance unfoldable pub path_key_eq : Eq PathKey
unfolding path_key_dec
path_key_eq = record { dec = path_key_dec }

pub record FileRow : Type 0 where
  pub content : ℕ
  pub role : Text

pub record AssetPathRow : Type 0 where
  pub normalized_path : Text
  pub content : ℕ

-- The database of a branch.
pub record BranchDb : Type 0 where
  pub state : Dict Text Text
  pub snapshots : Dict Text SnapshotRow
  pub branch_contents : List ℕ
  pub snapshot_files : Dict PathKey FileRow
  pub snapshot_assets : Dict PathKey AssetPathRow
  pub search_fts : Dict ℕ Text
