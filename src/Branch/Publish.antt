-- ===== src/Branch/Publish.antt =====
-- `Publish` of internal/store/branch.go. An error of a statement rolls its transaction back, so a
-- transaction is modelled by its effect and by the error that ends it, if any.
pub mod Begun
pub mod Published
use wowdoc.Base.{
  ℕ, zero, suc, Bool, true, false, not, ◌&&◌, ◌||◌, Option, none, some, List, [], ◌∷◌, ◌++◌, Text,
}
use wowdoc.Base.{
  codes, ◌==◌, text_eq, nat_eq, contains, eqb, Result, ok, err, ◌>>=◌, guard, required, length,
}
use wowdoc.Base.{if◌then◌else◌, map}
use wowdoc.Base.Dict.{Dict, lookup, insert}
use wowdoc.Strings.{trim_space}
use wowdoc.Results.{Failure, plain, wrapped}
use wowdoc.Branch.Types.{
  FileFact, AssetFact, SnapshotBatch, ContentKey, ContentRow, AliasKey, DocRow, AssetRow, ContentDb,
  SnapshotRow, PathKey, FileRow, AssetPathRow, BranchDb, content_key_eq, alias_key_eq, path_key_eq,
}
use wowdoc.Branch.Facts.{publish_content}
use wowdoc.Branch.Snapshot.{Publication, publish_branch}

pub record State : Type 0 where
  pub content : ContentDb
  pub branch : BranchDb

-- What a call of `Publish` meets: the error of the lock, the error of a statement of either
-- transaction, and the object store's source texts.
pub record Outside : Type 0 where
  pub lock_error : Option Failure
  pub content_error : Option Failure
  pub branch_error : Option Failure
  pub source : Text → Result Failure Text

abbrev pub committed :
    State → ContentDb → Result Failure BranchDb → Result Failure (Unit {0}) × State
committed s content (ok branch) = (ok tt, record { content = content; branch = branch })
committed s content (err e) = (err e, record s { content = content })

abbrev pub failed_or {ℓ} : {A : Type ℓ} → Option Failure → Result Failure A → Result Failure A
failed_or none r = r
failed_or (some e) r = err e

abbrev pub publish_locked :
    Outside
    → Publication
    → SnapshotBatch
    → State
    → Option Failure
    → Result Failure (Unit {0}) × State
publish_locked out p batch s (some e) = (err (wrapped (codes "merge shared content facts") e), s)
publish_locked out p batch s none =
    let (content, paths) = publish_content p.parser_schema p.index_schema batch s.content in
    committed s content
      (failed_or out.branch_error (publish_branch out.source p batch content paths s.branch))

abbrev pub publish_guarded :
    Option Failure
    → Outside
    → Publication
    → SnapshotBatch
    → State
    → Result Failure (Unit {0}) × State
publish_guarded (some e) out p batch s = (err e, s)
publish_guarded none out p batch s = publish_locked out p batch s out.content_error

-- `Publish`: the result, and the databases after it.
unfoldable pub publish :
    Outside → Publication → SnapshotBatch → State → Result Failure (Unit {0}) × State
publish out p batch s = publish_guarded out.lock_error out p batch s
