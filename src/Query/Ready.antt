-- ===== src/Query/Ready.antt =====
-- Whether a snapshot may be queried, internal/query/query.go.
use wowdoc.Base.{Bool, ◌&&◌, Option, none, some, [], ◌∷◌, Text, codes, ◌==◌, text_eq}
use wowdoc.Base.{Result, ok, err, ◌>>◌, if◌then◌else◌}
use wowdoc.Strings.{to_lower, contains_text}
use wowdoc.Results.{Failure, app, error, error_text}
use wowdoc.Query.Types.{Db, SnapshotRow}

-- `schema.Parser`
abbrev pub parser : Text
parser = codes "lua-gopher-v5-event-literals+xml-v2+toc-v2-content-addressed"

-- `schema.Index`
abbrev pub index : Text
index = codes "wowdoc-v12-compat-evidence-pack-shared-content-branch-fts"

-- `snapshotNotReady`
unfoldable pub snapshot_not_ready : Text → Failure
snapshot_not_ready message = app (record (error (codes "snapshot_not_ready") message 3) {
  next_steps =
      codes "wowdoc source sync --source SOURCE --product PRODUCT"
      ∷ codes "wowdoc index build --source SOURCE --product PRODUCT --ref REF"
      ∷ [];
})

-- The error of `openBranch`: a database that does not exist is a snapshot that is not indexed.
unfoldable pub open_error : Option Failure → Failure
open_error none =
    snapshot_not_ready (codes "the selected snapshot is not indexed for the current schema")
open_error (some e) = e

-- `openBranch`
unfoldable pub open_branch : Result (Option Failure) (Unit {0}) → Result Failure (Unit {0})
open_branch (ok _) = ok tt
open_branch (err e) = err (open_error e)

abbrev pub is_current : SnapshotRow → Bool
is_current row =
    row.status == codes "ready" && (row.parser_schema == parser && row.index_schema == index)

-- `ensureReady`, on the snapshot's row or the error of its query.
unfoldable pub ensure_ready : Result Failure (Option SnapshotRow) → Result Failure (Unit {0})
unfolding snapshot_not_ready
ensure_ready (ok none) = err (snapshot_not_ready (codes "the selected snapshot is not indexed"))
ensure_ready (err e) =
    if contains_text (to_lower (error_text e)) (codes "no such column")
    then err (snapshot_not_ready (codes "the selected snapshot uses an older index schema"))
    else err e
ensure_ready (ok (some row)) =
    if is_current row
    then ok tt
    else err
        (snapshot_not_ready (codes "the selected snapshot must be rebuilt for the current schema"))

-- The two guards that every query starts with.
unfoldable pub open_ready : Db → Result Failure (Unit {0})
unfolding open_branch ensure_ready
open_ready db = open_branch db.opened >> ensure_ready db.snapshot
