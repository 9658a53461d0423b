-- ===== src/Query/Types.antt =====
-- The types of internal/query/query.go and search.go. What the SQL selects from one snapshot, and
-- what the object store opens, are the parameter `Db`.
use wowdoc.Base.{ℕ, Option, List, Text, text_eq, Result}
use wowdoc.Base.Int.{ℤ}
use wowdoc.Results.{Failure}

-- `searchCandidate`
pub record Candidate : Type 0 where
  pub kind : Text
  pub name : Text
  pub path : Text
  pub matched : Text
  pub role : Text
  pub line : ℕ
  pub end_line : ℕ
  pub rank : ℕ

-- `Match`; its score parts are the rank and the penalty.
pub record Match : Type 0 where
  pub kind : Text
  pub name : Text
  pub path : Text
  pub matched_by : Text
  pub role : Text
  pub excerpt : Text
  pub content_hash : Text
  pub line : ℕ
  pub score : ℤ
  pub rank_part : ℕ
  pub penalty_part : ℕ

-- `Relation`
pub record Relation : Type 0 where
  pub source : Text
  pub target : Text
  pub kind : Text
  pub confidence : Text
  pub path : Text
  pub line : ℕ

-- `Response`, less the fields of the context.
pub record Response : Type 0 where
  pub matched_tag : Option Text
  pub results : List Match
  pub relations : List Relation
  pub suggestions : List Text

-- What a line scanner yields of a file: its lines, and the error that stops it after them.
pub record Lines : Type 0 where
  pub texts : List Text
  pub failure : Option Failure

-- The statements of `search`, from the strongest evidence to the weakest.
pub data Tier : Type 0 where
  exact prefixed full_text asset_path : Tier

-- The columns of a snapshot's row.
pub record SnapshotRow : Type 0 where
  pub status : Text
  pub parser_schema : Text
  pub index_schema : Text

pub record Db : Type 0 where
  -- Opening the databases: their error, which is absent where a database does not exist.
  pub opened : Result (Option Failure) (Unit {0})
  pub snapshot : Result Failure (Option SnapshotRow)
  -- The rows of a statement for its argument, before the topic filter, the order and the limit.
  pub rows : Tier → Text → Result Failure (List Candidate)
  pub edges : Text → Result Failure (List Relation)
  pub file_hash : Text → Result Failure Text
  pub asset_hash : Text → Result Failure Text
  -- The source object with a hash, read by lines.
  pub source : Text → Result Failure Lines
