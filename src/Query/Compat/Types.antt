-- ===== src/Query/Compat/Types.antt =====
-- The types of internal/query/compat.go. The rows that the SQL selects from one immutable snapshot
-- are a parameter.
use wowdoc.Base.{ℕ, Bool, List, Text}
use wowdoc.Base.{text_eq, Result}
use wowdoc.Base.Dict.{Dict}

-- `Context`, the parts that compat.go reads.
pub record Context : Type 0 where
  pub source_id : Text
  pub product_id : Text
  pub requested_ref : Text
  pub matched_tag : Text
  pub commit : Text
  pub snapshot_id : Text

-- `CompatibilityUsage`
pub record Usage : Type 0 where
  pub kind : Text
  pub name : Text
  pub expression : Text
  pub file : Text
  pub line : ℕ
  pub column : ℕ

-- `compatibilityMatch`
pub record Match : Type 0 where
  pub path : Text
  pub role : Text
  pub signature : Text
  pub detail : Text
  pub line : ℕ

pub data Value : Type 0 where
  text : Text → Value
  number : ℕ → Value
  flag : Bool → Value
  site : Text → ℕ → ℕ → Value
  matches : List Match → Value

-- `CompatibilityEvidence`
abbrev pub Evidence : Type 0
Evidence = Dict Text Value

-- `CompatibilityFact`
pub record Fact : Type 0 where
  pub kind : Text
  pub name : Text
  pub exists : Bool
  pub signature : Text
  pub evidence : Evidence

-- `CompatibilityUnresolved`
pub record Unresolved : Type 0 where
  pub kind : Text
  pub expression : Text
  pub file : Text
  pub line : ℕ
  pub column : ℕ
  pub reason : Text
  pub evidence : Evidence

-- The opened branch database: whether the snapshot is ready, the rows that match a name, whether a
-- category has any row, and the build interface of the snapshot.
pub record Snapshot : Type 0 where
  pub ready : Result Text (Unit {0})
  pub select : Text → Text → Result Text (List Match)
  pub category : Text → Result Text Bool
  pub build_interface : Text
