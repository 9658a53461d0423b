-- ===== src/Validator/Types.antt =====
-- The types of internal/validator/types.go.
use wowdoc.Base.{ℕ, Bool, List, Text, Eq, ℕ_discrete}
use wowdoc.Base.Dict.{Dict}

-- `LoadSource`
pub record LoadSource : Type 0 where
  pub file : Text
  pub line : ℕ
  pub kind : Text

-- A value in an `Evidence` map.
pub data Value : Type 0 where
  text : Text → Value
  number : ℕ → Value
  flag : Bool → Value
  load_source : LoadSource → Value

-- `Evidence`
abbrev pub Evidence : Type 0
Evidence = Dict Text Value

-- `Diagnostic`
pub record Diagnostic : Type 0 where
  pub severity : Text
  pub code : Text
  pub file : Text
  pub line : ℕ
  pub column : ℕ
  pub message : Text
  pub evidence : Evidence

-- `Unresolved`
pub record Unresolved : Type 0 where
  pub kind : Text
  pub expression : Text
  pub file : Text
  pub line : ℕ
  pub column : ℕ
  pub reason : Text
  pub evidence : Evidence

-- `LoadFile`
pub record LoadFile : Type 0 where
  pub path : Text
  pub file_type : Text
  pub loaded_by : List LoadSource
  pub load_order : ℕ

-- `Usage`
pub record Usage : Type 0 where
  pub kind : Text
  pub name : Text
  pub expression : Text
  pub file : Text
  pub line : ℕ
  pub column : ℕ

-- `CompatibilityFact`
pub record Fact : Type 0 where
  pub kind : Text
  pub name : Text
  pub exists : Bool
  pub signature : Text
  pub evidence : Evidence

-- `Closure`
pub record Closure : Type 0 where
  pub toc : Text
  pub interface : Text
  pub files : List LoadFile
  pub diagnostics : List Diagnostic
  pub contents : Dict Text Text

-- `Coverage`
pub record Coverage : Type 0 where
  pub checked : ℕ
  pub resolved : ℕ
  pub unresolved : ℕ

-- `Result`
pub record Report : Type 0 where
  pub id : Text
  pub valid : Bool
  pub path : Text
  pub source_id : Text
  pub product : Text
  pub ref : Text
  pub requested_ref : Text
  pub matched_tag : Text
  pub resolved_commit : Text
  pub toc : Text
  pub interface : Text
  pub checked_lua : ℕ
  pub checked_xml : ℕ
  pub load_closure : List LoadFile
  pub diagnostics : List Diagnostic
  pub unresolved : List Unresolved
  pub coverage : Coverage
  pub facts : List Fact

-- `FactValue`. The zero value is `false` and the empty text.
pub record FactValue : Type 0 where
  pub exists : Bool
  pub signature : Text

fact_value_dec : Discrete FactValue
fact_value_dec = hlevel ℕ_discrete

instance unfoldable pub fact_value_eq : Eq FactValue
unfolding fact_value_dec
fact_value_eq = record { dec = fact_value_dec }

-- `FactDifference`
pub record FactDifference : Type 0 where
  pub name : Text
  pub targets : Dict Text FactValue

-- `FactSummary`
pub record FactSummary : Type 0 where
  pub shared : List Text
  pub differences : List FactDifference

-- What `interfaceSummary` returns.
pub record InterfaceSummary : Type 0 where
  pub declared : Text
  pub facts : List Fact
  pub diagnostics : List Diagnostic

-- `MatrixSummary`
pub record MatrixSummary : Type 0 where
  pub apis : FactSummary
  pub events : FactSummary
  pub xml : FactSummary
  pub interfaces : Dict Text InterfaceSummary
  pub shared_files : List Text
  pub target_only_files : Dict Text (List Text)
  pub shared_diagnostics : List Diagnostic
  pub target_only_diagnostics : Dict Text (List Diagnostic)
  pub unresolved : Dict Text (List Unresolved)

-- `MatrixResult`
pub record MatrixResult : Type 0 where
  pub path : Text
  pub valid : Bool
  pub targets : List Report
  pub summary : MatrixSummary
