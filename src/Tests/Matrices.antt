-- ===== src/Tests/Matrices.antt =====
-- Concrete inputs for the theorems on the validation matrix.
use wowdoc.Base.{◌≡◌, refl, true, not, ◌&&◌, List, [], ◌∷◌, Text, text_eq, codes, All, contains}
use wowdoc.Validator.Types.{LoadFile, Fact, Report}
use wowdoc.Validator.Matrix.Targets.{HasDistinctIds}
use wowdoc.Validator.Matrix.Files.{paths_of, paths_at, merge_files}
use wowdoc.Validator.Matrix.Files.Split.{is_everywhere, merge_files-shared, merge_files-only}
use wowdoc.Validator.Matrix.Facts.{merge_facts}
use wowdoc.Validator.Matrix.Facts.Shared.{
  is_agreed, is_mentioned_by_some, names, merge_facts-shared, merge_facts-differences,
}

abbrev pub loaded : Text → LoadFile
loaded path = record { path = path; file_type = codes "lua"; loaded_by = []; load_order = 0 }

abbrev api_fact : Text → Text → Fact
api_fact name signature = record {
  kind = codes "API";
  name = name;
  exists = true;
  signature = signature;
  evidence = [];
}

abbrev target : Text → List LoadFile → List Fact → Report
target id files facts = record {
  id = id;
  valid = true;
  path = [];
  source_id = [];
  product = [];
  ref = [];
  requested_ref = [];
  matched_tag = [];
  resolved_commit = [];
  toc = [];
  interface = [];
  checked_lua = 0;
  checked_xml = 0;
  load_closure = files;
  diagnostics = [];
  unresolved = [];
  coverage = record { checked = 0; resolved = 0; unresolved = 0 };
  facts = facts;
}

abbrev live : Report
live =
    target (codes "live") (loaded (codes "a") ∷ loaded (codes "b") ∷ [])
      (api_fact (codes "F") (codes "1") ∷ api_fact (codes "G") (codes "1") ∷ [])

abbrev beta : Report
beta =
    target (codes "beta") (loaded (codes "a") ∷ [])
      (api_fact (codes "F") (codes "1") ∷ api_fact (codes "G") (codes "2") ∷ [])

distinct_ids : HasDistinctIds (live ∷ beta ∷ [])
unfolding text_eq
distinct_ids = (refl, (refl, tt))

merge_files-shared_example :
    contains (merge_files (live ∷ beta ∷ [])).0 (codes "a")
    ≡ is_everywhere (live ∷ beta ∷ []) (codes "a")
merge_files-shared_example = merge_files-shared live (beta ∷ []) (codes "a") distinct_ids

merge_files-only_example :
    All
      (λ t.
        contains (paths_at t.id (merge_files (live ∷ beta ∷ [])).1) (codes "b")
        ≡ (contains (paths_of t) (codes "b") && not (is_everywhere (live ∷ beta ∷ []) (codes "b"))))
      (live ∷ beta ∷ [])
merge_files-only_example = merge_files-only (live ∷ beta ∷ []) (codes "b") distinct_ids

merge_facts-shared_example :
    contains (merge_facts (live ∷ beta ∷ []) (codes "api" ∷ [])).shared (codes "F")
    ≡ is_agreed (codes "api" ∷ []) (codes "F") live (beta ∷ [])
merge_facts-shared_example =
    merge_facts-shared (codes "api" ∷ []) (codes "F") live (beta ∷ []) distinct_ids

merge_facts-differences_example :
    contains (names (merge_facts (live ∷ beta ∷ []) (codes "api" ∷ [])).differences) (codes "G") ≡ (
      is_mentioned_by_some (codes "api" ∷ []) (codes "G") (live ∷ beta ∷ [])
      && not (is_agreed (codes "api" ∷ []) (codes "G") live (beta ∷ [])))
merge_facts-differences_example =
    merge_facts-differences (codes "api" ∷ []) (codes "G") live (beta ∷ []) distinct_ids
