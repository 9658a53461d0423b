-- ===== src/Tests/Queries.antt =====
-- Concrete inputs for the theorem on compatibility lookups.
use wowdoc.Base.{ℕ, ◌≡◌, true, [], ◌∷◌, Text, codes, ok}
use wowdoc.Query.Compat.{lookup_compatibility}
use wowdoc.Query.Compat.Types.{Context, Usage, Match, Snapshot}
use wowdoc.Query.Compat.Uncached.{lookup_alone, lookup_compatibility-lookup_alone}

abbrev context : Context
context = record {
  source_id = codes "wow-ui-source";
  product_id = codes "retail";
  requested_ref = codes "latest";
  matched_tag = [];
  commit = codes "c";
  snapshot_id = codes "s";
}

abbrev row : Text → ℕ → Match
row path line = record { path = path; role = []; signature = codes "f()"; detail = []; line = line }

-- Two rows, which come out of order, for every name.
abbrev snapshot : Snapshot
snapshot = record {
  ready = ok tt;
  select = λ kind name. ok (row (codes "b") 2 ∷ row (codes "a") 1 ∷ []);
  category = λ kind. ok true;
  build_interface = codes "110000";
}

abbrev asked : ℕ → Usage
asked line = record {
  kind = codes "api";
  name = codes "f";
  expression = [];
  file = codes "x.lua";
  line = line;
  column = 0;
}

lookup_compatibility-lookup_alone_example :
    lookup_compatibility snapshot context (asked 1 ∷ asked 2 ∷ []) (codes "110000")
    ≡ lookup_alone snapshot context (asked 1 ∷ asked 2 ∷ []) (codes "110000")
lookup_compatibility-lookup_alone_example =
    lookup_compatibility-lookup_alone snapshot context (asked 1 ∷ asked 2 ∷ []) (codes "110000")
