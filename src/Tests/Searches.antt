-- ===== src/Tests/Searches.antt =====
-- Concrete inputs for the theorems on searches and comparisons.
use wowdoc.Base.{ℕ, ◌≡◌, ◌≤◌, refl, false, none, some, List, [], ◌∷◌, Text, codes}
use wowdoc.Base.{ok, length, text_eq, nat_eq}
use wowdoc.Base.Int.{pos}
use wowdoc.Query.Types.{Candidate, Match, Response, Db, Tier, exact}
use wowdoc.Query.Ready.{parser, index}
use wowdoc.Query.Search.{search, effective_limit}
use wowdoc.Query.Search.Answer.{IsAnswer}
use wowdoc.Query.Search.Ranked.{search-IsAnswer}
use wowdoc.Query.Diff.{Diff, diff}
use wowdoc.Query.Diff.Described.{IsDiff, diff-IsDiff}
use wowdoc.Base.Sort.{sort_by, insert_by, text_lt}
use wowdoc.Strings.{trim_space, trim_left, trim_right, to_lower, lower_rune, is_space, join}
use wowdoc.Strings.Decimal.{decimal, decimal_from}
use wowdoc.Query.Ready.{open_ready, open_branch, ensure_ready}
use wowdoc.Query.Tiers.{
  search_topic_filter, gather, collect, weaker, admitted, admits, role_penalty,
}
use wowdoc.Query.Search.{choose, placed, visit, shown_text, search_relations}
use wowdoc.Query.Excerpt.{excerpt, excerpt_from_hash, excerpt_lines}

abbrev found : Text → Text → Text → ℕ → ℕ → Candidate
found kind name role line rank = record {
  kind = kind;
  name = name;
  path = codes "a.lua";
  matched = codes "exact_fact";
  role = role;
  line = line;
  end_line = 0;
  rank = rank;
}

-- Two rows of one name on one line, one of a vendor, and nothing in the weaker tiers.
abbrev rows_of : Tier → List Candidate
rows_of exact =
    found (codes "event") (codes "A") (codes "vendor") 1 90
    ∷ found (codes "event") (codes "A") (codes "project") 2 90
    ∷ found (codes "doc") (codes "A") (codes "project") 2 90
    ∷ []
rows_of _ = []

abbrev db : Db
db = record {
  opened = ok tt;
  snapshot =
      ok (some (record { status = codes "ready"; parser_schema = parser; index_schema = index }));
  rows = λ tier argument. ok (rows_of tier);
  edges = λ text. ok [];
  file_hash = λ path. ok (codes "h");
  asset_hash = λ path. ok (codes "h");
  source = λ hash. ok (record { texts = codes "one" ∷ codes "two" ∷ []; failure = none });
}

abbrev lines : Text → Text
lines s = s

abbrev shown : Text → ℕ → Match
shown role line = record {
  kind = codes "event";
  name = codes "A";
  path = codes "a.lua";
  matched_by = codes "exact_fact";
  role = role;
  excerpt = codes "1: one\n2: two";
  content_hash = codes "h";
  line = line;
  score = pos 90;
  rank_part = 90;
  penalty_part = 0;
}

abbrev answer : Response
answer = record {
  matched_tag = none;
  results =
      record (shown (codes "project") 2) { kind = codes "doc" }
      ∷ record (shown (codes "vendor") 1) { score = pos 75; penalty_part = 15 }
      ∷ [];
  relations = [];
  suggestions = [];
}

search-IsAnswer_example :
    IsAnswer (effective_limit (pos 5)) answer.results
    × (length answer.relations ≤ effective_limit (pos 5))
unfolding search text_eq nat_eq trim_space trim_left trim_right search_topic_filter to_lower
    lower_rune open_ready open_branch ensure_ready gather collect weaker sort_by insert_by admitted
    admits role_penalty text_lt choose placed visit shown_text excerpt excerpt_from_hash
    excerpt_lines search_relations decimal decimal_from is_space join effective_limit
search-IsAnswer_example = search-IsAnswer db [] (codes " A ") [] (pos 5) false answer refl

abbrev old_rows : List (Text × Text)
old_rows = (codes "A", codes "1") ∷ (codes "B", codes "1") ∷ []

abbrev new_rows : List (Text × Text)
new_rows = (codes "B", codes "1") ∷ (codes "B", codes "2") ∷ (codes "C", codes "1") ∷ []

diff-IsDiff_example :
    (d : Diff) × (diff (ok tt) (ok tt) (ok old_rows) (ok new_rows) ≡ ok d)
    × IsDiff old_rows new_rows d
diff-IsDiff_example = diff-IsDiff old_rows new_rows
