-- ===== src/Query/Search.antt =====
-- The search of internal/query/search.go, and what it takes from internal/query/query.go.
pub mod Choice
pub mod Answer
pub mod Ranked
use wowdoc.Base.{
  ℕ, zero, suc, ◌+◌, ◌*◌, Bool, true, false, not, ◌&&◌, ◌||◌, Option, none, some, List, [], ◌∷◌,
}
use wowdoc.Base.{
  ◌++◌, Text, codes, ◌==◌, text_eq, nat_eq, contains, ltb, leb, eqb, length, take, Result, ok, err,
}
use wowdoc.Base.{◌>>=◌, ◌>>◌, guard, if◌then◌else◌}
use wowdoc.Base.Int.{ℤ, pos, negsuc, sub_ℕ, int_lt}
use wowdoc.Base.Sort.{sort_by, text_lt}
use wowdoc.Strings.{to_lower, trim_space, has_prefix, has_suffix, fields, join}
use wowdoc.Strings.{replace_rune, replace_all}
use wowdoc.Strings.Decimal.{decimal}
use wowdoc.ObjectStore.Read.{normalize_path}
use wowdoc.Results.{Failure, fail}
use wowdoc.Query.Types.{
  Candidate, Match, Relation, Response, Db, Tier, exact, prefixed, full_text, asset_path,
}
use wowdoc.Query.Ready.{open_ready}
use wowdoc.Query.Tiers.{role_penalty, score, higher, text_then, search_topic_filter, gather}
use wowdoc.Query.Pattern.{prefix_pattern, contains_pattern}
use wowdoc.Query.Excerpt.{excerpt, excerpt_range, source_match_line}

-- What the loop over the candidates keeps: `seen`, `seenLines` and the results.
pub record Kept : Type 0 where
  pub seen : List Text
  pub seen_lines : List Text
  pub results : List Match

-- The line of a source candidate that has none.
unfoldable pub placed : Db → Text → Candidate → Result Failure Candidate
placed db text c =
    if c.kind == codes "source" && eqb c.line 0
    then (source_match_line db c.path text >>= λ line. ok (record c { line = line }))
    else ok c

-- `fmt.Sprintf("%s:%d", c.path, c.line)`
abbrev pub location : Text → ℕ → Text
location path line = path ++ b':' ∷ decimal line

abbrev pub site_key : Text → ℕ → Text → Text
site_key path line name = location path line ++ 0 ∷ name

-- The content's hash and the excerpt.
unfoldable pub shown_text : Db → Candidate → Result Failure (Text × Text)
shown_text db c =
    if c.kind == codes "asset"
    then (db.asset_hash c.path >>= λ hash. ok (hash, c.path))
    else if c.matched == codes "exact_symbol" && leb c.line c.end_line
    then excerpt_range db c.path c.line c.end_line 80
    else excerpt db c.path c.line 3

abbrev pub match_of : Candidate → Text × Text → Match
match_of c (hash, snippet) = record {
  kind = c.kind;
  name = c.name;
  path = c.path;
  matched_by = c.matched;
  role = c.role;
  excerpt = snippet;
  content_hash = hash;
  line = c.line;
  score = score c;
  rank_part = c.rank;
  penalty_part = role_penalty c.role;
}

-- A source excerpt on a line that is shown, or a name that is shown on its line.
abbrev pub is_repeated : Candidate → Kept → Bool
is_repeated c k =
    c.kind == codes "source" && contains k.seen_lines (location c.path c.line)
    || contains k.seen (site_key c.path c.line c.name)

-- One round for a placed candidate, up to its append; `none` is `continue`.
unfoldable pub visit : Db → Candidate → Kept → Result Failure (Option Kept)
visit db c k =
    if is_repeated c k
    then ok none
    else (shown_text db c >>= λ text. ok (
        some (record {
          seen = site_key c.path c.line c.name ∷ k.seen;
          seen_lines = location c.path c.line ∷ k.seen_lines;
          results = k.results ++ match_of c text ∷ [];
        })))

-- The loop over the candidates.
unfoldable pub choose : Db → Text → ℕ → List Candidate → Kept → Result Failure (List Match)
choose db text limit [] k = ok k.results
choose db text limit (c ∷ cs) k = do
  c' ← placed db text c
  visited ← visit db c' k
  elim visited [
    | none ↦ choose db text limit cs k
    | some k' ↦
        let rest = choose db text limit cs k' in
        if leb limit (length k'.results) then ok k'.results else rest
  ]

-- CASE e.confidence WHEN 'exact' THEN 0 WHEN 'inferred' THEN 1 ELSE 2 END
abbrev pub confidence_rank : Text → ℕ
confidence_rank confidence =
    if confidence == codes "exact" then 0 else if confidence == codes "inferred" then 1 else 2

abbrev pub relation_before : Relation → Relation → Bool
relation_before a b =
    let ra = confidence_rank a.confidence in
    let rb = confidence_rank b.confidence in
    ltb ra rb || eqb ra rb && text_then a.path b.path (ltb a.line b.line)

abbrev pub relate : List Relation → List Relation
relate [] = []
relate (r ∷ rows) = record r { source = replace_all r.source (codes "{path}") r.path } ∷ relate rows

-- `searchRelations`; the argument of the statement is the text, or the pattern of what contains it.
unfoldable pub search_relations : Db → Text → ℕ → Bool → Result Failure (List Relation)
search_relations db text limit broad = do
  rows ← db.edges (if broad then contains_pattern text else text)
  ok (relate (take limit (sort_by relation_before rows)))

-- `if limit <= 0 { limit = 10 }`
unfoldable pub effective_limit : ℤ → ℕ
effective_limit (pos zero) = 10
effective_limit (pos (suc n)) = suc n
effective_limit (negsuc n) = 10

abbrev pub suggestions_for : List Match → List Text
suggestions_for [] =
    codes "use explore for broader text and symbol matches"
    ∷ codes "check the topic, product and ref"
    ∷ []
suggestions_for (m ∷ results) = []

abbrev pub tag_of : Text → Option Text
tag_of [] = none
tag_of (c ∷ tag) = some (c ∷ tag)

-- `search`, for the tag of the context.
unfoldable pub search : Db → Text → Text → Text → ℤ → Bool → Result Failure Response
search db matched_tag asked asked_topic asked_limit broad = do
  let text = trim_space asked
  let topic = to_lower (trim_space asked_topic)
  let limit = effective_limit asked_limit
  guard (not (text == [])) (fail (codes "query_required") (codes "search text must not be empty") 2)
  filter ← search_topic_filter topic
  open_ready db
  candidates ← gather db filter limit broad text topic
  results ←
      choose db text limit (sort_by higher candidates)
        (record { seen = []; seen_lines = []; results = [] })
  relations ← search_relations db text limit broad
  ok (record {
    matched_tag = tag_of matched_tag;
    results = results;
    relations = relations;
    suggestions = suggestions_for results;
  })

-- `Search`
abbrev pub search_exact : Db → Text → Text → Text → ℤ → Result Failure Response
search_exact db tag text topic limit = search db tag text topic limit false

-- `Explore`
abbrev pub explore : Db → Text → Text → Text → ℤ → Result Failure Response
explore db tag text topic limit = search db tag text topic limit true
