-- ===== src/Query/Tiers.antt =====
-- The candidates of a search, tier by tier: internal/query/search.go and query.go.
use wowdoc.Base.{ℕ, ◌*◌, Bool, true, not, ◌&&◌, ◌||◌, List, [], ◌∷◌}
use wowdoc.Base.{◌++◌, Text, codes, ◌==◌, text_eq, nat_eq, ltb, eqb, length, take, Result, ok, err}
use wowdoc.Base.{◌>>=◌, if◌then◌else◌}
use wowdoc.Base.Int.{ℤ, sub_ℕ, int_lt}
use wowdoc.Base.Sort.{sort_by, text_lt}
use wowdoc.Strings.{to_lower, has_prefix, has_suffix, fields, join}
use wowdoc.Strings.{replace_rune, replace_all}
use wowdoc.ObjectStore.Read.{normalize_path}
use wowdoc.Results.{Failure, fail}
use wowdoc.Query.Types.{Candidate, Db, Tier, exact, prefixed, full_text, asset_path}
use wowdoc.Query.Pattern.{prefix_pattern, contains_pattern}

-- `rolePenalty`
unfoldable pub role_penalty : Text → ℕ
role_penalty role =
    if role == codes "vendor"
    then 15
    else if role == codes "locale" || role == codes "generated-data" || role == codes "tool"
    then 20
    else 0

-- The conditions of `searchTopicFilter`.
pub data Filter : Type 0 where
  every api asset : Filter
  extension : Text → Filter

-- `searchTopicFilter`; in the message, `%q` has nothing to escape.
unfoldable pub search_topic_filter : Text → Result Failure Filter
search_topic_filter topic =
    if topic == []
    then ok every
    else if topic == codes "api"
    then ok api
    else if topic == codes "lua" || topic == codes "xml" || topic == codes "toc"
    then ok (extension topic)
    else if topic == codes "asset"
    then ok asset
    else err (
        fail (codes "invalid_topic")
          (codes "unsupported topic \"" ++ (topic ++ codes "\": use api, lua, xml, toc, or asset"))
          2)

-- What the condition admits.
unfoldable pub admits : Filter → Candidate → Bool
admits every c = true
admits api c = has_prefix (to_lower c.kind) (codes "api-")
admits (extension topic) c = has_suffix (to_lower c.path) (b'.' ∷ topic)
admits asset c = c.kind == codes "asset"

unfoldable pub admitted : Filter → List Candidate → List Candidate
admitted filter [] = []
admitted filter (c ∷ rows) =
    let rest = admitted filter rows in if admits filter c then c ∷ rest else rest

abbrev pub score : Candidate → ℤ
score c = sub_ℕ c.rank (role_penalty c.role)

-- The order of candidates: `a.rank-rolePenalty(a.role) > b.rank-rolePenalty(b.role)`.
abbrev pub higher : Candidate → Candidate → Bool
higher a b = int_lt (score b) (score a)

abbrev pub text_then : Text → Text → Bool → Bool
text_then a b later = text_lt a b || a == b && later

-- ORDER BY rank less the penalty DESC,path,line,kind,name
abbrev pub row_before : Candidate → Candidate → Bool
row_before a b =
    higher a b
    || not (higher b a)
      && text_then a.path b.path (
          ltb a.line b.line || eqb a.line b.line && text_then a.kind b.kind (text_lt a.name b.name))

-- `collect`: the topic filter, the order and the limit of a statement's rows.
unfoldable pub collect : Db → Filter → ℕ → Tier → Text → Result Failure (List Candidate)
collect db filter limit tier argument = do
  rows ← db.rows tier argument
  ok (take (limit * 3) (sort_by row_before (admitted filter rows)))

abbrev pub quoted_each : List Text → List Text
quoted_each [] = []
quoted_each (part ∷ parts) =
    (b'"' ∷ replace_rune b'"' (codes "\"\"") part ++ b'"' ∷ []) ∷ quoted_each parts

abbrev pub fts_of : List Text → Text
fts_of [] = codes "\"\""
fts_of (part ∷ parts) = join (codes " AND ") (quoted_each (part ∷ parts))

-- `ftsQuery`
unfoldable pub fts_query : Text → Text
fts_query text = fts_of (fields text)

-- The terms that `search` passes to the full-text index.
unfoldable pub fts_terms : Bool → Text → Text
unfolding fts_query
fts_terms broad text =
    let terms = fts_query text in
    if broad then replace_all terms (codes " AND ") (codes " OR ") else terms

-- A weaker tier, which is asked where the search is broad or nothing was found.
unfoldable pub weaker :
    Bool → List Candidate → Result Failure (List Candidate) → Result Failure (List Candidate)
weaker broad found more =
    if broad || eqb (length found) 0 then (more >>= λ rows. ok (found ++ rows)) else ok found

-- The candidates of `search`, tier by tier.
unfoldable pub gather : Db → Filter → ℕ → Bool → Text → Text → Result Failure (List Candidate)
unfolding weaker
gather db filter limit broad text topic =
    if topic == codes "asset"
    then collect db filter limit asset_path (contains_pattern (normalize_path text))
    else do
      first ← collect db filter limit exact text
      second ← weaker broad first (collect db filter limit prefixed (prefix_pattern text))
      weaker broad second (collect db filter limit full_text (fts_terms broad text))
