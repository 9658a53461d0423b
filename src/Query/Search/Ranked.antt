-- ===== src/Query/Search/Ranked.antt =====
-- What `search` of internal/query/search.go answers, whatever the tiers find.
use wowdoc.Base.{
  ℕ, zero, suc, ◌≤◌, ◌<◌, ◌≡◌, refl, subst, Bool, true, false, not, List, [], ◌∷◌, Text,
}
use wowdoc.Base.{◌==◌, text_eq, length, take, ok, guard, first_value, arith, codes}
use wowdoc.Base.{if◌then◌else◌}
use wowdoc.Base.Int.{ℤ, pos, negsuc, int_lt}
use wowdoc.Base.Sort.{sort_by, IsSorted, sort_by-IsSorted}
use wowdoc.Strings.{to_lower, trim_space}
use wowdoc.Results.{fail}
use wowdoc.Query.Types.{Candidate, Relation, Response, Db}
use wowdoc.Query.Ready.{open_ready}
use wowdoc.Query.Pattern.{contains_pattern}
use wowdoc.Query.Tiers.{score, higher, search_topic_filter, gather}
use wowdoc.Query.Search.{choose, relate, relation_before, search_relations, effective_limit, search}
use wowdoc.Query.Search.Answer.{IsAnswer, choose-IsAnswer}

int_lt-asym : (a b : ℤ) → int_lt a b ≡ true → int_lt b a ≡ false
int_lt-asym a b h = ground arith

int_lt-negtrans : (a b c : ℤ) → int_lt a b ≡ false → int_lt b c ≡ false → int_lt a c ≡ false
int_lt-negtrans a b c h k = ground arith

higher-IsSorted : (cs : List Candidate) → IsSorted higher (sort_by higher cs)
higher-IsSorted cs =
    sort_by-IsSorted higher (λ a b. int_lt-asym (score b) (score a))
      (λ a b c. int_lt-negtrans (score a) (score b) (score c)) cs

length-take : (n : ℕ) (rows : List Relation) → length (take n rows) ≤ n
length-take zero rows = omega arith
length-take (suc n) [] = omega arith
length-take (suc n) (r ∷ rows) = omega (arith, length-take n rows)

length-relate : (rows : List Relation) → length (relate rows) ≡ length rows
length-relate [] = refl
length-relate (r ∷ rows) = omega (arith, length-relate rows)

search_relations_bounded :
    (db : Db) (text : Text) (limit : ℕ) (broad : Bool) (rs : List Relation)
    → search_relations db text limit broad ≡ ok rs
    → length rs ≤ limit
unfolding search_relations
search_relations_bounded db text limit broad rs h =
    let (rows, e, same) =
      first_value (db.edges (if broad then contains_pattern text else text)) _ h in
    let kept = take limit (sort_by relation_before rows) in
    let n : length (relate kept) ≤ limit =
      omega (arith, length-relate kept, length-take limit (sort_by relation_before rows)) in
    let kept_all : relate kept ≡ rs = cc in subst (λ l. length l ≤ limit) kept_all n

effective_limit_pos : (asked : ℤ) → 0 < effective_limit asked
unfolding effective_limit
effective_limit_pos (pos zero) = omega arith
effective_limit_pos (pos (suc n)) = omega arith
effective_limit_pos (negsuc n) = omega arith

-- An answer that `search` gives has no more results than the limit, ten where it is not positive,
-- no two of them of one name on one line of one file, and none with a lower score before one with
-- a higher; it has no more relations than the limit.
pub search-IsAnswer :
    (db : Db) (tag asked topic : Text) (asked_limit : ℤ) (broad : Bool) (r : Response)
    → search db tag asked topic asked_limit broad ≡ ok r
    → IsAnswer (effective_limit asked_limit) r.results
      × (length r.relations ≤ effective_limit asked_limit)
unfolding search
search-IsAnswer db tag asked topic asked_limit broad r h =
    let limit = effective_limit asked_limit in
    let (_, _, h1) =
      first_value
        (guard (not (trim_space asked == []))
          (fail (codes "query_required") (codes "search text must not be empty") 2))
        _ h in
    let (filter, _, h2) = first_value (search_topic_filter (to_lower (trim_space topic))) _ h1 in
    let (_, _, h3) = first_value (open_ready db) _ h2 in
    let (candidates, _, h4) =
      first_value (gather db filter limit broad (trim_space asked) (to_lower (trim_space topic))) _
        h3 in
    let (results, e, h5) =
      first_value
        (choose db (trim_space asked) limit (sort_by higher candidates)
          (record { seen = []; seen_lines = []; results = [] }))
        _ h4 in
    let (relations, e', h6) =
      first_value (search_relations db (trim_space asked) limit broad) _ h5 in
    let answer =
      choose-IsAnswer db (trim_space asked) limit (sort_by higher candidates) results
        (effective_limit_pos asked_limit) (higher-IsSorted candidates) e in
    let shown : results ≡ r.results = cc in
    let related : relations ≡ r.relations = cc in
    (
      subst (IsAnswer limit) shown answer,
      subst (λ l. length l ≤ limit) related
          (search_relations_bounded db (trim_space asked) limit broad relations e'),
    )
