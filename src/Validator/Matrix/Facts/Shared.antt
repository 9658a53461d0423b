-- ===== src/Validator/Matrix/Facts/Shared.antt =====
-- Which facts `mergeFacts` of internal/validator/matrix.go takes as shared.
use wowdoc.Base.{
  ◌≡◌, refl, ◌∙◌, ap, arith, Bool, true, false, not, ◌&&◌, ◌||◌, Option, none, some, List, [], ◌∷◌,
  Text, All,
}
use wowdoc.Base.{◌==◌, text_eq, contains, if◌then◌else◌, if_elim}
use wowdoc.Base.Dict
use wowdoc.Base.Dict.{Dict, keys, lookup-insert}
use wowdoc.Base.Members.{contains-sort_by, contains-keys-insert}
use wowdoc.Base.Sort.{sort_by, text_lt}
use wowdoc.Strings.{to_lower}
use wowdoc.Validator.Types.{Report, Fact, FactValue, fact_value_eq, FactDifference, FactSummary}
use wowdoc.Validator.Matrix.Targets.{HasDistinctIds}
use wowdoc.Validator.Matrix.Facts.{
  sorted_keys, dict_at, collect_facts, values_by_name, value_or_zero, is_observed, same_in_all,
  is_shared, summarise, merge_facts,
}
use wowdoc.Validator.Matrix.Facts.Collected.{
  value_of, last_value, step, HasNone, values_by_name-own,
}

-- The target has a fact of the name and its last value is `v`.
abbrev pub has_value : List Text → Text → FactValue → Report → Bool
has_value kinds n v t =
    is_observed (last_value kinds n t.facts none)
    && value_or_zero (last_value kinds n t.facts none) == v

abbrev pub all_have_value : List Text → Text → FactValue → List Report → Bool
all_have_value kinds n v [] = true
all_have_value kinds n v (t ∷ ts) = has_value kinds n v t && all_have_value kinds n v ts

-- Every target has a fact of the name, with one value.
abbrev pub is_agreed : List Text → Text → Report → List Report → Bool
is_agreed kinds n t ts =
    all_have_value kinds n (value_or_zero (last_value kinds n t.facts none)) (t ∷ ts)

same_in_all-value :
    (kinds : List Text) (n : Text) (row : Dict Text FactValue) (v : FactValue) (ts : List Report)
    → All (λ t. Dict.lookup t.id row ≡ last_value kinds n t.facts none) ts
    → same_in_all row v ts ≡ all_have_value kinds n v ts
unfolding same_in_all
same_in_all-value kinds n row v [] h = refl
same_in_all-value kinds n row v (t ∷ ts) h =
    rw (h.0) (ground (arith, same_in_all-value kinds n row v ts h.1))

is_shared-agreed :
    (kinds : List Text) (n : Text) (row : Dict Text FactValue) (t : Report) (ts : List Report)
    → All (λ u. Dict.lookup u.id row ≡ last_value kinds n u.facts none) (t ∷ ts)
    → is_shared row (t ∷ ts) ≡ is_agreed kinds n t ts
unfolding is_shared
is_shared-agreed kinds n row t ts h =
    same_in_all-value kinds n row (value_or_zero (Dict.lookup t.id row)) (t ∷ ts) h
    ∙ ap (λ o. all_have_value kinds n (value_or_zero o) (t ∷ ts)) h.0

abbrev pub names : List FactDifference → List Text
names [] = []
names (d ∷ ds) = d.name ∷ names ds

summarise-shared :
    (values : Dict Text (Dict Text FactValue)) (ts : List Report) (ns : List Text) (n : Text)
    → contains (summarise values ts ns).shared n
      ≡ (contains ns n && is_shared (dict_at n values) ts)
unfolding summarise
summarise-shared values ts [] n = refl
summarise-shared values ts (m ∷ ns) n =
    if_elim
      (λ (s : FactSummary).
        contains s.shared n ≡ (contains (m ∷ ns) n && is_shared (dict_at n values) ts))
      (is_shared (dict_at m values) ts) (λ shared. ground (arith, summarise-shared values ts ns n))
      (λ differs. ground (arith, summarise-shared values ts ns n))

summarise-differences :
    (values : Dict Text (Dict Text FactValue)) (ts : List Report) (ns : List Text) (n : Text)
    → contains (names (summarise values ts ns).differences) n
      ≡ (contains ns n && not (is_shared (dict_at n values) ts))
unfolding summarise
summarise-differences values ts [] n = refl
summarise-differences values ts (m ∷ ns) n =
    if_elim
      (λ (s : FactSummary).
        contains (names s.differences) n
        ≡ (contains (m ∷ ns) n && not (is_shared (dict_at n values) ts)))
      (is_shared (dict_at m values) ts)
      (λ shared. ground (arith, summarise-differences values ts ns n))
      (λ differs. ground (arith, summarise-differences values ts ns n))

-- A fact of the name and the kinds is in the list.
abbrev pub is_mentioned : List Text → Text → List Fact → Bool
is_mentioned kinds n [] = false
is_mentioned kinds n (f ∷ facts) =
    contains kinds (to_lower f.kind) && n == f.name || is_mentioned kinds n facts

abbrev pub is_mentioned_by_some : List Text → Text → List Report → Bool
is_mentioned_by_some kinds n [] = false
is_mentioned_by_some kinds n (t ∷ ts) =
    is_mentioned kinds n t.facts || is_mentioned_by_some kinds n ts

keys-step :
    (kinds : List Text) (id n : Text) (f : Fact) (values : Dict Text (Dict Text FactValue))
    → contains (keys (step kinds id f values)) n
      ≡ (contains (keys values) n || contains kinds (to_lower f.kind) && n == f.name)
keys-step kinds id n f values = ground (
  arith,
  contains-keys-insert f.name (Dict.insert id (value_of f) (dict_at f.name values)) values n,
)

keys-collect_facts :
    (kinds : List Text) (id n : Text) (fs : List Fact) (values : Dict Text (Dict Text FactValue))
    → contains (keys (collect_facts kinds id fs values)) n
      ≡ (contains (keys values) n || is_mentioned kinds n fs)
unfolding collect_facts
keys-collect_facts kinds id n [] values = ground arith
keys-collect_facts kinds id n (f ∷ fs) values =
    keys-collect_facts kinds id n fs (step kinds id f values)
    ∙ ground (arith, keys-step kinds id n f values)

keys-values_by_name :
    (kinds : List Text) (n : Text) (ts : List Report) (values : Dict Text (Dict Text FactValue))
    → contains (keys (values_by_name kinds ts values)) n
      ≡ (contains (keys values) n || is_mentioned_by_some kinds n ts)
unfolding values_by_name
keys-values_by_name kinds n [] values = ground arith
keys-values_by_name kinds n (t ∷ ts) values =
    keys-values_by_name kinds n ts (collect_facts kinds t.id t.facts values)
    ∙ ground (arith, keys-collect_facts kinds t.id n t.facts values)

HasNone-empty : (n : Text) (ts : List Report) → HasNone n ts []
unfolding Dict.lookup
HasNone-empty n [] = tt
HasNone-empty n (t ∷ ts) = (refl, HasNone-empty n ts)

-- A name that is agreed on is mentioned.
last_value-mentioned :
    (kinds : List Text) (n : Text) (fs : List Fact) (o : Option FactValue)
    → is_observed (last_value kinds n fs o) ≡ true
    → (is_observed o || is_mentioned kinds n fs) ≡ true
last_value-mentioned kinds n [] o h = ground arith
last_value-mentioned kinds n (f ∷ fs) o h = ground (
  arith,
  last_value-mentioned kinds n fs
      (if contains kinds (to_lower f.kind) && n == f.name then some (value_of f) else o) h,
)

agreed-mentioned :
    (kinds : List Text) (n : Text) (t : Report) (ts : List Report)
    → is_agreed kinds n t ts ≡ true
    → is_mentioned_by_some kinds n (t ∷ ts) ≡ true
agreed-mentioned kinds n t ts h = ground (arith, last_value-mentioned kinds n t.facts none)

-- With distinct ids and at least one target, `mergeFacts` lists a name as shared exactly when
-- every target has a fact of it among the kinds, and the last value of each is the same.
pub merge_facts-shared :
    (kinds : List Text) (n : Text) (t : Report) (ts : List Report)
    → HasDistinctIds (t ∷ ts)
    → contains (merge_facts (t ∷ ts) kinds).shared n ≡ is_agreed kinds n t ts
unfolding merge_facts sorted_keys keys
merge_facts-shared kinds n t ts d =
    let values = values_by_name kinds (t ∷ ts) [] in
    summarise-shared values (t ∷ ts) (sort_by text_lt (keys values)) n
    ∙ rw
        (
          contains-sort_by text_lt (keys values) n,
          keys-values_by_name kinds n (t ∷ ts) [],
          is_shared-agreed kinds n (dict_at n values) t ts
              (values_by_name-own kinds (t ∷ ts) n [] d (HasNone-empty n (t ∷ ts))),
        )
        (restrict (is_mentioned_by_some kinds n (t ∷ ts)) (is_agreed kinds n t ts)
          (agreed-mentioned kinds n t ts))
  where
    restrict : (a b : Bool) → (b ≡ true → a ≡ true) → ((false || a) && b) ≡ b
    restrict a b k = ground (arith, k)

-- With distinct ids and at least one target, `mergeFacts` lists a name among the differences
-- exactly when some target has a fact of it among the kinds and the targets do not agree on it.
pub merge_facts-differences :
    (kinds : List Text) (n : Text) (t : Report) (ts : List Report)
    → HasDistinctIds (t ∷ ts)
    → contains (names (merge_facts (t ∷ ts) kinds).differences) n
      ≡ (is_mentioned_by_some kinds n (t ∷ ts) && not (is_agreed kinds n t ts))
unfolding merge_facts sorted_keys keys
merge_facts-differences kinds n t ts d =
    let values = values_by_name kinds (t ∷ ts) [] in
    summarise-differences values (t ∷ ts) (sort_by text_lt (keys values)) n
    ∙ rw
        (
          contains-sort_by text_lt (keys values) n,
          keys-values_by_name kinds n (t ∷ ts) [],
          is_shared-agreed kinds n (dict_at n values) t ts
              (values_by_name-own kinds (t ∷ ts) n [] d (HasNone-empty n (t ∷ ts))),
        )
        (ground arith)
