-- ===== src/Query/Compat.antt =====
-- The evidence for an AddOn's references, internal/query/compat.go. The rows that the SQL selects
-- from one immutable snapshot are a parameter.
pub mod Settled
pub mod Keys
pub mod Uncached
pub mod Types
pub mod Matching
use wowdoc.Base.{
  ℕ, ◌+◌, Bool, true, false, not, ◌&&◌, ◌||◌, Option, none, some, List, [], ◌∷◌, ◌++◌, Text, codes,
}
use wowdoc.Base.{
  Eq, ◌==◌, text_eq, contains, ltb, length, take, drop, if◌then◌else◌, Result, ok, err, ◌>>=◌, ◌>>◌,
}
use wowdoc.Base.Dict
use wowdoc.Base.Dict.{Dict}
use wowdoc.Base.Sort.{sort_by, text_lt}
use wowdoc.Strings.{trim_space, to_lower, equal_fold, split}
use wowdoc.Catalog.{is_game_source}
use wowdoc.Query.Compat.Types.{
  Context, Evidence, Fact, Match, Snapshot, Unresolved, Usage, Value, flag, matches, number, site,
  text,
}
use wowdoc.Query.Compat.Matching.{
  any_part, base_evidence, compatibility_matches, evidence_limit, fact_of, interface_value_matches,
  is_empty, match_lt, normalize_kind, normalize_lower, settled, unresolved_usage, with_build,
}

-- `compatibilityResolver.cache`. The slice of an entry is the one that is sorted in place.
abbrev pub Cache : Type 0
Cache = Dict Text (List Match × Bool)

abbrev pub cache_key : Text → Text → Text
cache_key kind name = kind ++ (0 ∷ name)

-- The resolution of a reference: the cached one, or the snapshot's.
abbrev pub resolution :
    Snapshot → Context → Text → Text → Option (List Match × Bool) → Result Text (List Match × Bool)
resolution db ctx kind name (some r) = ok r
resolution db ctx kind name none = compatibility_matches db ctx kind name

-- `compatibilityResolver.lookup`
unfoldable pub lookup :
    Snapshot → Context → Usage → Text → Cache → Result Text (Option Fact × Cache)
lookup db ctx u kind cache =
    let name = trim_space u.name in
    resolution db ctx kind name (Dict.lookup (cache_key kind name) cache) >>= λ r.
    ok (fact_of ctx u kind name r, Dict.insert (cache_key kind name) (settled r.0, r.1) cache)

-- What `LookupCompatibility` has gathered.
pub record Gathered : Type 0 where
  pub facts : List Fact
  pub unresolved : List Unresolved

abbrev pub add_unresolved : Unresolved → Gathered → Gathered
add_unresolved x g = record g { unresolved = g.unresolved ++ x ∷ [] }

-- What the loop does with the answer for a usage.
abbrev pub add_answer : Context → Usage → Option Fact → Gathered → Gathered
add_answer ctx u none g =
    add_unresolved
      (unresolved_usage ctx u
        (codes "the indexed snapshot cannot prove presence or absence for this reference"))
      g
add_answer ctx u (some f) g =
    if equal_fold (trim_space u.kind) (codes "api-candidate") && not f.exists
    then add_unresolved
        (unresolved_usage ctx u
          (codes "the call is not an indexed API and may be an AddOn-defined global"))
        g
    else record g { facts = g.facts ++ f ∷ [] }

-- One round of the loop over the usages.
unfoldable pub step : Snapshot → Context → Usage → Gathered × Cache → Result Text (Gathered × Cache)
step db ctx u (g, cache) =
    if normalize_kind u.kind == []
    then ok (
      add_unresolved (unresolved_usage ctx u (codes "unsupported compatibility evidence kind")) g,
      cache,
    )
    else if trim_space u.name == []
    then ok (
      add_unresolved
          (unresolved_usage ctx u
            (codes "dynamic or empty reference cannot be resolved statically"))
          g,
      cache,
    )
    else (lookup db ctx u (normalize_kind u.kind) cache >>= λ o. ok (add_answer ctx u o.0 g, o.1))

unfoldable pub steps :
    Snapshot → Context → List Usage → Gathered × Cache → Result Text (Gathered × Cache)
unfolding step
steps db ctx [] s = ok s
steps db ctx (u ∷ us) s = step db ctx u s >>= λ s'. steps db ctx us s'

-- `interfaceSeen`
unfoldable pub interface_seen : Text → List Usage → Bool
interface_seen value [] = false
interface_seen value (u ∷ us) =
    normalize_kind u.kind == codes "interface" && trim_space u.name == trim_space value
    || interface_seen value us

abbrev interface_usage : Text → Usage
interface_usage value = record {
  kind = codes "interface";
  name = value;
  expression = value;
  file = [];
  line = 0;
  column = 0;
}

abbrev add_interface : Context → Text → Option Fact → Gathered → Gathered
add_interface ctx value none g =
    add_unresolved
      (unresolved_usage ctx (interface_usage value)
        (codes "the indexed snapshot has no authoritative Interface evidence"))
      g
add_interface ctx value (some f) g = record g { facts = g.facts ++ f ∷ [] }

-- The declared interface, where no usage has named it.
unfoldable pub with_interface :
    Snapshot → Context → List Usage → Text → Gathered × Cache → Result Text Gathered
with_interface db ctx us value (g, cache) =
    if not (trim_space value == []) && not (interface_seen value us)
    then (lookup db ctx (interface_usage (trim_space value)) (codes "interface") cache >>= λ o.
        ok (add_interface ctx (trim_space value) o.0 g))
    else ok g

-- `LookupCompatibility`
unfoldable pub lookup_compatibility : Snapshot → Context → List Usage → Text → Result Text Gathered
lookup_compatibility db ctx us value =
    db.ready
    >> (steps db ctx us (record { facts = []; unresolved = [] }, []) >>= λ s.
        with_interface db ctx us value s)
