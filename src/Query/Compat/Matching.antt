-- ===== src/Query/Compat/Matching.antt =====
-- The matches of one reference and the fact that they make, internal/query/compat.go.
use wowdoc.Base.{
  ℕ, Bool, true, false, not, ◌&&◌, ◌||◌, Option, none, some, List, [], ◌∷◌, ◌++◌, Text, codes,
}
use wowdoc.Base.{◌==◌, text_eq, contains, ltb, length, take, drop, if◌then◌else◌, Result, ok, ◌>>=◌}
use wowdoc.Base.Sort.{sort_by, text_lt}
use wowdoc.Strings.{trim_space, to_lower, split}
use wowdoc.Catalog.{is_game_source}
use wowdoc.Query.Compat.Types.{
  Context, Evidence, Fact, Match, Snapshot, Unresolved, Usage, flag, matches, number, site, text,
}

-- `normalizeCompatibilityKind`
unfoldable pub normalize_lower : Text → Text
normalize_lower kind =
    if contains (codes "api" ∷ codes "api-candidate" ∷ codes "function" ∷ []) kind
    then codes "api"
    else if kind == codes "event"
    then codes "event"
    else if contains (codes "template" ∷ codes "xml-template" ∷ []) kind
    then codes "template"
    else if kind == codes "mixin"
    then codes "mixin"
    else if contains (codes "frame-type" ∷ codes "frametype" ∷ codes "frame" ∷ []) kind
    then codes "frame-type"
    else if kind == codes "interface"
    then codes "interface"
    else []

unfoldable pub normalize_kind : Text → Text
normalize_kind kind = normalize_lower (to_lower (trim_space kind))

-- `interfaceValueMatches`
unfoldable pub any_part : List Text → Text → Bool
any_part [] build = false
any_part (part ∷ parts) build = trim_space part == build || any_part parts build

unfoldable pub interface_value_matches : Text → Text → Bool
unfolding any_part
interface_value_matches name build = any_part (split b',' name) build

abbrev version_match : Text → Match
version_match build = record {
  path = codes "version.txt";
  role = [];
  signature = build;
  detail = codes "Interface";
  line = 1;
}

abbrev pub is_empty : List Match → Bool
is_empty [] = true
is_empty (m ∷ ms) = false

-- The build interface of a game source, where the snapshot has one.
unfoldable pub with_build : Text → Text → List Match × Bool → List Match × Bool
with_build build name (ms, known) =
    if build == []
    then (ms, known)
    else if is_empty ms && interface_value_matches name build
    then (version_match build ∷ [], true)
    else (ms, true)

-- `compatibilityMatches`, for a kind that it knows.
unfoldable pub compatibility_matches :
    Snapshot → Context → Text → Text → Result Text (List Match × Bool)
compatibility_matches db ctx kind name = db.select kind name >>= λ ms. db.category kind >>= λ known.
    ok (
      if kind == codes "interface" && is_game_source ctx.source_id
      then with_build (trim_space db.build_interface) name (ms, known)
      else (ms, known))

-- `compatibilityBaseEvidence`
unfoldable pub base_evidence : Context → Usage → Evidence
base_evidence ctx u =
    (codes "sourceId", text ctx.source_id)
    ∷ (codes "product", text ctx.product_id)
    ∷ (codes "requestedRef", text ctx.requested_ref)
    ∷ (codes "matchedTag", text ctx.matched_tag)
    ∷ (codes "resolvedCommit", text ctx.commit)
    ∷ (codes "snapshotId", text ctx.snapshot_id)
    ∷ (if u.file == [] then [] else (codes "usage", site u.file u.line u.column) ∷ [])

-- `unresolvedUsage`
unfoldable pub unresolved_usage : Context → Usage → Text → Unresolved
unresolved_usage ctx u reason = record {
  kind = u.kind;
  expression = if trim_space u.expression == [] then trim_space u.name else trim_space u.expression;
  file = u.file;
  line = u.line;
  column = u.column;
  reason = reason;
  evidence = base_evidence ctx u;
}

-- The order of `compatibilityMatchEvidence`.
abbrev pub match_lt : Match → Match → Bool
match_lt a b = if not (a.path == b.path) then text_lt a.path b.path else ltb a.line b.line

-- `evidenceLimit`
abbrev pub evidence_limit : ℕ
evidence_limit = 5

-- The slice after `compatibilityMatchEvidence` has sorted its first elements in place.
unfoldable pub settled : List Match → List Match
settled ms = sort_by match_lt (take evidence_limit ms) ++ drop evidence_limit ms

abbrev first_signature : List Match → Text
first_signature [] = []
first_signature (m ∷ ms) = m.signature

-- The fact for a reference with these matches, `none` where the snapshot proves nothing.
unfoldable pub fact_of : Context → Usage → Text → Text → List Match × Bool → Option Fact
fact_of ctx u kind name (ms, known) =
    if is_empty ms && (not known || kind == codes "mixin" || kind == codes "frame-type")
    then none
    else some (record {
      kind = kind;
      name = name;
      exists = not (is_empty ms);
      signature = first_signature (settled ms);
      evidence =
          base_evidence ctx u
          ++ ((codes "matchCount", number (length ms))
              ∷ (codes "matchesTruncated", flag (ltb evidence_limit (length ms)))
              ∷ (codes "matches", matches (sort_by match_lt (take evidence_limit ms)))
              ∷ (if is_empty ms then (codes "categoryPresent", flag true) ∷ [] else []));
    })
