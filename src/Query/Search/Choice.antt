-- ===== src/Query/Search/Choice.antt =====
-- The loop over the candidates of internal/query/search.go: its rounds, and its invariants.
use wowdoc.Base.{ℕ, ◌<◌, ◌≡◌, false, ◌&&◌, Option, none, some, List, []}
use wowdoc.Base.{◌∷◌, ◌++◌, Text, codes, ◌==◌, text_eq, contains, leb, length, Result, ok, arith}
use wowdoc.Base.{if◌then◌else◌, if_elim, first_value, eqb}
use wowdoc.Query.Excerpt.{source_match_line}
use wowdoc.Results.{Failure}
use wowdoc.Query.Types.{Candidate, Match, Db}
use wowdoc.Query.Search.{
  Kept, placed, location, site_key, shown_text, match_of, visit, choose, is_repeated,
}

abbrev pub key_of : Candidate → Text
key_of c = site_key c.path c.line c.name

-- What a round keeps of a candidate whose text is shown.
abbrev pub keep : Candidate → Text × Text → Kept → Kept
keep c text k = record {
  seen = key_of c ∷ k.seen;
  seen_lines = location c.path c.line ∷ k.seen_lines;
  results = k.results ++ match_of c text ∷ [];
}

abbrev pub IsKept : Candidate → Kept → Kept → Type 0
IsKept c k k' = (contains k.seen (key_of c) ≡ false) × ((text : Text × Text) × (k' ≡ keep c text k))

-- A candidate that is kept is a new one, and its match is appended.
pub visit-IsKept :
    (db : Db) (c : Candidate) (k k' : Kept) → visit db c k ≡ ok (some k') → IsKept c k k'
unfolding visit
visit-IsKept db c k k' =
    if_elim (λ r. r ≡ ok (some k') → IsKept c k k') (is_repeated c k) (λ repeated h. absurd (cc))
      (λ fresh h.
        let (text, e, same) = first_value (shown_text db c) _ h in (ground arith, (text, cc)))

abbrev pub IsPlaced : Candidate → Candidate → Type 0
IsPlaced c c' = (line : ℕ) × (c' ≡ record c { line = line })

-- Placing a candidate changes its line only.
pub placed-IsPlaced :
    (db : Db) (text : Text) (c c' : Candidate) → placed db text c ≡ ok c' → IsPlaced c c'
unfolding placed
placed-IsPlaced db text c c' =
    if_elim (λ r. r ≡ ok c' → IsPlaced c c') (c.kind == codes "source" && eqb c.line 0)
      (λ unplaced h.
        let (line, e, same) = first_value (source_match_line db c.path text) _ h in (line, cc))
      (λ at_line h. (c.line, cc))

module _ (db : Db) (text : Text) (limit : ℕ) (P : List Candidate → Kept → Type 0)
    (skip : (c : Candidate) (cs : List Candidate) (k : Kept) → P (c ∷ cs) k → P cs k)
    (step : (c c' : Candidate) (cs : List Candidate) (k k' : Kept)
      → P (c ∷ cs) k
      → length k.results < limit
      → placed db text c ≡ ok c'
      → visit db c' k ≡ ok (some k')
      → P cs k') where
  -- What the loop does after a round.
  abbrev after : List Candidate → Kept → Option Kept → Result Failure (List Match)
  after cs k none = choose db text limit cs k
  after cs k (some k') =
      if leb limit (length k'.results) then ok k'.results else choose db text limit cs k'

  abbrev Reached : List Match → Type 0
  Reached r = (cs' : List Candidate) × (k' : Kept) × P cs' k' × (r ≡ k'.results)

  pub choose_inv :
      (cs : List Candidate) (k : Kept) (r : List Match)
      → P cs k
      → length k.results < limit
      → choose db text limit cs k ≡ ok r
      → Reached r
  unfolding choose
  choose_inv [] k r p short h = ([], k, p, cc)
  choose_inv (c ∷ cs) k r p short h =
      let (c', placed_at, h') = first_value (placed db text c) _ h in
      let (visited, e, h'') = first_value (visit db c' k) _ h' in
      elim visited
          as (λ (v : Option Kept). visit db c' k ≡ ok v → after cs k v ≡ ok r → Reached r) [
            | none ↦ λ e h''. choose_inv cs k r (skip c cs k p) short h''
            | some k' ↦ λ e h''.
                let p' = step c c' cs k k' p short placed_at e in
                if_elim (λ x. x ≡ ok r → Reached r) (leb limit (length k'.results))
                  (λ full h3. (cs, k', p', cc)) (λ room h3. choose_inv cs k' r p' (ground arith) h3)
                  h''
          ]
        e h''
