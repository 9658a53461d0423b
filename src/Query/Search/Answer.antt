-- ===== src/Query/Search/Answer.antt =====
-- The results of a search, internal/query/search.go: how many, which, and in what order.
use wowdoc.Base.{
  ℕ, ◌≤◌, ◌<◌, ◌≡◌, ap, sym, subst, ◌∙◌, Bool, true, false, List, [], ◌∷◌, ◌++◌, Text,
}
use wowdoc.Base.{◌==◌, text_eq, contains, length, length-append, ok, All, All-map}
use wowdoc.Base.{All-append, arith}
use wowdoc.Base.{some}
use wowdoc.Base.Int.{int_lt}
use wowdoc.Base.Sort.{IsSorted}
use wowdoc.Query.Types.{Candidate, Match, Db}
use wowdoc.Query.Tiers.{score, higher}
use wowdoc.Query.Search.{Kept, placed, site_key, visit, choose, match_of}
use wowdoc.Query.Search.Choice.{key_of, keep, visit-IsKept, placed-IsPlaced, choose_inv}

abbrev pub match_key : Match → Text
match_key m = site_key m.path m.line m.name

abbrev pub better : Match → Match → Bool
better a b = int_lt b.score a.score

-- Pairwise, the earlier with the later.
module _ (R : Match → Match → Type 0) where
  abbrev pub Pairwise : List Match → Type 0
  Pairwise [] = Unit
  Pairwise (m ∷ ms) = All (R m) ms × Pairwise ms

  Pairwise-append_one :
      (ms : List Match) (n : Match) → Pairwise ms → All (λ m. R m n) ms → Pairwise (ms ++ n ∷ [])
  Pairwise-append_one [] n h k = (tt, tt)
  Pairwise-append_one (m ∷ ms) n h k =
      (All-append (R m) ms (n ∷ []) h.0 (k.0, tt), Pairwise-append_one ms n h.1 k.1)

-- The matches of an answer: within the limit, no two of one name on one line of one file, and in
-- the order of their scores.
pub record IsAnswer (limit : ℕ) (ms : List Match) : Type 0 where
  pub bounded : length ms ≤ limit
  pub distinct : Pairwise (λ m n. (match_key n == match_key m) ≡ false) ms
  pub sorted : Pairwise (λ m n. better n m ≡ false) ms

contains-ne :
    (seen : List Text) (a b : Text)
    → contains seen a ≡ true
    → contains seen b ≡ false
    → (b == a) ≡ false
contains-ne seen a b h k = elim (text_eq.dec b a) [
  | yes same ↦ absurd (cc)
  | no differ ↦ ground arith
]

-- What holds of the kept matches, and of them with the candidates that are left.
record IsFair (limit : ℕ) (cs : List Candidate) (k : Kept) : Type 0 where
  bounded : length k.results ≤ limit
  distinct : Pairwise (λ m n. (match_key n == match_key m) ≡ false) k.results
  known : All (λ m. contains k.seen (match_key m) ≡ true) k.results
  sorted : Pairwise (λ m n. better n m ≡ false) k.results
  above : All (λ m. All (λ c. int_lt m.score (score c) ≡ false) cs) k.results
  descending : IsSorted higher cs

IsFair-skip :
    (limit : ℕ) (c : Candidate) (cs : List Candidate) (k : Kept)
    → IsFair limit (c ∷ cs) k
    → IsFair limit cs k
IsFair-skip limit c cs k f = record {
  bounded = f.bounded;
  distinct = f.distinct;
  known = f.known;
  sorted = f.sorted;
  above = All-map (λ m h. h.1) k.results f.above;
  descending = f.descending.1;
}

IsFair-keep :
    (limit : ℕ) (c : Candidate) (line : ℕ) (text : Text × Text) (cs : List Candidate) (k : Kept)
    → IsFair limit (c ∷ cs) k
    → length k.results < limit
    → contains k.seen (key_of (record c { line = line })) ≡ false
    → IsFair limit cs (keep (record c { line = line }) text k)
IsFair-keep limit c line text cs k f short fresh =
    let new = match_of (record c { line = line }) text in
    record {
      bounded = omega (arith, length-append k.results (new ∷ []));
      distinct =
          Pairwise-append_one (λ m n. (match_key n == match_key m) ≡ false) k.results new f.distinct
            (All-map (λ m h. contains-ne k.seen (match_key m) (match_key new) h fresh) k.results
              f.known);
      known =
          All-append (λ m. contains (match_key new ∷ k.seen) (match_key m) ≡ true) k.results
            (new ∷ []) (All-map (λ m h. ground arith) k.results f.known) (ground arith, tt);
      sorted =
          Pairwise-append_one (λ m n. better n m ≡ false) k.results new f.sorted
            (All-map (λ m h. h.0) k.results f.above);
      above =
          All-append (λ m. All (λ d. int_lt m.score (score d) ≡ false) cs) k.results (new ∷ [])
            (All-map (λ m h. h.1) k.results f.above) (f.descending.0, tt);
      descending = f.descending.1;
    }

module _ (db : Db) (text : Text) (limit : ℕ) where
  IsFair-step :
      (c c' : Candidate) (cs : List Candidate) (k k' : Kept)
      → IsFair limit (c ∷ cs) k
      → length k.results < limit
      → placed db text c ≡ ok c'
      → visit db c' k ≡ ok (some k')
      → IsFair limit cs k'
  IsFair-step c c' cs k k' f short placed_at visited =
      let (line, same) = placed-IsPlaced db text c c' placed_at in
      let (fresh, (shown, kept)) = visit-IsKept db c' k k' visited in
      subst (IsFair limit cs) (sym (kept ∙ ap (λ d. keep d shown k) same)) (
        IsFair-keep limit c line shown cs k f short
          (subst (λ d. contains k.seen (key_of d) ≡ false) same fresh))

  -- What the loop answers from candidates in descending order.
  pub choose-IsAnswer :
      (cs : List Candidate) (r : List Match)
      → 0 < limit
      → IsSorted higher cs
      → choose db text limit cs (record { seen = []; seen_lines = []; results = [] }) ≡ ok r
      → IsAnswer limit r
  choose-IsAnswer cs r some_room descending h =
      let (cs', k', f, same) =
        choose_inv db text limit (IsFair limit) (IsFair-skip limit) IsFair-step cs _ r
          (record {
            bounded = omega arith;
            distinct = tt;
            known = tt;
            sorted = tt;
            above = tt;
            descending = descending;
          })
          some_room h in
      subst (IsAnswer limit) (sym same)
        (record { bounded = f.bounded; distinct = f.distinct; sorted = f.sorted })
