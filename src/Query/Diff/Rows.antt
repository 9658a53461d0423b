-- ===== src/Query/Diff/Rows.antt =====
-- The values that the rows of a snapshot give to keys, for `Diff` of internal/query/query.go.
use wowdoc.Base.{◌≡◌, refl, ap, ◌∙◌, ◌≢◌, ◌↔◌, ◌⊎◌, inl, inr, none, some, List, [], ◌∷◌, ◌++◌}
use wowdoc.Base.{Text, text_eq, arith, All}
use wowdoc.Base.Dict.{Dict, lookup, insert, lookup-insert}
use wowdoc.Query.Diff.{load}

-- No row has the key.
abbrev pub IsAbsent : List (Text × Text) → Text → Type 0
IsAbsent rows k = All (λ r. r.0 ≢ k) rows

-- The last row that has the key has the value.
abbrev pub IsLastOf : List (Text × Text) → Text → Text → Type 0
IsLastOf rows k v =
    (before after : List (Text × Text)) × (rows ≡ before ++ (k, v) ∷ after) × IsAbsent after k

load-absent :
    (m : Dict Text Text) (rows : List (Text × Text)) (k : Text)
    → IsAbsent rows k
    → lookup k (load m rows) ≡ lookup k m
unfolding load
load-absent m [] k h = refl
load-absent m ((j, w) ∷ rows) k (differ, h) =
    load-absent (insert j w m) rows k h ∙ lookup-insert k j w m ∙ ground arith

load-last :
    (m : Dict Text Text) (before after : List (Text × Text)) (k v : Text)
    → IsAbsent after k
    → lookup k (load m (before ++ (k, v) ∷ after)) ≡ some v
unfolding load
load-last m [] after k v h =
    load-absent (insert k v m) after k h ∙ lookup-insert k k v m ∙ ground arith
load-last m ((j, w) ∷ before) after k v h = load-last (insert j w m) before after k v h

last_row :
    (rows : List (Text × Text)) (k : Text) → IsAbsent rows k ⊎ ((v : Text) × IsLastOf rows k v)
last_row [] k = inl tt
last_row ((j, w) ∷ rows) k = elim (last_row rows k) [
  | inr (v, (before, after, split_at, h)) ↦
      inr (v, ((j, w) ∷ before, after, ap (λ l. (j, w) ∷ l) split_at, h))
  | inl absent ↦ elim (text_eq.dec j k) [
    | yes same ↦ inr (w, ([], rows, ap (λ (i : Text). (i, w) ∷ rows) same, absent))
    | no differ ↦ inl (differ, absent)
  ]
]

pub load-IsAbsent :
    (rows : List (Text × Text)) (k : Text) → (lookup k (load [] rows) ≡ none) ↔ IsAbsent rows k
unfolding lookup
load-IsAbsent rows k = (
  λ gone. elim (last_row rows k) [
    | inl absent ↦ absent
    | inr (v, (before, after, split_at, h)) ↦
        let found = load-last [] before after k v h in absurd (cc)
  ],
  load-absent [] rows k,
)

pub load-IsLastOf :
    (rows : List (Text × Text)) (k v : Text)
    → (lookup k (load [] rows) ≡ some v) ↔ IsLastOf rows k v
unfolding lookup
load-IsLastOf rows k v = (
  λ there. elim (last_row rows k) [
    | inl absent ↦ let gone = load-absent [] rows k absent in absurd (cc)
    | inr (w, (before, after, split_at, h)) ↦
        let found = load-last [] before after k w h in
        let same : w ≡ v = cc in
        (before, after, split_at ∙ ap (λ u. before ++ (k, u) ∷ after) same, h)
  ],
  λ (before, after, split_at, h).
      ap (λ l. lookup k (load [] l)) split_at ∙ load-last [] before after k v h,
)
