-- ===== src/Validator/Matrix/Files/Split.antt =====
-- Where `mergeFiles` of internal/validator/matrix.go puts each path.
use wowdoc.Base.{
  ◌≡◌, refl, ◌∙◌, ap, inl, inr, arith, Bool, true, false, not, ◌&&◌, ◌||◌, List, [], ◌∷◌, ◌++◌,
  Text, All, All-map, All-zip,
}
use wowdoc.Base.{◌==◌, text_eq, contains, if_elim, Bool-cases}
use wowdoc.Base.Dict
use wowdoc.Base.Dict.{Dict, lookup-insert}
use wowdoc.Base.Members.{contains-append, contains-sort_by}
use wowdoc.Base.Sort.{sort_by, text_lt}
use wowdoc.Validator.Types.{Report}
use wowdoc.Validator.Matrix.Targets.{distinct, empty_for, ids, HasDistinctIds}
use wowdoc.Validator.Matrix.Files.{
  paths_of, paths_at, files_by_target, all_paths, in_all, add_path, split_paths, merge_files,
}

contains-distinct : (xs : List Text) (a : Text) → contains (distinct xs) a ≡ contains xs a
unfolding distinct
contains-distinct [] a = refl
contains-distinct (x ∷ xs) a = elim (Bool-cases (contains (distinct xs) x)) [
  | inl seen ↦ rw seen (ground (arith, contains-distinct xs a))
  | inr fresh ↦ rw fresh (ground (arith, contains-distinct xs a))
]

-- Every target loads the path.
abbrev pub is_everywhere : List Report → Text → Bool
is_everywhere [] p = true
is_everywhere (t ∷ ts) p = contains (paths_of t) p && is_everywhere ts p

files_by_target-other :
    (ts : List Report) (files : Dict Text (List Text)) (id : Text)
    → contains (ids ts) id ≡ false
    → Dict.lookup id (files_by_target ts files) ≡ Dict.lookup id files
unfolding files_by_target
files_by_target-other [] files id h = refl
files_by_target-other (t ∷ ts) files id h = ground (
  arith,
  files_by_target-other ts (Dict.insert t.id (paths_of t) files) id,
  lookup-insert id t.id (paths_of t) files,
)

-- The map has each target's own paths.
files_by_target-own :
    (ts : List Report) (files : Dict Text (List Text))
    → HasDistinctIds ts
    → All (λ t. paths_at t.id (files_by_target ts files) ≡ paths_of t) ts
unfolding files_by_target
files_by_target-own [] files h = tt
files_by_target-own (t ∷ ts) files h = (
  ground (
    arith,
    files_by_target-other ts (Dict.insert t.id (paths_of t) files) t.id,
    lookup-insert t.id t.id (paths_of t) files,
  ),
  files_by_target-own ts (Dict.insert t.id (paths_of t) files) h.1,
)

in_all-everywhere :
    (files : Dict Text (List Text)) (ts : List Report) (p : Text)
    → All (λ t. paths_at t.id files ≡ paths_of t) ts
    → in_all files ts p ≡ is_everywhere ts p
unfolding in_all
in_all-everywhere files [] p h = refl
in_all-everywhere files (t ∷ ts) p h =
    rw (h.0) (ap (λ b. contains (paths_of t) p && b) (in_all-everywhere files ts p h.1))

split_paths-shared :
    (files : Dict Text (List Text)) (ts : List Report) (ps shared : List Text)
    (only : Dict Text (List Text)) (p : Text)
    → contains (split_paths files ts ps (shared, only)).0 p
      ≡ (contains shared p || contains ps p && in_all files ts p)
unfolding split_paths
split_paths-shared files ts [] shared only p = ground arith
split_paths-shared files ts (q ∷ ps) shared only p =
    if_elim
      (λ o.
        contains (split_paths files ts ps o).0 p
        ≡ (contains shared p || contains (q ∷ ps) p && in_all files ts p))
      (in_all files ts q)
      (λ all. ground (
        arith,
        split_paths-shared files ts ps (shared ++ q ∷ []) only p,
        contains-append shared (q ∷ []) p,
      ))
      (λ some_lack.
        ground (arith, split_paths-shared files ts ps shared (add_path files ts q only) p))

add_path-adds :
    (files : Dict Text (List Text)) (ts : List Report) (q : Text) (out : Dict Text (List Text))
    (id p : Text)
    → contains (paths_at id (add_path files ts q out)) p ≡ (
        contains (paths_at id out) p
        || p == q && contains (ids ts) id && contains (paths_at id files) q)
unfolding add_path
add_path-adds files [] q out id p = ground arith
add_path-adds files (t ∷ ts) q out id p = elim (Bool-cases (contains (paths_at t.id files) q)) [
  | inl has ↦ rw has (
      ground (
        arith,
        add_path-adds files ts q (Dict.insert t.id (paths_at t.id out ++ q ∷ []) out) id p,
        lookup-insert id t.id (paths_at t.id out ++ q ∷ []) out,
        contains-append (paths_at t.id out) (q ∷ []) p,
      ))
  | inr lacks ↦ rw lacks (ground (arith, add_path-adds files ts q out id p))
]

split_paths-only :
    (files : Dict Text (List Text)) (ts : List Report) (ps shared : List Text)
    (only : Dict Text (List Text)) (id p : Text)
    → contains (ids ts) id ≡ true
    → contains (paths_at id (split_paths files ts ps (shared, only)).1) p ≡ (
        contains (paths_at id only) p
        || contains ps p && contains (paths_at id files) p && not (in_all files ts p))
unfolding split_paths
split_paths-only files ts [] shared only id p h = ground arith
split_paths-only files ts (q ∷ ps) shared only id p h =
    if_elim
      (λ o. contains (paths_at id (split_paths files ts ps o).1) p ≡ (
        contains (paths_at id only) p
        || contains (q ∷ ps) p && contains (paths_at id files) p && not (in_all files ts p)))
      (in_all files ts q)
      (λ all. ground (arith, split_paths-only files ts ps (shared ++ q ∷ []) only id p h))
      (λ some_lack. ground (
        arith,
        split_paths-only files ts ps shared (add_path files ts q only) id p h,
        add_path-adds files ts q only id p,
      ))

abbrev no_paths : List Text
no_paths = []

empty_for-empty : (ts : List Report) (id : Text) → paths_at id (empty_for ts) ≡ []
unfolding empty_for Dict.lookup
empty_for-empty [] id = refl
empty_for-empty (t ∷ ts) id =
    ground (arith, empty_for-empty ts id, lookup-insert id t.id no_paths (empty_for ts))

all_paths-has :
    (ts : List Report) (t : Report) (p : Text)
    → contains (paths_of t) p ≡ true
    → contains (all_paths (t ∷ ts)) p ≡ true
unfolding all_paths
all_paths-has ts t p h = ground (arith, contains-append (paths_of t) (all_paths ts) p)

all_paths-member :
    (ts : List Report) (p : Text)
    → All (λ t. contains (paths_of t) p ≡ true → contains (all_paths ts) p ≡ true) ts
unfolding all_paths
all_paths-member [] p = tt
all_paths-member (t ∷ ts) p = (
  λ h. all_paths-has ts t p h,
  All-map (λ u k h. ground (arith, contains-append (paths_of t) (all_paths ts) p, k h)) ts
      (all_paths-member ts p),
)

sorted_paths :
    (ts : List Report) (p : Text)
    → contains (sort_by text_lt (distinct (all_paths ts))) p ≡ contains (all_paths ts) p
sorted_paths ts p =
    contains-sort_by text_lt (distinct (all_paths ts)) p ∙ contains-distinct (all_paths ts) p

-- With distinct ids and at least one target, `mergeFiles` lists a path as shared exactly when
-- every target loads it.
pub merge_files-shared :
    (t : Report) (ts : List Report) (p : Text)
    → HasDistinctIds (t ∷ ts)
    → contains (merge_files (t ∷ ts)).0 p ≡ is_everywhere (t ∷ ts) p
unfolding merge_files
merge_files-shared t ts p h =
    let files = files_by_target (t ∷ ts) [] in
    let own = files_by_target-own (t ∷ ts) [] h in
    split_paths-shared files (t ∷ ts) (sort_by text_lt (distinct (all_paths (t ∷ ts)))) []
      (empty_for (t ∷ ts)) p
    ∙ ground (
      arith,
      sorted_paths (t ∷ ts) p,
      in_all-everywhere files (t ∷ ts) p own,
      all_paths-has ts t p,
    )

ids-member : (ts : List Report) → All (λ t. contains (ids ts) t.id ≡ true) ts
ids-member [] = tt
ids-member (t ∷ ts) = (ground arith, All-map (λ u k. ground (arith, k)) ts (ids-member ts))

only_of :
    (t : Report) (ts : List Report) (p : Text)
    → HasDistinctIds (t ∷ ts)
    → (u : Report) → contains (ids (t ∷ ts)) u.id ≡ true
    → paths_at u.id (files_by_target (t ∷ ts) []) ≡ paths_of u
    → (contains (paths_of u) p ≡ true → contains (all_paths (t ∷ ts)) p ≡ true)
    → contains (paths_at u.id (merge_files (t ∷ ts)).1) p
      ≡ (contains (paths_of u) p && not (is_everywhere (t ∷ ts) p))
unfolding merge_files
only_of t ts p h u listed own has =
    let files = files_by_target (t ∷ ts) [] in
    let sorted = sort_by text_lt (distinct (all_paths (t ∷ ts))) in
    split_paths-only files (t ∷ ts) sorted [] (empty_for (t ∷ ts)) u.id p listed
    ∙ rw
        (
          empty_for-empty (t ∷ ts) u.id,
          sorted_paths (t ∷ ts) p,
          own,
          in_all-everywhere files (t ∷ ts) p (files_by_target-own (t ∷ ts) [] h),
        )
        (restrict (contains (all_paths (t ∷ ts)) p) (contains (paths_of u) p)
          (is_everywhere (t ∷ ts) p) has)
  where
    restrict : (a b c : Bool) → (b ≡ true → a ≡ true) → (a && b && not c) ≡ (b && not c)
    restrict a b c k = ground (arith, k)

-- With distinct ids, `mergeFiles` lists a path under a target exactly when that target loads it
-- and not every target does.
pub merge_files-only :
    (ts : List Report) (p : Text)
    → HasDistinctIds ts
    → All
        (λ t.
          contains (paths_at t.id (merge_files ts).1) p
          ≡ (contains (paths_of t) p && not (is_everywhere ts p)))
        ts
merge_files-only [] p h = tt
merge_files-only (t ∷ ts) p h =
    All-map (λ u k. only_of t ts p h u k.0 (k.1.0) (k.1.1)) (t ∷ ts)
      (All-zip _ _ (t ∷ ts) (ids-member (t ∷ ts))
        (All-zip _ _ (t ∷ ts) (files_by_target-own (t ∷ ts) [] h) (all_paths-member (t ∷ ts) p)))
