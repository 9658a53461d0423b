-- ===== src/Branch/Snapshot/Files.antt =====
-- The rows that the loop over the files in `Publish` of internal/store/branch.go inserts.
use wowdoc.Base.{ℕ, zero, suc, ◌≡◌, refl, ap, ◌≢◌, ◌∙◌, ◌⊎◌, inl, inr, Option, none, some}
use wowdoc.Base.{List, [], ◌∷◌, Text, All, Any, ◌==◌, text_eq, ok, first_value, required, arith}
use wowdoc.Base.{if◌then◌else◌}
use wowdoc.Base.Dict.{Dict, lookup, insert, lookup-insert_self, lookup-insert_ne}
use wowdoc.Results.{Failure}
use wowdoc.Branch.Types.{FileFact, PathKey, FileRow, path_key_eq}
use wowdoc.Branch.Content.Mapped.{HasDistinctPaths}
use wowdoc.Branch.Snapshot.{
  without_snapshot, absent_or_refused, insert_new, mapped_id, insert_files,
}

abbrev pub path_key : Text → Text → PathKey
path_key id path = record { snapshot = id; path = path }

pub lookup-without_snapshot {ℓ} :
    {V : Type ℓ} (id : Text) (k : PathKey) (rows : Dict PathKey V)
    → lookup k (without_snapshot id rows) ≡ (if k.snapshot == id then none else lookup k rows)
unfolding lookup without_snapshot
lookup-without_snapshot id k [] = ground arith
lookup-without_snapshot id k ((j, row) ∷ rows) = ground (arith, lookup-without_snapshot id k rows)

absent_or_refused-ok {ℓ κ} :
    {V : Type ℓ} {A : Type κ} (o : Option V) (rows rows' : A)
    → absent_or_refused o rows ≡ ok rows'
    → (o ≡ none) × (rows ≡ rows')
absent_or_refused-ok none rows rows' h = (refl, cc)
absent_or_refused-ok (some other) rows rows' h = absurd (cc)

mapped_id-some : (o : Option ℕ) (n : ℕ) → mapped_id o ≡ some n → o ≡ some n
mapped_id-some none n h = absurd (cc)
mapped_id-some (some zero) n h = absurd (cc)
mapped_id-some (some (suc m)) n h = h

required-ok {ℓ} :
    {A : Type ℓ} (o : Option A) (e : Failure) (a : A) → required o e ≡ ok a → o ≡ some a
required-ok none e a h = absurd (cc)
required-ok (some b) e a h = ap some (cc)

module _ (id : Text) (paths : Dict Text ℕ) where
  -- A round of the loop that goes well.
  abbrev Round : FileFact → List FileFact → Dict PathKey FileRow → Dict PathKey FileRow → Type 0
  Round f files rows rows' =
      (content : ℕ) × (lookup f.path paths ≡ some content)
      × (lookup (path_key id f.path) rows ≡ none)
      × (insert_files id paths files
            (insert (path_key id f.path) (record { content = content; role = f.role }) rows)
          ≡ ok rows')

  insert_files-Round :
      (f : FileFact) (files : List FileFact) (rows rows' : Dict PathKey FileRow)
      → insert_files id paths (f ∷ files) rows ≡ ok rows'
      → Round f files rows rows'
  unfolding insert_files
  insert_files-Round f files rows rows' h =
      let (content, e, h1) = first_value (required (mapped_id (lookup f.path paths)) _) _ h in
      let (rows1, e1, h2) = first_value (insert_new (path_key id f.path) _ rows) _ h1 in
      let (fresh, same) = absent_or_refused-ok (lookup (path_key id f.path) rows) _ rows1 e1 in
      (
        content,
        mapped_id-some _ content (required-ok _ _ content e),
        fresh,
        ap (insert_files id paths files) same ∙ h2,
      )

  -- A row that is there stays.
  insert_files-keeps :
      (files : List FileFact) (rows rows' : Dict PathKey FileRow) (k : PathKey) (row : FileRow)
      → insert_files id paths files rows ≡ ok rows'
      → lookup k rows ≡ some row
      → lookup k rows' ≡ some row
  unfolding insert_files
  insert_files-keeps [] rows rows' k row h there = cc
  insert_files-keeps (f ∷ files) rows rows' k row h there =
      let (content, mapped, fresh, rest) = insert_files-Round f files rows rows' h in
      insert_files-keeps files _ rows' k row rest
        (lookup-insert_ne k (path_key id f.path) _ rows (λ p. cc) ∙ there)

  -- A path that has a row is not among the files.
  insert_files-fresh :
      (files : List FileFact) (rows rows' : Dict PathKey FileRow) (path : Text) (row : FileRow)
      → insert_files id paths files rows ≡ ok rows'
      → lookup (path_key id path) rows ≡ some row
      → All (λ f. path ≢ f.path) files
  insert_files-fresh [] rows rows' path row h there = tt
  insert_files-fresh (f ∷ files) rows rows' path row h there =
      let (content, mapped, fresh, rest) = insert_files-Round f files rows rows' h in
      let differ : path ≢ f.path = λ p. cc in
      (
        differ,
        insert_files-fresh files _ rows' path row rest (
            lookup-insert_ne (path_key id path) (path_key id f.path) _ rows (λ p. differ (cc))
            ∙ there),
      )

  pub insert_files-HasDistinctPaths :
      (files : List FileFact) (rows rows' : Dict PathKey FileRow)
      → insert_files id paths files rows ≡ ok rows'
      → HasDistinctPaths files
  insert_files-HasDistinctPaths [] rows rows' h = tt
  insert_files-HasDistinctPaths (f ∷ files) rows rows' h =
      let (content, mapped, fresh, rest) = insert_files-Round f files rows rows' h in
      (
        insert_files-fresh files _ rows' f.path (record { content = content; role = f.role }) rest
            (lookup-insert_self (path_key id f.path) _ rows),
        insert_files-HasDistinctPaths files _ rows' rest,
      )

  abbrev pub IsInserted : Dict PathKey FileRow → FileFact → Type 0
  IsInserted rows f =
      (content : ℕ) × (lookup f.path paths ≡ some content)
      × (lookup (path_key id f.path) rows ≡ some (record { content = content; role = f.role }))

  -- Every file has its row.
  pub insert_files-IsInserted :
      (files : List FileFact) (rows rows' : Dict PathKey FileRow)
      → insert_files id paths files rows ≡ ok rows'
      → All (IsInserted rows') files
  insert_files-IsInserted [] rows rows' h = tt
  insert_files-IsInserted (f ∷ files) rows rows' h =
      let (content, mapped, fresh, rest) = insert_files-Round f files rows rows' h in
      (
        (
          content,
          mapped,
          insert_files-keeps files _ rows' (path_key id f.path) _ rest
              (lookup-insert_self (path_key id f.path) _ rows),
        ),
        insert_files-IsInserted files _ rows' rest,
      )

  -- Every other row was there before.
  pub insert_files-only :
      (files : List FileFact) (rows rows' : Dict PathKey FileRow) (k : PathKey)
      → insert_files id paths files rows ≡ ok rows'
      → (lookup k rows' ≡ lookup k rows) ⊎ Any (λ f. k ≡ path_key id f.path) files
  unfolding insert_files
  insert_files-only [] rows rows' k h = inl (cc)
  insert_files-only (f ∷ files) rows rows' k h =
      let (content, mapped, fresh, rest) = insert_files-Round f files rows rows' h in
      elim (path_key_eq.dec k (path_key id f.path)) [
        | yes same ↦ inr (inl same)
        | no differ ↦ elim (insert_files-only files _ rows' k rest) [
          | inl old ↦ inl (old ∙ lookup-insert_ne k (path_key id f.path) _ rows differ)
          | inr later ↦ inr (inr later)
        ]
      ]
