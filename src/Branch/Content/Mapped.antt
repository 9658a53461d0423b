-- ===== src/Branch/Content/Mapped.antt =====
-- The content of every file, as the loop over the files in `publishContent` of
-- internal/store/branch.go maps it.
use wowdoc.Base.{◌≡◌, refl, sym, ◌≢◌, ◌∙◌, Option, none, some, List, [], ◌∷◌, Text, All}
use wowdoc.Base.{text_eq, nat_eq}
use wowdoc.Base.Dict.{lookup, lookup-insert_self, lookup-insert_ne}
use wowdoc.Branch.Types.{FileFact, ContentRow, ContentDb, content_key_eq}
use wowdoc.Branch.Content.{Mapping, key_of, map_found, map_file, map_files}

-- No path stands twice.
abbrev pub HasDistinctPaths : List FileFact → Type 0
HasDistinctPaths [] = Unit
HasDistinctPaths (f ∷ files) = All (λ g. f.path ≢ g.path) files × HasDistinctPaths files

module _ (parser index : Text) where
  -- The path is mapped to the row of its hash and language.
  abbrev pub IsMapped : ContentDb × Mapping → FileFact → Type 0
  IsMapped (db, m) f =
      (row : ContentRow) × (lookup f.path m.path_content ≡ some row.id)
      × (lookup (key_of parser index f) db.contents ≡ some row)

  map_file-IsMapped :
      (f : FileFact) (s : ContentDb × Mapping) → IsMapped (map_file parser index f s) f
  unfolding map_file
  map_file-IsMapped f (db, m) = found (lookup (key_of parser index f) db.contents) refl
    where
      found :
          (o : Option ContentRow)
          → lookup (key_of parser index f) db.contents ≡ o
          → IsMapped (map_found o (key_of parser index f) f (db, m)) f
      found (some row) known = (row, lookup-insert_self f.path row.id m.path_content, known)
      found none new = (
        _,
        lookup-insert_self f.path _ m.path_content,
        lookup-insert_self (key_of parser index f) _ db.contents,
      )

  map_file-keeps :
      (f g : FileFact) (s : ContentDb × Mapping)
      → f.path ≢ g.path
      → IsMapped s g
      → IsMapped (map_file parser index f s) g
  unfolding map_file
  map_file-keeps f g (db, m) differ (row, path, there) =
      found (lookup (key_of parser index f) db.contents) refl
    where
      found :
          (o : Option ContentRow)
          → lookup (key_of parser index f) db.contents ≡ o
          → IsMapped (map_found o (key_of parser index f) f (db, m)) g
      found (some row') known =
          (row, lookup-insert_ne g.path f.path _ m.path_content (λ p. differ (sym p)) ∙ path, there)
      found none new = (
        row,
        lookup-insert_ne g.path f.path _ m.path_content (λ p. differ (sym p)) ∙ path,
        lookup-insert_ne (key_of parser index g) (key_of parser index f) _ db.contents (λ p. cc)
            ∙ there,
      )

  map_files-keeps :
      (files : List FileFact) (g : FileFact) (s : ContentDb × Mapping)
      → All (λ f. g.path ≢ f.path) files
      → IsMapped s g
      → IsMapped (map_files parser index files s) g
  unfolding map_files
  map_files-keeps [] g s differ h = h
  map_files-keeps (f ∷ files) g s differ h =
      map_files-keeps files g (map_file parser index f s) differ.1
        (map_file-keeps f g s (λ p. differ.0 (sym p)) h)

  -- Every file is mapped to the row of its content.
  pub map_files-IsMapped :
      (files : List FileFact) (s : ContentDb × Mapping)
      → HasDistinctPaths files
      → All (IsMapped (map_files parser index files s)) files
  unfolding map_files
  map_files-IsMapped [] s h = tt
  map_files-IsMapped (f ∷ files) s h = (
    map_files-keeps files f (map_file parser index f s) h.0 (map_file-IsMapped f s),
    map_files-IsMapped files (map_file parser index f s) h.1,
  )
