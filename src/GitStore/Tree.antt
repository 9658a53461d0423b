-- ===== src/GitStore/Tree.antt =====
-- The files of a commit, `Tree` of internal/gitstore/git.go.
pub mod Listing
use wowdoc.Base.{Option, none, some, List, [], ◌∷◌, Text, codes, ◌==◌, text_eq}
use wowdoc.Base.{if◌then◌else◌}
use wowdoc.Base.Int.{ℤ}
use wowdoc.Strings.{fields, split, cut}
use wowdoc.GitStore.Words.{parse_int, value_of}

-- `TreeEntry`
pub record TreeEntry : Type 0 where
  pub oid : Text
  pub path : Text
  pub size : ℤ

abbrev pub blob_entry : List Text → Text → Option TreeEntry
blob_entry (mode ∷ kind ∷ oid ∷ size ∷ more) path =
    if kind == codes "blob"
    then some (record { oid = oid; path = path; size = value_of (parse_int size) })
    else none
blob_entry _ path = none

abbrev pub cut_entry : Option (Text × Text) → Option TreeEntry
cut_entry none = none
cut_entry (some (meta, path)) = blob_entry (fields meta) path

-- One round of the loop in `Tree`: the entry of a part, where it lists a blob.
unfoldable pub part_entry : Text → Option TreeEntry
part_entry [] = none
part_entry (c ∷ part) = cut_entry (cut b'\t' (c ∷ part))

abbrev pub append_entry : Option TreeEntry → List TreeEntry → List TreeEntry
append_entry none entries = entries
append_entry (some e) entries = e ∷ entries

unfoldable pub tree_entries : List Text → List TreeEntry
tree_entries [] = []
tree_entries (part ∷ parts) = append_entry (part_entry part) (tree_entries parts)

-- `Tree`, on what `git ls-tree -r -z --long` writes.
unfoldable pub tree : Text → List TreeEntry
unfolding tree_entries
tree out = tree_entries (split 0 out)
