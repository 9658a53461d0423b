-- ===== src/Query/Diff.antt =====
-- The comparison of two snapshots, `Diff` of internal/query/query.go.
pub mod Items
pub mod Rows
pub mod Described
use wowdoc.Base.{
  ◌≡◌, Bool, true, false, not, Option, none, some, List, [], ◌∷◌, Text, codes, ◌==◌, text_eq,
}
use wowdoc.Base.{Result, ok, err, ◌>>=◌, ◌>>◌, if◌then◌else◌}
use wowdoc.Base.Dict.{Dict, lookup, insert}
use wowdoc.Base.Sort.{sort_by, text_lt}
use wowdoc.Results.{Failure}
use wowdoc.Query.Ready.{open_branch}

-- `DiffItem`, whose kind is "symbol" and whose path is empty.
pub record DiffItem : Type 0 where
  pub key : Text
  pub before : Text
  pub after : Text

pub record Diff : Type 0 where
  pub added : List DiffItem
  pub removed : List DiffItem
  pub changed : List DiffItem

-- `load`: the map that the rows of the symbols make, where a later row replaces an earlier one.
unfoldable pub load : Dict Text Text → List (Text × Text) → Dict Text Text
load m [] = m
load m ((k, v) ∷ rows) = load (insert k v m) rows

abbrev pub item : Text → Text → Text → DiffItem
item key before after = record { key = key; before = before; after = after }

-- The item of the first loop for a key that the second map lacks.
unfoldable pub removed_item : Dict Text Text → Text → Text → Option DiffItem
removed_item right k v = elim (lookup k right) [ none ↦ some (item k v []) | some w ↦ none ]

-- The item of the first loop for a key whose values differ.
unfoldable pub changed_item : Dict Text Text → Text → Text → Option DiffItem
changed_item right k v = elim (lookup k right) [
  | none ↦ none
  | some w ↦ if w == v then none else some (item k v w)
]

-- The item of the second loop for a key that the first map lacks.
unfoldable pub added_item : Dict Text Text → Text → Text → Option DiffItem
added_item left k v = elim (lookup k left) [ none ↦ some (item k [] v) | some w ↦ none ]

abbrev pub append_item : Option DiffItem → List DiffItem → List DiffItem
append_item none items = items
append_item (some x) items = x ∷ items

-- A loop over a map that appends the items of its entries.
unfoldable pub items_of : (Text → Text → Option DiffItem) → Dict Text Text → List DiffItem
items_of f [] = []
items_of f ((k, v) ∷ m) = append_item (f k v) (items_of f m)

abbrev pub key_before : DiffItem → DiffItem → Bool
key_before a b = text_lt a.key b.key

-- The three lists, by their keys.
unfoldable pub diff_maps : Dict Text Text → Dict Text Text → Diff
diff_maps left right = record {
  added = sort_by key_before (items_of (added_item left) right);
  removed = sort_by key_before (items_of (removed_item right) left);
  changed = sort_by key_before (items_of (changed_item right) left);
}

-- `Diff`, on whether each branch opens and on the rows of its symbols.
unfoldable pub diff :
    Result (Option Failure) (Unit {0})
    → Result (Option Failure) (Unit {0})
    → Result Failure (List (Text × Text))
    → Result Failure (List (Text × Text))
    → Result Failure Diff
diff left right left_rows right_rows = do
  open_branch left
  open_branch right
  l ← left_rows
  r ← right_rows
  ok (diff_maps (load [] l) (load [] r))
