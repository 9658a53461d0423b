-- ===== src/Branch/Content.antt =====
-- The shared facts of a snapshot, `publishContent` of internal/store/branch.go, inside its
-- transaction.
pub mod Mapped
use wowdoc.Base.{
  ℕ, zero, suc, ◌+◌, Bool, true, false, not, ◌&&◌, ◌||◌, Option, none, some, List, [], ◌∷◌, ◌++◌,
}
use wowdoc.Base.{Text, codes, ◌==◌, text_eq, nat_eq, contains, eqb, leb, length, if◌then◌else◌}
use wowdoc.Base.Dict.{Dict, lookup, insert}
use wowdoc.Strings.{trim_space}
use wowdoc.Branch.Types.{
  FileFact, SymbolFact, EdgeFact, XmlFact, TocFact, SearchFact, AssetFact, AssetRefFact,
  SnapshotBatch, ContentKey, ContentRow, AliasKey, SymbolRow, EdgeRow, XmlRow, TocRow, DocRow,
  AssetRow, AssetRefRow, ContentDb, content_key_eq, alias_key_eq,
}

-- The id that SQLite gives a new row: one more than the largest.
abbrev pub max : ℕ → ℕ → ℕ
max a b = if leb a b then b else a

abbrev pub largest {ℓ} : {K : Type ℓ} {V : Type 0} → (V → ℕ) → Dict K V → ℕ
largest id [] = 0
largest id ((k, v) ∷ rows) = max (id v) (largest id rows)

abbrev pub insert_absent : Option ℕ → Text → Dict Text ℕ → Dict Text ℕ
insert_absent (some id) value strings = strings
insert_absent none value strings = insert value (largest (λ (n : ℕ). n) strings + 1) strings

-- INSERT OR IGNORE INTO strings
abbrev pub insert_string : Text → Dict Text ℕ → Dict Text ℕ
insert_string value strings = insert_absent (lookup value strings) value strings

-- The transaction: the tables, and the map `stringIDs` of the strings' ids.
pub record Tx : Type 0 where
  pub db : ContentDb
  pub string_ids : Dict Text ℕ

abbrev pub selected : Option ℕ → ℕ
selected none = 0
selected (some id) = id

-- `stringID`, after the lookup in the map: a value that the map lacks is inserted.
abbrev pub string_found : Option ℕ → Text → Tx → ℕ × Tx
string_found (some id) value tx = (id, tx)
string_found none value tx =
    let strings = insert_string value tx.db.strings in
    let id = selected (lookup value strings) in
    (
      id,
      record {
        db = record tx.db { strings = strings };
        string_ids = insert value id tx.string_ids;
      },
    )

-- `stringID`
unfoldable pub string_id : Text → Tx → ℕ × Tx
string_id value tx = string_found (lookup value tx.string_ids) value tx

-- `pathContent`, `newContent` and `factPath`.
pub record Mapping : Type 0 where
  pub path_content : Dict Text ℕ
  pub new_content : List ℕ
  pub fact_path : Dict ℕ Text

abbrev pub key_of : Text → Text → FileFact → ContentKey
key_of parser index f = record {
  hash = f.content_hash;
  language = f.language;
  parser_schema = parser;
  index_schema = index;
}

-- INSERT OR IGNORE INTO blob_aliases, for a file that has an object id.
abbrev pub insert_alias : FileFact → ℕ → Dict AliasKey ℕ → Dict AliasKey ℕ
insert_alias f id aliases =
    let k : AliasKey = record { git_oid = f.git_oid; language = f.language } in
    if f.git_oid == []
    then aliases
    else elim (lookup k aliases) [ some other ↦ aliases | none ↦ insert k id aliases ]

-- The file's content is there: only its path is mapped.
abbrev pub map_known : FileFact → ContentRow → ContentDb × Mapping → ContentDb × Mapping
map_known f row (db, m) = (
  record db { blob_aliases = insert_alias f row.id db.blob_aliases },
  record m { path_content = insert f.path row.id m.path_content },
)

-- The file's content is new: its row is inserted, and the facts of this path will stand for it.
abbrev pub map_new : ContentKey → FileFact → ContentDb × Mapping → ContentDb × Mapping
map_new key f (db, m) =
    let id = largest (λ (row : ContentRow). row.id) db.contents + 1 in
    (
      record db {
        contents =
            insert key (record { id = id; ast_hash = f.ast_hash; bytes = f.size }) db.contents;
        blob_aliases = insert_alias f id db.blob_aliases;
      },
      record {
        path_content = insert f.path id m.path_content;
        new_content = id ∷ m.new_content;
        fact_path = insert id f.path m.fact_path;
      },
    )

abbrev pub map_found :
    Option ContentRow → ContentKey → FileFact → ContentDb × Mapping → ContentDb × Mapping
map_found (some row) key f s = map_known f row s
map_found none key f s = map_new key f s

-- One round of the loop over the files.
unfoldable pub map_file : Text → Text → FileFact → ContentDb × Mapping → ContentDb × Mapping
map_file parser index f s =
    map_found (lookup (key_of parser index f) s.0.contents) (key_of parser index f) f s

unfoldable pub map_files : Text → Text → List FileFact → ContentDb × Mapping → ContentDb × Mapping
map_files parser index [] s = s
map_files parser index (f ∷ files) s = map_files parser index files (map_file parser index f s)

abbrev pub is_path : Option Text → Text → Bool
is_path none path = false
is_path (some fact) path = fact == path

abbrev pub accepted_id : Mapping → Text → Option ℕ → Option ℕ
accepted_id m path none = none
accepted_id m path (some id) =
    if not (eqb id 0) && (contains m.new_content id && is_path (lookup id m.fact_path) path)
    then some id
    else none

-- The content of a fact's path, if it is new and the facts of this path stand for it.
unfoldable pub accepted : Mapping → Text → Option ℕ
accepted m path = accepted_id m path (lookup path m.path_content)

-- A loop over the facts of one kind.
module _ {A : Type 0} (m : Mapping) (path_of : A → Text) (store : ℕ → A → Tx → Tx) where
  abbrev pub store_if : Option ℕ → A → Tx → Tx
  store_if none a tx = tx
  store_if (some id) a tx = store id a tx

  unfoldable pub store_facts : List A → Tx → Tx
  store_facts [] tx = tx
  store_facts (a ∷ facts) tx = store_facts facts (store_if (accepted m (path_of a)) a tx)
