-- ===== src/Refs.antt =====
-- The catalog database, internal/store/catalog.go: `Seed`, `PublishRef`, `Refs`, `Tags`,
-- `SaveSnapshot`, `Snapshot` and `Resolve` over the tables of catalog.sqlite.
pub mod Publication
pub mod Listing
pub mod Resolution
pub mod Commits
use wowdoc.Base.{
  ℕ, Bool, true, false, not, ◌&&◌, ◌||◌, Option, none, some, List, [], ◌∷◌, ◌++◌, Text, codes,
}
use wowdoc.Base.{
  Eq, ◌==◌, text_eq, contains, ltb, leb, eqb, ℕ_discrete, length, Result, ok, err, required, ◌>>=◌,
}
use wowdoc.Base.{if◌then◌else◌}
use wowdoc.Base.Dict
use wowdoc.Base.Dict.{Dict}
use wowdoc.Base.Sort.{sort_by, text_lt}
use wowdoc.Strings.{to_lower, equal_fold}
use wowdoc.Catalog.Table.{Source, Product}

-- The primary key of `products` and of `refs`.
pub record ProductKey : Type 0 where
  pub source : Text
  pub product : Text

product_key_dec : Discrete ProductKey
product_key_dec = hlevel ℕ_discrete

instance unfoldable pub product_key_eq : Eq ProductKey
unfolding product_key_dec
product_key_eq = record { dec = product_key_dec }

pub record SourceRow : Type 0 where
  pub name : Text
  pub repository : Text
  pub official : Bool

pub record RefRow : Type 0 where
  pub branch : Text
  pub head_commit : Text
  pub synced_at : Text

-- `TagRecord`
pub record Tag : Type 0 where
  pub name : Text
  pub commit : Text
  pub committed_at : ℕ

-- `SnapshotRecord`, less its id, which is the key of the table.
pub record Snapshot : Type 0 where
  pub source : Text
  pub product : Text
  pub commit : Text
  pub requested_ref : Text
  pub tag : Text
  pub status : Text
  pub db_path : Text
  pub manifest_path : Text
  pub indexed_at : Text

pub record CatalogDb : Type 0 where
  pub sources : Dict Text SourceRow
  pub products : Dict ProductKey Text
  pub refs : Dict ProductKey RefRow
  pub tags : Dict ProductKey (List Tag)
  pub snapshots : Dict Text Snapshot

pub data Error : Type 0 where
  no_rows constraint ambiguous : Error

seed_products : Text → List Product → Dict ProductKey Text → Dict ProductKey Text
seed_products source [] rows = rows
seed_products source (p ∷ rest) rows =
    seed_products source rest
      (Dict.insert (record { source = source; product = p.id }) p.branch rows)

-- `Seed`: the upserts of sources and products, in one transaction.
unfoldable pub seed : List Source → CatalogDb → CatalogDb
unfolding seed_products
seed [] db = db
seed (s ∷ rest) db = seed rest (record db {
  sources =
      Dict.insert s.id (record { name = s.name; repository = s.repository; official = s.official })
        db.sources;
  products = seed_products s.id s.products db.products;
})

abbrev pub tag_named : List Tag → Text → Bool
tag_named [] name = false
tag_named (t ∷ rest) name = name == t.name || tag_named rest name

-- The inserts of `PublishRef`: a name that is there already breaks the primary key.
unfoldable pub insert_tags : List Tag → List Tag → Result Error (List Tag)
insert_tags rows [] = ok rows
insert_tags rows (t ∷ rest) =
    let inserted = insert_tags (rows ++ t ∷ []) rest in
    if tag_named rows t.name then err constraint else inserted

abbrev pub rows_of : Option (List Tag) → List Tag
rows_of none = []
rows_of (some rows) = rows

abbrev pub tags_of : ProductKey → CatalogDb → List Tag
tags_of k db = rows_of (Dict.lookup k db.tags)

-- `PublishRef`: the head is replaced, and so are the product's tags. An error rolls all back.
unfoldable pub publish_ref :
    Text → Text → Product → Text → List Tag → CatalogDb → Result Error CatalogDb
publish_ref now source p head tags db =
    let k : ProductKey = record { source = source; product = p.id } in
    insert_tags [] tags >>= λ rows. ok (record db {
      refs =
          Dict.insert k (record { branch = p.branch; head_commit = head; synced_at = now }) db.refs;
      tags = Dict.insert k rows db.tags;
    })

-- ORDER BY committed_at DESC, name DESC
abbrev pub newer : Tag → Tag → Bool
newer a b =
    ltb b.committed_at a.committed_at || eqb a.committed_at b.committed_at && text_lt b.name a.name

-- `Tags`
unfoldable pub tags : ProductKey → CatalogDb → List Tag
tags k db = sort_by newer (tags_of k db)

-- ORDER BY source_id,product_id
abbrev key_lt : ProductKey × RefRow → ProductKey × RefRow → Bool
key_lt (a, _) (b, _) =
    text_lt a.source b.source || a.source == b.source && text_lt a.product b.product

unfoldable pub refs_of : Text → Dict ProductKey RefRow → Dict ProductKey RefRow
refs_of source [] = []
refs_of source ((k, row) ∷ rest) =
    let others = refs_of source rest in
    if source == [] || k.source == source then (k, row) ∷ others else others

-- `Refs`; an empty source id selects all.
unfoldable pub refs : Text → CatalogDb → Dict ProductKey RefRow
refs source db = sort_by key_lt (refs_of source db.refs)

same_commit : Snapshot → Snapshot → Bool
same_commit a b = a.source == b.source && a.product == b.product && a.commit == b.commit

-- Another row holds the unique triple of source, product and commit.
unfoldable pub conflicts : Text → Snapshot → Dict Text Snapshot → Bool
unfolding same_commit
conflicts id s [] = false
conflicts id s ((j, row) ∷ rest) = not (id == j) && same_commit s row || conflicts id s rest

-- The update of a row leaves its source, product and commit. Of a new row the unique triple is
-- checked.
abbrev pub upserted : Bool → Snapshot → Option Snapshot → Result Error Snapshot
upserted conflict s none = if conflict then err constraint else ok s
upserted conflict s (some row) =
    ok (record s { source = row.source; product = row.product; commit = row.commit })

-- `SaveSnapshot`
unfoldable pub save_snapshot : Text → Snapshot → CatalogDb → Result Error CatalogDb
save_snapshot id s db =
    upserted (conflicts id s db.snapshots) s (Dict.lookup id db.snapshots) >>= λ row.
    ok (record db { snapshots = Dict.insert id row db.snapshots })

-- `Snapshot`: the row of the unique triple.
unfoldable pub snapshot_in : Text → Text → Text → Dict Text Snapshot → Option (Text × Snapshot)
snapshot_in source product commit [] = none
snapshot_in source product commit ((id, row) ∷ rest) =
    if row.source == source && row.product == product && row.commit == commit
    then some (id, row)
    else snapshot_in source product commit rest

unfoldable pub snapshot : Text → Text → Text → CatalogDb → Option (Text × Snapshot)
snapshot source product commit db = snapshot_in source product commit db.snapshots

-- `isHex`
unfoldable pub is_hex : Text → Bool
is_hex [] = true
is_hex (r ∷ s) =
    (leb b'0' r && leb r b'9' || leb b'a' r && leb r b'f' || leb b'A' r && leb r b'F') && is_hex s

-- The prefixes that make the ref a tag's name, each of which adds the tag once.
unfoldable pub prefixed : List Text → Text → Tag → List Tag
prefixed [] ref t = []
prefixed (prefix ∷ rest) ref t =
    let others = prefixed rest ref t in if t.name == prefix ++ ref then t ∷ others else others

-- The loop over the tags in `Resolve`.
unfoldable pub candidates : List Text → Text → List Tag → List Tag
candidates prefixes ref [] = []
candidates prefixes ref (t ∷ rest) =
    (if t.name == ref then t ∷ [] else prefixed prefixes ref t) ++ candidates prefixes ref rest

abbrev pub only : List Tag → Result Error (Text × Text)
only [] = err no_rows
only (t ∷ []) = ok (t.commit, t.name)
only (t ∷ u ∷ rest) = err ambiguous

-- `Resolve`: the commit, and the tag that named it.
unfoldable pub resolve : Source → Product → Text → CatalogDb → Result Error (Text × Text)
resolve s p ref db =
    let k : ProductKey = record { source = s.id; product = p.id } in
    if ref == [] || equal_fold ref (codes "latest")
    then (required (Dict.lookup k db.refs) no_rows >>= λ row. ok (row.head_commit, []))
    else if eqb (length ref) 40 && is_hex ref
    then ok (to_lower ref, [])
    else only (candidates s.version_prefixes ref (tags k db))
