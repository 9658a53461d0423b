-- ===== src/Tests/References.antt =====
-- Concrete inputs for the theorems on the catalog of sources and on the catalog database.
use wowdoc.Base.{
  ◌≡◌, ◌≢◌, refl, true, some, List, [], ◌∷◌, Text, text_eq, codes, Any, inl, inr, ok, err,
  ℕ_discrete,
}
use wowdoc.Base.Dict
use wowdoc.Base.Sort.{sort_by, text_lt}
use wowdoc.Strings.{to_lower, trim_space, equal_fold}
use wowdoc.Catalog.{matches, find_product_in}
use wowdoc.Catalog.Table.{Source, Product, sources}
use wowdoc.Catalog.Lookup.{find_product-spelling, Finds, SameSpelling}
use wowdoc.Catalog.Table.{wow_ui_source, product, modern}
use wowdoc.Refs.{
  ProductKey, product_key_eq, CatalogDb, Tag, ambiguous, insert_tags, publish_ref, tags, is_hex,
  resolve, prefixed, candidates,
}
use wowdoc.Refs.Publication.{publish_ref-IsSynced, IsSynced, resolve-latest}
use wowdoc.Refs.Commits.{resolve-commit}
use wowdoc.ObjectStore.Hex.{Bytes, IsBytes, hex_digit, hex_encode}
use wowdoc.Refs.Listing.{IsNewer, tags-IsListing}
use wowdoc.Base.{◌↔◌, arith}
use wowdoc.Base.Order.{Pairwise}
use wowdoc.Refs.Resolution.{resolve_unique, resolve-ambiguous, IsNamed, IsVersion}

abbrev retail : Product
retail = record {
  id = codes "retail";
  branch = codes "live";
  clients = codes "mainline" ∷ [];
  tag_rules = [];
}

abbrev game : Source
game = record {
  id = codes "ui";
  name = codes "UI";
  repository = codes "r";
  official = true;
  version_prefixes = codes "v" ∷ [];
  products = retail ∷ [];
}

abbrev no_rows : CatalogDb
no_rows = record { sources = []; products = []; refs = []; tags = []; snapshots = [] }

abbrev plain_tag : Tag
plain_tag = record { name = codes "1.0"; commit = codes "c1"; committed_at = 5 }

abbrev prefixed_tag : Tag
prefixed_tag = record { name = codes "v1.0"; commit = codes "c2"; committed_at = 6 }

abbrev other_tag : Tag
other_tag = record { name = codes "v2.0"; commit = codes "c3"; committed_at = 7 }

abbrev game_tags : List Tag
game_tags = plain_tag ∷ prefixed_tag ∷ other_tag ∷ []

abbrev game_key : ProductKey
game_key = record { source = codes "ui"; product = codes "retail" }

abbrev synced : CatalogDb
synced = record no_rows {
  refs =
      (game_key, record { branch = codes "live"; head_commit = codes "h"; synced_at = codes "n" })
      ∷ [];
  tags = (game_key, game_tags) ∷ [];
}

publish_ref-IsSynced_example :
    (db' : CatalogDb) × (publish_ref (codes "n") (codes "ui") retail (codes "h") game_tags no_rows
      ≡ ok db')
    × IsSynced game_key (codes "live") (codes "h") (codes "n") game_tags no_rows db'
unfolding text_eq
publish_ref-IsSynced_example =
    publish_ref-IsSynced (codes "n") (codes "ui") retail (codes "h") game_tags no_rows
      (refl, (refl, (refl, tt)))

published : publish_ref (codes "n") (codes "ui") retail (codes "h") game_tags no_rows ≡ ok synced
unfolding publish_ref insert_tags text_eq Dict.insert
published = refl

upper : to_lower (codes "LATEST") ≡ codes "latest"
unfolding to_lower
upper = refl

resolve-latest_example : resolve game retail (codes "LATEST") synced ≡ ok (codes "h", [])
resolve-latest_example =
    resolve-latest (codes "n") game retail (codes "h") (codes "LATEST") game_tags no_rows synced
      published (inr upper)

tags-IsListing_example :
    Pairwise IsNewer (tags game_key synced)
    × ((t : Tag) → Any (λ x. x ≡ t) (tags game_key synced) ↔ Any (λ x. x ≡ t) game_tags)
tags-IsListing_example =
    tags-IsListing (codes "n") (codes "ui") retail (codes "h") game_tags no_rows synced published

two-IsVersion : IsVersion (codes "2.0")
unfolding equal_fold to_lower is_hex text_eq
two-IsVersion = (refl, refl)

one-IsVersion : IsVersion (codes "1.0")
unfolding equal_fold to_lower is_hex text_eq
one-IsVersion = (refl, refl)

resolves : resolve game retail (codes "2.0") synced ≡ ok (codes "c3", codes "v2.0")
unfolding resolve equal_fold to_lower is_hex text_eq tags candidates prefixed Dict.lookup sort_by
    text_lt product_key_eq ℕ_discrete
resolves = refl

resolve_unique_example :
    (t : Tag) × Any (λ x. t ≡ x) (tags game_key synced)
    × IsNamed game.version_prefixes (codes "2.0") t
    × (t.commit ≡ codes "c3")
    × (t.name ≡ codes "v2.0")
    × ((u : Tag)
        → Any (λ x. u ≡ x) (tags game_key synced)
        → IsNamed game.version_prefixes (codes "2.0") u
        → u ≡ t)
resolve_unique_example =
    resolve_unique game retail (codes "2.0") synced two-IsVersion (codes "c3") (codes "v2.0")
      resolves

plain_listed : Any (λ x. plain_tag ≡ x) (tags game_key synced)
unfolding tags Dict.lookup sort_by text_lt product_key_eq text_eq ℕ_discrete
plain_listed = inr (inr (inl refl))

prefixed_listed : Any (λ x. prefixed_tag ≡ x) (tags game_key synced)
unfolding tags Dict.lookup sort_by text_lt product_key_eq text_eq ℕ_discrete
prefixed_listed = inr (inl refl)

differ : plain_tag ≢ prefixed_tag
differ h = cc

resolve-ambiguous_example : resolve game retail (codes "1.0") synced ≡ err ambiguous
resolve-ambiguous_example =
    resolve-ambiguous game retail (codes "1.0") synced one-IsVersion plain_tag prefixed_tag
      plain_listed prefixed_listed (inl refl) (inr (inl refl)) differ

abbrev commit_text : Text
commit_text = codes "00ABff0000000000000000000000000000000010"

-- The hash that the text names: 0, 0xab, 0xff, sixteen zeros and 0x10.
abbrev commit_hash : Bytes
commit_hash =
    0 ∷ 171 ∷ 255 ∷ 0 ∷ 0 ∷ 0 ∷ 0 ∷ 0 ∷ 0 ∷ 0 ∷ 0 ∷ 0 ∷ 0 ∷ 0 ∷ 0 ∷ 0 ∷ 0 ∷ 0 ∷ 0 ∷ 16 ∷ []

commit_hash-IsBytes : IsBytes commit_hash
commit_hash-IsBytes = ground arith

commit_spelled : to_lower commit_text ≡ hex_encode commit_hash
unfolding to_lower hex_encode hex_digit
commit_spelled = refl

resolve-commit_example : resolve game retail commit_text no_rows ≡ ok (hex_encode commit_hash, [])
resolve-commit_example =
    resolve-commit game retail commit_text no_rows commit_hash refl commit_hash-IsBytes
      commit_spelled

abbrev retail_row : Product
retail_row = product "retail" "live" ("retail" ∷ []) modern

abbrev era_row : Product
era_row = product "classic-era" "classic_era" ("classic-era" ∷ "era" ∷ []) ("^1\\.1[3-9]\\." ∷ [])

spelled : SameSpelling (codes " ERA ") (codes "era")
unfolding to_lower trim_space
spelled = refl

in_sources : Any (λ q. wow_ui_source ≡ q) sources
unfolding sources
in_sources = inl refl

in_products : Any (λ q. era_row ≡ q) wow_ui_source.products
in_products = inr (inr (inr (inr (inr (inr (inr (inl refl)))))))

find_product-spelling_example : Finds wow_ui_source (codes " ERA ") era_row
find_product-spelling_example =
    find_product-spelling wow_ui_source era_row (codes "era") (codes " ERA ") in_sources in_products
      (inr (inr (inr (inl refl)))) spelled

finds_live : find_product_in wow_ui_source.products (codes "LIVE") ≡ some retail_row
unfolding find_product_in matches trim_space equal_fold to_lower text_eq
finds_live = refl
