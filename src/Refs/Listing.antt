-- ===== src/Refs/Listing.antt =====
-- The tags that `Tags` of internal/store/catalog.go lists after a synchronisation.
use wowdoc.Base.{◌≡◌, ◌≢◌, refl, ap, sym, ◌∙◌, ◌↔◌, ◌⊎◌, true, false, List, [], ◌∷◌, ◌++◌, ◌<◌}
use wowdoc.Base.{Text, text_eq, arith, ok, All, All-map, Any, first_value}
use wowdoc.Base.Sort.{
  sort_by, sort_by-IsSorted, text_lt-asym, text_lt-negtrans, Any-sort_by, Any-of-sort_by,
}
use wowdoc.Base.Order.{IsBefore, not_after-IsBefore, Pairwise, sort_by-related}
use wowdoc.Catalog.Table.{Product}
use wowdoc.Refs.{CatalogDb, Tag, insert_tags, tag_named, publish_ref, tags_of, newer, tags}
use wowdoc.Refs.Publication.{AllNew, publish_ref-eq_after, after-IsSynced}

-- The first tag is later than the second, or of its time with a name that comes after the other's.
abbrev pub IsNewer : Tag → Tag → Type 0
IsNewer t u =
    (u.committed_at < t.committed_at) ⊎ ((t.committed_at ≡ u.committed_at) × IsBefore u.name t.name)

newer-asym : (a b : Tag) → newer a b ≡ true → newer b a ≡ false
newer-asym a b h = ground (arith, text_lt-asym b.name a.name)

newer-negtrans : (a b c : Tag) → newer b a ≡ false → newer c b ≡ false → newer c a ≡ false
newer-negtrans a b c h k = ground (arith, text_lt-negtrans c.name b.name a.name)

newer-IsNewer : (t u : Tag) → newer u t ≡ false → t.name ≢ u.name → IsNewer t u
newer-IsNewer t u h differ = ground (arith, not_after-IsBefore u.name t.name)

insert_tags_inv : (rows ts out : List Tag) → insert_tags rows ts ≡ ok out → AllNew rows ts
unfolding insert_tags
insert_tags_inv rows [] out h = tt
insert_tags_inv rows (t ∷ ts) out h =
    (ground arith, insert_tags_inv (rows ++ t ∷ []) ts out (ground arith))

tag_named-append :
    (rows : List Tag) (t : Tag) (name : Text)
    → tag_named (rows ++ t ∷ []) name ≡ false
    → (tag_named rows name ≡ false) × (t.name ≢ name)
tag_named-append [] t name h = (refl, λ same. ground arith)
tag_named-append (r ∷ rows) t name h =
    let (kept, differ) = tag_named-append rows t name (ground arith) in (ground arith, differ)

AllNew-names : (rows ts : List Tag) → AllNew rows ts → All (λ u. tag_named rows u.name ≡ false) ts
AllNew-names rows [] h = tt
AllNew-names rows (t ∷ ts) h = (
  h.0,
  All-map (λ u k. (tag_named-append rows t u.name k).0) ts (AllNew-names (rows ++ t ∷ []) ts h.1),
)

abbrev Differ : Tag → Tag → Type 0
Differ t u = t.name ≢ u.name

AllNew-Pairwise : (rows ts : List Tag) → AllNew rows ts → Pairwise Differ ts
AllNew-Pairwise rows [] h = tt
AllNew-Pairwise rows (t ∷ ts) h = (
  All-map {Q = Differ t} (λ u k. (tag_named-append rows t u.name k).1) ts
      (AllNew-names (rows ++ t ∷ []) ts h.1),
  AllNew-Pairwise (rows ++ t ∷ []) ts h.1,
)

module _ (now source : Text) (p : Product) (head : Text) (ts : List Tag) (db db' : CatalogDb)
    (published : publish_ref now source p head ts db ≡ ok db') where
  abbrev listed : List Tag
  listed = tags (record { source = source; product = p.id }) db'

  accepted : AllNew [] ts
  unfolding publish_ref
  accepted =
      let (rows, inserted, rest) = first_value (insert_tags [] ts) _ published in
      insert_tags_inv [] ts rows inserted

  listed_eq : listed ≡ sort_by newer ts
  unfolding tags
  listed_eq =
      ap (λ d. sort_by newer (tags_of (record { source = source; product = p.id }) d))
        (publish_ref-eq_after now source p head ts db db' published)
      ∙ ap (sort_by newer) (after-IsSynced now source p head ts db).tag_rows

  -- After a publication of tags that succeeds, the product's listing holds exactly these tags,
  -- each before all that are older and all of its time whose names come before its own, and none
  -- twice.
  pub tags-IsListing :
      Pairwise IsNewer listed × ((t : Tag) → Any (λ x. x ≡ t) listed ↔ Any (λ x. x ≡ t) ts)
  tags-IsListing = rw listed_eq (
    sort_by-related newer Differ (λ a b n e. n (sym e)) IsNewer newer-IsNewer ts
        (sort_by-IsSorted newer newer-asym newer-negtrans ts) (AllNew-Pairwise [] ts accepted),
    λ t. (Any-of-sort_by newer (λ x. x ≡ t) ts, Any-sort_by newer (λ x. x ≡ t) ts),
  )
