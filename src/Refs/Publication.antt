-- ===== src/Refs/Publication.antt =====
-- What a synchronisation publishes, of internal/store/catalog.go.
use wowdoc.Base.{◌≡◌, ◌≢◌, refl, ap, ◌∙◌, true, false, some, List, [], ◌∷◌, ◌++◌, append_assoc}
use wowdoc.Base.{
  Text, codes, arith, Result, ok, err, ◌==◌, text_eq, append-nil, ◌>>=◌, ◌||◌, ◌⊎◌, inl, inr,
}
use wowdoc.Base.Dict
use wowdoc.Strings.{equal_fold, to_lower}
use wowdoc.Catalog.Table.{Source, Product}
use wowdoc.Refs.{
  ProductKey, product_key_eq, CatalogDb, Tag, Error, RefRow, insert_tags, tag_named, publish_ref,
  tags_of, rows_of, resolve,
}

insert_tags-eq-append : (rows ts out : List Tag) → insert_tags rows ts ≡ ok out → out ≡ rows ++ ts
unfolding insert_tags
insert_tags-eq-append rows [] out h = rw append-nil (ground arith)
insert_tags-eq-append rows (t ∷ ts) out h =
    insert_tags-eq-append (rows ++ t ∷ []) ts out (ground arith) ∙ append_assoc rows (t ∷ []) ts

-- No two tags have one name, and none has the name of an inserted row.
abbrev pub AllNew : List Tag → List Tag → Type 0
AllNew rows [] = Unit
AllNew rows (t ∷ ts) = (tag_named rows t.name ≡ false) × AllNew (rows ++ t ∷ []) ts

insert_tags-AllNew : (rows ts : List Tag) → AllNew rows ts → insert_tags rows ts ≡ ok (rows ++ ts)
unfolding insert_tags
insert_tags-AllNew rows [] h = rw append-nil
insert_tags-AllNew rows (t ∷ ts) h =
    rw (h.0, insert_tags-AllNew (rows ++ t ∷ []) ts h.1) (ap ok (append_assoc rows (t ∷ []) ts))

-- What a publication has changed and what it has left.
pub record IsSynced (k : ProductKey) (branch head now : Text) (ts : List Tag) (db db' : CatalogDb)
    : Type 0 where
  pub head_row :
      Dict.lookup k db'.refs
      ≡ some (record { branch = branch; head_commit = head; synced_at = now })
  pub tag_rows : tags_of k db' ≡ ts
  pub other_refs : (j : ProductKey) → j ≢ k → Dict.lookup j db'.refs ≡ Dict.lookup j db.refs
  pub other_tags : (j : ProductKey) → j ≢ k → tags_of j db' ≡ tags_of j db
  pub snapshots : db'.snapshots ≡ db.snapshots

module _ (now source : Text) (p : Product) (head : Text) (ts : List Tag) (db : CatalogDb) where
  abbrev pub key : ProductKey
  key = record { source = source; product = p.id }

  abbrev pub row : RefRow
  row = record { branch = p.branch; head_commit = head; synced_at = now }

  abbrev pub after : CatalogDb
  after = record db { refs = Dict.insert key row db.refs; tags = Dict.insert key ts db.tags }

  pub after-IsSynced : IsSynced key p.branch head now ts db after
  after-IsSynced = record {
    head_row = Dict.lookup-insert_self key row db.refs;
    tag_rows = ap rows_of (Dict.lookup-insert_self key ts db.tags);
    other_refs = λ j n. Dict.lookup-insert_ne j key row db.refs n;
    other_tags = λ j n. ap rows_of (Dict.lookup-insert_ne j key ts db.tags n);
    snapshots = refl;
  }

  pub publish_ref-eq_after :
      (db' : CatalogDb) → publish_ref now source p head ts db ≡ ok db' → db' ≡ after
  unfolding publish_ref
  publish_ref-eq_after db' h = with_rows (insert_tags [] ts) refl h
    where
      with_rows :
          (r : Result Error (List Tag))
          → insert_tags [] ts ≡ r
          → (r >>= λ rows. ok (record db {
            refs = Dict.insert key row db.refs;
            tags = Dict.insert key rows db.tags;
          }))
            ≡ ok db'
          → db' ≡ after
      with_rows (err x) e h' = cc
      with_rows (ok rows) e h' = ground (arith, insert_tags-eq-append [] ts rows e)

  -- A publication of tags with distinct names succeeds. It sets the head of the product and
  -- replaces its tags, and it leaves every other product's head and tags and all snapshots.
  pub publish_ref-IsSynced :
      AllNew [] ts
      → (db' : CatalogDb) × (publish_ref now source p head ts db ≡ ok db')
        × IsSynced (record { source = source; product = p.id }) p.branch head now ts db db'
  unfolding publish_ref
  publish_ref-IsSynced new = (after, rw (insert_tags-AllNew [] ts new), after-IsSynced)

to_lower-latest : to_lower (codes "latest") ≡ codes "latest"
unfolding to_lower
to_lower-latest = refl

equal_fold-latest :
    (ref : Text) → to_lower ref ≡ codes "latest" → equal_fold ref (codes "latest") ≡ true
unfolding equal_fold
equal_fold-latest ref h = rw (h, to_lower-latest) (ground arith)

is_latest :
    (ref : Text)
    → (ref ≡ []) ⊎ (to_lower ref ≡ codes "latest")
    → (ref == [] || equal_fold ref (codes "latest")) ≡ true
is_latest ref (inl h) = ground arith
is_latest ref (inr h) = ground (arith, equal_fold-latest ref h)

-- After a publication that succeeds, an empty ref and `latest` in any letter case name the
-- published head.
pub resolve-latest :
    (now : Text) (s : Source) (p : Product) (head ref : Text) (ts : List Tag) (db db' : CatalogDb)
    → publish_ref now s.id p head ts db ≡ ok db'
    → (ref ≡ []) ⊎ (to_lower ref ≡ codes "latest")
    → resolve s p ref db' ≡ ok (head, [])
unfolding resolve
resolve-latest now s p head ref ts db db' published h = rw (
  is_latest ref h,
  publish_ref-eq_after now s.id p head ts db db' published,
  (after-IsSynced now s.id p head ts db).head_row,
)
