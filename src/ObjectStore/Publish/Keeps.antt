-- ===== src/ObjectStore/Publish/Keeps.antt =====
-- The rows of the index that stood before a publication of internal/objectstore/store.go.
use wowdoc.Base.{
  ℕ, ◌≡◌, ◌≢◌, refl, ap, subst, sym, ◌++◌, false, not, Option, none, some, List, [], ◌∷◌,
}
use wowdoc.Base.{Text, All, arith, Result, ok, err, if_elim, text_eq, eqb, length, map}
use wowdoc.Base.Dict
use wowdoc.Base.Dict.{Dict}
use wowdoc.ObjectStore.Hex.{Bytes}
use wowdoc.ObjectStore.Header.{pack_magic}
use wowdoc.ObjectStore.Pack.{Location}
use wowdoc.ObjectStore.Index.{Key, key_eq, World}
use wowdoc.ObjectStore.Builder.{Pending, Store, file_of}
use wowdoc.ObjectStore.Publish.{PublishEnv, PublishError, Published, key_of, db_of, is_some}
use wowdoc.ObjectStore.Publish.{
  unique_records, compact_pack, compact_records, copy_record, moved, commit_pack, commit_compacted,
  publish_unique, publish_index, publish, finish,
}
use wowdoc.ObjectStore.Publish.{final_path_of, pack_id_of}
use wowdoc.ObjectStore.Publish.Rows.{insert_objects-keeps, unique_records-ne}

moved-keys :
    (keys : List Key) (offset : ℕ) (x : Pending) (o : Option (Bytes × List Pending))
    (packed : Bytes) (kept : List Pending)
    → ((a : Bytes) (b : List Pending) → o ≡ some (a, b) → map key_of b ≡ keys)
    → moved offset x o ≡ some (packed, kept)
    → map key_of kept ≡ key_of x ∷ keys
moved-keys keys offset x none packed kept ih e = cc
moved-keys keys offset x (some (a, b)) packed kept ih e =
    let same : kept ≡ record x { offset = offset } ∷ b = ground arith in
    rw same (ap (λ ks. key_of x ∷ ks) (ih a b refl))

-- Compaction keeps the keys, whatever the pack holds.
compact_records-keys :
    (file out : Bytes) (records : List Pending) (packed : Bytes) (kept : List Pending)
    → compact_records file out records ≡ some (packed, kept)
    → map key_of kept ≡ map key_of records
unfolding compact_records
compact_records-keys file out [] packed kept e = let same : kept ≡ [] = ground arith in rw same
compact_records-keys file out (x ∷ records) packed kept e =
    copied (copy_record file x) e (λ chunk. compact_records-keys file (out ++ chunk) records)
  where
    copied :
        (o : Option Bytes)
        → elim o [
          | none ↦ none
          | some chunk ↦ moved (length out) x (compact_records file (out ++ chunk) records)
        ]
          ≡ some (packed, kept)
        → ((chunk a : Bytes) (b : List Pending)
            → compact_records file (out ++ chunk) records ≡ some (a, b)
            → map key_of b ≡ map key_of records)
        → map key_of kept ≡ key_of x ∷ map key_of records
    copied none h ih = cc
    copied (some chunk) h ih =
        moved-keys (map key_of records) (length out) x (compact_records file (out ++ chunk) records)
          packed kept (ih chunk) h

pub compact_pack-ne :
    (k : Key) (file : Bytes) (records : List Pending)
    → All (λ j. k ≢ j) (map key_of records)
    → (packed : Bytes) (kept : List Pending) → compact_pack file records ≡ some (packed, kept)
    → All (λ j. k ≢ j) (map key_of kept)
unfolding compact_pack
compact_pack-ne k file records other packed kept e =
    subst (All (λ j. k ≢ j)) (sym (compact_records-keys file pack_magic records packed kept e))
      other

abbrev KeepsRow : Key → Location → Result PublishError (Unit {0}) × World → Type 0
KeepsRow k r o = Dict.lookup k (db_of o.1).objects ≡ some r

module _ (env : PublishEnv) (pack_id staging final : Text) (k : Key) (r : Location) (w : World)
    (row : Dict.lookup k (db_of w).objects ≡ some r) where
  commit_pack-keeps :
      (file : Bytes) (unique : List Pending)
      → All (λ j. k ≢ j) (map key_of unique)
      → KeepsRow k r (commit_pack env pack_id staging final file unique w)
  unfolding commit_pack
  commit_pack-keeps file unique other =
      if_elim (KeepsRow k r) env.rename_fails (λ _. row)
        λ _.
          if_elim (KeepsRow k r) env.insert_fails (λ _. row)
            λ _.
              if_elim (KeepsRow k r) (is_some (Dict.lookup pack_id (db_of w).packs)) (λ _. row)
                λ _. insert_objects-keeps k r final unique (db_of w).objects other row

  commit_compacted-keeps :
      (o : Option (Bytes × List Pending))
      → ((a : Bytes) (b : List Pending) → o ≡ some (a, b) → All (λ j. k ≢ j) (map key_of b))
      → KeepsRow k r (commit_compacted o env pack_id staging final w)
  commit_compacted-keeps none other = row
  commit_compacted-keeps (some (file, kept)) other =
      commit_pack-keeps file kept (other file kept refl)

  publish_unique-keeps :
      (records unique : List Pending)
      → All (λ j. k ≢ j) (map key_of unique)
      → KeepsRow k r (publish_unique env pack_id staging final records unique w)
  unfolding publish_unique
  publish_unique-keeps records [] other =
      if_elim (KeepsRow k r) env.remove_fails (λ _. row) (λ _. row)
  publish_unique-keeps records (x ∷ unique) other =
      if_elim (KeepsRow k r) (eqb (length (x ∷ unique)) (length records))
        (λ _. commit_pack-keeps _ (x ∷ unique) other)
        λ _.
          if_elim (KeepsRow k r) env.compact_fails (λ _. row)
            λ _.
              commit_compacted-keeps (compact_pack (file_of staging w) (x ∷ unique))
                (compact_pack-ne k (file_of staging w) (x ∷ unique) other)

  publish_index-keeps :
      (records : List Pending) → KeepsRow k r (publish_index env pack_id staging final records w)
  unfolding publish_index
  publish_index-keeps records =
      if_elim (KeepsRow k r) env.index_fails (λ _. row)
        λ _.
          publish_unique-keeps records (unique_records (db_of w).objects records)
            (unique_records-ne k r (db_of w).objects records row)

finish-keeps :
    (k : Key) (r : Location) (s : Store) (o : Result PublishError (Unit {0}) × World)
    → KeepsRow k r o
    → Dict.lookup k (db_of (finish s o).2).objects ≡ some r
finish-keeps k r s (err e, w) h = h
finish-keeps k r s (ok u, w) h = h

-- A row of the index is never changed or removed by a publication, whether it succeeds or fails
-- and whatever the staging file holds.
pub publish-keeps_rows :
    (env : PublishEnv) (s : Store) (w : World) (k : Key) (r : Location)
    → Dict.lookup k (db_of w).objects ≡ some r
    → Dict.lookup k (db_of (publish env s w).2).objects ≡ some r
unfolding publish
publish-keeps_rows env s w k r row =
    if_elim Keeps s.published (λ _. row)
      λ _.
        if_elim Keeps (not s.is_open) (λ _. row)
          λ _.
            if_elim Keeps env.sync_fails (λ _. row)
              λ _.
                if_elim Keeps env.close_fails (λ _. row)
                  λ _.
                    if_elim Keeps env.mkdir_fails (λ _. row)
                      λ _.
                        finish-keeps k r (record s { is_open = false })
                          (publish_index env (pack_id_of s.staging_path) s.staging_path
                            (final_path_of env s.staging_path) s.records w)
                          (publish_index-keeps env (pack_id_of s.staging_path) s.staging_path
                            (final_path_of env s.staging_path) k r w row s.records)
  where
    Keeps : Published → Type 0
    Keeps o = Dict.lookup k (db_of o.2).objects ≡ some r
