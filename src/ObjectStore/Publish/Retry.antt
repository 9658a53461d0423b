-- ===== src/ObjectStore/Publish/Retry.antt =====
-- `Publish` of internal/objectstore/store.go after a failure, and the process's own cache after
-- it.
use wowdoc.Base.{◌≡◌, ◌≢◌, refl, ◌∙◌, true, false, not, Option, none, some, List, [], ◌∷◌}
use wowdoc.Base.{
  Text, All, arith, if◌then◌else◌, Result, ok, err, if_elim, text_eq, eqb, length, map,
}
use wowdoc.Base.Dict
use wowdoc.Base.Dict.{Dict}
use wowdoc.ObjectStore.Hex.{Bytes}
use wowdoc.ObjectStore.Pack.{Location}
use wowdoc.ObjectStore.Index.{Key, key_eq, World, load_cache, lookup_record}
use wowdoc.ObjectStore.Builder.{Pending, Store, file_of}
use wowdoc.ObjectStore.Publish.{
  PublishEnv, PublishError, Published, key_of, location_at, db_of, cache_objects, is_some, or_empty,
}
use wowdoc.ObjectStore.Publish.{
  unique_records, compact_pack, commit_pack, commit_compacted, publish_unique, publish_index,
  publish, finish,
}
use wowdoc.ObjectStore.Publish.{final_path_of, pack_id_of}
use wowdoc.ObjectStore.Publish.Rows.{unique_records-ne}
use wowdoc.ObjectStore.Publish.Keeps.{compact_pack-ne}

module _ (env : PublishEnv) (s : Store) (w : World) where
  -- If a publication of an open store that is not published fails after its staging file was
  -- synced and closed, the next one reports success without doing anything: the store counts as
  -- published, and index, cache and files are as they were.
  pub publish_after_failure :
      (again : PublishEnv)
      → s.published ≡ false
      → s.is_open ≡ true
      → env.sync_fails ≡ false
      → env.close_fails ≡ false
      → (publish env s w).0 ≢ ok tt
      → let (r, s', w') = publish env s w in
        publish again s' w' ≡ (ok tt, record s' { published = true }, w')
  unfolding publish
  publish_after_failure again unpublished opened synced closed failed = ground arith

-- The loaded cache has no entry of the key.
abbrev Misses : Key → World → Type 0
Misses k w = (cached : Dict Key Location) × (w.cache ≡ some cached) × (Dict.lookup k cached ≡ none)

cache_objects-misses :
    (k : Key) (path : Text) (records : List Pending) (cached : Dict Key Location)
    → All (λ j. k ≢ j) (map key_of records)
    → Dict.lookup k cached ≡ none
    → Dict.lookup k (cache_objects path records cached) ≡ none
unfolding cache_objects
cache_objects-misses k path [] cached other h = h
cache_objects-misses k path (x ∷ records) cached other h =
    cache_objects-misses k path records
      (if is_some (Dict.lookup (key_of x) cached)
        then cached
        else Dict.insert (key_of x) (location_at path x) cached)
      other.1
      (if_elim {A = Dict Key Location} (λ c. Dict.lookup k c ≡ none)
        (is_some (Dict.lookup (key_of x) cached)) (λ _. h)
        (λ _. Dict.lookup-insert_ne k (key_of x) (location_at path x) cached other.0 ∙ h))

abbrev MissesAfter : Key → Result PublishError (Unit {0}) × World → Type 0
MissesAfter k o = Misses k o.1

module _ (env : PublishEnv) (pack_id staging final : Text) (k : Key) (r : Location) (w : World)
    (row : Dict.lookup k (db_of w).objects ≡ some r) (miss : Misses k w) where
  commit_pack-misses :
      (file : Bytes) (unique : List Pending)
      → All (λ j. k ≢ j) (map key_of unique)
      → MissesAfter k (commit_pack env pack_id staging final file unique w)
  unfolding commit_pack
  commit_pack-misses file unique other =
      if_elim (MissesAfter k) env.rename_fails (λ _. miss)
        λ _.
          if_elim (MissesAfter k) env.insert_fails (λ _. miss)
            λ _.
              if_elim (MissesAfter k) (is_some (Dict.lookup pack_id (db_of w).packs)) (λ _. miss)
                λ _. (
                  cache_objects final unique (or_empty w.cache),
                  refl,
                  cache_objects-misses k final unique (or_empty w.cache) other
                      (rw (miss.1) (miss.2)),
                )

  commit_compacted-misses :
      (o : Option (Bytes × List Pending))
      → ((a : Bytes) (b : List Pending) → o ≡ some (a, b) → All (λ j. k ≢ j) (map key_of b))
      → MissesAfter k (commit_compacted o env pack_id staging final w)
  commit_compacted-misses none other = miss
  commit_compacted-misses (some (file, kept)) other =
      commit_pack-misses file kept (other file kept refl)

  publish_unique-misses :
      (records unique : List Pending)
      → All (λ j. k ≢ j) (map key_of unique)
      → MissesAfter k (publish_unique env pack_id staging final records unique w)
  unfolding publish_unique
  publish_unique-misses records [] other =
      if_elim (MissesAfter k) env.remove_fails (λ _. miss) (λ _. miss)
  publish_unique-misses records (x ∷ unique) other =
      if_elim (MissesAfter k) (eqb (length (x ∷ unique)) (length records))
        (λ _. commit_pack-misses (file_of staging w) (x ∷ unique) other)
        λ _.
          if_elim (MissesAfter k) env.compact_fails (λ _. miss)
            λ _.
              commit_compacted-misses (compact_pack (file_of staging w) (x ∷ unique))
                (compact_pack-ne k (file_of staging w) (x ∷ unique) other)

  publish_index-misses :
      (records : List Pending) → MissesAfter k (publish_index env pack_id staging final records w)
  unfolding publish_index
  publish_index-misses records =
      if_elim (MissesAfter k) env.index_fails (λ _. miss)
        λ _.
          publish_unique-misses records (unique_records (db_of w).objects records)
            (unique_records-ne k r (db_of w).objects records row)

finish-Misses :
    (k : Key) (s : Store) (o : Result PublishError (Unit {0}) × World)
    → MissesAfter k o
    → Misses k (finish s o).2
finish-Misses k s (err e, w) h = h
finish-Misses k s (ok u, w) h = h

lookup_record-Misses : (k : Key) (w : World) → Misses k w → (lookup_record false k w).0 ≡ ok none
unfolding lookup_record load_cache
lookup_record-Misses k w (cached, loaded, missing) = ground (arith)

-- If the index has a row for an object that the loaded cache of this process lacks, the lookup in
-- this process still finds nothing after any publication.
pub lookup_record-after_publish :
    (env : PublishEnv) (s : Store) (w : World) (k : Key) (r : Location) (cached : Dict Key Location)
    → Dict.lookup k (db_of w).objects ≡ some r
    → w.cache ≡ some cached
    → Dict.lookup k cached ≡ none
    → (lookup_record false k (publish env s w).2).0 ≡ ok none
unfolding publish
lookup_record-after_publish env s w k r cached row loaded missing =
    lookup_record-Misses k (publish env s w).2 (
      if_elim After s.published (λ _. miss)
        λ _.
          if_elim After (not s.is_open) (λ _. miss)
            λ _.
              if_elim After env.sync_fails (λ _. miss)
                λ _.
                  if_elim After env.close_fails (λ _. miss)
                    λ _.
                      if_elim After env.mkdir_fails (λ _. miss)
                        λ _.
                          finish-Misses k (record s { is_open = false })
                            (publish_index env (pack_id_of s.staging_path) s.staging_path
                              (final_path_of env s.staging_path) s.records w)
                            (publish_index-misses env (pack_id_of s.staging_path) s.staging_path
                              (final_path_of env s.staging_path) k r w row miss s.records))
  where
    miss : Misses k w
    miss = (cached, loaded, missing)

    After : Published → Type 0
    After o = Misses k o.2
