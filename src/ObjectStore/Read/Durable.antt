-- ===== src/ObjectStore/Read/Durable.antt =====
-- Readers of internal/objectstore/store.go after a publication.
use wowdoc.Base.{◌≡◌, refl, sym, subst, false, not, none}
use wowdoc.Base.{arith, Result, ok, err, if_elim}
use wowdoc.ObjectStore.Hex.{Bytes}
use wowdoc.ObjectStore.Pack.{Platform, IsLawful, hash, Location, open_pack_record}
use wowdoc.ObjectStore.Pack.Stored.{read_record-Stored}
use wowdoc.ObjectStore.Index.{Key, key_eq, World, load_cache, lookup_record}
use wowdoc.ObjectStore.Builder.{Store}
use wowdoc.ObjectStore.Builder.Staged.{IsStaged}
use wowdoc.ObjectStore.Publish.{PublishEnv, PublishError, Published, db_of}
use wowdoc.ObjectStore.Publish.{publish_index, publish}
use wowdoc.ObjectStore.Publish.{final_path_of, pack_id_of, finish}
use wowdoc.ObjectStore.Publish.Rows.{Present, IsPending}
use wowdoc.ObjectStore.Publish.Durable.{
  HoldsAt, IsTruthful, IsFresh, LeavesTruthful, Committed, publish_index-IsTruthful,
  publish_index-Present,
}
use wowdoc.ObjectStore.Read.{Layout, open_object}

module _ (p : Platform) (lawful : IsLawful p) where
  open_pack_record-HoldsAt :
      (w : World) (k : Key) (r : Location) (h : HoldsAt p w.disk k r)
      → open_pack_record p w.disk r k.kind k.hash ≡ ok h.content
  unfolding open_pack_record
  open_pack_record-HoldsAt w k r h =
      rw (h.found, h.same_hash)
        (read_record-Stored p lawful h.file r k.kind h.content h.stored h.magic)

  load_cache-fresh :
      (w : World) → load_cache false (record w { cache = none }) ≡ ok (db_of w).objects
  unfolding load_cache
  load_cache-fresh w = ground arith

  -- With a truthful index, an object that has a row is opened by a process that loads the index.
  pub open_object-Present :
      (layout : Layout) (w : World) (k : Key)
      → IsTruthful p w
      → Present k (db_of w).objects
      → (content : Bytes) × ((open_object p false layout k (record w { cache = none })).0
          ≡ ok content)
        × (hash p content ≡ k.hash)
  unfolding open_object lookup_record
  open_object-Present layout w k t (r, found) =
      let h = t.at k r found in
      (h.content, rw (load_cache-fresh w, found, open_pack_record-HoldsAt w k r h), sym h.same_hash)

  abbrev LeavesTrue : Published → Type 0
  LeavesTrue o = IsTruthful p o.2

  finish-IsTruthful :
      (s : Store) (o : Result PublishError (Unit {0}) × World)
      → LeavesTruthful p o
      → LeavesTrue (finish s o)
  finish-IsTruthful s (err e, w) t = t
  finish-IsTruthful s (ok u, w) t = record { at = t.at }

  finish-Present :
      (s : Store) (o : Result PublishError (Unit {0}) × World) (k : Key)
      → Committed o k
      → (finish s o).0 ≡ ok tt
      → Present k (db_of (finish s o).2).objects
  finish-Present s (err e, w) k c h = cc
  finish-Present s (ok u, w) k c h = c refl

  module _ (env : PublishEnv) (s : Store) (w : World) (t : IsTruthful p w) (staged : IsStaged p s w)
      (fresh : IsFresh p s.staging_path (final_path_of env s.staging_path) w) where
    abbrev indexed : Result PublishError (Unit {0}) × World
    indexed =
        publish_index env (pack_id_of s.staging_path) s.staging_path
          (final_path_of env s.staging_path) s.records w

    -- Whatever fails during a publication, every row of the index still names a pack that holds an
    -- object with the row's key: for a lawful platform, a staging pack that holds the store's
    -- records, a staging file and a final path that no row names, and an index that was truthful
    -- before.
    pub publish-IsTruthful : let (r, s', w') = publish env s w in IsTruthful p w'
    unfolding publish
    publish-IsTruthful =
        if_elim LeavesTrue s.published (λ _. t)
          λ _.
            if_elim LeavesTrue (not s.is_open) (λ _. t)
              λ opened.
                if_elim LeavesTrue env.sync_fails (λ _. t)
                  λ _.
                    if_elim LeavesTrue env.close_fails (λ _. t)
                      λ _.
                        if_elim LeavesTrue env.mkdir_fails (λ _. t)
                          λ _.
                            finish-IsTruthful (record s { is_open = false }) indexed
                              (publish_index-IsTruthful p lawful s.staging_path
                                (final_path_of env s.staging_path) w t fresh env
                                (pack_id_of s.staging_path) s.records
                                (staged.opened (ground arith)))

    publish-Present :
        (k : Key)
        → s.published ≡ false
        → IsPending k s.records
        → (publish env s w).0 ≡ ok tt
        → Present k (db_of (publish env s w).2).objects
    unfolding publish
    publish-Present k unpublished h =
        if_elim Shows s.published (λ e _. cc)
          λ _.
            if_elim Shows (not s.is_open)
              (λ closed _. absurd (subst (IsPending k) (staged.closed (ground arith)) h))
              λ opened.
                if_elim Shows env.sync_fails (λ _ e. cc)
                  λ _.
                    if_elim Shows env.close_fails (λ _ e. cc)
                      λ _.
                        if_elim Shows env.mkdir_fails (λ _ e. cc)
                          λ _.
                            finish-Present (record s { is_open = false }) indexed k
                              (publish_index-Present p lawful s.staging_path
                                (final_path_of env s.staging_path) w t fresh env
                                (pack_id_of s.staging_path) s.records k
                                (staged.opened (ground arith)) h)
      where
        Shows : Published → Type 0
        Shows o = o.0 ≡ ok tt → Present k (db_of o.2).objects

    -- After a publication that reports success, a process that loads the index opens every object
    -- of the store's records and gets content with the record's hash: for a lawful platform, a
    -- store that is not published yet and whose staging pack holds its records, a staging file and
    -- a final path that no row names, and an index that was truthful before.
    pub publish-open_object :
        s.published ≡ false
        → (publish env s w).0 ≡ ok tt
        → (layout : Layout) (k : Key) → IsPending k s.records
        → (content : Bytes) × ((open_object p false layout k
              (record (publish env s w).2 { cache = none })).0
            ≡ ok content)
          × (hash p content ≡ k.hash)
    publish-open_object unpublished done layout k h =
        open_object-Present layout (publish env s w).2 k publish-IsTruthful
          (publish-Present k unpublished h done)
