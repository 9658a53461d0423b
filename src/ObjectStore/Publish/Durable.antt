-- ===== src/ObjectStore/Publish/Durable.antt =====
-- The index against the packs: what a row stands for, before and after a publication of
-- internal/objectstore/store.go.
use wowdoc.Base.{◌≡◌, ◌≢◌, subst, sym, ◌∙◌, some}
use wowdoc.Base.{List, [], ◌∷◌, Text, All-map, Any, ◌⊎◌, inl, inr}
use wowdoc.Base.{Result, ok, if_elim, text_eq, length, eqb}
use wowdoc.Base.Dict
use wowdoc.ObjectStore.Hex.{Bytes}
use wowdoc.ObjectStore.Pack.{Platform, IsLawful, hash, Location, Disk}
use wowdoc.ObjectStore.Pack.Stored.{Stored, HasMagic, Stored-moved}
use wowdoc.ObjectStore.Index.{Key, key_eq, World}
use wowdoc.ObjectStore.Builder.{Pending, file_of}
use wowdoc.ObjectStore.Builder.Staged.{Holds, IsPack, location_in}
use wowdoc.ObjectStore.Publish.{PublishEnv, PublishError, key_of, location_at, db_of}
use wowdoc.ObjectStore.Publish.{unique_records, commit_pack, publish_unique, publish_index}
use wowdoc.ObjectStore.Publish.{is_some}
use wowdoc.ObjectStore.Publish.Compact.{compact_pack-IsPack}
use wowdoc.ObjectStore.Publish.Rows.{
  Present, IsPending, insert_objects-cases, Present-insert_objects,
}
use wowdoc.ObjectStore.Publish.Rows.{All-unique_records, unique_records-covers}

-- A publication that succeeds leaves a row for the key.
abbrev pub Committed : Result PublishError (Unit {0}) × World → Key → Type 0
Committed o k = o.0 ≡ ok tt → Present k (db_of o.1).objects

module _ (p : Platform) where
  -- The pack that a row names holds an object with the row's key.
  pub record HoldsAt (disk : Disk) (k : Key) (r : Location) : Type 0 where
    pub file : Bytes
    pub found : Dict.lookup r.path disk ≡ some file
    pub magic : HasMagic p file
    pub content : Bytes
    pub stored : Stored p file r k.kind content
    pub same_hash : k.hash ≡ hash p content

  pub record IsTruthful (w : World) : Type 0 where
    pub at :
        (k : Key) (r : Location) → Dict.lookup k (db_of w).objects ≡ some r → HoldsAt w.disk k r

  -- No row names the staging file or the final path of the new pack.
  pub record IsFresh (staging final : Text) (w : World) : Type 0 where
    pub at :
        (k : Key) (r : Location)
        → Dict.lookup k (db_of w).objects ≡ some r
        → (r.path ≢ final) × (r.path ≢ staging)

  HoldsAt-other :
      (disk disk' : Disk) (k : Key) (r : Location)
      → Dict.lookup r.path disk' ≡ Dict.lookup r.path disk
      → HoldsAt disk k r
      → HoldsAt disk' k r
  HoldsAt-other disk disk' k r e h = record {
    file = h.file;
    found = e ∙ h.found;
    magic = h.magic;
    content = h.content;
    stored = h.stored;
    same_hash = h.same_hash;
  }

  HoldsAt-new :
      (disk : Disk) (path : Text) (file : Bytes) (x : Pending)
      → HasMagic p file
      → Dict.lookup path disk ≡ some file
      → Holds p file x
      → HoldsAt disk (key_of x) (location_at path x)
  HoldsAt-new disk path file x m found (content, st, e) = record {
    file = file;
    found = found;
    magic = m;
    content = content;
    stored = Stored-moved p file (location_in [] x) path x.kind content st;
    same_hash = e;
  }

  abbrev pub LeavesTruthful : Result PublishError (Unit {0}) × World → Type 0
  LeavesTruthful o = IsTruthful o.1

  module _ (staging final : Text) (w : World) (t : IsTruthful w) (f : IsFresh staging final w) where
    -- The published packs are the same files after the rename.
    renamed_HoldsAt :
        (file : Bytes) (k : Key) (r : Location)
        → Dict.lookup k (db_of w).objects ≡ some r
        → HoldsAt (Dict.insert final file (Dict.erase staging w.disk)) k r
    renamed_HoldsAt file k r h =
        HoldsAt-other w.disk _ k r
          (Dict.lookup-insert_ne r.path final file (Dict.erase staging w.disk) (f.at k r h).0
            ∙ Dict.lookup-erase_ne r.path staging w.disk (f.at k r h).1)
          (t.at k r h)

    commit_pack-IsTruthful :
        (env : PublishEnv) (pack_id : Text) (file : Bytes) (unique : List Pending)
        → IsPack p file unique
        → LeavesTruthful (commit_pack env pack_id staging final file unique w)
    unfolding commit_pack
    commit_pack-IsTruthful env pack_id file unique k =
        if_elim LeavesTruthful env.rename_fails (λ _. t)
          λ _.
            if_elim LeavesTruthful env.insert_fails (λ _. record { at = renamed_HoldsAt file })
              λ _.
                if_elim LeavesTruthful (is_some (Dict.lookup pack_id (db_of w).packs))
                  (λ _. record { at = renamed_HoldsAt file })
                  λ _. record {
                    at =
                        insert_objects-cases
                          (HoldsAt (Dict.insert final file (Dict.erase staging w.disk))) final
                          unique (db_of w).objects
                          (All-map
                            (λ x.
                              HoldsAt-new (Dict.insert final file (Dict.erase staging w.disk)) final
                                file x k.magic
                                (Dict.lookup-insert_self final file (Dict.erase staging w.disk)))
                            unique k.held)
                          (renamed_HoldsAt file);
                  }

    erased_IsTruthful :
        IsTruthful (record w { db = some (db_of w); disk = Dict.erase staging w.disk })
    erased_IsTruthful = record {
      at = λ k r h.
          HoldsAt-other w.disk _ k r (Dict.lookup-erase_ne r.path staging w.disk (f.at k r h).1)
            (t.at k r h);
    }

module _ (p : Platform) (lawful : IsLawful p) (staging final : Text) (w : World)
    (t : IsTruthful p w) (f : IsFresh p staging final w) (env : PublishEnv) (pack_id : Text) where
  publish_unique-IsTruthful :
      (records unique : List Pending)
      → IsPack p (file_of staging w) unique
      → LeavesTruthful p (publish_unique env pack_id staging final records unique w)
  unfolding publish_unique
  publish_unique-IsTruthful records [] k =
      if_elim (LeavesTruthful p) env.remove_fails (λ _. record { at = t.at })
        (λ _. erased_IsTruthful p staging final w t f)
  publish_unique-IsTruthful records (r ∷ unique) k =
      if_elim (LeavesTruthful p) (eqb (length (r ∷ unique)) (length records))
        (λ _. commit_pack-IsTruthful p staging final w t f env pack_id _ (r ∷ unique) k)
        λ _.
          if_elim (LeavesTruthful p) env.compact_fails (λ _. t)
            λ _.
              let (packed, kept, computes, valid, same) =
                compact_pack-IsPack p lawful (file_of staging w) (r ∷ unique) k in
              rw computes
                (commit_pack-IsTruthful p staging final w t f env pack_id packed kept valid)

  pub publish_index-IsTruthful :
      (records : List Pending)
      → IsPack p (file_of staging w) records
      → LeavesTruthful p (publish_index env pack_id staging final records w)
  unfolding publish_index
  publish_index-IsTruthful records k =
      if_elim (LeavesTruthful p) env.index_fails (λ _. t)
        λ _. publish_unique-IsTruthful records (unique_records (db_of w).objects records) (record {
          magic = k.magic;
          held = All-unique_records (Holds p (file_of staging w)) (db_of w).objects records k.held;
        })

  commit_pack-Present :
      (file : Bytes) (unique : List Pending) (k : Key)
      → IsPending k unique ⊎ Present k (db_of w).objects
      → Committed (commit_pack env pack_id staging final file unique w) k
  unfolding commit_pack
  commit_pack-Present file unique k h =
      if_elim (λ o. Committed o k) env.rename_fails (λ _ e. cc)
        λ _.
          if_elim (λ o. Committed o k) env.insert_fails (λ _ e. cc)
            λ _.
              if_elim (λ o. Committed o k) (is_some (Dict.lookup pack_id (db_of w).packs))
                (λ _ e. cc) λ _ _. Present-insert_objects k final unique (db_of w).objects h

  publish_unique-Present :
      (records unique : List Pending) (k : Key)
      → IsPack p (file_of staging w) unique
      → IsPending k unique ⊎ Present k (db_of w).objects
      → Committed (publish_unique env pack_id staging final records unique w) k
  unfolding publish_unique
  publish_unique-Present records [] k s (inl h) = absurd h
  publish_unique-Present records [] k s (inr h) =
      if_elim (λ o. Committed o k) env.remove_fails (λ _ e. cc) (λ _ _. h)
  publish_unique-Present records (r ∷ unique) k s h =
      if_elim (λ o. Committed o k) (eqb (length (r ∷ unique)) (length records))
        (λ _. commit_pack-Present _ (r ∷ unique) k h)
        λ _.
          if_elim (λ o. Committed o k) env.compact_fails (λ _ e. cc)
            λ _.
              let (packed, kept, computes, valid, same) =
                compact_pack-IsPack p lawful (file_of staging w) (r ∷ unique) s in
              rw computes (
                commit_pack-Present packed kept k
                  (subst (λ ks. Any (λ j. k ≡ j) ks ⊎ Present k (db_of w).objects) (sym same) h))

  pub publish_index-Present :
      (records : List Pending) (k : Key)
      → IsPack p (file_of staging w) records
      → IsPending k records
      → Committed (publish_index env pack_id staging final records w) k
  unfolding publish_index
  publish_index-Present records k s h =
      if_elim (λ o. Committed o k) env.index_fails (λ _ e. cc)
        λ _.
          publish_unique-Present records (unique_records (db_of w).objects records) k
            (record {
              magic = s.magic;
              held =
                  All-unique_records (Holds p (file_of staging w)) (db_of w).objects records s.held;
            })
            (unique_records-covers k (db_of w).objects records h)
