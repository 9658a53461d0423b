-- ===== src/ObjectStore/Publish.antt =====
-- Publishing a staging pack: `Publish`, `publishIndex`, `compactPack` and `Abort` of
-- internal/objectstore/store.go.
pub mod Pack
unfoldable pub use Pack.*
pub mod Compact
pub mod Rows
pub mod Durable
pub mod Keeps
pub mod Retry
use wowdoc.Base.{
  ℕ, ◌+◌, Bool, true, false, not, Option, none, some, List, [], ◌∷◌, ◌++◌, ◌&&◌, map, Text, codes,
}
use wowdoc.Base.{◌==◌, text_eq, length, eqb, Result, ok, err, if◌then◌else◌}
use wowdoc.Base.Dict
use wowdoc.Base.Dict.{Dict}
use wowdoc.Strings.{trim_suffix, base}
use wowdoc.ObjectStore.Hex.{Bytes}
use wowdoc.ObjectStore.Header.{pack_magic}
use wowdoc.ObjectStore.Pack.{read_at, Location}
use wowdoc.ObjectStore.Index.{Key, key_eq, Db, empty_db, World}
use wowdoc.ObjectStore.Builder.{Pending, Store, file_of}

-- Which calls fail during one publication.
pub record PublishEnv : Type 0 where
  pub sync_fails : Bool
  pub close_fails : Bool
  pub mkdir_fails : Bool
  pub index_fails : Bool
  pub compact_fails : Bool
  pub rename_fails : Bool
  pub insert_fails : Bool
  pub remove_fails : Bool
  pub packs_dir : Text

pub data PublishError : Type 0 where
  sync_failed close_failed mkdir_failed index_failed compact_failed : PublishError
  rename_failed insert_failed remove_failed : PublishError

abbrev pub is_some {ℓ} : {A : Type ℓ} → Option A → Bool
is_some none = false
is_some (some a) = true

-- The records that `objects` has no row of.
unfoldable pub unique_records : Dict Key Location → List Pending → List Pending
unique_records objects [] = []
unique_records objects (r ∷ records) =
    let rest = unique_records objects records in
    if is_some (Dict.lookup (key_of r) objects) then rest else r ∷ rest

-- The rows of the new pack.
unfoldable pub insert_objects : Text → List Pending → Dict Key Location → Dict Key Location
insert_objects path [] objects = objects
insert_objects path (r ∷ records) objects =
    insert_objects path records (Dict.insert (key_of r) (location_at path r) objects)

-- The entries of the cache: one that is there stays.
unfoldable pub cache_objects : Text → List Pending → Dict Key Location → Dict Key Location
cache_objects path [] cached = cached
cache_objects path (r ∷ records) cached = cache_objects path records (
    if is_some (Dict.lookup (key_of r) cached)
    then cached
    else Dict.insert (key_of r) (location_at path r) cached)

abbrev pub or_empty : Option (Dict Key Location) → Dict Key Location
or_empty none = []
or_empty (some cached) = cached

abbrev pub db_or_empty : Option Db → Db
db_or_empty none = empty_db
db_or_empty (some db) = db

abbrev pub db_of : World → Db
db_of w = db_or_empty w.db

-- From the rename on: the pack stands at its final path, its rows are inserted in the transaction,
-- and after the commit they are cached.
unfoldable pub commit_pack :
    PublishEnv
    → Text
    → Text
    → Text
    → Bytes
    → List Pending
    → World
    → Result PublishError (Unit {0}) × World
commit_pack env pack_id staging final file unique w =
    if env.rename_fails
    then (err rename_failed, w)
    else let renamed : World = record w {
      disk = Dict.insert final file (Dict.erase staging w.disk);
    } in
      if env.insert_fails
      then (err insert_failed, renamed)
      else if is_some (Dict.lookup pack_id (db_of w).packs)
      then (err insert_failed, renamed)
      else (
        ok tt,
        record renamed {
          db = some (record {
            packs = Dict.insert pack_id final (db_of w).packs;
            objects = insert_objects final unique (db_of w).objects;
          });
          cache = some (cache_objects final unique (or_empty w.cache));
        },
      )

abbrev pub commit_compacted :
    Option (Bytes × List Pending)
    → PublishEnv
    → Text
    → Text
    → Text
    → World
    → Result PublishError (Unit {0}) × World
commit_compacted none env pack_id staging final w = (err compact_failed, w)
commit_compacted (some (file, unique)) env pack_id staging final w =
    commit_pack env pack_id staging final file unique w

-- The three ways of `publishIndex`: nothing new, all new, and a compacted pack of what is new.
unfoldable pub publish_unique :
    PublishEnv
    → Text
    → Text
    → Text
    → List Pending
    → List Pending
    → World
    → Result PublishError (Unit {0}) × World
publish_unique env pack_id staging final records [] w =
    let committed : World = record w { db = some (db_of w) } in
    if env.remove_fails
    then (err remove_failed, committed)
    else (ok tt, record committed { disk = Dict.erase staging w.disk })
publish_unique env pack_id staging final records (r ∷ unique) w =
    if eqb (length (r ∷ unique)) (length records)
    then commit_pack env pack_id staging final (file_of staging w) (r ∷ unique) w
    else if env.compact_fails
    then (err compact_failed, w)
    else commit_compacted (compact_pack (file_of staging w) (r ∷ unique)) env pack_id staging final
        w

-- `publishIndex`
unfoldable pub publish_index :
    PublishEnv → Text → Text → Text → List Pending → World → Result PublishError (Unit {0}) × World
publish_index env pack_id staging final records w =
    if env.index_fails
    then (err index_failed, w)
    else publish_unique env pack_id staging final records (unique_records (db_of w).objects records)
        w

-- The id of a pack is the name of its staging file.
unfoldable pub pack_id_of : Text → Text
pack_id_of staging = trim_suffix (trim_suffix (base staging) (codes ".pack.tmp")) (codes ".tmp")

unfoldable pub final_path_of : PublishEnv → Text → Text
final_path_of env staging = env.packs_dir ++ (codes "/" ++ (pack_id_of staging ++ codes ".pack"))

abbrev pub Published : Type 0
Published = Result PublishError (Unit {0}) × Store × World

abbrev pub finish : Store → Result PublishError (Unit {0}) × World → Published
finish s (err e, w) = (err e, s, w)
finish s (ok u, w) = (ok tt, record s { staging_path = []; published = true }, w)

-- `Publish`
unfoldable pub publish : PublishEnv → Store → World → Published
publish env s w =
    if s.published
    then (ok tt, s, w)
    else if not s.is_open
    then (ok tt, record s { published = true }, w)
    else if env.sync_fails
    then (err sync_failed, s, w)
    else if env.close_fails
    then (err close_failed, s, w)
    else if env.mkdir_fails
    then (err mkdir_failed, record s { is_open = false }, w)
    else finish (record s { is_open = false })
        (publish_index env (pack_id_of s.staging_path) s.staging_path
          (final_path_of env s.staging_path) s.records w)

-- `Abort`; `close_fails` and `remove_fails` say which calls fail. The result tells whether all
-- went well. The path is forgotten in either case.
unfoldable pub abort : PublishEnv → Store → World → Bool × Store × World
abort env s w =
    let closed : Bool = not (s.is_open && env.close_fails) in
    if s.staging_path == []
    then (closed, record s { is_open = false }, w)
    else if env.remove_fails
    then (false, record s { is_open = false; staging_path = [] }, w)
    else (
      closed,
      record s { is_open = false; staging_path = [] },
      record w { disk = Dict.erase s.staging_path w.disk },
    )
