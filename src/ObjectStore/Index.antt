-- ===== src/ObjectStore/Index.antt =====
-- The index of published packs and its in-process cache: `lookupRecord` and `lookup` of
-- internal/objectstore/store.go, over the tables of index.sqlite.
use wowdoc.Base.{Bool, Option, none, some, [], Text, Eq, text_eq}
use wowdoc.Base.{ℕ_discrete, Result, ok, err, if◌then◌else◌}
use wowdoc.Base.Dict
use wowdoc.Base.Dict.{Dict}
use wowdoc.ObjectStore.Header.{Kind}
use wowdoc.ObjectStore.Pack.{Disk, Location}

-- `string(kind) + ":" + hash`. No kind holds a colon, so the pair is the same key.
pub record Key : Type 0 where
  pub kind : Kind
  pub hash : Text

key_dec : Discrete Key
key_dec = hlevel ℕ_discrete

instance unfoldable pub key_eq : Eq Key
unfolding key_dec
key_eq = record { dec = key_dec }

-- The rows of `packs`, by id, and of `objects JOIN packs`, by their primary key.
pub record Db : Type 0 where
  pub packs : Dict Text Text
  pub objects : Dict Key Location

abbrev pub empty_db : Db
empty_db = record { packs = []; objects = [] }

-- The files, index.sqlite if it exists, and the entry of `catalogCache` if it was loaded.
pub record World : Type 0 where
  pub disk : Disk
  pub db : Option Db
  pub cache : Option (Dict Key Location)

pub data LookupError : Type 0 where
  db_failed : LookupError

-- `lookupRecord`. The database is read once, and a lookup after that goes to the cache.
-- `fails` says whether a call on the database file fails.
unfoldable pub load_cache : Bool → World → Result LookupError (Dict Key Location)
load_cache fails w = elim w.cache [
  | some cached ↦ ok cached
  | none ↦ if fails then err db_failed else elim w.db [ none ↦ ok [] | some db ↦ ok db.objects ]
]

abbrev pub look_in :
    Result LookupError (Dict Key Location)
    → Key
    → World
    → Result LookupError (Option Location) × World
look_in (err e) key w = (err e, w)
look_in (ok cached) key w = (ok (Dict.lookup key cached), record w { cache = some cached })

unfoldable pub lookup_record : Bool → Key → World → Result LookupError (Option Location) × World
lookup_record fails key w = look_in (load_cache fails w) key w
