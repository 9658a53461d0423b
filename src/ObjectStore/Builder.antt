-- ===== src/ObjectStore/Builder.antt =====
-- One build's staging pack: `Store`, `put`, `openStaging` and `Abort` of
-- internal/objectstore/store.go.
pub mod Staged
pub mod Accounted
use wowdoc.Base.{ℕ, ◌+◌, ◌≡◌, Bool, true, false, not, ◌&&◌, ◌||◌, Option, none, some}
use wowdoc.Base.{
  List, [], ◌∷◌, ◌++◌, map, Text, codes, Eq, ◌==◌, contains, text_eq, leb, eqb, length, take,
}
use wowdoc.Base.{Result, ok, err, required, ◌>>=◌, if◌then◌else◌}
use wowdoc.Base.Dict
use wowdoc.Base.Dict.{Dict}
use wowdoc.ObjectStore.Hex.{Bytes}
use wowdoc.ObjectStore.Header
use wowdoc.ObjectStore.Header.{
  Kind, source, asset, ast, pack_magic, codec_raw, codec_gzip, encode_record_header,
}
use wowdoc.ObjectStore.Pack.{Platform, hash, Disk, Location}
use wowdoc.ObjectStore.Index
use wowdoc.ObjectStore.Index.{Key, key_eq, World, lookup_record}

-- `pendingRecord`
pub record Pending : Type 0 where
  pub kind : Kind
  pub hash : Text
  pub offset : ℕ
  pub compressed : ℕ
  pub original : ℕ
  pub codec : ℕ

-- `Store`. `is_open` says that `file` is not nil; `staging_path` is empty while there is no file.
pub record Store : Type 0 where
  pub task_id : Text
  pub is_open : Bool
  pub staging_path : Text
  pub records : List Pending
  pub local : List Key
  pub published : Bool

is_task_rune : ℕ → Bool
is_task_rune r =
    leb b'a' r && leb r b'z'
    || leb b'A' r && leb r b'Z'
    || leb b'0' r && leb r b'9'
    || eqb r b'-'
    || eqb r b'_'

-- `sanitize`
unfoldable pub sanitize : Text → Text
unfolding is_task_rune
sanitize [] = codes "task"
sanitize (c ∷ cs) = map (λ r. if is_task_rune r then r else b'-') (c ∷ cs)

-- `New`
unfoldable pub new : Text → Store
new task_id = record {
  task_id = sanitize task_id;
  is_open = false;
  staging_path = [];
  records = [];
  local = [];
  published = false;
}

-- Which calls of the operating system fail during one `put`, and the name that `CreateTemp`
-- chooses. `write_stops = some n`: the writes fail after `n` bytes have reached the file.
pub record PutEnv : Type 0 where
  pub lookup_fails : Bool
  pub gzip_fails : Bool
  pub create_fails : Bool
  pub magic_fails : Bool
  pub seek_fails : Bool
  pub write_stops : Option ℕ
  pub temp_path : Text

pub data PutError : Type 0 where
  already_published lookup_failed gzip_failed create_failed magic_failed : PutError
  seek_failed bad_hash write_failed bad_json : PutError

-- What `put` answers for the place of an object: the staging pack, or a published location.
pub data Locator : Type 0 where
  staging : Locator
  published_at : Location → Locator

pub record PutResult : Type 0 where
  pub hash : Text
  pub locator : Locator
  pub reused : Bool

-- A method returns its result with the store and the world that it leaves.
abbrev pub Outcome : Type 0 → Type 0
Outcome A = Result PutError A × Store × World

-- `openStaging`
unfoldable pub open_staging : PutEnv → Store → World → Outcome (Unit {0})
open_staging env s w =
    if s.is_open
    then (ok tt, s, w)
    else if env.create_fails
    then (err create_failed, s, w)
    else if env.magic_fails
    then (err magic_failed, s, w)
    else (
      ok tt,
      record s { is_open = true; staging_path = env.temp_path },
      record w { disk = Dict.insert env.temp_path pack_magic w.disk },
    )

abbrev pub bytes_of : Option Bytes → Bytes
bytes_of none = []
bytes_of (some bytes) = bytes

abbrev pub file_of : Text → World → Bytes
file_of path w = bytes_of (Dict.lookup path w.disk)

-- A sequential write at the end of the staging file.
unfoldable pub append_file : Text → Bytes → World → World
append_file path bytes w = record w { disk = Dict.insert path (file_of path w ++ bytes) w.disk }

module _ (p : Platform) where
  -- The codec and the payload of a record, before its header is written.
  unfoldable pub encode_payload : PutEnv → Bool → Bytes → Result PutError (ℕ × Bytes)
  encode_payload env compress content =
      if compress
      then if env.gzip_fails
        then err gzip_failed
        else (required (p.gzip content) gzip_failed >>= λ z. ok (codec_gzip, z))
      else ok (codec_raw, content)

  abbrev pub pending : Kind → Bytes → ℕ → Bytes → ℕ → Pending
  pending kind content codec payload offset = record {
    kind = kind;
    hash = hash p content;
    offset = offset;
    compressed = length payload;
    original = length content;
    codec = codec;
  }

  -- The two writes, and the entry in `records` and `local` behind them.
  unfoldable pub write_bytes :
      Option ℕ → Kind → Bytes → ℕ → Bytes → Bytes → Store → World → Outcome PutResult
  write_bytes (some n) kind content codec payload header s w =
      (err write_failed, s, append_file s.staging_path (take n (header ++ payload)) w)
  write_bytes none kind content codec payload header s w = (
    ok (record { hash = hash p content; locator = staging; reused = false }),
    record s {
      records =
          s.records ++ pending kind content codec payload (length (file_of s.staging_path w)) ∷ [];
      local = record { kind = kind; hash = hash p content } ∷ s.local;
    },
    append_file s.staging_path (header ++ payload) w,
  )

  abbrev pub write_headed :
      Result Header.Error Bytes
      → PutEnv
      → Kind
      → Bytes
      → ℕ
      → Bytes
      → Store
      → World
      → Outcome PutResult
  write_headed (err e) env kind content codec payload s w = (err bad_hash, s, w)
  write_headed (ok header) env kind content codec payload s w =
      write_bytes env.write_stops kind content codec payload header s w

  -- From the seek on.
  unfoldable pub write_record :
      PutEnv → Kind → Bytes → ℕ × Bytes → Store → World → Outcome PutResult
  write_record env kind content (codec, payload) s w =
      if env.seek_fails
      then (err seek_failed, s, w)
      else write_headed
          (encode_record_header kind codec (hash p content) (length content) (length payload)) env
          kind content codec payload s w

  abbrev pub write_opened :
      PutEnv → Kind → Bytes → ℕ × Bytes → Outcome (Unit {0}) → Outcome PutResult
  write_opened env kind content encoded (err e, s, w) = (err e, s, w)
  write_opened env kind content encoded (ok u, s, w) = write_record env kind content encoded s w

  abbrev pub put_encoded :
      PutEnv → Kind → Bytes → Result PutError (ℕ × Bytes) → Store → World → Outcome PutResult
  put_encoded env kind content (err e) s w = (err e, s, w)
  put_encoded env kind content (ok encoded) s w =
      write_opened env kind content encoded (open_staging env s w)

  -- The record of an object that is neither staged nor published.
  unfoldable pub put_new : PutEnv → Kind → Bytes → Bool → Store → World → Outcome PutResult
  put_new env kind content compress s w =
      put_encoded env kind content (encode_payload env compress content) s w

  abbrev pub put_looked_up :
      PutEnv
      → Kind
      → Bytes
      → Bool
      → Store
      → Result Index.LookupError (Option Location) × World
      → Outcome PutResult
  put_looked_up env kind content compress s (err e, w) = (err lookup_failed, s, w)
  put_looked_up env kind content compress s (ok (some location), w) = (
    ok (record { hash = hash p content; locator = published_at location; reused = true }),
    record s { local = record { kind = kind; hash = hash p content } ∷ s.local },
    w,
  )
  put_looked_up env kind content compress s (ok none, w) = put_new env kind content compress s w

  -- `put`
  unfoldable pub put : PutEnv → Kind → Bytes → Bool → Store → World → Outcome PutResult
  put env kind content compress s w =
      let key : Key = record { kind = kind; hash = hash p content } in
      if s.published
      then (err already_published, s, w)
      else if contains s.local key
      then (ok (record { hash = hash p content; locator = staging; reused = true }), s, w)
      else put_looked_up env kind content compress s (lookup_record env.lookup_fails key w)

  -- `PutSource`, `PutAsset`, and `PutAST` on the JSON text of a tree.
  unfoldable pub put_source : PutEnv → Bytes → Store → World → Outcome PutResult
  put_source env content = put env source content true

  unfoldable pub put_asset : PutEnv → Bytes → Store → World → Outcome PutResult
  put_asset env content = put env asset content false

  unfoldable pub put_ast : PutEnv → Option Bytes → Store → World → Outcome PutResult
  put_ast env none s w = (err bad_json, s, w)
  put_ast env (some json) s w = put env ast json true s w
