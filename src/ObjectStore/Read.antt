-- ===== src/ObjectStore/Read.antt =====
-- Reading objects: `Exists`, `Open`, `OpenAST`, `Location`, `OpenSource`, `legacyPath` and
-- `NormalizePath` of internal/objectstore/store.go.
pub mod Durable
use wowdoc.Base.{
  ℕ, ◌+◌, Bool, true, false, ◌&&◌, Option, none, some, List, [], ◌∷◌, ◌++◌, Text, codes,
}
use wowdoc.Base.{◌==◌, text_eq, ltb, length, take, Result, ok, err, if◌then◌else◌}
use wowdoc.Base.Dict
use wowdoc.Strings.{to_lower, replace_rune}
use wowdoc.ObjectStore.Hex.{Bytes}
use wowdoc.ObjectStore.Header.{Kind, source, asset, ast}
use wowdoc.ObjectStore.Pack.{Platform, Disk, Location, OpenError, open_pack_record}
use wowdoc.ObjectStore.Index.{Key, World, LookupError, lookup_record}
use wowdoc.ObjectStore.Builder.{Locator, published_at}

-- The directories of `home.Layout` that the store reads.
pub record Layout : Type 0 where
  pub objects : Text
  pub assets : Text
  pub asts : Text

-- filepath.Join of a directory and a name below it.
abbrev pub join_path : Text → Text → Text
join_path dir name = dir ++ (codes "/" ++ name)

-- `legacyPath`; empty for a hash of fewer than two bytes.
unfoldable pub legacy_path : Layout → Kind → Text → Text
legacy_path layout kind hash = if ltb (length hash) 2 then [] else elim kind [
  | asset ↦ join_path layout.assets (join_path (take 2 hash) hash)
  | ast ↦ join_path layout.asts (join_path (take 2 hash) (hash ++ codes ".json"))
  | source ↦ join_path layout.objects (join_path (take 2 hash) hash)
]

pub data ReadError : Type 0 where
  no_such_file end_of_file bad_gzip invalid_content_hash : ReadError
  lookup : LookupError → ReadError
  pack : OpenError → ReadError

abbrev lift_pack : Result OpenError Bytes → Result ReadError Bytes
lift_pack (ok content) = ok content
lift_pack (err e) = err (pack e)

module _ (p : Platform) where
  abbrev gunzipped : Option Bytes → Result ReadError Bytes
  gunzipped none = err bad_gzip
  gunzipped (some content) = ok content

  -- The two formats of a legacy file, told apart by its first two bytes. No byte at all is the
  -- error `io.EOF`; a single byte is raw.
  unfoldable pub read_legacy : Bytes → Result ReadError Bytes
  read_legacy [] = err end_of_file
  read_legacy (a ∷ []) = ok (a ∷ [])
  read_legacy (a ∷ b ∷ bytes) =
      if (a ∷ b ∷ []) == (0x1f ∷ 0x8b ∷ [])
      then gunzipped (p.gunzip (a ∷ b ∷ bytes))
      else ok (a ∷ b ∷ bytes)

  -- `OpenSource`, read to the end.
  unfoldable pub open_source : Disk → Text → Result ReadError Bytes
  open_source disk path = elim (Dict.lookup path disk) [
    | none ↦ err no_such_file
    | some bytes ↦ read_legacy bytes
  ]

  abbrev pub opened :
      Key
      → Result ReadError Bytes
      → Result LookupError (Option Location) × World
      → Result ReadError Bytes × World
  opened k legacy (err e, w) = (err (lookup e), w)
  opened k legacy (ok (some r), w) = (lift_pack (open_pack_record p w.disk r k.kind k.hash), w)
  opened k legacy (ok none, w) = (legacy, w)

  -- `Open`, read to the end.
  unfoldable pub open_object : Bool → Layout → Key → World → Result ReadError Bytes × World
  open_object fails layout k w =
      opened k (open_source w.disk (legacy_path layout k.kind k.hash)) (lookup_record fails k w)

  -- `OpenAST`, read to the end.
  unfoldable pub open_ast :
      Bool → Layout → Text → Text → Text → World → Result ReadError Bytes × World
  open_ast fails layout schema content_hash ast_hash w =
      let legacy : Result ReadError Bytes =
        if ltb (length content_hash) 2
        then err invalid_content_hash
        else open_source w.disk (
            join_path layout.asts (
              join_path schema
                (join_path (take 2 content_hash) (content_hash ++ codes ".json")))) in
      opened (record { kind = ast; hash = ast_hash }) legacy
        (lookup_record fails (record { kind = ast; hash = ast_hash }) w)

abbrev is_present : Option Bytes → Bool
is_present none = false
is_present (some bytes) = true

abbrev found_in : Bool → Result LookupError (Option Location) × World → Bool × World
found_in legacy (ok (some r), w) = (true, w)
found_in legacy (ok none, w) = (legacy, w)
found_in legacy (err e, w) = (legacy, w)

-- `Exists`
unfoldable pub exists : Bool → Layout → Key → World → Bool × World
exists fails layout k w =
    found_in (is_present (Dict.lookup (legacy_path layout k.kind k.hash) w.disk))
      (lookup_record fails k w)

-- What `Location` answers: a place in a pack, or the path of a legacy file.
pub data Place : Type 0 where
  in_pack : Location → Place
  in_file : Text → Place

abbrev placed : Place → Result LookupError (Option Location) × World → Place × World
placed legacy (ok (some r), w) = (in_pack r, w)
placed legacy (ok none, w) = (legacy, w)
placed legacy (err e, w) = (legacy, w)

-- `Location`
unfoldable pub location : Bool → Layout → Key → World → Place × World
location fails layout k w =
    placed (in_file (legacy_path layout k.kind k.hash)) (lookup_record fails k w)

-- `NormalizePath`, for a path that has forward or backward slashes.
unfoldable pub normalize_path : Text → Text
normalize_path path = to_lower (replace_rune b'/' (codes "\\") path)
