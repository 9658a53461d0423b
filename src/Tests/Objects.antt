-- ===== src/Tests/Objects.antt =====
-- Concrete inputs for the theorems on the object store. The digest and the compression are toys
-- that keep the laws.
use wowdoc.Base.{
  ℕ, zero, suc, ◌%◌, ◌^◌, ◌<◌, ◌≡◌, ◌≢◌, refl, true, false, none, some, List, [], ◌∷◌, map,
}
use wowdoc.Base.{text_eq, codes, inl, arith, length, ltb, if◌then◌else◌, ok}
use wowdoc.Base.Dict
use wowdoc.Base.Dict.{Dict}
use wowdoc.Strings.{base, split, trim_suffix, last_of}
use wowdoc.ObjectStore.Hex.{Bytes, IsBytes, hex_digit, from_hex_digit, hex_encode, hex_decode}
use wowdoc.ObjectStore.Header.{
  source, asset, ast, codec_gzip, kind_code, put_uint64, encode_record_header, decode_record_header,
  pos,
}
use wowdoc.ObjectStore.Header.RoundTrip.{decode-encode}
use wowdoc.ObjectStore.Pack.{Platform, IsLawful, Location, hash}
use wowdoc.ObjectStore.Index.{Key, key_eq, World, load_cache, lookup_record}
use wowdoc.ObjectStore.Builder.{
  Pending, Store, PutEnv, PutResult, new, put, put_new, encode_payload, open_staging, write_record,
  write_bytes, append_file, file_of,
}
use wowdoc.ObjectStore.Builder.Staged.{IsPack, IsStaged, put-IsStaged}
use wowdoc.ObjectStore.Builder.Accounted.{IsAccounted, IsKnown, put-IsAccounted}
use wowdoc.ObjectStore.Publish.{
  PublishEnv, publish, publish_index, publish_unique, commit_pack, unique_records, insert_objects,
  cache_objects, pack_id_of, db_of, compact_pack, key_of, final_path_of,
}
use wowdoc.ObjectStore.Publish.Rows.{IsPending}
use wowdoc.ObjectStore.Publish.Compact.{compact_pack-IsPack}
use wowdoc.ObjectStore.Publish.Durable.{IsTruthful, IsFresh}
use wowdoc.ObjectStore.Publish.Keeps.{publish-keeps_rows}
use wowdoc.ObjectStore.Publish.Retry.{publish_after_failure, lookup_record-after_publish}
use wowdoc.ObjectStore.Read.{Layout, open_object}
use wowdoc.ObjectStore.Read.Durable.{publish-IsTruthful, publish-open_object}

repeated : ℕ → ℕ → Bytes
repeated zero b = []
repeated (suc n) b = b ∷ repeated n b

-- A digest of 32 equal bytes, which tell the length of the content.
abbrev platform : Platform
platform = record {
  sha256 = λ content. repeated 32 (length content % 256);
  gzip = λ content. if ltb (length content) 1000000 then some (31 ∷ content) else none;
  gunzip = λ z. elim z [ [] ↦ none | b ∷ content ↦ some content ];
}

length-repeated : (n b : ℕ) → length (repeated n b) ≡ n
unfolding repeated
length-repeated zero b = refl
length-repeated (suc n) b = omega (arith, length-repeated n b)

repeated-IsBytes : (n b : ℕ) → b < 256 → IsBytes (repeated n b)
unfolding repeated
repeated-IsBytes zero b h = tt
repeated-IsBytes (suc n) b h = (h, repeated-IsBytes n b h)

lawful : IsLawful platform
lawful = record {
  length-sha256 = λ content. length-repeated 32 (length content % 256);
  sha256-IsBytes = λ content. repeated-IsBytes 32 (length content % 256) (omega arith);
  gunzip-gzip = λ content z h. undone content z h;
  length-gzip = λ content z h. small content z h;
}
  where
    undone : (content z : Bytes) → platform.gzip content ≡ some z → platform.gunzip z ≡ some content
    undone content z h = ground arith

    small : (content z : Bytes) → platform.gzip content ≡ some z → length z < 2 ^ 63
    small content z h = ground arith

abbrev calm : PutEnv
calm = record {
  lookup_fails = false;
  gzip_fails = false;
  create_fails = false;
  magic_fails = false;
  seek_fails = false;
  write_stops = none;
  temp_path = codes "p/a.pack.tmp";
}

-- The second write stops after five bytes.
abbrev torn : PutEnv
torn = record calm { write_stops = some 5 }

abbrev blank : World
blank = record { disk = []; db = none; cache = none }

abbrev first_content : Bytes
first_content = 7 ∷ 8 ∷ []

abbrev second_content : Bytes
second_content = 7 ∷ 8 ∷ 9 ∷ []

new-IsStaged : IsStaged platform (new (codes "t")) blank
unfolding new
new-IsStaged = record { closed = λ h. refl; opened = λ h. absurd (cc) }

abbrev filled : Store × World
filled = let o = put platform calm source first_content true (new (codes "t")) blank in (o.1, o.2)

filled-IsStaged : IsStaged platform filled.0 filled.1
filled-IsStaged =
    put-IsStaged platform lawful calm source first_content (omega arith) true (new (codes "t"))
      blank new-IsStaged

-- A torn write behind a record that is staged.
put-IsStaged_example :
    let (r, s', w') = put platform torn asset second_content false filled.0 filled.1 in
    IsStaged platform s' w'
put-IsStaged_example =
    put-IsStaged platform lawful torn asset second_content (omega arith) false filled.0 filled.1
      filled-IsStaged

abbrev quiet : PublishEnv
quiet = record {
  sync_fails = false;
  close_fails = false;
  mkdir_fails = false;
  index_fails = false;
  compact_fails = false;
  rename_fails = false;
  insert_fails = false;
  remove_fails = false;
  packs_dir = codes "packs";
}

abbrev first_key : Key
first_key = record { kind = source; hash = hash platform first_content }

no_rows : (db_of filled.1).objects ≡ []
unfolding put lookup_record load_cache new put_new encode_payload open_staging write_record
    write_bytes append_file encode_record_header hash hex_encode hex_digit hex_decode from_hex_digit
    kind_code put_uint64 key_eq text_eq Dict.lookup Dict.insert repeated
no_rows = refl

no_row : (k : Key) (r : Location) → Dict.lookup k (db_of filled.1).objects ≡ some r → ⊥
unfolding Dict.lookup
no_row k r h = ground (arith, no_rows, h)

filled-IsTruthful : IsTruthful platform filled.1
filled-IsTruthful = record { at = λ k r h. absurd (no_row k r h) }

filled-IsFresh :
    IsFresh platform filled.0.staging_path (final_path_of quiet filled.0.staging_path) filled.1
filled-IsFresh = record { at = λ k r h. absurd (no_row k r h) }

unpublished : filled.0.published ≡ false
unfolding put lookup_record load_cache new put_new encode_payload open_staging write_record
    write_bytes append_file encode_record_header hash hex_encode hex_digit hex_decode from_hex_digit
    kind_code put_uint64 key_eq text_eq Dict.lookup Dict.insert repeated
unpublished = refl

published : (publish quiet filled.0 filled.1).0 ≡ ok tt
unfolding put lookup_record load_cache new put_new encode_payload open_staging write_record
    write_bytes append_file encode_record_header hash hex_encode hex_digit hex_decode from_hex_digit
    kind_code put_uint64 key_eq text_eq Dict.lookup Dict.insert repeated publish publish_index
    publish_unique commit_pack unique_records insert_objects cache_objects pack_id_of final_path_of
    compact_pack Dict.erase trim_suffix base split last_of
published = refl

first_key-IsPending : IsPending first_key filled.0.records
unfolding put lookup_record load_cache new put_new encode_payload open_staging write_record
    write_bytes append_file encode_record_header hash hex_encode hex_digit hex_decode from_hex_digit
    kind_code put_uint64 key_eq text_eq Dict.lookup Dict.insert repeated
first_key-IsPending = inl refl

abbrev layout : Layout
layout = record { objects = codes "o"; assets = codes "a"; asts = codes "s" }

publish-IsTruthful_example :
    let (r, s', w') = publish quiet filled.0 filled.1 in IsTruthful platform w'
publish-IsTruthful_example =
    publish-IsTruthful platform lawful quiet filled.0 filled.1 filled-IsTruthful filled-IsStaged
      filled-IsFresh

publish-open_object_example :
    (content : Bytes) × ((open_object platform false layout first_key
        (record (publish quiet filled.0 filled.1).2 { cache = none })).0
      ≡ ok content)
    × (hash platform content ≡ first_key.hash)
publish-open_object_example =
    publish-open_object platform lawful quiet filled.0 filled.1 filled-IsTruthful filled-IsStaged
      filled-IsFresh unpublished published layout first_key first_key-IsPending

is_open : filled.0.is_open ≡ true
unfolding put lookup_record load_cache new put_new encode_payload open_staging write_record
    write_bytes append_file encode_record_header hash hex_encode hex_digit hex_decode from_hex_digit
    kind_code put_uint64 key_eq text_eq Dict.lookup Dict.insert repeated
is_open = refl

filled-IsPack : IsPack platform (file_of filled.0.staging_path filled.1) filled.0.records
filled-IsPack = filled-IsStaged.opened is_open

compact_pack-IsPack_example :
    (packed : Bytes) × (kept : List Pending) × (compact_pack
        (file_of filled.0.staging_path filled.1)
        filled.0.records
      ≡ some (packed, kept))
    × IsPack platform packed kept
    × (map key_of kept ≡ map key_of filled.0.records)
compact_pack-IsPack_example =
    compact_pack-IsPack platform lawful (file_of filled.0.staging_path filled.1) filled.0.records
      filled-IsPack

-- The row that the publication made.
abbrev done : World
done = (publish quiet filled.0 filled.1).2

abbrev first_location : Location
first_location = record {
  path = codes "packs/a.pack";
  offset = 8;
  compressed = 3;
  original = 2;
  codec = codec_gzip;
}

first_row : Dict.lookup first_key (db_of done).objects ≡ some first_location
unfolding put lookup_record load_cache new put_new encode_payload open_staging write_record
    write_bytes append_file encode_record_header hash hex_encode hex_digit hex_decode from_hex_digit
    kind_code put_uint64 key_eq text_eq Dict.lookup Dict.insert repeated publish publish_index
    publish_unique commit_pack unique_records insert_objects cache_objects pack_id_of final_path_of
    compact_pack Dict.erase trim_suffix base split last_of
first_row = refl

-- A store with an asset of the same content, whose insertion fails.
abbrev failing : PublishEnv
failing = record quiet { insert_fails = true }

publish-keeps_rows_example :
    Dict.lookup first_key (db_of (publish failing filled.0 done).2).objects ≡ some first_location
publish-keeps_rows_example =
    publish-keeps_rows failing filled.0 done first_key first_location first_row

failed : (publish failing filled.0 filled.1).0 ≢ ok tt
unfolding put lookup_record load_cache new put_new encode_payload open_staging write_record
    write_bytes append_file encode_record_header hash hex_encode hex_digit hex_decode from_hex_digit
    kind_code put_uint64 key_eq text_eq Dict.lookup Dict.insert repeated publish publish_index
    publish_unique commit_pack unique_records insert_objects cache_objects pack_id_of final_path_of
    compact_pack Dict.erase trim_suffix base split last_of
failed h = cc

publish_after_failure_example :
    let (r, s', w') = publish failing filled.0 filled.1 in
    publish quiet s' w' ≡ (ok tt, record s' { published = true }, w')
publish_after_failure_example =
    publish_after_failure failing filled.0 filled.1 quiet unpublished is_open refl refl failed

abbrev no_cache : Dict Key Location
no_cache = []

-- Another process has published the object; this one loaded the index before.
abbrev stale : World
stale = record done { cache = some no_cache }

stale_lacks : Dict.lookup first_key no_cache ≡ none
unfolding Dict.lookup
stale_lacks = refl

lookup_record-after_publish_example :
    (lookup_record false first_key (publish quiet filled.0 stale).2).0 ≡ ok none
lookup_record-after_publish_example =
    lookup_record-after_publish quiet filled.0 stale first_key first_location no_cache first_row
      refl stale_lacks

new-IsAccounted : IsAccounted (new (codes "t")) blank
unfolding new
new-IsAccounted = record { at = λ k h. absurd (cc) }

put-IsAccounted_example :
    let (r, s', w') = put platform calm source first_content true (new (codes "t")) blank in
    IsAccounted s' w'
    × ((x : PutResult)
        → r ≡ ok x
        → IsKnown first_key s' w' × (x.hash ≡ hash platform first_content))
put-IsAccounted_example =
    put-IsAccounted platform calm source first_content true (new (codes "t")) blank new-IsAccounted

decode-encode_example :
    (header : Bytes) × (encode_record_header ast 1 (hex_encode (platform.sha256 first_content)) 2 3
      ≡ ok header)
    × (decode_record_header header
        ≡ ok (record {
          kind = ast;
          codec = 1;
          hash = hex_encode (platform.sha256 first_content);
          original = pos 2;
          compressed = pos 3;
        }))
decode-encode_example =
    decode-encode ast 1 (platform.sha256 first_content) 2 3 (lawful.sha256-IsBytes first_content)
      (lawful.length-sha256 first_content) (omega arith) (omega arith)
