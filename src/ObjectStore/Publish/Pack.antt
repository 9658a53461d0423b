-- ===== src/ObjectStore/Publish/Pack.antt =====
-- The keys and locations of pending records, and the loop of `compactPack`, of
-- internal/objectstore/store.go.
use wowdoc.Base.{ℕ, ◌+◌, Option, none, some, List, [], ◌∷◌, ◌++◌, Text, length}
use wowdoc.ObjectStore.Hex.{Bytes}
use wowdoc.ObjectStore.Header.{pack_magic}
use wowdoc.ObjectStore.Pack.{read_at, Location}
use wowdoc.ObjectStore.Index.{Key}
use wowdoc.ObjectStore.Builder.{Pending}

abbrev pub key_of : Pending → Key
key_of r = record { kind = r.kind; hash = r.hash }

abbrev pub location_at : Text → Pending → Location
location_at path r = record {
  path = path;
  offset = r.offset;
  compressed = r.compressed;
  original = r.original;
  codec = r.codec;
}

abbrev pub moved : ℕ → Pending → Option (Bytes × List Pending) → Option (Bytes × List Pending)
moved offset r none = none
moved offset r (some (out, records)) = some (out, record r { offset = offset } ∷ records)

abbrev pub both : Option Bytes → Option Bytes → Option Bytes
both (some header) (some payload) = some (header ++ payload)
both _ _ = none

-- One round reads the header and the payload of a record. `none` is a read past the end.
unfoldable pub copy_record : Bytes → Pending → Option Bytes
copy_record file r = both (read_at file r.offset 52) (read_at file (r.offset + 52) r.compressed)

-- `compactPack`: the loop over the records that are kept.
unfoldable pub compact_records : Bytes → Bytes → List Pending → Option (Bytes × List Pending)
compact_records file out [] = some (out, [])
compact_records file out (r ∷ records) = elim (copy_record file r) [
  | none ↦ none
  | some chunk ↦ moved (length out) r (compact_records file (out ++ chunk) records)
]

unfoldable pub compact_pack : Bytes → List Pending → Option (Bytes × List Pending)
compact_pack file records = compact_records file pack_magic records
