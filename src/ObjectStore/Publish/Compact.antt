-- ===== src/ObjectStore/Publish/Compact.antt =====
-- The pack that `compactPack` of internal/objectstore/store.go writes.
use wowdoc.Base.{
  ◌≤◌, ◌≡◌, refl, ap, subst, some, List, [], ◌∷◌, ◌++◌, map, append_assoc, append-nil,
}
use wowdoc.Base.{All, arith, length}
use wowdoc.ObjectStore.Hex.{Bytes}
use wowdoc.ObjectStore.Header.{pack_magic}
use wowdoc.ObjectStore.Pack.{Platform, IsLawful}
use wowdoc.ObjectStore.Pack.Stored
use wowdoc.ObjectStore.Pack.Stored.{HasMagic-length}
use wowdoc.ObjectStore.Builder.{Pending}
use wowdoc.ObjectStore.Builder.Staged.{Holds, IsPack, IsPack-magic, IsPack-snoc, location_in}
use wowdoc.ObjectStore.Publish.{key_of, copy_record, compact_records, compact_pack}

module _ (p : Platform) (lawful : IsLawful p) where
  module _ (file out : Bytes) (r : Pending) (h : Holds p file r) (long : 8 ≤ length out) where
    abbrev content : Bytes
    content = h.0

    abbrev copied : Bytes
    copied = Stored.header p lawful file (location_in [] r) r.kind content h.1 ++ (h.1).payload

    -- The copy of a record at the end of the new pack.
    Holds-copied : Holds p (out ++ copied) (record r { offset = length out })
    Holds-copied = (
      content,
      record {
        before = out;
        payload = (h.1).payload;
        after = [];
        splits = rw append-nil;
        place = refl;
        after_magic = long;
        length_payload = (h.1).length_payload;
        length_content = (h.1).length_content;
        original_fits = (h.1).original_fits;
        compressed_fits = (h.1).compressed_fits;
        decodes = (h.1).decodes;
      },
      h.2,
    )

    copy_record-Holds : copy_record file r ≡ some copied
    unfolding copy_record
    copy_record-Holds = ground (
      arith,
      Stored.reads_header p lawful file (location_in [] r) r.kind content h.1,
      Stored.reads_payload p lawful file (location_in [] r) r.kind content h.1,
    )

    compact_records-cons :
        (records : List Pending) (packed : Bytes) (kept : List Pending)
        → compact_records file (out ++ copied) records ≡ some (packed, kept)
        → compact_records file out (r ∷ records)
          ≡ some (packed, record r { offset = length out } ∷ kept)
    unfolding compact_records
    compact_records-cons records packed kept e = ground (arith, copy_record-Holds)

  -- What compaction leaves, behind the records that it has already copied.
  record IsCompacted (file out : Bytes) (done records : List Pending) : Type 0 where
    pub packed : Bytes
    pub kept : List Pending
    pub computes : compact_records file out records ≡ some (packed, kept)
    pub valid : IsPack p packed (done ++ kept)
    pub same_keys : map key_of kept ≡ map key_of records

  compact_records_total :
      (file : Bytes) (records : List Pending)
      → All (Holds p file) records
      → (out : Bytes) (done : List Pending) → IsPack p out done
      → IsCompacted file out done records
  compact_records_total file [] h out done k = record {
    packed = out;
    kept = [];
    computes = unfold compact_records in refl;
    valid = rw append-nil k;
    same_keys = refl;
  }
  compact_records_total file (r ∷ records) h out done k =
      let long = HasMagic-length p out k.magic in
      let r' : Pending = record r { offset = length out } in
      let out' = out ++ copied file out r h.0 long in
      let rest = compact_records_total file records h.1 out' (done ++ r' ∷ []) (
        IsPack-snoc p out (copied file out r h.0 long) done r' k
          (Holds-copied file out r h.0 long)) in
      record {
        packed = rest.packed;
        kept = r' ∷ rest.kept;
        computes =
            compact_records-cons file out r h.0 long records rest.packed rest.kept rest.computes;
        valid = subst (IsPack p rest.packed) (append_assoc done (r' ∷ []) rest.kept) rest.valid;
        same_keys = ap (λ ks. key_of r ∷ ks) rest.same_keys;
      }

  -- With a lawful platform, a pack that holds these records compacts to a pack with the same
  -- objects under the same keys; no read goes past the end of the old pack.
  pub compact_pack-IsPack :
      (file : Bytes) (records : List Pending)
      → IsPack p file records
      → (packed : Bytes) × (kept : List Pending) × (compact_pack file records ≡ some (packed, kept))
        × IsPack p packed kept
        × (map key_of kept ≡ map key_of records)
  unfolding compact_pack
  compact_pack-IsPack file records k =
      let c = compact_records_total file records k.held pack_magic [] (IsPack-magic p) in
      (c.packed, c.kept, c.computes, c.valid, c.same_keys)
