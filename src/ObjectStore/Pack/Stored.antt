-- ===== src/ObjectStore/Pack/Stored.antt =====
-- What it is for a pack file of internal/objectstore/store.go to hold an object at a location.
use wowdoc.Base.{
  ℕ, ◌+◌, ◌≤◌, ◌<◌, ◌^◌, ◌≡◌, refl, sym, ◌∙◌, [], ◌++◌, append_assoc, Text, arith, some,
}
use wowdoc.Base.{length, length-append, take-append, drop-append, ok, text_eq}
use wowdoc.ObjectStore.Hex.{Bytes}
use wowdoc.ObjectStore.Header.{Kind, kind_eq, pack_magic}
use wowdoc.ObjectStore.Header.RoundTrip.{
  header_bytes, length-header_bytes, decode_record_header-header_bytes,
}
use wowdoc.ObjectStore.Pack.{
  Platform, IsLawful, Location, read_at, hash, decode_payload, read_record,
}

-- A chunk that stands in a file is what `ReadAt` gives at its place.
pub read_at-append :
    (before chunk after : Bytes)
    → read_at (before ++ (chunk ++ after)) (length before) (length chunk) ≡ some chunk
unfolding read_at
read_at-append before chunk after =
    rw (drop-append before (chunk ++ after), take-append chunk after) (ground arith)

read_at_chunk :
    (file before chunk after : Bytes) (offset n : ℕ)
    → file ≡ before ++ (chunk ++ after)
    → length before ≡ offset
    → length chunk ≡ n
    → read_at file offset n ≡ some chunk
read_at_chunk file before chunk after offset n e a b =
    rw (e, ← a, ← b) (read_at-append before chunk after)

module _ (p : Platform) where
  -- The file holds the object `content` in a record of this place, these lengths and this codec.
  pub record Stored (file : Bytes) (r : Location) (kind : Kind) (content : Bytes) : Type 0 where
    pub before : Bytes
    pub payload : Bytes
    pub after : Bytes
    pub splits :
        file
        ≡ before
          ++ (header_bytes kind r.codec r.original r.compressed (p.sha256 content)
              ++ (payload ++ after))
    pub place : length before ≡ r.offset
    pub after_magic : 8 ≤ r.offset
    pub length_payload : length payload ≡ r.compressed
    pub length_content : length content ≡ r.original
    pub original_fits : r.original < 2 ^ 63
    pub compressed_fits : r.compressed < 2 ^ 63
    pub decodes : decode_payload p r.codec payload ≡ ok content

  -- The file starts with the magic bytes.
  pub record HasMagic (file : Bytes) : Type 0 where
    pub rest : Bytes
    pub starts : file ≡ pack_magic ++ rest

module _ (p : Platform) (lawful : IsLawful p) (file : Bytes) (r : Location) (kind : Kind)
    (content : Bytes) (s : Stored p file r kind content) where
  abbrev pub header : Bytes
  header = header_bytes kind r.codec r.original r.compressed (p.sha256 content)

  pub length-header : length header ≡ 52
  length-header =
      length-header_bytes kind r.codec r.original r.compressed (p.sha256 content)
        (lawful.length-sha256 content)

  pub reads_header : read_at file r.offset 52 ≡ some header
  reads_header =
      read_at_chunk file s.before header (s.payload ++ s.after) r.offset 52 s.splits s.place
        length-header

  pub reads_payload : read_at file (r.offset + 52) r.compressed ≡ some s.payload
  reads_payload =
      read_at_chunk file (s.before ++ header) s.payload s.after (r.offset + 52) r.compressed
        (s.splits ∙ sym (append_assoc s.before header (s.payload ++ s.after)))
        (omega (arith, length-append s.before header, length-header, s.place)) s.length_payload

  -- An object that a pack holds is read back from it, whatever else the pack holds.
  pub read_record-Stored : HasMagic p file → read_record p file r kind (hash p content) ≡ ok content
  unfolding read_record hash
  read_record-Stored m = ground (
    arith,
    read_at_chunk file [] pack_magic m.rest 0 8 m.starts refl refl,
    reads_header,
    reads_payload,
    decode_record_header-header_bytes kind r.codec (p.sha256 content) r.original r.compressed
        (lawful.length-sha256 content) s.original_fits s.compressed_fits,
    s.decodes,
    s.length_content,
    s.after_magic,
  )

module _ (p : Platform) where
  -- What is written behind a record leaves it.
  pub Stored-append :
      (file more : Bytes) (r : Location) (kind : Kind) (content : Bytes)
      → Stored p file r kind content
      → Stored p (file ++ more) r kind content
  Stored-append file more r kind content s = record {
    before = s.before;
    payload = s.payload;
    after = s.after ++ more;
    splits = rw s.splits (simp append_assoc);
    place = s.place;
    after_magic = s.after_magic;
    length_payload = s.length_payload;
    length_content = s.length_content;
    original_fits = s.original_fits;
    compressed_fits = s.compressed_fits;
    decodes = s.decodes;
  }

  pub HasMagic-append : (file more : Bytes) → HasMagic p file → HasMagic p (file ++ more)
  HasMagic-append file more m = record { rest = m.rest ++ more; starts = rw m.starts }

  pub HasMagic-length : (file : Bytes) → HasMagic p file → 8 ≤ length file
  HasMagic-length file m = rw m.starts (omega arith)

  -- A record does not know the path of its pack.
  pub Stored-moved :
      (file : Bytes) (r : Location) (path : Text) (kind : Kind) (content : Bytes)
      → Stored p file r kind content
      → Stored p file (record r { path = path }) kind content
  Stored-moved file r path kind content s = record {
    before = s.before;
    payload = s.payload;
    after = s.after;
    splits = s.splits;
    place = s.place;
    after_magic = s.after_magic;
    length_payload = s.length_payload;
    length_content = s.length_content;
    original_fits = s.original_fits;
    compressed_fits = s.compressed_fits;
    decodes = s.decodes;
  }
