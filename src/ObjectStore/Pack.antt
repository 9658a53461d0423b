-- ===== src/ObjectStore/Pack.antt =====
-- Reading one record of a pack file: `openPackRecord` of internal/objectstore/store.go.
pub mod Stored
use wowdoc.Base.{ℕ, ◌+◌, ◌≡◌, ◌<◌, ◌^◌, refl, Bool, true, false, not, ◌&&◌, ◌||◌}
use wowdoc.Base.{Option, none, some, List, [], ◌∷◌, Text, Eq, ◌==◌, nat_eq, text_eq, ltb, eqb}
use wowdoc.Base.{length, take, drop, Result, ok, err, ◌>>=◌, ◌>>◌, guard, required, if◌then◌else◌}
use wowdoc.Base.Dict
use wowdoc.Base.Dict.{Dict}
use wowdoc.ObjectStore.Hex.{Bytes, IsBytes, hex_encode}
use wowdoc.ObjectStore.Header
use wowdoc.ObjectStore.Header.{
  Kind, kind_eq, ℤ, pos, negsuc, pack_magic, pack_header_size, record_header_size,
}
use wowdoc.ObjectStore.Header.{codec_raw, codec_gzip, decode_record_header}

-- The parts of the Go standard library that the store is built on.
pub record Platform : Type 0 where
  pub sha256 : Bytes → Bytes
  pub gzip : Bytes → Option Bytes
  pub gunzip : Bytes → Option Bytes

-- What the store relies on: a digest has 32 bytes, and gunzip undoes gzip. The length of a byte
-- slice is an `int`.
pub record IsLawful (p : Platform) : Type 0 where
  pub length-sha256 : (content : Bytes) → length (p.sha256 content) ≡ 32
  pub sha256-IsBytes : (content : Bytes) → IsBytes (p.sha256 content)
  pub gunzip-gzip : (content z : Bytes) → p.gzip content ≡ some z → p.gunzip z ≡ some content
  pub length-gzip : (content z : Bytes) → p.gzip content ≡ some z → length z < 2 ^ 63

-- Files by path.
abbrev pub Disk : Type 0
Disk = Dict Text Bytes

-- `recordLocation`
pub record Location : Type 0 where
  pub path : Text
  pub offset : ℕ
  pub compressed : ℕ
  pub original : ℕ
  pub codec : ℕ

pub data OpenError : Type 0 where
  file_missing pack_header_unreadable invalid_pack_header : OpenError
  record_header_unreadable invalid_record_length metadata_mismatch : OpenError
  payload_unreadable gzip_failed unsupported_codec hash_mismatch : OpenError
  header : Header.Error → OpenError

-- `ReadAt`: all `n` bytes, or an error.
unfoldable pub read_at : Bytes → ℕ → ℕ → Option Bytes
read_at file offset n =
    let chunk = take n (drop offset file) in if eqb (length chunk) n then some chunk else none

abbrev is_negative : ℤ → Bool
is_negative (pos n) = false
is_negative (negsuc n) = true

abbrev is_size : ℤ → ℕ → Bool
is_size (pos n) m = eqb n m
is_size (negsuc n) m = false

module _ (p : Platform) where
  -- `Hash`
  unfoldable pub hash : Bytes → Text
  hash content = hex_encode (p.sha256 content)

  -- The payload of a record, decoded by its codec.
  unfoldable pub decode_payload : ℕ → Bytes → Result OpenError Bytes
  decode_payload codec payload =
      if eqb codec codec_gzip
      then required (p.gunzip payload) gzip_failed
      else if eqb codec codec_raw
      then ok payload
      else err unsupported_codec

  -- The checks on a decoded header, in the code's order.
  abbrev check_header : Location → Kind → Text → Header.Header → Result OpenError (Unit {0})
  check_header r kind expected h = do
    guard (not (is_negative h.original || is_negative h.compressed)) invalid_record_length
    guard
        (h.kind == kind
          && h.hash == expected
          && is_size h.original r.original
          && is_size h.compressed r.compressed
          && eqb h.codec r.codec)
        metadata_mismatch

  abbrev lift_header : Result Header.Error Header.Header → Result OpenError Header.Header
  lift_header (ok h) = ok h
  lift_header (err e) = err (header e)

  unfoldable pub read_record : Bytes → Location → Kind → Text → Result OpenError Bytes
  read_record file r kind expected = do
    magic ← required (read_at file 0 pack_header_size) pack_header_unreadable
    guard (magic == pack_magic && not (ltb r.offset pack_header_size)) invalid_pack_header
    head ← required (read_at file r.offset record_header_size) record_header_unreadable
    h ← lift_header (decode_record_header head)
    check_header r kind expected h
    payload ←
        required (read_at file (r.offset + record_header_size) r.compressed) payload_unreadable
    content ← decode_payload h.codec payload
    guard (eqb (length content) r.original && hash content == expected) hash_mismatch
    ok content

  -- `openPackRecord`
  unfoldable pub open_pack_record : Disk → Location → Kind → Text → Result OpenError Bytes
  open_pack_record disk r kind expected = do
    file ← required (Dict.lookup r.path disk) file_missing
    read_record file r kind expected
