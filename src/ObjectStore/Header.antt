-- ===== src/ObjectStore/Header.antt =====
-- Record headers of a pack: `encodeRecordHeader`, `decodeRecordHeader` and the kind codes of
-- internal/objectstore/store.go.
pub mod RoundTrip
use wowdoc.Base.{ℕ, ◌+◌, ◌-◌, ◌*◌, ◌/◌, ◌%◌, ◌^◌, ◌≡◌, refl, Bool}
use wowdoc.Base.{
  Result, ok, err, Option, none, some, List, [], ◌∷◌, ◌++◌, Text, Eq, ltb, eqb, length, take, drop,
  get_elem?, if◌then◌else◌,
}
use wowdoc.ObjectStore.Hex.{Bytes, hex_encode, hex_decode}

-- The kinds of objects. The empty kind, which `codeKind` returns for other codes, is `none`.
pub data Kind : Type 0 where
  source asset ast : Kind

pub Kind-discrete : Discrete Kind
Kind-discrete = hlevel

instance abbrev pub kind_eq : Eq Kind
kind_eq = record { dec = Kind-discrete }

-- int64, as decoded from 64 bits: `negsuc n` is -(n + 1).
pub data ℤ : Type 0 where
  pos : ℕ → ℤ
  negsuc : ℕ → ℤ

abbrev pub pack_header_size : ℕ
pack_header_size = 8

abbrev pub record_header_size : ℕ
record_header_size = 52

-- "WOWPACK1"
abbrev pub pack_magic : Bytes
pack_magic = 87 ∷ 79 ∷ 87 ∷ 80 ∷ 65 ∷ 67 ∷ 75 ∷ 49 ∷ []

abbrev pub codec_raw : ℕ
codec_raw = 0

abbrev pub codec_gzip : ℕ
codec_gzip = 1

unfoldable pub kind_code : Kind → ℕ
kind_code source = 1
kind_code asset = 2
kind_code ast = 3

unfoldable pub code_kind : ℕ → Option Kind
code_kind code =
    if eqb code 1
    then some source
    else if eqb code 2
    then some asset
    else if eqb code 3
    then some ast
    else none

-- binary.BigEndian.PutUint64
unfoldable pub put_uint64 : ℕ → Bytes
put_uint64 n =
    (n / 2 ^ 56 % 256)
    ∷ (n / 2 ^ 48 % 256)
    ∷ (n / 2 ^ 40 % 256)
    ∷ (n / 2 ^ 32 % 256)
    ∷ (n / 2 ^ 24 % 256)
    ∷ (n / 2 ^ 16 % 256)
    ∷ (n / 2 ^ 8 % 256)
    ∷ (n % 256)
    ∷ []

-- binary.BigEndian.Uint64
unfoldable pub uint64_from : ℕ → Bytes → ℕ
uint64_from acc [] = acc
uint64_from acc (b ∷ bs) = uint64_from (acc * 256 + b) bs

-- int64(u)
unfoldable pub to_int64 : ℕ → ℤ
to_int64 u = if ltb u (2 ^ 63) then pos u else negsuc (2 ^ 64 - 1 - u)

pub data Error : Type 0 where
  invalid_object_hash invalid_header_size invalid_object_kind : Error

-- The hash bytes were decoded from the text: `err` if that failed or their number is not 32.
unfoldable pub encode_record_header : Kind → ℕ → Text → ℕ → ℕ → Result Error Bytes
encode_record_header kind codec hash original compressed = elim (hex_decode hash) [
  | none ↦ err invalid_object_hash
  | some hash_bytes ↦
      if eqb (length hash_bytes) 32
      then ok (
          kind_code kind
          ∷ codec
          ∷ 0
          ∷ 0
          ∷ (put_uint64 original ++ (put_uint64 compressed ++ hash_bytes)))
      else err invalid_object_hash
]

pub record Header : Type 0 where
  pub kind : Kind
  pub codec : ℕ
  pub hash : Text
  pub original : ℤ
  pub compressed : ℤ

abbrev byte_at : Bytes → ℕ → ℕ
byte_at bytes i = elim (get_elem? bytes i) [ none ↦ 0 | some b ↦ b ]

unfoldable pub decode_record_header : Bytes → Result Error Header
decode_record_header header =
    if eqb (length header) record_header_size
    then elim (code_kind (byte_at header 0)) [
      | none ↦ err invalid_object_kind
      | some kind ↦ ok (record {
        kind = kind;
        codec = byte_at header 1;
        hash = hex_encode (drop 20 header);
        original = to_int64 (uint64_from 0 (take 8 (drop 4 header)));
        compressed = to_int64 (uint64_from 0 (take 8 (drop 12 header)));
      })
    ]
    else err invalid_header_size
