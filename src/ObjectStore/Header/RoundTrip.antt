-- ===== src/ObjectStore/Header/RoundTrip.antt =====
-- Encoding and decoding the record headers of internal/objectstore/store.go.
use wowdoc.Base.{ok, ℕ, ◌^◌, ◌≡◌, ◌<◌, refl, some, length, ◌∷◌, ◌++◌, arith}
use wowdoc.ObjectStore.Hex.{Bytes, IsBytes, hex_encode, hex_decode-hex_encode}
use wowdoc.ObjectStore.Header.{
  Kind, source, asset, ast, pos, kind_code, code_kind, put_uint64, uint64_from, to_int64,
  encode_record_header, decode_record_header,
}

pub code_kind-kind_code : (k : Kind) → code_kind (kind_code k) ≡ some k
unfolding code_kind kind_code
code_kind-kind_code source = refl
code_kind-kind_code asset = refl
code_kind-kind_code ast = refl

pub uint64_from-put_uint64 : (n : ℕ) → n < 2 ^ 64 → uint64_from 0 (put_uint64 n) ≡ n
unfolding uint64_from put_uint64
uint64_from-put_uint64 n h = omega arith

pub to_int64-put_uint64 : (n : ℕ) → n < 2 ^ 63 → to_int64 (uint64_from 0 (put_uint64 n)) ≡ pos n
unfolding to_int64
to_int64-put_uint64 n h = rw (uint64_from-put_uint64 n (omega arith)) (ground arith)

length-put_uint64 : (n : ℕ) → length (put_uint64 n) ≡ 8
unfolding put_uint64
length-put_uint64 n = refl

-- The layout of a header: kind, codec, two zero bytes, the two lengths and the hash.
abbrev pub header_bytes : Kind → ℕ → ℕ → ℕ → Bytes → Bytes
header_bytes kind codec original compressed hash_bytes =
    kind_code kind ∷ codec ∷ 0 ∷ 0 ∷ (put_uint64 original ++ (put_uint64 compressed ++ hash_bytes))

pub encode_record_header-succeeds :
    (kind : Kind) (codec : ℕ) (hash_bytes : Bytes) (original compressed : ℕ)
    → IsBytes hash_bytes
    → length hash_bytes ≡ 32
    → encode_record_header kind codec (hex_encode hash_bytes) original compressed
      ≡ ok (header_bytes kind codec original compressed hash_bytes)
unfolding encode_record_header
encode_record_header-succeeds kind codec hash_bytes original compressed b l =
    ground (arith, hex_decode-hex_encode hash_bytes b)

pub length-header_bytes :
    (kind : Kind) (codec original compressed : ℕ) (hash_bytes : Bytes)
    → length hash_bytes ≡ 32
    → length (header_bytes kind codec original compressed hash_bytes) ≡ 52
unfolding put_uint64
length-header_bytes kind codec original compressed hash_bytes l = omega arith

pub decode_record_header-header_bytes :
    (kind : Kind) (codec : ℕ) (hash_bytes : Bytes) (original compressed : ℕ)
    → length hash_bytes ≡ 32
    → original < 2 ^ 63
    → compressed < 2 ^ 63
    → decode_record_header (header_bytes kind codec original compressed hash_bytes)
      ≡ ok (record {
        kind = kind;
        codec = codec;
        hash = hex_encode hash_bytes;
        original = pos original;
        compressed = pos compressed;
      })
unfolding decode_record_header put_uint64
decode_record_header-header_bytes kind codec hash_bytes original compressed l o c = ground (
  arith,
  code_kind-kind_code kind,
  to_int64-put_uint64 original o,
  to_int64-put_uint64 compressed c,
)

-- A header is made for every kind, codec, 32-byte hash and pair of lengths that fit into an int64,
-- and it decodes to exactly these values.
pub decode-encode :
    (kind : Kind) (codec : ℕ) (hash_bytes : Bytes) (original compressed : ℕ)
    → IsBytes hash_bytes
    → length hash_bytes ≡ 32
    → original < 2 ^ 63
    → compressed < 2 ^ 63
    → (header : Bytes) × (encode_record_header kind codec
          (hex_encode hash_bytes)
          original
          compressed
        ≡ ok header)
      × (decode_record_header header
          ≡ ok (record {
            kind = kind;
            codec = codec;
            hash = hex_encode hash_bytes;
            original = pos original;
            compressed = pos compressed;
          }))
decode-encode kind codec hash_bytes original compressed b l o c = (
  header_bytes kind codec original compressed hash_bytes,
  encode_record_header-succeeds kind codec hash_bytes original compressed b l,
  decode_record_header-header_bytes kind codec hash_bytes original compressed l o c,
)
