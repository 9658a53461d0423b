-- ===== src/ObjectStore/Hex.antt =====
-- Hexadecimal texts of hashes in internal/objectstore/store.go and their bytes, as `encoding/hex` has them.
use wowdoc.Base.{ℕ, ◌+◌, ◌-◌, ◌*◌, ◌/◌, ◌%◌, ◌<◌, ◌≡◌, refl, ◌&&◌}
use wowdoc.Base.{Option, none, some, List, [], ◌∷◌, All, Text, ltb, leb, arith, if◌then◌else◌}

-- A byte string. Each number is below 256.
abbrev pub Bytes : Type 0
Bytes = List ℕ

abbrev pub IsBytes : Bytes → Type 0
IsBytes = All (λ b. b < 256)

unfoldable pub hex_digit : ℕ → ℕ
hex_digit n = if ltb n 10 then 48 + n else 87 + n

-- hex.EncodeToString
unfoldable pub hex_encode : Bytes → Text
hex_encode [] = []
hex_encode (b ∷ bs) = hex_digit (b / 16) ∷ hex_digit (b % 16) ∷ hex_encode bs

unfoldable pub from_hex_digit : ℕ → Option ℕ
from_hex_digit c =
    if leb 48 c && leb c 57
    then some (c - 48)
    else if leb 97 c && leb c 102
    then some (c - 87)
    else if leb 65 c && leb c 70
    then some (c - 55)
    else none

abbrev join : Option ℕ → Option ℕ → Option Bytes → Option Bytes
join (some h) (some l) (some bs) = some ((h * 16 + l) ∷ bs)
join _ _ _ = none

-- hex.DecodeString: an odd length and a byte that is no digit are errors.
unfoldable pub hex_decode : Text → Option Bytes
hex_decode [] = some []
hex_decode (c ∷ []) = none
hex_decode (c ∷ d ∷ cs) = join (from_hex_digit c) (from_hex_digit d) (hex_decode cs)

from_hex_digit-hex_digit : (n : ℕ) → n < 16 → from_hex_digit (hex_digit n) ≡ some n
unfolding from_hex_digit hex_digit
from_hex_digit-hex_digit n h = ground arith

-- Digits decode to the bytes that they encode.
pub hex_decode-hex_encode : (bs : Bytes) → IsBytes bs → hex_decode (hex_encode bs) ≡ some bs
unfolding hex_decode hex_encode
hex_decode-hex_encode [] h = refl
hex_decode-hex_encode (b ∷ bs) h =
    rw
      (
        from_hex_digit-hex_digit (b / 16) (omega (arith, h.0)),
        from_hex_digit-hex_digit (b % 16) (omega arith),
        hex_decode-hex_encode bs h.1,
      )
      (ground (arith, h.0))
