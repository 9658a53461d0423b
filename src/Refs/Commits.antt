-- ===== src/Refs/Commits.antt =====
-- The commits that `Resolve` of internal/store/catalog.go takes as they are.
use wowdoc.Base.{ℕ, suc, ◌*◌, ◌≡◌, refl, ap, ◌∙◌, true, false, [], ◌∷◌}
use wowdoc.Base.{Text, codes, arith, ok, text_eq, length}
use wowdoc.Strings.{equal_fold, to_lower, lower_rune}
use wowdoc.Catalog.Table.{Source, Product}
use wowdoc.ObjectStore.Hex.{Bytes, IsBytes, hex_digit, hex_encode}
use wowdoc.Refs.{CatalogDb, is_hex, resolve}

length-to_lower : (s : Text) → length (to_lower s) ≡ length s
unfolding to_lower
length-to_lower [] = refl
length-to_lower (c ∷ s) = ap suc (length-to_lower s)

not_latest : (ref : Text) → length ref ≡ 40 → equal_fold ref (codes "latest") ≡ false
unfolding equal_fold
not_latest ref l = elim (text_eq.dec (to_lower ref) (to_lower (codes "latest"))) [
  | yes e ↦
      absurd (
        omega (arith, length-to_lower ref, length-to_lower (codes "latest"), ap (length {A = ℕ}) e))
  | no n ↦ ground arith
]

length-hex_encode : (bs : Bytes) → length (hex_encode bs) ≡ 2 * length bs
unfolding hex_encode
length-hex_encode [] = refl
length-hex_encode (b ∷ bs) = omega (arith, length-hex_encode bs)

is_hex-hex_encode : (bs : Bytes) → IsBytes bs → is_hex (hex_encode bs) ≡ true
unfolding is_hex hex_encode hex_digit
is_hex-hex_encode [] h = refl
is_hex-hex_encode (b ∷ bs) h = ground (arith, is_hex-hex_encode bs h.1, h.0)

is_hex-to_lower : (s : Text) → is_hex (to_lower s) ≡ true → is_hex s ≡ true
unfolding is_hex to_lower lower_rune
is_hex-to_lower [] h = refl
is_hex-to_lower (c ∷ s) h = ground (arith, is_hex-to_lower s)

-- The two digits of each of twenty bytes are forty letters, in whatever case they are written.
length-spelled :
    (ref : Text) (hash : Bytes)
    → length hash ≡ 20
    → to_lower ref ≡ hex_encode hash
    → length ref ≡ 40
length-spelled ref hash l spelled =
    omega (arith, length-hex_encode hash, length-to_lower ref, ap (length {A = ℕ}) spelled)

-- The hexadecimal text of a hash of twenty bytes, in any letter case, is a commit whatever is
-- published: it resolves to that hash in lower-case digits, and to no tag.
pub resolve-commit :
    (s : Source) (p : Product) (ref : Text) (db : CatalogDb) (hash : Bytes)
    → length hash ≡ 20
    → IsBytes hash
    → to_lower ref ≡ hex_encode hash
    → resolve s p ref db ≡ ok (hex_encode hash, [])
unfolding resolve
resolve-commit s p [] db hash l bytes spelled =
    absurd (omega (arith, length-spelled [] hash l spelled))
resolve-commit s p (c ∷ ref) db hash l bytes spelled =
    let sized = length-spelled (c ∷ ref) hash l spelled in
    let digits = is_hex-to_lower (c ∷ ref) (ap is_hex spelled ∙ is_hex-hex_encode hash bytes) in
    ground (arith, not_latest (c ∷ ref) sized)
