-- ===== src/Indexer/Version/Printed.antt =====
-- Printed versions and internal/indexer/version.go.
use wowdoc.Base.{
  ℕ, ◌+◌, ◌*◌, ◌%◌, ◌^◌, ◌<◌, ◌≡◌, refl, ap, ◌∙◌, arith, true, false, ◌||◌, none, some, [], ◌∷◌,
  ◌++◌, Text,
}
use wowdoc.Base.{text_eq, eqb, All, All-append, All-map}
use wowdoc.Strings.{
  trim_space, trim_left, trim_right, is_space, trim_prefix, has_prefix, split, cut,
}
use wowdoc.Strings.Decimal.{
  decimal-nonempty, decimal, is_digit, digits_value-decimal, decimal-digits,
}
use wowdoc.Indexer.Version.{
  leading_digits, leading_int, version_line, print_int, build_interface_from_version,
}

-- A text of digits and dots.
IsPlain : Text → Type 0
IsPlain = All (λ c. (is_digit c || eqb c b'.') ≡ true)

cut-plain : (s : Text) → IsPlain s → cut 10 s ≡ none
unfolding cut IsPlain
cut-plain [] h = refl
cut-plain (c ∷ s) h = ground (arith, cut-plain s h.1)

plain-not_space : (c : ℕ) → (is_digit c || eqb c b'.') ≡ true → is_space c ≡ false
unfolding is_space
plain-not_space c h = ground arith

trim_left-plain : (s : Text) → IsPlain s → trim_left s ≡ s
unfolding trim_left IsPlain
trim_left-plain [] h = refl
trim_left-plain (c ∷ s) h = rw (plain-not_space c h.0) refl

trim_right-plain : (s : Text) → IsPlain s → trim_right s ≡ s
unfolding trim_right IsPlain
trim_right-plain [] h = refl
trim_right-plain (c ∷ []) h = rw (plain-not_space c h.0) refl
trim_right-plain (c ∷ d ∷ s) h = rw (trim_right-plain (d ∷ s) h.1) refl

trim_space-plain : (s : Text) → IsPlain s → trim_space s ≡ s
unfolding trim_space
trim_space-plain s h = ap trim_right (trim_left-plain s h) ∙ trim_right-plain s h

trim_prefix-plain : (s : Text) → IsPlain s → trim_prefix s (0xfeff ∷ []) ≡ s
unfolding trim_prefix has_prefix IsPlain
trim_prefix-plain [] h = refl
trim_prefix-plain (c ∷ s) h = ground arith

version_line-plain : (s : Text) → IsPlain s → version_line s ≡ s
unfolding version_line
version_line-plain s h =
    rw (cut-plain s h, trim_space-plain s h, trim_prefix-plain s h) (trim_space-plain s h)

split-digits :
    (ds s : Text)
    → All (λ c. is_digit c ≡ true) ds
    → split b'.' (ds ++ b'.' ∷ s) ≡ ds ∷ split b'.' s
unfolding split
split-digits [] s h = refl
split-digits (c ∷ ds) s h = rw (split-digits ds s h.1) (ground arith)

leading_digits-digits : (ds : Text) → All (λ c. is_digit c ≡ true) ds → leading_digits ds ≡ ds
unfolding leading_digits
leading_digits-digits [] h = refl
leading_digits-digits (c ∷ ds) h = rw (h.0, leading_digits-digits ds h.1) refl

leading_int-decimal : (n : ℕ) → n < 2 ^ 63 → leading_int (decimal n) ≡ some n
unfolding leading_int
leading_int-decimal n h =
    rw (leading_digits-digits (decimal n) (decimal-digits n), digits_value-decimal n)
      (ground (arith, decimal-nonempty n))

-- The digits of a number are plain.
decimal-IsPlain : (n : ℕ) → IsPlain (decimal n)
unfolding IsPlain
decimal-IsPlain n = All-map (λ c h. rw h refl) (decimal n) (decimal-digits n)

print_int-small : (n : ℕ) → n < 2 ^ 63 → print_int n ≡ decimal n
unfolding print_int
print_int-small n h = rw (small) (ground arith)
  where
    small : n % 2 ^ 64 ≡ n
    small = omega arith

abbrev pub printed : ℕ → ℕ → ℕ → Text → Text
printed major minor patch rest =
    decimal major ++ (b'.' ∷ (decimal minor ++ (b'.' ∷ (decimal patch ++ (b'.' ∷ rest)))))

printed-IsPlain :
    (major minor patch build : ℕ) → IsPlain (printed major minor patch (decimal build))
unfolding IsPlain
printed-IsPlain major minor patch build = All-append _ (decimal major) _ (decimal-IsPlain major) (
  refl,
  All-append _ (decimal minor) _ (decimal-IsPlain minor)
      (refl, All-append _ (decimal patch) _ (decimal-IsPlain patch) (refl, decimal-IsPlain build)),
)

-- For a version of four printed numbers, of which the first three give an interface number below
-- 2^63, the interface that is read from it is that number printed.
pub build_interface_from_version-printed :
    (major minor patch build : ℕ)
    → major * 10000 + minor * 100 + patch < 2 ^ 63
    → build_interface_from_version (printed major minor patch (decimal build))
      ≡ decimal (major * 10000 + minor * 100 + patch)
unfolding build_interface_from_version
build_interface_from_version-printed major minor patch build h =
    rw
      (
        version_line-plain (printed major minor patch (decimal build))
            (printed-IsPlain major minor patch build),
        split-digits (decimal major)
            (decimal minor ++ (b'.' ∷ (decimal patch ++ (b'.' ∷ decimal build))))
            (decimal-digits major),
        split-digits (decimal minor) (decimal patch ++ (b'.' ∷ decimal build))
            (decimal-digits minor),
        split-digits (decimal patch) (decimal build) (decimal-digits patch),
        leading_int-decimal major (omega arith),
        leading_int-decimal minor (omega arith),
        leading_int-decimal patch (omega arith),
      )
      (print_int-small (major * 10000 + minor * 100 + patch) h)
