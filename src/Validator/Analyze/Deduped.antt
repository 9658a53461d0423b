-- ===== src/Validator/Analyze/Deduped.antt =====
-- `dedupeUsages` of internal/validator/analyze.go as a set of keys.
use wowdoc.Base.{◌≡◌, refl, arith, false, not, ◌&&◌, List, [], ◌∷◌, Text}
use wowdoc.Base.{text_eq, contains, if_elim}
use wowdoc.Validator.Types.{Usage}
use wowdoc.Validator.Analyze.{usage_key, dedupe_from, dedupe_usages}

abbrev pub keys_of : List Usage → List Text
keys_of [] = []
keys_of (u ∷ us) = usage_key u ∷ keys_of us

abbrev pub HasDistinctKeys : List Usage → Type 0
HasDistinctKeys [] = Unit
HasDistinctKeys (u ∷ us) = (contains (keys_of us) (usage_key u) ≡ false) × HasDistinctKeys us

dedupe_from-keys :
    (seen : List Text) (us : List Usage) (k : Text)
    → contains (keys_of (dedupe_from seen us)) k
      ≡ (contains (keys_of us) k && not (contains seen k))
unfolding dedupe_from
dedupe_from-keys seen [] k = refl
dedupe_from-keys seen (u ∷ us) k =
    if_elim
      (λ (out : List Usage).
        contains (keys_of out) k ≡ (contains (keys_of (u ∷ us)) k && not (contains seen k)))
      (contains seen (usage_key u)) (λ old. ground (arith, dedupe_from-keys seen us k))
      (λ fresh. ground (arith, dedupe_from-keys (usage_key u ∷ seen) us k))

dedupe_from-distinct : (seen : List Text) (us : List Usage) → HasDistinctKeys (dedupe_from seen us)
unfolding dedupe_from
dedupe_from-distinct seen [] = tt
dedupe_from-distinct seen (u ∷ us) =
    if_elim HasDistinctKeys (contains seen (usage_key u)) (λ old. dedupe_from-distinct seen us)
      (λ fresh. (
        ground (arith, dedupe_from-keys (usage_key u ∷ seen) us (usage_key u)),
        dedupe_from-distinct (usage_key u ∷ seen) us,
      ))

-- `dedupeUsages` gives usages with pairwise different keys, and with exactly the keys that it was
-- given.
pub dedupe_usages-HasDistinctKeys :
    (us : List Usage)
    → HasDistinctKeys (dedupe_usages us)
      × ((k : Text) → contains (keys_of (dedupe_usages us)) k ≡ contains (keys_of us) k)
unfolding dedupe_usages
dedupe_usages-HasDistinctKeys us =
    (dedupe_from-distinct [] us, λ k. ground (arith, dedupe_from-keys [] us k))
