-- ===== src/Query/Compat/Keys.antt =====
-- The keys of the cache in internal/query/compat.go.
use wowdoc.Base.{◌≡◌, refl, arith, Bool, false, ◌||◌, [], ◌∷◌, Text, codes}
use wowdoc.Base.{◌==◌, text_eq, nat_eq, contains, eqb, if_elim}
use wowdoc.Strings.{trim_space, to_lower}
use wowdoc.Query.Compat.{cache_key}
use wowdoc.Query.Compat.Matching.{normalize_kind, normalize_lower}

-- A kind has no zero character, which ends it in the keys of the cache.
abbrev has_zero : Text → Bool
has_zero [] = false
has_zero (c ∷ s) = eqb c 0 || has_zero s

unfoldable pub HasNoZero : Text → Type 0
HasNoZero kind = has_zero kind ≡ false

pub normalize_kind-HasNoZero : (kind : Text) → HasNoZero (normalize_kind kind)
unfolding normalize_kind normalize_lower HasNoZero
normalize_kind-HasNoZero kind =
    let k = to_lower (trim_space kind) in
    if_elim HasNoZero (contains (codes "api" ∷ codes "api-candidate" ∷ codes "function" ∷ []) k)
      (λ _. refl)
      (λ _.
        if_elim HasNoZero (k == codes "event") (λ _. refl)
          (λ _.
            if_elim HasNoZero (contains (codes "template" ∷ codes "xml-template" ∷ []) k)
              (λ _. refl)
              (λ _.
                if_elim HasNoZero (k == codes "mixin") (λ _. refl)
                  (λ _.
                    if_elim HasNoZero
                      (contains (codes "frame-type" ∷ codes "frametype" ∷ codes "frame" ∷ []) k)
                      (λ _. refl)
                      (λ _. if_elim HasNoZero (k == codes "interface") (λ _. refl) (λ _. refl))))))

pub cache_key-injective :
    (j k m n : Text) → HasNoZero j → HasNoZero k → cache_key j m ≡ cache_key k n → (j ≡ k) × (m ≡ n)
unfolding HasNoZero
cache_key-injective [] [] m n a b e = (refl, cc)
cache_key-injective [] (c ∷ k) m n a b e = absurd (ground (arith, e))
cache_key-injective (c ∷ j) [] m n a b e = absurd (ground (arith, e))
cache_key-injective (c ∷ j) (d ∷ k) m n a b e =
    let (same_kind, same_name) = cache_key-injective j k m n (ground arith) (ground arith) (cc) in
    (cc, same_name)
