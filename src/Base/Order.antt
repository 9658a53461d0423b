-- ===== src/Base/Order.antt =====
-- Lists in which each element is related to all that follow it, and the order of Go's strings.
use Prim.Native.Nat.{◌<◌}
use mathlib.Core.Path.{◌≡◌}
use mathlib.Core.Bool.{Bool, true, false}
use mathlib.Core.List.{List, [], ◌∷◌}
use mathlib.Core.Logic.{◌≢◌, ◌⊎◌, inl, inr}
use native.Mathlib.Omega.{arith}
use wowdoc.Base.Tests.{Bool-cases}
use wowdoc.Base.Equality.{Text}
use wowdoc.Base.Lists.{All, All-zip, All-map}
use wowdoc.Base.Sort.{
  insert_by, sort_by, All-insert_by, All-sort_by, IsSorted, text_lt, text_lt-total,
}

-- The first text comes before the second in the order of their code points.
abbrev pub IsBefore : Text → Text → Type 0
IsBefore s [] = ⊥
IsBefore [] (d ∷ t) = Unit
IsBefore (c ∷ s) (d ∷ t) = (c < d) ⊎ ((c ≡ d) × IsBefore s t)

text_lt-IsBefore : (s t : Text) → text_lt s t ≡ true → IsBefore s t
unfolding text_lt
text_lt-IsBefore [] [] h = absurd (cc)
text_lt-IsBefore (c ∷ s) [] h = absurd (cc)
text_lt-IsBefore [] (d ∷ t) h = tt
text_lt-IsBefore (c ∷ s) (d ∷ t) h = ground (arith, text_lt-IsBefore s t)

pub not_after-IsBefore : (s t : Text) → text_lt t s ≡ false → s ≢ t → IsBefore s t
not_after-IsBefore s t h differ = elim (Bool-cases (text_lt s t)) [
  | inl first ↦ text_lt-IsBefore s t first
  | inr last ↦ absurd (differ (text_lt-total s t last h))
]

module _ {ℓ} {A : Type ℓ} where
  -- Each element is related to all that follow it.
  abbrev pub Pairwise : (A → A → Type 0) → List A → Type 0
  Pairwise R [] = Unit
  Pairwise R (x ∷ xs) = All (R x) xs × Pairwise R xs

  module _ (before : A → A → Bool) (D : A → A → Type 0) (sym_D : (a b : A) → D a b → D b a) where
    insert_by-Pairwise :
        (a : A) (xs : List A) → All (D a) xs → Pairwise D xs → Pairwise D (insert_by before a xs)
    unfolding insert_by
    insert_by-Pairwise a [] h k = (tt, tt)
    insert_by-Pairwise a (x ∷ xs) h k = elim (Bool-cases (before x a)) [
      | inl first ↦
          rw first
            (All-insert_by before (D x) a xs (sym_D a x h.0) k.0, insert_by-Pairwise a xs h.1 k.1)
      | inr last ↦ rw last (h, k)
    ]

    sort_by-Pairwise : (xs : List A) → Pairwise D xs → Pairwise D (sort_by before xs)
    unfolding sort_by
    sort_by-Pairwise [] h = tt
    sort_by-Pairwise (x ∷ xs) h =
        insert_by-Pairwise x (sort_by before xs) (All-sort_by before (D x) xs h.0)
          (sort_by-Pairwise xs h.1)

    module _ (R : A → A → Type 0) (decides : (a b : A) → before b a ≡ false → D a b → R a b) where
      sorted-Pairwise : (xs : List A) → IsSorted before xs → Pairwise D xs → Pairwise R xs
      sorted-Pairwise [] h k = tt
      sorted-Pairwise (x ∷ xs) h k = (
        All-map {Q = R x} (λ y p. decides x y p.0 p.1) xs
            (All-zip (λ y. before y x ≡ false) (D x) xs h.0 k.0),
        sorted-Pairwise xs h.1 k.1,
      )

      -- Sorting orders elements that differ pairwise by the relation that the test decides.
      pub sort_by-related :
          (xs : List A)
          → IsSorted before (sort_by before xs)
          → Pairwise D xs
          → Pairwise R (sort_by before xs)
      sort_by-related xs h k = sorted-Pairwise (sort_by before xs) h (sort_by-Pairwise xs k)
