-- ===== src/Base/Sort.antt =====
-- Sorting by a comparison, for `sort.Slice`, `sort.Strings` and `ORDER BY`.
use mathlib.Core.Path.{◌≡◌, refl, ap, ◌∙◌}
use mathlib.Core.Bool.{Bool, true, false, ◌&&◌, ◌||◌}
use mathlib.Core.List.{List, [], ◌∷◌}
use mathlib.Core.Logic.{◌⊎◌, inl, inr}
use native.Mathlib.Omega.{arith}
use wowdoc.Base.Tests.{ltb, eqb, if◌then◌else◌, Bool-cases, if_elim}
use wowdoc.Base.Equality.{Text}
use Prim.Native.Nat.{suc}
use wowdoc.Base.Lists.{All, Any, length}

module _ {ℓ} {A : Type ℓ} (before : A → A → Bool) where
  unfoldable pub insert_by : A → List A → List A
  insert_by a [] = a ∷ []
  insert_by a (x ∷ xs) = if before x a then x ∷ insert_by a xs else a ∷ x ∷ xs

  unfoldable pub sort_by : List A → List A
  unfolding insert_by
  sort_by [] = []
  sort_by (x ∷ xs) = insert_by x (sort_by xs)

  Any-insert_by : (P : A → Type 0) (a : A) (xs : List A) → P a ⊎ Any P xs → Any P (insert_by a xs)
  unfolding insert_by
  Any-insert_by P a [] (inl h) = inl h
  Any-insert_by P a [] (inr h) = absurd h
  Any-insert_by P a (x ∷ xs) h = elim (Bool-cases (before x a)) [
    | inl first ↦ rw first (elim h [
      | inl now ↦ inr (Any-insert_by P a xs (inl now))
      | inr (inl here) ↦ inl here
      | inr (inr later) ↦ inr (Any-insert_by P a xs (inr later))
    ])
    | inr last ↦ rw last h
  ]

  pub All-insert_by :
      (P : A → Type 0) (a : A) (xs : List A) → P a → All P xs → All P (insert_by a xs)
  unfolding insert_by
  All-insert_by P a [] h hs = (h, tt)
  All-insert_by P a (x ∷ xs) h hs = elim (Bool-cases (before x a)) [
    | inl first ↦ rw first (hs.0, All-insert_by P a xs h hs.1)
    | inr last ↦ rw last (h, hs)
  ]

  Any-of-insert_by :
      (P : A → Type 0) (a : A) (xs : List A) → Any P (insert_by a xs) → P a ⊎ Any P xs
  unfolding insert_by
  Any-of-insert_by P a [] h = h
  Any-of-insert_by P a (x ∷ xs) h =
      if_elim (λ l. Any P l → P a ⊎ Any P (x ∷ xs)) (before x a)
        (λ first k. elim k [
          | inl here ↦ inr (inl here)
          | inr later ↦ elim (Any-of-insert_by P a xs later) [
            | inl now ↦ inl now
            | inr l ↦ inr (inr l)
          ]
        ])
        (λ last k. k) h

  -- Sorting adds no element.
  pub Any-of-sort_by : (P : A → Type 0) (xs : List A) → Any P (sort_by xs) → Any P xs
  unfolding sort_by
  Any-of-sort_by P [] h = h
  Any-of-sort_by P (x ∷ xs) h = elim (Any-of-insert_by P x (sort_by xs) h) [
    | inl now ↦ inl now
    | inr later ↦ inr (Any-of-sort_by P xs later)
  ]

  -- Sorting keeps the elements.
  pub Any-sort_by : (P : A → Type 0) (xs : List A) → Any P xs → Any P (sort_by xs)
  unfolding sort_by
  Any-sort_by P [] h = h
  Any-sort_by P (x ∷ xs) (inl h) = Any-insert_by P x (sort_by xs) (inl h)
  Any-sort_by P (x ∷ xs) (inr h) = Any-insert_by P x (sort_by xs) (inr (Any-sort_by P xs h))

  pub All-sort_by : (P : A → Type 0) (xs : List A) → All P xs → All P (sort_by xs)
  unfolding sort_by
  All-sort_by P [] h = tt
  All-sort_by P (x ∷ xs) h = All-insert_by P x (sort_by xs) h.0 (All-sort_by P xs h.1)

  -- No element stands behind one that must not come before it.
  abbrev pub IsSorted : List A → Type 0
  IsSorted [] = Unit
  IsSorted (x ∷ xs) = All (λ y. before y x ≡ false) xs × IsSorted xs

  module _ (asym : (a b : A) → before a b ≡ true → before b a ≡ false)
      (negtrans : (a b c : A) → before b a ≡ false → before c b ≡ false → before c a ≡ false) where
    insert_by-IsSorted : (a : A) (xs : List A) → IsSorted xs → IsSorted (insert_by a xs)
    unfolding insert_by
    insert_by-IsSorted a [] h = (tt, tt)
    insert_by-IsSorted a (x ∷ xs) h = elim (Bool-cases (before x a)) [
      | inl first ↦ rw first (
        All-insert_by (λ y. before y x ≡ false) a xs (asym x a first) h.0,
        insert_by-IsSorted a xs h.1,
      )
      | inr last ↦ rw last ((last, after last xs h.0), h)
    ]
      where
        after :
            before x a ≡ false
            → (ys : List A) → All (λ y. before y x ≡ false) ys
            → All (λ y. before y a ≡ false) ys
        after last [] k = tt
        after last (y ∷ ys) k = (negtrans a x y last k.0, after last ys k.1)

    -- For a strict weak order the result is sorted.
    pub sort_by-IsSorted : (xs : List A) → IsSorted (sort_by xs)
    unfolding sort_by
    sort_by-IsSorted [] = tt
    sort_by-IsSorted (x ∷ xs) = insert_by-IsSorted x (sort_by xs) (sort_by-IsSorted xs)

-- Go's `<` on strings.
unfoldable pub text_lt : Text → Text → Bool
text_lt s [] = false
text_lt [] (d ∷ t) = true
text_lt (c ∷ s) (d ∷ t) = ltb c d || eqb c d && text_lt s t

pub text_lt-asym : (a b : Text) → text_lt a b ≡ true → text_lt b a ≡ false
unfolding text_lt
text_lt-asym [] [] h = cc
text_lt-asym (c ∷ s) [] h = cc
text_lt-asym [] (d ∷ t) h = refl
text_lt-asym (c ∷ s) (d ∷ t) h = ground (arith, text_lt-asym s t)

pub text_lt-negtrans :
    (a b c : Text) → text_lt b a ≡ false → text_lt c b ≡ false → text_lt c a ≡ false
unfolding text_lt
text_lt-negtrans [] b c h k = refl
text_lt-negtrans (x ∷ a) [] c h k = cc
text_lt-negtrans (x ∷ a) (y ∷ b) [] h k = cc
text_lt-negtrans (x ∷ a) (y ∷ b) (z ∷ c) h k = ground (arith, text_lt-negtrans a b c)

module _ {ℓ} {A : Type ℓ} (before : A → A → Bool) where
  length-insert_by : (a : A) (xs : List A) → length (insert_by before a xs) ≡ suc (length xs)
  unfolding insert_by
  length-insert_by a [] = refl
  length-insert_by a (x ∷ xs) = elim (Bool-cases (before x a)) [
    | inl first ↦ rw first (ap suc (length-insert_by a xs))
    | inr last ↦ rw last refl
  ]

  pub length-sort_by : (xs : List A) → length (sort_by before xs) ≡ length xs
  unfolding sort_by
  length-sort_by [] = refl
  length-sort_by (x ∷ xs) = length-insert_by x (sort_by before xs) ∙ ap suc (length-sort_by xs)

  insert_by-first :
      (a : A) (xs : List A) → All (λ y. before y a ≡ false) xs → insert_by before a xs ≡ a ∷ xs
  unfolding insert_by
  insert_by-first a [] h = refl
  insert_by-first a (x ∷ xs) h = rw (h.0) refl

  -- Sorting leaves a sorted list as it is.
  pub sort_by-sorted : (xs : List A) → IsSorted before xs → sort_by before xs ≡ xs
  unfolding sort_by
  sort_by-sorted [] h = refl
  sort_by-sorted (x ∷ xs) h =
      ap (insert_by before x) (sort_by-sorted xs h.1) ∙ insert_by-first x xs h.0

-- Of two different texts one comes first.
pub text_lt-total : (a b : Text) → text_lt a b ≡ false → text_lt b a ≡ false → a ≡ b
unfolding text_lt
text_lt-total [] [] h k = refl
text_lt-total [] (y ∷ b) h k = absurd (cc)
text_lt-total (x ∷ a) [] h k = absurd (cc)
text_lt-total (x ∷ a) (y ∷ b) h k = ground (arith, text_lt-total a b)
