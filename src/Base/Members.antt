-- ===== src/Base/Members.antt =====
-- The Boolean membership test on appended and sorted lists.
use mathlib.Core.Path.{◌≡◌, refl}
use mathlib.Core.Bool.{Bool, false, ◌||◌}
use mathlib.Core.List.{List, [], ◌∷◌, ◌++◌}
use mathlib.Core.Option.{none}
use mathlib.Core.Logic.{inl, inr}
use native.Mathlib.Omega.{arith}
use wowdoc.Base.Tests.{Bool-cases}
use wowdoc.Base.Equality.{Eq, ◌==◌, contains}
use wowdoc.Base.Sort.{insert_by, sort_by}
use wowdoc.Base.Dict.{Dict, keys, insert, lookup}

module _ {ℓ} {A : Type ℓ} ⦃e : Eq A⦄ where
  pub contains-append :
      (xs ys : List A) (a : A) → contains (xs ++ ys) a ≡ (contains xs a || contains ys a)
  contains-append [] ys a = refl
  contains-append (x ∷ xs) ys a = ground (arith, contains-append xs ys a)

  contains-insert_by :
      (lt : A → A → Bool) (x : A) (xs : List A) (a : A)
      → contains (insert_by lt x xs) a ≡ (a == x || contains xs a)
  unfolding insert_by
  contains-insert_by lt x [] a = refl
  contains-insert_by lt x (y ∷ xs) a = elim (Bool-cases (lt y x)) [
    | inl first ↦ rw first (ground (arith, contains-insert_by lt x xs a))
    | inr last ↦ rw last refl
  ]

  -- Sorting keeps the members.
  pub contains-sort_by :
      (lt : A → A → Bool) (xs : List A) (a : A) → contains (sort_by lt xs) a ≡ contains xs a
  unfolding sort_by
  contains-sort_by lt [] a = refl
  contains-sort_by lt (x ∷ xs) a =
      ground (arith, contains-insert_by lt x (sort_by lt xs) a, contains-sort_by lt xs a)

module _ {ℓ κ} {K : Type ℓ} {V : Type κ} ⦃e : Eq K⦄ where
  pub contains-keys-insert :
      (k : K) (v : V) (d : Dict K V) (j : K)
      → contains (keys (insert k v d)) j ≡ (j == k || contains (keys d) j)
  unfolding keys insert
  contains-keys-insert k v [] j = refl
  contains-keys-insert k v ((i, w) ∷ d) j = ground (arith, contains-keys-insert k v d j)

  pub lookup-keys : (k : K) (d : Dict K V) → contains (keys d) k ≡ false → lookup k d ≡ none
  unfolding keys lookup
  lookup-keys k [] h = refl
  lookup-keys k ((j, w) ∷ d) h = ground (arith, lookup-keys k d)
