-- ===== src/Base/Entries.antt =====
-- The entries of an association list whose keys are distinct, as those of a Go map are.
use mathlib.Core.Path.{◌≡◌, refl}
use mathlib.Core.Bool.{true, false}
use mathlib.Core.List.{[], ◌∷◌}
use mathlib.Core.Option.{some}
use mathlib.Core.Logic.{inl, inr}
use native.Mathlib.Omega.{arith}
use wowdoc.Base.Lists.{Any}
use wowdoc.Base.Equality.{Eq, contains}
use wowdoc.Base.Dict.{Dict, keys, insert, lookup}
use wowdoc.Base.Members.{contains-keys-insert}

module _ {K V : Type 0} ⦃e : Eq K⦄ where
  -- The pair stands in the list.
  abbrev pub Has : Dict K V → K → V → Type 0
  Has d k v = Any (λ p. p ≡ (k, v)) d

  abbrev pub HasDistinctKeys : Dict K V → Type 0
  HasDistinctKeys [] = Unit
  HasDistinctKeys ((k, v) ∷ d) = (contains (keys d) k ≡ false) × HasDistinctKeys d

  pub insert-HasDistinctKeys :
      (k : K) (v : V) (d : Dict K V) → HasDistinctKeys d → HasDistinctKeys (insert k v d)
  unfolding insert keys
  insert-HasDistinctKeys k v [] h = (refl, tt)
  insert-HasDistinctKeys k v ((j, w) ∷ d) h =
      ground (arith, insert-HasDistinctKeys k v d h.1, contains-keys-insert k v d j)

  contains-Has : (d : Dict K V) (k : K) (v : V) → Has d k v → contains (keys d) k ≡ true
  unfolding keys
  contains-Has [] k v m = elim m [ ]
  contains-Has ((j, w) ∷ d) k v (inl p) = ground arith
  contains-Has ((j, w) ∷ d) k v (inr m) = ground (arith, contains-Has d k v m)

  pub Has-lookup : (d : Dict K V) (k : K) (v : V) → lookup k d ≡ some v → Has d k v
  unfolding lookup
  Has-lookup [] k v h = absurd (cc)
  Has-lookup ((j, w) ∷ d) k v h = elim (e.dec k j) [
    | yes same ↦ inl (ground arith)
    | no differ ↦ inr (Has-lookup d k v (ground arith))
  ]

  pub lookup-Has :
      (d : Dict K V) (k : K) (v : V) → HasDistinctKeys d → Has d k v → lookup k d ≡ some v
  unfolding lookup
  lookup-Has [] k v h m = elim m [ ]
  lookup-Has ((j, w) ∷ d) k v h (inl p) = ground arith
  lookup-Has ((j, w) ∷ d) k v h (inr m) =
      ground (arith, lookup-Has d k v h.1 m, contains-Has d k v m)
