-- ===== src/Validator/Closure/Unloaded.antt =====
-- The files that a closure can still load, internal/validator/closure.go.
use wowdoc.Base.{ℕ, suc, ◌<◌, ◌≤◌, ◌≡◌, refl, ap, arith, true, none, some, List, [], ◌∷◌, Text}
use wowdoc.Base.{text_eq, contains, length}
use wowdoc.Base.Dict
use wowdoc.Base.Dict.{Dict, lookup-insert}

-- How many of the keys are not in the map.
unfoldable pub unloaded : Dict Text ℕ → List Text → ℕ
unloaded files [] = 0
unloaded files (k ∷ ks) =
    let rest = unloaded files ks in elim (Dict.lookup k files) [ none ↦ suc rest | some i ↦ rest ]

unloaded-insert_le :
    (files : Dict Text ℕ) (key : Text) (n : ℕ) (ks : List Text)
    → unloaded (Dict.insert key n files) ks ≤ unloaded files ks
unfolding unloaded
unloaded-insert_le files key n [] = omega arith
unloaded-insert_le files key n (k ∷ ks) =
    ground (arith, unloaded-insert_le files key n ks, lookup-insert k key n files)

pub unloaded-insert :
    (files : Dict Text ℕ) (key : Text) (n : ℕ) (ks : List Text)
    → contains ks key ≡ true
    → Dict.lookup key files ≡ none
    → unloaded (Dict.insert key n files) ks < unloaded files ks
unfolding unloaded
unloaded-insert files key n [] h fresh = absurd (cc)
unloaded-insert files key n (k ∷ ks) h fresh = ground (
  arith,
  unloaded-insert_le files key n ks,
  unloaded-insert files key n ks,
  lookup-insert k key n files,
  h,
)

pub unloaded-empty : (ks : List Text) → unloaded [] ks ≡ length ks
unfolding unloaded Dict.lookup
unloaded-empty [] = refl
unloaded-empty (k ∷ ks) = ap suc (unloaded-empty ks)
