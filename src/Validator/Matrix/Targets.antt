-- ===== src/Validator/Matrix/Targets.antt =====
-- The sets and maps that the merges of internal/validator/matrix.go start from.
use wowdoc.Base.{◌≡◌, false, List, [], ◌∷◌, Text}
use wowdoc.Base.{text_eq, contains, if◌then◌else◌}
use wowdoc.Base.Dict
use wowdoc.Base.Dict.{Dict, keys}
use wowdoc.Validator.Types.{Report, fact_value_eq}

-- The members of a set, each once.
unfoldable pub distinct : List Text → List Text
distinct [] = []
distinct (x ∷ xs) = let rest = distinct xs in if contains rest x then rest else x ∷ rest

unfoldable pub empty_for {ℓ} : {A : Type ℓ} → List Report → Dict Text (List A)
empty_for [] = []
empty_for (t ∷ targets) = Dict.insert t.id [] (empty_for targets)

abbrev pub ids : List Report → List Text
ids [] = []
ids (t ∷ ts) = t.id ∷ ids ts

-- No two targets have one id.
abbrev pub HasDistinctIds : List Report → Type 0
HasDistinctIds [] = Unit
HasDistinctIds (t ∷ ts) = (contains (ids ts) t.id ≡ false) × HasDistinctIds ts
