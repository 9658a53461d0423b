-- ===== src/Validator/Matrix/Facts/Collected.antt =====
-- What `mergeFacts` of internal/validator/matrix.go collects of each target.
use wowdoc.Base.{
  ◌≡◌, refl, ◌∙◌, ap, arith, false, ◌&&◌, Option, none, some, List, [], ◌∷◌, Text, All,
}
use wowdoc.Base.{◌==◌, text_eq, contains, if◌then◌else◌}
use wowdoc.Base.Dict
use wowdoc.Base.Dict.{Dict, keys, lookup-insert}
use wowdoc.Strings.{to_lower}
use wowdoc.Validator.Types.{Report, Fact, FactValue, fact_value_eq}
use wowdoc.Validator.Matrix.Targets.{ids, HasDistinctIds}
use wowdoc.Validator.Matrix.Facts.{dict_at, collect_facts, values_by_name}

abbrev pub value_of : Fact → FactValue
value_of f = record { exists = f.exists; signature = f.signature }

-- The value of the last fact of the name and the kinds, or `before`.
abbrev pub last_value : List Text → Text → List Fact → Option FactValue → Option FactValue
last_value kinds n [] before = before
last_value kinds n (f ∷ facts) before =
    last_value kinds n facts
      (if contains kinds (to_lower f.kind) && n == f.name then some (value_of f) else before)

dict_at-insert :
    (n m : Text) (row : Dict Text FactValue) (values : Dict Text (Dict Text FactValue))
    → dict_at n (Dict.insert m row values) ≡ (if n == m then row else dict_at n values)
dict_at-insert n m row values = ground (arith, lookup-insert n m row values)

abbrev pub step :
    List Text → Text → Fact → Dict Text (Dict Text FactValue) → Dict Text (Dict Text FactValue)
step kinds id f values =
    if contains kinds (to_lower f.kind)
    then Dict.insert f.name (Dict.insert id (value_of f) (dict_at f.name values)) values
    else values

step-own :
    (kinds : List Text) (id n : Text) (f : Fact) (values : Dict Text (Dict Text FactValue))
    → Dict.lookup id (dict_at n (step kinds id f values)) ≡ (
        if contains kinds (to_lower f.kind) && n == f.name
        then some (value_of f)
        else Dict.lookup id (dict_at n values))
step-own kinds id n f values = ground (
  arith,
  dict_at-insert n f.name (Dict.insert id (value_of f) (dict_at f.name values)) values,
  lookup-insert id id (value_of f) (dict_at f.name values),
)

step-other :
    (kinds : List Text) (id j n : Text) (f : Fact) (values : Dict Text (Dict Text FactValue))
    → (j == id) ≡ false
    → Dict.lookup j (dict_at n (step kinds id f values)) ≡ Dict.lookup j (dict_at n values)
step-other kinds id j n f values h = ground (
  arith,
  dict_at-insert n f.name (Dict.insert id (value_of f) (dict_at f.name values)) values,
  lookup-insert j id (value_of f) (dict_at f.name values),
)

collect_facts-own :
    (kinds : List Text) (id n : Text) (fs : List Fact) (values : Dict Text (Dict Text FactValue))
    → Dict.lookup id (dict_at n (collect_facts kinds id fs values))
      ≡ last_value kinds n fs (Dict.lookup id (dict_at n values))
unfolding collect_facts
collect_facts-own kinds id n [] values = refl
collect_facts-own kinds id n (f ∷ fs) values =
    collect_facts-own kinds id n fs (step kinds id f values)
    ∙ ap (last_value kinds n fs) (step-own kinds id n f values)

collect_facts-other :
    (kinds : List Text) (id j n : Text) (fs : List Fact) (values : Dict Text (Dict Text FactValue))
    → (j == id) ≡ false
    → Dict.lookup j (dict_at n (collect_facts kinds id fs values))
      ≡ Dict.lookup j (dict_at n values)
unfolding collect_facts
collect_facts-other kinds id j n [] values h = refl
collect_facts-other kinds id j n (f ∷ fs) values h =
    collect_facts-other kinds id j n fs (step kinds id f values) h
    ∙ step-other kinds id j n f values h

values_by_name-other :
    (kinds : List Text) (ts : List Report) (j n : Text) (values : Dict Text (Dict Text FactValue))
    → contains (ids ts) j ≡ false
    → Dict.lookup j (dict_at n (values_by_name kinds ts values)) ≡ Dict.lookup j (dict_at n values)
unfolding values_by_name
values_by_name-other kinds [] j n values h = refl
values_by_name-other kinds (t ∷ ts) j n values h =
    values_by_name-other kinds ts j n (collect_facts kinds t.id t.facts values) (ground arith)
    ∙ collect_facts-other kinds t.id j n t.facts values (ground arith)

-- The targets' rows are empty before the targets are read.
abbrev pub HasNone : Text → List Report → Dict Text (Dict Text FactValue) → Type 0
HasNone n ts values = All (λ t. Dict.lookup t.id (dict_at n values) ≡ none) ts

HasNone-collect_facts :
    (kinds : List Text) (t : Report) (ts : List Report) (n : Text) (fs : List Fact)
    (values : Dict Text (Dict Text FactValue))
    → contains (ids ts) t.id ≡ false
    → HasNone n ts values
    → HasNone n ts (collect_facts kinds t.id fs values)
HasNone-collect_facts kinds t [] n fs values d h = tt
HasNone-collect_facts kinds t (u ∷ ts) n fs values d h = (
  collect_facts-other kinds t.id u.id n fs values (ground arith) ∙ h.0,
  HasNone-collect_facts kinds t ts n fs values (ground arith) h.1,
)

-- The row of a name has each target's last value of it.
pub values_by_name-own :
    (kinds : List Text) (ts : List Report) (n : Text) (values : Dict Text (Dict Text FactValue))
    → HasDistinctIds ts
    → HasNone n ts values
    → All
        (λ t.
          Dict.lookup t.id (dict_at n (values_by_name kinds ts values))
          ≡ last_value kinds n t.facts none)
        ts
unfolding values_by_name
values_by_name-own kinds [] n values d h = tt
values_by_name-own kinds (t ∷ ts) n values d h = (
  values_by_name-other kinds ts t.id n (collect_facts kinds t.id t.facts values) d.0
      ∙ collect_facts-own kinds t.id n t.facts values
      ∙ ap (last_value kinds n t.facts) h.0,
  values_by_name-own kinds ts n (collect_facts kinds t.id t.facts values) d.1
      (HasNone-collect_facts kinds t ts n t.facts values d.0 h.1),
)
