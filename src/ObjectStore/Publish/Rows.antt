-- ===== src/ObjectStore/Publish/Rows.antt =====
-- The rows of a new pack in `publishIndex` of internal/objectstore/store.go.
use wowdoc.Base.{◌≡◌, ◌≢◌, ap, subst₂, sym, ◌∙◌, some}
use wowdoc.Base.{List, [], ◌∷◌, map, Text, All, Any, ◌⊎◌, inl, inr}
use wowdoc.Base.{text_eq, Option-cases}
use wowdoc.Base.Dict
use wowdoc.Base.Dict.{Dict}
use wowdoc.ObjectStore.Pack.{Location}
use wowdoc.ObjectStore.Index.{Key, key_eq}
use wowdoc.ObjectStore.Builder.{Pending}
use wowdoc.ObjectStore.Publish.{key_of, location_at}
use wowdoc.ObjectStore.Publish.{unique_records, insert_objects}

-- A row for the key.
abbrev pub Present : Key → Dict Key Location → Type 0
Present k objects = (r : Location) × (Dict.lookup k objects ≡ some r)

-- The rows of a new pack and the rows that were there before.
pub insert_objects-cases :
    (P : Key → Location → Type 0) (path : Text) (records : List Pending)
    (objects : Dict Key Location)
    → All (λ r. P (key_of r) (location_at path r)) records
    → ((k : Key) (r : Location) → Dict.lookup k objects ≡ some r → P k r)
    → (k : Key) (r : Location) → Dict.lookup k (insert_objects path records objects) ≡ some r
    → P k r
unfolding insert_objects
insert_objects-cases P path [] objects new old k r h = old k r h
insert_objects-cases P path (x ∷ records) objects new old k r h =
    insert_objects-cases P path records _ new.1 old' k r h
  where
    old' :
        (k : Key) (r : Location)
        → Dict.lookup k (Dict.insert (key_of x) (location_at path x) objects) ≡ some r
        → P k r
    old' k r e = elim (Dict.insert-cases k (key_of x) (location_at path x) r objects e) [
      | inl (same, v) ↦ subst₂ P (sym same) v new.0
      | inr before ↦ old k r before
    ]

pub Present-insert_objects :
    (k : Key) (path : Text) (records : List Pending) (objects : Dict Key Location)
    → Any (λ j. k ≡ j) (map key_of records) ⊎ Present k objects
    → Present k (insert_objects path records objects)
unfolding insert_objects
Present-insert_objects k path [] objects (inr h) = h
Present-insert_objects k path [] objects (inl h) = absurd h
Present-insert_objects k path (x ∷ records) objects (inl (inl e)) =
    Present-insert_objects k path records _ (
      inr (
        location_at path x,
        rw e (Dict.lookup-insert_self (key_of x) (location_at path x) objects),
      ))
Present-insert_objects k path (x ∷ records) objects (inl (inr later)) =
    Present-insert_objects k path records _ (inl later)
Present-insert_objects k path (x ∷ records) objects (inr (r, h)) =
    Present-insert_objects k path records _
      (inr (Dict.insert-keeps k (key_of x) (location_at path x) r objects h))

-- A row that was there before is not replaced: the records of the new pack have other keys.
pub insert_objects-keeps :
    (k : Key) (r : Location) (path : Text) (records : List Pending) (objects : Dict Key Location)
    → All (λ j. k ≢ j) (map key_of records)
    → Dict.lookup k objects ≡ some r
    → Dict.lookup k (insert_objects path records objects) ≡ some r
unfolding insert_objects
insert_objects-keeps k r path [] objects other h = h
insert_objects-keeps k r path (x ∷ records) objects other h =
    insert_objects-keeps k r path records _ other.1
      (Dict.lookup-insert_ne k (key_of x) (location_at path x) objects other.0 ∙ h)

pub unique_records-ne :
    (k : Key) (r : Location) (objects : Dict Key Location) (records : List Pending)
    → Dict.lookup k objects ≡ some r
    → All (λ j. k ≢ j) (map key_of (unique_records objects records))
unfolding unique_records
unique_records-ne k r objects [] h = tt
unique_records-ne k r objects (x ∷ records) h =
    elim (Option-cases (Dict.lookup (key_of x) objects)) [
      | inl fresh ↦ rw fresh (
        λ e. cc (h, fresh, ap (λ (j : Key). Dict.lookup j objects) e),
        unique_records-ne k r objects records h,
      )
      | inr (q, old) ↦ rw old (unique_records-ne k r objects records h)
    ]

pub All-unique_records :
    (P : Pending → Type 0) (objects : Dict Key Location) (records : List Pending)
    → All P records
    → All P (unique_records objects records)
unfolding unique_records
All-unique_records P objects [] h = tt
All-unique_records P objects (x ∷ records) h =
    elim (Option-cases (Dict.lookup (key_of x) objects)) [
      | inl fresh ↦ rw fresh (h.0, All-unique_records P objects records h.1)
      | inr (q, old) ↦ rw old (All-unique_records P objects records h.1)
    ]

-- The key of one of the records.
abbrev pub IsPending : Key → List Pending → Type 0
IsPending k records = Any (λ j. k ≡ j) (map key_of records)

-- A record is new, or the index has a row of it.
pub unique_records-covers :
    (k : Key) (objects : Dict Key Location) (records : List Pending)
    → IsPending k records
    → IsPending k (unique_records objects records) ⊎ Present k objects
unfolding unique_records
unique_records-covers k objects [] h = absurd h
unique_records-covers k objects (x ∷ records) (inl same) =
    elim (Option-cases (Dict.lookup (key_of x) objects)) [
      | inl fresh ↦ rw fresh (inl (inl same))
      | inr (q, old) ↦ inr (q, ap (λ (j : Key). Dict.lookup j objects) same ∙ old)
    ]
unique_records-covers k objects (x ∷ records) (inr later) =
    elim (unique_records-covers k objects records later) [
      | inr old ↦ inr old
      | inl new ↦ elim (Option-cases (Dict.lookup (key_of x) objects)) [
        | inl fresh ↦ rw fresh (inl (inr new))
        | inr (q, old) ↦ rw old (inl new)
      ]
    ]
