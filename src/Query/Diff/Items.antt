-- ===== src/Query/Diff/Items.antt =====
-- The items that the loops of `Diff` make of the entries of a map, internal/query/query.go.
use wowdoc.Base.{◌≡◌, refl, ap, sym, subst, ◌≢◌, ◌⊎◌, inl, inr, Option, none, some, List}
use wowdoc.Base.{[], ◌∷◌, Text, text_eq, arith, Any, Option-cases}
use wowdoc.Base.Dict.{Dict, lookup, insert}
use wowdoc.Base.Sort.{sort_by, Any-sort_by, Any-of-sort_by}
use wowdoc.Base.Entries.{Has, HasDistinctKeys, insert-HasDistinctKeys, Has-lookup}
use wowdoc.Base.{All, contains, false}
use wowdoc.Base.Dict.{keys}
use wowdoc.Base.Order.{Pairwise}
use wowdoc.Query.Diff.{
  DiffItem, load, item, removed_item, changed_item, added_item, append_item, items_of, key_before,
}

abbrev pub Lists : List DiffItem → DiffItem → Type 0
Lists items x = Any (λ y. y ≡ x) items

pub load-HasDistinctKeys :
    (m : Dict Text Text) (rows : List (Text × Text))
    → HasDistinctKeys m
    → HasDistinctKeys (load m rows)
unfolding load
load-HasDistinctKeys m [] h = h
load-HasDistinctKeys m ((k, v) ∷ rows) h =
    load-HasDistinctKeys (insert k v m) rows (insert-HasDistinctKeys k v m h)

append_item-Lists :
    (o : Option DiffItem) (items : List DiffItem) (x : DiffItem)
    → Lists (append_item o items) x
    → (o ≡ some x) ⊎ Lists items x
append_item-Lists none items x h = inr h
append_item-Lists (some y) items x (inl here) = inl (ap some here)
append_item-Lists (some y) items x (inr later) = inr later

Lists-append_item :
    (o : Option DiffItem) (items : List DiffItem) (x : DiffItem)
    → (o ≡ some x) ⊎ Lists items x
    → Lists (append_item o items) x
Lists-append_item none items x (inl e) = absurd (cc)
Lists-append_item none items x (inr h) = h
Lists-append_item (some y) items x (inl e) = inl (cc)
Lists-append_item (some y) items x (inr h) = inr h

module _ (f : Text → Text → Option DiffItem) where
  -- An item of a loop comes from an entry of the map.
  abbrev pub ComesFrom : Dict Text Text → DiffItem → Type 0
  ComesFrom m x = (k : Text) × (v : Text) × Has m k v × (f k v ≡ some x)

  items_of-Lists : (m : Dict Text Text) (x : DiffItem) → Lists (items_of f m) x → ComesFrom m x
  unfolding items_of
  items_of-Lists [] x h = absurd h
  items_of-Lists ((k, v) ∷ m) x h = elim (append_item-Lists (f k v) (items_of f m) x h) [
    | inl e ↦ (k, v, inl refl, e)
    | inr later ↦ let (j, w, m, e) = items_of-Lists m x later in (j, w, inr m, e)
  ]

  Lists-items_of :
      (m : Dict Text Text) (k v : Text) (x : DiffItem)
      → Has m k v
      → f k v ≡ some x
      → Lists (items_of f m) x
  unfolding items_of
  Lists-items_of [] k v x h e = absurd h
  Lists-items_of ((j, w) ∷ m) k v x (inl p) e =
      Lists-append_item (f j w) (items_of f m) x (inl (cc))
  Lists-items_of ((j, w) ∷ m) k v x (inr h) e =
      Lists-append_item (f j w) (items_of f m) x (inr (Lists-items_of m k v x h e))

  pub sorted-Lists :
      (m : Dict Text Text) (x : DiffItem)
      → Lists (sort_by key_before (items_of f m)) x
      → ComesFrom m x
  sorted-Lists m x h = items_of-Lists m x (Any-of-sort_by key_before (λ y. y ≡ x) (items_of f m) h)

  pub Lists-sorted :
      (m : Dict Text Text) (k v : Text) (x : DiffItem)
      → lookup k m ≡ some v
      → f k v ≡ some x
      → Lists (sort_by key_before (items_of f m)) x
  Lists-sorted m k v x h e =
      Any-sort_by key_before (λ y. y ≡ x) (items_of f m)
        (Lists-items_of m k v x (Has-lookup m k v h) e)

pub removed_item_lem :
    (right : Dict Text Text) (k v : Text) (x : DiffItem)
    → removed_item right k v ≡ some x
    → (lookup k right ≡ none) × (item k v [] ≡ x)
unfolding removed_item
removed_item_lem right k v x h = ground arith

pub added_item_lem :
    (left : Dict Text Text) (k v : Text) (x : DiffItem)
    → added_item left k v ≡ some x
    → (lookup k left ≡ none) × (item k [] v ≡ x)
unfolding added_item
added_item_lem left k v x h = ground arith

pub changed_item_lem :
    (right : Dict Text Text) (k v : Text) (x : DiffItem)
    → changed_item right k v ≡ some x
    → (lookup k right ≡ some x.after) × (x.after ≢ v) × (item k v x.after ≡ x)
unfolding changed_item
changed_item_lem right k v x h = elim (Option-cases (lookup k right)) [
  | inl e ↦ absurd (ground arith)
  | inr (w, e) ↦ (ground arith, λ p. ground arith, ground arith)
]

pub removed_item-some :
    (right : Dict Text Text) (x : DiffItem)
    → x.after ≡ []
    → lookup x.key right ≡ none
    → removed_item right x.key x.before ≡ some x
unfolding removed_item
removed_item-some right x a r = ground arith

pub added_item-some :
    (left : Dict Text Text) (x : DiffItem)
    → x.before ≡ []
    → lookup x.key left ≡ none
    → added_item left x.key x.after ≡ some x
unfolding added_item
added_item-some left x b l = ground arith

pub changed_item-some :
    (right : Dict Text Text) (x : DiffItem)
    → lookup x.key right ≡ some x.after
    → x.before ≢ x.after
    → changed_item right x.key x.before ≡ some x
unfolding changed_item
changed_item-some right x r differ = ground arith

All-append_item :
    (P : DiffItem → Type 0) (o : Option DiffItem) (items : List DiffItem)
    → ((x : DiffItem) → o ≡ some x → P x)
    → All P items
    → All P (append_item o items)
All-append_item P none items h k = k
All-append_item P (some x) items h k = (h x refl, k)

-- The items have different keys.
abbrev pub KeysDiffer : DiffItem → DiffItem → Type 0
KeysDiffer x y = x.key ≢ y.key

Pairwise-append_item :
    (o : Option DiffItem) (items : List DiffItem)
    → ((x : DiffItem) → o ≡ some x → All (KeysDiffer x) items)
    → Pairwise KeysDiffer items
    → Pairwise KeysDiffer (append_item o items)
Pairwise-append_item none items h k = k
Pairwise-append_item (some x) items h k = (h x refl, k)

module _ (f : Text → Text → Option DiffItem)
    (keyed : (k v : Text) (x : DiffItem) → f k v ≡ some x → x.key ≡ k) where
  items_of-away :
      (m : Dict Text Text) (k : Text)
      → contains (keys m) k ≡ false
      → All (λ x. k ≢ x.key) (items_of f m)
  unfolding items_of keys
  items_of-away [] k h = tt
  items_of-away ((j, v) ∷ m) k h =
      All-append_item (λ x. k ≢ x.key) (f j v) (items_of f m)
        (λ x e same. let own = keyed j v x e in ground (arith, same, own))
        (items_of-away m k (ground arith))

  -- The loop makes one item at most of each key.
  pub items_of-Pairwise :
      (m : Dict Text Text) → HasDistinctKeys m → Pairwise KeysDiffer (items_of f m)
  unfolding items_of
  items_of-Pairwise [] h = tt
  items_of-Pairwise ((k, v) ∷ m) h =
      Pairwise-append_item (f k v) (items_of f m)
        (λ x e.
          let own = keyed k v x e in
          subst (λ j. All (λ y. j ≢ y.key) (items_of f m)) (sym own) (items_of-away m k h.0))
        (items_of-Pairwise m h.1)
