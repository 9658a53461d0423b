-- ===== src/Catalog/Lookup.antt =====
-- The spellings of ids and aliases, and the searches of internal/catalog/catalog.go.
use wowdoc.Base.{
  ◌≡◌, refl, ap, subst, sym, ◌∙◌, Bool, true, false, ◌&&◌, Option, none, some, List, [], ◌∷◌, ◌++◌,
}
use wowdoc.Base.{Text, All, Any, inl, inr, ◌==◌, text_eq, arith, Bool-cases}
use wowdoc.Strings.{trim_space, equal_fold, to_lower}
use wowdoc.Catalog.{matches, matches_client, find_product, find_product_in}
use wowdoc.Catalog.Table.{Source, Product, sources}

and_left : (a b : Bool) → (a && b) ≡ true → a ≡ true
and_left true b h = refl
and_left false b h = h

-- Whether two options hold products with the same id and branch.
is_product : Option Product → Product → Bool
is_product none p = false
is_product (some q) p = q.id == p.id && q.branch == p.branch

-- Every spelling of a product finds that product in its source.
finds_all : Source → Product → List Text → Bool
unfolding is_product
finds_all s p [] = true
finds_all s p (id ∷ ids) = is_product (find_product s id) p && finds_all s p ids

finds_products : Source → List Product → Bool
unfolding finds_all
finds_products s [] = true
finds_products s (p ∷ rest) = finds_all s p (p.id ∷ p.branch ∷ p.clients) && finds_products s rest

finds_sources : List Source → Bool
unfolding finds_products
finds_sources [] = true
finds_sources (s ∷ rest) = finds_products s s.products && finds_sources rest

all_found : finds_sources sources ≡ true
unfolding finds_sources sources find_product find_product_in matches matches_client equal_fold
    trim_space text_eq
all_found = refl

-- Two spellings that fold to the same text.
abbrev pub SameSpelling : Text → Text → Type 0
SameSpelling a b = to_lower (trim_space a) ≡ to_lower (trim_space b)

to_lower-nil_iff : (a b : Text) → to_lower a ≡ to_lower b → (a == []) ≡ (b == [])
unfolding to_lower
to_lower-nil_iff [] [] e = refl
to_lower-nil_iff [] (c ∷ b) e = cc
to_lower-nil_iff (c ∷ a) [] e = cc
to_lower-nil_iff (c ∷ a) (d ∷ b) e = ground arith

matches_client-fold :
    (clients : List Text) (a b : Text)
    → to_lower a ≡ to_lower b
    → matches_client clients a ≡ matches_client clients b
unfolding matches_client equal_fold
matches_client-fold [] a b e = refl
matches_client-fold (c ∷ clients) a b e = rw (e, matches_client-fold clients a b e)

matches-fold : (p : Product) (a b : Text) → SameSpelling a b → matches p a ≡ matches p b
unfolding matches equal_fold
matches-fold p a b e = rw (
  e,
  to_lower-nil_iff (trim_space a) (trim_space b) e,
  matches_client-fold p.clients (trim_space a) (trim_space b) e,
)

find_product_in-fold :
    (ps : List Product) (a b : Text)
    → SameSpelling a b
    → find_product_in ps a ≡ find_product_in ps b
unfolding find_product_in
find_product_in-fold [] a b e = refl
find_product_in-fold (p ∷ ps) a b e = rw (matches-fold p a b e, find_product_in-fold ps a b e)

find_product-fold :
    (s : Source) (a b : Text) → SameSpelling a b → find_product s a ≡ find_product s b
unfolding find_product
find_product-fold s a b e =
    rw (to_lower-nil_iff (trim_space a) (trim_space b) e, find_product_in-fold s.products a b e)

-- The product was found: the same id and the same branch.
abbrev pub Finds : Source → Text → Product → Type 0
Finds s id p = (q : Product) × (find_product s id ≡ some q) × (q.id ≡ p.id) × (q.branch ≡ p.branch)

is_product-Finds :
    (s : Source) (id : Text) (p : Product) → is_product (find_product s id) p ≡ true → Finds s id p
is_product-Finds s id p h = found (find_product s id) refl h
  where
    found : (o : Option Product) → find_product s id ≡ o → is_product o p ≡ true → Finds s id p
    found none e h = unfold is_product in cc
    found (some q) e h =
        (q, e, unfold is_product in ground arith, unfold is_product in ground arith)

finds_all_sound :
    (s : Source) (p : Product) (ids : List Text) (id : Text)
    → finds_all s p ids ≡ true
    → Any (λ j. id ≡ j) ids
    → is_product (find_product s id) p ≡ true
unfolding finds_all
finds_all_sound s p (j ∷ ids) id h (inl e) = rw e (ground arith)
finds_all_sound s p (j ∷ ids) id h (inr m) = finds_all_sound s p ids id (ground arith) m
finds_all_sound s p [] id h m = absurd m

finds_products_sound :
    (s : Source) (ps : List Product) (p : Product)
    → finds_products s ps ≡ true
    → Any (λ q. p ≡ q) ps
    → finds_all s p (p.id ∷ p.branch ∷ p.clients) ≡ true
unfolding finds_products
finds_products_sound s (q ∷ ps) p h (inl e) =
    subst (λ (x : Product). finds_all s x (x.id ∷ x.branch ∷ x.clients) ≡ true) (sym e) (first h)
  where
    first : finds_products s (q ∷ ps) ≡ true → finds_all s q (q.id ∷ q.branch ∷ q.clients) ≡ true
    first h' = and_left (finds_all s q (q.id ∷ q.branch ∷ q.clients)) (finds_products s ps) h'
finds_products_sound s (q ∷ ps) p h (inr m) = finds_products_sound s ps p (ground arith) m
finds_products_sound s [] p h m = absurd m

finds_sources_sound :
    (ss : List Source) (s : Source)
    → finds_sources ss ≡ true
    → Any (λ q. s ≡ q) ss
    → finds_products s s.products ≡ true
unfolding finds_sources
finds_sources_sound (q ∷ ss) s h (inl e) =
    subst (λ (x : Source). finds_products x x.products ≡ true) (sym e)
      (and_left (finds_products q q.products) (finds_sources ss) h)
finds_sources_sound (q ∷ ss) s h (inr m) = finds_sources_sound ss s (ground arith) m
finds_sources_sound [] s h m = absurd m

-- In every source of the catalog, every product is found by its id, by its branch and by each of
-- its client aliases, in any letter case and with any spaces around: no alias of an earlier
-- product hides it.
pub find_product-spelling :
    (s : Source) (p : Product) (id spelled : Text)
    → Any (λ q. s ≡ q) sources
    → Any (λ q. p ≡ q) s.products
    → Any (λ j. id ≡ j) (p.id ∷ p.branch ∷ p.clients)
    → SameSpelling spelled id
    → Finds s spelled p
find_product-spelling s p id spelled in_catalog in_source names same =
    is_product-Finds s spelled p (
      ap (λ (o : Option Product). is_product o p) (find_product-fold s spelled id same)
      ∙ finds_all_sound s p (p.id ∷ p.branch ∷ p.clients) id
          (finds_products_sound s s.products p (finds_sources_sound sources s all_found in_catalog)
            in_source)
          names)

-- A product that the search of a list returns matches the id, and none before it in the list does.
find_product_in-first :
    (ps : List Product) (id : Text) (p : Product)
    → find_product_in ps id ≡ some p
    → (before after : List Product) × (ps ≡ before ++ p ∷ after)
      × (matches p id ≡ true)
      × All (λ q. matches q id ≡ false) before
unfolding find_product_in
find_product_in-first [] id p h = cc
find_product_in-first (q ∷ ps) id p h = elim (Bool-cases (matches q id)) [
  | inl yes_first ↦
      let same : q ≡ p = ground arith in
      (
        [],
        ps,
        ap (λ (x : Product). x ∷ ps) same,
        subst (λ x. matches x id ≡ true) same yes_first,
        tt,
      )
  | inr later ↦
      let (before, after, split_at, hit, miss) = find_product_in-first ps id p (ground arith) in
      (q ∷ before, after, ap (λ l. q ∷ l) split_at, hit, (later, miss))
]
