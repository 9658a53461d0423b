-- ===== src/Refs/Resolution.antt =====
-- What `Resolve` of internal/store/catalog.go answers for a version or a commit.
use wowdoc.Base.{◌≡◌, ◌≢◌, refl, sym, subst, ◌∙◌, false, ◌&&◌, ◌||◌, List, [], ◌∷◌, ◌++◌}
use wowdoc.Base.{
  Text, codes, All, Any, All-map, All-append, Any-append_left, Any-append_right, if_elim, arith,
  if◌then◌else◌, ok, err, ◌==◌, text_eq, length, eqb, ◌⊎◌, inl, inr,
}
use wowdoc.Strings.{equal_fold}
use wowdoc.Catalog.Table.{Source, Product}
use wowdoc.Refs.{
  product_key_eq, CatalogDb, Tag, ambiguous, tags, prefixed, candidates, only, is_hex, resolve,
}

-- The ref is the tag's name, or a version prefix and the ref are.
abbrev pub IsNamed : List Text → Text → Tag → Type 0
IsNamed prefixes ref t = (t.name ≡ ref) ⊎ Any (λ prefix. t.name ≡ prefix ++ ref) prefixes

prefixed_sound :
    (prefixes : List Text) (ref : Text) (t : Tag)
    → All (λ x. (x ≡ t) × Any (λ prefix. t.name ≡ prefix ++ ref) prefixes) (prefixed prefixes ref t)
unfolding prefixed
prefixed_sound [] ref t = tt
prefixed_sound (prefix ∷ rest) ref t =
    if_elim (All (λ x. (x ≡ t) × Any (λ q. t.name ≡ q ++ ref) (prefix ∷ rest)))
      (t.name == prefix ++ ref)
      (λ h. ((refl, inl (ground arith)), later (prefixed_sound rest ref t)))
      (λ _. later (prefixed_sound rest ref t))
  where
    later :
        All (λ x. (x ≡ t) × Any (λ q. t.name ≡ q ++ ref) rest) (prefixed rest ref t)
        → All (λ x. (x ≡ t) × Any (λ q. t.name ≡ q ++ ref) (prefix ∷ rest)) (prefixed rest ref t)
    later = All-map (λ x h. (h.0, inr h.1)) (prefixed rest ref t)

prefixed_complete :
    (prefixes : List Text) (ref : Text) (t : Tag)
    → Any (λ prefix. t.name ≡ prefix ++ ref) prefixes
    → Any (λ x. t ≡ x) (prefixed prefixes ref t)
unfolding prefixed
prefixed_complete [] ref t h = absurd h
prefixed_complete (prefix ∷ rest) ref t (inl e) =
    if_elim (Any (λ x. t ≡ x)) (t.name == prefix ++ ref) (λ _. inl refl)
      (λ n. absurd (ground arith))
prefixed_complete (prefix ∷ rest) ref t (inr h) =
    if_elim (Any (λ x. t ≡ x)) (t.name == prefix ++ ref) (λ _. inr (prefixed_complete rest ref t h))
      (λ _. prefixed_complete rest ref t h)

candidates_sound :
    (prefixes : List Text) (ref : Text) (ts : List Tag)
    → All (λ x. Any (λ t. x ≡ t) ts × IsNamed prefixes ref x) (candidates prefixes ref ts)
unfolding candidates
candidates_sound prefixes ref [] = tt
candidates_sound prefixes ref (t ∷ rest) =
    All-append Fits (if t.name == ref then t ∷ [] else prefixed prefixes ref t)
      (candidates prefixes ref rest)
      (if_elim (All Fits) (t.name == ref) (λ h. ((inl refl, inl (ground arith)), tt))
        λ _.
          All-map (λ x h. (inl h.0, subst (IsNamed prefixes ref) (sym h.0) (inr h.1)))
            (prefixed prefixes ref t) (prefixed_sound prefixes ref t))
      (All-map (λ x h. (inr h.0, h.1)) (candidates prefixes ref rest)
        (candidates_sound prefixes ref rest))
  where
    Fits : Tag → Type 0
    Fits x = Any (λ u. x ≡ u) (t ∷ rest) × IsNamed prefixes ref x

candidates_complete :
    (prefixes : List Text) (ref : Text) (ts : List Tag) (u : Tag)
    → Any (λ t. u ≡ t) ts
    → IsNamed prefixes ref u
    → Any (λ x. u ≡ x) (candidates prefixes ref ts)
unfolding candidates
candidates_complete prefixes ref [] u h named = absurd h
candidates_complete prefixes ref (t ∷ rest) u (inr h) named =
    Any-append_right (λ x. u ≡ x) (if t.name == ref then t ∷ [] else prefixed prefixes ref t)
      (candidates prefixes ref rest) (candidates_complete prefixes ref rest u h named)
candidates_complete prefixes ref (t ∷ rest) u (inl e) named =
    Any-append_left (λ x. u ≡ x) (if t.name == ref then t ∷ [] else prefixed prefixes ref t)
      (candidates prefixes ref rest)
      (if_elim (Any (λ x. u ≡ x)) (t.name == ref) (λ _. inl e)
        λ other.
          subst (λ x. Any (λ y. x ≡ y) (prefixed prefixes ref t)) (sym e)
            (prefixed_complete prefixes ref t
              (by_prefix other (subst (IsNamed prefixes ref) e named))))
  where
    by_prefix :
        (t.name == ref) ≡ false
        → IsNamed prefixes ref t
        → Any (λ prefix. t.name ≡ prefix ++ ref) prefixes
    by_prefix other (inl same) = absurd (ground arith)
    by_prefix other (inr h) = h

only-ok :
    (cs : List Tag) (commit name : Text)
    → only cs ≡ ok (commit, name)
    → (t : Tag) × (cs ≡ t ∷ []) × (t.commit ≡ commit) × (t.name ≡ name)
only-ok [] commit name h = cc
only-ok (t ∷ []) commit name h = (t, refl, ground arith, ground arith)
only-ok (t ∷ u ∷ rest) commit name h = cc

-- The ref is neither a name for the head nor a commit.
abbrev pub IsVersion : Text → Type 0
IsVersion ref =
    ((ref == [] || equal_fold ref (codes "latest")) ≡ false)
    × ((eqb (length ref) 40 && is_hex ref) ≡ false)

module _ (s : Source) (p : Product) (ref : Text) (db : CatalogDb) (version : IsVersion ref) where
  abbrev listed : List Tag
  listed = tags (record { source = s.id; product = p.id }) db

  resolve-version : resolve s p ref db ≡ only (candidates s.version_prefixes ref listed)
  unfolding resolve
  resolve-version = rw (version.0, version.1)

  -- A ref that is not empty, not `latest` and not a commit, and that resolves, is the commit of a
  -- tag of the product whose name is the ref or a version prefix and it, and no other tag of the
  -- product has such a name.
  pub resolve_unique :
      (commit name : Text)
      → resolve s p ref db ≡ ok (commit, name)
      → (t : Tag) × Any (λ x. t ≡ x) listed
        × IsNamed s.version_prefixes ref t
        × (t.commit ≡ commit)
        × (t.name ≡ name)
        × ((u : Tag) → Any (λ x. u ≡ x) listed → IsNamed s.version_prefixes ref u → u ≡ t)
  resolve_unique commit name h =
      let (t, one, c, n) =
        only-ok (candidates s.version_prefixes ref listed) commit name (sym resolve-version ∙ h) in
      let sound =
        subst (All (λ x. Any (λ y. x ≡ y) listed × IsNamed s.version_prefixes ref x)) one
          (candidates_sound s.version_prefixes ref listed) in
      (
        t,
        sound.0.0,
        sound.0.1,
        c,
        n,
        λ u m named. single u t (
            subst (Any (λ x. u ≡ x)) one
              (candidates_complete s.version_prefixes ref listed u m named)),
      )
    where
      single : (u t : Tag) → Any (λ x. u ≡ x) (t ∷ []) → u ≡ t
      single u t (inl e) = e
      single u t (inr h) = absurd h

  -- If two different tags of the product both have the ref as their name, itself or behind a
  -- version prefix, the ref is refused as ambiguous: for a ref that is not empty, not `latest` and
  -- not a commit.
  pub resolve-ambiguous :
      (t u : Tag)
      → Any (λ x. t ≡ x) listed
      → Any (λ x. u ≡ x) listed
      → IsNamed s.version_prefixes ref t
      → IsNamed s.version_prefixes ref u
      → t ≢ u
      → resolve s p ref db ≡ err ambiguous
  resolve-ambiguous t u mt mu nt nu differ = rw resolve-version (
      two (candidates s.version_prefixes ref listed)
        (candidates_complete s.version_prefixes ref listed t mt nt)
        (candidates_complete s.version_prefixes ref listed u mu nu))
    where
      two : (cs : List Tag) → Any (λ x. t ≡ x) cs → Any (λ x. u ≡ x) cs → only cs ≡ err ambiguous
      two [] a b = absurd a
      two (x ∷ y ∷ cs) a b = refl
      two (x ∷ []) (inl a) (inl b) = absurd (differ (a ∙ sym b))
      two (x ∷ []) (inr a) b = absurd a
      two (x ∷ []) (inl a) (inr b) = absurd b
