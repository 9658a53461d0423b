-- ===== src/Query/Compat/Uncached.antt =====
-- The lookup of internal/query/compat.go beside one without a cache.
use wowdoc.Base.{
  ◌≡◌, refl, ap, subst, ◌∙◌, Bool, true, false, not, ◌&&◌, Option, none, some, List, [], ◌∷◌, Text,
  codes,
}
use wowdoc.Base.{◌==◌, text_eq, nat_eq, if◌then◌else◌, inl, inr, Result, ok, err, ◌>>=◌, ◌>>◌}
use wowdoc.Base.Dict
use wowdoc.Strings.{trim_space}
use wowdoc.Query.Compat.{Cache, Gathered, cache_key, resolution, lookup}
use wowdoc.Query.Compat.Matching.{settled, fact_of, compatibility_matches}
use wowdoc.Query.Compat.Types.{Match, Context, Usage, Fact, Snapshot}
use wowdoc.Query.Compat.{
  add_unresolved, add_answer, step, steps, with_interface, interface_seen, interface_usage,
  add_interface, lookup_compatibility,
}
use wowdoc.Query.Compat.Matching.{normalize_kind, unresolved_usage}
use wowdoc.Query.Compat.Settled.{settled_twice, fact_of-settled}
use wowdoc.Query.Compat.Keys.{HasNoZero, normalize_kind-HasNoZero, cache_key-injective}

module _ (db : Snapshot) (ctx : Context) where
  -- Every entry is what the snapshot selects for its kind and name, once it is sorted in place.
  IsFaithful : Cache → Type 0
  IsFaithful cache =
      (kind name : Text) (r : List Match × Bool)
      → HasNoZero kind
      → Dict.lookup (cache_key kind name) cache ≡ some r
      → (ms : List Match) × (compatibility_matches db ctx kind name ≡ ok (ms, r.1))
        × (r.0 ≡ settled ms)

  -- The answer for a usage without a cache.
  abbrev pub answer : Usage → Text → Result Text (Option Fact)
  answer u kind = compatibility_matches db ctx kind (trim_space u.name) >>= λ r.
      ok (fact_of ctx u kind (trim_space u.name) r)

  insert-IsFaithful :
      (kind name : Text) (ms ss : List Match) (known : Bool) (cache : Cache)
      → IsFaithful cache
      → HasNoZero kind
      → compatibility_matches db ctx kind name ≡ ok (ms, known)
      → ss ≡ settled ms
      → IsFaithful (Dict.insert (cache_key kind name) (ss, known) cache)
  unfolding IsFaithful
  insert-IsFaithful kind name ms ss known cache f clean selected same j n r b h =
      elim (Dict.insert-cases (cache_key j n) (cache_key kind name) (ss, known) r cache h) [
        | inl now ↦
            let (same_kind, same_name) = cache_key-injective j kind n name b clean now.0 in
            (ms, rw (same_kind, same_name, ← now.1) selected, rw (← now.1) same)
        | inr before ↦ f j n r b before
      ]

  -- The answers agree, and the cache is faithful again.
  Agrees : {A : Type 0} → Result Text (A × Cache) → Result Text A → Type 0
  Agrees (ok (a, cache)) (ok b) = (a ≡ b) × IsFaithful cache
  Agrees (err e) (err e') = e ≡ e'
  Agrees _ _ = ⊥

  selected-Agrees :
      (u : Usage) (kind : Text) (cache : Cache) (o : Result Text (List Match × Bool))
      → IsFaithful cache
      → HasNoZero kind
      → compatibility_matches db ctx kind (trim_space u.name) ≡ o
      → Agrees
          (o >>= λ r. ok (
            fact_of ctx u kind (trim_space u.name) r,
            Dict.insert (cache_key kind (trim_space u.name)) (settled r.0, r.1) cache,
          ))
          (o >>= λ r. ok (fact_of ctx u kind (trim_space u.name) r))
  unfolding Agrees
  selected-Agrees u kind cache (err e) f clean h = refl
  selected-Agrees u kind cache (ok (ms, known)) f clean h =
      (refl, insert-IsFaithful kind (trim_space u.name) ms (settled ms) known cache f clean h refl)

  resolved-Agrees :
      (u : Usage) (kind : Text) (cache : Cache) (o : Option (List Match × Bool))
      → IsFaithful cache
      → HasNoZero kind
      → Dict.lookup (cache_key kind (trim_space u.name)) cache ≡ o
      → Agrees
          (resolution db ctx kind (trim_space u.name) o >>= λ r. ok (
            fact_of ctx u kind (trim_space u.name) r,
            Dict.insert (cache_key kind (trim_space u.name)) (settled r.0, r.1) cache,
          ))
          (answer u kind)
  unfolding Agrees IsFaithful
  resolved-Agrees u kind cache none f clean h =
      selected-Agrees u kind cache (compatibility_matches db ctx kind (trim_space u.name)) f clean
        refl
  resolved-Agrees u kind cache (some (ss, known)) f clean h =
      let (ms, selected, same) = f kind (trim_space u.name) (ss, known) clean h in
      rw selected (
        ap (λ l. fact_of ctx u kind (trim_space u.name) (l, known)) same
            ∙ fact_of-settled ctx u kind (trim_space u.name) ms known,
        insert-IsFaithful kind (trim_space u.name) ms (settled ss) known cache f clean selected
            (ap settled same ∙ settled_twice ms),
      )

  lookup-Agrees :
      (u : Usage) (kind : Text) (cache : Cache)
      → IsFaithful cache
      → HasNoZero kind
      → Agrees (lookup db ctx u kind cache) (answer u kind)
  unfolding lookup
  lookup-Agrees u kind cache f clean =
      resolved-Agrees u kind cache (Dict.lookup (cache_key kind (trim_space u.name)) cache) f clean
        refl

  -- The loop without a cache.
  unfoldable pub step_alone : Usage → Gathered → Result Text Gathered
  step_alone u g =
      if normalize_kind u.kind == []
      then ok (
          add_unresolved (unresolved_usage ctx u (codes "unsupported compatibility evidence kind"))
            g)
      else if trim_space u.name == []
      then ok (
          add_unresolved
            (unresolved_usage ctx u
              (codes "dynamic or empty reference cannot be resolved statically"))
            g)
      else (answer u (normalize_kind u.kind) >>= λ o. ok (add_answer ctx u o g))

  unfoldable pub steps_alone : List Usage → Gathered → Result Text Gathered
  unfolding step_alone
  steps_alone [] g = ok g
  steps_alone (u ∷ us) g = step_alone u g >>= λ g'. steps_alone us g'

  unfoldable pub with_interface_alone : List Usage → Text → Gathered → Result Text Gathered
  with_interface_alone us value g =
      if not (trim_space value == []) && not (interface_seen value us)
      then (answer (interface_usage (trim_space value)) (codes "interface") >>= λ o.
          ok (add_interface ctx (trim_space value) o g))
      else ok g

  -- Every usage asked alone, in order.
  unfoldable pub lookup_alone : List Usage → Text → Result Text Gathered
  unfolding steps_alone with_interface_alone
  lookup_alone us value =
      db.ready
      >> (steps_alone us (record { facts = []; unresolved = [] }) >>= λ g.
          with_interface_alone us value g)

  map-Agrees :
      {A B : Type 0} (f : A → B) (o : Result Text (A × Cache)) (a : Result Text A)
      → Agrees o a
      → Agrees (o >>= λ x. ok (f x.0, x.1)) (a >>= λ y. ok (f y))
  unfolding Agrees
  map-Agrees f (ok (x, c)) (ok y) h = (ap f h.0, h.1)
  map-Agrees f (err e) (err e') h = h
  map-Agrees f (ok x) (err e) h = absurd h
  map-Agrees f (err e) (ok y) h = absurd h

  -- Two conditionals on one test agree where their branches do.
  if-Agrees :
      {A : Type 0} (b : Bool) (x y : Result Text (A × Cache)) (x' y' : Result Text A)
      → Agrees x x'
      → Agrees y y'
      → Agrees (if b then x else y) (if b then x' else y')
  if-Agrees true x y x' y' h k = h
  if-Agrees false x y x' y' h k = k

  step-Agrees :
      (u : Usage) (g : Gathered) (cache : Cache)
      → IsFaithful cache
      → Agrees (step db ctx u (g, cache)) (step_alone u g)
  unfolding step step_alone Agrees
  step-Agrees u g cache f =
      if-Agrees (normalize_kind u.kind == []) _ _ _ _ (refl, f)
        (if-Agrees (trim_space u.name == []) _ _ _ _ (refl, f)
          (map-Agrees (λ o. add_answer ctx u o g) (lookup db ctx u (normalize_kind u.kind) cache)
            (answer u (normalize_kind u.kind))
            (lookup-Agrees u (normalize_kind u.kind) cache f (normalize_kind-HasNoZero u.kind))))

  bind-Agrees :
      (o : Result Text (Gathered × Cache)) (a : Result Text Gathered)
      (k : Gathered × Cache → Result Text (Gathered × Cache)) (k' : Gathered → Result Text Gathered)
      → Agrees o a
      → ((g : Gathered) (cache : Cache) → IsFaithful cache → Agrees (k (g, cache)) (k' g))
      → Agrees (o >>= k) (a >>= k')
  unfolding Agrees
  bind-Agrees (ok (g, c)) (ok g') k k' h next =
      subst (λ x. Agrees (k (g, c)) (k' x)) h.0 (next g c h.1)
  bind-Agrees (err e) (err e') k k' h next = h
  bind-Agrees (ok x) (err e) k k' h next = absurd h
  bind-Agrees (err e) (ok y) k k' h next = absurd h

  steps-Agrees :
      (us : List Usage) (g : Gathered) (cache : Cache)
      → IsFaithful cache
      → Agrees (steps db ctx us (g, cache)) (steps_alone us g)
  unfolding steps steps_alone Agrees
  steps-Agrees [] g cache f = (refl, f)
  steps-Agrees (u ∷ us) g cache f =
      bind-Agrees (step db ctx u (g, cache)) (step_alone u g) (steps db ctx us) (steps_alone us)
        (step-Agrees u g cache f) (λ g' cache' f'. steps-Agrees us g' cache' f')

  forget :
      {A : Type 0} (f : A → Gathered) (o : Result Text (A × Cache)) (a : Result Text A)
      → Agrees o a
      → (o >>= λ x. ok (f x.0)) ≡ (a >>= λ y. ok (f y))
  unfolding Agrees
  forget f (ok (x, c)) (ok y) h = ap (λ z. ok (f z)) h.0
  forget f (err e) (err e') h = ap err h
  forget f (ok x) (err e) h = absurd h
  forget f (err e) (ok y) h = absurd h

  interface-HasNoZero : HasNoZero (codes "interface")
  unfolding HasNoZero
  interface-HasNoZero = refl

  with_interface_eq :
      (us : List Usage) (value : Text) (g : Gathered) (cache : Cache)
      → IsFaithful cache
      → with_interface db ctx us value (g, cache) ≡ with_interface_alone us value g
  unfolding with_interface with_interface_alone
  with_interface_eq us value g cache f =
      ap (λ x. if not (trim_space value == []) && not (interface_seen value us) then x else ok g)
        (forget (λ o. add_interface ctx (trim_space value) o g)
          (lookup db ctx (interface_usage (trim_space value)) (codes "interface") cache)
          (answer (interface_usage (trim_space value)) (codes "interface"))
          (lookup-Agrees (interface_usage (trim_space value)) (codes "interface") cache f
            interface-HasNoZero))

  finish_eq :
      (us : List Usage) (value : Text) (o : Result Text (Gathered × Cache))
      (a : Result Text Gathered)
      → Agrees o a
      → (o >>= λ s. with_interface db ctx us value s) ≡ (a >>= λ g. with_interface_alone us value g)
  unfolding Agrees
  finish_eq us value (ok (g, c)) (ok g') h =
      with_interface_eq us value g c h.1 ∙ ap (with_interface_alone us value) h.0
  finish_eq us value (err e) (err e') h = ap err h
  finish_eq us value (ok x) (err e) h = absurd h
  finish_eq us value (err e) (ok y) h = absurd h

  blank-IsFaithful : IsFaithful []
  unfolding IsFaithful Dict.lookup
  blank-IsFaithful kind name r clean h = absurd (cc)

  -- The compatibility lookup, with its cache and the in-place sorting of cached rows, answers a
  -- list of usages and a declared interface exactly as if every usage were asked alone without a
  -- cache, errors included: for any snapshot that does not change meanwhile.
  pub lookup_compatibility-lookup_alone :
      (us : List Usage) (value : Text)
      → lookup_compatibility db ctx us value ≡ lookup_alone us value
  unfolding lookup_compatibility lookup_alone
  lookup_compatibility-lookup_alone us value =
      ap (λ k. db.ready >> k)
        (finish_eq us value (steps db ctx us (record { facts = []; unresolved = [] }, []))
          (steps_alone us (record { facts = []; unresolved = [] }))
          (steps-Agrees us (record { facts = []; unresolved = [] }) [] blank-IsFaithful))
