-- ===== src/ObjectStore/Builder/Accounted.antt =====
-- The keys that a store of internal/objectstore/store.go counts as its own.
use wowdoc.Base.{ℕ, ◌≡◌, refl, ap, ◌∙◌, Bool, true, Option, none, some, List, [], ◌∷◌, ◌++◌, map}
use wowdoc.Base.{Any, ◌⊎◌, inl, inr, arith, Result, ok, err, if_elim, contains, length}
use wowdoc.Base.Dict
use wowdoc.Base.Dict.{Dict}
use wowdoc.ObjectStore.Hex.{Bytes}
use wowdoc.ObjectStore.Header
use wowdoc.ObjectStore.Header.{Kind, encode_record_header}
use wowdoc.ObjectStore.Pack.{Platform, hash, Location}
use wowdoc.ObjectStore.Index.{Key, key_eq, World, LookupError, load_cache, look_in, lookup_record}
use wowdoc.ObjectStore.Builder.{
  Pending, Store, PutEnv, PutError, PutResult, Outcome, open_staging, append_file,
}
use wowdoc.ObjectStore.Builder.{
  encode_payload, write_bytes, write_headed, write_record, write_opened, put_encoded, put_new, put,
  put_looked_up,
}

abbrev key_of : Pending → Key
key_of r = record { kind = r.kind; hash = r.hash }

-- The loaded index has a row for the key.
abbrev pub IsCached : Key → World → Type 0
IsCached k w =
    (cached : Dict Key Location) × (r : Location) × (w.cache ≡ some cached)
    × (Dict.lookup k cached ≡ some r)

abbrev pub IsKnown : Key → Store → World → Type 0
IsKnown k s w = Any (λ j. k ≡ j) (map key_of s.records) ⊎ IsCached k w

pub record IsAccounted (s : Store) (w : World) : Type 0 where
  pub at : (k : Key) → contains s.local k ≡ true → IsKnown k s w

Any-append :
    (k : Key) (xs ys : List Pending)
    → Any (λ j. k ≡ j) (map key_of xs) ⊎ Any (λ j. k ≡ j) (map key_of ys)
    → Any (λ j. k ≡ j) (map key_of (xs ++ ys))
Any-append k [] ys (inr h) = h
Any-append k [] ys (inl h) = absurd h
Any-append k (x ∷ xs) ys (inl (inl e)) = inl e
Any-append k (x ∷ xs) ys (inl (inr h)) = inr (Any-append k xs ys (inl h))
Any-append k (x ∷ xs) ys (inr h) = inr (Any-append k xs ys (inr h))

contains-cons :
    (k x : Key) (xs : List Key) → contains (x ∷ xs) k ≡ true → (k ≡ x) ⊎ (contains xs k ≡ true)
contains-cons k x xs h = elim (key_eq.dec k x) [
  | yes same ↦ inl same
  | no differ ↦ inr (ground arith)
]

module _ (p : Platform) (env : PutEnv) (kind : Kind) (content : Bytes) where
  abbrev key : Key
  key = record { kind = kind; hash = hash p content }

  -- A result, the key that it is for, and the state that it leaves.
  abbrev Accounts : Outcome PutResult → Type 0
  Accounts o =
      IsAccounted o.1 o.2
      × ((r : PutResult) → o.0 ≡ ok r → IsKnown key o.1 o.2 × (r.hash ≡ hash p content))

  -- The cache of the world, which `put` does not change once it is loaded.
  write_bytes-Accounts :
      (stops : Option ℕ) (codec : ℕ) (payload header : Bytes) (s : Store) (w : World)
      → IsAccounted s w
      → Accounts (write_bytes p stops kind content codec payload header s w)
  unfolding write_bytes append_file
  write_bytes-Accounts (some n) codec payload header s w a = (record { at = a.at }, λ r e. cc)
  write_bytes-Accounts none codec payload header s w a = (
    record {
      at = λ k h. elim (contains-cons k key s.local h) [
        | inl same ↦ inl (Any-append k s.records _ (inr (inl same)))
        | inr old ↦ grown k (a.at k old)
      ];
    },
    λ r e. (inl (Any-append key s.records _ (inr (inl refl))), ground arith),
  )
    where
      grown :
          (k : Key)
          → IsKnown k s w
          → IsKnown k (write_bytes p none kind content codec payload header s w).1 w
      grown k (inl h) = inl (Any-append k s.records _ (inl h))
      grown k (inr c) = inr c

  write_headed-Accounts :
      (header : Result Header.Error Bytes) (codec : ℕ) (payload : Bytes) (s : Store) (w : World)
      → IsAccounted s w
      → Accounts (write_headed p header env kind content codec payload s w)
  write_headed-Accounts (err e) codec payload s w a = (a, λ r h. cc)
  write_headed-Accounts (ok header) codec payload s w a =
      write_bytes-Accounts env.write_stops codec payload header s w a

  write_record-Accounts :
      (codec : ℕ) (payload : Bytes) (s : Store) (w : World)
      → IsAccounted s w
      → Accounts (write_record p env kind content (codec, payload) s w)
  unfolding write_record
  write_record-Accounts codec payload s w a =
      if_elim Accounts env.seek_fails (λ _. (a, λ r e. cc))
        λ _.
          write_headed-Accounts
            (encode_record_header kind codec (hash p content) (length content) (length payload))
            codec payload s w a

  open_staging-IsAccounted :
      (s : Store) (w : World)
      → IsAccounted s w
      → let (r, s', w') = open_staging env s w in IsAccounted s' w'
  unfolding open_staging
  open_staging-IsAccounted s w a =
      if_elim Leaves s.is_open (λ _. a)
        λ _.
          if_elim Leaves env.create_fails (λ _. a)
            λ _. if_elim Leaves env.magic_fails (λ _. a) λ _. record { at = a.at }
    where
      Leaves : Outcome (Unit {0}) → Type 0
      Leaves o = IsAccounted o.1 o.2

  write_opened-Accounts :
      (codec : ℕ) (payload : Bytes) (o : Outcome (Unit {0}))
      → IsAccounted o.1 o.2
      → Accounts (write_opened p env kind content (codec, payload) o)
  write_opened-Accounts codec payload (err e, s, w) a = (a, λ r h. cc)
  write_opened-Accounts codec payload (ok u, s, w) a = write_record-Accounts codec payload s w a

  put_encoded-Accounts :
      (encoded : Result PutError (ℕ × Bytes)) (s : Store) (w : World)
      → IsAccounted s w
      → Accounts (put_encoded p env kind content encoded s w)
  put_encoded-Accounts (err e) s w a = (a, λ r h. cc)
  put_encoded-Accounts (ok (codec, payload)) s w a =
      write_opened-Accounts codec payload (open_staging env s w) (open_staging-IsAccounted s w a)

  -- The cache is loaded on the first lookup and stays.
  cached_IsAccounted :
      (s : Store) (w : World) (cached : Dict Key Location)
      → load_cache env.lookup_fails w ≡ ok cached
      → IsAccounted s w
      → IsAccounted s (record w { cache = some cached })
  unfolding load_cache
  cached_IsAccounted s w cached e a = record { at = λ k h. kept k (a.at k h) }
    where
      kept : (k : Key) → IsKnown k s w → IsKnown k s (record w { cache = some cached })
      kept k (inl h) = inl h
      kept k (inr (c, r, loaded, found)) = inr (c, r, ground arith, found)

  -- If the keys that the store counts as its own are in the staging pack or in the loaded index
  -- before a `put`, they are so after it, whether it succeeds or fails; after a success the
  -- content's key is too, and the result carries the content's hash.
  pub put-IsAccounted :
      (compress : Bool) (s : Store) (w : World)
      → IsAccounted s w
      → let (r, s', w') = put p env kind content compress s w in
        IsAccounted s' w'
        × ((x : PutResult) → r ≡ ok x → IsKnown key s' w' × (x.hash ≡ hash p content))
  unfolding put lookup_record put_new
  put-IsAccounted compress s w a =
      if_elim Accounts s.published (λ _. (a, λ r e. cc))
        λ _.
          if_elim Accounts (contains s.local key)
            (λ local. (a, λ r e. (a.at key local, ground arith)))
            λ _. looked_up (load_cache env.lookup_fails w) refl
    where
      found :
          (cached : Dict Key Location) (o : Option Location)
          → Dict.lookup key cached ≡ o
          → IsAccounted s (record w { cache = some cached })
          → Accounts
              (put_looked_up p env kind content compress s (ok o, record w { cache = some cached }))
      found cached none e a' = put_encoded-Accounts (encode_payload p env compress content) s _ a'
      found cached (some r) e a' = (
        record {
          at = λ k h. elim (contains-cons k key s.local h) [
            | inl same ↦ inr (cached, r, refl, ap (λ (j : Key). Dict.lookup j cached) same ∙ e)
            | inr old ↦ a'.at k old
          ];
        },
        λ x h. (inr (cached, r, refl, e), ground arith),
      )

      looked_up :
          (r : Result LookupError (Dict Key Location))
          → load_cache env.lookup_fails w ≡ r
          → Accounts (put_looked_up p env kind content compress s (look_in r key w))
      looked_up (err e) h = (a, λ r x. cc)
      looked_up (ok cached) h =
          found cached (Dict.lookup key cached) refl (cached_IsAccounted s w cached h a)
