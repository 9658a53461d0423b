-- ===== src/ObjectStore/Builder/Staged.antt =====
-- The invariant of a staging pack of internal/objectstore/store.go.
use wowdoc.Base.{ℕ, ◌≤◌, ◌<◌, ◌^◌, ◌≡◌, refl, Bool, true, false, Option, none, some}
use wowdoc.Base.{List, [], ◌∷◌, ◌++◌, append-nil, Text, text_eq, arith, All, All-map, All-append}
use wowdoc.Base.{length, take, Result, ok, err, if_elim, contains}
use wowdoc.Base.Dict
use wowdoc.ObjectStore.Hex.{Bytes}
use wowdoc.ObjectStore.Header.{Kind, pack_magic}
use wowdoc.ObjectStore.Header.RoundTrip.{header_bytes, encode_record_header-succeeds}
use wowdoc.ObjectStore.Pack.{Platform, IsLawful, hash, decode_payload, Location}
use wowdoc.ObjectStore.Pack.Stored.{
  Stored, HasMagic, Stored-append, HasMagic-append, HasMagic-length,
}
use wowdoc.ObjectStore.Index.{World, Key, key_eq, LookupError, load_cache, look_in, lookup_record}
use wowdoc.ObjectStore.Builder.{
  Pending, Store, PutEnv, open_staging, append_file, file_of, encode_payload,
}
use wowdoc.ObjectStore.Builder.{
  Outcome, PutError, write_opened, put_encoded, write_record, write_bytes, pending, put_new, put,
  put_looked_up,
}

abbrev pub location_in : Text → Pending → Location
location_in path r = record {
  path = path;
  offset = r.offset;
  compressed = r.compressed;
  original = r.original;
  codec = r.codec;
}

module _ (p : Platform) where
  -- The pack holds the object of a pending record.
  abbrev pub Holds : Bytes → Pending → Type 0
  Holds file r =
      (content : Bytes) × Stored p file (location_in [] r) r.kind content
      × (r.hash ≡ hash p content)

  -- A pack file with these records.
  pub record IsPack (file : Bytes) (records : List Pending) : Type 0 where
    pub magic : HasMagic p file
    pub held : All (Holds file) records

  -- The staging file is a pack with the store's records; without a file there are none.
  pub record IsStaged (s : Store) (w : World) : Type 0 where
    pub closed : s.is_open ≡ false → s.records ≡ []
    pub opened : s.is_open ≡ true → IsPack (file_of s.staging_path w) s.records

  Holds-append : (file more : Bytes) (r : Pending) → Holds file r → Holds (file ++ more) r
  Holds-append file more r (content, st, e) =
      (content, Stored-append p file more (location_in [] r) r.kind content st, e)

  pub IsPack-append :
      (file more : Bytes) (records : List Pending)
      → IsPack file records
      → IsPack (file ++ more) records
  IsPack-append file more records k = record {
    magic = HasMagic-append p file more k.magic;
    held = All-map (Holds-append file more) records k.held;
  }

  pub IsPack-magic : IsPack pack_magic []
  IsPack-magic = record { magic = record { rest = []; starts = refl }; held = tt }

  file_of-append_file :
      (path : Text) (bytes : Bytes) (w : World)
      → file_of path (append_file path bytes w) ≡ file_of path w ++ bytes
  unfolding append_file
  file_of-append_file path bytes w =
      ground (arith, Dict.lookup-insert path path (file_of path w ++ bytes) w.disk)

  abbrev LeavesStaged {ℓ} : {A : Type ℓ} → A × Store × World → Type 0
  LeavesStaged o = IsStaged o.1 o.2

  open_staging-IsStaged :
      (env : PutEnv) (s : Store) (w : World) → IsStaged s w → LeavesStaged (open_staging env s w)
  unfolding open_staging
  open_staging-IsStaged env s w v =
      if_elim LeavesStaged s.is_open (λ _. v)
        λ fresh.
          if_elim LeavesStaged env.create_fails (λ _. v)
            λ _.
              if_elim LeavesStaged env.magic_fails (λ _. v)
                λ _. record {
                  closed = λ e. cc;
                  opened = λ _.
                      rw (v.closed fresh, Dict.lookup-insert_self env.temp_path pack_magic w.disk)
                        IsPack-magic;
                }

  open_staging-is_open :
      (env : PutEnv) (s : Store) (w : World)
      → (open_staging env s w).0 ≡ ok tt
      → (open_staging env s w).1.is_open ≡ true
  unfolding open_staging
  open_staging-is_open env s w h = ground arith

  pub IsPack-snoc :
      (file more : Bytes) (records : List Pending) (r : Pending)
      → IsPack file records
      → Holds (file ++ more) r
      → IsPack (file ++ more) (records ++ r ∷ [])
  IsPack-snoc file more records r k h = record {
    magic = HasMagic-append p file more k.magic;
    held =
        All-append (Holds (file ++ more)) records (r ∷ []) (IsPack-append file more records k).held
          (h, tt);
  }

module _ (p : Platform) (lawful : IsLawful p) where
  -- What a codec wrote is decoded by it.
  decode-encode_payload :
      (env : PutEnv) (compress : Bool) (content : Bytes) (codec : ℕ) (payload : Bytes)
      → encode_payload p env compress content ≡ ok (codec, payload)
      → length content < 2 ^ 63
      → (decode_payload p codec payload ≡ ok content) × (length payload < 2 ^ 63)
  unfolding encode_payload decode_payload
  decode-encode_payload env true content codec payload h fits =
      ground (arith, lawful.gunzip-gzip content payload, lawful.length-gzip content payload)
  decode-encode_payload env false content codec payload h fits = ground arith

  module _ (kind : Kind) (content : Bytes) (codec : ℕ) (payload : Bytes)
      (fits : length content < 2 ^ 63)
      (decodes : (decode_payload p codec payload ≡ ok content) × (length payload < 2 ^ 63)) where
    abbrev header : Bytes
    header = header_bytes kind codec (length content) (length payload) (p.sha256 content)

    Stored-new :
        (file : Bytes)
        → 8 ≤ length file
        → Holds p (file ++ (header ++ payload)) (pending p kind content codec payload (length file))
    Stored-new file m = (
      content,
      record {
        before = file;
        payload = payload;
        after = [];
        splits = rw append-nil;
        place = refl;
        after_magic = m;
        length_payload = refl;
        length_content = refl;
        original_fits = fits;
        compressed_fits = decodes.1;
        decodes = decodes.0;
      },
      refl,
    )

    write_bytes-IsStaged :
        (stops : Option ℕ) (s : Store) (w : World)
        → s.is_open ≡ true
        → IsStaged p s w
        → LeavesStaged p (write_bytes p stops kind content codec payload header s w)
    unfolding write_bytes
    write_bytes-IsStaged (some n) s w o v = record {
      closed = λ e. cc;
      opened = λ _. rw (file_of-append_file p s.staging_path (take n (header ++ payload)) w) (
          IsPack-append p (file_of s.staging_path w) (take n (header ++ payload)) s.records
            (v.opened o));
    }
    write_bytes-IsStaged none s w o v = record {
      closed = λ e. cc;
      opened = λ _.
          let k = v.opened o in
          rw (file_of-append_file p s.staging_path (header ++ payload) w) (
            IsPack-snoc p (file_of s.staging_path w) (header ++ payload) s.records
              (pending p kind content codec payload (length (file_of s.staging_path w))) k
              (Stored-new (file_of s.staging_path w)
                (HasMagic-length p (file_of s.staging_path w) k.magic)));
    }

  module _ (env : PutEnv) (kind : Kind) (content : Bytes) (fits : length content < 2 ^ 63) where
    write_record-IsStaged :
        (codec : ℕ) (payload : Bytes) (s : Store) (w : World)
        → (decode_payload p codec payload ≡ ok content) × (length payload < 2 ^ 63)
        → s.is_open ≡ true
        → IsStaged p s w
        → LeavesStaged p (write_record p env kind content (codec, payload) s w)
    unfolding write_record hash
    write_record-IsStaged codec payload s w decodes o v =
        if_elim (LeavesStaged p) env.seek_fails (λ _. v)
          λ _.
            rw
              (encode_record_header-succeeds kind codec (p.sha256 content) (length content)
                (length payload) (lawful.sha256-IsBytes content) (lawful.length-sha256 content))
              (write_bytes-IsStaged kind content codec payload fits decodes env.write_stops s w o v)

    write_opened-IsStaged :
        (codec : ℕ) (payload : Bytes) (o : Outcome (Unit {0}))
        → (decode_payload p codec payload ≡ ok content) × (length payload < 2 ^ 63)
        → (o.0 ≡ ok tt → o.1.is_open ≡ true)
        → LeavesStaged p o
        → LeavesStaged p (write_opened p env kind content (codec, payload) o)
    write_opened-IsStaged codec payload (err e, s, w) decodes opens v = v
    write_opened-IsStaged codec payload (ok u, s, w) decodes opens v =
        write_record-IsStaged codec payload s w decodes (opens refl) v

    put_new-IsStaged :
        (compress : Bool) (s : Store) (w : World)
        → IsStaged p s w
        → LeavesStaged p (put_new p env kind content compress s w)
    unfolding put_new
    put_new-IsStaged compress s w v =
        put_encoded-IsStaged (encode_payload p env compress content) refl
      where
        put_encoded-IsStaged :
            (r : Result PutError (ℕ × Bytes))
            → encode_payload p env compress content ≡ r
            → LeavesStaged p (put_encoded p env kind content r s w)
        put_encoded-IsStaged (err e) h = v
        put_encoded-IsStaged (ok (codec, payload)) h =
            write_opened-IsStaged codec payload (open_staging env s w)
              (decode-encode_payload env compress content codec payload h fits)
              (open_staging-is_open p env s w) (open_staging-IsStaged p env s w v)

    -- Whatever fails on the way, `put` leaves a staging file that holds every record of the store,
    -- each decodable to an object with the record's hash: for a lawful platform, content shorter
    -- than 2^63 bytes, and a staging file that held the records before.
    pub put-IsStaged :
        (compress : Bool) (s : Store) (w : World)
        → IsStaged p s w
        → let (r, s', w') = put p env kind content compress s w in IsStaged p s' w'
    unfolding put lookup_record
    put-IsStaged compress s w v =
        if_elim (LeavesStaged p) s.published (λ _. v)
          λ _.
            if_elim (LeavesStaged p) (contains s.local key) (λ _. v)
              λ _. looked_up (load_cache env.lookup_fails w)
      where
        key : Key
        key = record { kind = kind; hash = hash p content }

        looked_up :
            (r : Result LookupError (Dict.Dict Key Location))
            → LeavesStaged p (put_looked_up p env kind content compress s (look_in r key w))
        looked_up (err e) = v
        looked_up (ok cached) = found (Dict.lookup key cached)
          where
            found :
                (o : Option Location)
                → LeavesStaged p (
                    put_looked_up p env kind content compress s
                      (ok o, record w { cache = some cached }))
            found (some location) = record { closed = v.closed; opened = v.opened }
            found none =
                put_new-IsStaged compress s (record w { cache = some cached })
                  (record { closed = v.closed; opened = v.opened })
