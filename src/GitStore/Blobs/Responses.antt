-- ===== src/GitStore/Blobs/Responses.antt =====
-- The answers of `BlobReader.Read`, internal/gitstore/git.go, to a well-formed output of git.
use wowdoc.Base.{
  ℕ, ◌^◌, ◌<◌, ◌≡◌, refl, ap, sym, ◌∙◌, Bool, true, false, Option, none, some, List, [], ◌∷◌,
}
use wowdoc.Base.{◌++◌, append_assoc, append-nil, Text, codes, text_eq, eqb, ltb, length, map}
use wowdoc.Base.{
  Result, ok, err, All, All-append, All-map, arith, take-append, drop-append, length-append,
}
use wowdoc.Strings.{fields, fields_from, cut, is_space}
use wowdoc.Strings.Decimal.{decimal}
use wowdoc.Results.{Error, error}
use wowdoc.GitStore.Words.{
  parse_int, parse_int-decimal, Without, IsWord, decimal-IsWord, fields-next, fields_from-word,
}
use wowdoc.GitStore.Blobs.{
  BlobReader, read_data, read_sized, read_body, read_header, read, read_each,
}

-- What git has for a request: the object's content, or nothing.
pub record Response : Type 0 where
  pub oid : Text
  pub content : Option Text

-- The format that `git cat-file --batch` documents.
abbrev pub response_text : Text → Option Text → Text
response_text oid none = (oid ++ codes " missing") ++ b'\n' ∷ []
response_text oid (some content) =
    (oid ++ b' ' ∷ (codes "blob" ++ b' ' ∷ decimal (length content)))
    ++ b'\n' ∷ (content ++ b'\n' ∷ [])

abbrev pub output_of : List Response → Text → Text
output_of [] rest = rest
output_of (a ∷ answers) rest = response_text a.oid a.content ++ output_of answers rest

abbrev pub Fits : Option Text → Type 0
Fits none = Unit
Fits (some content) = length content < 2 ^ 63

-- The object's name is a word, and its size fits.
pub record IsResponse (a : Response) : Type 0 where
  pub oid_word : IsWord a.oid
  pub fits : Fits a.content

-- What the program is to be given for a response.
abbrev pub result_of : Response → Result Error Text
result_of a = elim a.content [
  | none ↦ err (error (codes "git_blob_missing") (codes "Git blob is missing: " ++ a.oid) 4)
  | some content ↦ ok content
]

abbrev pub oids_of : List Response → List Text
oids_of = map (λ a. a.oid)

abbrev is_newline : ℕ → Bool
is_newline c = eqb c b'\n'

cut-line : (s rest : Text) → Without is_newline s → cut b'\n' (s ++ b'\n' ∷ rest) ≡ some (s, rest)
unfolding cut
cut-line [] rest h = refl
cut-line (c ∷ s) rest h = rw (h.0, cut-line s rest h.1) refl

space-is_newline : (c : ℕ) → is_space c ≡ false → is_newline c ≡ false
unfolding is_space
space-is_newline c h = ground arith

IsWord-newline : (w : Text) → IsWord w → Without is_newline w
IsWord-newline [] h = absurd h
IsWord-newline (c ∷ w) h = All-map space-is_newline (c ∷ w) h

fields-line : (w : Text) → IsWord w → fields (w ++ b'\n' ∷ []) ≡ w ∷ []
unfolding fields fields_from is_space
fields-line [] h = absurd h
fields-line (c ∷ w) h = fields_from-word is_space [] (c ∷ w) (b'\n' ∷ []) h

missing-IsWord : IsWord (codes "missing")
unfolding is_space
missing-IsWord = (refl, (refl, (refl, (refl, (refl, (refl, (refl, tt)))))))

blob-IsWord : IsWord (codes "blob")
unfolding is_space
blob-IsWord = (refl, (refl, (refl, (refl, tt))))

fields-missing :
    (oid : Text)
    → IsWord oid
    → fields ((oid ++ codes " missing") ++ b'\n' ∷ []) ≡ oid ∷ codes "missing" ∷ []
fields-missing oid h =
    ap fields (append_assoc oid (codes " missing") (b'\n' ∷ []))
    ∙ fields-next oid (codes "missing" ++ b'\n' ∷ []) h
    ∙ ap (λ ws. oid ∷ ws) (fields-line (codes "missing") missing-IsWord)

fields-blob :
    (oid : Text) (n : ℕ)
    → IsWord oid
    → fields ((oid ++ b' ' ∷ (codes "blob" ++ b' ' ∷ decimal n)) ++ b'\n' ∷ [])
      ≡ oid ∷ codes "blob" ∷ decimal n ∷ []
fields-blob oid n h =
    ap fields (append_assoc oid (b' ' ∷ (codes "blob" ++ b' ' ∷ decimal n)) (b'\n' ∷ []))
    ∙ fields-next oid ((codes "blob" ++ b' ' ∷ decimal n) ++ b'\n' ∷ []) h
    ∙ ap (λ ws. oid ∷ ws) (fields-next (codes "blob") (decimal n ++ b'\n' ∷ []) blob-IsWord)
    ∙ ap (λ ws. oid ∷ codes "blob" ∷ ws) (fields-line (decimal n) (decimal-IsWord n))

-- A reader that is open.
abbrev pub opened : List Text → Text → Text → BlobReader
opened sent output stderr = record {
  closed = false;
  accepts = true;
  sent = sent;
  output = output;
  stderr = stderr;
}

abbrev pub request : Text → Text
request oid = oid ++ b'\n' ∷ []

oid-Without :
    (oid tail : Text) → IsWord oid → Without is_newline tail → Without is_newline (oid ++ tail)
oid-Without oid tail h k = All-append (λ c. is_newline c ≡ false) oid tail (IsWord-newline oid h) k

read_header-line :
    (oid line rest : Text) (r : BlobReader)
    → Without is_newline line
    → read_header oid (cut b'\n' (line ++ b'\n' ∷ rest)) r
      ≡ read_body oid (fields (line ++ b'\n' ∷ [])) (record r { output = rest })
read_header-line oid line rest r h = ap (λ o. read_header oid o r) (cut-line line rest h)

read-missing :
    (oid rest stderr : Text) (sent : List Text)
    → IsWord oid
    → read oid (opened sent (response_text oid none ++ rest) stderr) ≡ (
      result_of (record { oid = oid; content = none }),
      opened (sent ++ request oid ∷ []) rest stderr,
    )
unfolding read text_eq
read-missing oid rest stderr sent h =
    ap (λ o. read_header oid (cut b'\n' o) (opened (sent ++ request oid ∷ []) o stderr))
      (append_assoc (oid ++ codes " missing") (b'\n' ∷ []) rest)
    ∙ read_header-line oid (oid ++ codes " missing") rest _ (
        oid-Without oid (codes " missing") h
          (refl, IsWord-newline (codes "missing") missing-IsWord))
    ∙ ap (λ ws. read_body oid ws (opened (sent ++ request oid ∷ []) rest stderr))
        (fields-missing oid h)

long_enough : (content rest : Text) → ltb (length (content ++ rest)) (length content) ≡ false
long_enough content rest = ground (arith, length-append content rest)

read_data-content :
    (content rest stderr : Text) (sent : List Text)
    → read_data (length content) (opened sent (content ++ b'\n' ∷ rest) stderr)
      ≡ (ok content, opened sent rest stderr)
unfolding read_data
read_data-content content rest stderr sent =
    rw
      (
        long_enough content (b'\n' ∷ rest),
        take-append content (b'\n' ∷ rest),
        drop-append content (b'\n' ∷ rest),
      )
      refl

read-blob :
    (oid content rest stderr : Text) (sent : List Text)
    → IsWord oid
    → length content < 2 ^ 63
    → read oid (opened sent (response_text oid (some content) ++ rest) stderr)
      ≡ (ok content, opened (sent ++ request oid ∷ []) rest stderr)
unfolding read text_eq parse_int
read-blob oid content rest stderr sent h fits =
    let n = length content in
    let line = oid ++ b' ' ∷ (codes "blob" ++ b' ' ∷ decimal n) in
    let tail = (content ++ b'\n' ∷ []) ++ rest in
    let plain : Without is_newline line = oid-Without oid _ h (
      refl,
      All-append (λ c. is_newline c ≡ false) (codes "blob") (b' ' ∷ decimal n)
          (IsWord-newline (codes "blob") blob-IsWord)
          (refl, IsWord-newline (decimal n) (decimal-IsWord n)),
    ) in
    ap (λ o. read_header oid (cut b'\n' o) (opened (sent ++ request oid ∷ []) o stderr))
      (append_assoc line (b'\n' ∷ (content ++ b'\n' ∷ [])) rest)
    ∙ read_header-line oid line tail _ plain
    ∙ ap (λ ws. read_body oid ws (opened (sent ++ request oid ∷ []) tail stderr))
        (fields-blob oid n h)
    ∙ ap (λ p. read_sized p (opened (sent ++ request oid ∷ []) tail stderr))
        (parse_int-decimal n fits)
    ∙ ap (λ o. read_data n (opened (sent ++ request oid ∷ []) o stderr))
        (append_assoc content (b'\n' ∷ []) rest)
    ∙ read_data-content content rest stderr (sent ++ request oid ∷ [])

read-response :
    (a : Response) (rest stderr : Text) (sent : List Text)
    → IsResponse a
    → read a.oid (opened sent (response_text a.oid a.content ++ rest) stderr)
      ≡ (result_of a, opened (sent ++ request a.oid ∷ []) rest stderr)
read-response a rest stderr sent h = by_content a.content h.fits
  where
    by_content :
        (content : Option Text)
        → Fits content
        → read a.oid (opened sent (response_text a.oid content ++ rest) stderr) ≡ (
          result_of (record { oid = a.oid; content = content }),
          opened (sent ++ request a.oid ∷ []) rest stderr,
        )
    by_content none f = read-missing a.oid rest stderr sent h.oid_word
    by_content (some content) f = read-blob a.oid content rest stderr sent h.oid_word f

-- Where git answers every request in the format of `cat-file --batch`, an object's bytes or that
-- it is missing, a reader's calls give these answers in the order of the requests, whatever bytes
-- the objects hold, and leave what follows unread: for names that are words and sizes below 2^63.
pub read_each-responses :
    (answers : List Response) (rest stderr : Text) (sent : List Text)
    → All IsResponse answers
    → read_each (oids_of answers) (opened sent (output_of answers rest) stderr)
      ≡ (map result_of answers, opened (sent ++ map request (oids_of answers)) rest stderr)
unfolding read_each
read_each-responses [] rest stderr sent h =
    ap (λ s. ([], opened s rest stderr)) (sym (append-nil sent))
read_each-responses (a ∷ answers) rest stderr sent h =
    rw
      (
        read-response a (output_of answers rest) stderr sent h.0,
        read_each-responses answers rest stderr (sent ++ request a.oid ∷ []) h.1,
        append_assoc sent (request a.oid ∷ []) (map request (oids_of answers)),
      )
      refl
