-- ===== src/GitStore/Blobs.antt =====
-- The reader of blobs, `BlobReader` of internal/gitstore/git.go: the standard output of git that is
-- not read yet is a text.
pub mod Responses
use wowdoc.Base.{
  ℕ, ◌+◌, Bool, true, false, not, Option, none, some, List, [], ◌∷◌, ◌++◌, Text, codes, ◌==◌,
  text_eq,
}
use wowdoc.Base.{ltb, eqb, length, take, drop, Result, ok, err, if◌then◌else◌}
use wowdoc.Base.Int.{ℤ, pos, negsuc}
use wowdoc.Strings.{fields, cut, trim_space}
use wowdoc.Results.{Error, error}
use wowdoc.GitStore.Errors.{classify_git}
use wowdoc.GitStore.Words.{Parsed, number, invalid, beyond, parse_int}

-- `BlobReader`: whether it is closed, whether git still takes requests, the requests that were
-- sent, what is left of its output, and its standard error.
pub record BlobReader : Type 0 where
  pub closed : Bool
  pub accepts : Bool
  pub sent : List Text
  pub output : Text
  pub stderr : Text

-- The result of a call, and the reader after it.
abbrev pub Answer : Type 0
Answer = Result Error Text × BlobReader

-- An input error as `Read` reports it.
abbrev pub broken : Text → BlobReader → Error
broken cause r =
    classify_git (codes "git cat-file: " ++ (cause ++ (codes ": " ++ trim_space r.stderr)))

abbrev invalid_blob : Text → Error
invalid_blob message = error (codes "git_blob_invalid") message 5

-- The newline after the data.
abbrev pub terminated : Text → Text → BlobReader → Answer
terminated content [] r = (
  err (invalid_blob (codes "Git cat-file response was not terminated")),
  record r { output = [] },
)
terminated content (c ∷ rest) r =
    if eqb c b'\n' then (ok content, record r { output = rest }) else (
      err (invalid_blob (codes "Git cat-file response was not terminated")),
      record r { output = rest },
    )

-- The data of `n` bytes and the newline after it.
unfoldable pub read_data : ℕ → BlobReader → Answer
read_data n r =
    if ltb (length r.output) n
    then (err (broken (codes "unexpected EOF") r), record r { output = [] })
    else terminated (take n r.output) (drop n r.output) r

abbrev pub read_sized : Parsed → BlobReader → Answer
read_sized (number (pos n)) r = read_data n r
read_sized (number (negsuc n)) r = (err (invalid_blob (codes "invalid Git blob size")), r)
read_sized invalid r = (err (invalid_blob (codes "invalid Git blob size")), r)
read_sized (beyond n) r = (err (invalid_blob (codes "invalid Git blob size")), r)

-- What follows the words of the header.
abbrev pub read_body : Text → List Text → BlobReader → Answer
read_body oid (name ∷ kind ∷ []) r =
    if kind == codes "missing"
    then (err (error (codes "git_blob_missing") (codes "Git blob is missing: " ++ oid) 4), r)
    else (err (invalid_blob (codes "unexpected Git cat-file response")), r)
read_body oid (name ∷ kind ∷ size ∷ []) r =
    if kind == codes "blob"
    then read_sized (parse_int size) r
    else (err (invalid_blob (codes "unexpected Git cat-file response")), r)
read_body oid _ r = (err (invalid_blob (codes "unexpected Git cat-file response")), r)

-- The header's line, which `ReadString` returns with its newline.
abbrev pub read_header : Text → Option (Text × Text) → BlobReader → Answer
read_header oid none r = (err (broken (codes "EOF") r), record r { output = [] })
read_header oid (some (line, rest)) r =
    read_body oid (fields (line ++ b'\n' ∷ [])) (record r { output = rest })

-- `BlobReader.Read`
unfoldable pub read : Text → BlobReader → Answer
read oid r =
    if r.closed
    then (err (error (codes "git_blob_reader_closed") (codes "Git blob reader is closed") 5), r)
    else if r.accepts
    then read_header oid (cut b'\n' r.output)
        (record r { sent = r.sent ++ (oid ++ b'\n' ∷ []) ∷ [] })
    else (err (broken (codes "write error") r), r)

-- The calls of `Read` for several objects, one after the other.
unfoldable pub read_each : List Text → BlobReader → List (Result Error Text) × BlobReader
unfolding read
read_each [] r = ([], r)
read_each (oid ∷ oids) r =
    let (result, r') = read oid r in
    let (results, r'') = read_each oids r' in (result ∷ results, r'')

-- `BlobReader.Close`, whose process ends with the error `ended`, if any.
unfoldable pub close : Option Text → BlobReader → Option Error × BlobReader
close ended r = if r.closed then (none, r) else (
  elim ended [ none ↦ none | some cause ↦ some (broken cause r) ],
  record r { closed = true; accepts = false },
)
