-- ===== src/Query/Excerpt.antt =====
-- The excerpts and the matching line of a source file, internal/query/query.go.
use wowdoc.Base.{ℕ, ◌+◌, ◌-◌, Bool, true, not, ◌&&◌, Option, none, some, List, [], ◌∷◌, ◌++◌, Text}
use wowdoc.Base.{codes, ◌==◌, text_eq, ltb, leb, eqb, length, Result, ok, err, ◌>>=◌, if◌then◌else◌}
use wowdoc.Strings.{to_lower, trim_space, contains_text, contains_any, fields, join}
use wowdoc.Strings.Decimal.{decimal}
use wowdoc.Results.{Failure}
use wowdoc.Query.Types.{Db}

abbrev pub finished {ℓ} : {A : Type ℓ} → Option Failure → A → Result Failure A
finished none a = ok a
finished (some e) a = err e

-- `fmt.Sprintf("%d: %s", n, scanner.Text())`
abbrev pub numbered : ℕ → Text → Text
numbered n text = decimal n ++ (codes ": " ++ text)

-- The loop over the scanner of `excerptFromHash` and `excerptRange`, at line `n`.
unfoldable pub excerpt_lines : ℕ → ℕ → ℕ → List Text → Option Failure → Result Failure (List Text)
excerpt_lines start end n [] failure = finished failure []
excerpt_lines start end n (text ∷ texts) failure =
    let rest = excerpt_lines start end (n + 1) texts failure in
    if ltb end n
    then ok []
    else if leb start n
    then (rest >>= λ lines. ok (numbered n text ∷ lines))
    else rest

-- `excerptFromHash`
unfoldable pub excerpt_from_hash : Db → Text → ℕ → ℕ → Result Failure Text
excerpt_from_hash db hash line context = do
  let start : ℕ = if ltb (line - context) 1 then 1 else line - context
  file ← db.source hash
  lines ← excerpt_lines start (line + context) 1 file.texts file.failure
  ok (join (b'\n' ∷ []) lines)

-- `excerpt`: the content's hash and the text.
unfoldable pub excerpt : Db → Text → ℕ → ℕ → Result Failure (Text × Text)
excerpt db path line context = do
  hash ← db.file_hash path
  text ← excerpt_from_hash db hash line context
  ok (hash, text)

-- The last line of `excerptRange`.
unfoldable pub range_end : ℕ → ℕ → ℕ → ℕ
range_end start end max_lines =
    let last = if ltb end start then start else end in
    if ltb 0 max_lines && ltb max_lines (last - start + 1) then start + max_lines - 1 else last

-- `excerptRange`
unfoldable pub excerpt_range : Db → Text → ℕ → ℕ → ℕ → Result Failure (Text × Text)
excerpt_range db path start end max_lines = do
  hash ← db.file_hash path
  file ← db.source hash
  lines ← excerpt_lines start (range_end start end max_lines) 1 file.texts file.failure
  ok (hash, join (b'\n' ∷ []) lines)

abbrev pub has_all : Text → List Text → Bool
has_all value [] = true
has_all value (token ∷ tokens) = contains_text value token && has_all value tokens

-- The end of `sourceMatchLine`.
abbrev pub best_line : ℕ → ℕ → ℕ
best_line all_tokens first_token =
    if ltb 0 all_tokens then all_tokens else if ltb 0 first_token then first_token else 1

-- The loop over the scanner of `sourceMatchLine`, at line `n`.
unfoldable pub scan_match :
    Text → List Text → ℕ → ℕ → ℕ → List Text → Option Failure → Result Failure ℕ
scan_match needle tokens n all_tokens first_token [] failure =
    finished failure (best_line all_tokens first_token)
scan_match needle tokens n all_tokens first_token (text ∷ texts) failure =
    let value = to_lower text in
    let is_whole = eqb all_tokens 0 && ltb 1 (length tokens) && has_all value tokens in
    let is_part = eqb first_token 0 && contains_any value tokens in
    let rest =
      scan_match needle tokens (n + 1) (if is_whole then n else all_tokens)
        (if is_part then n else first_token) texts failure in
    if not (needle == []) && contains_text value needle then ok n else rest

-- `sourceMatchLine`
unfoldable pub source_match_line : Db → Text → Text → Result Failure ℕ
source_match_line db path text = do
  hash ← db.file_hash path
  file ← db.source hash
  let needle = to_lower (trim_space text)
  scan_match needle (fields needle) 1 0 0 file.texts file.failure
