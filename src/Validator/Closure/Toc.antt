-- ===== src/Validator/Closure/Toc.antt =====
-- Reading the TOC file: `BuildClosure` and `parseTOC` of internal/validator/closure.go.
use wowdoc.Base.{ℕ, ◌+◌, true, Option, none, some, List, [], ◌∷◌, Text, codes}
use wowdoc.Base.{◌==◌, text_eq, eqb, ltb, leb, if◌then◌else◌, Result, ok, err, ◌>>=◌, ◌>>◌, guard}
use wowdoc.Strings.{trim_space, trim_prefix, has_prefix, equal_fold, split, cut}
use wowdoc.Validator.Types.{text}
use wowdoc.Validator.Paths.{display_path}
use wowdoc.Validator.Closure.Disk.{Disk, OsError, ResolveError, ResolvedPath}
use wowdoc.Validator.Closure.Resolve.{Roots, resolve}
use wowdoc.Validator.Closure.Load.{load}
use wowdoc.Validator.Closure.Builder.{Builder, add_diagnostic, add_resolve_diagnostic, read_code}

-- The size of a rune in UTF-8.
abbrev rune_size : ℕ → ℕ
rune_size c = if ltb c 0x80 then 1 else if ltb c 0x800 then 2 else if ltb c 0x10000 then 3 else 4

abbrev pub byte_size : Text → ℕ
byte_size [] = 0
byte_size (c ∷ s) = rune_size c + byte_size s

-- The lines that `bufio.Scanner` gives, with the carriage return before the newline; the last one
-- is none where it is empty.
unfoldable pub scanned_lines : List Text → List Text
scanned_lines [] = []
scanned_lines (l ∷ []) = if l == [] then [] else l ∷ []
scanned_lines (l ∷ m ∷ ls) = l ∷ scanned_lines (m ∷ ls)

-- The scanner's buffer, in bytes.
abbrev pub max_line : ℕ
max_line = 1048576

abbrev pub set_interface : Option (Text × Text) → Builder → Builder
set_interface none b = b
set_interface (some (key, value)) b =
    if equal_fold (trim_space key) (codes "Interface")
    then record b { closure = record b.closure { interface = trim_space value } }
    else b

-- One line of `parseTOC`, without the spaces around it.
unfoldable pub toc_line : Disk → Roots → ℕ → ℕ → Text → Builder → Option Builder
toc_line d r fuel n value b =
    if value == []
    then some b
    else if has_prefix value (codes "##")
    then some (set_interface (cut b':' (trim_space (trim_prefix value (codes "##")))) b)
    else if has_prefix value (codes "#")
    then some b
    else load d r fuel value (record { file = b.closure.toc; line = n; kind = codes "toc" }) b

abbrev pub line_value : ℕ → Text → Text
line_value n line = if eqb n 1 then trim_prefix (trim_space line) (0xfeff ∷ []) else trim_space line

abbrev then_lines : (Builder → Option Builder) → Option Builder → Option Builder
then_lines f none = none
then_lines f (some b) = f b

-- The loop of `parseTOC`; `n` is the number of the lines before.
unfoldable pub toc_lines : Disk → Roots → ℕ → ℕ → List Text → Builder → Option Builder
toc_lines d r fuel n [] b = some b
toc_lines d r fuel n (line ∷ lines) b =
    if leb max_line (byte_size line)
    then some (
        add_diagnostic (codes "error") (codes "load_file_unreadable") b.closure.toc n 0
          (codes "cannot read TOC contents")
          ((codes "error", text (codes "bufio.Scanner: token too long")) ∷ []) b)
    else then_lines (toc_lines d r fuel (n + 1) lines)
        (toc_line d r fuel (n + 1) (line_value (n + 1) line) b)

-- `parseTOC`
unfoldable pub parse_toc : Disk → Roots → ℕ → Text → Builder → Option Builder
parse_toc d r fuel content b = toc_lines d r fuel 0 (scanned_lines (split 10 content)) b

abbrev pub empty_builder : Builder
empty_builder = record {
  closure = record { toc = []; interface = []; files = []; diagnostics = []; contents = [] };
  files = [];
  active = [];
}

-- An error that `BuildClosure` returns.
pub data ClosureError : Type 0 where
  resolve_root : OsError → ClosureError
  open_root : OsError → ClosureError
  not_a_directory : Text → ClosureError
  root_links : OsError → ClosureError
  real_root : OsError → ClosureError

abbrev wrapped {ℓ} :
    {A : Type ℓ} → (OsError → ClosureError) → Result OsError A → Result ClosureError A
wrapped f (ok a) = ok a
wrapped f (err e) = err (f e)

-- The checks of `BuildClosure` on the root.
unfoldable pub open_roots : Disk → Text → Result ClosureError Roots
open_roots d root = wrapped resolve_root (d.abs root) >>= λ root_abs.
    wrapped open_root (d.is_dir root_abs) >>= λ is_directory.
    guard is_directory (not_a_directory root)
    >> (wrapped root_links (d.eval_symlinks root_abs) >>= λ linked.
        wrapped real_root (d.abs linked) >>= λ root_real.
        ok (record { abs = root_abs; real = root_real }))

abbrev pub with_toc : Disk → Roots → ℕ → ResolvedPath → Result OsError Text → Option Builder
with_toc d r fuel found (err e) =
    let b = record empty_builder { closure = record empty_builder.closure { toc = found.rel } } in
    some (
      add_diagnostic (codes "error") (read_code e) found.rel 0 0 (codes "cannot read TOC file")
        ((codes "path", text found.rel) ∷ (codes "error", text e.text) ∷ []) b)
with_toc d r fuel found (ok content) =
    parse_toc d r fuel content
      (record empty_builder { closure = record empty_builder.closure { toc = found.rel } })

abbrev pub with_resolved :
    Disk → Roots → ℕ → Text → Result ResolveError ResolvedPath → Option Builder
with_resolved d r fuel toc (err e) = some (
    add_resolve_diagnostic (record { file = display_path toc; line = 0; kind = codes "toc" }) toc e
      empty_builder)
with_resolved d r fuel toc (ok found) = with_toc d r fuel found (d.read_file found.disk)

-- `BuildClosure` under opened roots.
unfoldable pub build_in : Disk → Roots → ℕ → Text → Option Builder
build_in d r fuel toc = with_resolved d r fuel toc (resolve d r [] toc true)

-- `BuildClosure`
unfoldable pub build_closure : Disk → ℕ → Text → Text → Result ClosureError (Option Builder)
unfolding open_roots build_in
build_closure d fuel root toc = open_roots d root >>= λ r. ok (build_in d r fuel toc)
