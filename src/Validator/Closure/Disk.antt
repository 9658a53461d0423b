-- ===== src/Validator/Closure/Disk.antt =====
-- What internal/validator/closure.go asks of the file system and of the XML decoder, and the
-- errors of `resolve`.
use wowdoc.Base.{ℕ, Bool, Option, List, Text, Result}

-- An error of the operating system; `is_missing` is `errors.Is(err, os.ErrNotExist)`.
pub record OsError : Type 0 where
  pub is_missing : Bool
  pub text : Text

-- A token of `xml.Decoder` with the input offset before it. The list of tokens ends where the
-- decoder reports the end of the input; a syntax error has its own line.
pub data Token : Type 0 where
  start_element : ℕ → Text → List (Text × Text) → Token
  other : Token
  failed : ℕ → Option ℕ → Text → Token

pub record Disk : Type 0 where
  pub abs : Text → Result OsError Text
  pub is_dir : Text → Result OsError Bool
  pub lstat : Text → Result OsError (Unit {0})
  pub read_dir : Text → Result OsError (List Text)
  pub eval_symlinks : Text → Result OsError Text
  pub read_file : Text → Result OsError Text
  pub tokens : Text → List Token

-- `resolveKind`
pub data ResolveKind : Type 0 where
  escape : ResolveKind
  missing : ResolveKind
  unreadable : ResolveKind

-- `resolveError`
pub record ResolveError : Type 0 where
  pub kind : ResolveKind
  pub path : Text
  pub cause : Option OsError

-- `resolvedLoadPath`
pub record ResolvedPath : Type 0 where
  pub rel : Text
  pub disk : Text

-- An error of `findCaseInsensitive`: its own, or one of the operating system.
pub data FindError : Type 0 where
  resolve_error : ResolveError → FindError
  os_error : OsError → FindError
