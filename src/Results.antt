-- ===== src/Results.antt =====
-- The errors of a command and what it writes for them, internal/result/result.go.
use wowdoc.Base.{ℕ, zero, suc, Option, none, some, List, [], ◌++◌, Text, codes, text_eq}

-- `Error`, less its details.
pub record Error : Type 0 where
  pub code : Text
  pub message : Text
  pub next_steps : List Text
  pub exit_status : ℕ

-- A Go error: one of the program's, one of the libraries' by its text, or one that wraps another.
pub data Failure : Type 0 where
  app : Error → Failure
  plain : Text → Failure
  wrapped : Text → Failure → Failure

-- `E`
abbrev pub error : Text → Text → ℕ → Error
error code message exit = record {
  code = code;
  message = message;
  next_steps = [];
  exit_status = exit;
}

abbrev pub fail : Text → Text → ℕ → Failure
fail code message exit = app (error code message exit)

-- `Error.Error`, and the texts of the other errors.
unfoldable pub error_text : Failure → Text
error_text (app e) = e.code ++ (codes ": " ++ e.message)
error_text (plain text) = text
error_text (wrapped context e) = context ++ (codes ": " ++ error_text e)

-- `As`
unfoldable pub as_error : Failure → Option Error
as_error (app e) = some e
as_error (plain text) = none
as_error (wrapped context e) = as_error e

unfoldable pub shown : Failure → Option Error → Error
unfolding error_text
shown e (some found) = found
shown e none = error (codes "internal_error") (error_text e) 1

abbrev pub status_of : ℕ → ℕ
status_of zero = 1
status_of (suc n) = suc n

-- `WriteError`: the error in the envelope, the line on the standard error, and the exit status.
unfoldable pub write_error : Failure → Error × Text × ℕ
unfolding shown as_error
write_error e =
    let a = shown e (as_error e) in
    (a, a.code ++ (codes ": " ++ a.message), status_of a.exit_status)
