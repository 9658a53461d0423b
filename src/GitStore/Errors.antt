-- ===== src/GitStore/Errors.antt =====
-- The errors of git, internal/gitstore/git.go: which are retried, and what the program makes of them.
use wowdoc.Base.{ℕ, zero, suc, ◌+◌, ◌-◌, Bool, false, ◌||◌, Option, none, some, List, [], ◌∷◌}
use wowdoc.Base.{◌++◌, Text, codes, ltb, eqb, length, take, if◌then◌else◌}
use wowdoc.Strings.{to_lower, trim_space, has_prefix, contains_any}
use wowdoc.Results.{Error, error}

-- The marks of an error that a new attempt does not mend.
abbrev pub permanent_marks : List Text
permanent_marks =
    codes "authentication"
    ∷ codes "401"
    ∷ codes "403"
    ∷ codes "404"
    ∷ codes "not found"
    ∷ codes "repository_incomplete"
    ∷ []

abbrev pub transient_marks : List Text
transient_marks =
    codes "timed out"
    ∷ codes "timeout"
    ∷ codes "operation too slow"
    ∷ codes "could not resolve host"
    ∷ codes "connection reset"
    ∷ codes "connection was reset"
    ∷ codes "early eof"
    ∷ codes "remote end hung up"
    ∷ codes "connection refused"
    ∷ codes "rpc failed"
    ∷ codes "curl 18"
    ∷ codes "curl 28"
    ∷ codes "curl 52"
    ∷ codes "curl 56"
    ∷ codes "http/2 stream"
    ∷ codes "network"
    ∷ codes "http 408"
    ∷ codes "http 429"
    ∷ codes "http 500"
    ∷ codes "http 502"
    ∷ codes "http 503"
    ∷ codes "http 504"
    ∷ codes "tls"
    ∷ []

-- `retryableGit`
unfoldable pub retryable_git : Text → Bool
retryable_git text =
    let lower = to_lower text in
    if contains_any lower permanent_marks then false else contains_any lower transient_marks

-- `\s` of a regular expression.
abbrev pub is_blank : ℕ → Bool
is_blank c = eqb c 9 || eqb c 10 || eqb c 12 || eqb c 13 || eqb c 32

-- The runes before an `@` that no slash or blank precedes: `[^/@\s]+@`, after `n` runes of it.
unfoldable pub credential : ℕ → Text → Option ℕ
credential n [] = none
credential n (c ∷ s) =
    let more = credential (n + 1) s in
    if eqb c b'@'
    then (if eqb n 0 then none else some (n + 1))
    else if eqb c b'/' || is_blank c
    then none
    else more

-- The runes of `https?://` at the start, in any letter case.
unfoldable pub scheme : Text → ℕ
scheme text =
    if has_prefix (to_lower text) (codes "http://")
    then 7
    else if has_prefix (to_lower text) (codes "https://")
    then 8
    else 0

abbrev pub rest_after : ℕ → Text → Text
rest_after zero s = s
rest_after (suc n) [] = []
rest_after (suc n) (c ∷ s) = rest_after n s

-- The match of `credentialURL` at the start: the runes of its scheme, and of the credentials.
unfoldable pub credential_url : Text → Option (ℕ × ℕ)
unfolding scheme credential
credential_url text =
    let n = scheme text in
    if eqb n 0
    then none
    else elim (credential 0 (rest_after n text)) [ none ↦ none | some m ↦ some (n, m) ]

unfoldable pub redact_from : ℕ → Text → Text
unfolding credential_url
redact_from skip [] = []
redact_from (suc skip) (c ∷ s) = redact_from skip s
redact_from zero (c ∷ s) =
    let kept = c ∷ redact_from 0 s in
    elim (credential_url (c ∷ s)) [
      | none ↦ kept
      | some (n, m) ↦ take n (c ∷ s) ++ (codes "<credentials>@" ++ redact_from (n + m - 1) s)
    ]

-- `redactGitText`
unfoldable pub redact_git_text : Text → Text
unfolding redact_from
redact_git_text = redact_from 0

-- `summarizeGitError`
unfoldable pub summarize_git_error : Text → Text
unfolding redact_git_text
summarize_git_error text =
    let redacted = redact_git_text (trim_space text) in
    if ltb 240 (length redacted) then take 240 redacted ++ codes "..." else redacted

-- A case of `classifyGit`: the marks, the code and the next steps.
pub record Case : Type 0 where
  pub marks : List Text
  pub code : Text
  pub steps : List Text

abbrev rerun : Text
rerun = codes "rerun the same wowdoc command"

abbrev continue_later : Text
continue_later = codes "rerun the same wowdoc command to continue from verified checkpoints"

abbrev pub cases : List Case
cases =
    record {
      marks = codes "context canceled" ∷ [];
      code = codes "operation_cancelled";
      steps = continue_later ∷ [];
    }
    ∷ record {
      marks = codes "authentication" ∷ codes "401" ∷ [];
      code = codes "github_auth_failed";
      steps = codes "verify GH_TOKEN, GITHUB_TOKEN, or gh auth status" ∷ rerun ∷ [];
    }
    ∷ record {
      marks = codes "403" ∷ codes "rate limit" ∷ [];
      code = codes "github_rate_limited";
      steps = codes "wait for the GitHub rate limit to reset or authenticate with gh" ∷ rerun ∷ [];
    }
    ∷ record {
      marks = codes "not found" ∷ codes "404" ∷ [];
      code = codes "repository_not_found";
      steps = codes "verify the source repository URL and access" ∷ [];
    }
    ∷ record {
      marks = codes "could not resolve host" ∷ [];
      code = codes "dns_failed";
      steps = codes "check DNS and proxy settings" ∷ rerun ∷ [];
    }
    ∷ record {
      marks = codes "proxy" ∷ [];
      code = codes "proxy_failed";
      steps =
          codes "check HTTPS_PROXY, HTTP_PROXY, NO_PROXY, and Git proxy configuration" ∷ rerun ∷ [];
    }
    ∷ record {
      marks = codes "certificate" ∷ codes "ssl" ∷ codes "tls" ∷ [];
      code = codes "tls_failed";
      steps =
          codes "check the system clock, certificate store, and TLS-inspecting proxy" ∷ rerun ∷ [];
    }
    ∷ record {
      marks = codes "timed out" ∷ codes "timeout" ∷ codes "operation too slow" ∷ [];
      code = codes "network_timeout";
      steps = codes "check network stability and proxy settings" ∷ continue_later ∷ [];
    }
    ∷ record {
      marks =
          codes "connection reset"
          ∷ codes "connection refused"
          ∷ codes "early eof"
          ∷ codes "remote end hung up"
          ∷ codes "failed to connect"
          ∷ [];
      code = codes "network_unavailable";
      steps = codes "check network connectivity and proxy settings" ∷ continue_later ∷ [];
    }
    ∷ record {
      marks = codes "no space left" ∷ codes "disk full" ∷ [];
      code = codes "disk_full";
      steps = codes "free disk space in WOWDOC_HOME" ∷ rerun ∷ [];
    }
    ∷ []

abbrev pub classified : Text → Text → List Case → Error
classified message lower [] = record (error (codes "git_failed") message 4) {
  next_steps = codes "inspect the prefixed Git progress above" ∷ rerun ∷ [];
}
classified message lower (c ∷ rest) =
    if contains_any lower c.marks
    then record (error c.code message 4) { next_steps = c.steps }
    else classified message lower rest

-- `classifyGit`, on the text of an error; the text of `context.Canceled` is the first mark.
unfoldable pub classify_git : Text → Error
unfolding redact_git_text
classify_git text =
    let message = redact_git_text text in classified message (to_lower message) cases
