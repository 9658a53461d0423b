-- ===== src/GitStore/Retry.antt =====
-- The attempts of a network command, internal/gitstore/git.go.

pub mod Settled
use wowdoc.Base.{
  ℕ, zero, suc, ◌+◌, ◌-◌, ◌^◌, Bool, true, false, not, ◌||◌, Option, none, some, List, [], ◌∷◌,
  ◌++◌,
}
use wowdoc.Base.{Text, codes, eqb, Result, ok, err, if◌then◌else◌}
use wowdoc.Strings.{trim_space}
use wowdoc.GitStore.Errors.{retryable_git}

-- `gitNetworkAttempts`
abbrev pub network_attempts : ℕ
network_attempts = 4

-- The error of `networkOnce` for a command that ran: how it ended, and its standard error.
unfoldable pub network_error : Text → Text → Text
network_error ended stderr = codes "git network: " ++ (ended ++ (codes ": " ++ trim_space stderr))

-- What happens around one attempt: the context's error before it, after it, and in the wait that
-- follows, whether its own deadline passed, and what it gives.
pub record Attempt : Type 0 where
  pub cancelled_before : Option Text
  pub outcome : Result Text Text
  pub cancelled_after : Option Text
  pub timed_out : Bool
  pub cancelled_wait : Option Text

abbrev pub noted : Bool → Text → Text
noted timed_out e = if timed_out then codes "network timed out: " ++ e else e

-- The result, and the seconds that were waited before each new attempt.
abbrev pub Run : Type 0
Run = Result Text Text × List ℕ

abbrev pub stop : Result Text Text → Run
stop r = (r, [])

abbrev pub waited : ℕ → Run → Run
waited seconds (r, waits) = (r, seconds ∷ waits)

abbrev pub unless {ℓ} : {A : Type ℓ} → Option Text → (Text → A) → A → A
unless none stopped go = go
unless (some e) stopped go = stopped e

-- The end of a round, after an attempt that failed.
abbrev pub after_failure : ℕ → Attempt → Text → (Text → Run) → Run
after_failure attempt a e next =
    unless a.cancelled_after (λ c. stop (err c))
      (let error = noted a.timed_out e in
        if eqb attempt network_attempts || not (retryable_git error)
        then stop (err error)
        else waited (2 ^ (attempt - 1)) (unless a.cancelled_wait (λ c. stop (err c)) (next error)))

abbrev pub after_attempt : ℕ → Attempt → Result Text Text → (Text → Run) → Run
after_attempt attempt a (ok out) next = stop (ok out)
after_attempt attempt a (err e) next = after_failure attempt a e next

-- The loop of `retryNetwork`, with the rounds that are left and the last error.
unfoldable pub retry_from : (ℕ → Attempt) → ℕ → ℕ → Text → Run
retry_from attempts zero attempt last = stop (err last)
retry_from attempts (suc left) attempt last =
    let a = attempts attempt in
    unless a.cancelled_before (λ c. stop (err c))
      (after_attempt attempt a a.outcome (λ e. retry_from attempts left (attempt + 1) e))

-- `retryNetwork`
unfoldable pub retry_network : (ℕ → Attempt) → Run
unfolding retry_from
retry_network attempts = retry_from attempts network_attempts 1 []
