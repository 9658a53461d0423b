-- ===== src/GitStore/Retry/Settled.antt =====
-- Which attempt of a network command settles it, internal/gitstore/git.go.
use wowdoc.Base.{
  ℕ, zero, suc, ◌≢◌, ◌-◌, ◌^◌, ◌+◌, ◌<◌, ◌≡◌, refl, ap, sym, ◌⊎◌, inl, inr, true, false, not, none,
}
use wowdoc.Base.{Any, List, [], ◌∷◌, Text, Result, ok, err, arith}
use wowdoc.Strings.{to_lower, contains_text, contains_any}
use wowdoc.GitStore.Errors.{retryable_git, permanent_marks, transient_marks}
use wowdoc.GitStore.Retry.{
  network_attempts, network_error, Attempt, noted, Run, stop, waited, retry_from, retry_network,
}

-- The attempt fails with an error that may be retried, and nothing is cancelled.
abbrev pub IsHopeful : Attempt → Type 0
IsHopeful a =
    (a.cancelled_before ≡ none)
    × (a.cancelled_after ≡ none)
    × (a.cancelled_wait ≡ none)
    × ((e : Text) × (a.outcome ≡ err e) × (retryable_git (noted a.timed_out e) ≡ true))

-- The attempt gives the result `r`: it succeeds, or its error is permanent or the last one.
abbrev pub Settles : ℕ → Attempt → Result Text Text → Type 0
Settles attempt a r =
    (a.cancelled_before ≡ none)
    × (((out : Text) × (a.outcome ≡ ok out) × (r ≡ ok out))
        ⊎ ((a.cancelled_after ≡ none)
            × ((e : Text) × (a.outcome ≡ err e)
                × (r ≡ err (noted a.timed_out e))
                × ((attempt ≡ network_attempts) ⊎ (retryable_git (noted a.timed_out e) ≡ false)))))

-- The seconds before the attempts after the first.
abbrev pub waits_before : ℕ → List ℕ
waits_before zero = []
waits_before (suc zero) = []
waits_before (suc (suc zero)) = 1 ∷ []
waits_before (suc (suc (suc zero))) = 1 ∷ 2 ∷ []
waits_before (suc (suc (suc (suc n)))) = 1 ∷ 2 ∷ 4 ∷ []

module _ (attempts : ℕ → Attempt) where
  retry_from-settled :
      (left n : ℕ) (last : Text) (r : Result Text Text)
      → Settles n (attempts n) r
      → retry_from attempts (suc left) n last ≡ stop r
  unfolding retry_from
  retry_from-settled left n last r (before, inl (out, given, same)) =
      rw (before, given) (ap stop (sym same))
  retry_from-settled left n last r (before, inr (after, (e, given, same, final))) =
      rw (before, given, after) (ground (arith, final, same))

  retry_from-hopeful :
      (left n : ℕ) (last : Text) (run : Run)
      → IsHopeful (attempts n)
      → n ≢ network_attempts
      → ((e : Text) → retry_from attempts left (n + 1) e ≡ run)
      → retry_from attempts (suc left) n last ≡ waited (2 ^ (n - 1)) run
  unfolding retry_from
  retry_from-hopeful left n last run (before, after, wait, (e, given, again)) early rest =
      rw (before, given, after, again, wait) (ground (arith, rest (noted (attempts n).timed_out e)))

  -- If the attempts before one of the four fail with an error that may be retried, and that one
  -- succeeds, fails with a permanent error or is the fourth, and nothing is cancelled, then the
  -- command ends with this attempt's result, after waits of one, two and four seconds.
  pub retry_network-settled :
      (j : ℕ) (r : Result Text Text)
      → j < network_attempts
      → ((i : ℕ) → i < j → IsHopeful (attempts (i + 1)))
      → Settles (j + 1) (attempts (j + 1)) r
      → retry_network attempts ≡ (r, waits_before (j + 1))
  unfolding retry_network
  retry_network-settled zero r h hopeful settles = retry_from-settled 3 1 [] r settles
  retry_network-settled (suc zero) r h hopeful settles =
      retry_from-hopeful 3 1 [] (stop r) (hopeful 0 (omega arith)) (λ p. omega arith)
        (λ e. retry_from-settled 2 2 e r settles)
  retry_network-settled (suc (suc zero)) r h hopeful settles =
      retry_from-hopeful 3 1 [] (waited 2 (stop r)) (hopeful 0 (omega arith)) (λ p. omega arith)
        (λ e.
          retry_from-hopeful 2 2 e (stop r) (hopeful 1 (omega arith)) (λ p. omega arith)
            (λ e'. retry_from-settled 1 3 e' r settles))
  retry_network-settled (suc (suc (suc zero))) r h hopeful settles =
      retry_from-hopeful 3 1 [] (waited 2 (waited 4 (stop r))) (hopeful 0 (omega arith))
        (λ p. omega arith)
        (λ e.
          retry_from-hopeful 2 2 e (waited 4 (stop r)) (hopeful 1 (omega arith)) (λ p. omega arith)
            (λ e'.
              retry_from-hopeful 1 3 e' (stop r) (hopeful 2 (omega arith)) (λ p. omega arith)
                (λ e3. retry_from-settled 0 4 e3 r settles)))
  retry_network-settled (suc (suc (suc (suc j)))) r h hopeful settles = absurd (omega arith)

contains_any-Any :
    (s : Text) (parts : List Text)
    → Any (λ part. contains_text s part ≡ true) parts
    → contains_any s parts ≡ true
contains_any-Any s [] h = absurd h
contains_any-Any s (part ∷ parts) (inl h) = rw h refl
contains_any-Any s (part ∷ parts) (inr h) = ground (arith, contains_any-Any s parts h)

network_error-transient :
    (ended stderr : Text)
    → contains_any (to_lower (network_error ended stderr)) transient_marks ≡ true
unfolding network_error to_lower contains_text
network_error-transient ended stderr =
    contains_any-Any (to_lower (network_error ended stderr)) transient_marks (
      inr (
        inr
          (inr (inr (inr (inr (inr (inr (inr (inr (inr (inr (inr (inr (inr (inl refl))))))))))))))))

-- An error of a network command that ran is retried unless it has one of the permanent marks,
-- whatever else it says: its text begins with the word that marks network errors.
pub retryable_git-network_error :
    (ended stderr : Text)
    → retryable_git (network_error ended stderr)
      ≡ not (contains_any (to_lower (network_error ended stderr)) permanent_marks)
unfolding retryable_git
retryable_git-network_error ended stderr = ground (arith, network_error-transient ended stderr)
