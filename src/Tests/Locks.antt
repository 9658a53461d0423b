-- ===== src/Tests/Locks.antt =====
-- Concrete inputs for the theorems on the lock.
use wowdoc.Base.{ℕ, ◌≡◌, refl, List, [], ◌∷◌}
use wowdoc.Lock.{Action, stat, create, wait, holding, step, run, free}
use wowdoc.Lock.Exclusive.{IsTimely, run-one_holder, run-takeover, takeover}

-- Two processes race; the second is refused.
abbrev race : List Action
race = stat 1 ∷ stat 2 ∷ create 2 ∷ wait 3 ∷ create 1 ∷ stat 1 ∷ create 1 ∷ []

race-IsTimely : IsTimely 10 race free
unfolding step
race-IsTimely = (refl, (refl, (refl, tt)))

holds : (run 10 race free).phase 2 ≡ holding
unfolding run step
holds = refl

run-one_holder_example : ◌≡◌ {A = ℕ} 2 2
run-one_holder_example = run-one_holder 10 race 2 2 race-IsTimely holds holds

run-takeover_example :
    ((run 60 (takeover 60) free).phase 2 ≡ holding)
    × ((run 60 (takeover 60) free).phase 3 ≡ holding)
run-takeover_example = run-takeover 60
