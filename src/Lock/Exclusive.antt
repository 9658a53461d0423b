-- ===== src/Lock/Exclusive.antt =====
-- Who holds the lock of internal/lock/lock.go after a run.
use wowdoc.Base.{
  ℕ, ◌+◌, ◌-◌, ◌≡◌, ◌≢◌, refl, arith, true, false, Option, none, some, List, [], ◌∷◌, ltb,
}
use wowdoc.Lock.{
  Phase, idle, stale_seen, ready, holding, State, Action, stat, remove, create, fail, release, wait,
  set, is_stale, on_stat, on_remove, create_over, on_create, on_fail, on_release, step, run, free,
}

-- Whenever a process stats the file, it is not stale.
abbrev pub IsTimely : ℕ → List Action → State → Type 0
IsTimely stale_after [] s = Unit
IsTimely stale_after (stat p ∷ actions) s =
    (is_stale stale_after s.file s.now ≡ false)
    × IsTimely stale_after actions (step stale_after (stat p) s)
IsTimely stale_after (a ∷ actions) s = IsTimely stale_after actions (step stale_after a s)

-- Nobody has seen a stale file; a holder has a file; there is one holder at most.
pub record IsExclusive (s : State) : Type 0 where
  pub none_stale : (p : ℕ) → s.phase p ≢ stale_seen
  pub has_file : (p : ℕ) → s.phase p ≡ holding → s.file ≢ none
  pub one : (p q : ℕ) → s.phase p ≡ holding → s.phase q ≡ holding → p ≡ q

-- A process that comes to a phase in which it neither holds nor sees a stale file.
set-IsExclusive :
    (s : State) (p : ℕ) (x : Phase)
    → x ≢ stale_seen
    → x ≢ holding
    → IsExclusive s
    → IsExclusive (record s { phase = set p x s.phase })
set-IsExclusive s p x a b h = record {
  none_stale = λ q e. ground (arith, e, h.none_stale q, a);
  has_file = λ q e. h.has_file q (ground (arith, e, b));
  one = λ q r e f. h.one q r (ground (arith, e, b)) (ground (arith, f, b));
}

on_stat-IsExclusive :
    (stale_after p : ℕ) (x : Phase) (s : State)
    → is_stale stale_after s.file s.now ≡ false
    → IsExclusive s
    → IsExclusive (on_stat stale_after p x s)
on_stat-IsExclusive stale_after p idle s fresh h =
    rw fresh (set-IsExclusive s p ready (λ e. cc) (λ e. cc) h)
on_stat-IsExclusive stale_after p stale_seen s fresh h = h
on_stat-IsExclusive stale_after p ready s fresh h = h
on_stat-IsExclusive stale_after p holding s fresh h = h

on_remove-IsExclusive :
    (p : ℕ) (x : Phase) (s : State) → s.phase p ≡ x → IsExclusive s → IsExclusive (on_remove p x s)
on_remove-IsExclusive p idle s at h = h
on_remove-IsExclusive p stale_seen s at h = absurd (h.none_stale p at)
on_remove-IsExclusive p ready s at h = h
on_remove-IsExclusive p holding s at h = h

create_over-IsExclusive :
    (p : ℕ) (o : Option ℕ) (s : State)
    → s.file ≡ o
    → IsExclusive s
    → IsExclusive (create_over p o s)
create_over-IsExclusive p (some m) s at h = set-IsExclusive s p idle (λ e. cc) (λ e. cc) h
create_over-IsExclusive p none s at h = record {
  none_stale = λ q e. ground (arith, e, h.none_stale q);
  has_file = λ q e f. cc;
  one = λ q r e f. ground (arith, e, f, at, h.has_file q, h.has_file r);
}

on_create-IsExclusive :
    (p : ℕ) (x : Phase) (s : State) → IsExclusive s → IsExclusive (on_create p x s)
on_create-IsExclusive p idle s h = h
on_create-IsExclusive p stale_seen s h = h
on_create-IsExclusive p ready s h = create_over-IsExclusive p s.file s refl h
on_create-IsExclusive p holding s h = h

on_fail-IsExclusive : (p : ℕ) (x : Phase) (s : State) → IsExclusive s → IsExclusive (on_fail p x s)
on_fail-IsExclusive p idle s h = h
on_fail-IsExclusive p stale_seen s h = h
on_fail-IsExclusive p ready s h = set-IsExclusive s p idle (λ e. cc) (λ e. cc) h
on_fail-IsExclusive p holding s h = h

on_release-IsExclusive :
    (p : ℕ) (x : Phase) (s : State) → s.phase p ≡ x → IsExclusive s → IsExclusive (on_release p x s)
on_release-IsExclusive p idle s at h = h
on_release-IsExclusive p stale_seen s at h = h
on_release-IsExclusive p ready s at h = h
on_release-IsExclusive p holding s at h = record {
  none_stale = λ q e. ground (arith, e, h.none_stale q);
  has_file = λ q e f. ground (arith, e, at, h.one q p);
  one = λ q r e f. ground (arith, e, f, at, h.one q r);
}

run-IsExclusive :
    (stale_after : ℕ) (actions : List Action) (s : State)
    → IsTimely stale_after actions s
    → IsExclusive s
    → IsExclusive (run stale_after actions s)
unfolding run step
run-IsExclusive n [] s t h = h
run-IsExclusive n (stat p ∷ more) s t h =
    run-IsExclusive n more _ t.1 (on_stat-IsExclusive n p (s.phase p) s t.0 h)
run-IsExclusive n (remove p ∷ more) s t h =
    run-IsExclusive n more _ t (on_remove-IsExclusive p (s.phase p) s refl h)
run-IsExclusive n (create p ∷ more) s t h =
    run-IsExclusive n more _ t (on_create-IsExclusive p (s.phase p) s h)
run-IsExclusive n (fail p ∷ more) s t h =
    run-IsExclusive n more _ t (on_fail-IsExclusive p (s.phase p) s h)
run-IsExclusive n (release p ∷ more) s t h =
    run-IsExclusive n more _ t (on_release-IsExclusive p (s.phase p) s refl h)
run-IsExclusive n (wait d ∷ more) s t h =
    run-IsExclusive n more _ t
      (record { none_stale = h.none_stale; has_file = h.has_file; one = h.one })

free-IsExclusive : IsExclusive free
free-IsExclusive = record {
  none_stale = λ p e. cc;
  has_file = λ p e. absurd (cc);
  one = λ p q e f. absurd (cc);
}

-- However the steps of any processes are interleaved from a free lock, at most one process holds
-- it at the end: as long as nobody stats the file after its time is over.
pub run-one_holder :
    (stale_after : ℕ) (actions : List Action) (p q : ℕ)
    → IsTimely stale_after actions free
    → (run stale_after actions free).phase p ≡ holding
    → (run stale_after actions free).phase q ≡ holding
    → p ≡ q
run-one_holder n actions p q t e f = (run-IsExclusive n actions free t free-IsExclusive).one p q e f

-- The old holder of a lock that was taken over releases it, and a third process acquires it.
abbrev pub takeover : ℕ → List Action
takeover n =
    stat 1
    ∷ create 1
    ∷ wait (n + 1)
    ∷ stat 2
    ∷ remove 2
    ∷ create 2
    ∷ release 1
    ∷ stat 3
    ∷ create 3
    ∷ []

-- For every time limit, after a lock outlived it and was taken over, the release by its old holder
-- lets a third process acquire the lock while the second one holds it.
pub run-takeover :
    (n : ℕ)
    → ((run n (takeover n) free).phase 2 ≡ holding) × ((run n (takeover n) free).phase 3 ≡ holding)
unfolding run step
run-takeover n = rw (late) (refl, refl)
  where
    late : ltb n (0 + (n + 1) - 0) ≡ true
    late = ground arith
