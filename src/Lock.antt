-- ===== src/Lock.antt =====
-- The lock file of an operation, internal/lock/lock.go, as the steps that processes take in turn:
-- `Acquire` stats the file, removes it where it is stale, and creates it exclusively.
pub mod Exclusive
use wowdoc.Base.{
  ℕ, ◌+◌, ◌-◌, Bool, true, false, Option, none, some, List, [], ◌∷◌, ltb, eqb, if◌then◌else◌,
}

-- Where a process is in `Acquire`, or that it holds the lock.
pub data Phase : Type 0 where
  idle : Phase
  stale_seen : Phase
  ready : Phase
  holding : Phase

-- The file by its modification time, the clock, and the phase of every process.
pub record State : Type 0 where
  pub file : Option ℕ
  pub now : ℕ
  pub phase : ℕ → Phase

pub data Action : Type 0 where
  stat : ℕ → Action
  remove : ℕ → Action
  create : ℕ → Action
  fail : ℕ → Action
  release : ℕ → Action
  wait : ℕ → Action

abbrev pub set : ℕ → Phase → (ℕ → Phase) → ℕ → Phase
set p x phase q = if eqb q p then x else phase q

-- `time.Since(info.ModTime()) > staleAfter`
abbrev pub is_stale : ℕ → Option ℕ → ℕ → Bool
is_stale stale_after none now = false
is_stale stale_after (some modified) now = ltb stale_after (now - modified)

-- `os.Stat` and its test.
abbrev pub on_stat : ℕ → ℕ → Phase → State → State
on_stat stale_after p idle s = record s {
  phase = set p (if is_stale stale_after s.file s.now then stale_seen else ready) s.phase;
}
on_stat stale_after p _ s = s

-- `os.Remove` of a stale file.
abbrev pub on_remove : ℕ → Phase → State → State
on_remove p stale_seen s = record s { file = none; phase = set p ready s.phase }
on_remove p _ s = s

abbrev pub create_over : ℕ → Option ℕ → State → State
create_over p none s = record s { file = some s.now; phase = set p holding s.phase }
create_over p (some modified) s = record s { phase = set p idle s.phase }

-- `os.OpenFile` with `O_EXCL`: the lock, or `operation_in_progress`.
abbrev pub on_create : ℕ → Phase → State → State
on_create p ready s = create_over p s.file s
on_create p _ s = s

-- Another error of `OpenFile`.
abbrev pub on_fail : ℕ → Phase → State → State
on_fail p ready s = record s { phase = set p idle s.phase }
on_fail p _ s = s

-- `Release`
abbrev pub on_release : ℕ → Phase → State → State
on_release p holding s = record s { file = none; phase = set p idle s.phase }
on_release p _ s = s

-- One step of one process, or of the clock. A step that the process cannot take changes nothing.
unfoldable pub step : ℕ → Action → State → State
step stale_after (stat p) s = on_stat stale_after p (s.phase p) s
step stale_after (remove p) s = on_remove p (s.phase p) s
step stale_after (create p) s = on_create p (s.phase p) s
step stale_after (fail p) s = on_fail p (s.phase p) s
step stale_after (release p) s = on_release p (s.phase p) s
step stale_after (wait n) s = record s { now = s.now + n }

unfoldable pub run : ℕ → List Action → State → State
run stale_after [] s = s
run stale_after (a ∷ actions) s = run stale_after actions (step stale_after a s)

-- No lock and nobody at work.
abbrev pub free : State
free = record { file = none; now = 0; phase = λ p. idle }
