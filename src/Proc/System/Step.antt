-- ===== src/Proc/System/Step.antt =====
-- Runs of the system: ticks of the clock, and calls that processes make, one after the other.
use mathlib.Core.Bool.{false≢true}
use projet_pcsea.Common.{
  ℕ, ◌+◌, ◌%◌, ◌^◌, ◌≤◌, ◌<◌, Bool, none, some, ◌≡◌, false, ◌==◌, Bool-cases, inl, inr, List, [],
  ◌∷◌, mem, arith, sym, ◌∙◌, length,
}
use projet_pcsea.Common.Int.{pos}
use projet_pcsea.Common.Outcome.{Outcome, Yields, ok, ◌>>=◌}
use projet_pcsea.Proc.State.{Ptr, Sched, deref}
use projet_pcsea.Proc.Schedule.{ordonnance, sleep_until}
use projet_pcsea.Proc.Calls.{chprio}
use projet_pcsea.Proc.System.{Settled}
use projet_pcsea.Proc.System.Wake.{After}

-- A tick of the clock; a sleep of the running process until a tick, by sleep_until; a change of its own
-- priority.
pub data Call : Type 0 where
  tick : Call
  sleep : ℕ → Call
  priority : ℕ → Call

-- The part of tic_PIT_CLOCK that concerns the scheduler.
unfoldable pub do_tick : ℕ → Sched → Outcome Sched
unfolding ordonnance
do_tick fuel s = ordonnance fuel (record s { nb_tick = (s.nb_tick + 1) % 2 ^ 32 })

-- `chprio(getpid(), n)`
unfoldable pub do_priority : ℕ → ℕ → Sched → Outcome Sched
unfolding chprio
do_priority fuel n s = do
  actif ← deref s.actif
  (r, s1) ← chprio fuel (pos (s.process actif).pid) (pos n) s
  ok s1

unfoldable pub do_call : ℕ → Call → Sched → Outcome Sched
unfolding do_tick sleep_until do_priority
do_call fuel tick s = do_tick fuel s
do_call fuel (sleep t) s = sleep_until fuel t s
do_call fuel (priority n) s = do_priority fuel n s

unfoldable pub run : ℕ → List Call → Sched → Outcome Sched
unfolding do_call
run fuel [] s = ok s
run fuel (c ∷ cs) s = do s1 ← do_call fuel c s; run fuel cs s1

abbrev pub is_idle : Ptr → Bool
is_idle none = false
is_idle (some p) = p == 0

-- Process 0, which is idle, does not sleep, and the others sleep until a tick to come.
abbrev pub Fits : Call → Sched → Type 0
Fits tick s = Unit {0}
Fits (sleep t) s = (is_idle s.actif ≡ false) × (s.nb_tick < t) × (t < 2 ^ 32)
Fits (priority n) s = Unit {0}

-- Each call of the run is one that fits the state in which it is made.
abbrev pub AllFit : ℕ → List Call → Sched → Type 0
AllFit fuel [] s = Unit {0}
AllFit fuel (c ∷ cs) s = Fits c s × Yields (λ s1. AllFit fuel cs s1) (do_call fuel c s)

-- A settled state, with at most `n` sleepers.
pub record Good (n : ℕ) (s : Sched) : Type 0 where
  pub sleepers : List ℕ
  pub few : length sleepers ≤ n
  pub settled : Settled s sleepers

pub After-Good : (n : ℕ) (xs : List ℕ) (s : Sched) → length xs ≤ n → After xs s → Good n s
After-Good n xs s h a = record {
  sleepers = a.sleepers;
  few = omega (arith, a.fewer);
  settled = a.settled;
}

-- The running process is not among the sleepers.
pub running-awake : (s : Sched) (xs : List ℕ) (h : Settled s xs) → mem h.running xs ≡ false
running-awake s xs h = elim (Bool-cases (mem h.running xs)) [
  | inl m ↦ absurd (false≢true (sym h.running_awake ∙ h.before.asleep h.running m))
  | inr o ↦ o
]
