-- ===== src/Proc/Wait.antt =====
-- waitpid of kernel/proc.c. While it waits, interrupts come in at test_it, and other processes run
-- from the call of ordonnance in chprio on: `others n` is what they do to the system at the n-th such
-- point, a parameter.
use projet_pcsea.Common.{
  ℕ, zero, suc, ◌+◌, Bool, true, false, ◌==◌, ltb, ◌&&◌, if◌then◌else◌, Option, none, some,
}
use projet_pcsea.Common.Int.{ℤ, pos, negsuc, minus_one}
use projet_pcsea.Common.Outcome.{Outcome, ok, fault, out_of_fuel, ◌>>=◌}
use projet_pcsea.Proc.State.{
  Ptr, is_zombie, is_mort, Process, Sched, deref, is_null, ptr_eq, set_retval_fils,
}
use projet_pcsea.Proc.Lists.{insert_mort}
use projet_pcsea.Proc.Calls.{number, getprio, chprio}

abbrev pub is_negative : ℤ → Bool
is_negative (pos n) = false
is_negative (negsuc n) = true

-- Is the pid among those of the children, from `tmp` on, and not that of a dead one?
unfoldable pub find_child : ℕ → (ℕ → Process) → ℕ → Ptr → Outcome Bool
find_child zero process pid tmp = out_of_fuel
find_child (suc fuel) process pid none = ok false
find_child (suc fuel) process pid (some p) =
    let later = find_child fuel process pid (process p).frere_droit in
    if ((process p).pid == pid) && is_mort (process p).state
    then ok false
    else if (process p).pid == pid
    then ok true
    else if ptr_eq (some p) (process p).frere_droit
    then ok false
    else later

-- Does waitpid wait for this child? Any one, or that of the pid.
abbrev pub wanted : ℤ → ℕ → Bool
wanted (pos n) pid = pid == n
wanted (negsuc n) pid = n == 0

-- Is the pid that of the one child that waitpid waits for?
abbrev pub is_only : ℤ → ℕ → Bool
is_only (pos n) pid = pid == n
is_only (negsuc n) pid = false

-- One more, as `int`.
abbrev pub succ_int : ℤ → ℤ
succ_int (pos n) = pos (n + 1)
succ_int (negsuc zero) = pos 0
succ_int (negsuc (suc n)) = negsuc n

-- The brother on the right, or the first child again.
abbrev pub next_child : ℕ → ℕ → Sched → Ptr
next_child actif fils s =
    if is_null (s.process fils).frere_droit
    then (s.process actif).premier_fils
    else (s.process fils).frere_droit

module _ (others : ℕ → Sched → Sched) where
  -- A father of higher priority than the child that it waits for lifts the child's by one.
  unfoldable pub lift : ℕ → ℕ → ℤ → ℕ → ℕ → Sched → Outcome Sched
  lift fuel n param actif fils s =
      if is_only param (s.process fils).pid && ltb (s.process fils).prio (s.process actif).prio
      then (do
        old ← getprio fuel param s
        (r, s1) ← chprio fuel param (succ_int old) s
        ok (others n s1))
      else ok s

  -- The loop of pid_dun_fils_termine; `n` counts the points at which others have run.
  unfoldable pub wait_loop : ℕ → ℕ → ℤ → ℕ → Ptr → Sched → Outcome (ℕ × Sched)
  unfolding lift insert_mort
  wait_loop zero n param actif fils s = out_of_fuel
  wait_loop (suc fuel) n param actif none s = fault
  wait_loop (suc fuel) n param actif (some fils) s =
      let s1 = others n s in
      let found = (do
        let s2 = set_retval_fils (s1.process fils).retval actif s1
        s3 ← insert_mort fils s2
        ok ((s1.process fils).pid, s3)) in
      let on = (do
        next ← deref (next_child actif fils s1)
        s2 ← lift fuel (n + 1) param actif next s1
        wait_loop fuel (n + 2) param actif (some next) s2) in
      if is_zombie (s1.process fils).state && wanted param (s1.process fils).pid then found else on

  unfoldable pub pid_dun_fils_termine : ℕ → ℤ → Sched → Outcome (ℕ × Sched)
  unfolding wait_loop
  pid_dun_fils_termine fuel param s = do
    actif ← deref s.actif
    wait_loop fuel 0 param actif (s.process actif).premier_fils s

  -- The wait itself; for pid 0 there is none.
  unfoldable pub wait_for : ℕ → ℤ → Sched → Outcome (ℤ × Sched)
  unfolding pid_dun_fils_termine
  wait_for fuel (negsuc n) s = do (p, s1) ← pid_dun_fils_termine fuel minus_one s; ok (pos p, s1)
  wait_for fuel (pos zero) s = ok (minus_one, s)
  wait_for fuel (pos (suc n)) s = do
    (p, s1) ← pid_dun_fils_termine fuel (pos (suc n)) s
    ok (pos p, s1)

  -- What waitpid does once it has a child to wait for: the result and what goes through `retvalp`. A
  -- value to write faults if `retvalp` is NULL.
  unfoldable pub collect : ℕ → ℤ → Bool → Sched → Outcome (ℤ × Option ℤ × Sched)
  unfolding wait_for
  collect fuel pid has_retvalp s = do
    (r, s1) ← wait_for fuel pid s
    actif ← deref s1.actif
    elim (s1.process actif).retval_fils [
      | none ↦ ok (r, none, s1)
      | some v ↦ if has_retvalp then ok (r, some v, set_retval_fils none actif s1) else fault
    ]

  unfoldable pub waitpid : ℕ → ℤ → Bool → Sched → Outcome (ℤ × Option ℤ × Sched)
  unfolding find_child collect
  waitpid fuel pid has_retvalp s = do
    actif ← deref s.actif
    let first = (s.process actif).premier_fils
    found ←
        (if is_negative pid
          then ok (if is_null first then false else true)
          else find_child fuel s.process (number pid) first)
    if found then collect fuel pid has_retvalp s else ok (minus_one, none, s)
