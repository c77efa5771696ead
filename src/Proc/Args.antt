-- ===== src/Proc/Args.antt =====
-- The arguments that the system calls of kernel/proc.c refuse, and what getprio answers.
use mathlib.Core.Path.{subst}
use projet_pcsea.Common.{
  ℕ, zero, suc, ◌≤◌, ◌<◌, ◌≡◌, refl, Bool, true, false, ◌==◌, ==_iff, ltb, ◌||◌, Bool-cases, inl,
  inr, if◌then◌else◌, some, none, List, [], ◌∷◌, mem, arith, ap, sym, length,
}
use projet_pcsea.Common.Int.{ℤ, pos, negsuc, minus_one}
use projet_pcsea.Common.Outcome.{ok, ◌>>=◌}
use projet_pcsea.Proc.State.{Ptr, Process, Sched, deref, prios, to_int}
use projet_pcsea.Proc.Calls.{
  bad_pid, bad_prio, is_pid_valid, kill, getprio, getprio_from, getprio_other, chprio, find_pid,
  find_sleeper,
}
use projet_pcsea.Proc.Sleepers.{Sleepers, IsChain}

chprio-bad :
    (fuel : ℕ) (pid newprio : ℤ) (s : Sched)
    → bad_prio newprio ≡ true
    → chprio fuel pid newprio s ≡ ok (minus_one, s)
unfolding chprio
chprio-bad fuel pid newprio s h = elim (Bool-cases (bad_pid pid)) [
  | inl e ↦ rw e
  | inr e ↦ rw (e, h)
]

-- A pid outside the table is refused by every call, and nothing changes: -1 from kill, getprio and
-- chprio, false from is_pid_valid. So are a negative pid, pid 0 by kill, and a new priority that is
-- not from 1 to MAX_PRIO by chprio.
pub calls-refuse :
    (fuel n p : ℕ) (x : ℤ) (s : Sched)
    → 30 ≤ n
    → 256 < p
    → (kill fuel (pos n) s ≡ ok (minus_one, s))
      × (getprio fuel (pos n) s ≡ ok minus_one)
      × (chprio fuel (pos n) x s ≡ ok (minus_one, s))
      × (is_pid_valid (pos n) s ≡ ok false)
      × (kill fuel (negsuc n) s ≡ ok (minus_one, s))
      × (getprio fuel (negsuc n) s ≡ ok minus_one)
      × (chprio fuel (negsuc n) x s ≡ ok (minus_one, s))
      × (is_pid_valid (negsuc n) s ≡ ok false)
      × (kill fuel (pos 0) s ≡ ok (minus_one, s))
      × (chprio fuel x (pos p) s ≡ ok (minus_one, s))
      × (chprio fuel x (pos 0) s ≡ ok (minus_one, s))
      × (chprio fuel x (negsuc p) s ≡ ok (minus_one, s))
unfolding kill getprio chprio is_pid_valid bad_prio
calls-refuse fuel n p x s h hp =
    let e : ltb 29 n ≡ true = ground arith in
    (
      rw e,
      rw e,
      rw e,
      rw e,
      refl,
      refl,
      refl,
      refl,
      refl,
      chprio-bad fuel x (pos p) s (ground arith),
      chprio-bad fuel x (pos 0) s refl,
      chprio-bad fuel x (negsuc p) s refl,
    )

-- Each process has the pid that is its index.
abbrev pub OwnPids : Sched → Type 0
OwnPids s = (p : ℕ) → (s.process p).pid ≡ p

pub find_pid-mem :
    (f : ℕ → Process) (p : ℕ) (xs : List ℕ)
    → ((q : ℕ) → (f q).pid ≡ q)
    → find_pid f p xs ≡ (if mem p xs then some p else none)
unfolding find_pid
find_pid-mem f p [] own = refl
find_pid-mem f p (x ∷ xs) own = ground (arith, own x, find_pid-mem f p xs own)

find_sleeper-mem :
    (fuel : ℕ) (f : ℕ → Process) (p : ℕ) (r : Ptr) (xs : List ℕ)
    → length xs < fuel
    → ((q : ℕ) → (f q).pid ≡ q)
    → IsChain f r xs
    → find_sleeper fuel f p r ≡ ok (if mem p xs then some p else none)
unfolding find_sleeper
find_sleeper-mem zero f p r xs h own c = absurd (omega arith)
find_sleeper-mem (suc fuel) f p r [] h own c =
    subst (λ q. find_sleeper (suc fuel) f p q ≡ ok none) (sym c) refl
find_sleeper-mem (suc fuel) f p r (x ∷ xs) h own c =
    subst (λ q. find_sleeper (suc fuel) f p q ≡ ok (if mem p (x ∷ xs) then some p else none))
      (sym c.0)
      (elim (Bool-cases (x == p)) [
        | inl hit ↦ ground (arith, own x)
        | inr miss ↦
            ground (arith, own x, find_sleeper-mem fuel f p (f x).suiv xs (omega arith) own c.1)
      ])

getprio_other_lem :
    (fuel p : ℕ) (s : Sched) (xs : List ℕ) (b : Bool)
    → OwnPids s
    → Sleepers s xs
    → length xs < fuel
    → getprio_other fuel p (if b then some p else none) s
      ≡ ok (if b || mem p xs then to_int (prios s p) else minus_one)
unfolding getprio_other
getprio_other_lem fuel p s xs true own l h = refl
getprio_other_lem fuel p s xs false own l h =
    rw (find_sleeper-mem fuel s.process p s.endormi_list xs h own l.chain)
      (elim (Bool-cases (mem p xs)) [ inl m ↦ rw m | inr m ↦ rw m ])

getprio_from_lem :
    (fuel a p : ℕ) (s : Sched) (xs : List ℕ)
    → OwnPids s
    → Sleepers s xs
    → length xs < fuel
    → getprio_from fuel p a s
      ≡ ok (if a == p || mem p s.queue || mem p xs then to_int (prios s p) else minus_one)
unfolding getprio_from
getprio_from_lem fuel a p s xs own l h =
    rw (own a, find_pid-mem s.process p s.queue own)
      (elim (Bool-cases (a == p)) [
        | inl e ↦ rw e (ap (λ q. ok (to_int (s.process q).prio)) ((==_iff a p).0 e))
        | inr e ↦ rw e (getprio_other_lem fuel p s xs (mem p s.queue) own l h)
      ])

-- getprio gives the priority of the running process, of a ready one and of a sleeper, and -1 for any
-- other pid, where each process has its own index as pid and the loop has more rounds than there are
-- sleepers.
pub getprio_lem :
    (fuel a p : ℕ) (s : Sched) (xs : List ℕ)
    → p < 30
    → s.actif ≡ some a
    → OwnPids s
    → Sleepers s xs
    → length xs < fuel
    → getprio fuel (pos p) s
      ≡ ok (if a == p || mem p s.queue || mem p xs then to_int (prios s p) else minus_one)
unfolding getprio
getprio_lem fuel a p s xs lt runs own l h =
    let e : ltb 29 p ≡ false = ground arith in
    rw e (
      subst
        (λ q.
          (do actif ← deref q; getprio_from fuel p actif s)
          ≡ ok (if a == p || mem p s.queue || mem p xs then to_int (prios s p) else minus_one))
        (sym runs) (getprio_from_lem fuel a p s xs own l h))
