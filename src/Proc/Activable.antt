-- ===== src/Proc/Activable.antt =====
-- What insert_activable and extract_activable of kernel/proc.c do to the queue and the table.
use mathlib.Core.Path.{fun_ext}
use projet_pcsea.Common.{ℕ, ◌≡◌, refl, if◌then◌else◌, some, none, List, ◌∷◌, mem, arith, ap, ◌∙◌}
use projet_pcsea.Common.Outcome.{ok, fault}
use projet_pcsea.Queue.Spec.{insert, rest, last}
use projet_pcsea.Proc.State.{
  Process, activable, Sched, modify, set_state, with_state, with_suiv, set_suiv, prios,
}
use projet_pcsea.Proc.Lists.{queue_add, insert_activable, extract_activable}

-- A change of a process that keeps its priority keeps the priorities.
pub prios-modify :
    (f : Process → Process) (p : ℕ) (s : Sched)
    → ((v : Process) → (f v).prio ≡ v.prio)
    → prios (modify f p s) ≡ prios s
prios-modify f p s h = fun_ext λ q. ground (arith, h (s.process q))

-- The state after insert_activable.
abbrev pub activated : ℕ → Sched → Sched
activated e s = record (set_suiv none e (set_state activable e s)) {
  queue = insert (prios s) e s.queue;
}

pub prios-activated : (e : ℕ) (s : Sched) → prios (activated e s) ≡ prios s
unfolding with_state with_suiv
prios-activated e s =
    prios-modify (with_suiv none) e (set_state activable e s) (λ v. refl)
    ∙ prios-modify (with_state activable) e s (λ v. refl)

-- insert_activable puts a process into the queue by its priority; one that is in it already makes
-- the assertion of queue_add fail.
pub insert_activable_lem :
    (e : ℕ) (s : Sched)
    → insert_activable e s ≡ (if mem e s.queue then fault else ok (activated e s))
unfolding insert_activable queue_add
insert_activable_lem e s =
    ap
      (λ f.
        if mem e s.queue
        then fault
        else ok (record (set_suiv none e (set_state activable e s)) { queue = insert f e s.queue }))
      (prios-activated e s)

-- extract_activable takes the last process of the queue.
pub extract_activable_lem :
    (s : Sched) (x : ℕ) (xs : List ℕ)
    → s.queue ≡ x ∷ xs
    → extract_activable s
      ≡ (some (last x xs), set_suiv none (last x xs) (record s { queue = rest (x ∷ xs) }))
unfolding extract_activable
extract_activable_lem s x xs h = rw h
