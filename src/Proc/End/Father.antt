-- ===== src/Proc/End/Father.antt =====
-- fin_processus of kernel/proc.c as a whole, for a process with a father.
use mathlib.Core.Path.{subst}
use projet_pcsea.Common.{
  ℕ, suc, ◌+◌, ◌-◌, ◌%◌, ◌^◌, ◌<◌, ◌≡◌, refl, ◌≢◌, true, false, some, none, List, ◌∷◌, mem, mem-ne,
  Distinct, arith, ap, sym, ◌∙◌, length,
}
use projet_pcsea.Common.Int.{pos}
use projet_pcsea.Common.Outcome.{ok, ◌>>=◌, Returns, Returns-bind}
use projet_pcsea.Queue.Spec.{last, rest}
use projet_pcsea.Proc.State.{
  Ptr, Sched, zombie, is_zombie, deref, with_suiv, with_state, set_suiv, set_state,
  with_pid_ret_fils, set_pid_ret_fils,
}
use projet_pcsea.Proc.Activable.{extract_activable_lem}
use projet_pcsea.Proc.Schedule.{orphan_loop, unlink_loop, leave, mark, fin_from, fin_processus}
use projet_pcsea.Proc.Bury.{DeadOk, Kept}
use projet_pcsea.Proc.End.{
  Orphaned, AreBrothers, after_zombie, orphan_loop-Orphaned, AreBrothers-frame,
}

-- What fin_processus leaves: the process is a zombie, its children have no father, the zombies among
-- them are dead, one process fewer is alive, and the last of the queue runs. The lists of children, the
-- values, the pids and the states of all others stay.
pub record Ended (s : Sched) (a x : ℕ) (xs cs : List ℕ) (s' : Sched) : Type 0 where
  pub zombie_now : (s'.process a).state ≡ zombie
  pub children :
      (c : ℕ)
      → mem c cs ≡ true
      → ((s'.process c).pere ≡ none) × ((s'.process c).state ≡ after_zombie (s.process c).state)
  pub runs : s'.actif ≡ some (last x xs)
  pub queue : s'.queue ≡ rest (x ∷ xs)
  pub alive : s'.process_alive + 1 ≡ s.process_alive
  pub others : (y : ℕ) → mem y cs ≡ false → y ≢ a → (s'.process y).state ≡ (s.process y).state
  pub kept : (y : ℕ) → Kept (s.process y) (s'.process y)
  pub dead_ok : DeadOk s'

-- The state in which the loop over the children starts.
abbrev ending : ℕ → ℕ → Sched → Sched
ending a f s =
    set_pid_ret_fils (pos ((set_state zombie a s).process a).pid) f (set_state zombie a s)

unlink_loop-zombie :
    (fuel a : ℕ) (p : Ptr) (s : Sched)
    → is_zombie (s.process a).state ≡ true
    → unlink_loop (suc fuel) a none p s ≡ ok s
unfolding unlink_loop
unlink_loop-zombie fuel a none s z = refl
unlink_loop-zombie fuel a (some c) s z = rw z

leave_lem :
    (a x : ℕ) (xs : List ℕ) (s : Sched)
    → s.queue ≡ x ∷ xs
    → let k = last x xs in
      leave a s
      ≡ ok (record (set_suiv none k s) {
        actif = some k;
        queue = rest (x ∷ xs);
        process_alive = (s.process_alive + 2 ^ 32 - 1) % 2 ^ 32;
        switches = ((s.process a).pid, ((set_suiv none k s).process k).pid) ∷ s.switches;
      })
unfolding leave
leave_lem a x xs s q = rw (extract_activable_lem s x xs q, leave)

module _ (fuel a f x : ℕ) (xs cs : List ℕ) (s : Sched) (runs : s.actif ≡ some a)
    (father : (s.process a).pere ≡ some f) (own : mem a cs ≡ false) (d : Distinct cs) (k : DeadOk s)
    (b : AreBrothers s.process (s.process a).premier_fils cs) (q : s.queue ≡ x ∷ xs)
    (h : length cs < suc fuel) (n : 0 < s.process_alive) (w : s.process_alive < 2 ^ 32) where
  abbrev s0 : Sched
  s0 = ending a f s

  -- The fields of the processes that the branch does not change.
  same_fields :
      (y : ℕ)
      → ((s0.process y).pere ≡ (s.process y).pere)
        × ((s0.process y).frere_droit ≡ (s.process y).frere_droit)
        × ((s0.process y).premier_fils ≡ (s.process y).premier_fils)
  unfolding with_pid_ret_fils with_state
  same_fields y = ground arith

  is_zombie_now : (s0.process a).state ≡ zombie
  unfolding with_pid_ret_fils with_state
  is_zombie_now = ground arith

  states : (y : ℕ) → y ≢ a → (s0.process y).state ≡ (s.process y).state
  unfolding with_pid_ret_fils with_state
  states y ne = ground arith

  ending-Kept : (y : ℕ) → Kept (s.process y) (s0.process y)
  unfolding with_pid_ret_fils with_state
  ending-Kept y = ground arith

  fin_rest :
      (m : Sched)
      → Orphaned s0 cs m
      → Returns (Ended s a x xs cs) (do
        pere ← deref (m.process a).pere
        s2 ← unlink_loop (suc fuel) a none (m.process pere).premier_fils m
        leave a s2)
  unfolding with_suiv
  fin_rest m o =
      let z : (m.process a).state ≡ zombie = (o.others a own).1 ∙ is_zombie_now in
      rw
        (
          (o.others a own).0 ∙ (same_fields a).0 ∙ father,
          unlink_loop-zombie fuel a (m.process f).premier_fils m (ap is_zombie z),
          leave_lem a x xs m (o.queue ∙ q),
        )
        (record {
          zombie_now = ground arith;
          children = λ c i. (
            ground (arith, (o.children c i).0),
            ground (arith, (o.children c i).1, states c (mem-ne c a cs i own)),
          );
          runs = refl;
          queue = refl;
          alive = ground (arith, o.alive);
          others = λ y i ne. ground (arith, (o.others y i).1, states y ne);
          kept = λ y. ground (arith, o.kept y, ending-Kept y);
          dead_ok = o.dead_ok;
        })

  -- fin_processus returns, where the process has a father and another process is ready: the process
  -- is a zombie, its children have no father, the zombies among them are dead, one process fewer is
  -- alive, and the last process of the queue has left it and runs. The children form a proper list
  -- without the process itself, with fewer elements than the loop has rounds; the list of the dead has a
  -- tail wherever it has a head, and the count of living processes is not 0 and fits its word.
  pub fin_processus-Ended : Returns (Ended s a x xs cs) (fin_processus (suc fuel) s)
  unfolding fin_processus fin_from mark
  fin_processus-Ended =
      subst
        (λ p. Returns (Ended s a x xs cs) (do
          actif ← deref p
          s1 ← mark (s.process actif).pere actif s
          fin_from (suc fuel) actif s1))
        (sym runs)
        (rw father (
          Returns-bind _ (orphan_loop (suc fuel) (s0.process a).premier_fils s0) _
            (orphan_loop-Orphaned (suc fuel) (s0.process a).premier_fils s0 cs h d k (
              subst (λ r. AreBrothers s0.process r cs) (sym (same_fields a).2)
                (AreBrothers-frame s.process s0.process _ cs (λ y. (same_fields y).1) b)))
            fin_rest))
