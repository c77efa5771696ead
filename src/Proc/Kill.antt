-- ===== src/Proc/Kill.antt =====
-- kill of kernel/proc.c, of a ready process and of a sleeper.
use mathlib.Core.Path.{subst}
use mathlib.Core.Bool.{false≢true}
use projet_pcsea.Common.{
  ℕ, ◌≤◌, ◌<◌, ◌≡◌, refl, ◌≢◌, Bool, true, false, ◌==◌, ==_ne, ltb, ◌||◌, inl, inr, if◌then◌else◌,
  some, none, List, mem, mem-ne, All-mono, arith, ap, sym, ◌∙◌, length,
}
use projet_pcsea.Common.Int.{ℤ, pos, minus_one}
use projet_pcsea.Common.Outcome.{ok, ◌>>=◌, Returns, Returns-bind}
use projet_pcsea.Queue.Spec.{remove, All-remove, mem-remove, remove-Distinct, remove-IsSorted}
use projet_pcsea.Queue.Keys.{IsSorted-same}
use projet_pcsea.Proc.State.{Sched, zombie, is_endormi, deref, ptr_eq, prios, with_state, set_state}
use projet_pcsea.Proc.Lists.{queue_del, sleep_del}
use projet_pcsea.Proc.Calls.{kill_other, kill_result, kill_from, kill}
use projet_pcsea.Proc.Sleepers.{Sleepers, IsChain-frame, head?}
use projet_pcsea.Proc.Sleep.Place.{times}
use projet_pcsea.Proc.Bury.{DeadOk}
use projet_pcsea.Proc.Args.{OwnPids, find_pid-mem}
use projet_pcsea.Proc.Delete.{Gone, sleep_del-Gone}
use projet_pcsea.Proc.System.{Settled, sleeper-out}

-- The state after the kill of a ready process.
abbrev pub killed : ℕ → Sched → Sched
killed p s = record (set_state zombie p s) { queue = remove p s.queue }

kill-other :
    (fuel p a : ℕ) (s : Sched)
    → 0 < p
    → p < 30
    → s.actif ≡ some a
    → a ≢ p
    → OwnPids s
    → kill fuel (pos p) s ≡ kill_other fuel p (if mem p s.queue then some p else none) s
unfolding kill kill_from
kill-other fuel p a s pos_pid lt runs ne own =
    let e : (ltb 29 p || (p == 0)) ≡ false = ground arith in
    let other : ((s.process a).pid == p) ≡ false = ap (λ q. q == p) (own a) ∙ ==_ne ne in
    rw e (
      subst
        (λ q.
          (do actif ← deref q; kill_from fuel p actif s)
          ≡ kill_other fuel p (if mem p s.queue then some p else none) s)
        (sym runs)
        (rw other (ap (λ q. kill_other fuel p q s) (find_pid-mem s.process p s.queue own))))

kill-killed :
    (fuel p a : ℕ) (s : Sched)
    → 0 < p
    → p < 30
    → s.actif ≡ some a
    → a ≢ p
    → OwnPids s
    → mem p s.queue ≡ true
    → kill fuel (pos p) s ≡ ok (pos 0, killed p s)
unfolding kill_other queue_del
kill-killed fuel p a s pos_pid lt runs ne own i =
    kill-other fuel p a s pos_pid lt runs ne own
    ∙ ap (λ b. kill_other fuel p (if b then some p else none) s) i
    ∙ rw i refl

kill_result-if :
    (b : Bool) → kill_result (if b then pos 0 else minus_one) ≡ (if b then pos 0 else minus_one)
kill_result-if true = refl
kill_result-if false = refl

-- kill of a sleeper takes it out of the list of sleepers and makes it dead; the result is 0 for the
-- first sleeper, and -1 for any other. Each process has its own index as pid, and the last of the
-- dead does not sleep.
pub kill-Gone :
    (fuel p a : ℕ) (xs : List ℕ) (s : Sched)
    → 0 < p
    → p < 30
    → s.actif ≡ some a
    → a ≢ p
    → OwnPids s
    → DeadOk s
    → Sleepers s xs
    → mem p xs ≡ true
    → mem p s.queue ≡ false
    → ((z : ℕ) → mem z xs ≡ true → s.dead_tail ≢ some z)
    → length xs < fuel
    → Returns {A = ℤ × Sched} (λ out. Gone xs p out.0 out.1) (kill fuel (pos p) s)
kill-Gone fuel p a xs s pos_pid lt runs ne own dk l i o out h =
    rw (kill-other fuel p a s pos_pid lt runs ne own, o)
      (unfold kill_other in
        Returns-bind _ (sleep_del fuel p s) _ (sleep_del-Gone fuel p xs s h own dk l i out)
          (λ (r, m) g. record {
            sleepers = g.sleepers;
            dead = g.dead;
            result = ap kill_result g.result ∙ kill_result-if (ptr_eq (head? xs) (some p));
          }))

module _ (p : ℕ) (xs : List ℕ) (s : Sched) (h : Settled s xs) (i : mem p s.queue ≡ true)
    (pos_pid : 0 < p) where
  not_running : h.running ≢ p
  not_running e = mem-ne p h.running s.queue i h.before.ready.out (sym e)

  states-killed : (y : ℕ) → y ≢ p → ((killed p s).process y).state ≡ (s.process y).state
  unfolding with_state
  states-killed y ne = ground arith

  kept-killed :
      (y : ℕ)
      → (((killed p s).process y).suiv ≡ (s.process y).suiv)
        × (times (killed p s) y ≡ times s y)
        × (prios (killed p s) y ≡ prios s y)
  unfolding with_state
  kept-killed y = ground arith

  mem-killed : (y : ℕ) → mem y (killed p s).queue ≡ (if y == p then false else mem y s.queue)
  mem-killed y = mem-remove p y s.queue h.before.ready.distinct

  Settled-killed : Settled (killed p s) xs
  Settled-killed =
      let b = h.before in
      let k = killed p s in
      let not_sleeping : (y : ℕ) → mem y xs ≡ true → y ≢ p = λ y j e.
        false≢true (sym (sleeper-out s h.running xs y b j) ∙ ap (λ z. mem z s.queue) e ∙ i) in
      record {
        running = h.running;
        before = record {
          ready = record {
            runs = b.ready.runs;
            sorted =
                IsSorted-same (prios s) (prios k) k.queue (λ y j. (kept-killed y).2)
                  (remove-IsSorted (prios s) p s.queue b.ready.sorted);
            distinct = remove-Distinct p s.queue b.ready.distinct;
            out = ground (arith, mem-killed h.running, b.ready.out);
          };
          sleepers = record {
            chain =
                IsChain-frame s.process k.process s.endormi_list xs (λ y j. (kept-killed y).0)
                  b.sleepers.chain;
            tail = b.sleepers.tail;
            distinct = b.sleepers.distinct;
          };
          waking = IsSorted-same (times s) (times k) xs (λ y j. (kept-killed y).1) b.waking;
          asleep = λ y j. ap is_endormi (states-killed y (not_sleeping y j)) ∙ b.asleep y j;
          awake = λ y j.
              let y_ne : y ≢ p = ground (arith, mem-killed y) in
              ap is_endormi (states-killed y y_ne) ∙ b.awake y (ground (arith, mem-killed y));
          idle = elim b.idle [
            | inl (z, w) ↦ inl (z, ap is_endormi (states-killed h.running not_running) ∙ w)
            | inr m ↦ inr (mem-killed 0 ∙ ground arith)
          ];
          later = λ j. absurd (false≢true (sym h.running_awake ∙ b.asleep h.running j));
        };
        running_awake = ap is_endormi (states-killed h.running not_running) ∙ h.running_awake;
        highest =
            All-mono _ _ k.queue
              (λ y j m. omega (arith, (kept-killed y).2, (kept-killed h.running).2))
              (All-remove (λ y. prios s y ≤ prios s h.running) p s.queue h.highest);
      }

-- kill of a ready process other than process 0 gives 0: the process is a zombie and no longer in the
-- queue, and the scheduler is settled as before. Each process has its own index as pid.
pub kill-Settled :
    (fuel p : ℕ) (xs : List ℕ) (s : Sched)
    → 0 < p
    → p < 30
    → OwnPids s
    → Settled s xs
    → mem p s.queue ≡ true
    → Returns {A = ℤ × Sched}
        (λ out.
          (out.0 ≡ pos 0)
          × ((out.1.process p).state ≡ zombie)
          × (mem p out.1.queue ≡ false)
          × Settled out.1 xs)
        (kill fuel (pos p) s)
unfolding with_state
kill-Settled fuel p xs s pos_pid lt own h i =
    rw
      (kill-killed fuel p h.running s pos_pid lt h.before.ready.runs
        (not_running p xs s h i pos_pid) own i)
      (
        refl,
        ground arith,
        ground (arith, mem-killed p xs s h i pos_pid p),
        Settled-killed p xs s h i pos_pid,
      )
