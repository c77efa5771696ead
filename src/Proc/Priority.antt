-- ===== src/Proc/Priority.antt =====
-- chprio of kernel/proc.c for the process that runs.
use projet_pcsea.Common.{
  ℕ, suc, ◌≤◌, ◌<◌, ◌≡◌, refl, true, false, ◌==◌, ltb, ◌||◌, some, List, [], ◌∷◌, mem-ne, arith, ap,
  ◌∙◌,
}
use projet_pcsea.Common.Int.{ℤ, pos}
use projet_pcsea.Common.Outcome.{ok, ◌>>=◌, Returns, Returns-bind}
use projet_pcsea.Queue.Keys.{IsSorted-same}
use projet_pcsea.Proc.State.{Sched, deref, prios, to_int, set_prio, with_prio}
use projet_pcsea.Proc.Schedule.{ordonnance}
use projet_pcsea.Proc.Calls.{chprio, chprio_from}
use projet_pcsea.Proc.Sleepers.{Sleepers, IsChain-frame}
use projet_pcsea.Proc.Elect.{Ready}
use projet_pcsea.Proc.Ordonnance.{Apart, Ordered, ordonnance-Ordered}

pub Ready-set_prio : (n a : ℕ) (s : Sched) → Ready s a → Ready (set_prio n a s) a
unfolding with_prio
Ready-set_prio n a s r = record {
  runs = r.runs;
  sorted =
      IsSorted-same (prios s) (prios (set_prio n a s)) s.queue
        (λ y m. ground (arith, mem-ne y a s.queue m r.out)) r.sorted;
  distinct = r.distinct;
  out = r.out;
}

pub Sleepers-set_prio :
    (n a : ℕ) (s : Sched) (xs : List ℕ) → Sleepers s xs → Sleepers (set_prio n a s) xs
unfolding with_prio
Sleepers-set_prio n a s xs l = record {
  chain =
      IsChain-frame s.process (set_prio n a s).process s.endormi_list xs (λ y h. ground arith)
        l.chain;
  tail = l.tail;
  distinct = l.distinct;
}

Apart-set_prio : (n a : ℕ) (s : Sched) (xs : List ℕ) → Apart s a xs → Apart (set_prio n a s) a xs
Apart-set_prio n a s [] h = tt
Apart-set_prio n a s (x ∷ xs) h = h

pub running :
    (fuel p n a : ℕ) (s : Sched)
    → s.actif ≡ some a
    → (s.process a).pid ≡ p
    → p < 30
    → 1 ≤ n
    → n ≤ 256
    → chprio fuel (pos p) (pos n) s
      ≡ (ordonnance fuel (set_prio n a s) >>= λ s2. ok (to_int (s.process a).prio, s2))
unfolding chprio chprio_from
running fuel p n a s runs own small low high =
    let e : ltb 29 p ≡ false = ground arith in
    let e1 : (ltb n 1 || ltb 256 n) ≡ false = ground arith in
    let e2 : ((s.process a).pid == p) ≡ true = ground arith in
    rw (e, e1)
      (ap
          (λ q. deref q >>= λ actif.
            chprio_from fuel p n actif s >>= λ out. ordonnance fuel out.1 >>= λ s2. ok (out.0, s2))
          runs
        ∙ rw e2 refl)

prio-set_prio : (n a : ℕ) (s : Sched) → ((set_prio n a s).process a).prio ≡ n
unfolding with_prio
prio-set_prio n a s = ground arith

-- chprio of the running process to a priority from 1 to MAX_PRIO returns its old priority. The
-- process has the new one then, and all others keep theirs; no ready process is above the one that
-- runs, and every ready process stays ready or runs. This takes what ordonnance does: a queue in order, a proper list of
-- sleepers, and a first sleeper that is neither running nor ready.
pub chprio-Ordered :
    (fuel p n a : ℕ) (s : Sched) (xs : List ℕ)
    → Ready s a
    → (s.process a).pid ≡ p
    → p < 30
    → 1 ≤ n
    → n ≤ 256
    → Sleepers s xs
    → Apart s a xs
    → Returns {A = ℤ × Sched}
        (λ out.
          (out.0 ≡ to_int (s.process a).prio)
          × ((out.1.process a).prio ≡ n)
          × Ordered (set_prio n a s) a out.1)
        (chprio (suc (suc fuel)) (pos p) (pos n) s)
chprio-Ordered fuel p n a s xs r own small low high l apart =
    rw (running (suc (suc fuel)) p n a s r.runs own small low high) (
      Returns-bind _ (ordonnance (suc (suc fuel)) (set_prio n a s)) _
        (ordonnance-Ordered fuel (set_prio n a s) a xs (Ready-set_prio n a s r)
          (Sleepers-set_prio n a s xs l) (Apart-set_prio n a s xs apart))
        (λ s2 o. (refl, ap (λ f. f a) o.same_prios ∙ prio-set_prio n a s, o)))
