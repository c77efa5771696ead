-- ===== src/Proc/Ordonnance.antt =====
-- ordonnance of kernel/proc.c as a whole: waking, then electing.
use projet_pcsea.Common.{
  ◌∙◌, ℕ, suc, ◌≡◌, refl, ◌≢◌, true, false, ==_ne, leb, Bool-cases, inl, inr, ◌⊎◌, none, List, [],
  ◌∷◌, mem, arith, sym,
}
use projet_pcsea.Common.Outcome.{Returns, Returns-mono}
use projet_pcsea.Queue.Spec.{mem-insert, insert-IsSorted, Distinct-insert}
use projet_pcsea.Proc.State.{Sched, with_suiv, prios}
use projet_pcsea.Proc.Activable.{prios-activated, prios-modify}
use projet_pcsea.Proc.Sleepers.{
  Sleepers, left, woken, wake_process-first, wake_process-none, wake_process-empty,
}
use projet_pcsea.Proc.Schedule.{ordonnance, elect}
use projet_pcsea.Proc.Elect.{Ready, Highest, Elected, elect-Elected}

prios-left : (x : ℕ) (xs : List ℕ) (s : Sched) → prios (left x xs s) ≡ prios s
unfolding with_suiv
prios-left x xs s = prios-modify (with_suiv none) x s (λ v. refl)

-- Waking a process keeps the order of the queue.
pub Ready-woken :
    (s : Sched) (a x : ℕ) (xs : List ℕ)
    → x ≢ a
    → mem x s.queue ≡ false
    → Ready s a
    → Ready (woken x xs s) a
Ready-woken s a x xs ne out r = record {
  runs = r.runs;
  sorted =
      rw (prios-activated x (left x xs s), prios-left x xs s)
        (insert-IsSorted (prios s) x s.queue r.sorted);
  distinct = Distinct-insert (prios (left x xs s)) x s.queue r.distinct out;
  out = rw (mem-insert (prios (left x xs s)) x a s.queue, ==_ne (λ h. ne (sym h))) r.out;
}

-- The first sleeper is neither running nor ready.
abbrev pub Apart : Sched → ℕ → List ℕ → Type 0
Apart s a [] = Unit {0}
Apart s a (x ∷ xs) = (x ≢ a) × (mem x s.queue ≡ false)

-- What ordonnance promises of the process that runs next.
pub record Ordered (s : Sched) (a : ℕ) (s' : Sched) : Type 0 where
  pub chosen : ℕ
  pub ready : Ready s' chosen
  pub highest : Highest s' chosen
  pub kept : (y : ℕ) → mem y s.queue ≡ true → (y ≡ chosen) ⊎ (mem y s'.queue ≡ true)
  pub same_prios : prios s' ≡ prios s

Ordered-elect : (s s' : Sched) (a : ℕ) → Elected s a s' → Ordered s a s'
Ordered-elect s s' a e = record {
  chosen = e.chosen;
  ready = e.ready;
  highest = e.highest;
  kept = e.kept;
  same_prios = e.same_prios;
}

Ordered-woken :
    (s s' : Sched) (a x : ℕ) (xs : List ℕ) → Elected (woken x xs s) a s' → Ordered s a s'
Ordered-woken s s' a x xs e = record {
  chosen = e.chosen;
  ready = e.ready;
  highest = e.highest;
  kept = λ y m. e.kept y (ground (arith, mem-insert (prios (left x xs s)) x y s.queue));
  same_prios = e.same_prios ∙ prios-activated x (left x xs s) ∙ prios-left x xs s;
}

-- ordonnance returns, and then no ready process has a higher priority than the one that runs.
-- Every process that was ready runs or is still ready, and no priority changes. This takes a queue in order, a proper list
-- of sleepers, and a first sleeper that is neither running nor ready.
pub ordonnance-Ordered :
    (fuel : ℕ) (s : Sched) (a : ℕ) (xs : List ℕ)
    → Ready s a
    → Sleepers s xs
    → Apart s a xs
    → Returns (Ordered s a) (ordonnance (suc (suc fuel)) s)
unfolding ordonnance
ordonnance-Ordered fuel s a [] r l p =
    rw (wake_process-empty (suc fuel) s l)
      (Returns-mono _ (elect s) (elect-Elected s a r) (λ s'. Ordered-elect s s' a))
ordonnance-Ordered fuel s a (x ∷ xs) r l p =
    elim (Bool-cases (leb (s.process x).time_to_wake s.nb_tick)) [
      | inl due ↦ rw (wake_process-first fuel s x xs l (ground arith) p.1).0 (
          Returns-mono _ (elect (woken x xs s))
            (elect-Elected (woken x xs s) a (Ready-woken s a x xs p.0 p.1 r))
            (λ s'. Ordered-woken s s' a x xs))
      | inr late ↦
          rw (wake_process-none (suc fuel) s x xs l (ground arith))
            (Returns-mono _ (elect s) (elect-Elected s a r) (λ s'. Ordered-elect s s' a))
    ]
