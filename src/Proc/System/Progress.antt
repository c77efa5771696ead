-- ===== src/Proc/System/Progress.antt =====
-- How long the sleepers of kernel/proc.c wait once their time has come.
use projet_pcsea.Common.{
  ℕ, ◌==◌, ==_iff, Bool-cases, inl, inr, ◌⊎◌, mem, true, some, sym, ◌∙◌, suc, ◌+◌, ◌%◌, ◌^◌, ◌≤◌,
  ◌<◌, ◌≡◌, List, [], ◌∷◌, All, All-mono, arith, length, replicate,
}
use projet_pcsea.Common.Outcome.{Returns, Returns-bind, Returns-mono}
use mathlib.Core.Path.{subst}
use mathlib.Core.Bool.{false≢true}
use projet_pcsea.Proc.State.{Sched}
use projet_pcsea.Proc.Sleep.Place.{times}
use projet_pcsea.Proc.Schedule.{ordonnance}
use projet_pcsea.Proc.System.{Settled}
use projet_pcsea.Proc.System.Wake.{Up, ordonnance-rest}
use projet_pcsea.Proc.System.Step.{tick, do_call, do_tick, run}
use projet_pcsea.Proc.System.Calls.{Before-tick}

injective : {a b : ℕ} → some a ≡ some b → a ≡ b
injective e = cc

-- One tick, for the process y: what holds of it once the others have been woken.
step :
    (s s' : Sched) (x : ℕ) (xs : List ℕ) (y : ℕ) {a : ℕ} {P : Type 0}
    → s.actif ≡ some a
    → Up s' x
    → ((z : ℕ) → mem z s.queue ≡ true → Up s' z)
    → Up s' a
    → ((mem y xs ≡ true) ⊎ Up s' y → P)
    → (mem y (x ∷ xs) ≡ true) ⊎ Up s y
    → P
step s s' x xs y runs first ready self all (inl i) = elim (Bool-cases (y == x)) [
  | inl e ↦ all (inr (subst (Up s') (sym ((==_iff y x).0 e)) first))
  | inr e ↦ all (inl (ground arith))
]
step s s' x xs y runs first ready self all (inr (inl r)) =
    all (inr (subst (Up s') (injective (sym runs ∙ r)) self))
step s s' x xs y runs first ready self all (inr (inr m)) = all (inr (ready y m))

-- From a settled state, sleepers whose time has come are all awake after as many ticks as there are of
-- them: each of them runs or is ready, as does every process that ran or was ready before; the list of
-- sleepers is empty, and the state is settled. The counter of ticks does not wrap around meanwhile.
pub ticks-Up :
    (fuel : ℕ) (s : Sched) (xs : List ℕ)
    → Settled s xs
    → All (λ y. times s y ≤ s.nb_tick) xs
    → s.nb_tick + length xs < 2 ^ 32
    → Returns
        (λ s'. Settled s' [] × ((y : ℕ) → (mem y xs ≡ true) ⊎ Up s y → Up s' y))
        (run (suc (suc fuel)) (replicate (length xs) tick) s)
unfolding run do_call do_tick
ticks-Up fuel s [] h due fits = (h, λ y. elim [ inl i ↦ absurd (false≢true i) | inr u ↦ u ])
ticks-Up fuel s (x ∷ xs) h due fits =
    let n = (s.nb_tick + 1) % 2 ^ 32 in
    let e : n ≡ s.nb_tick + 1 = ground arith in
    let t : Sched = record s { nb_tick = n } in
    Returns-bind _ (ordonnance (suc (suc fuel)) t) _
      (ordonnance-rest fuel t h.running x xs (Before-tick s (x ∷ xs) n h) (omega (arith, due.0)))
      (λ s' (h', same_tick, same_times, first, ready, self).
        Returns-mono _ (run (suc (suc fuel)) (replicate (length xs) tick) s')
          (ticks-Up fuel s' xs h'
            (All-mono (λ y. times s y ≤ s.nb_tick) (λ y. times s' y ≤ s'.nb_tick) xs
              (λ y i k. omega (arith, same_times y i)) due.1)
            (omega arith))
          (λ s2 (k, all). (
            k,
            λ y. step s s' x xs y (h.before.ready.runs) first ready (self h.running_awake) (all y),
          )))
