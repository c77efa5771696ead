-- ===== src/Proc/System.antt =====
-- The state of the scheduler of kernel/proc.c between two calls, and what elect makes of it.
pub mod Wake
pub mod Step
pub mod Calls
pub mod Progress
pub mod Block
pub mod Tests
use mathlib.Core.Path.{subst}
use mathlib.Core.Bool.{false≢true}
use projet_pcsea.Common.{
  ℕ, suc, ◌≤◌, ◌<◌, ◌≡◌, refl, ◌≢◌, true, false, ◌==◌, ==_iff, ==_refl, ==_ne, ◌||◌, leb,
  Bool-cases, inl, inr, ◌⊎◌, some, none, List, [], ◌∷◌, mem, mem-ne, arith, ap, sym, ◌∙◌,
}
use projet_pcsea.Common.Outcome.{ok, ◌>>=◌, Returns, Returns-mono, Returns-both}
use projet_pcsea.Queue.Spec.{IsSorted, mem-insert}
use projet_pcsea.Queue.Keys.{IsSorted-same}
use projet_pcsea.Proc.State.{Process, Sched, with_suiv, with_state, is_endormi, prios}
use projet_pcsea.Proc.Sleepers.{
  IsChain, Sleepers, IsChain-frame, left, woken, wake_process-first, wake_process-none,
  wake_process-empty,
}
use projet_pcsea.Proc.Sleep.Place.{times}
use projet_pcsea.Proc.Schedule.{elect, ordonnance}
use projet_pcsea.Proc.Elect.{Ready, Highest, Elected, elect-Elected}
use projet_pcsea.Proc.Elect.Framed.{Framed, From, elect-Framed}
use projet_pcsea.Proc.Ordonnance.{Ready-woken}

-- The state when ordonnance is called: `a` runs and the sleepers are `xs`, in the order in which they
-- wake up. The sleepers are asleep and the ready processes are not. Process 0, which is idle, is
-- awake. A caller that is among the sleepers wakes up later than now.
pub record Before (s : Sched) (a : ℕ) (xs : List ℕ) : Type 0 where
  pub ready : Ready s a
  pub sleepers : Sleepers s xs
  pub waking : IsSorted (times s) xs
  pub asleep : (y : ℕ) → mem y xs ≡ true → is_endormi (s.process y).state ≡ true
  pub awake : (y : ℕ) → mem y s.queue ≡ true → is_endormi (s.process y).state ≡ false
  pub idle : ((0 ≡ a) × (is_endormi (s.process a).state ≡ false)) ⊎ (mem 0 s.queue ≡ true)
  pub later : mem a xs ≡ true → s.nb_tick < times s a

-- The state between two calls: besides, the running process is awake, and no ready process has a
-- higher priority.
pub record Settled (s : Sched) (xs : List ℕ) : Type 0 where
  pub running : ℕ
  pub before : Before s running xs
  pub running_awake : is_endormi (s.process running).state ≡ false
  pub highest : Highest s running

-- A sleeper is not ready.
pub sleeper-out :
    (s : Sched) (a : ℕ) (xs : List ℕ) (y : ℕ)
    → Before s a xs
    → mem y xs ≡ true
    → mem y s.queue ≡ false
sleeper-out s a xs y b i = elim (Bool-cases (mem y s.queue)) [
  | inl m ↦ absurd (false≢true (sym (b.awake y m) ∙ b.asleep y i))
  | inr o ↦ o
]

module _ (s : Sched) (a : ℕ) (xs : List ℕ) (s' : Sched) (b : Before s a xs)
    (f : Framed s a s') where
  sleeper_same : (y : ℕ) → mem y xs ≡ true → s'.process y ≡ s.process y
  sleeper_same y i = elim (Bool-cases (y == a)) [
    | inl h ↦
        let e : y ≡ a = (==_iff y a).0 h in
        subst (λ z. s'.process z ≡ s.process z) (sym e)
          (f.self (subst (λ z. is_endormi (s.process z).state ≡ true) e (b.asleep y i)))
    | inr h ↦
        f.untouched y (λ e. false≢true (sym h ∙ ap (λ z. z == a) e ∙ ==_refl a))
          (sleeper-out s a xs y b i)
  ]

  Sleepers-framed : Sleepers s' xs
  Sleepers-framed = record {
    chain =
        subst (λ p. IsChain s'.process p xs) (sym f.lists.0)
          (IsChain-frame s.process s'.process s.endormi_list xs
            (λ y i. ap (λ p. p.suiv) (sleeper_same y i)) b.sleepers.chain);
    tail = f.lists.1 ∙ b.sleepers.tail;
    distinct = b.sleepers.distinct;
  }

  chosen_awake : is_endormi (s'.process f.chosen).state ≡ false
  chosen_awake = elim f.from [
    | inl m ↦ f.still_awake f.chosen (b.awake f.chosen m)
    | inr (e, inl h) ↦
        f.still_awake f.chosen (subst (λ z. is_endormi (s.process z).state ≡ false) (sym e) h)
    | inr (e, inr empty) ↦ elim b.idle [
      | inl (z, h) ↦
          f.still_awake f.chosen (subst (λ z. is_endormi (s.process z).state ≡ false) (sym e) h)
      | inr m ↦ absurd (false≢true (ap (mem 0) (sym empty) ∙ m))
    ]
  ]

  queue_awake : (y : ℕ) → mem y s'.queue ≡ true → is_endormi (s'.process y).state ≡ false
  queue_awake y m = elim (f.within y m) [
    | inl i ↦ f.still_awake y (b.awake y i)
    | inr (e, h) ↦ f.still_awake y (subst (λ z. is_endormi (s.process z).state ≡ false) (sym e) h)
  ]

  idle_stays :
      (e : Elected s a s')
      → f.chosen ≡ e.chosen
      → ((0 ≡ f.chosen) × (is_endormi (s'.process f.chosen).state ≡ false))
        ⊎ (mem 0 s'.queue ≡ true)
  idle_stays e same = elim b.idle [
    | inl (z, h) ↦ elim (e.old h) [
      | inl k ↦ inl (z ∙ k ∙ sym same, chosen_awake)
      | inr m ↦ inr (ap (λ q. mem q s'.queue) z ∙ m)
    ]
    | inr m ↦ elim (e.kept 0 m) [ inl k ↦ inl (k ∙ sym same, chosen_awake) | inr i ↦ inr i ]
  ]

  settled : Elected s a s' → Settled s' xs
  settled e =
      let same : f.chosen ≡ e.chosen = cc (f.runs, e.ready.runs) in
      record {
        running = f.chosen;
        before = record {
          ready = subst (Ready s') (sym same) e.ready;
          sleepers = Sleepers-framed;
          waking =
              IsSorted-same (times s) (times s') xs
                (λ y i. ap (λ p. p.time_to_wake) (sleeper_same y i)) b.waking;
          asleep = λ y i. ap (λ p. is_endormi p.state) (sleeper_same y i) ∙ b.asleep y i;
          awake = queue_awake;
          idle = idle_stays e same;
          later = λ i. absurd (
              false≢true (
                sym chosen_awake
                ∙ ap (λ p. is_endormi p.state) (sleeper_same f.chosen i)
                ∙ b.asleep f.chosen i));
        };
        running_awake = chosen_awake;
        highest = subst (Highest s') (sym same) e.highest;
      }

pub elect-Settled :
    (s : Sched) (a : ℕ) (xs : List ℕ) → Before s a xs → Returns (λ s'. Settled s' xs) (elect s)
elect-Settled s a xs b =
    Returns-mono _ (elect s)
      (Returns-both _ _ (elect s) (elect-Elected s a b.ready) (elect-Framed s a b.ready))
      (λ s' (e, f). settled s a xs s' b f e)
