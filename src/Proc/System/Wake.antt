-- ===== src/Proc/System/Wake.antt =====
-- wake_process and ordonnance of kernel/proc.c on the state of the scheduler.
use mathlib.Core.Path.{subst}
use projet_pcsea.Common.{
  ℕ, suc, ◌≤◌, ◌<◌, ◌≡◌, ◌≢◌, true, false, ◌==◌, ==_iff, ==_refl, ◌||◌, leb, Bool-cases, inl, inr,
  ◌⊎◌, some, List, [], ◌∷◌, mem, mem-ne, arith, ap, sym, ◌∙◌, length,
}
use projet_pcsea.Common.Outcome.{◌>>=◌, Returns, Returns-mono, Returns-both}
use projet_pcsea.Queue.Spec.{mem-insert}
use projet_pcsea.Queue.Keys.{IsSorted-same}
use projet_pcsea.Proc.State.{Sched, with_suiv, with_state, is_endormi, prios}
use projet_pcsea.Proc.Sleepers.{
  left, woken, wake_process-first, wake_process-none, wake_process-empty,
}
use projet_pcsea.Proc.Sleep.Place.{times}
use projet_pcsea.Proc.Schedule.{elect, ordonnance}
use projet_pcsea.Proc.Elect.{Elected, elect-Elected}
use projet_pcsea.Proc.Elect.Framed.{elect-Framed}
use projet_pcsea.Proc.Ordonnance.{Ready-woken}
use projet_pcsea.Proc.System.{Before, Settled, sleeper-out, elect-Settled, sleeper_same}

module _ (s : Sched) (a x : ℕ) (xs : List ℕ) (b : Before s a (x ∷ xs))
    (due : times s x ≤ s.nb_tick) where
  abbrev w : Sched
  w = woken x xs s

  not_running : x ≢ a
  not_running e =
      let h : times s x ≡ times s a = ap (times s) e in
      let l : s.nb_tick < times s a =
        b.later (subst (λ z. mem z (x ∷ xs) ≡ true) e (ground (arith, ==_refl x))) in
      omega arith

  out : mem x s.queue ≡ false
  out = sleeper-out s a (x ∷ xs) x b (ground (arith, ==_refl x))

  times-woken : (y : ℕ) → times w y ≡ times s y
  unfolding with_suiv with_state
  times-woken y = ground arith

  state-woken : (y : ℕ) → y ≢ x → (w.process y).state ≡ (s.process y).state
  unfolding with_suiv with_state
  state-woken y ne = ground arith

  state_woken_self : is_endormi (w.process x).state ≡ false
  unfolding with_suiv with_state
  state_woken_self = ground arith

  in-woken : (y : ℕ) → mem y w.queue ≡ ((y == x) || mem y s.queue)
  in-woken y = mem-insert (prios (left x xs s)) x y s.queue

  pub woken-Before : Before w a xs
  woken-Before = record {
    ready = Ready-woken s a x xs not_running out b.ready;
    sleepers = (wake_process-first 0 s x xs b.sleepers due out).1;
    waking = IsSorted-same (times s) (times w) xs (λ y i. times-woken y) b.waking.1;
    asleep = λ y i.
        let ne : y ≢ x = mem-ne y x xs i b.sleepers.distinct.0 in
        ap is_endormi (state-woken y ne) ∙ b.asleep y (ground arith);
    awake = λ y m. elim (Bool-cases (y == x)) [
      | inl e ↦
          subst (λ z. is_endormi (w.process z).state ≡ false) (sym ((==_iff y x).0 e))
            state_woken_self
      | inr e ↦
          let j : ((y == x) || mem y s.queue) ≡ true = sym (in-woken y) ∙ m in
          let ne : y ≢ x = ground arith in
          ap is_endormi (state-woken y ne) ∙ b.awake y (ground arith)
    ];
    idle = elim b.idle [
      | inl (z, h) ↦ inl (z, ap is_endormi (state-woken a (λ e. not_running (sym e))) ∙ h)
      | inr m ↦ inr (in-woken 0 ∙ ground arith)
    ];
    later = λ i. subst (λ t. s.nb_tick < t) (sym (times-woken a)) (b.later (ground arith));
  }

-- What ordonnance makes of it: a settled state, with at most one sleeper fewer.
pub record After (xs : List ℕ) (s' : Sched) : Type 0 where
  pub sleepers : List ℕ
  pub fewer : length sleepers ≤ length xs
  pub settled : Settled s' sleepers

ordonnance-due :
    (fuel : ℕ) (s : Sched) (a x : ℕ) (xs : List ℕ)
    → Before s a (x ∷ xs)
    → times s x ≤ s.nb_tick
    → ordonnance (suc (suc fuel)) s ≡ elect (woken x xs s)
unfolding ordonnance
ordonnance-due fuel s a x xs b due =
    ap (λ o. o >>= elect) (wake_process-first fuel s x xs b.sleepers due (out s a x xs b due)).0

pub ordonnance-Settled :
    (fuel : ℕ) (s : Sched) (a : ℕ) (xs : List ℕ)
    → Before s a xs
    → Returns (After xs) (ordonnance (suc (suc fuel)) s)
unfolding ordonnance
ordonnance-Settled fuel s a [] b = rw (wake_process-empty (suc fuel) s b.sleepers) (
    Returns-mono _ (elect s) (elect-Settled s a [] b)
      (λ s' h. record { sleepers = []; fewer = omega arith; settled = h }))
ordonnance-Settled fuel s a (x ∷ xs) b =
    elim (Bool-cases (leb (s.process x).time_to_wake s.nb_tick)) [
      | inl due ↦
          let d : times s x ≤ s.nb_tick = ground arith in
          rw (ordonnance-due fuel s a x xs b d) (
            Returns-mono _ (elect (woken x xs s))
              (elect-Settled (woken x xs s) a xs (woken-Before s a x xs b d))
              (λ s' h. record { sleepers = xs; fewer = omega arith; settled = h }))
      | inr late ↦ rw (wake_process-none (suc fuel) s x xs b.sleepers (ground arith)) (
          Returns-mono _ (elect s) (elect-Settled s a (x ∷ xs) b)
            (λ s' h. record { sleepers = x ∷ xs; fewer = omega arith; settled = h }))
    ]

-- When the time of the first sleeper has come, ordonnance wakes it: it runs or is ready after the
-- call, and the others sleep on.
pub ordonnance-wakes :
    (fuel : ℕ) (s : Sched) (a x : ℕ) (xs : List ℕ)
    → Before s a (x ∷ xs)
    → times s x ≤ s.nb_tick
    → Returns
        (λ s'. Settled s' xs × ((s'.actif ≡ some x) ⊎ (mem x s'.queue ≡ true)))
        (ordonnance (suc (suc fuel)) s)
ordonnance-wakes fuel s a x xs b due =
    let w1 : Before (woken x xs s) a xs = woken-Before s a x xs b due in
    rw (ordonnance-due fuel s a x xs b due) (
      Returns-mono _ (elect (woken x xs s))
        (Returns-both _ _ (elect (woken x xs s)) (elect-Settled (woken x xs s) a xs w1)
          (elect-Elected (woken x xs s) a w1.ready))
        (λ s' (h, e). (
          h,
          elim (e.kept x (in-woken s a x xs b due x ∙ ground (arith, ==_refl x))) [
            | inl k ↦ inl (e.ready.runs ∙ ap some (sym k))
            | inr m ↦ inr m
          ],
        )))

elect-asleep :
    (s : Sched) (a : ℕ) (xs : List ℕ)
    → Before s a xs
    → is_endormi (s.process a).state ≡ true
    → Returns (λ s'. is_endormi (s'.process a).state ≡ true) (elect s)
elect-asleep s a xs b h =
    Returns-mono _ (elect s) (elect-Framed s a b.ready)
      (λ s' f. ap (λ p. is_endormi p.state) (f.self h) ∙ h)

-- A caller of ordonnance that is asleep sleeps on.
pub ordonnance-asleep :
    (fuel : ℕ) (s : Sched) (a : ℕ) (xs : List ℕ)
    → Before s a xs
    → is_endormi (s.process a).state ≡ true
    → Returns (λ s'. is_endormi (s'.process a).state ≡ true) (ordonnance (suc (suc fuel)) s)
unfolding ordonnance
ordonnance-asleep fuel s a [] b h =
    rw (wake_process-empty (suc fuel) s b.sleepers) (elect-asleep s a [] b h)
ordonnance-asleep fuel s a (x ∷ xs) b h =
    elim (Bool-cases (leb (s.process x).time_to_wake s.nb_tick)) [
      | inl due ↦
          let d : times s x ≤ s.nb_tick = ground arith in
          let same : ((woken x xs s).process a).state ≡ (s.process a).state =
            state-woken s a x xs b d a (λ e. not_running s a x xs b d (sym e)) in
          rw (ordonnance-due fuel s a x xs b d)
            (elect-asleep (woken x xs s) a xs (woken-Before s a x xs b d) (ap is_endormi same ∙ h))
      | inr late ↦
          rw (wake_process-none (suc fuel) s x xs b.sleepers (ground arith))
            (elect-asleep s a (x ∷ xs) b h)
    ]

-- The process runs or is ready.
abbrev pub Up : Sched → ℕ → Type 0
Up s y = (s.actif ≡ some y) ⊎ (mem y s.queue ≡ true)

chosen-Up :
    (s s' : Sched) (a y : ℕ) (e : Elected s a s')
    → (y ≡ e.chosen) ⊎ (mem y s'.queue ≡ true)
    → Up s' y
chosen-Up s s' a y e (inl k) = inl (e.ready.runs ∙ ap some (sym k))
chosen-Up s s' a y e (inr m) = inr m

-- What ordonnance keeps of the others when it wakes the first sleeper, which is ready or runs then; a
-- process that was ready or ran does so still, unless the one that ran was asleep.
pub ordonnance-rest :
    (fuel : ℕ) (s : Sched) (a x : ℕ) (xs : List ℕ)
    → Before s a (x ∷ xs)
    → times s x ≤ s.nb_tick
    → Returns
        (λ s'.
          Settled s' xs
          × (s'.nb_tick ≡ s.nb_tick)
          × ((y : ℕ) → mem y xs ≡ true → times s' y ≡ times s y)
          × Up s' x
          × ((y : ℕ) → mem y s.queue ≡ true → Up s' y)
          × (is_endormi (s.process a).state ≡ false → Up s' a))
        (ordonnance (suc (suc fuel)) s)
ordonnance-rest fuel s a x xs b due =
    let m : Sched = woken x xs s in
    let w1 : Before m a xs = woken-Before s a x xs b due in
    rw (ordonnance-due fuel s a x xs b due) (
      Returns-mono _ (elect m)
        (Returns-both _ _ (elect m)
          (Returns-both _ _ (elect m) (elect-Settled m a xs w1) (elect-Framed m a w1.ready))
          (elect-Elected m a w1.ready))
        (λ s' ((h, f), e). (
          h,
          f.tick,
          λ y i.
              ap (λ p. p.time_to_wake) (sleeper_same m a xs s' w1 f y i)
              ∙ times-woken s a x xs b due y,
          chosen-Up m s' a x e (e.kept x (in-woken s a x xs b due x ∙ ground (arith, ==_refl x))),
          λ y i. chosen-Up m s' a y e (e.kept y (in-woken s a x xs b due y ∙ ground arith)),
          λ awake. chosen-Up m s' a a e (
              e.old (
                ap is_endormi
                  (state-woken s a x xs b due a (λ q. not_running s a x xs b due (sym q)))
                ∙ awake)),
        )))
