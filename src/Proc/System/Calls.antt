-- ===== src/Proc/System/Calls.antt =====
-- What a run of the system keeps: ticks of the clock, and calls that processes make, one after the other.
use mathlib.Core.Path.{subst}
use mathlib.Core.Bool.{false≢true}
use projet_pcsea.Common.{
  Distinct, ℕ, suc, ◌+◌, ◌%◌, ◌^◌, ◌<◌, ◌≡◌, refl, ◌≢◌, true, false, ◌==◌, ==_iff, ltb, ◌||◌,
  Bool-cases, inl, inr, List, [], ◌∷◌, mem, mem-ne, arith, ap, sym, ◌∙◌, length,
}
use projet_pcsea.Common.Int.{ℤ, pos, minus_one}
use projet_pcsea.Common.Outcome.{
  Outcome, ok, fault, out_of_fuel, Returns-Yields, ◌>>=◌, Returns, Returns-mono, Returns-bind,
}
use projet_pcsea.Queue.Spec.{IsSorted}
use projet_pcsea.Queue.Keys.{IsSorted-same}
use projet_pcsea.Proc.State.{
  with_time, with_state, Sched, deref, prios, is_endormi, with_prio, set_prio, to_int,
}
use projet_pcsea.Proc.Lists.{insert_endormi}
use projet_pcsea.Proc.Sleep.Place.{
  times, wake_insert, wake_insert-IsSorted, mem-wake_insert, length-wake_insert,
}
use projet_pcsea.Proc.Sleep.{Asleep, drowsy, insert_endormi-Asleep}
use projet_pcsea.Proc.Schedule.{ordonnance, sleep_until}
use projet_pcsea.Proc.Calls.{chprio}
use projet_pcsea.Proc.Priority.{running, Ready-set_prio, Sleepers-set_prio}
use projet_pcsea.Proc.System.{Before, Settled}
use projet_pcsea.Proc.System.Wake.{ordonnance-Settled}
use projet_pcsea.Proc.System.Step.{
  Call, tick, sleep, priority, Fits, is_idle, AllFit, do_tick, do_priority, do_call, run, Good,
  After-Good, running-awake,
}

pub Before-tick :
    (s : Sched) (xs : List ℕ) (t : ℕ) (h : Settled s xs)
    → Before (record s { nb_tick = t }) h.running xs
Before-tick s xs t h =
    let b = h.before in
    record {
      ready = record {
        runs = b.ready.runs;
        sorted = b.ready.sorted;
        distinct = b.ready.distinct;
        out = b.ready.out;
      };
      sleepers = record {
        chain = b.sleepers.chain;
        tail = b.sleepers.tail;
        distinct = b.sleepers.distinct;
      };
      waking = b.waking;
      asleep = b.asleep;
      awake = b.awake;
      idle = b.idle;
      later = λ i. absurd (false≢true (sym (running-awake s xs h) ∙ i));
    }

tick-Good :
    (fuel : ℕ) (s : Sched) (xs : List ℕ)
    → Settled s xs
    → Returns (Good (suc (length xs))) (do_tick (suc (suc fuel)) s)
unfolding do_tick
tick-Good fuel s xs h =
    let t : Sched = record s { nb_tick = (s.nb_tick + 1) % 2 ^ 32 } in
    Returns-mono _ (ordonnance (suc (suc fuel)) t)
      (ordonnance-Settled fuel t h.running xs (Before-tick s xs ((s.nb_tick + 1) % 2 ^ 32) h))
      (λ s' a. After-Good _ xs s' (omega arith) a)

module _ (s : Sched) (xs : List ℕ) (time a : ℕ) (b : Before s a xs) (e : 0 ≢ a)
    (soon : s.nb_tick < time) (out : mem a xs ≡ false) (m : Sched) (z : Asleep s a time xs m) where
  abbrev t : ℕ → ℕ
  t = times (drowsy a time s)

  times_now : (y : ℕ) → times m y ≡ t y
  unfolding with_time with_state
  times_now y = elim (Bool-cases (y == a)) [
    | inl h ↦ ap (times m) ((==_iff y a).0 h) ∙ z.time_set ∙ ground arith
    | inr h ↦ let ne : y ≢ a = ground arith in (z.others y ne).2 ∙ ground arith
  ]

  times_before : (y : ℕ) → mem y xs ≡ true → t y ≡ times s y
  unfolding with_time with_state
  times_before y i = let ne : y ≢ a = mem-ne y a xs i out in ground arith

  not_caller : (y : ℕ) → mem y s.queue ≡ true → y ≢ a
  not_caller y i = mem-ne y a s.queue i b.ready.out

  Before-asleep : Before m a (wake_insert t a xs)
  Before-asleep = record {
    ready = record {
      runs = z.actif ∙ b.ready.runs;
      sorted = subst (IsSorted (prios m)) (sym z.queue) (
          IsSorted-same (prios s) (prios m) s.queue (λ y i. (z.others y (not_caller y i)).1)
            b.ready.sorted);
      distinct = subst Distinct (sym z.queue) b.ready.distinct;
      out = ap (mem a) z.queue ∙ b.ready.out;
    };
    sleepers = z.sleepers;
    waking =
        IsSorted-same t (times m) (wake_insert t a xs) (λ y i. times_now y)
          (wake_insert-IsSorted t a xs (IsSorted-same (times s) t xs times_before b.waking));
    asleep = λ y i. elim (Bool-cases (y == a)) [
      | inl h ↦ ap (λ q. is_endormi (m.process q).state) ((==_iff y a).0 h) ∙ ap is_endormi z.state
      | inr h ↦
          let ne : y ≢ a = ground arith in
          let j : ((y == a) || mem y xs) ≡ true = sym (mem-wake_insert t a y xs) ∙ i in
          ap is_endormi (z.others y ne).0 ∙ b.asleep y (ground arith)
    ];
    awake = λ y i.
        let j : mem y s.queue ≡ true = ap (mem y) (sym z.queue) ∙ i in
        ap is_endormi (z.others y (not_caller y j)).0 ∙ b.awake y j;
    idle = elim b.idle [ inl (h, w) ↦ absurd (e h) | inr i ↦ inr (ap (mem 0) z.queue ∙ i) ];
    later = λ i. omega (arith, z.tick, z.time_set, soon);
  }

sleep-Good :
    (fuel time : ℕ) (s : Sched) (xs : List ℕ)
    → Settled s xs
    → length xs < suc (suc fuel)
    → Fits (sleep time) s
    → Returns (Good (suc (length xs))) (sleep_until (suc (suc fuel)) time s)
unfolding sleep_until
sleep-Good fuel time s xs h lt (busy, soon, fits) =
    let b = h.before in
    let a = h.running in
    let out = running-awake s xs h in
    let z : (a == 0) ≡ false = ap is_idle (sym b.ready.runs) ∙ busy in
    let e : 0 ≢ a = ground arith in
    subst
      (λ p. Returns (Good (suc (length xs))) (
        deref p >>= λ actif.
        insert_endormi (suc (suc fuel)) actif time s >>= ordonnance (suc (suc fuel))))
      (sym b.ready.runs)
      (Returns-bind _ (insert_endormi (suc (suc fuel)) a time s) _
        (insert_endormi-Asleep (suc (suc fuel)) a time s xs b.sleepers out lt)
        (λ m q.
          let t : ℕ → ℕ = times (drowsy a time s) in
          Returns-mono _ (ordonnance (suc (suc fuel)) m)
            (ordonnance-Settled fuel m a (wake_insert t a xs)
              (Before-asleep s xs time a b e soon out m q))
            (λ s'.
              After-Good _ (wake_insert t a xs) s' (omega (arith, length-wake_insert t a xs)))))

refused :
    (fuel p n : ℕ) (s : Sched)
    → (ltb 29 p || (ltb n 1 || ltb 256 n)) ≡ true
    → chprio fuel (pos p) (pos n) s ≡ ok (minus_one, s)
unfolding chprio
refused fuel p n s h = rw h refl

Before-set_prio :
    (n a : ℕ) (s : Sched) (xs : List ℕ) (h : Settled s xs)
    → h.running ≡ a
    → Before (set_prio n a s) a xs
unfolding with_prio
Before-set_prio n a s xs h e =
    let b : Before s a xs = subst (λ q. Before s q xs) e h.before in
    let w : is_endormi (s.process a).state ≡ false =
      subst (λ q. is_endormi (s.process q).state ≡ false) e h.running_awake in
    let same : (y : ℕ) → ((set_prio n a s).process y).state ≡ (s.process y).state =
      λ y. ground arith in
    record {
      ready = Ready-set_prio n a s b.ready;
      sleepers = Sleepers-set_prio n a s xs b.sleepers;
      waking = IsSorted-same (times s) (times (set_prio n a s)) xs (λ y i. ground arith) b.waking;
      asleep = λ y i. ap is_endormi (same y) ∙ b.asleep y i;
      awake = λ y i. ap is_endormi (same y) ∙ b.awake y i;
      idle = elim b.idle [ inl (z, k) ↦ inl (z, ap is_endormi (same a) ∙ k) | inr i ↦ inr i ];
      later = λ i. absurd (false≢true (sym w ∙ b.asleep a i));
    }

Returns-state :
    (P : Sched → Type 0) (o : Outcome Sched) (r : ℤ)
    → Returns P o
    → Returns P (◌>>=◌ {A = ℤ × Sched} (o >>= λ s2. ok (r, s2)) (λ out. ok out.1))
Returns-state P (ok m) r h = h
Returns-state P fault r h = h
Returns-state P out_of_fuel r h = h

priority-Good :
    (fuel n : ℕ) (s : Sched) (xs : List ℕ)
    → Settled s xs
    → Returns (Good (suc (length xs))) (do_priority (suc (suc fuel)) n s)
unfolding do_priority
priority-Good fuel n s xs h =
    let a = h.running in
    let p = (s.process a).pid in
    let f = suc (suc fuel) in
    subst
      (λ q.
        Returns (Good (suc (length xs)))
          (deref q >>= λ actif. chprio f (pos (s.process actif).pid) (pos n) s >>= λ out. ok out.1))
      (sym h.before.ready.runs)
      (elim (Bool-cases (ltb 29 p || (ltb n 1 || ltb 256 n))) [
        | inl bad ↦
            subst (λ o. Returns (Good (suc (length xs))) (o >>= λ out. ok out.1))
              (sym (refused f p n s bad)) (record { sleepers = xs; few = omega arith; settled = h })
        | inr good ↦
            subst (λ o. Returns (Good (suc (length xs))) (o >>= λ out. ok out.1))
              (sym (
                running f p n a s h.before.ready.runs refl (ground arith) (ground arith)
                  (ground arith)))
              (Returns-state _ (ordonnance f (set_prio n a s)) (to_int (s.process a).prio) (
                Returns-mono _ (ordonnance f (set_prio n a s))
                  (ordonnance-Settled fuel (set_prio n a s) a xs (Before-set_prio n a s xs h refl))
                  (λ s' r. After-Good _ xs s' (omega arith) r)))
      ])

call-Good :
    (fuel : ℕ) (c : Call) (s : Sched) (xs : List ℕ)
    → Settled s xs
    → length xs < suc (suc fuel)
    → Fits c s
    → Returns (Good (suc (length xs))) (do_call (suc (suc fuel)) c s)
unfolding do_call
call-Good fuel tick s xs h lt f = tick-Good fuel s xs h
call-Good fuel (sleep t) s xs h lt f = sleep-Good fuel t s xs h lt f
call-Good fuel (priority n) s xs h lt f = priority-Good fuel n s xs h

-- From a settled state every sequence of ticks, of sleeps until a tick to come by processes other than
-- the idle one, and of changes of the own priority runs to its end, and leaves a settled state: the
-- queue and the sleepers are in order, and no ready process has a higher priority than the one that
-- runs. The loops have more rounds than sleepers and calls.
pub run-Good :
    (fuel : ℕ) (cs : List Call) (s : Sched) (xs : List ℕ)
    → Settled s xs
    → AllFit (suc (suc fuel)) cs s
    → length xs + length cs < suc (suc fuel)
    → Returns (Good (length xs + length cs)) (run (suc (suc fuel)) cs s)
unfolding run
run-Good fuel [] s xs h f lt = record { sleepers = xs; few = omega arith; settled = h }
run-Good fuel (c ∷ cs) s xs h f lt =
    Returns-bind _ (do_call (suc (suc fuel)) c s) _
      (Returns-Yields _ _ (do_call (suc (suc fuel)) c s) (call-Good fuel c s xs h (omega arith) f.0)
        f.1)
      (λ s1 (g, f1).
        Returns-mono _ (run (suc (suc fuel)) cs s1)
          (run-Good fuel cs s1 g.sleepers g.settled f1 (omega (arith, g.few)))
          (λ s2 k. record {
            sleepers = k.sleepers;
            few = omega (arith, g.few, k.few);
            settled = k.settled;
          }))
