-- ===== src/Proc/End.antt =====
-- The end of a process in kernel/proc.c: the loop of fin_processus over the children.
pub mod Father
pub mod Exit
use mathlib.Core.Path.{subst}
use mathlib.Core.Bool.{false≢true}
use projet_pcsea.Common.{
  ℕ, zero, suc, ◌≤◌, ◌<◌, ◌≡◌, refl, ◌≢◌, Bool, true, false, ◌==◌, ==_iff, ==_ne, ==_refl, ◌||◌,
  Bool-cases, Option-cases, inl, inr, if◌then◌else◌, some, none, List, [], ◌∷◌, mem, mem-ne,
  Distinct, All, arith, ap, sym, ◌∙◌, length,
}
use projet_pcsea.Common.Outcome.{
  Outcome, ok, fault, out_of_fuel, ◌>>=◌, Returns, Returns-mono, Returns-bind,
}
use projet_pcsea.Proc.State.{
  Ptr, Process, Sched, mort, zombie, ProcessState, is_zombie, deref, is_null, modify, with_suiv,
  with_state, with_pere, set_suiv, set_state, set_pere, prios, with_pid_ret_fils, with_retval,
}
use projet_pcsea.Proc.Lists.{insert_mort}
use projet_pcsea.Proc.Schedule.{orphan_loop, unlink_loop, leave, fin_processus, exit}
use projet_pcsea.Proc.Bury.{
  DeadOk, Kept, Kept-trans, Buried, first_dead, next_dead, insert_mort-first, insert_mort-next,
  insert_mort-fault, insert_mort-Buried,
}

-- From `p` the `frere_droit` fields lead through the children `cs` to NULL.
abbrev pub AreBrothers : (ℕ → Process) → Ptr → List ℕ → Type 0
AreBrothers f p [] = p ≡ none
AreBrothers f p (c ∷ cs) = (p ≡ some c) × AreBrothers f (f c).frere_droit cs

pub AreBrothers-frame :
    (f g : ℕ → Process) (p : Ptr) (cs : List ℕ)
    → ((y : ℕ) → (g y).frere_droit ≡ (f y).frere_droit)
    → AreBrothers f p cs
    → AreBrothers g p cs
AreBrothers-frame f g p [] same h = h
AreBrothers-frame f g p (c ∷ cs) same h = (
  h.0,
  subst (λ r. AreBrothers g r cs) (sym (same c))
      (AreBrothers-frame f g (f c).frere_droit cs same h.1),
)

-- A child after the end of its father: no father, and dead if it was a zombie.
abbrev pub after_zombie : ProcessState → ProcessState
after_zombie zombie = mort
after_zombie x = x

pub record Orphaned (s : Sched) (cs : List ℕ) (s' : Sched) : Type 0 where
  pub children :
      (c : ℕ)
      → mem c cs ≡ true
      → ((s'.process c).pere ≡ none) × ((s'.process c).state ≡ after_zombie (s.process c).state)
  pub others :
      (y : ℕ)
      → mem y cs ≡ false
      → ((s'.process y).pere ≡ (s.process y).pere) × ((s'.process y).state ≡ (s.process y).state)
  pub kept : (y : ℕ) → Kept (s.process y) (s'.process y)
  pub dead_ok : DeadOk s'
  pub queue : s'.queue ≡ s.queue
  pub actif : s'.actif ≡ s.actif
  pub alive : s'.process_alive ≡ s.process_alive

after_zombie-dead : (v : ProcessState) → is_zombie v ≡ true → after_zombie v ≡ mort
after_zombie-dead v h = ground arith

after_zombie-alive : (v : ProcessState) → is_zombie v ≡ false → after_zombie v ≡ v
after_zombie-alive v h = ground arith

-- One round of the loop, from `s` to `m`.
record Round (s : Sched) (c : ℕ) (m : Sched) : Type 0 where
  father : (m.process c).pere ≡ none
  state : (m.process c).state ≡ after_zombie (s.process c).state
  others :
      (y : ℕ)
      → y ≢ c
      → ((m.process y).pere ≡ (s.process y).pere) × ((m.process y).state ≡ (s.process y).state)
  brothers : (y : ℕ) → (m.process y).frere_droit ≡ (s.process y).frere_droit
  kept : (y : ℕ) → Kept (s.process y) (m.process y)
  dead_ok : DeadOk m
  queue : m.queue ≡ s.queue
  actif : m.actif ≡ s.actif
  alive : m.process_alive ≡ s.process_alive

Orphaned-cons :
    (s m s' : Sched) (c : ℕ) (cs : List ℕ)
    → mem c cs ≡ false
    → Round s c m
    → Orphaned m cs s'
    → Orphaned s (c ∷ cs) s'
Orphaned-cons s m s' c cs out r o = record {
  children = λ y i. elim (Bool-cases (y == c)) [
    | inl same ↦
        let e : y ≡ c = (==_iff y c).0 same in
        subst
          (λ z.
            ((s'.process z).pere ≡ none)
            × ((s'.process z).state ≡ after_zombie (s.process z).state))
          (sym e) ((o.others c out).0 ∙ r.father, (o.others c out).1 ∙ r.state)
    | inr other ↦
        let in_rest : mem y cs ≡ true = ground arith in
        (
          (o.children y in_rest).0,
          (o.children y in_rest).1 ∙ ap after_zombie (r.others y (ground arith)).1,
        )
  ];
  others = λ y i. (
    (o.others y (ground arith)).0 ∙ (r.others y (ground arith)).0,
    (o.others y (ground arith)).1 ∙ (r.others y (ground arith)).1,
  );
  kept = λ y. Kept-trans (s.process y) (m.process y) (s'.process y) (r.kept y) (o.kept y);
  dead_ok = o.dead_ok;
  queue = o.queue ∙ r.queue;
  actif = o.actif ∙ r.actif;
  alive = o.alive ∙ r.alive;
}

Round-dead :
    (s m : Sched) (c : ℕ)
    → is_zombie (s.process c).state ≡ true
    → Buried (set_pere none c s) c m
    → Round s c m
unfolding with_pere
Round-dead s m c h b = record {
  father = b.fathers c ∙ (ground arith);
  state = b.dead ∙ sym (after_zombie-dead (s.process c).state h);
  others = λ y ne. (ground (arith, b.fathers y), ground (arith, b.states y ne));
  brothers = λ y. ground (arith, b.brothers y);
  kept = λ y. ground (arith, b.kept y);
  dead_ok = b.dead_ok;
  queue = b.queue;
  actif = b.actif;
  alive = b.alive;
}

Round-alive :
    (s : Sched) (c : ℕ)
    → is_zombie (s.process c).state ≡ false
    → DeadOk s
    → Round s c (set_pere none c s)
unfolding with_pere
Round-alive s c h k = record {
  father = ground arith;
  state = ground (arith, after_zombie-alive (s.process c).state h);
  others = λ y ne. ground arith;
  brothers = λ y. ground arith;
  kept = λ y. ground arith;
  dead_ok = k;
  queue = refl;
  actif = refl;
  alive = refl;
}

pere-state : (s : Sched) (c : ℕ) → ((set_pere none c s).process c).state ≡ (s.process c).state
unfolding with_pere
pere-state s c = ground arith

pere-brother :
    (s : Sched) (c : ℕ) → ((set_pere none c s).process c).frere_droit ≡ (s.process c).frere_droit
unfolding with_pere
pere-brother s c = ground arith

-- The loop over the children returns: each loses its father, and the zombies among them are dead.
pub orphan_loop-Orphaned :
    (fuel : ℕ) (p : Ptr) (s : Sched) (cs : List ℕ)
    → length cs < fuel
    → Distinct cs
    → DeadOk s
    → AreBrothers s.process p cs
    → Returns (Orphaned s cs) (orphan_loop fuel p s)
unfolding orphan_loop
orphan_loop-Orphaned zero p s cs h d k b = absurd (omega arith)
orphan_loop-Orphaned (suc fuel) p s [] h d k b =
    subst (λ p. Returns (Orphaned s []) (orphan_loop (suc fuel) p s)) (sym b)
      (record {
        children = λ c m. cc;
        others = λ y m. (refl, refl);
        kept = λ y. (refl, refl, refl, refl);
        dead_ok = k;
        queue = refl;
        actif = refl;
        alive = refl;
      })
orphan_loop-Orphaned (suc fuel) p s (c ∷ cs) h d k b =
    subst (λ p. Returns (Orphaned s (c ∷ cs)) (orphan_loop (suc fuel) p s)) (sym b.0)
      (elim (Bool-cases (is_zombie (s.process c).state)) [
        | inl dead ↦ rw (ap is_zombie (pere-state s c) ∙ dead) (
            Returns-bind _ (insert_mort c (set_pere none c s)) _
              (insert_mort-Buried c (set_pere none c s) k)
              (λ m buried.
                let r : Round s c m = Round-dead s m c dead buried in
                Returns-mono _ (orphan_loop fuel ((set_pere none c s).process c).frere_droit m)
                  (orphan_loop-Orphaned fuel ((set_pere none c s).process c).frere_droit m cs
                    (omega arith) d.1 r.dead_ok
                    (subst (λ q. AreBrothers m.process q cs) (sym (pere-brother s c))
                      (AreBrothers-frame s.process m.process _ cs r.brothers b.1)))
                  (λ s'. Orphaned-cons s m s' c cs d.0 r)))
        | inr alive ↦
            let m : Sched = set_pere none c s in
            let r : Round s c m = Round-alive s c alive k in
            rw (ap is_zombie (pere-state s c) ∙ alive) (
              Returns-mono _ (orphan_loop fuel (m.process c).frere_droit m)
                (orphan_loop-Orphaned fuel (m.process c).frere_droit m cs (omega arith) d.1 k (
                  subst (λ q. AreBrothers m.process q cs) (sym (pere-brother s c))
                    (AreBrothers-frame s.process m.process _ cs r.brothers b.1)))
                (λ s'. Orphaned-cons s m s' c cs d.0 r))
      ])
