-- ===== src/Proc/Delete/Behind.antt =====
-- The loop of sleep_del of kernel/proc.c, behind the first sleeper.
use mathlib.Core.Path.{subst}
use mathlib.Core.Bool.{false≢true}
use projet_pcsea.Common.{
  ℕ, zero, suc, ◌<◌, ◌≡◌, refl, ◌≢◌, Bool, true, false, ◌==◌, ==_ne, ==_refl, Bool-cases,
  Option-cases, inl, inr, if◌then◌else◌, some, none, List, [], ◌∷◌, mem, mem-ne, Distinct, arith,
  ap, sym, ◌∙◌, length,
}
use projet_pcsea.Common.Int.{ℤ, minus_one}
use projet_pcsea.Common.Outcome.{Outcome, ◌>>=◌, Returns, Returns-mono, Returns-bind}
use projet_pcsea.Queue.Spec.{last, remove, mem-last}
use projet_pcsea.Proc.State.{Ptr, Sched, mort, is_null, deref, with_suiv, with_state, set_suiv}
use projet_pcsea.Proc.Lists.{insert_mort, cut_sleeper, sleep_del_loop}
use projet_pcsea.Proc.Sleepers.{IsChain, IsChain-frame}
use projet_pcsea.Proc.Bury.{DeadOk, insert_mort-first, insert_mort-next}
use projet_pcsea.Proc.Args.{OwnPids}

-- What insert_mort does to the links: the process has none, and apart from it only the last of the
-- dead gets another one.
pub record Cut (s : Sched) (e : ℕ) (s' : Sched) : Type 0 where
  pub dead : (s'.process e).state ≡ mort
  pub cut : (s'.process e).suiv ≡ none
  pub links : (y : ℕ) → y ≢ e → s.dead_tail ≢ some y → (s'.process y).suiv ≡ (s.process y).suiv
  pub pids : (y : ℕ) → (s'.process y).pid ≡ (s.process y).pid
  pub head : s'.endormi_list ≡ s.endormi_list
  pub tail : s'.endormi_tail ≡ s.endormi_tail
  pub queue : s'.queue ≡ s.queue
  pub actif : s'.actif ≡ s.actif

pub insert_mort-Cut : (e : ℕ) (s : Sched) → DeadOk s → Returns (Cut s e) (insert_mort e s)
unfolding with_suiv with_state
insert_mort-Cut e s d = elim (Bool-cases (is_null s.dead_list)) [
  | inl h ↦ rw (insert_mort-first e s h) (record {
    dead = ground arith;
    cut = ground arith;
    links = λ y ne out. ground arith;
    pids = λ y. ground arith;
    head = refl;
    tail = refl;
    queue = refl;
    actif = refl;
  })
  | inr h ↦ elim (Option-cases s.dead_tail) [
    | inl t ↦ absurd (false≢true (sym (d h) ∙ ap is_null t))
    | inr (k, t) ↦ rw (insert_mort-next e k s h t) (record {
      dead = ground arith;
      cut = ground arith;
      links = λ y ne out. let l : y ≢ k = (λ q. out (t ∙ ap some (sym q))) in ground arith;
      pids = λ y. ground arith;
      head = refl;
      tail = refl;
      queue = refl;
      actif = refl;
    })
  ]
]

-- The sleepers behind `e` were `ys` and are `rs`, and `p` is dead.
pub record Deleted (s : Sched) (e : ℕ) (ys rs : List ℕ) (p : ℕ) (s' : Sched) : Type 0 where
  pub chain : IsChain s'.process (s'.process e).suiv rs
  pub tail : s'.endormi_tail ≡ some (last e rs)
  pub head : s'.endormi_list ≡ s.endormi_list
  pub dead : (s'.process p).state ≡ mort
  pub links :
      (y : ℕ)
      → mem y (e ∷ ys) ≡ false
      → s.dead_tail ≢ some y
      → (s'.process y).suiv ≡ (s.process y).suiv
  pub queue : s'.queue ≡ s.queue
  pub actif : s'.actif ≡ s.actif

-- The state in which sleep_del calls insert_mort.
abbrev unlinked : ℕ → ℕ → Ptr → Sched → Sched
unlinked e p t s = set_suiv none p (set_suiv (s.process p).suiv e (record s { endormi_tail = t }))

module _ (e p : ℕ) (ys : List ℕ) (s : Sched) (l : (s.process e).suiv ≡ some p)
    (c : IsChain s.process (s.process p).suiv ys) (d : Distinct (e ∷ p ∷ ys))
    (out : (y : ℕ) → mem y (e ∷ p ∷ ys) ≡ true → s.dead_tail ≢ some y) where
  Cut-Deleted :
      (t : Ptr) (m : Sched)
      → t ≡ some (last e ys)
      → Cut (unlinked e p t s) p m
      → Deleted s e (p ∷ ys) ys p m × ((m.process p).suiv ≡ none)
  unfolding with_suiv
  Cut-Deleted t m q k =
      let ne : e ≢ p = ground arith in
      let from : (m.process e).suiv ≡ (s.process p).suiv =
        k.links e ne (out e (ground (arith, ==_refl e))) ∙ ground arith in
      (
        record {
          chain = rw from (
              IsChain-frame s.process m.process (s.process p).suiv ys
                (λ y i.
                  let np : y ≢ p = mem-ne y p ys i d.1.0 in
                  let ny : y ≢ e = mem-ne y e ys i (ground arith) in
                  k.links y np (out y (ground arith)) ∙ ground arith)
                c);
          tail = k.tail ∙ q;
          head = k.head;
          dead = k.dead;
          links = λ y i o. let np : y ≢ p = ground arith in k.links y np o ∙ ground arith;
          queue = k.queue;
          actif = k.actif;
        },
        k.cut,
      )

-- The call of insert_mort, by whether the sleeper is the last.
abbrev cut_if : ℕ → ℕ → Sched → Bool → Outcome Sched
cut_if p e s b =
    let s1 = (if b then record s { endormi_tail = some e } else s) in
    insert_mort p (set_suiv none p (set_suiv (s1.process p).suiv e s1))

cut_sleeper-cut_if :
    (k p e : ℕ) (s : Sched) (b : Bool)
    → ((s.process p).pid == (s.process k).pid) ≡ b
    → cut_sleeper k p e s ≡ cut_if p e s b
unfolding cut_sleeper
cut_sleeper-cut_if k p e s b h = ap (cut_if p e s) h

cut_sleeper-Deleted :
    (e p : ℕ) (ys : List ℕ) (s : Sched)
    → OwnPids s
    → DeadOk s
    → (s.process e).suiv ≡ some p
    → IsChain s.process (s.process p).suiv ys
    → s.endormi_tail ≡ some (last e (p ∷ ys))
    → Distinct (e ∷ p ∷ ys)
    → ((y : ℕ) → mem y (e ∷ p ∷ ys) ≡ true → s.dead_tail ≢ some y)
    → Returns
        (λ m. Deleted s e (p ∷ ys) ys p m × ((m.process p).suiv ≡ none))
        (cut_sleeper (last e (p ∷ ys)) p e s)
cut_sleeper-Deleted e p [] s own dk l c t d out =
    rw (cut_sleeper-cut_if p p e s true (==_refl (s.process p).pid)) (
      Returns-mono _ (insert_mort p (unlinked e p (some e) s))
        (insert_mort-Cut p (unlinked e p (some e) s) dk)
        (λ m k. Cut-Deleted e p [] s l c d out (some e) m refl k))
cut_sleeper-Deleted e p (y ∷ ys) s own dk l c t d out =
    let ne : p ≢ last y ys = λ q. mem-ne (last y ys) p (y ∷ ys) (mem-last y ys) d.1.0 (sym q) in
    let h : ((s.process p).pid == (s.process (last y ys)).pid) ≡ false =
      ==_ne (λ q. ne (sym (own p) ∙ q ∙ own (last y ys))) in
    rw (cut_sleeper-cut_if (last y ys) p e s false h) (
      Returns-mono _ (insert_mort p (unlinked e p s.endormi_tail s))
        (insert_mort-Cut p (unlinked e p s.endormi_tail s) dk)
        (λ m k. Cut-Deleted e p (y ∷ ys) s l c d out s.endormi_tail m t k))

-- The result of sleep_del_loop.
abbrev pub Missed : Sched → ℕ → List ℕ → List ℕ → ℕ → ℤ × Sched → Type 0
Missed s e ys rs p out = (out.0 ≡ minus_one) × Deleted s e ys rs p out.1

loop-hit :
    (fuel e p : ℕ) (ys : List ℕ) (s : Sched)
    → OwnPids s
    → DeadOk s
    → IsChain s.process (s.process e).suiv (p ∷ ys)
    → s.endormi_tail ≡ some (last p ys)
    → Distinct (e ∷ p ∷ ys)
    → ((z : ℕ) → mem z (e ∷ p ∷ ys) ≡ true → s.dead_tail ≢ some z)
    → Returns (Missed s e (p ∷ ys) ys p) (sleep_del_loop (suc (suc fuel)) p (some p) e s)
unfolding sleep_del_loop
loop-hit fuel e p ys s own dk c t d out =
    let on : Sched → Outcome (ℤ × Sched) =
      λ m. sleep_del_loop (suc fuel) p (m.process p).suiv p m in
    let own_pid : ((s.process p).pid == p) ≡ true = ap (λ q. q == p) (own p) ∙ ==_refl p in
    rw own_pid (
      subst
        (λ q.
          Returns (Missed s e (p ∷ ys) ys p) (do tail ← deref q; m ← cut_sleeper tail p e s; on m))
        (sym t)
        (Returns-bind _ (cut_sleeper (last p ys) p e s) on
          (cut_sleeper-Deleted e p ys s own dk c.0 c.1 t d out)
          (λ m (k, n).
            subst (λ q. Returns (Missed s e (p ∷ ys) ys p) (sleep_del_loop (suc fuel) p q p m))
              (sym n) (refl, k))))

Deleted-behind :
    (e p y : ℕ) (ys rs : List ℕ) (s m : Sched)
    → (s.process e).suiv ≡ some y
    → Distinct (e ∷ y ∷ ys)
    → s.dead_tail ≢ some e
    → Deleted s y ys rs p m
    → Deleted s e (y ∷ ys) (y ∷ rs) p m
Deleted-behind e p y ys rs s m c d out k = record {
  chain = (k.links e d.0 out ∙ c, k.chain);
  tail = k.tail;
  head = k.head;
  dead = k.dead;
  links = λ z i o. k.links z (ground arith) o;
  queue = k.queue;
  actif = k.actif;
}

pub sleep_del_loop-Deleted :
    (fuel e p y : ℕ) (ys : List ℕ) (s : Sched)
    → length ys < fuel
    → OwnPids s
    → DeadOk s
    → IsChain s.process (s.process e).suiv (y ∷ ys)
    → mem p (y ∷ ys) ≡ true
    → s.endormi_tail ≡ some (last y ys)
    → Distinct (e ∷ y ∷ ys)
    → ((z : ℕ) → mem z (e ∷ y ∷ ys) ≡ true → s.dead_tail ≢ some z)
    → Returns (Missed s e (y ∷ ys) (remove p (y ∷ ys)) p) (sleep_del_loop (suc fuel) p (some y) e s)
unfolding sleep_del_loop remove
sleep_del_loop-Deleted zero e p y ys s h own dk c i t d out = absurd (omega arith)
sleep_del_loop-Deleted (suc fuel) e p y [] s h own dk c i t d out =
    let same : y ≡ p = ground arith in
    subst
      (λ q.
        Returns (Missed s e (y ∷ []) (remove q (y ∷ [])) q)
          (sleep_del_loop (suc (suc fuel)) q (some y) e s))
      same (rw (==_refl y) (loop-hit fuel e y [] s own dk c t d out))
sleep_del_loop-Deleted (suc fuel) e p y (z ∷ ys) s h own dk c i t d out =
    elim (Bool-cases (y == p)) [
      | inl hit ↦
          let same : y ≡ p = ground arith in
          subst
            (λ q.
              Returns (Missed s e (y ∷ z ∷ ys) (remove q (y ∷ z ∷ ys)) q)
                (sleep_del_loop (suc (suc fuel)) q (some y) e s))
            same (rw (==_refl y) (loop-hit fuel e y (z ∷ ys) s own dk c t d out))
      | inr miss ↦
          rw (own y, miss, c.1.0)
            (Returns-mono _ (sleep_del_loop (suc fuel) p (some z) y s)
              (sleep_del_loop-Deleted fuel y p z ys s (omega arith) own dk c.1 (ground arith) t d.1
                (λ q k. out q (ground arith)))
              (λ o (r, k). (
                r,
                Deleted-behind e p y (z ∷ ys) (remove p (z ∷ ys)) s o.1 c.0 d
                    (out e (ground (arith, ==_refl e))) k,
              )))
    ]
