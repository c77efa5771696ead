-- ===== src/Proc/End/Exit.antt =====
-- exit of kernel/proc.c by a child, and waitpid by its father.
use mathlib.Core.Path.{subst}
use projet_pcsea.Common.{
  ℕ, suc, ◌^◌, ◌≤◌, ◌<◌, ◌≡◌, refl, ◌≢◌, Bool, true, false, ◌==◌, ==_iff, Bool-cases, inl, inr,
  if◌then◌else◌, some, none, List, [], ◌∷◌, mem, Option, Distinct, arith, ap, sym, ◌∙◌, length,
}
use projet_pcsea.Common.Int.{ℤ, pos, minus_one}
use projet_pcsea.Common.Outcome.{◌>>=◌, Returns, Returns-bind, Returns-mono}
use projet_pcsea.Queue.Spec.{last}
use projet_pcsea.Proc.State.{
  Ptr, Process, Sched, mort, zombie, is_zombie, deref, with_retval, set_retval,
}
use projet_pcsea.Proc.Schedule.{fin_processus, exit}
use projet_pcsea.Proc.Wait.{waitpid}
use projet_pcsea.Proc.Bury.{DeadOk}
use projet_pcsea.Proc.End.{AreBrothers, AreBrothers-frame}
use projet_pcsea.Proc.End.Father.{Ended, fin_processus-Ended}
use projet_pcsea.Proc.Collect.{waitpid-Collected}
use projet_pcsea.Proc.Collect.Zombie.{first_zombie}

none-else :
    (t : Bool) (c : ℕ) (p : Ptr) → (if t then some c else p) ≡ none → (t ≡ false) × (p ≡ none)
none-else true c p e = cc
none-else false c p e = (refl, e)

-- A new zombie is the first one where there was none.
first_zombie-new :
    (g h : ℕ → Process) (a : ℕ) (bs : List ℕ)
    → mem a bs ≡ true
    → first_zombie g bs ≡ none
    → (h a).state ≡ zombie
    → ((y : ℕ) → mem y bs ≡ true → y ≢ a → (h y).state ≡ (g y).state)
    → first_zombie h bs ≡ some a
unfolding first_zombie
first_zombie-new g h a [] m n z same = cc
first_zombie-new g h a (c ∷ bs) m n z same = elim (Bool-cases (c == a)) [
  | inl e ↦
      let q : c ≡ a = (==_iff c a).0 e in
      let t : is_zombie (h c).state ≡ true = ap (λ y. is_zombie (h y).state) q ∙ ap is_zombie z in
      rw t (ap some q)
  | inr e ↦
      let later : mem a bs ≡ true = ground arith in
      let s : (h c).state ≡ (g c).state = same c (ground arith) (ground arith) in
      let o = none-else (is_zombie (g c).state) c (first_zombie g bs) n in
      rw (ap is_zombie s ∙ o.0)
        (first_zombie-new g h a bs later o.1 z (λ y i ne. same y (ground arith) ne))
]

module _ (v : ℤ) (fuel a f x : ℕ) (xs cs bs : List ℕ) (s : Sched) (runs : s.actif ≡ some a)
    (father : (s.process a).pere ≡ some f) (own : mem a cs ≡ false) (d : Distinct cs) (k : DeadOk s)
    (b : AreBrothers s.process (s.process a).premier_fils cs) (q : s.queue ≡ x ∷ xs)
    (h : length cs < suc fuel) (n : 0 < s.process_alive) (w : s.process_alive < 2 ^ 32)
    (next : last x xs ≡ f) (brothers : AreBrothers s.process (s.process f).premier_fils bs)
    (child : mem a bs ≡ true) (apart : (y : ℕ) → mem y bs ≡ true → mem y cs ≡ false)
    (living : first_zombie s.process bs ≡ none) where
  abbrev s1 : Sched
  s1 = set_retval (some v) a s

  same_links :
      (y : ℕ)
      → ((s1.process y).pere ≡ (s.process y).pere)
        × ((s1.process y).frere_droit ≡ (s.process y).frere_droit)
        × ((s1.process y).premier_fils ≡ (s.process y).premier_fils)
        × ((s1.process y).state ≡ (s.process y).state)
        × ((s1.process y).pid ≡ (s.process y).pid)
  unfolding with_retval
  same_links y = ground arith

  own_value : (s1.process a).retval ≡ some v
  unfolding with_retval
  own_value = ground arith

  exit-Ended : Returns (Ended s1 a x xs cs) (exit (suc fuel) v s)
  unfolding exit
  exit-Ended =
      subst
        (λ p.
          Returns (Ended s1 a x xs cs)
            (do actif ← deref p; fin_processus (suc fuel) (set_retval (some v) actif s)))
        (sym runs)
        (fin_processus-Ended fuel a f x xs cs s1 runs ((same_links a).0 ∙ father) own d k
          (subst (λ r. AreBrothers s1.process r cs) (sym (same_links a).2)
            (AreBrothers-frame s.process s1.process _ cs (λ y. (same_links y).1) b))
          q h n w)

  -- The children of the father after the end of one of them.
  still_brothers :
      (t : Sched) → Ended s1 a x xs cs t → AreBrothers t.process (t.process f).premier_fils bs
  still_brothers t e =
      subst (λ r. AreBrothers t.process r bs) (sym ((e.kept f).1 ∙ (same_links f).2))
        (AreBrothers-frame s.process t.process _ bs (λ y. (e.kept y).0 ∙ (same_links y).1) brothers)

  first_one : (t : Sched) → Ended s1 a x xs cs t → first_zombie t.process bs ≡ some a
  first_one t e =
      first_zombie-new s.process t.process a bs child living e.zombie_now
        (λ y i ne. e.others y (apart y i) ne ∙ (same_links y).3)

  -- What a child gives to exit, its father gets from waitpid: after exit the father runs, where it is the
  -- ready process of highest priority, and waitpid for any child gives it the pid of the child and the value; the
  -- child is dead then. No other child has ended before, the two lists of children are proper and apart,
  -- the loops have enough rounds, and the interrupts of the wait leave the state as it is.
  pub exit-waitpid :
      (rounds : ℕ)
      → length bs ≤ rounds
      → Returns {A = ℤ × Option ℤ × Sched}
          (λ out.
            (out.0 ≡ pos (s.process a).pid)
            × (out.1 ≡ some v)
            × ((out.2.process a).state ≡ mort)
            × (out.2.actif ≡ some f))
          (exit (suc fuel) v s >>= waitpid (λ n t. t) rounds minus_one true)
  exit-waitpid rounds enough = Returns-bind _ (exit (suc fuel) v s) _ exit-Ended (λ t e.
      Returns-mono _ (waitpid (λ n t. t) rounds minus_one true t)
        (waitpid-Collected (λ n t. t) rounds f a bs t (λ n. refl) (e.runs ∙ ap some next) e.dead_ok
          (still_brothers t e) (first_one t e) enough)
        (λ out c. (
          c.pid ∙ ap pos ((e.kept a).3 ∙ (same_links a).4),
          c.retval ∙ (e.kept a).2 ∙ own_value,
          c.dead,
          c.actif,
        )))
