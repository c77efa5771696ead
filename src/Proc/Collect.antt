-- ===== src/Proc/Collect.antt =====
-- waitpid of kernel/proc.c where a child has ended already, and where there is no child.
pub mod Zombie
use mathlib.Core.Path.{subst}
use mathlib.Core.Bool.{false≢true}
use projet_pcsea.Common.{
  ℕ, zero, suc, ◌+◌, ◌≤◌, ◌<◌, ◌≡◌, refl, ◌≢◌, Bool, true, false, ◌==◌, ==_refl, ==_iff, ◌&&◌,
  Bool-cases, Option-cases, inl, inr, if◌then◌else◌, Option, some, none, List, [], ◌∷◌, mem, arith,
  ap, sym, ◌∙◌, length,
}
use projet_pcsea.Common.Int.{ℤ, pos, minus_one}
use projet_pcsea.Common.Outcome.{Outcome, ok, ◌>>=◌, Returns, Returns-bind}
use projet_pcsea.Proc.State.{
  Ptr, Process, Sched, mort, is_zombie, is_mort, ptr_eq, is_null, deref, set_retval_fils,
  with_retval_fils, with_suiv, with_state,
}
use projet_pcsea.Proc.Lists.{insert_mort}
use projet_pcsea.Proc.Wait.{
  lift, wait_loop, pid_dun_fils_termine, wait_for, collect, waitpid, find_child,
}
use projet_pcsea.Proc.Bury.{DeadOk, insert_mort-first, insert_mort-next}
use projet_pcsea.Proc.End.{AreBrothers}
use projet_pcsea.Proc.Collect.Zombie.{first_zombie, Found, FoundAt, no_zombie, wait_loop-Found}

-- What waitpid gives for the zombie `c` of the father `a`.
pub record Collected (s : Sched) (a c : ℕ) (r : ℤ) (value : Option ℤ) (s' : Sched) : Type 0 where
  pub pid : r ≡ pos (s.process c).pid
  pub retval : value ≡ (s.process c).retval
  pub dead : (s'.process c).state ≡ mort
  pub taken : (s'.process a).retval_fils ≡ none
  pub queue : s'.queue ≡ s.queue
  pub actif : s'.actif ≡ some a

-- What waitpid does behind the wait.
abbrev hand_out : ℤ → Sched → ℕ → Option ℤ → Outcome (ℤ × Option ℤ × Sched)
hand_out r s1 actif none = ok (r, none, s1)
hand_out r s1 actif (some v) = ok (r, some v, set_retval_fils none actif s1)

abbrev CollectedBy : Sched → ℕ → ℕ → ℤ × Option ℤ × Sched → Type 0
CollectedBy s a c out = Collected s a c out.0 out.1 out.2

hand_out-Collected :
    (s s1 : Sched) (a c : ℕ) (o : Option ℤ)
    → s.actif ≡ some a
    → Found s a c s1
    → (s1.process a).retval_fils ≡ o
    → Returns (CollectedBy s a c) (hand_out (pos (s.process c).pid) s1 a o)
unfolding with_retval_fils
hand_out-Collected s s1 a c none runs f e = record {
  pid = refl;
  retval = sym e ∙ f.value;
  dead = f.dead;
  taken = e;
  queue = f.queue;
  actif = f.actif ∙ runs;
}
hand_out-Collected s s1 a c (some v) runs f e = record {
  pid = refl;
  retval = sym e ∙ f.value;
  dead = ground (arith, f.dead);
  taken = ground arith;
  queue = f.queue;
  actif = f.actif ∙ runs;
}

module _ (others : ℕ → Sched → Sched) (s : Sched) (quiet : (n : ℕ) → others n s ≡ s) (a c x : ℕ)
    (xs : List ℕ) (runs : s.actif ≡ some a) (d : DeadOk s)
    (first : (s.process a).premier_fils ≡ some x)
    (b : AreBrothers s.process (s.process x).frere_droit xs)
    (z : first_zombie s.process (x ∷ xs) ≡ some c) where
  wait_for-Found :
      (fuel : ℕ)
      → length xs ≤ fuel
      → Returns {A = ℤ × Sched}
          (λ out. (out.0 ≡ pos (s.process c).pid) × Found s a c out.1)
          (wait_for others (suc fuel) minus_one s)
  unfolding wait_for pid_dun_fils_termine
  wait_for-Found fuel h =
      Returns-bind _ (pid_dun_fils_termine others (suc fuel) minus_one s) _
        (subst
          (λ q. Returns (FoundAt others s a c) (do
            actif ← deref q
            wait_loop others (suc fuel) 0 minus_one actif (s.process actif).premier_fils s))
          (sym runs)
          (subst
            (λ q. Returns (FoundAt others s a c) (wait_loop others (suc fuel) 0 minus_one a q s))
            (sym first) (wait_loop-Found others s quiet a c d fuel 0 x xs h b z)))
        (λ (p, s1) (e, f). (ap pos e, f))

  -- waitpid for any child, with the first one.
  abbrev any_from : ℕ → Ptr → Outcome (ℤ × Option ℤ × Sched)
  any_from fuel first =
      if (if is_null first then false else true)
      then collect others (suc fuel) minus_one true s
      else ok (minus_one, none, s)

  collect-Collected :
      (fuel : ℕ)
      → length xs ≤ fuel
      → Returns (CollectedBy s a c) (collect others (suc fuel) minus_one true s)
  unfolding collect
  collect-Collected fuel h =
      Returns-bind _ (wait_for others (suc fuel) minus_one s) _ (wait_for-Found fuel h)
        (λ (r, s1) (e, f).
          subst
            (λ q.
              Returns (CollectedBy s a c)
                (do actif ← deref q; hand_out r s1 actif (s1.process actif).retval_fils))
            (sym (f.actif ∙ runs))
            (subst (λ q. Returns (CollectedBy s a c) (hand_out q s1 a (s1.process a).retval_fils))
              (sym e) (hand_out-Collected s s1 a c (s1.process a).retval_fils runs f refl)))

  any-Collected :
      (fuel : ℕ)
      → length xs ≤ fuel
      → Returns (CollectedBy s a c) (waitpid others (suc fuel) minus_one true s)
  unfolding waitpid
  any-Collected fuel h =
      subst
        (λ q.
          Returns (CollectedBy s a c)
            (do actif ← deref q; any_from fuel (s.process actif).premier_fils))
        (sym runs)
        (subst (λ q. Returns (CollectedBy s a c) (any_from fuel q)) (sym first)
          (collect-Collected fuel h))

pub waitpid-Collected :
    (others : ℕ → Sched → Sched) (fuel a c : ℕ) (cs : List ℕ) (s : Sched)
    → ((n : ℕ) → others n s ≡ s)
    → s.actif ≡ some a
    → DeadOk s
    → AreBrothers s.process (s.process a).premier_fils cs
    → first_zombie s.process cs ≡ some c
    → length cs ≤ fuel
    → Returns {A = ℤ × Option ℤ × Sched}
        (λ out. Collected s a c out.0 out.1 out.2)
        (waitpid others fuel minus_one true s)
waitpid-Collected others fuel a c [] s quiet runs d b z h =
    absurd (no_zombie others s quiet a c d z)
waitpid-Collected others zero a c (x ∷ xs) s quiet runs d b z h = absurd (omega arith)
waitpid-Collected others (suc fuel) a c (x ∷ xs) s quiet runs d b z h =
    any-Collected others s quiet a c x xs runs d b.0 b.1 z fuel (omega arith)

find_child-none :
    (fuel p : ℕ) (f : ℕ → Process) (q : Ptr) (cs : List ℕ)
    → AreBrothers f q cs
    → ((c : ℕ) → mem c cs ≡ true → (f c).pid ≡ p → is_mort (f c).state ≡ true)
    → length cs < fuel
    → find_child fuel f p q ≡ ok false
unfolding find_child
find_child-none zero p f q cs b out h = absurd (omega arith)
find_child-none (suc fuel) p f q [] b out h =
    subst (λ r. find_child (suc fuel) f p r ≡ ok false) (sym b) refl
find_child-none (suc fuel) p f q (c ∷ cs) b out h =
    let ih : find_child fuel f p (f c).frere_droit ≡ ok false =
      find_child-none fuel p f (f c).frere_droit cs b.1 (λ y i. out y (ground arith))
        (omega arith) in
    subst (λ r. find_child (suc fuel) f p r ≡ ok false) (sym b.0)
      (elim (Bool-cases ((f c).pid == p)) [
        | inl e ↦ rw (e, out c (ground (arith, ==_refl c)) ((==_iff (f c).pid p).0 e)) refl
        | inr e ↦
            rw (e, ih)
              (elim (Bool-cases (ptr_eq (some c) (f c).frere_droit)) [
                | inl k ↦ rw k refl
                | inr k ↦ rw k refl
              ])
      ])

-- waitpid gives -1 at once, and changes nothing, for a pid that no living child has: of a process
-- that is no child, or of one that has been waited for already. The children `cs` of the running
-- process form a proper list, and the loop has more rounds than there are children.
pub waitpid-refuses :
    (others : ℕ → Sched → Sched) (fuel p a : ℕ) (has_retvalp : Bool) (cs : List ℕ) (s : Sched)
    → s.actif ≡ some a
    → AreBrothers s.process (s.process a).premier_fils cs
    → ((c : ℕ) → mem c cs ≡ true → (s.process c).pid ≡ p → is_mort (s.process c).state ≡ true)
    → length cs < fuel
    → waitpid others fuel (pos p) has_retvalp s ≡ ok (minus_one, none, s)
unfolding waitpid
waitpid-refuses others fuel p a has_retvalp cs s runs b out h =
    ap
      (λ q. do
        actif ← deref q
        found ← find_child fuel s.process p (s.process actif).premier_fils
        if found then collect others fuel (pos p) has_retvalp s else ok (minus_one, none, s))
      runs
    ∙ rw (find_child-none fuel p s.process (s.process a).premier_fils cs b out h) refl
