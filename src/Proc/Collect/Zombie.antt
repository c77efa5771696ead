-- ===== src/Proc/Collect/Zombie.antt =====
-- The wait of waitpid of kernel/proc.c for any child, where one is a zombie already.
use mathlib.Core.Path.{subst}
use mathlib.Core.Bool.{false≢true}
use projet_pcsea.Common.{
  ℕ, zero, suc, ◌+◌, ◌≤◌, ◌≡◌, refl, ◌≢◌, true, false, ◌&&◌, Bool-cases, Option-cases, inl, inr,
  if◌then◌else◌, some, none, List, [], ◌∷◌, arith, ap, sym, ◌∙◌, length,
}
use projet_pcsea.Common.Int.{minus_one}
use projet_pcsea.Common.Outcome.{Outcome, ok, ◌>>=◌, Returns, Returns-bind}
use projet_pcsea.Proc.State.{
  Ptr, Process, Sched, mort, is_zombie, is_null, deref, set_retval_fils, with_retval_fils,
  with_suiv, with_state,
}
use projet_pcsea.Proc.Lists.{insert_mort}
use projet_pcsea.Proc.Wait.{lift, wait_loop}
use projet_pcsea.Proc.Bury.{DeadOk, insert_mort-first, insert_mort-next}
use projet_pcsea.Proc.End.{AreBrothers}

-- The first zombie of the list.
unfoldable pub first_zombie : (ℕ → Process) → List ℕ → Ptr
first_zombie f [] = none
first_zombie f (c ∷ cs) = if is_zombie (f c).state then some c else first_zombie f cs

-- What the wait makes of the zombie `c`: it is dead, and its value is with the father `a`.
pub record Found (s : Sched) (a c : ℕ) (s' : Sched) : Type 0 where
  pub dead : (s'.process c).state ≡ mort
  pub value : (s'.process a).retval_fils ≡ (s.process c).retval
  pub queue : s'.queue ≡ s.queue
  pub actif : s'.actif ≡ s.actif
  pub alive : s'.process_alive ≡ s.process_alive

abbrev handed : ℕ → ℕ → Sched → Sched
handed a c s = set_retval_fils (s.process c).retval a s

insert_mort-Found :
    (s : Sched) (a c : ℕ) → DeadOk s → Returns (Found s a c) (insert_mort c (handed a c s))
unfolding with_retval_fils with_suiv with_state
insert_mort-Found s a c d = elim (Bool-cases (is_null s.dead_list)) [
  | inl h ↦ rw (insert_mort-first c (handed a c s) h) (record {
    dead = ground arith;
    value = ground arith;
    queue = refl;
    actif = refl;
    alive = refl;
  })
  | inr h ↦ elim (Option-cases s.dead_tail) [
    | inl t ↦ absurd (false≢true (sym (d h) ∙ ap is_null t))
    | inr (k, t) ↦ rw (insert_mort-next c k (handed a c s) h t) (record {
      dead = ground arith;
      value = ground arith;
      queue = refl;
      actif = refl;
      alive = refl;
    })
  ]
]

some-inj : (x c : ℕ) → some x ≡ some c → x ≡ c
some-inj x c e = cc

module _ (others : ℕ → Sched → Sched) where
  -- The step from one child to the next, whose brother on the right is `right`.
  abbrev step_on : ℕ → ℕ → ℕ → Sched → Ptr → Outcome (ℕ × Sched)
  step_on fuel n a s right = do
    next ← deref (if is_null right then (s.process a).premier_fils else right)
    s2 ← lift others fuel (n + 1) minus_one a next s
    wait_loop others fuel (n + 2) minus_one a (some next) s2

  -- A round of the loop behind the interrupts.
  abbrev round : ℕ → ℕ → ℕ → ℕ → Sched → Outcome (ℕ × Sched)
  round fuel n a x s =
      let found = (do s3 ← insert_mort x (handed a x s); ok ((s.process x).pid, s3)) in
      if is_zombie (s.process x).state && true
      then found
      else step_on fuel n a s (s.process x).frere_droit

  wait_loop-round :
      (fuel n a x : ℕ) (s : Sched)
      → others n s ≡ s
      → wait_loop others (suc fuel) n minus_one a (some x) s ≡ round fuel n a x s
  unfolding wait_loop
  wait_loop-round fuel n a x s q = ap (round fuel n a x) q

  -- What a wait for any child gives.
  abbrev pub FoundAt : Sched → ℕ → ℕ → ℕ × Sched → Type 0
  FoundAt s a c out = (out.0 ≡ (s.process c).pid) × Found s a c out.1

  module _ (s : Sched) (quiet : (n : ℕ) → others n s ≡ s) (a c : ℕ) (d : DeadOk s) where
    round-zombie :
        (fuel n : ℕ)
        → is_zombie (s.process c).state ≡ true
        → Returns (FoundAt s a c) (round fuel n a c s)
    round-zombie fuel n z = rw z (
        Returns-bind _ (insert_mort c (handed a c s)) _ (insert_mort-Found s a c d)
          (λ s3 f. (refl, f)))

    here :
        (fuel n x : ℕ)
        → x ≡ c
        → is_zombie (s.process x).state ≡ true
        → Returns (FoundAt s a c) (round fuel n a x s)
    here fuel n x e y =
        subst
          (λ q. is_zombie (s.process q).state ≡ true → Returns (FoundAt s a c) (round fuel n a q s))
          (sym e) (round-zombie fuel n) y

    first_zombie-here :
        (x : ℕ) (xs : List ℕ)
        → first_zombie s.process (x ∷ xs) ≡ some c
        → is_zombie (s.process x).state ≡ true
        → x ≡ c
    unfolding first_zombie
    first_zombie-here x xs z y = some-inj x c (sym (rw y refl) ∙ z)

    first_zombie-behind :
        (x : ℕ) (xs : List ℕ)
        → first_zombie s.process (x ∷ xs) ≡ some c
        → is_zombie (s.process x).state ≡ false
        → first_zombie s.process xs ≡ some c
    unfolding first_zombie
    first_zombie-behind x xs z w = sym (rw w refl) ∙ z

    pub no_zombie : first_zombie s.process [] ≢ some c
    unfolding first_zombie
    no_zombie e = cc

    at_next :
        (fuel n y : ℕ)
        → Returns (FoundAt s a c) (wait_loop others (suc fuel) (n + 2) minus_one a (some y) s)
        → Returns (FoundAt s a c) (step_on (suc fuel) n a s (some y))
    unfolding lift
    at_next fuel n y r = r

    pub wait_loop-Found :
        (fuel n x : ℕ) (xs : List ℕ)
        → length xs ≤ fuel
        → AreBrothers s.process (s.process x).frere_droit xs
        → first_zombie s.process (x ∷ xs) ≡ some c
        → Returns (FoundAt s a c) (wait_loop others (suc fuel) n minus_one a (some x) s)
    wait_loop-Found fuel n x [] h b z =
        rw (wait_loop-round fuel n a x s (quiet n))
          (elim (Bool-cases (is_zombie (s.process x).state)) [
            | inl y ↦ here fuel n x (first_zombie-here x [] z y) y
            | inr w ↦ absurd (no_zombie (first_zombie-behind x [] z w))
          ])
    wait_loop-Found zero n x (y ∷ ys) h b z = absurd (omega arith)
    wait_loop-Found (suc fuel) n x (y ∷ ys) h b z =
        rw (wait_loop-round (suc fuel) n a x s (quiet n))
          (elim (Bool-cases (is_zombie (s.process x).state)) [
            | inl k ↦ here (suc fuel) n x (first_zombie-here x (y ∷ ys) z k) k
            | inr w ↦ rw w (
                subst (λ q. Returns (FoundAt s a c) (step_on (suc fuel) n a s q)) (sym b.0)
                  (at_next fuel n y (
                    wait_loop-Found fuel (n + 2) y ys (omega arith) b.1
                      (first_zombie-behind x (y ∷ ys) z w))))
          ])
