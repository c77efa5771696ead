-- ===== src/Proc/Bury.antt =====
-- insert_mort of kernel/proc.c: the process is dead.
use mathlib.Core.Bool.{false≢true}
use projet_pcsea.Common.{
  ℕ, ◌≡◌, refl, ◌≢◌, true, false, Bool-cases, Option-cases, inl, inr, some, none, arith, ap, sym,
  ◌∙◌,
}
use projet_pcsea.Common.Outcome.{ok, fault, ◌>>=◌, Returns}
use projet_pcsea.Proc.State.{
  Process, Sched, mort, deref, is_null, with_suiv, with_state, set_suiv, set_state,
}
use projet_pcsea.Proc.Lists.{insert_mort}

-- The list of the dead has a tail wherever it has a head.
abbrev pub DeadOk : Sched → Type 0
DeadOk s = is_null s.dead_list ≡ false → is_null s.dead_tail ≡ false

-- The fields of a process that the end of another one leaves alone.
abbrev pub Kept : Process → Process → Type 0
Kept p q =
    (q.frere_droit ≡ p.frere_droit)
    × (q.premier_fils ≡ p.premier_fils)
    × (q.retval ≡ p.retval)
    × (q.pid ≡ p.pid)

pub Kept-trans : (p q r : Process) → Kept p q → Kept q r → Kept p r
Kept-trans p q r (a, b, c, d) (e, f, g, h) = (e ∙ a, f ∙ b, g ∙ c, h ∙ d)

-- What insert_mort does: the process is dead, and apart from its state only `suiv` fields and the
-- list of the dead change.
pub record Buried (s : Sched) (e : ℕ) (s' : Sched) : Type 0 where
  pub dead : (s'.process e).state ≡ mort
  pub dead_ok : DeadOk s'
  pub states : (y : ℕ) → y ≢ e → (s'.process y).state ≡ (s.process y).state
  pub fathers : (y : ℕ) → (s'.process y).pere ≡ (s.process y).pere
  pub brothers : (y : ℕ) → (s'.process y).frere_droit ≡ (s.process y).frere_droit
  pub kept : (y : ℕ) → Kept (s.process y) (s'.process y)
  pub queue : s'.queue ≡ s.queue
  pub actif : s'.actif ≡ s.actif
  pub alive : s'.process_alive ≡ s.process_alive

abbrev pub first_dead : ℕ → Sched → Sched
first_dead e s =
    set_suiv none e (record (set_state mort e s) { dead_list = some e; dead_tail = some e })

abbrev pub next_dead : ℕ → ℕ → Sched → Sched
next_dead e k s =
    set_suiv none e (record (set_suiv (some e) k (set_state mort e s)) { dead_tail = some e })

pub insert_mort-first :
    (e : ℕ) (s : Sched) → is_null s.dead_list ≡ true → insert_mort e s ≡ ok (first_dead e s)
unfolding insert_mort
insert_mort-first e s h = rw h

pub insert_mort-next :
    (e k : ℕ) (s : Sched)
    → is_null s.dead_list ≡ false
    → s.dead_tail ≡ some k
    → insert_mort e s ≡ ok (next_dead e k s)
unfolding insert_mort
insert_mort-next e k s h t = rw h (
    ap
      (λ p.
        (deref p >>= λ tail.
        ok (record (set_suiv (some e) tail (set_state mort e s)) { dead_tail = some e }))
        >>= λ s2. ok (set_suiv none e s2))
      t)

pub insert_mort-fault :
    (e : ℕ) (s : Sched) → is_null s.dead_list ≡ false → s.dead_tail ≡ none → insert_mort e s ≡ fault
unfolding insert_mort
insert_mort-fault e s h t = rw h (
    ap
      (λ p.
        (deref p >>= λ tail.
        ok (record (set_suiv (some e) tail (set_state mort e s)) { dead_tail = some e }))
        >>= λ s2. ok (set_suiv none e s2))
      t)

pub insert_mort-Buried : (e : ℕ) (s : Sched) → DeadOk s → Returns (Buried s e) (insert_mort e s)
unfolding with_suiv with_state
insert_mort-Buried e s d = elim (Bool-cases (is_null s.dead_list)) [
  | inl h ↦ rw (insert_mort-first e s h) (record {
    dead = ground arith;
    dead_ok = λ h. refl;
    states = λ y ne. ground arith;
    fathers = λ y. ground arith;
    brothers = λ y. ground arith;
    kept = λ y. ground arith;
    queue = refl;
    actif = refl;
    alive = refl;
  })
  | inr h ↦ elim (Option-cases s.dead_tail) [
    | inl t ↦ absurd (false≢true (sym (d h) ∙ ap is_null t))
    | inr (k, t) ↦ rw (insert_mort-next e k s h t) (record {
      dead = ground arith;
      dead_ok = λ h. refl;
      states = λ y ne. ground arith;
      fathers = λ y. ground arith;
      brothers = λ y. ground arith;
      kept = λ y. ground arith;
      queue = refl;
      actif = refl;
      alive = refl;
    })
  ]
]
