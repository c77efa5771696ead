-- ===== src/Proc/Children.antt =====
-- suppression_fils_zombie of kernel/proc.c, the removal of a child from its father's list.
use mathlib.Core.Path.{subst}
use projet_pcsea.Common.{
  ℕ, zero, suc, ◌≡◌, refl, false, ◌==◌, ==_refl, if◌then◌else◌, none, some, sym,
}
use projet_pcsea.Common.Outcome.{Outcome, ok, out_of_fuel, ◌>>=◌}
use projet_pcsea.Proc.State.{Ptr, Sched, deref, is_zombie, set_frere_droit, set_premier_fils}

-- The loop; `prev` is the child looked at before.
unfoldable pub suppression_loop : ℕ → ℕ → ℕ → Ptr → Ptr → Sched → Outcome Sched
suppression_loop zero fils actif prev cur s = out_of_fuel
suppression_loop (suc fuel) fils actif prev none s = ok s
suppression_loop (suc fuel) fils actif prev (some cur) s =
    let on = suppression_loop fuel fils actif (some cur) (s.process cur).frere_droit s in
    let removed : Outcome Sched = (elim prev [
      | none ↦ ok (set_premier_fils none actif s)
      | some p ↦
          let s1 = set_frere_droit (s.process cur).frere_droit p s in
          suppression_loop fuel fils actif (some cur) (s1.process cur).frere_droit s1
    ]) in
    if is_zombie (s.process actif).state then ok s else if cur == fils then removed else on

unfoldable pub suppression_fils_zombie : ℕ → ℕ → Sched → Outcome Sched
unfolding suppression_loop
suppression_fils_zombie fuel fils s = do
  actif ← deref s.actif
  suppression_loop fuel fils actif none (s.process actif).premier_fils s

-- The removal of the first child of a process that is not a zombie empties the list: its brothers are
-- lost with it.
pub suppression_fils_zombie-first :
    (fuel a fils : ℕ) (s : Sched)
    → s.actif ≡ some a
    → (s.process a).premier_fils ≡ some fils
    → is_zombie (s.process a).state ≡ false
    → suppression_fils_zombie (suc fuel) fils s ≡ ok (set_premier_fils none a s)
unfolding suppression_fils_zombie
suppression_fils_zombie-first fuel a fils s runs first living =
    subst
      (λ q.
        (deref q >>= λ actif.
        suppression_loop (suc fuel) fils actif none (s.process actif).premier_fils s)
        ≡ ok (set_premier_fils none a s))
      (sym runs)
      (subst (λ q. suppression_loop (suc fuel) fils a none q s ≡ ok (set_premier_fils none a s))
        (sym first) (rw (living, ==_refl fils) refl))
