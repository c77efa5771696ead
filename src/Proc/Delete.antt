-- ===== src/Proc/Delete.antt =====
-- sleep_del of kernel/proc.c on the chain of sleepers.
pub mod Behind
use mathlib.Core.Path.{subst}
use mathlib.Core.Bool.{false≢true}
use projet_pcsea.Common.{
  ℕ, zero, suc, ◌<◌, ◌≡◌, refl, ◌≢◌, Bool, true, false, ◌==◌, ==_ne, ==_refl, Bool-cases,
  Option-cases, inl, inr, if◌then◌else◌, some, none, List, [], ◌∷◌, mem, mem-ne, Distinct, arith,
  ap, sym, ◌∙◌, length,
}
use projet_pcsea.Common.Int.{ℤ, pos, minus_one}
use projet_pcsea.Common.Outcome.{Outcome, ◌>>=◌, Returns, Returns-mono, Returns-bind}
use projet_pcsea.Queue.Spec.{last, top, remove, mem-last, mem-remove, remove-Distinct}
use projet_pcsea.Proc.State.{
  Ptr, Sched, mort, is_null, deref, ptr_eq, with_suiv, with_state, set_suiv,
}
use projet_pcsea.Proc.Lists.{
  insert_mort, cut_first, cut_sleeper, sleep_del_from, sleep_del, sleep_del_loop,
}
use projet_pcsea.Proc.Sleepers.{IsChain, IsChain-frame, Sleepers, head?, IsChain-head}
use projet_pcsea.Proc.Bury.{DeadOk, insert_mort-first, insert_mort-next}
use projet_pcsea.Proc.Args.{OwnPids}
use projet_pcsea.Proc.Delete.Behind.{Cut, insert_mort-Cut, Deleted, Missed, sleep_del_loop-Deleted}

-- The chain from a first sleeper on that stays.
Sleepers-Deleted :
    (p x : ℕ) (xs : List ℕ) (s m : Sched)
    → Sleepers s (x ∷ xs)
    → Deleted s x xs (remove p xs) p m
    → Sleepers m (x ∷ remove p xs)
Sleepers-Deleted p x xs s m l k = record {
  chain = (k.head ∙ l.chain.0, k.chain);
  tail = k.tail;
  distinct = (
    ground (arith, mem-remove p x xs l.distinct.1, l.distinct.0),
    remove-Distinct p xs l.distinct.1,
  );
}

abbrev first_if : ℕ → Sched → Bool → Outcome Sched
first_if p s b =
    let s1 = (if b then record s { endormi_tail = none } else s) in
    insert_mort p (set_suiv none p (record s1 { endormi_list = (s.process p).suiv }))

cut_first-first_if :
    (p : ℕ) (s : Sched) (b : Bool)
    → ptr_eq s.endormi_list s.endormi_tail ≡ b
    → cut_first p s ≡ first_if p s b
unfolding cut_first
cut_first-first_if p s b h = ap (first_if p s) h

module _ (p : ℕ) (xs : List ℕ) (s : Sched) (dk : DeadOk s) (l : Sleepers s (p ∷ xs))
    (out : (z : ℕ) → mem z (p ∷ xs) ≡ true → s.dead_tail ≢ some z) where
  Cut-Sleepers :
      (t : Ptr) (m : Sched)
      → t ≡ top xs
      → Cut (set_suiv none p (record s { endormi_tail = t; endormi_list = (s.process p).suiv })) p m
      → Sleepers m xs × ((m.process p).state ≡ mort)
  unfolding with_suiv
  Cut-Sleepers t m q k = (
    record {
      chain = rw k.head (
          IsChain-frame s.process m.process (s.process p).suiv xs
            (λ y i.
              let np : y ≢ p = mem-ne y p xs i l.distinct.0 in
              k.links y np (out y (ground arith)) ∙ ground arith)
            l.chain.1);
      tail = k.tail ∙ q;
      distinct = l.distinct.1;
    },
    k.dead,
  )

cut_first-Sleepers :
    (p : ℕ) (xs : List ℕ) (s : Sched)
    → DeadOk s
    → Sleepers s (p ∷ xs)
    → ((z : ℕ) → mem z (p ∷ xs) ≡ true → s.dead_tail ≢ some z)
    → Returns (λ m. Sleepers m xs × ((m.process p).state ≡ mort)) (cut_first p s)
cut_first-Sleepers p [] s dk l out =
    let h : ptr_eq s.endormi_list s.endormi_tail ≡ true = rw (l.chain.0, l.tail) (==_refl p) in
    rw (cut_first-first_if p s true h) (
      Returns-mono _ (first_if p s true) (insert_mort-Cut p _ dk)
        (λ m k. Cut-Sleepers p [] s dk l out none m refl k))
cut_first-Sleepers p (y ∷ ys) s dk l out =
    let ne : p ≢ last y ys =
      λ q. mem-ne (last y ys) p (y ∷ ys) (mem-last y ys) l.distinct.0 (sym q) in
    let h : ptr_eq s.endormi_list s.endormi_tail ≡ false = rw (l.chain.0, l.tail) (==_ne ne) in
    rw (cut_first-first_if p s false h) (
      Returns-mono _ (first_if p s false) (insert_mort-Cut p _ dk)
        (λ m k. Cut-Sleepers p (y ∷ ys) s dk l out s.endormi_tail m l.tail k))

-- What sleep_del leaves of the sleepers `xs`.
pub record Gone (xs : List ℕ) (p : ℕ) (r : ℤ) (s' : Sched) : Type 0 where
  pub sleepers : Sleepers s' (remove p xs)
  pub dead : (s'.process p).state ≡ mort
  pub result : r ≡ (if ptr_eq (head? xs) (some p) then pos 0 else minus_one)

first-Gone :
    (fuel p : ℕ) (xs : List ℕ) (s : Sched)
    → OwnPids s
    → DeadOk s
    → Sleepers s (p ∷ xs)
    → ((z : ℕ) → mem z (p ∷ xs) ≡ true → s.dead_tail ≢ some z)
    → Returns {A = ℤ × Sched}
        (λ out. Gone (p ∷ xs) p out.0 out.1)
        (sleep_del_from fuel p (some p) s)
unfolding sleep_del_from remove
first-Gone fuel p xs s own dk l out =
    let own_pid : ((s.process p).pid == p) ≡ true = ap (λ q. q == p) (own p) ∙ ==_refl p in
    let same : remove p (p ∷ xs) ≡ xs = rw (==_refl p) refl in
    rw own_pid (
      Returns-bind _ (cut_first p s) _ (cut_first-Sleepers p xs s dk l out) (λ m (k, dead). record {
        sleepers = subst (Sleepers m) (sym same) k;
        dead = dead;
        result = rw (==_refl p) refl;
      }))

behind-Gone :
    (fuel p x y : ℕ) (ys : List ℕ) (s : Sched)
    → length ys < fuel
    → OwnPids s
    → DeadOk s
    → Sleepers s (x ∷ y ∷ ys)
    → (x == p) ≡ false
    → mem p (y ∷ ys) ≡ true
    → ((z : ℕ) → mem z (x ∷ y ∷ ys) ≡ true → s.dead_tail ≢ some z)
    → Returns {A = ℤ × Sched}
        (λ out. Gone (x ∷ y ∷ ys) p out.0 out.1)
        (sleep_del_from (suc fuel) p (some x) s)
unfolding sleep_del_from
behind-Gone fuel p x y ys s h own dk l ne i out =
    let other : ((s.process x).pid == p) ≡ false = ap (λ q. q == p) (own x) ∙ ne in
    let kept : remove p (x ∷ y ∷ ys) ≡ x ∷ remove p (y ∷ ys) = unfold remove in rw ne refl in
    rw other (
      subst
        (λ q.
          Returns {A = ℤ × Sched} (λ o. Gone (x ∷ y ∷ ys) p o.0 o.1)
            (sleep_del_loop (suc fuel) p q x s))
        (sym l.chain.1.0)
        (Returns-mono _ (sleep_del_loop (suc fuel) p (some y) x s)
          (sleep_del_loop-Deleted fuel x p y ys s h own dk l.chain.1 i l.tail l.distinct out)
          (λ o (r, k). record {
            sleepers = subst (Sleepers o.1) (sym kept) (Sleepers-Deleted p x (y ∷ ys) s o.1 l k);
            dead = k.dead;
            result = rw ne r;
          })))

from-Gone :
    (fuel p : ℕ) (xs : List ℕ) (s : Sched)
    → length xs < suc fuel
    → OwnPids s
    → DeadOk s
    → Sleepers s xs
    → mem p xs ≡ true
    → ((z : ℕ) → mem z xs ≡ true → s.dead_tail ≢ some z)
    → Returns {A = ℤ × Sched}
        (λ out. Gone xs p out.0 out.1)
        (sleep_del_from (suc fuel) p (head? xs) s)
from-Gone fuel p [] s h own dk l i out = absurd (false≢true i)
from-Gone fuel p (x ∷ []) s h own dk l i out =
    let e : p ≡ x = ground arith in
    subst
      (λ q.
        Returns {A = ℤ × Sched} (λ out. Gone (x ∷ []) q out.0 out.1)
          (sleep_del_from (suc fuel) q (some x) s))
      (sym e) (first-Gone (suc fuel) x [] s own dk l out)
from-Gone fuel p (x ∷ y ∷ ys) s h own dk l i out = elim (Bool-cases (x == p)) [
  | inl same ↦
      let e : p ≡ x = ground arith in
      subst
        (λ q.
          Returns {A = ℤ × Sched} (λ out. Gone (x ∷ y ∷ ys) q out.0 out.1)
            (sleep_del_from (suc fuel) q (some x) s))
        (sym e) (first-Gone (suc fuel) x (y ∷ ys) s own dk l out)
  | inr ne ↦ behind-Gone fuel p x y ys s (omega arith) own dk l ne (ground arith) out
]

pub sleep_del-Gone :
    (fuel p : ℕ) (xs : List ℕ) (s : Sched)
    → length xs < fuel
    → OwnPids s
    → DeadOk s
    → Sleepers s xs
    → mem p xs ≡ true
    → ((z : ℕ) → mem z xs ≡ true → s.dead_tail ≢ some z)
    → Returns {A = ℤ × Sched} (λ out. Gone xs p out.0 out.1) (sleep_del fuel p s)
unfolding sleep_del
sleep_del-Gone zero p xs s h own dk l i out = absurd (omega arith)
sleep_del-Gone (suc fuel) p xs s h own dk l i out =
    subst
      (λ q.
        Returns {A = ℤ × Sched} (λ out. Gone xs p out.0 out.1) (sleep_del_from (suc fuel) p q s))
      (sym (IsChain-head s.process s.endormi_list xs l.chain))
      (from-Gone fuel p xs s h own dk l i out)
