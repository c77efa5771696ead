-- ===== src/Proc/Sleepers.antt =====
-- The list of sleepers of kernel/proc.c: a chain through `suiv` from endormi_list to endormi_tail.
use mathlib.Core.Path.{subst}
use projet_pcsea.Common.{
  ℕ, suc, ◌≤◌, ◌<◌, ◌≡◌, refl, ◌≢◌, true, false, ==_refl, ==_ne, leb, some, none, List, [], ◌∷◌,
  mem, mem-ne, Distinct, arith, ap, sym,
}
use projet_pcsea.Common.Outcome.{ok}
use projet_pcsea.Queue.Spec.{last, top, mem-last}
use projet_pcsea.Proc.State.{Ptr, Process, Sched, is_null, with_suiv, with_state, set_suiv}
use projet_pcsea.Proc.Lists.{extract_endormi, wake_loop, wake_process}
use projet_pcsea.Proc.Activable.{activated, insert_activable_lem}

-- From `p` the `suiv` fields lead through `xs` to NULL.
abbrev pub IsChain : (ℕ → Process) → Ptr → List ℕ → Type 0
IsChain f p [] = p ≡ none
IsChain f p (x ∷ xs) = (p ≡ some x) × IsChain f (f x).suiv xs

abbrev pub head? : List ℕ → Ptr
head? [] = none
head? (x ∷ xs) = some x

-- The sleepers are `xs`, the first to wake first.
pub record Sleepers (s : Sched) (xs : List ℕ) : Type 0 where
  pub chain : IsChain s.process s.endormi_list xs
  pub tail : s.endormi_tail ≡ top xs
  pub distinct : Distinct xs

pub IsChain-head : (f : ℕ → Process) (p : Ptr) (xs : List ℕ) → IsChain f p xs → p ≡ head? xs
IsChain-head f p [] c = c
IsChain-head f p (x ∷ xs) c = c.0

-- A chain survives a change of the table that keeps the `suiv` fields of its elements.
pub IsChain-frame :
    (f g : ℕ → Process) (p : Ptr) (xs : List ℕ)
    → ((y : ℕ) → mem y xs ≡ true → (g y).suiv ≡ (f y).suiv)
    → IsChain f p xs
    → IsChain g p xs
IsChain-frame f g p [] same c = c
IsChain-frame f g p (x ∷ xs) same c = (
  c.0,
  subst (λ r. IsChain g r xs) (sym (same x (ground arith)))
      (IsChain-frame f g (f x).suiv xs (λ y h. same y (ground arith)) c.1),
)

-- The state after extract_endormi.
abbrev pub left : ℕ → List ℕ → Sched → Sched
left x xs s = set_suiv none x (record s { endormi_list = head? xs; endormi_tail = top xs })

pub extract_endormi_lem :
    (s : Sched) (x : ℕ) (xs : List ℕ)
    → Sleepers s (x ∷ xs)
    → extract_endormi s ≡ ok (x, left x xs s)
unfolding extract_endormi
extract_endormi_lem s x [] l = rw (l.chain.0, l.tail, ==_refl x)
extract_endormi_lem s x (y ∷ ys) l =
    let ne : x ≢ last y ys =
      λ e. mem-ne (last y ys) x (y ∷ ys) (mem-last y ys) l.distinct.0 (sym e) in
    rw (l.chain.0, l.tail, ==_ne ne, l.chain.1.0)

pub left-Sleepers :
    (s : Sched) (x : ℕ) (xs : List ℕ) → Sleepers s (x ∷ xs) → Sleepers (left x xs s) xs
unfolding with_suiv
left-Sleepers s x xs l = record {
  chain =
      IsChain-frame s.process (left x xs s).process (head? xs) xs
        (λ y h. ground (arith, mem-ne y x xs h l.distinct.0))
        (subst (λ p. IsChain s.process p xs)
          (IsChain-head s.process (s.process x).suiv xs l.chain.1) l.chain.1);
  tail = refl;
  distinct = l.distinct.1;
}

-- Putting a process that does not sleep into the queue leaves the sleepers as they are.
pub activated-Sleepers :
    (s : Sched) (e : ℕ) (xs : List ℕ)
    → mem e xs ≡ false
    → Sleepers s xs
    → Sleepers (activated e s) xs
unfolding with_suiv with_state
activated-Sleepers s e xs out l = record {
  chain =
      IsChain-frame s.process (activated e s).process s.endormi_list xs
        (λ y h. ground (arith, mem-ne y e xs h out)) l.chain;
  tail = l.tail;
  distinct = l.distinct;
}

-- The state after wake_process has woken `x`.
abbrev pub woken : ℕ → List ℕ → Sched → Sched
woken x xs s = activated x (left x xs s)

suiv-woken : (x : ℕ) (xs : List ℕ) (s : Sched) → ((woken x xs s).process x).suiv ≡ none
unfolding with_suiv
suiv-woken x xs s = ground arith

-- wake_process wakes the first sleeper, if its time has come, and no other: the loop goes on from
-- the `suiv` of the process that it has just taken out of the list, which is NULL.
pub wake_process-first :
    (fuel : ℕ) (s : Sched) (x : ℕ) (xs : List ℕ)
    → Sleepers s (x ∷ xs)
    → (s.process x).time_to_wake ≤ s.nb_tick
    → mem x s.queue ≡ false
    → (wake_process (suc (suc fuel)) s ≡ ok (woken x xs s)) × Sleepers (woken x xs s) xs
unfolding wake_process wake_loop
wake_process-first fuel s x xs l due out = (
  subst (λ p. wake_loop (suc (suc fuel)) p s ≡ ok (woken x xs s)) (sym l.chain.0)
      (let d : leb (s.process x).time_to_wake s.nb_tick ≡ true = ground arith in
        rw (d, ap is_null l.tail, extract_endormi_lem s x xs l, insert_activable_lem, out)
          (ap (λ p. wake_loop (suc fuel) p (woken x xs s)) (suiv-woken x xs s))),
  activated-Sleepers (left x xs s) x xs l.distinct.0 (left-Sleepers s x xs l),
)

-- Where the time of the first sleeper has not come, wake_process changes nothing.
pub wake_process-none :
    (fuel : ℕ) (s : Sched) (x : ℕ) (xs : List ℕ)
    → Sleepers s (x ∷ xs)
    → s.nb_tick < (s.process x).time_to_wake
    → wake_process (suc fuel) s ≡ ok s
unfolding wake_process wake_loop
wake_process-none fuel s x xs l late =
    let e : leb (s.process x).time_to_wake s.nb_tick ≡ false = ground arith in
    subst (λ p. wake_loop (suc fuel) p s ≡ ok s) (sym l.chain.0) (rw e)

pub wake_process-empty : (fuel : ℕ) (s : Sched) → Sleepers s [] → wake_process (suc fuel) s ≡ ok s
unfolding wake_process wake_loop
wake_process-empty fuel s l = subst (λ p. wake_loop (suc fuel) p s ≡ ok s) (sym l.chain) refl
