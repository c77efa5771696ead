-- ===== src/Message/Release.antt =====
-- pdelete and preset of kernel/message.c and the processes that wait at the queue.
use projet_pcsea.Common.{
  ℕ, zero, suc, ◌≡◌, refl, ◌≢◌, false, ==_refl, Bool-cases, inl, inr, arith, ap, ◌∙◌,
}
use projet_pcsea.Common.Int.{ℤ}
use projet_pcsea.Common.Outcome.{
  Outcome, ok, fault, out_of_fuel, Yields, Yields-bind, Yields-mono, not-ok,
}
use projet_pcsea.Proc.State.{Ptr, deref}
use projet_pcsea.Proc.Lists.{insert_activable}
use projet_pcsea.Fifo.{is_empty, add_process, extract_process}
use projet_pcsea.Message.{
  Messages, number, invalid, announce, release, prod_loop, consum_loop, pdelete,
}

-- What the loops never change.
record Kept {A : Type 0} (i : ℕ) (m m' : Messages A) : Type 0 where
  pub receivers : (m'.fifo_tab i).prod ≡ (m.fifo_tab i).prod
  pub refused : m'.should_receive_negative_one ≡ m.should_receive_negative_one

any : {B : Type 0} (r : Outcome B) → Yields (λ _. Unit {0}) r
any (ok b) = tt
any fault = tt
any out_of_fuel = tt

module _ {A : Type 0} (mem_alloc : ℕ → A → Ptr × A) (mem_free : ℕ → ℕ → A → A) where
  release-Kept :
      (i : ℕ) (list : Ptr) (m : Messages A)
      → Yields (Kept i m) (release mem_alloc mem_free i list m)
  unfolding release announce
  release-Kept i list m =
      Yields-bind _ (extract_process mem_alloc mem_free list m.store) _ (any _)
        (λ (list1, tmp, st) _. Yields-bind _ (deref tmp) _ (any _) (λ p _.
          Yields-bind _ (insert_activable p m.sched) _ (any _) (λ sc _.
            Yields-bind _ (deref tmp) _ (any _) (λ q _.
              Yields-bind _ (add_process mem_alloc mem_free m.should_receive_negative_one q st) _
                (any _) (λ (l, st1) _. record { receivers = ground arith; refused = refl })))))

  prod_loop-endless :
      (fuel i : ℕ) (m : Messages A)
      → is_empty (m.fifo_tab i).prod ≡ false
      → Yields (λ _. ⊥) (prod_loop mem_alloc mem_free fuel i m)
  unfolding prod_loop
  prod_loop-endless zero i m h = tt
  prod_loop-endless (suc fuel) i m h = rw h (
      Yields-bind _ (release mem_alloc mem_free i (m.fifo_tab i).prod m) _
        (release-Kept i (m.fifo_tab i).prod m)
        (λ m1 k. prod_loop-endless fuel i m1 (ap is_empty k.receivers ∙ h)))

  consum_loop-Kept :
      (fuel i : ℕ) (m : Messages A) → Yields (Kept i m) (consum_loop mem_alloc mem_free fuel i m)
  unfolding consum_loop
  consum_loop-Kept zero i m = tt
  consum_loop-Kept (suc fuel) i m = elim (Bool-cases (is_empty (m.fifo_tab i).consum)) [
    | inl e ↦ rw e (record { receivers = refl; refused = refl })
    | inr e ↦ rw e (
        Yields-bind _ (release mem_alloc mem_free i (m.fifo_tab i).consum m) _
          (release-Kept i (m.fifo_tab i).consum m)
          (λ m1 k.
            Yields-mono _ (consum_loop mem_alloc mem_free fuel i m1) (consum_loop-Kept fuel i m1)
              (λ m2 l. record {
                receivers = l.receivers ∙ k.receivers;
                refused = l.refused ∙ k.refused;
              })))
  ]

  -- pdelete of a valid queue at which a process waits to receive never returns: its second loop
  -- tests the list of receivers and changes the other one.
  pub pdelete-endless :
      (fuel : ℕ) (fid : ℤ) (m : Messages A) (out : ℤ × Messages A)
      → invalid fid m ≡ false
      → is_empty (m.fifo_tab (number fid)).prod ≡ false
      → pdelete mem_alloc mem_free fuel fid m ≢ ok out
  unfolding pdelete
  pdelete-endless fuel fid m out valid waiting = not-ok _ out (
      rw valid (
        Yields-bind _ (consum_loop mem_alloc mem_free fuel (number fid) _) _
          (consum_loop-Kept fuel (number fid) _)
          (λ m2 k.
            Yields-bind _ (prod_loop mem_alloc mem_free fuel (number fid) m2) _
              (prod_loop-endless fuel (number fid) m2
                (ap is_empty (k.receivers ∙ rw (==_refl (number fid)) refl) ∙ waiting))
              (λ m3 f. f))))
