-- ===== src/Proc/System/Block.antt =====
-- A process of kernel/proc.c that goes to sleep without a time: it waits at a message queue.
use mathlib.Core.Bool.{false≢true}
use projet_pcsea.Common.{ℕ, ◌≡◌, ◌≢◌, false, inl, inr, List, mem, mem-ne, arith, ap, sym, ◌∙◌}
use projet_pcsea.Queue.Keys.{IsSorted-same}
use projet_pcsea.Proc.State.{Sched, prios, is_endormi, endormi, with_state, set_state}
use projet_pcsea.Proc.Sleepers.{IsChain-frame}
use projet_pcsea.Proc.Sleep.Place.{times}
use projet_pcsea.Proc.System.{Before, Settled}
use projet_pcsea.Proc.System.Step.{running-awake}

pub Before-blocked :
    (s : Sched) (xs : List ℕ) (h : Settled s xs)
    → 0 ≢ h.running
    → Before (set_state endormi h.running s) h.running xs
unfolding with_state
Before-blocked s xs h ne0 =
    let a = h.running in
    let b = h.before in
    let m : Sched = set_state endormi a s in
    let out : mem a xs ≡ false = running-awake s xs h in
    let same : (y : ℕ) → y ≢ a → (m.process y).state ≡ (s.process y).state = λ y ne. ground arith in
    record {
      ready = record {
        runs = b.ready.runs;
        sorted = IsSorted-same (prios s) (prios m) s.queue (λ y i. ground arith) b.ready.sorted;
        distinct = b.ready.distinct;
        out = b.ready.out;
      };
      sleepers = record {
        chain =
            IsChain-frame s.process m.process s.endormi_list xs (λ y i. ground arith)
              b.sleepers.chain;
        tail = b.sleepers.tail;
        distinct = b.sleepers.distinct;
      };
      waking = IsSorted-same (times s) (times m) xs (λ y i. ground arith) b.waking;
      asleep = λ y i. ap is_endormi (same y (mem-ne y a xs i out)) ∙ b.asleep y i;
      awake = λ y i. ap is_endormi (same y (mem-ne y a s.queue i b.ready.out)) ∙ b.awake y i;
      idle = elim b.idle [ inl (z, k) ↦ absurd (ne0 z) | inr i ↦ inr i ];
      later = λ i. absurd (false≢true (sym out ∙ i));
    }
