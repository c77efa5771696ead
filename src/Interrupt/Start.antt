-- ===== src/Interrupt/Start.antt =====
-- The interrupts after setup_pic of kernel/boot/processor_structs.c and the first three calls of
-- kernel_start in kernel/start.c.
use projet_pcsea.Common.{
  ℕ, ◌^◌, ◌<◌, ◌≡◌, ◌≢◌, refl, false, ◌==◌, if◌then◌else◌, arith, ap, ◌∙◌, List,
}
use projet_pcsea.EarlyMm.{Memory}
use projet_pcsea.Segments.{kernel_cs, acc_intr_gate, fill_gate}
use projet_pcsea.Segments.Fields.{Leads, fill_gate-Leads}
use projet_pcsea.Segments.Tables.{setup_pic}
use projet_pcsea.Display.{Display}
use projet_pcsea.Clock.{Time}
use projet_pcsea.Interrupt.{
  Entries, new_mask, open_irq, init_traitant_it, clock_freq, init_clock, init_keyboard,
  init_it_superuser, init_interrupts,
}
use projet_pcsea.Interrupt.Gate.{vector, init_traitant_it-fill_gate}
use projet_pcsea.Interrupt.Mask.{Controller, mask, open_irq-mask, setup_pic-closed, clock_freq-mask}

-- The mask has 0 for the timer and the keyboard and 1 for all other lines, the three vectors lead to
-- their entries in the code of the kernel, at its level, and all other vectors are as before.
pub record Started (at : Entries) (before after : Memory) (masked : ℕ) : Type 0 where
  pub lines : masked ≡ 0xfc
  pub timer : Leads at.traitant_it_32 kernel_cs acc_intr_gate (vector after 32)
  pub keyboard : Leads at.traitant_it_33 kernel_cs acc_intr_gate (vector after 33)
  pub superuser : Leads at.traitant_it_49 kernel_cs acc_intr_gate (vector after 49)
  pub others : (k : ℕ) → k ≢ 32 → k ≢ 33 → k ≢ 49 → vector after k ≡ vector before k

module _ (at : Entries) (mem : Memory) where
  vectors_set : Memory
  vectors_set =
      init_traitant_it 49 at.traitant_it_49
        (init_traitant_it 33 at.traitant_it_33 (init_traitant_it 32 at.traitant_it_32 mem))

  module _ (h32 : at.traitant_it_32 < 2 ^ 32) (h33 : at.traitant_it_33 < 2 ^ 32)
      (h49 : at.traitant_it_49 < 2 ^ 32) where
    vectors_set-vector :
        (k : ℕ)
        → vector vectors_set k ≡ (
            if k == 49
            then fill_gate at.traitant_it_49 kernel_cs acc_intr_gate 0
            else if k == 33
            then fill_gate at.traitant_it_33 kernel_cs acc_intr_gate 0
            else if k == 32
            then fill_gate at.traitant_it_32 kernel_cs acc_intr_gate 0
            else vector mem k)
    unfolding vectors_set
    vectors_set-vector k =
        rw
          (
            init_traitant_it-fill_gate 49 at.traitant_it_49 k
                (init_traitant_it 33 at.traitant_it_33 (init_traitant_it 32 at.traitant_it_32 mem))
                h49,
            init_traitant_it-fill_gate 33 at.traitant_it_33 k
                (init_traitant_it 32 at.traitant_it_32 mem) h33,
            init_traitant_it-fill_gate 32 at.traitant_it_32 k mem h32,
          )
          refl

    gate :
        (t : ℕ)
        → t < 2 ^ 32
        → Leads t kernel_cs acc_intr_gate (fill_gate t kernel_cs acc_intr_gate 0)
    gate t h = fill_gate-Leads t kernel_cs acc_intr_gate h (omega arith) (omega arith)

    module _ {S : Type 0} (inb : ℕ → S → ℕ × S) (outb : ℕ → ℕ → S → S) (pic : Controller inb outb)
        (sprintf : ℕ → ℕ → ℕ → List ℕ) (time : Time) (s : S) (d : Display) where
      -- After cpu_init and the first three calls of kernel_start only the interrupts of the timer and the
      -- keyboard are open, and they and the system call lead to their entries, in the code of the
      -- kernel; the vectors of the exceptions and all others are as before. The entries have addresses
      -- of 32 bits.
      pub init_interrupts-Started :
          let after = init_interrupts inb outb sprintf at time (setup_pic outb s, mem, d) in
          Started at mem after.1 (mask inb outb pic after.0)
      unfolding init_interrupts init_clock init_keyboard init_it_superuser vectors_set
      init_interrupts-Started =
          let c =
            clock_freq-mask inb outb pic (setup_pic outb s) 0xff
              (setup_pic-closed inb outb pic s) in
          let timer = open_irq-mask inb outb pic 0 (clock_freq outb (setup_pic outb s)) c.0 in
          let keyboard =
            open_irq-mask inb outb pic 1
              (open_irq inb outb 0 false (clock_freq outb (setup_pic outb s))) timer.0 in
          record {
            lines = keyboard.1 ∙ ap (new_mask 1 false) (timer.1 ∙ ap (new_mask 0 false) c.1) ∙ refl;
            timer = rw (vectors_set-vector 32) (gate at.traitant_it_32 h32);
            keyboard = rw (vectors_set-vector 33) (gate at.traitant_it_33 h33);
            superuser = rw (vectors_set-vector 49) (gate at.traitant_it_49 h49);
            others = λ k a b c. vectors_set-vector k ∙ ground arith;
          }
