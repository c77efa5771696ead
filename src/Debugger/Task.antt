-- ===== src/Debugger/Task.antt =====
-- How trap_handler of kernel/debugger.c finds the interrupted task in the tables that cpu_init of
-- kernel/boot/processor_structs.c has set up.
use Prim.Native.Nat.{bit_and}
use projet_pcsea.Common.{ℕ, ◌+◌, ◌*◌, ◌%◌, ◌/◌, ◌^◌, ◌≤◌, ◌<◌, ◌≡◌, arith, ap, ◌∙◌}
use projet_pcsea.Common.Bits.{bit_and-low}
use projet_pcsea.Segments.{base_tss, gate_selector, segment_base}
use projet_pcsea.Segments.Tables.{X86Tss, Layout, Cpu, cpu_init, setup_tss}
use projet_pcsea.Segments.Tables.Traps.{cpu_init-Handled, cpu_init-Segmented}
use projet_pcsea.Debugger.{tss_sel_2_tss, interrupted}

tss_sel_2_tss-segment_base :
    (gdt : ℕ → ℕ) (sel : ℕ) → tss_sel_2_tss gdt sel ≡ segment_base (gdt (sel / 8))
unfolding tss_sel_2_tss
tss_sel_2_tss-segment_base gdt sel =
    let e = gdt (sel / 8) in
    let m : bit_and (e / 2 ^ 16 % 2 ^ 32) 0xffffff ≡ e / 2 ^ 16 % 2 ^ 24 =
      bit_and-low 24 (e / 2 ^ 16 % 2 ^ 32) ∙ omega arith in
    ap (λ t. t + e / 2 ^ 56 % 2 ^ 8 * 2 ^ 24) m

module _ {S : Type 0} (outb : ℕ → ℕ → S → S) (at : Layout) (c0 : Cpu) (s : S)
    (tss_at : ℕ → X86Tss) where
  -- In the task of exception `i`, with the selector that its gate gave to the task register, trap_handler
  -- finds the task segment of the kernel, where the processor has put the selector of it into the
  -- back link of the new task. All task segments lie in the 32-bit address space.
  pub interrupted-tss :
      (i : ℕ)
      → i < 32
      → at.tss_address < 2 ^ 32
      → at.trap_tss_address + 104 * 32 ≤ 2 ^ 32
      → (tss_at (at.trap_tss_address + 104 * i)).back_link ≡ base_tss
      → let c = (cpu_init outb at (c0, s)).0 in
        interrupted c.gdt tss_at (gate_selector (c.idt i)) ≡ at.tss_address
  unfolding interrupted cpu_init setup_tss
  interrupted-tss i h ht hr link =
      let c = (cpu_init outb at (c0, s)).0 in
      let handled = cpu_init-Handled outb at c0 s i h hr in
      let own : tss_sel_2_tss c.gdt (gate_selector (c.idt i)) ≡ at.trap_tss_address + 104 * i =
        tss_sel_2_tss-segment_base c.gdt (gate_selector (c.idt i)) ∙ handled.task.starts in
      ap (λ a. tss_sel_2_tss c.gdt (tss_at a).back_link) own
      ∙ ap (tss_sel_2_tss c.gdt) link
      ∙ tss_sel_2_tss-segment_base c.gdt base_tss
      ∙ (cpu_init-Segmented outb at c0 s ht).task.starts
