-- ===== src/Segments/Tests.antt =====
-- The theorems on the descriptor tables of kernel/boot/processor_structs.c at the addresses of the linker
-- script.
use projet_pcsea.Common.{ℕ, ◌+◌, ◌*◌, ◌≡◌, refl, arith}
use projet_pcsea.Segments.{fill_descriptor}
use projet_pcsea.Segments.Fields.{Describes, fill_descriptor-Describes}
use projet_pcsea.Segments.Tables.{Layout, Cpu, zero_tss, cpu_init}
use projet_pcsea.Segments.Tables.Traps.{Handled, cpu_init-Handled}

abbrev pub kernel_layout : Layout
kernel_layout = record {
  gdt_address = 0x10000;
  idt_address = 0x1000;
  tss_address = 0x20000;
  trap_tss_address = 0x120000;
  trap_stack = 0x121000;
  first_stack = 0x126000;
  pgdir = 0x130000;
  exception_handler_tasks = λ i. 0x100100 + 16 * i;
}

abbrev pub reset : Cpu
reset = record {
  gdt = λ i. 7;
  idt = λ i. 7;
  tss = zero_tss;
  trap_tss = λ i. zero_tss;
  gdtr = (0, 0);
  idtr = (0, 0);
  ldtr = 0;
  tr = 0;
  cs = 0;
  ds = 0;
  es = 0;
  fs = 0;
  gs = 0;
  ss = 0;
}

-- No device.
abbrev pub no_outb : ℕ → ℕ → ℕ → ℕ
no_outb value port s = s

flat_code : fill_descriptor 0 0xffffffff 0x1a 4 ≡ 0xcf9a000000ffff
unfolding fill_descriptor
flat_code = refl

fill_descriptor-Describes_example :
    Describes 0x20000 0x123fff 0x12 4 (fill_descriptor 0x20000 0x123456 0x12 4)
fill_descriptor-Describes_example =
    fill_descriptor-Describes 0x20000 0x123456 0x12 4 (omega arith) (omega arith) (omega arith)

cpu_init-Handled_example : Handled kernel_layout 3 (cpu_init no_outb kernel_layout (reset, 0)).0
cpu_init-Handled_example =
    cpu_init-Handled no_outb kernel_layout reset 0 3 (omega arith) (omega arith)
