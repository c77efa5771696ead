-- ===== src/Segments/Tables.antt =====
-- kernel/boot/processor_structs.c: the tables that cpu_init sets up, and the registers it loads.
pub mod Traps
use projet_pcsea.Common.{ℕ, zero, suc, ◌+◌, ◌*◌, ◌-◌, ◌%◌, ◌/◌, ◌^◌, ◌==◌, ltb, if◌then◌else◌}
use projet_pcsea.Segments.{
  base_tss, kernel_cs, kernel_ds, user_cs, user_ds, trap_tss_base, sz_32, acc_task_gate, acc_tss,
  acc_data_w, acc_code_r, acc_pl_k, acc_pl_u, acc_p, fill_descriptor, fill_gate,
}
use Prim.Native.Nat.{bit_or}

abbrev pub gdt_entries : ℕ
gdt_entries = 8192

abbrev pub idt_entries : ℕ
idt_entries = 256

abbrev pub handler_entries : ℕ
handler_entries = 32

abbrev pub first_stack_size : ℕ
first_stack_size = 16384

-- `sizeof(struct x86_tss)`: 25 words and two shorts.
abbrev pub sizeof_x86_tss : ℕ
sizeof_x86_tss = 104

-- `struct x86_tss`
pub record X86Tss : Type 0 where
  pub back_link : ℕ
  pub esp0 : ℕ
  pub ss0 : ℕ
  pub esp1 : ℕ
  pub ss1 : ℕ
  pub esp2 : ℕ
  pub ss2 : ℕ
  pub cr3 : ℕ
  pub eip : ℕ
  pub eflags : ℕ
  pub eax : ℕ
  pub ecx : ℕ
  pub edx : ℕ
  pub ebx : ℕ
  pub esp : ℕ
  pub ebp : ℕ
  pub esi : ℕ
  pub edi : ℕ
  pub es : ℕ
  pub cs : ℕ
  pub ss : ℕ
  pub ds : ℕ
  pub fs : ℕ
  pub gs : ℕ
  pub ldt : ℕ
  pub trace_trap : ℕ
  pub io_bit_map_offset : ℕ

-- What memset leaves.
abbrev pub zero_tss : X86Tss
zero_tss = record {
  back_link = 0;
  esp0 = 0;
  ss0 = 0;
  esp1 = 0;
  ss1 = 0;
  esp2 = 0;
  ss2 = 0;
  cr3 = 0;
  eip = 0;
  eflags = 0;
  eax = 0;
  ecx = 0;
  edx = 0;
  ebx = 0;
  esp = 0;
  ebp = 0;
  esi = 0;
  edi = 0;
  es = 0;
  cs = 0;
  ss = 0;
  ds = 0;
  fs = 0;
  gs = 0;
  ldt = 0;
  trace_trap = 0;
  io_bit_map_offset = 0;
}

-- The addresses that the linker gives, and the entry points of kernel/handlers.S.
pub record Layout : Type 0 where
  pub gdt_address : ℕ
  pub idt_address : ℕ
  pub tss_address : ℕ
  pub trap_tss_address : ℕ
  pub trap_stack : ℕ
  pub first_stack : ℕ
  pub pgdir : ℕ
  pub exception_handler_tasks : ℕ → ℕ

-- The tables, and the registers that refer to them: of gdtr and idtr the limit, a short, and the base.
pub record Cpu : Type 0 where
  pub gdt : ℕ → ℕ
  pub idt : ℕ → ℕ
  pub tss : X86Tss
  pub trap_tss : ℕ → X86Tss
  pub gdtr : ℕ × ℕ
  pub idtr : ℕ × ℕ
  pub ldtr : ℕ
  pub tr : ℕ
  pub cs : ℕ
  pub ds : ℕ
  pub es : ℕ
  pub fs : ℕ
  pub gs : ℕ
  pub ss : ℕ

abbrev pub set_entry : {A : Type 0} → ℕ → A → (ℕ → A) → ℕ → A
set_entry i v table = λ j. if j == i then v else table j

-- `memset(table, 0, sizeof(table))`
abbrev pub blank : ℕ → (ℕ → ℕ) → ℕ → ℕ
blank entries table = λ j. if ltb j entries then 0 else table j

-- The loop of setup_gdt, from `i` on with `n` rounds to go.
unfoldable pub fill_trap_descriptors : ℕ → ℕ → Layout → (ℕ → ℕ) → ℕ → ℕ
fill_trap_descriptors zero i at gdt = gdt
fill_trap_descriptors (suc n) i at gdt = fill_trap_descriptors n (suc i) at (
    set_entry (i + trap_tss_base / 8)
      (fill_descriptor (at.trap_tss_address + sizeof_x86_tss * i) (sizeof_x86_tss - 1)
        (bit_or (bit_or acc_pl_k acc_tss) acc_p) 0)
      gdt)

-- The descriptors that setup_gdt writes before its loop.
unfoldable pub fill_segments : Layout → (ℕ → ℕ) → ℕ → ℕ
fill_segments at gdt =
    let gdt =
      set_entry (base_tss / 8)
        (fill_descriptor at.tss_address (sizeof_x86_tss - 1)
          (bit_or (bit_or acc_pl_k acc_tss) acc_p) 0)
        gdt in
    let gdt =
      set_entry (kernel_cs / 8) (fill_descriptor 0 0xffffffff (bit_or acc_pl_k acc_code_r) sz_32)
        gdt in
    let gdt =
      set_entry (kernel_ds / 8) (fill_descriptor 0 0xffffffff (bit_or acc_pl_k acc_data_w) sz_32)
        gdt in
    let gdt =
      set_entry (user_cs / 8) (fill_descriptor 0 0xffffffff (bit_or acc_pl_u acc_code_r) sz_32)
        gdt in
    set_entry (user_ds / 8) (fill_descriptor 0 0xffffffff (bit_or acc_pl_u acc_data_w) sz_32) gdt

unfoldable pub setup_gdt : Layout → Cpu → Cpu
setup_gdt at c = record c {
  gdt = fill_trap_descriptors handler_entries 0 at (fill_segments at (blank gdt_entries c.gdt));
  gdtr = ((8 * gdt_entries - 1) % 2 ^ 16, at.gdt_address);
  ldtr = 0;
  cs = kernel_cs;
  ds = kernel_ds;
  es = kernel_ds;
  fs = 0;
  gs = 0;
  ss = kernel_ds;
}

-- The assignments to `*ts` in a turn of the loop of setup_idt.
unfoldable pub fill_trap_tss : Layout → ℕ → X86Tss → X86Tss
fill_trap_tss at i ts = record ts {
  ss0 = kernel_ds;
  esp0 = at.trap_stack + 16384;
  ss = kernel_ds;
  esp = at.trap_stack + 16384;
  io_bit_map_offset = sizeof_x86_tss;
  cs = kernel_cs;
  eip = at.exception_handler_tasks i;
  ds = kernel_ds;
  es = kernel_ds;
  fs = 0;
  gs = 0;
  eflags = 2;
  trace_trap = 0;
  cr3 = at.pgdir;
}

-- The gate that the turn makes.
unfoldable pub trap_gate : ℕ → ℕ
trap_gate i =
    let access = acc_task_gate + (if i == 3 then 0x60 else 0) in
    fill_gate 0 (trap_tss_base + 8 * i) access 0

-- The loop of setup_idt, on the task segments and the table of gates.
unfoldable pub fill_traps : ℕ → ℕ → Layout → (ℕ → X86Tss) × (ℕ → ℕ) → (ℕ → X86Tss) × (ℕ → ℕ)
fill_traps zero i at (trap_tss, idt) = (trap_tss, idt)
fill_traps (suc n) i at (trap_tss, idt) =
    fill_traps n (suc i) at
      (set_entry i (fill_trap_tss at i (trap_tss i)) trap_tss, set_entry i (trap_gate i) idt)

unfoldable pub setup_idt : Layout → Cpu → Cpu
setup_idt at c =
    let r = fill_traps handler_entries 0 at (c.trap_tss, blank idt_entries c.idt) in
    record c { trap_tss = r.0; idt = r.1; idtr = ((8 * idt_entries - 1) % 2 ^ 16, at.idt_address) }

unfoldable pub setup_tss : Layout → Cpu → Cpu
setup_tss at c = record c {
  tss = record zero_tss {
    ss0 = kernel_ds;
    esp0 = at.first_stack + first_stack_size;
    io_bit_map_offset = sizeof_x86_tss;
    cr3 = at.pgdir;
  };
  tr = base_tss;
}

-- setup_pic and cpu_init, over the devices behind the ports: `outb value port`.
module _ {S : Type 0} (outb : ℕ → ℕ → S → S) where
  unfoldable pub setup_pic : S → S
  setup_pic s =
      let s = outb 0x11 0x20 s in
      let s = outb 0x20 0x21 s in
      let s = outb 0x4 0x21 s in
      let s = outb 0x1 0x21 s in
      let s = outb 0x11 0xa0 s in
      let s = outb 0x28 0xa1 s in
      let s = outb 0x2 0xa1 s in
      let s = outb 0x1 0xa1 s in
      let s = outb 0x20 0x20 s in
      let s = outb 0x20 0xa0 s in let s = outb 0xff 0x21 s in outb 0xff 0xa1 s

  unfoldable pub cpu_init : Layout → Cpu × S → Cpu × S
  cpu_init at (c, s) = (setup_tss at (setup_idt at (setup_gdt at c)), setup_pic s)
