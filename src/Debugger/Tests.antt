-- ===== src/Debugger/Tests.antt =====
-- The theorems on kernel/debugger.c and kernel/gdb_serial_support.c at a concrete task and memory.
use projet_pcsea.Common.{ℕ, suc, ◌+◌, ◌%◌, ◌<◌, ◌≡◌, refl, false, arith, [], ◌∷◌, inl}
use projet_pcsea.Common.Int.{pos}
use projet_pcsea.Common.Outcome.{Returns}
use projet_pcsea.Segments.{base_tss, gate_selector}
use projet_pcsea.Segments.Tables.{X86Tss, zero_tss, cpu_init}
use projet_pcsea.Segments.Tests.{kernel_layout, reset, no_outb}
use projet_pcsea.EarlyMm.Kernel.{early_mm_map_kernel}
use projet_pcsea.EarlyMm.Kernel.Tests.{linked, linked-Layout, zeros}
use projet_pcsea.Debugger.{GdbState, GdbAction, gdb_cont, resumed, interrupted, trap_handler}
use projet_pcsea.Debugger.Dump.{Video, register_fields, dump_registers}
use projet_pcsea.Debugger.Dump.Shown.{Dumped, dump_registers-Dumped}
use projet_pcsea.Debugger.Keys.{put_back}
use projet_pcsea.Debugger.Resume.{ScreenKept, trap_handler-ScreenKept, trap_handler-leaves}
use projet_pcsea.Debugger.Task.{interrupted-tss}
use projet_pcsea.Debugger.Paging.{Bytes, Client, gdb_copyin}
use projet_pcsea.Debugger.Paging.Read.{Read, gdb_copyin-Read}
use projet_pcsea.Debugger.Paging.Identity.{bytes_of}
use projet_pcsea.Debugger.Paging.Kernel.{kernel-copyin}

abbrev task : X86Tss
task = record zero_tss { eip = 0x1045a0; esp = 0x163ff0; cr3 = 0x101000 }

abbrev text : ℕ → ℕ
text i = 46

abbrev before : Video
before a = a

dump_registers-Dumped_example :
    Dumped (register_fields 14 2 0x20000 task) before (dump_registers text 14 2 0x20000 task before)
dump_registers-Dumped_example = dump_registers-Dumped text 14 2 0x20000 task before

-- A remote debugger that moves the program on by one byte.
abbrev skip_byte : ℕ → GdbState → Client → Video → ℕ → GdbAction × GdbState × Video × ℕ
skip_byte signo state client v s = (gdb_cont, record state { eip = state.eip + 1 }, v, suc s)

trap_handler-ScreenKept_example :
    ScreenKept skip_byte text 0x80000011 0 14 2 0x20000 task before 0 (
      trap_handler skip_byte text 0x80000011 0 14 2 0x20000 task false
        (0x39 ∷ 0x20 ∷ 5 ∷ [])
        before
        0)
trap_handler-ScreenKept_example =
    trap_handler-ScreenKept skip_byte text 0x80000011 0 14 2 0x20000 task before 0
      (λ signo state client v r a. refl) false (0x39 ∷ 0x20 ∷ 5 ∷ [])

trap_handler-leaves_example :
    trap_handler skip_byte text 0x80000011 0 3 2 0x20000 task false
      (5 ∷ 0x17 ∷ 0x17 ∷ 0x97 ∷ [])
      before
      0
    ≡ resumed false task (put_back before (dump_registers text 3 2 0x20000 task before)) 0
trap_handler-leaves_example =
    trap_handler-leaves skip_byte text 0x80000011 0 3 2 0x20000 task before 0 (5 ∷ []) 1 0x97
      (refl, tt) refl

-- Each task segment has the one of the kernel in its back link.
abbrev linked_tss : ℕ → X86Tss
linked_tss a = record zero_tss { back_link = base_tss }

interrupted-tss_example :
    let c = (cpu_init no_outb kernel_layout (reset, 0)).0 in
    interrupted c.gdt linked_tss (gate_selector (c.idt 14)) ≡ 0x20000
interrupted-tss_example =
    interrupted-tss no_outb kernel_layout reset 0 linked_tss 14 (omega arith) (omega arith)
      (omega arith) refl

abbrev unpaged : Client
unpaged = record { cr0 = 0x11; cr3 = 0 }

abbrev paged : Client
paged = record { cr0 = 0x80000011; cr3 = 0x101000 }

gdb_copyin-Read_example :
    Returns
      (λ out. Read unpaged (λ a. a % 256) 1000 0 20 (λ a. 7) out.0 out.1 × (out.2 ≡ 0x80000011))
      (gdb_copyin 21 unpaged 0x80000011 (λ a. a % 256) 1000 0 20 (λ a. 7))
gdb_copyin-Read_example =
    gdb_copyin-Read unpaged 0x80000011 20 1000 0 20 (λ a. a % 256) (λ a. 7) (omega arith)
      (omega arith)

abbrev sevens : Bytes
sevens a = 7

kernel-copyin_example :
    Returns
      (λ m.
        Returns
          (λ out. (out.0 ≡ pos 0) × ((k : ℕ) → k < 8 → out.1 (0 + k) ≡ bytes_of m (0x145ffc + k)))
          (gdb_copyin 9 paged 0x80000011 (bytes_of m) 0x145ffc 0 8 sevens))
      (early_mm_map_kernel 65537 linked zeros)
kernel-copyin_example =
    kernel-copyin linked zeros linked-Layout paged refl refl refl 0x80000011 8 0x145ffc 0 8 sevens
      (omega arith) (λ k h. inl (omega arith)) (omega arith)
