-- ===== src/EarlyMm/Kernel/Tests.antt =====
-- early_mm_check and early_mm_map_kernel at concrete addresses.
use projet_pcsea.Common.{◌≡◌, refl, true, arith}
use projet_pcsea.Common.Outcome.{Returns}
use projet_pcsea.EarlyMm.{Memory}
use projet_pcsea.EarlyMm.Kernel.{Symbols, early_mm_check, early_mm_map_kernel}
use projet_pcsea.EarlyMm.Kernel.Pages.{Layout}
use projet_pcsea.EarlyMm.Kernel.Sections.{Protected, early_mm_map_kernel-Protected}

abbrev pub linked : Symbols
linked = record {
  start = 0x100000;
  text_start = 0x145000;
  text_end = 0x160000;
  multiboot_start = 0x160000;
  multiboot_end = 0x161000;
  bootstrap_stack_start = 0x161000;
  bootstrap_stack_end = 0x162000;
  rodata_start = 0x162000;
  rodata_end = 0x168000;
  data_start = 0x168000;
  data_end = 0x170000;
  bss_start = 0x170000;
  bss_end = 0x190000;
  kernel_end = 0x18f123;
  mem_end = 0x10000000;
  pgdir = 0x101000;
  pgtab = 0x102000;
}

-- The check passes, and it still passes where .bss is off its page.
linked-checked : early_mm_check linked ≡ true
unfolding early_mm_check
linked-checked = refl

bss_unchecked : early_mm_check (record linked { bss_start = 0x170001; bss_end = 5 }) ≡ true
unfolding early_mm_check
bss_unchecked = refl

pub linked-Layout : Layout linked
linked-Layout = record {
  start_on_page = refl;
  text_start_on_page = refl;
  multiboot_start_on_page = refl;
  rodata_start_on_page = refl;
  bootstrap_stack_start_on_page = refl;
  data_start_on_page = refl;
  bss_start_on_page = refl;
  mem_end_on_page = refl;
  first_page_to_start = omega arith;
  start_to_text_start = omega arith;
  text_start_to_text_end = omega arith;
  text_end_to_multiboot_start = omega arith;
  multiboot_start_to_multiboot_end = omega arith;
  multiboot_end_to_bootstrap_stack_start = omega arith;
  bootstrap_stack_start_to_bootstrap_stack_end = omega arith;
  bootstrap_stack_end_to_rodata_start = omega arith;
  rodata_start_to_rodata_end = omega arith;
  rodata_end_to_data_start = omega arith;
  data_start_to_data_end = omega arith;
  data_end_to_bss_start = omega arith;
  bss_start_to_bss_end = omega arith;
  bss_start_to_kernel_end = omega arith;
  bss_end_to_mem_end = omega arith;
  kernel_end_to_mem_end = omega arith;
  mem_end_to_limit = omega arith;
  tables_on_page = refl;
  tables_behind = omega arith;
  tables_fit = omega arith;
}

abbrev pub zeros : Memory
zeros a = 0

early_mm_map_kernel-Protected_example :
    Returns (Protected linked) (early_mm_map_kernel 65537 linked zeros)
early_mm_map_kernel-Protected_example = early_mm_map_kernel-Protected linked zeros linked-Layout
