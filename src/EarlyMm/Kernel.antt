-- ===== src/EarlyMm/Kernel.antt =====
-- early_mm_check and early_mm_map_kernel of kernel/boot/early_mm.c.
use Prim.Native.Nat.{bit_and, bit_or}
use projet_pcsea.Common.{
  ℕ, zero, suc, ◌+◌, ◌*◌, ◌-◌, ◌%◌, ◌/◌, ◌^◌, Bool, ◌==◌, ◌&&◌, ltb, leb, if◌then◌else◌,
}
use projet_pcsea.Common.Outcome.{Outcome, ok, ◌>>=◌}
use projet_pcsea.EarlyMm.{Memory, write, early_mm_fill_pgdir, early_mm_map_region}
pub mod Pages
pub mod Sections
pub mod Tests

-- The addresses that the linker gives, and those of the directory and the tables.
pub record Symbols : Type 0 where
  pub start : ℕ
  pub text_start : ℕ
  pub text_end : ℕ
  pub multiboot_start : ℕ
  pub multiboot_end : ℕ
  pub bootstrap_stack_start : ℕ
  pub bootstrap_stack_end : ℕ
  pub rodata_start : ℕ
  pub rodata_end : ℕ
  pub data_start : ℕ
  pub data_end : ℕ
  pub bss_start : ℕ
  pub bss_end : ℕ
  pub kernel_end : ℕ
  pub mem_end : ℕ
  pub pgdir : ℕ
  pub pgtab : ℕ

abbrev pub page_table_ro : ℕ
page_table_ro = 1

abbrev pub page_table_rw : ℕ
page_table_rw = 3

-- Does ASSERT_ALIGNED let the address pass? Otherwise it halts for ever.
unfoldable pub assert_aligned : ℕ → Bool
assert_aligned symbol = bit_and symbol 0xFFFFF000 == symbol

-- Does ASSERT_CONSISTENT let the region pass? The difference is that of two `long int`.
unfoldable pub assert_consistent : ℕ → ℕ → Bool
assert_consistent start end =
    let size = (end + 2 ^ 32 - start) % 2 ^ 32 in ltb size (2 ^ 31) && leb 4096 size

-- Does early_mm_check return? Its check of .bss reads the addresses of .data.
unfoldable pub early_mm_check : Symbols → Bool
unfolding assert_aligned assert_consistent
early_mm_check s =
    assert_aligned s.start
    && assert_aligned s.text_start
    && assert_aligned s.text_end
    && assert_consistent s.text_start s.text_end
    && assert_aligned s.multiboot_start
    && assert_aligned s.multiboot_end
    && assert_consistent s.multiboot_start s.multiboot_end
    && assert_aligned s.bootstrap_stack_start
    && assert_aligned s.bootstrap_stack_end
    && assert_consistent s.bootstrap_stack_start s.bootstrap_stack_end
    && assert_aligned s.rodata_start
    && assert_aligned s.rodata_end
    && assert_consistent s.rodata_start s.rodata_end
    && assert_aligned s.data_start
    && assert_aligned s.data_end
    && assert_consistent s.data_start s.data_end
    && assert_aligned s.data_start
    && assert_aligned s.data_end
    && assert_consistent s.data_start s.data_end
    && assert_consistent s.start s.kernel_end

-- memset of the tables to 0.
abbrev pub clear_tables : ℕ → Memory → Memory
clear_tables pgtab mem = λ a. if leb pgtab a && ltb a (pgtab + 4096 * 64) then 0 else mem a

-- What comes before the regions.
unfoldable pub prepare : Symbols → Memory → Memory
unfolding early_mm_fill_pgdir
prepare s mem = write s.pgtab 0 (early_mm_fill_pgdir s.pgdir s.pgtab 64 (clear_tables s.pgtab mem))

unfoldable pub early_mm_map_kernel : ℕ → Symbols → Memory → Outcome Memory
unfolding prepare early_mm_map_region
early_mm_map_kernel fuel s mem = do
  m1 ← early_mm_map_region fuel s.pgdir 4096 s.start page_table_rw (prepare s mem)
  m2 ← early_mm_map_region fuel s.pgdir s.start s.text_start page_table_rw m1
  m3 ← early_mm_map_region fuel s.pgdir s.text_start s.text_end page_table_ro m2
  m4 ← early_mm_map_region fuel s.pgdir s.multiboot_start s.multiboot_end page_table_ro m3
  m5 ← early_mm_map_region fuel s.pgdir s.rodata_start s.rodata_end page_table_ro m4
  m6 ←
      early_mm_map_region fuel s.pgdir s.bootstrap_stack_start s.bootstrap_stack_end page_table_rw
        m5
  m7 ← early_mm_map_region fuel s.pgdir s.data_start s.data_end page_table_rw m6
  m8 ← early_mm_map_region fuel s.pgdir s.bss_start s.bss_end page_table_rw m7
  m9 ← early_mm_map_region fuel s.pgdir s.kernel_end s.mem_end page_table_rw m8
  ok m9
