-- ===== src/EarlyMm/Kernel/Sections.antt =====
-- What early_mm_map_kernel of kernel/boot/early_mm.c makes of the sections of the kernel.
use Prim.Native.Nat.{bit_or}
use projet_pcsea.Common.{
  ℕ, ◌+◌, ◌*◌, ◌%◌, ◌^◌, ap, ◌≤◌, ◌<◌, ◌≡◌, inl, inr, List, [], ◌∷◌, arith, ◌∙◌,
}
use projet_pcsea.Common.Outcome.{Returns, Returns-mono}
use projet_pcsea.EarlyMm.{Memory}
use projet_pcsea.EarlyMm.Region.{Directory, entry}
use projet_pcsea.EarlyMm.Kernel.{Symbols, prepare, early_mm_map_kernel}
use projet_pcsea.EarlyMm.Kernel.Pages.{
  Layout, prepare-Directory, prepare-cleared, Region, after_regions, Pages, map_regions-Pages,
  after-out, after-first, All-out,
}

abbrev pub data_regions : Symbols → List Region
data_regions s =
    (s.bootstrap_stack_start, s.bootstrap_stack_end, 3)
    ∷ (s.data_start, s.data_end, 3)
    ∷ (s.bss_start, s.bss_end, 3)
    ∷ (s.kernel_end, s.mem_end, 3)
    ∷ []

abbrev pub regions : Symbols → List Region
regions s =
    (4096, s.start, 3)
    ∷ (s.start, s.text_start, 3)
    ∷ (s.text_start, s.text_end, 1)
    ∷ (s.multiboot_start, s.multiboot_end, 1)
    ∷ (s.rodata_start, s.rodata_end, 1)
    ∷ data_regions s

pub kernel-Pages :
    (s : Symbols) (mem : Memory)
    → Layout s
    → Returns (Pages s (λ k. after_regions (regions s) k 0)) (early_mm_map_kernel 65537 s mem)
unfolding early_mm_map_kernel
kernel-Pages s mem l =
    map_regions-Pages s (regions s) (λ k. 0) (prepare s mem)
      (
        omega arith,
        (
          omega arith,
          (
            omega arith,
            (
              omega arith,
              (omega arith, (omega arith, (omega arith, (omega arith, (omega arith, tt))))),
            ),
          ),
        ),
      )
      (prepare-Directory s mem l, λ k h. prepare-cleared s mem k l h)

-- The page directory and the page tables after early_mm_map_kernel. Bit 0 of an entry says that what it
-- leads to is present, bit 1 that it is writable.
pub record Protected (s : Symbols) (m : Memory) : Type 0 where
  pub tables : (k : ℕ) → k < 64 → m (s.pgdir + 4 * k) ≡ bit_or (s.pgtab + 4096 * k) 3
  pub null : entry s.pgtab m 0 ≡ 0
  pub text :
      (k : ℕ)
      → s.text_start ≤ 4096 * k
      → 4096 * k < s.text_end
      → entry s.pgtab m k ≡ bit_or (4096 * k) 1
  pub rodata :
      (k : ℕ)
      → s.rodata_start ≤ 4096 * k
      → 4096 * k < s.rodata_end
      → entry s.pgtab m k ≡ bit_or (4096 * k) 1
  pub data_pages :
      (k : ℕ)
      → s.data_start ≤ 4096 * k
      → 4096 * k < s.data_end
      → entry s.pgtab m k ≡ bit_or (4096 * k) 3
  pub free_pages :
      (k : ℕ)
      → s.kernel_end ≤ 4096 * k
      → 4096 * k < s.mem_end
      → entry s.pgtab m k ≡ bit_or (4096 * k) 3

module _ (s : Symbols) (l : Layout s) where
  null_page : after_regions (regions s) 0 0 ≡ 0
  null_page = after-out (regions s) 0 0 (
      All-out (regions s) 0 (
        inl (omega arith),
        (
          inl (omega arith),
          (
            inl (omega arith),
            (
              inl (omega arith),
              (
                inl (omega arith),
                (
                  inl (omega arith),
                  (inl (omega arith), (inl (omega arith), (inl (omega arith), tt))),
                ),
              ),
            ),
          ),
        ),
      ))

  abbrev behind_text : List Region
  behind_text =
      (s.multiboot_start, s.multiboot_end, 1) ∷ (s.rodata_start, s.rodata_end, 1) ∷ data_regions s

  text_page :
      (k old : ℕ)
      → s.text_start ≤ 4096 * k
      → 4096 * k < s.text_end
      → after_regions ((s.text_start, s.text_end, 1) ∷ behind_text) k old ≡ bit_or (4096 * k) 1
  text_page k old h h' =
      after-first (s.text_start, s.text_end, 1) behind_text k old (ground arith)
        (All-out behind_text k (
          inl (omega arith),
          (
            inl (omega arith),
            (inl (omega arith), (inl (omega arith), (inl (omega arith), (inl (omega arith), tt)))),
          ),
        ))

  rodata_page :
      (k old : ℕ)
      → s.rodata_start ≤ 4096 * k
      → 4096 * k < s.rodata_end
      → after_regions ((s.rodata_start, s.rodata_end, 1) ∷ data_regions s) k old
        ≡ bit_or (4096 * k) 1
  rodata_page k old h h' =
      after-first (s.rodata_start, s.rodata_end, 1) (data_regions s) k old (ground arith)
        (All-out (data_regions s) k
          (inr (omega arith), (inl (omega arith), (inl (omega arith), (inl (omega arith), tt)))))

  data_page :
      (k old : ℕ)
      → s.data_start ≤ 4096 * k
      → 4096 * k < s.data_end
      → after_regions
          ((s.data_start, s.data_end, 3)
            ∷ (s.bss_start, s.bss_end, 3)
            ∷ (s.kernel_end, s.mem_end, 3)
            ∷ [])
          k
          old
        ≡ bit_or (4096 * k) 3
  data_page k old h h' =
      let rs : List Region = (s.bss_start, s.bss_end, 3) ∷ (s.kernel_end, s.mem_end, 3) ∷ [] in
      after-first (s.data_start, s.data_end, 3) rs k old (ground arith)
        (All-out rs k (inl (omega arith), (inl (omega arith), tt)))

  free_page :
      (k old : ℕ)
      → s.kernel_end ≤ 4096 * k
      → 4096 * k < s.mem_end
      → after_regions ((s.kernel_end, s.mem_end, 3) ∷ []) k old ≡ bit_or (4096 * k) 3
  free_page k old h h' = after-first (s.kernel_end, s.mem_end, 3) [] k old (ground arith) tt

table-address :
    (s : Symbols) (m : Memory)
    → Directory s.pgdir s.pgtab 64 m
    → (k : ℕ) → k < 64
    → m (s.pgdir + 4 * k) ≡ bit_or (s.pgtab + 4096 * k) 3
table-address s m d k h =
    let e : (s.pgtab + k * 4096) % 2 ^ 32 ≡ s.pgtab + 4096 * k = omega (arith, d.room) in
    d.entries k h ∙ ap (λ x. bit_or x 3) e

-- early_mm_map_kernel returns. After it the first 64 entries of the directory lead to the 64 page
-- tables, present and writable. In these tables page 0 is not present; the pages of .text and .rodata
-- are present, mapped to themselves and read-only, those of .data and of the memory behind the
-- kernel present, mapped to themselves and writable. The sections lie in the order of the linker script, below 256 MB, and
-- the tables behind the directory.
pub early_mm_map_kernel-Protected :
    (s : Symbols) (mem : Memory)
    → Layout s
    → Returns (Protected s) (early_mm_map_kernel 65537 s mem)
early_mm_map_kernel-Protected s mem l =
    Returns-mono _ (early_mm_map_kernel 65537 s mem) (kernel-Pages s mem l) (λ m p. record {
      tables = table-address s m p.0;
      null = p.1 0 (omega arith) ∙ null_page s l;
      text = λ k h h'. p.1 k (omega arith) ∙ text_page s l k _ h h';
      rodata = λ k h h'. p.1 k (omega arith) ∙ rodata_page s l k _ h h';
      data_pages = λ k h h'. p.1 k (omega arith) ∙ data_page s l k _ h h';
      free_pages = λ k h h'. p.1 k (omega arith) ∙ free_page s l k _ h h';
    })
