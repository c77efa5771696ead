-- ===== src/EarlyMm/Kernel/Pages.antt =====
-- The entries of the page tables of kernel/boot/early_mm.c through a list of regions.
use Prim.Native.Nat.{bit_or}
use mathlib.Core.Path.{subst}
use projet_pcsea.Common.{
  ℕ, zero, suc, ◌+◌, ◌*◌, ◌%◌, ◌/◌, ◌^◌, ◌≤◌, ◌<◌, ◌≡◌, refl, Bool, true, false, ◌==◌, ◌&&◌, ◌⊎◌,
  ltb, leb, Bool-cases, inl, inr, if◌then◌else◌, List, [], ◌∷◌, arith, ap, ◌∙◌, All,
}
use projet_pcsea.Common.Outcome.{Outcome, ok, ◌>>=◌, Returns, Returns-mono, Returns-bind}
use projet_pcsea.EarlyMm.{
  Memory, write, fill_present, fill_absent, early_mm_fill_pgdir, early_mm_fill_pgdir-entries,
  early_mm_map_region,
}
use projet_pcsea.EarlyMm.Region.{Directory, Directory-write, entry, early_mm_map_region-Mapped}
use projet_pcsea.EarlyMm.Kernel.{Symbols, clear_tables, prepare}

present-above :
    (n i pagedir pagetab a : ℕ) (mem : Memory)
    → pagedir + 4 * (i + n) ≤ a
    → fill_present n i pagedir pagetab mem a ≡ mem a
unfolding fill_present
present-above zero i pagedir pagetab a mem h = refl
present-above (suc n) i pagedir pagetab a mem h =
    let e : (a == (pagedir + 4 * i)) ≡ false = ground arith in
    present-above n (suc i) pagedir pagetab a _ (omega arith) ∙ rw e refl

absent-above :
    (n i pagedir a : ℕ) (mem : Memory)
    → pagedir + 4 * (i + n) ≤ a
    → fill_absent n i pagedir mem a ≡ mem a
unfolding fill_absent
absent-above zero i pagedir a mem h = refl
absent-above (suc n) i pagedir a mem h =
    let e : (a == (pagedir + 4 * i)) ≡ false = ground arith in
    absent-above n (suc i) pagedir a _ (omega arith) ∙ rw e refl

fill_pgdir-above :
    (pagedir pagetab a : ℕ) (mem : Memory)
    → pagedir + 4096 ≤ a
    → early_mm_fill_pgdir pagedir pagetab 64 mem a ≡ mem a
unfolding early_mm_fill_pgdir
fill_pgdir-above pagedir pagetab a mem h =
    absent-above 960 64 pagedir a (fill_present 64 0 pagedir pagetab mem) (omega arith)
    ∙ present-above 64 0 pagedir pagetab a mem (omega arith)

-- The sections lie in the order of the linker script, on pages, below 256 MB; the tables come behind
-- the directory.
pub record Layout (s : Symbols) : Type 0 where
  pub start_on_page : s.start % 4096 ≡ 0
  pub text_start_on_page : s.text_start % 4096 ≡ 0
  pub multiboot_start_on_page : s.multiboot_start % 4096 ≡ 0
  pub rodata_start_on_page : s.rodata_start % 4096 ≡ 0
  pub bootstrap_stack_start_on_page : s.bootstrap_stack_start % 4096 ≡ 0
  pub data_start_on_page : s.data_start % 4096 ≡ 0
  pub bss_start_on_page : s.bss_start % 4096 ≡ 0
  pub mem_end_on_page : s.mem_end % 4096 ≡ 0
  pub first_page_to_start : 4096 ≤ s.start
  pub start_to_text_start : s.start ≤ s.text_start
  pub text_start_to_text_end : s.text_start ≤ s.text_end
  pub text_end_to_multiboot_start : s.text_end ≤ s.multiboot_start
  pub multiboot_start_to_multiboot_end : s.multiboot_start ≤ s.multiboot_end
  pub multiboot_end_to_bootstrap_stack_start : s.multiboot_end ≤ s.bootstrap_stack_start
  pub bootstrap_stack_start_to_bootstrap_stack_end : s.bootstrap_stack_start ≤ s.bootstrap_stack_end
  pub bootstrap_stack_end_to_rodata_start : s.bootstrap_stack_end ≤ s.rodata_start
  pub rodata_start_to_rodata_end : s.rodata_start ≤ s.rodata_end
  pub rodata_end_to_data_start : s.rodata_end ≤ s.data_start
  pub data_start_to_data_end : s.data_start ≤ s.data_end
  pub data_end_to_bss_start : s.data_end ≤ s.bss_start
  pub bss_start_to_bss_end : s.bss_start ≤ s.bss_end
  pub bss_start_to_kernel_end : s.bss_start ≤ s.kernel_end
  pub bss_end_to_mem_end : s.bss_end ≤ s.mem_end
  pub kernel_end_to_mem_end : s.kernel_end ≤ s.mem_end
  pub mem_end_to_limit : s.mem_end ≤ 2 ^ 28
  pub tables_on_page : s.pgtab % 4096 ≡ 0
  pub tables_behind : s.pgdir + 4096 ≤ s.pgtab
  pub tables_fit : s.pgtab + 64 * 4096 ≤ 2 ^ 32

filled : Symbols → Memory → Memory
filled s mem = early_mm_fill_pgdir s.pgdir s.pgtab 64 (clear_tables s.pgtab mem)

filled-Directory :
    (s : Symbols) (mem : Memory) → Layout s → Directory s.pgdir s.pgtab 64 (filled s mem)
unfolding filled
filled-Directory s mem l = record {
  aligned = l.tables_on_page;
  room = l.tables_fit;
  apart = inl (omega (arith, l.tables_behind));
  entries = λ k h.
      let e : ltb k 64 ≡ true = ground arith in
      early_mm_fill_pgdir-entries s.pgdir s.pgtab 64 k (clear_tables s.pgtab mem) (omega arith)
        (omega arith)
      ∙ rw e refl;
}

pub prepare-Directory :
    (s : Symbols) (mem : Memory) → Layout s → Directory s.pgdir s.pgtab 64 (prepare s mem)
unfolding prepare filled
prepare-Directory s mem l =
    subst (λ a. Directory s.pgdir s.pgtab 64 (write a 0 (filled s mem))) {x = s.pgtab + 4 * 0}
      {y = s.pgtab} (omega arith)
      (Directory-write s.pgdir s.pgtab 64 0 0 0 (filled s mem) (filled-Directory s mem l)
        (omega arith) (omega arith) 0)

pub prepare-cleared :
    (s : Symbols) (mem : Memory) (k : ℕ)
    → Layout s
    → k < 65536
    → entry s.pgtab (prepare s mem) k ≡ 0
unfolding prepare
prepare-cleared s mem k l h = elim (Bool-cases ((s.pgtab + 4 * k) == s.pgtab)) [
  | inl e ↦ rw e refl
  | inr e ↦
      let c : (leb s.pgtab (s.pgtab + 4 * k) && ltb (s.pgtab + 4 * k) (s.pgtab + 4096 * 64))
          ≡ true =
        ground arith in
      rw e (
        fill_pgdir-above s.pgdir s.pgtab (s.pgtab + 4 * k) (clear_tables s.pgtab mem)
          (omega (arith, l.tables_behind))
        ∙ rw c refl)
]

-- A region: its start, its end and its flags.
abbrev pub Region : Type 0
Region = ℕ × ℕ × ℕ

abbrev pub inside : Region → ℕ → Bool
inside r k = leb (r.0 / 4096) k && ltb (4096 * k + r.0 % 4096) r.1

abbrev pub map_regions : ℕ → ℕ → List Region → Memory → Outcome Memory
map_regions fuel pdir [] mem = ok mem
map_regions fuel pdir (r ∷ rs) mem = do
  m ← early_mm_map_region fuel pdir r.0 r.1 r.2 mem
  map_regions fuel pdir rs m

-- The entry of page `k` after these regions.
abbrev pub after_regions : List Region → ℕ → ℕ → ℕ
after_regions [] k old = old
after_regions (r ∷ rs) k old =
    after_regions rs k (if inside r k then bit_or (4096 * k) r.2 else old)

abbrev pub Pages : Symbols → (ℕ → ℕ) → Memory → Type 0
Pages s f m = Directory s.pgdir s.pgtab 64 m × ((k : ℕ) → k < 65536 → entry s.pgtab m k ≡ f k)

region-Pages :
    (s : Symbols) (r : Region) (f : ℕ → ℕ) (m : Memory)
    → r.1 ≤ 2 ^ 28
    → Pages s f m
    → Returns
        (Pages s (λ k. if inside r k then bit_or (4096 * k) r.2 else f k))
        (early_mm_map_region 65537 s.pgdir r.0 r.1 r.2 m)
region-Pages s r f m h p =
    let n = r.0 / 4096 in
    let o = r.0 % 4096 in
    subst
      (λ a.
        Returns (Pages s (λ k. if inside r k then bit_or (4096 * k) r.2 else f k))
          (early_mm_map_region 65537 s.pgdir a r.1 r.2 m))
      {x = 4096 * n + o} {y = r.0} (omega arith)
      (Returns-mono _ (early_mm_map_region 65537 s.pgdir (4096 * n + o) r.1 r.2 m)
        (early_mm_map_region-Mapped 65536 s.pgdir s.pgtab 64 n o r.1 r.2 m p.0 (omega arith)
          (omega arith) (omega arith) (omega arith))
        (λ m' g. (
          g.directory,
          λ k l.
              g.pages k ∙ ap (λ old. if inside r k then bit_or (4096 * k) r.2 else old) (p.1 k l),
        )))

pub map_regions-Pages :
    (s : Symbols) (rs : List Region) (f : ℕ → ℕ) (m : Memory)
    → All (λ r. r.1 ≤ 2 ^ 28) rs
    → Pages s f m
    → Returns (Pages s (λ k. after_regions rs k (f k))) (map_regions 65537 s.pgdir rs m)
map_regions-Pages s [] f m h p = p
map_regions-Pages s (r ∷ rs) f m h p =
    Returns-bind _ (early_mm_map_region 65537 s.pgdir r.0 r.1 r.2 m) _ (region-Pages s r f m h.0 p)
      (λ m1 q.
        map_regions-Pages s rs (λ k. if inside r k then bit_or (4096 * k) r.2 else f k) m1 h.1 q)

-- A page that is in none of the regions, and one that is in the first.
pub after-out :
    (rs : List Region) (k old : ℕ) → All (λ r. inside r k ≡ false) rs → after_regions rs k old ≡ old
after-out [] k old h = refl
after-out (r ∷ rs) k old h = rw h.0 (after-out rs k old h.1)

pub after-first :
    (r : Region) (rs : List Region) (k old : ℕ)
    → inside r k ≡ true
    → All (λ q. inside q k ≡ false) rs
    → after_regions (r ∷ rs) k old ≡ bit_or (4096 * k) r.2
after-first r rs k old i h = rw i (after-out rs k (bit_or (4096 * k) r.2) h)

-- A page that each of the regions starts behind, or ends before.
pub All-out :
    (rs : List Region) (k : ℕ)
    → All (λ r. (4096 * suc k ≤ r.0) ⊎ (r.1 ≤ 4096 * k)) rs
    → All (λ r. inside r k ≡ false) rs
All-out [] k h = tt
All-out (r ∷ rs) k h = (elim h.0 [ inl b ↦ ground arith | inr b ↦ ground arith ], All-out rs k h.1)
