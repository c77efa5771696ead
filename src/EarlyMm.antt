-- ===== src/EarlyMm.antt =====
-- kernel/boot/early_mm.c: the page directory of the boot, and the identity mapping of a region. The
-- memory is a map from the addresses of 32-bit words to their values.
pub mod Region
pub mod Kernel
use Prim.Native.Nat.{bit_or}
use projet_pcsea.Common.{
  ℕ, zero, suc, ◌+◌, ◌*◌, ◌-◌, ◌%◌, ◌/◌, ◌^◌, ◌≤◌, ◌<◌, ◌≡◌, refl, true, false, ◌==◌, ltb,
  Bool-cases, inl, inr, if◌then◌else◌, arith, ap, ◌∙◌,
}
use projet_pcsea.Common.Outcome.{Outcome, ok, out_of_fuel, Returns}

abbrev pub Memory : Type 0
Memory = ℕ → ℕ

abbrev pub page_dir_flags : ℕ
page_dir_flags = 3

abbrev pub write : ℕ → ℕ → Memory → Memory
write a v mem = λ b. if b == a then v else mem b

abbrev pub dir_entry : ℕ → ℕ → ℕ
dir_entry pagetab i = bit_or ((pagetab + i * 0x1000) % 2 ^ 32) page_dir_flags

-- The two loops of early_mm_fill_pgdir, from entry i on.
unfoldable pub fill_present : ℕ → ℕ → ℕ → ℕ → Memory → Memory
fill_present zero i pagedir pagetab mem = mem
fill_present (suc n) i pagedir pagetab mem =
    fill_present n (suc i) pagedir pagetab (write (pagedir + 4 * i) (dir_entry pagetab i) mem)

unfoldable pub fill_absent : ℕ → ℕ → ℕ → Memory → Memory
fill_absent zero i pagedir mem = mem
fill_absent (suc n) i pagedir mem = fill_absent n (suc i) pagedir (write (pagedir + 4 * i) 0 mem)

unfoldable pub early_mm_fill_pgdir : ℕ → ℕ → ℕ → Memory → Memory
unfolding fill_present fill_absent
early_mm_fill_pgdir pagedir pagetab count mem =
    fill_absent (1024 - count) count pagedir (fill_present count 0 pagedir pagetab mem)

-- The write of one turn of early_mm_map_region.
unfoldable pub map_page : ℕ → ℕ → ℕ → Memory → Memory
map_page pdir address flags mem =
    let pd_index = address / 2 ^ 22 in
    let pt_index = (address / 2 ^ 12) % 1024 in
    let entry = mem (pdir + 4 * pd_index) in
    let ptable = entry - entry % 4096 in
    write (ptable + 4 * pt_index) (bit_or (address - address % 4096) flags) mem

unfoldable pub early_mm_map_region : ℕ → ℕ → ℕ → ℕ → ℕ → Memory → Outcome Memory
unfolding map_page
early_mm_map_region zero pdir address end flags mem = out_of_fuel
early_mm_map_region (suc fuel) pdir address end flags mem =
    let next =
      early_mm_map_region fuel pdir ((address + 4096) % 2 ^ 32) end flags
        (map_page pdir address flags mem) in
    if ltb address end then next else ok mem

present-outside :
    (n i pagedir pagetab a : ℕ) (mem : Memory)
    → a < pagedir + 4 * i
    → fill_present n i pagedir pagetab mem a ≡ mem a
unfolding fill_present
present-outside zero i pagedir pagetab a mem h = refl
present-outside (suc n) i pagedir pagetab a mem h =
    let e : (a == (pagedir + 4 * i)) ≡ false = ground arith in
    present-outside n (suc i) pagedir pagetab a _ (omega arith) ∙ rw e refl

absent-outside :
    (n i pagedir a : ℕ) (mem : Memory) → a < pagedir + 4 * i → fill_absent n i pagedir mem a ≡ mem a
unfolding fill_absent
absent-outside zero i pagedir a mem h = refl
absent-outside (suc n) i pagedir a mem h =
    let e : (a == (pagedir + 4 * i)) ≡ false = ground arith in
    absent-outside n (suc i) pagedir a _ (omega arith) ∙ rw e refl

present-inside :
    (n i k pagedir pagetab : ℕ) (mem : Memory)
    → i ≤ k
    → k < i + n
    → fill_present n i pagedir pagetab mem (pagedir + 4 * k) ≡ dir_entry pagetab k
unfolding fill_present
present-inside zero i k pagedir pagetab mem h h' = absurd (omega arith)
present-inside (suc n) i k pagedir pagetab mem h h' = elim (Bool-cases (i == k)) [
  | inl e ↦
      let q : i ≡ k = ground arith in
      let t : ((pagedir + 4 * k) == (pagedir + 4 * i)) ≡ true = ground arith in
      present-outside n (suc i) pagedir pagetab (pagedir + 4 * k) _ (ground arith)
      ∙ rw t (ap (dir_entry pagetab) q)
  | inr e ↦ present-inside n (suc i) k pagedir pagetab _ (ground arith) (omega arith)
]

absent-inside :
    (n i k pagedir : ℕ) (mem : Memory)
    → i ≤ k
    → k < i + n
    → fill_absent n i pagedir mem (pagedir + 4 * k) ≡ 0
unfolding fill_absent
absent-inside zero i k pagedir mem h h' = absurd (omega arith)
absent-inside (suc n) i k pagedir mem h h' = elim (Bool-cases (i == k)) [
  | inl e ↦
      let t : ((pagedir + 4 * k) == (pagedir + 4 * i)) ≡ true = ground arith in
      absent-outside n (suc i) pagedir (pagedir + 4 * k) _ (ground arith) ∙ rw t refl
  | inr e ↦ absent-inside n (suc i) k pagedir _ (ground arith) (omega arith)
]

-- early_mm_fill_pgdir makes each of the 1024 entries of the directory: the first `count` refer to the
-- page tables one after the other, and the others are not present.
pub early_mm_fill_pgdir-entries :
    (pagedir pagetab count k : ℕ) (mem : Memory)
    → count ≤ 1024
    → k < 1024
    → early_mm_fill_pgdir pagedir pagetab count mem (pagedir + 4 * k)
      ≡ (if ltb k count then dir_entry pagetab k else 0)
unfolding early_mm_fill_pgdir
early_mm_fill_pgdir-entries pagedir pagetab count k mem h hk = elim (Bool-cases (ltb k count)) [
  | inl e ↦ rw e (
      absent-outside (1024 - count) count pagedir (pagedir + 4 * k) _ (ground arith)
      ∙ present-inside count 0 k pagedir pagetab mem (omega arith) (ground arith))
  | inr e ↦ rw e (absent-inside (1024 - count) count k pagedir _ (ground arith) (ground arith))
]

-- The loop of early_mm_map_region ends: it returns where it is given one turn more than the region
-- has pages, and the region ends below the last page of the address space.
pub early_mm_map_region-returns :
    (fuel pdir address end flags : ℕ) (mem : Memory)
    → end + 4096 ≤ 2 ^ 32
    → end ≤ address + 4096 * fuel
    → Returns (λ _. Unit {0}) (early_mm_map_region (suc fuel) pdir address end flags mem)
unfolding early_mm_map_region
early_mm_map_region-returns zero pdir address end flags mem top enough =
    let e : ltb address end ≡ false = ground arith in rw e tt
early_mm_map_region-returns (suc fuel) pdir address end flags mem top enough =
    elim (Bool-cases (ltb address end)) [
      | inl e ↦
          let w : (address + 4096) % 2 ^ 32 ≡ address + 4096 = ground arith in
          rw (e, w)
            (early_mm_map_region-returns fuel pdir (address + 4096) end flags
              (map_page pdir address flags mem) top (ground arith))
      | inr e ↦ rw e tt
    ]
