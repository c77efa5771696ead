-- ===== src/EarlyMm/Region.antt =====
-- early_mm_map_region of kernel/boot/early_mm.c, over a directory that early_mm_fill_pgdir has filled.
use Prim.Native.Nat.{bit_or, bit_or-bitwise, digits, max}
use projet_pcsea.Common.{
  ℕ, zero, suc, ◌+◌, ◌*◌, ◌-◌, ◌%◌, ◌/◌, ◌^◌, ◌≤◌, ◌<◌, ◌≡◌, refl, true, false, ◌==◌, ◌&&◌, ◌⊎◌,
  ltb, leb, Bool-cases, inl, inr, if◌then◌else◌, arith, ap, sym, ◌∙◌,
}
use projet_pcsea.Common.Outcome.{ok, Returns, Returns-mono}
use projet_pcsea.EarlyMm.{Memory, write, dir_entry, map_page, early_mm_map_region}

-- `|` with 0, over enough binary digits.
or_zero : (n a : ℕ) → a ≤ n → digits (λ b. b) max n a 0 ≡ a
or_zero zero a h = omega arith
or_zero (suc n) zero h = refl
or_zero (suc n) (suc a) h = rw (or_zero n (suc a / 2) (omega arith)) (omega arith)

or_one : (n a : ℕ) → a ≤ n → digits (λ b. b) max n a 1 ≡ a / 2 * 2 + 1
or_one zero a h = omega arith
or_one (suc n) zero h = refl
or_one (suc n) (suc a) h = rw (or_zero n (suc a / 2) (omega arith)) (omega arith)

-- `|` with the two flags of a directory entry.
or_three : (n a : ℕ) → a ≤ n → digits (λ b. b) max n a 3 ≡ a / 4 * 4 + 3
or_three zero a h = omega arith
or_three (suc n) zero h = refl
or_three (suc n) (suc a) h = rw (or_one n (suc a / 2) (omega arith)) (omega arith)

dir_entry_lem :
    (pagetab i : ℕ)
    → pagetab % 4096 ≡ 0
    → pagetab + i * 4096 < 2 ^ 32
    → dir_entry pagetab i - dir_entry pagetab i % 4096 ≡ pagetab + i * 4096
dir_entry_lem pagetab i h h' =
    let w : (pagetab + i * 4096) % 2 ^ 32 ≡ pagetab + i * 4096 = omega arith in
    let o : bit_or (pagetab + i * 4096) 3 ≡ pagetab + i * 4096 + 3 =
      simp bit_or-bitwise (or_three _ _ (omega arith) ∙ omega arith) in
    rw (w, o) (omega arith)

-- The first `count` entries of the directory refer to the tables, which are no part of it.
pub record Directory (pdir pagetab count : ℕ) (mem : Memory) : Type 0 where
  pub aligned : pagetab % 4096 ≡ 0
  pub room : pagetab + count * 4096 ≤ 2 ^ 32
  pub apart : (pdir + 4 * count ≤ pagetab) ⊎ (pagetab + count * 4096 ≤ pdir)
  pub entries : (k : ℕ) → k < count → mem (pdir + 4 * k) ≡ dir_entry pagetab k

module _ (pdir pagetab count n o flags : ℕ) (mem : Memory) (d : Directory pdir pagetab count mem)
    (h : n < 1024 * count) (low : o < 4096) where
  map_page-write :
      map_page pdir (4096 * n + o) flags mem ≡ write (pagetab + 4 * n) (bit_or (4096 * n) flags) mem
  unfolding map_page
  map_page-write =
      let a : (4096 * n + o) / 2 ^ 22 ≡ n / 1024 = omega arith in
      let b : (4096 * n + o) / 2 ^ 12 ≡ n = omega arith in
      let k : n / 1024 < count = omega arith in
      let c : 4096 * n + o - (4096 * n + o) % 4096 ≡ 4096 * n = omega arith in
      let e = d.entries (n / 1024) k in
      let t = dir_entry_lem pagetab (n / 1024) d.aligned (omega (arith, d.room)) in
      let p : pagetab + n / 1024 * 4096 + 4 * (n % 1024) ≡ pagetab + 4 * n = omega arith in
      rw (a, b, e, t, p, c) refl

  pub Directory-write : (v : ℕ) → Directory pdir pagetab count (write (pagetab + 4 * n) v mem)
  Directory-write v = record {
    aligned = d.aligned;
    room = d.room;
    apart = d.apart;
    entries = λ k l.
        let ne : ((pdir + 4 * k) == (pagetab + 4 * n)) ≡ false = elim d.apart [
          | inl q ↦ ground arith
          | inr q ↦ ground arith
        ] in
        rw ne (d.entries k l);
  }

-- The entry of page `k`.
abbrev pub entry : ℕ → Memory → ℕ → ℕ
entry pagetab mem k = mem (pagetab + 4 * k)

-- The pages from `n` on and below `end` are mapped to themselves, and the others as before.
abbrev pub mapped : ℕ → ℕ → ℕ → ℕ → ℕ → ℕ → ℕ
mapped n o end flags old k =
    if leb n k && ltb (4096 * k + o) end then bit_or (4096 * k) flags else old

pub record Mapped (pdir pagetab count n o end flags : ℕ) (mem mem' : Memory) : Type 0 where
  pub directory : Directory pdir pagetab count mem'
  pub pages : (k : ℕ) → entry pagetab mem' k ≡ mapped n o end flags (entry pagetab mem k) k

mapped-first :
    (pagetab n o end flags k : ℕ) (mem : Memory)
    → 4096 * n + o < end
    → mapped
        (suc n)
        o
        end
        flags
        (entry pagetab (write (pagetab + 4 * n) (bit_or (4096 * n) flags) mem) k)
        k
      ≡ mapped n o end flags (entry pagetab mem k) k
mapped-first pagetab n o end flags k mem h = elim (Bool-cases (k == n)) [
  | inl e ↦
      let q : k ≡ n = ground arith in
      let a : leb (suc n) k ≡ false = ground arith in
      let b : (leb n k && ltb (4096 * k + o) end) ≡ true = ground arith in
      let c : ((pagetab + 4 * k) == (pagetab + 4 * n)) ≡ true = ground arith in
      rw (a, b, c) (ap (λ j. bit_or (4096 * j) flags) (sym q))
  | inr e ↦
      let ne : ((pagetab + 4 * k) == (pagetab + 4 * n)) ≡ false = ground arith in
      let same : leb (suc n) k ≡ leb n k = ground arith in rw (ne, same) refl
]

region-stop :
    (fuel pdir address end flags : ℕ) (mem : Memory)
    → ltb address end ≡ false
    → early_mm_map_region (suc fuel) pdir address end flags mem ≡ ok mem
unfolding early_mm_map_region
region-stop fuel pdir address end flags mem h = rw h refl

region-step :
    (fuel pdir address end flags : ℕ) (mem : Memory)
    → ltb address end ≡ true
    → early_mm_map_region (suc fuel) pdir address end flags mem
      ≡ early_mm_map_region fuel pdir
          ((address + 4096) % 2 ^ 32)
          end
          flags
          (map_page pdir address flags mem)
unfolding early_mm_map_region
region-step fuel pdir address end flags mem h = rw h refl

-- early_mm_map_region returns, and maps each page from its start on and below its end to itself,
-- with the flags; the entries of all other pages stay. `o` is how far into its page the region starts; it ends
-- below the memory of the tables and the last page of the address space, and the loop has one round
-- more than the region has pages.
pub early_mm_map_region-Mapped :
    (fuel pdir pagetab count n o end flags : ℕ) (mem : Memory)
    → Directory pdir pagetab count mem
    → o < 4096
    → end ≤ 4096 * (1024 * count)
    → end + 4096 ≤ 2 ^ 32
    → end ≤ 4096 * n + 4096 * fuel
    → Returns
        (Mapped pdir pagetab count n o end flags mem)
        (early_mm_map_region (suc fuel) pdir (4096 * n + o) end flags mem)
early_mm_map_region-Mapped zero pdir pagetab count n o end flags mem d low tables top enough =
    let e : ltb (4096 * n + o) end ≡ false = ground arith in
    rw (region-stop zero pdir (4096 * n + o) end flags mem e)
      (record { directory = d; pages = λ k. ground arith })
early_mm_map_region-Mapped (suc fuel) pdir pagetab count n o end flags mem d low tables top enough =
    elim (Bool-cases (ltb (4096 * n + o) end)) [
      | inl e ↦
          let h : n < 1024 * count = ground arith in
          let w : (4096 * n + o + 4096) % 2 ^ 32 ≡ 4096 * suc n + o = ground arith in
          let m : Memory = write (pagetab + 4 * n) (bit_or (4096 * n) flags) mem in
          rw
            (
              region-step (suc fuel) pdir (4096 * n + o) end flags mem e,
              w,
              map_page-write pdir pagetab count n o flags mem d h low,
            )
            (Returns-mono _ (early_mm_map_region (suc fuel) pdir (4096 * suc n + o) end flags m)
              (early_mm_map_region-Mapped fuel pdir pagetab count (suc n) o end flags m
                (Directory-write pdir pagetab count n o flags mem d h low (bit_or (4096 * n) flags))
                low tables top (omega arith))
              (λ m' r. record {
                directory = r.directory;
                pages = λ k. r.pages k ∙ mapped-first pagetab n o end flags k mem (ground arith);
              }))
      | inr e ↦
          rw (region-stop (suc fuel) pdir (4096 * n + o) end flags mem e)
            (record { directory = d; pages = λ k. ground arith })
    ]
