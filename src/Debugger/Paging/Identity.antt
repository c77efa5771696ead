-- ===== src/Debugger/Paging/Identity.antt =====
-- The look-up of kernel/gdb_serial_support.c on the tables that kernel/boot/early_mm.c has made.
use Prim.Native.Nat.{bit_and, bit_or}
use projet_pcsea.Common.{
  ℕ, ◌+◌, ◌*◌, ◌-◌, ◌%◌, ◌/◌, ◌^◌, ◌≤◌, ◌<◌, ◌≡◌, ◌⊎◌, refl, true, false, ◌==◌, ltb, inl, inr,
  if◌then◌else◌, arith, ap, ◌∙◌,
}
use projet_pcsea.Common.Bits.{bit_and-low, bit_and-high, bit_or-high_low}
use projet_pcsea.EarlyMm.{Memory}
use projet_pcsea.EarlyMm.Region.{Directory, entry}
use projet_pcsea.EarlyMm.Kernel.{Symbols}
use projet_pcsea.EarlyMm.Kernel.Pages.{Layout}
use projet_pcsea.EarlyMm.Kernel.Sections.{Protected}
use projet_pcsea.Debugger.Paging.{Bytes, word, Client, lin2pdenum, lin2ptenum, phys_addr_lookup}
use projet_pcsea.Debugger.Paging.Copy.{pde, pte, lookup-hole, lookup-small}

-- The bytes of a memory of words of 32 bits.
abbrev pub bytes_of : Memory → Bytes
bytes_of mem a = mem (a - a % 4) / 2 ^ (8 * (a % 4)) % 2 ^ 8

word-bytes_of : (mem : Memory) (a : ℕ) → a % 4 ≡ 0 → mem a < 2 ^ 32 → word (bytes_of mem) a ≡ mem a
word-bytes_of mem a h k =
    let r0 : a - a % 4 ≡ a = omega arith in
    let r1 : (a + 1) - (a + 1) % 4 ≡ a = omega arith in
    let r2 : (a + 2) - (a + 2) % 4 ≡ a = omega arith in
    let r3 : (a + 3) - (a + 3) % 4 ≡ a = omega arith in
    let m1 : (a + 1) % 4 ≡ 1 = omega arith in
    let m2 : (a + 2) % 4 ≡ 2 = omega arith in
    let m3 : (a + 3) % 4 ≡ 3 = omega arith in rw (r0, r1, r2, r3, h, m1, m2, m3) (omega arith)

-- A word of a page number and flags.
module _ (k f : ℕ) (h : f < 4096) where
  flagged : bit_or (4096 * k) f ≡ k * 4096 + f
  flagged = let e : 4096 * k ≡ k * 2 ^ 12 = omega arith in rw e (bit_or-high_low 12 k f h)

  page_of : k < 2 ^ 20 → bit_and (k * 4096 + f) 0xfffff000 ≡ k * 4096
  page_of l =
      bit_and-high 12 (k * 4096 + f) (2 ^ 20 - 1)
      ∙ ap (λ t. t * 4096) (bit_and-low 20 ((k * 4096 + f) / 4096))
      ∙ omega arith

  valid_bit : bit_and (k * 4096 + f) 1 ≡ f % 2
  valid_bit = bit_and-low 1 (k * 4096 + f) ∙ omega arith

  size_bit : f < 128 → bit_and (k * 4096 + f) 0x80 ≡ 0
  size_bit l =
      bit_and-high 7 (k * 4096 + f) 1
      ∙ ap (λ t. t * 128) (bit_and-low 1 ((k * 4096 + f) / 128))
      ∙ omega arith

module _ (client : Client) (pgdir pgtab va : ℕ) (mem : Memory)
    (on : (bit_and client.cr0 0x80000000 == 0) ≡ false) (cr3 : client.cr3 ≡ pgdir)
    (d : Directory pgdir pgtab 64 mem) (aligned : pgdir % 4096 ≡ 0) (small : pgdir < 2 ^ 32)
    (low : va < 64 * 2 ^ 22) where
  abbrev table : ℕ
  table = pgtab / 4096 + va / 2 ^ 22

  table-small : table < 2 ^ 20
  table-small = omega (arith, d.room, d.aligned)

  directory_word : mem (pgdir + 4 * (va / 2 ^ 22)) ≡ table * 4096 + 3
  directory_word =
      let e : (pgtab + va / 2 ^ 22 * 4096) % 2 ^ 32 ≡ 4096 * table =
        omega (arith, d.room, d.aligned) in
      d.entries (va / 2 ^ 22) (omega arith) ∙ ap (λ t. bit_or t 3) e ∙ flagged table 3 (omega arith)

  pde_lem : pde client (bytes_of mem) va ≡ table * 4096 + 3
  pde_lem =
      let c : bit_and client.cr3 0xfffff000 ≡ pgdir =
        ap (λ t. bit_and t 0xfffff000) (cr3 ∙ (omega arith))
        ∙ page_of (pgdir / 4096) 0 (omega arith) (omega arith)
        ∙ omega arith in
      let n : lin2pdenum va ≡ va / 2 ^ 22 = bit_and-low 10 (va / 2 ^ 22) ∙ omega arith in
      ap (λ t. word (bytes_of mem) (t + 4 * lin2pdenum va)) c
      ∙ ap (λ t. word (bytes_of mem) (pgdir + 4 * t)) n
      ∙ word-bytes_of mem (pgdir + 4 * (va / 2 ^ 22)) (omega arith)
          (omega (arith, directory_word, table-small))
      ∙ directory_word

  pte_lem :
      entry pgtab mem (va / 4096) < 2 ^ 32
      → pte client (bytes_of mem) va ≡ entry pgtab mem (va / 4096)
  pte_lem h =
      let n : lin2ptenum va ≡ va / 2 ^ 12 % 2 ^ 10 = bit_and-low 10 (va / 2 ^ 12) in
      let a : table * 4096 + 4 * (va / 2 ^ 12 % 2 ^ 10) ≡ pgtab + 4 * (va / 4096) =
        omega (arith, d.aligned) in
      ap (λ t. word (bytes_of mem) (bit_and t 0xfffff000 + 4 * lin2ptenum va)) pde_lem
      ∙ ap (λ t. word (bytes_of mem) (t + 4 * lin2ptenum va))
          (page_of table 3 (omega arith) table-small)
      ∙ ap (λ t. word (bytes_of mem) (table * 4096 + 4 * t)) n
      ∙ ap (word (bytes_of mem)) a
      ∙ word-bytes_of mem (pgtab + 4 * (va / 4096)) (omega (arith, d.aligned)) h

  pde_valid : (bit_and (pde client (bytes_of mem) va) 1 == 0) ≡ false
  pde_valid =
      ap (λ t. bit_and t 1 == 0) pde_lem ∙ ap (λ t. t == 0) (valid_bit table 3 (omega arith))

  pde_small : (bit_and (pde client (bytes_of mem) va) 0x80 == 0) ≡ true
  pde_small =
      ap (λ t. bit_and t 0x80 == 0) pde_lem
      ∙ ap (λ t. t == 0) (size_bit table 3 (omega arith) (omega arith))

  -- A page with no entry is not there; one that has itself as its entry is at its own address.
  lookup_null : entry pgtab mem (va / 4096) ≡ 0 → phys_addr_lookup client (bytes_of mem) va ≡ (0, 0)
  lookup_null e =
      let p : (bit_and (pte client (bytes_of mem) va) 1 == 0) ≡ true =
        ap (λ t. bit_and t 1 == 0) (pte_lem (omega arith) ∙ e) in
      lookup-hole client (bytes_of mem) va on pde_valid pde_small p

  lookup_identity :
      (f : ℕ)
      → f < 4096
      → f % 2 ≡ 1
      → entry pgtab mem (va / 4096) ≡ bit_or (4096 * (va / 4096)) f
      → phys_addr_lookup client (bytes_of mem) va ≡ (va, 4096 - va % 4096)
  lookup_identity f h odd e =
      let w = e ∙ flagged (va / 4096) f h in
      let p : pte client (bytes_of mem) va ≡ va / 4096 * 4096 + f =
        pte_lem (omega (arith, w)) ∙ w in
      let v : (bit_and (pte client (bytes_of mem) va) 1 == 0) ≡ false =
        ap (λ t. bit_and t 1 == 0) p ∙ ap (λ t. t == 0) (valid_bit (va / 4096) f h ∙ odd) in
      let a : bit_and (pte client (bytes_of mem) va) 0xfffff000 + va % 4096 ≡ va =
        omega (arith, ap (λ t. bit_and t 0xfffff000) p, page_of (va / 4096) f h (omega arith)) in
      lookup-small client (bytes_of mem) va on pde_valid pde_small v
      ∙ ap (λ t. (t, 4096 - va % 4096)) a

-- An address in a section whose pages Protected describes.
abbrev pub InSection : Symbols → ℕ → Type 0
InSection s va =
    ((s.text_start ≤ va) × (va < s.text_end))
    ⊎ ((s.rodata_start ≤ va) × (va < s.rodata_end))
    ⊎ ((s.data_start ≤ va) × (va < s.data_end))
    ⊎ ((s.kernel_end ≤ va - va % 4096) × (va < s.mem_end))

module _ (s : Symbols) (l : Layout s) (va : ℕ) where
  section-entry :
      (m : Memory)
      → Protected s m
      → InSection s va
      → (f : ℕ) × (f < 4096)
        × (f % 2 ≡ 1)
        × (entry s.pgtab m (va / 4096) ≡ bit_or (4096 * (va / 4096)) f)
  section-entry m p (inl (a, b)) =
      (1, omega arith, refl, p.text (va / 4096) (omega (arith, l.text_start_on_page)) (omega arith))
  section-entry m p (inr (inl (a, b))) = (
    1,
    omega arith,
    refl,
    p.rodata (va / 4096) (omega (arith, l.rodata_start_on_page)) (omega arith),
  )
  section-entry m p (inr (inr (inl (a, b)))) = (
    3,
    omega arith,
    refl,
    p.data_pages (va / 4096) (omega (arith, l.data_start_on_page)) (omega arith),
  )
  section-entry m p (inr (inr (inr (a, b)))) =
      (3, omega arith, refl, p.free_pages (va / 4096) (omega arith) (omega arith))

  pub section-bounds : InSection s va → (4096 ≤ va) × (va < 2 ^ 28)
  section-bounds (inl (a, b)) = omega arith
  section-bounds (inr (inl (a, b))) = omega arith
  section-bounds (inr (inr (inl (a, b)))) = omega arith
  section-bounds (inr (inr (inr (a, b)))) = omega arith

-- What the debugger finds at an address, in the memory that early_mm_map_kernel leaves.
abbrev pub Found : Symbols → Client → ℕ → Memory → Type 0
Found s client va m =
    phys_addr_lookup client (bytes_of m) va
    ≡ (if ltb va 4096 then (0, 0) else (va, 4096 - va % 4096))

module _ (s : Symbols) (l : Layout s) (client : Client)
    (on : (bit_and client.cr0 0x80000000 == 0) ≡ false) (cr3 : client.cr3 ≡ s.pgdir)
    (aligned : s.pgdir % 4096 ≡ 0) where
  pub found :
      (va : ℕ) (m : Memory)
      → Directory s.pgdir s.pgtab 64 m
      → Protected s m
      → (va < 4096) ⊎ InSection s va
      → Found s client va m
  found va m d p (inl h) =
      let t : ltb va 4096 ≡ true = ground arith in
      let k : va / 4096 ≡ 0 = omega arith in
      rw t (
        lookup_null client s.pgdir s.pgtab va m on cr3 d aligned (omega arith) (omega arith)
          (ap (entry s.pgtab m) k ∙ p.null))
  found va m d p (inr h) =
      let b = section-bounds s l va h in
      let t : ltb va 4096 ≡ false = ground arith in
      let (f, small, odd, e) = section-entry s l va m p h in
      rw t (
        lookup_identity client s.pgdir s.pgtab va m on cr3 d aligned (omega arith) (omega arith) f
          small odd e)
