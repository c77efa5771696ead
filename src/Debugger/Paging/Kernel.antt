-- ===== src/Debugger/Paging/Kernel.antt =====
-- gdb_copyin of kernel/gdb_serial_support.c in the address space that early_mm_map_kernel of
-- kernel/boot/early_mm.c makes.
use Prim.Native.Nat.{bit_and}
use projet_pcsea.Common.{
  ℕ, suc, ◌+◌, ◌-◌, ◌%◌, ◌^◌, ◌≤◌, ◌<◌, ◌≡◌, ◌≢◌, refl, false, true, ◌==◌, ltb, inl, inr, arith, ap,
  ◌∙◌,
}
use projet_pcsea.Common.Int.{pos, minus_one}
use projet_pcsea.Common.Outcome.{Returns, Returns-mono, Returns-both}
use projet_pcsea.EarlyMm.{Memory}
use projet_pcsea.EarlyMm.Kernel.{Symbols, early_mm_map_kernel}
use projet_pcsea.EarlyMm.Kernel.Pages.{Layout, Pages}
use projet_pcsea.EarlyMm.Kernel.Sections.{Protected, kernel-Pages, early_mm_map_kernel-Protected}
use projet_pcsea.EarlyMm.Region.{Directory}
use projet_pcsea.Debugger.Paging.{Bytes, Client, phys_addr_lookup, gdb_copyin}
use projet_pcsea.Debugger.Paging.Copy.{room, paddr}
use projet_pcsea.Debugger.Paging.Read.{gdb_copyin-Read}
use projet_pcsea.Debugger.Paging.Identity.{bytes_of, InSection, section-bounds, found}

abbrev Known : Symbols → Memory → Type 0
Known s m = Directory s.pgdir s.pgtab 64 m × Protected s m

kernel-Known :
    (s : Symbols) (mem : Memory) → Layout s → Returns (Known s) (early_mm_map_kernel 65537 s mem)
kernel-Known s mem l =
    Returns-mono _ (early_mm_map_kernel 65537 s mem)
      (Returns-both (Pages s _) (Protected s) (early_mm_map_kernel 65537 s mem)
        (kernel-Pages s mem l) (early_mm_map_kernel-Protected s mem l))
      (λ m (p, q). (p.0, q))

module _ (s : Symbols) (l : Layout s) (client : Client)
    (on : (bit_and client.cr0 0x80000000 == 0) ≡ false) (cr3 : client.cr3 ≡ s.pgdir)
    (aligned : s.pgdir % 4096 ≡ 0) (va : ℕ) (m : Memory) (known : Known s m) where
  found-above :
      InSection s va → (paddr client (bytes_of m) va ≡ va) × (room client (bytes_of m) va ≢ 0)
  found-above h =
      let b = section-bounds s l va h in
      let t : ltb va 4096 ≡ false = ground arith in
      let f : phys_addr_lookup client (bytes_of m) va ≡ (va, 4096 - va % 4096) =
        found s l client on cr3 aligned va m known.0 known.1 (inr h) ∙ rw t refl in
      (ap (λ x. x.0) f, λ z. absurd (omega (arith, ap (λ x. x.1) f)))

  found-below : va < 4096 → room client (bytes_of m) va ≡ 0
  found-below h =
      let t : ltb va 4096 ≡ true = ground arith in
      ap (λ x. x.1) (found s l client on cr3 aligned va m known.0 known.1 (inl h)) ∙ rw t refl

module _ (s : Symbols) (mem : Memory) (l : Layout s) (client : Client)
    (on : (bit_and client.cr0 0x80000000 == 0) ≡ false) (cr3 : client.cr3 ≡ s.pgdir)
    (aligned : s.pgdir % 4096 ≡ 0) (cr0 fuel src dest size : ℕ) (buffer : Bytes)
    (enough : size ≤ fuel) where
  -- In the address space of the kernel the debugger reads the bytes of .text, .rodata, .data and of the
  -- free memory from their own addresses: gdb_copyin returns 0 with each byte of the range in the
  -- buffer. The sections lie in the order of the linker script, paging is on with the directory of the
  -- kernel, the range lies in these sections, and the loop has more rounds than there are bytes.
  pub kernel-copyin :
      ((k : ℕ) → k < size → InSection s (src + k))
      → src + size ≤ 2 ^ 32
      → Returns
          (λ m.
            Returns
              (λ out.
                (out.0 ≡ pos 0) × ((k : ℕ) → k < size → out.1 (dest + k) ≡ bytes_of m (src + k)))
              (gdb_copyin (suc fuel) client cr0 (bytes_of m) src dest size buffer))
          (early_mm_map_kernel 65537 s mem)
  kernel-copyin inside w =
      Returns-mono _ (early_mm_map_kernel 65537 s mem) (kernel-Known s mem l) (λ m known.
        Returns-mono _ (gdb_copyin (suc fuel) client cr0 (bytes_of m) src dest size buffer)
          (gdb_copyin-Read client cr0 fuel src dest size (bytes_of m) buffer enough w)
          (λ out (r, _).
            let at = λ (k : ℕ) (h : k < size).
              found-above s l client on cr3 aligned (src + k) m known (inside k h) in
            let a = r.all (λ k h. (at k h).1) in
            (a.0, λ k h. a.1 k h ∙ ap (bytes_of m) (at k h).0)))

  -- It reads nothing through NULL or in the rest of the first page: gdb_copyin returns -1.
  pub null-copyin :
      src < 4096
      → 0 < size
      → src + size ≤ 2 ^ 32
      → Returns
          (λ m.
            Returns
              (λ out. out.0 ≡ minus_one)
              (gdb_copyin (suc fuel) client cr0 (bytes_of m) src dest size buffer))
          (early_mm_map_kernel 65537 s mem)
  null-copyin low some_byte w =
      Returns-mono _ (early_mm_map_kernel 65537 s mem) (kernel-Known s mem l) (λ m known.
        Returns-mono _ (gdb_copyin (suc fuel) client cr0 (bytes_of m) src dest size buffer)
          (gdb_copyin-Read client cr0 fuel src dest size (bytes_of m) buffer enough w)
          (λ out (r, _).
            r.missing 0 some_byte
              (found-below s l client on cr3 aligned (src + 0) m known (omega arith))))
