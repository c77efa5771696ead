-- ===== src/Debugger/Paging.antt =====
-- kernel/gdb_serial_support.c: how the debugger reads and writes the memory of the program that it has
-- stopped, by the page tables of that program. Physical memory is a map from addresses to bytes.
pub mod Copy
pub mod Read
pub mod Identity
pub mod Kernel
use Prim.Native.Nat.{bit_and, bit_or}
use projet_pcsea.Common.{
  ℕ, zero, suc, ◌+◌, ◌*◌, ◌-◌, ◌%◌, ◌/◌, ◌^◌, Bool, true, false, ◌==◌, leb, ltb, ◌&&◌,
  if◌then◌else◌,
}
use projet_pcsea.Common.Int.{ℤ, pos, minus_one}
use projet_pcsea.Common.Outcome.{Outcome, ok, out_of_fuel, ◌>>=◌}

abbrev pub Bytes : Type 0
Bytes = ℕ → ℕ

-- A word of 32 bits in memory, the lowest byte first.
abbrev pub word : Bytes → ℕ → ℕ
word bytes a = bytes a + bytes (a + 1) * 2 ^ 8 + bytes (a + 2) * 2 ^ 16 + bytes (a + 3) * 2 ^ 24

abbrev pub intel_offmask : ℕ
intel_offmask = 0xfff

abbrev pub pdeshift : ℕ
pdeshift = 22

abbrev pub pteshift : ℕ
pteshift = 12

abbrev pub intel_pte_valid : ℕ
intel_pte_valid = 1

abbrev pub intel_pde_superpage : ℕ
intel_pde_superpage = 0x80

abbrev pub intel_pte_pfn : ℕ
intel_pte_pfn = 0xfffff000

abbrev pub superpage_size : ℕ
superpage_size = 2 ^ 22

-- `client_cr0` and `client_cr3`
pub record Client : Type 0 where
  pub cr0 : ℕ
  pub cr3 : ℕ

abbrev pub copy_client_paging_registers : ℕ → ℕ → ℕ → Client
copy_client_paging_registers cr0 cr3 cr4 = record { cr0 = cr0; cr3 = cr3 }

abbrev pub lin2pdenum : ℕ → ℕ
lin2pdenum a = bit_and (a / 2 ^ pdeshift) 0x3ff

abbrev pub lin2ptenum : ℕ → ℕ
lin2ptenum a = bit_and (a / 2 ^ pteshift) 0x3ff

-- `*paddr`, 0 where it is not written, and `*len`.
unfoldable pub phys_addr_lookup : Client → Bytes → ℕ → ℕ × ℕ
phys_addr_lookup client bytes vaddr =
    let pd = bit_and client.cr3 intel_pte_pfn in
    let pde = word bytes (pd + 4 * lin2pdenum vaddr) in
    if bit_and client.cr0 0x80000000 == 0
    then (vaddr, 0xffffffff)
    else (if bit_and pde intel_pte_valid == 0
        then (0, 0)
        else (if bit_and pde intel_pde_superpage == 0
            then (let pt = bit_and pde intel_pte_pfn in
                let pte = word bytes (pt + 4 * lin2ptenum vaddr) in
                let offs = bit_and vaddr intel_offmask in
                if bit_and pte intel_pte_valid == 0
                then (0, 0)
                else (bit_and pte intel_pte_pfn + offs, intel_offmask + 1 - offs))
            else (let offs = bit_and vaddr (superpage_size - 1) in
                (bit_and pde (2 ^ 32 - superpage_size) + offs, superpage_size - offs))))

-- The value that disable_paging returns, and the register after it.
abbrev pub disable_paging : ℕ → ℕ × ℕ
disable_paging cr0 = (cr0, bit_and cr0 0x7fffffff)

-- The register after restore_paging.
abbrev pub restore_paging : ℕ → ℕ
restore_paging cr0 = cr0

-- `memcpy(dst, src, n)` from one memory to another.
abbrev pub memcpy : ℕ → ℕ → ℕ → Bytes → Bytes → Bytes
memcpy dst src n from to =
    λ a. if leb dst a && ltb a (dst + n) then from (src + (a - dst)) else to a

abbrev pub smaller : ℕ → ℕ → ℕ
smaller sz size = if ltb size sz then size else sz

-- The loop of gdb_copyin: the result, the buffer, and the register cr0 in the end, restored from `saved`.
unfoldable pub copyin_loop : ℕ → Client → ℕ → Bytes → ℕ → ℕ → ℕ → Bytes → Outcome (ℤ × Bytes × ℕ)
copyin_loop zero client saved bytes src_va dest_buf size buffer = out_of_fuel
copyin_loop (suc fuel) client saved bytes src_va dest_buf size buffer =
    let (pa, sz0) = phys_addr_lookup client bytes src_va in
    let sz = smaller sz0 size in
    let next =
      copyin_loop fuel client saved bytes ((src_va + sz) % 2 ^ 32) (dest_buf + sz) (size - sz)
        (memcpy dest_buf pa sz bytes buffer) in
    if size == 0
    then ok (pos 0, buffer, restore_paging saved)
    else (if sz0 == 0 then ok (minus_one, buffer, restore_paging saved) else next)

-- The loop of gdb_copyout, with the memory in place of the buffer.
unfoldable pub copyout_loop : ℕ → Client → ℕ → Bytes → ℕ → ℕ → ℕ → Bytes → Outcome (ℤ × Bytes × ℕ)
copyout_loop zero client saved buffer src_buf dest_va size bytes = out_of_fuel
copyout_loop (suc fuel) client saved buffer src_buf dest_va size bytes =
    let (pa, sz0) = phys_addr_lookup client bytes dest_va in
    let sz = smaller sz0 size in
    let next =
      copyout_loop fuel client saved buffer (src_buf + sz) ((dest_va + sz) % 2 ^ 32) (size - sz)
        (memcpy pa src_buf sz buffer bytes) in
    if size == 0
    then ok (pos 0, bytes, restore_paging saved)
    else (if sz0 == 0 then ok (minus_one, bytes, restore_paging saved) else next)

-- gdb_copyin and gdb_copyout give their result, what they have written to, and the register cr0 in the
-- end. The buffer is apart from the memory.
unfoldable pub gdb_copyin : ℕ → Client → ℕ → Bytes → ℕ → ℕ → ℕ → Bytes → Outcome (ℤ × Bytes × ℕ)
gdb_copyin fuel client cr0 bytes src_va dest_buf size buffer =
    let (saved, _) = disable_paging cr0 in
    copyin_loop fuel client saved bytes src_va dest_buf size buffer

unfoldable pub gdb_copyout : ℕ → Client → ℕ → Bytes → ℕ → ℕ → ℕ → Bytes → Outcome (ℤ × Bytes × ℕ)
gdb_copyout fuel client cr0 buffer src_buf dest_va size bytes =
    let (saved, _) = disable_paging cr0 in
    copyout_loop fuel client saved buffer src_buf dest_va size bytes

abbrev pub efl_tf : ℕ
efl_tf = 0x100

-- The flags after gdb_set_trace_flag.
unfoldable pub gdb_set_trace_flag : Bool → ℕ → ℕ
gdb_set_trace_flag trace_enable eflags =
    if trace_enable then bit_or eflags efl_tf else bit_and eflags (2 ^ 32 - 1 - efl_tf)
