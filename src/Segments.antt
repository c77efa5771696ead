-- ===== src/Segments.antt =====
-- kernel/boot/processor_structs.c and kernel/segment.h: the entries of the descriptor tables, as words of
-- 64 bits, and how the processor reads them.
pub mod Tables
pub mod Fields
pub mod Tests
use Prim.Native.Nat.{bit_and, bit_or}
use projet_pcsea.Common.{ℕ, ◌+◌, ◌*◌, ◌%◌, ◌/◌, ◌^◌, ltb, if◌then◌else◌}

-- Selectors.
abbrev pub base_tss : ℕ
base_tss = 0x08

abbrev pub kernel_cs : ℕ
kernel_cs = 0x10

abbrev pub kernel_ds : ℕ
kernel_ds = 0x18

abbrev pub user_cs : ℕ
user_cs = 0x43

abbrev pub user_ds : ℕ
user_ds = 0x4b

abbrev pub trap_tss_base : ℕ
trap_tss_base = 0x50

-- The size of a segment.
abbrev pub sz_32 : ℕ
sz_32 = 0x4

abbrev pub sz_g : ℕ
sz_g = 0x8

-- Access rights.
abbrev pub acc_task_gate : ℕ
acc_task_gate = 0x05

abbrev pub acc_tss : ℕ
acc_tss = 0x09

abbrev pub acc_intr_gate : ℕ
acc_intr_gate = 0x0e

abbrev pub acc_data_w : ℕ
acc_data_w = 0x12

abbrev pub acc_code_r : ℕ
acc_code_r = 0x1a

abbrev pub acc_pl_k : ℕ
acc_pl_k = 0x00

abbrev pub acc_pl_u : ℕ
acc_pl_u = 0x60

abbrev pub acc_p : ℕ
acc_p = 0x80

-- What fill_descriptor writes to `*entry`, from its other arguments.
unfoldable pub fill_descriptor : ℕ → ℕ → ℕ → ℕ → ℕ
fill_descriptor addr limit0 access sizebits0 =
    let limit = if ltb 0xfffff limit0 then limit0 / 2 ^ 12 else limit0 in
    let sizebits = if ltb 0xfffff limit0 then bit_or sizebits0 sz_g else sizebits0 in
    let base = addr in
    let p0 = bit_and limit 0xffff + bit_and base 0xffff * 2 ^ 16 in
    let p1 = bit_and (base / 2 ^ 16) 0xff in
    let p1 = bit_or p1 (bit_and (bit_or access acc_p) 0xff * 2 ^ 8) in
    let p1 = bit_or p1 (bit_and limit 0xf0000) in
    let p1 = bit_or p1 (bit_and sizebits 0xf * 2 ^ 20) in
    let p1 = bit_or p1 (bit_and base 0xff000000) in bit_or (p1 * 2 ^ 32) p0

-- What fill_gate writes to `*entry`. `selector` is an unsigned short, the last two are unsigned chars.
unfoldable pub fill_gate : ℕ → ℕ → ℕ → ℕ → ℕ
fill_gate offset selector access word_count =
    let p0 = bit_and offset 0xffff in
    let p0 = bit_or p0 (selector * 2 ^ 16) in
    let p1 = bit_and word_count 0xf in
    let p1 = bit_or p1 (bit_or access acc_p * 2 ^ 8) in
    let p1 = bit_or p1 (bit_and offset 0xffff0000) in bit_or (p1 * 2 ^ 32) p0

-- How the processor reads a descriptor: where its segment starts, the last offset in it, the rights and
-- the size flags. With the granularity flag the limit counts pages.
abbrev pub segment_base : ℕ → ℕ
segment_base e = e / 2 ^ 16 % 2 ^ 24 + e / 2 ^ 56 % 2 ^ 8 * 2 ^ 24

abbrev pub segment_flags : ℕ → ℕ
segment_flags e = e / 2 ^ 52 % 2 ^ 4

abbrev pub segment_limit : ℕ → ℕ
segment_limit e =
    let l = e % 2 ^ 16 + e / 2 ^ 48 % 2 ^ 4 * 2 ^ 16 in
    if ltb 7 (segment_flags e) then l * 4096 + 4095 else l

abbrev pub access_byte : ℕ → ℕ
access_byte e = e / 2 ^ 40 % 2 ^ 8

-- How it reads a gate.
abbrev pub gate_offset : ℕ → ℕ
gate_offset e = e % 2 ^ 16 + e / 2 ^ 48 % 2 ^ 16 * 2 ^ 16

abbrev pub gate_selector : ℕ → ℕ
gate_selector e = e / 2 ^ 16 % 2 ^ 16
