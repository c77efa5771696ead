-- ===== src/Segments/Fields.antt =====
-- fill_descriptor and fill_gate of kernel/boot/processor_structs.c: the processor reads from an entry
-- what was put into it.
use Prim.Native.Nat.{bit_and, bit_or}
use projet_pcsea.Common.{
  ℕ, ◌+◌, ◌*◌, ◌%◌, ◌/◌, ◌^◌, ◌<◌, ◌≡◌, refl, true, false, ltb, Bool-cases, inl, inr, if◌then◌else◌,
  arith, ap, ◌∙◌,
}
use projet_pcsea.Common.Bits.{
  bit_or-top, bit_or-low_high, bit_or-high_low, bit_and-low, bit_and-high,
}
use projet_pcsea.Segments.{
  acc_p, sz_g, fill_descriptor, fill_gate, segment_base, segment_flags, segment_limit, access_byte,
  gate_offset, gate_selector,
}

-- The two halves of an entry.
halves : (high low : ℕ) → low < 2 ^ 32 → bit_or (high * 2 ^ 32) low ≡ high * 2 ^ 32 + low
halves high low h = bit_or-high_low 32 high low h

present : (access : ℕ) → bit_and (bit_or access acc_p) 0xff ≡ access % 128 + 128
present access = bit_and-low 8 (bit_or access 128) ∙ bit_or-top 7 access

upper_rights :
    (b a l s : ℕ)
    → b < 2 ^ 32
    → bit_or
        (bit_or
          (bit_or
            (bit_or (b / 2 ^ 16 % 2 ^ 8) ((a % 128 + 128) * 2 ^ 8))
            (l / 2 ^ 16 % 2 ^ 4 * 2 ^ 16))
          (s % 2 ^ 4 * 2 ^ 20))
        (b / 2 ^ 24 * 2 ^ 24)
      ≡ b / 2 ^ 16 % 2 ^ 8
        + (a % 128 + 128) * 2 ^ 8
        + l / 2 ^ 16 % 2 ^ 4 * 2 ^ 16
        + s % 2 ^ 4 * 2 ^ 20
        + b / 2 ^ 24 * 2 ^ 24
upper_rights b a l s h =
    rw
      (
        bit_or-low_high 8 (a % 128 + 128) (b / 2 ^ 16 % 2 ^ 8) (omega arith),
        bit_or-low_high 16 (l / 2 ^ 16 % 2 ^ 4) (b / 2 ^ 16 % 2 ^ 8 + (a % 128 + 128) * 2 ^ 8)
            (omega arith),
        bit_or-low_high 20 (s % 2 ^ 4)
            (b / 2 ^ 16 % 2 ^ 8 + (a % 128 + 128) * 2 ^ 8 + l / 2 ^ 16 % 2 ^ 4 * 2 ^ 16)
            (omega arith),
      )
      (bit_or-low_high 24 (b / 2 ^ 24) _ (omega arith))

-- The fields of an entry that fill_descriptor makes for the limit `l` and the flags `s` that it has
-- chosen.
descriptor : ℕ → ℕ → ℕ → ℕ → ℕ
descriptor b l a s =
    (b / 2 ^ 16 % 2 ^ 8
        + (a % 128 + 128) * 2 ^ 8
        + l / 2 ^ 16 % 2 ^ 4 * 2 ^ 16
        + s % 2 ^ 4 * 2 ^ 20
        + b / 2 ^ 24 * 2 ^ 24)
      * 2 ^ 32
    + (l % 2 ^ 16 + b % 2 ^ 16 * 2 ^ 16)

fill_descriptor_lem :
    (b l0 a s0 : ℕ)
    → b < 2 ^ 32
    → fill_descriptor b l0 a s0
      ≡ descriptor b
          (if ltb 0xfffff l0 then l0 / 2 ^ 12 else l0)
          a
          (if ltb 0xfffff l0 then bit_or s0 sz_g else s0)
unfolding fill_descriptor descriptor
fill_descriptor_lem b l0 a s0 h =
    let l : ℕ = if ltb 0xfffff l0 then l0 / 2 ^ 12 else l0 in
    let s : ℕ = if ltb 0xfffff l0 then bit_or s0 sz_g else s0 in
    let base : bit_and b 0xff000000 ≡ b / 2 ^ 24 * 2 ^ 24 =
      bit_and-high 24 b 255 ∙ ap (λ t. t * 2 ^ 24) (bit_and-low 8 (b / 2 ^ 24)) ∙ omega arith in
    let limit : bit_and l 0xf0000 ≡ l / 2 ^ 16 % 2 ^ 4 * 2 ^ 16 =
      bit_and-high 16 l 15 ∙ ap (λ t. t * 2 ^ 16) (bit_and-low 4 (l / 2 ^ 16)) in
    rw
      (
        bit_and-low 16 l,
        bit_and-low 16 b,
        bit_and-low 8 (b / 2 ^ 16),
        present a,
        limit,
        bit_and-low 4 s,
        base,
        upper_rights b a l s h,
      )
      (halves _ (l % 2 ^ 16 + b % 2 ^ 16 * 2 ^ 16) (omega arith))

module _ (b l a s : ℕ) (hb : b < 2 ^ 32) (hl : l < 2 ^ 20) (hs : s < 16) where
  read_base : segment_base (descriptor b l a s) ≡ b
  unfolding descriptor
  read_base = omega arith

  read_flags : segment_flags (descriptor b l a s) ≡ s
  unfolding descriptor
  read_flags = omega arith

  read_rights : access_byte (descriptor b l a s) ≡ a % 128 + 128
  unfolding descriptor
  read_rights = omega arith

  read_limit : descriptor b l a s % 2 ^ 16 + descriptor b l a s / 2 ^ 48 % 2 ^ 4 * 2 ^ 16 ≡ l
  unfolding descriptor
  read_limit = omega arith

  read_ends : segment_limit (descriptor b l a s) ≡ (if ltb 7 s then l * 4096 + 4095 else l)
  read_ends = rw (read_flags, read_limit) refl

-- What the processor reads from a descriptor: the segment starts at `base`, its last offset is `limit`,
-- it is present, with the access rights and the size flag given.
pub record Describes (base limit access size e : ℕ) : Type 0 where
  pub starts : segment_base e ≡ base
  pub ends : segment_limit e ≡ limit
  pub rights : access_byte e ≡ access % 128 + 128
  pub sized : segment_flags e % 8 ≡ size

-- The processor reads from an entry of fill_descriptor the address, the rights and the size that were
-- put in, the segment present, and the limit, where that is more than 0xfffff rounded up to the end of
-- its page. The address and the limit have 32 bits, the size flags are below 8.
pub fill_descriptor-Describes :
    (base limit access size : ℕ)
    → base < 2 ^ 32
    → limit < 2 ^ 32
    → size < 8
    → Describes base
        (if ltb 0xfffff limit then limit / 4096 * 4096 + 4095 else limit)
        access
        size
        (fill_descriptor base limit access size)
fill_descriptor-Describes base limit access size hb hl hs = elim (Bool-cases (ltb 0xfffff limit)) [
  | inl e ↦
      let o : bit_or size sz_g ≡ size + 8 = bit_or-low_high 3 1 size (omega arith) in
      rw (fill_descriptor_lem base limit access size hb, e, o)
        (record {
          starts = read_base base (limit / 4096) access (size + 8) hb (omega arith) (omega arith);
          ends =
              read_ends base (limit / 4096) access (size + 8) hb (omega arith) (omega arith)
              ∙ (let t : ltb 7 (size + 8) ≡ true = ground arith in rw t refl);
          rights = read_rights base (limit / 4096) access (size + 8) hb (omega arith) (omega arith);
          sized = omega (
            arith,
            read_flags base (limit / 4096) access (size + 8) hb (omega arith) (omega arith),
          );
        })
  | inr e ↦
      rw (fill_descriptor_lem base limit access size hb, e)
        (record {
          starts = read_base base limit access size hb (ground arith) (omega arith);
          ends =
              read_ends base limit access size hb (ground arith) (omega arith)
              ∙ (let t : ltb 7 size ≡ false = ground arith in rw t refl);
          rights = read_rights base limit access size hb (ground arith) (omega arith);
          sized = omega (arith, read_flags base limit access size hb (ground arith) (omega arith));
        })
]

-- What the processor reads from a gate: where it leads, in which segment, present, with the type and the
-- privilege level of `access`.
pub record Leads (offset selector access e : ℕ) : Type 0 where
  pub target : gate_offset e ≡ offset
  pub segment : gate_selector e ≡ selector
  pub rights : access_byte e ≡ access + 128

-- The two words of a gate.
pub gate_words :
    (offset selector access : ℕ)
    → offset < 2 ^ 32
    → selector < 2 ^ 16
    → access < 128
    → fill_gate offset selector access 0
      ≡ ((access + 128) * 2 ^ 8 + offset / 2 ^ 16 * 2 ^ 16) * 2 ^ 32
        + (offset % 2 ^ 16 + selector * 2 ^ 16)
unfolding fill_gate
gate_words offset selector access ho hs ha =
    let upper : bit_and offset 0xffff0000 ≡ offset / 2 ^ 16 * 2 ^ 16 =
      bit_and-high 16 offset 65535
      ∙ ap (λ t. t * 2 ^ 16) (bit_and-low 16 (offset / 2 ^ 16))
      ∙ omega arith in
    let zero_or : bit_or (bit_and 0 0xf) ((access + 128) * 2 ^ 8) ≡ (access + 128) * 2 ^ 8 =
      bit_or-low_high 8 (access + 128) 0 (omega arith) ∙ omega arith in
    rw
      (
        bit_and-low 16 offset,
        bit_or-low_high 16 selector (offset % 2 ^ 16) (omega arith),
        bit_or-low_high 7 1 access ha,
        upper,
        zero_or,
        bit_or-low_high 16 (offset / 2 ^ 16) ((access + 128) * 2 ^ 8) (omega arith),
      )
      (halves _ (offset % 2 ^ 16 + selector * 2 ^ 16) (omega arith))

pub fill_gate-Leads :
    (offset selector access : ℕ)
    → offset < 2 ^ 32
    → selector < 2 ^ 16
    → access < 128
    → Leads offset selector access (fill_gate offset selector access 0)
fill_gate-Leads offset selector access ho hs ha =
    rw (gate_words offset selector access ho hs ha)
      (record { target = omega arith; segment = omega arith; rights = omega arith })
