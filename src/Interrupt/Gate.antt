-- ===== src/Interrupt/Gate.antt =====
-- init_traitant_IT of kernel/interrupt.c against fill_gate of kernel/boot/processor_structs.c, on the table
-- that both write.
use Prim.Native.Nat.{bit_and}
use projet_pcsea.Common.{
  ℕ, ◌+◌, ◌*◌, ◌%◌, ◌/◌, ◌^◌, ◌<◌, ◌≡◌, refl, true, false, ◌==◌, Bool-cases, inl, inr,
  if◌then◌else◌, arith, ap, ◌∙◌,
}
use projet_pcsea.Common.Bits.{bit_or-high_low, bit_and-low, bit_and-high}
use projet_pcsea.EarlyMm.{Memory}
use projet_pcsea.Segments.{kernel_cs, acc_intr_gate, fill_gate}
use projet_pcsea.Segments.Fields.{gate_words}
use projet_pcsea.Interrupt.{vectors, init_traitant_it}

-- Entry `k` of the table, as the word of 64 bits that the processor reads.
abbrev pub vector : Memory → ℕ → ℕ
vector mem k = mem (vectors + 8 * k + 4) * 2 ^ 32 + mem (vectors + 8 * k)

-- init_traitant_IT puts in its entry the interrupt gate that fill_gate makes for the handler, in the code
-- segment of the kernel and at its level, and keeps all other entries. The handler has an address of 32
-- bits.
pub init_traitant_it-fill_gate :
    (num_it traitant k : ℕ) (mem : Memory)
    → traitant < 2 ^ 32
    → vector (init_traitant_it num_it traitant mem) k
      ≡ (if k == num_it then fill_gate traitant kernel_cs acc_intr_gate 0 else vector mem k)
unfolding init_traitant_it
init_traitant_it-fill_gate num_it traitant k mem h = elim (Bool-cases (k == num_it)) [
  | inl e ↦
      let q : k ≡ num_it = ground arith in
      let a : ((4096 + 8 * k) == (4096 + 4 * (num_it * 2 + 1))) ≡ false = ground arith in
      let b : ((4096 + 8 * k) == (4096 + 4 * (num_it * 2))) ≡ true = ground arith in
      let c : ((4096 + 8 * k + 4) == (4096 + 4 * (num_it * 2 + 1))) ≡ true = ground arith in
      let upper : bit_and traitant 0xffff0000 ≡ traitant / 2 ^ 16 * 2 ^ 16 =
        bit_and-high 16 traitant 65535
        ∙ ap (λ t. t * 2 ^ 16) (bit_and-low 16 (traitant / 2 ^ 16))
        ∙ omega arith in
      rw
        (
          a,
          b,
          c,
          e,
          gate_words traitant 16 14 h (omega arith) (omega arith),
          upper,
          bit_and-low 16 traitant,
          bit_or-high_low 16 16 (traitant % 2 ^ 16) (omega arith),
          bit_or-high_low 16 (traitant / 2 ^ 16) 0x8e00 (omega arith),
        )
        (omega arith)
  | inr e ↦
      let a : ((4096 + 8 * k) == (4096 + 4 * (num_it * 2 + 1))) ≡ false = ground arith in
      let b : ((4096 + 8 * k) == (4096 + 4 * (num_it * 2))) ≡ false = ground arith in
      let c : ((4096 + 8 * k + 4) == (4096 + 4 * (num_it * 2 + 1))) ≡ false = ground arith in
      let d : ((4096 + 8 * k + 4) == (4096 + 4 * (num_it * 2))) ≡ false = ground arith in
      rw (a, b, c, d, e) refl
]
