-- ===== src/Interrupt/Mask.antt =====
-- open_IRQ of kernel/interrupt.c and the set-up of the interrupts by cpu_init and kernel_start, over an
-- interrupt controller as its data sheet describes it.
use Prim.Native.Nat.{max, min, bit_and, bit_or}
use native.Mathlib.Nat.{pow-le-pow_right}
use projet_pcsea.Common.{
  ℕ, ◌+◌, ◌-◌, ◌^◌, ◌≤◌, ◌<◌, ◌≡◌, ◌≢◌, Bool, true, false, ◌==◌, if◌then◌else◌, arith, ap, sym, ◌∙◌,
}
use projet_pcsea.Common.Bits.{
  bit_at, bit_at-bit_or, bit_at-bit_and, bit_at-mod, bit_at_pow, bit_at_complement, bit_at-le,
}
use projet_pcsea.Segments.Tables.{setup_pic}
use projet_pcsea.Interrupt.{new_mask, open_irq, clock_freq}

-- An Intel 8259A at ports 0x20 and 0x21. `Ready` holds after the four words of its initialisation and
-- until the first word of the next one, which goes to port 0x20. A ready controller keeps the last byte
-- written to port 0x21, its mask, for reading.
pub record Controller {S : Type 0} (inb : ℕ → S → ℕ × S) (outb : ℕ → ℕ → S → S) : Type 1 where
  pub Ready : S → Type 0
  pub initialised :
      (s : S) → Ready (outb 0x1 0x21 (outb 0x4 0x21 (outb 0x20 0x21 (outb 0x11 0x20 s))))
  pub acknowledged : (s : S) → Ready s → Ready (outb 0x20 0x20 s)
  pub written : (v p : ℕ) (s : S) → p ≢ 0x20 → Ready s → Ready (outb v p s)
  pub read : (p : ℕ) (s : S) → Ready s → Ready (inb p s).1
  pub holds : (v : ℕ) (s : S) → v < 2 ^ 8 → Ready s → (inb 0x21 (outb v 0x21 s)).0 ≡ v
  pub kept :
      (v p : ℕ) (s : S) → p ≢ 0x20 → p ≢ 0x21 → Ready s → (inb 0x21 (outb v p s)).0 ≡ (inb 0x21 s).0

either : (t : Bool) (d : ℕ) → d ≤ 1 → max d (if t then 1 else 0) ≡ (if t then 1 else d)
either true d h = omega arith
either false d h = omega arith

unless :
    (t : Bool) (d c : ℕ) → d ≤ 1 → c + (if t then 1 else 0) ≡ 1 → min d c ≡ (if t then 0 else d)
unless true d c h e = omega arith
unless false d c h e = omega arith

-- Bit `j` of the new mask.
new_mask-bit_at :
    (num_irq j mask : ℕ) (masque : Bool)
    → num_irq < 32
    → j < 8
    → bit_at j (new_mask num_irq masque mask)
      ≡ (if j == num_irq then (if masque then 1 else 0) else bit_at j mask)
unfolding new_mask
new_mask-bit_at num_irq j mask true h k =
    bit_at-mod 8 j (bit_or mask (2 ^ num_irq)) k
    ∙ bit_at-bit_or j mask (2 ^ num_irq)
    ∙ rw (bit_at_pow j num_irq) (either (j == num_irq) (bit_at j mask) (bit_at-le j mask))
new_mask-bit_at num_irq j mask false h k =
    let p : 2 ^ num_irq ≤ 2 ^ 31 = pow-le-pow_right (omega arith) {j = 31} (omega arith) in
    let c : bit_at j (2 ^ 32 - 1 - 2 ^ num_irq) + bit_at j (2 ^ num_irq) ≡ 1 =
      bit_at_complement 32 j (2 ^ 32 - 1 - 2 ^ num_irq) (2 ^ num_irq) (omega arith) (omega arith) in
    bit_at-mod 8 j (bit_and mask (2 ^ 32 - 1 - 2 ^ num_irq)) k
    ∙ bit_at-bit_and j mask (2 ^ 32 - 1 - 2 ^ num_irq)
    ∙ unless (j == num_irq) (bit_at j mask) _ (bit_at-le j mask) (rw (sym (bit_at_pow j num_irq)) c)

new_mask-byte : (num_irq : ℕ) (masque : Bool) (m : ℕ) → new_mask num_irq masque m < 2 ^ 8
unfolding new_mask
new_mask-byte num_irq masque m = omega arith

module _ {S : Type 0} (inb : ℕ → S → ℕ × S) (outb : ℕ → ℕ → S → S) (pic : Controller inb outb) where
  -- The mask that a program reads.
  abbrev pub mask : S → ℕ
  mask s = (inb 0x21 s).0

  -- open_IRQ masks or opens its line, of those of the first controller, and leaves all other lines as
  -- they are; for a line of the second one it changes nothing. The number of the line is below 32.
  pub open_irq-bit_at :
      (num_irq j : ℕ) (masque : Bool) (s : S)
      → num_irq < 32
      → j < 8
      → pic.Ready s
      → bit_at j (mask (open_irq inb outb num_irq masque s))
        ≡ (if j == num_irq then (if masque then 1 else 0) else bit_at j (mask s))
  unfolding open_irq
  open_irq-bit_at num_irq j masque s h k r =
      ap (bit_at j) (
        pic.holds (new_mask num_irq masque (mask s)) (inb 0x21 s).1
          (new_mask-byte num_irq masque (mask s)) (pic.read 0x21 s r))
      ∙ new_mask-bit_at num_irq j (mask s) masque h k

  open_irq-Ready :
      (num_irq : ℕ) (masque : Bool) (s : S)
      → pic.Ready s
      → pic.Ready (open_irq inb outb num_irq masque s)
  unfolding open_irq
  open_irq-Ready num_irq masque s r =
      pic.written (new_mask num_irq masque (mask s)) 0x21 _ (omega arith) (pic.read 0x21 s r)

  pub open_irq-mask :
      (num_irq : ℕ) (s : S)
      → pic.Ready s
      → pic.Ready (open_irq inb outb num_irq false s)
        × (mask (open_irq inb outb num_irq false s) ≡ new_mask num_irq false (mask s))
  unfolding open_irq
  open_irq-mask num_irq s r = (
    open_irq-Ready num_irq false s r,
    pic.holds (new_mask num_irq false (mask s)) (inb 0x21 s).1
        (new_mask-byte num_irq false (mask s)) (pic.read 0x21 s r),
  )

  -- A write to another device.
  aside :
      (v p : ℕ) (s : S) (m : ℕ)
      → p ≢ 0x20
      → p ≢ 0x21
      → pic.Ready s × (mask s ≡ m)
      → pic.Ready (outb v p s) × (mask (outb v p s) ≡ m)
  aside v p s m n n' (r, e) = (pic.written v p s n r, pic.kept v p s n n' r ∙ e)

  pub setup_pic-closed : (s : S) → pic.Ready (setup_pic outb s) × (mask (setup_pic outb s) ≡ 0xff)
  unfolding setup_pic
  setup_pic-closed s =
      let apart : (v p : ℕ) (t : S) → p ≢ 0x20 → pic.Ready t → pic.Ready (outb v p t) =
        pic.written in
      let r0 = apart 0x11 0xa0 _ (omega arith) (pic.initialised s) in
      let r1 = apart 0x28 0xa1 _ (omega arith) r0 in
      let r2 = apart 0x2 0xa1 _ (omega arith) r1 in
      let r3 = apart 0x1 0xa1 _ (omega arith) r2 in
      let r4 = apart 0x20 0xa0 _ (omega arith) (pic.acknowledged _ r3) in
      aside 0xff 0xa1 _ 0xff (omega arith) (omega arith)
        (apart 0xff 0x21 _ (omega arith) r4, pic.holds 0xff _ (omega arith) r4)

  pub clock_freq-mask :
      (s : S) (m : ℕ)
      → pic.Ready s × (mask s ≡ m)
      → pic.Ready (clock_freq outb s) × (mask (clock_freq outb s) ≡ m)
  unfolding clock_freq
  clock_freq-mask s m h = aside _ 0x40 _ m (omega arith) (omega arith) (
      aside _ 0x40 _ m (omega arith) (omega arith)
        (aside 0x34 0x43 s m (omega arith) (omega arith) h))
