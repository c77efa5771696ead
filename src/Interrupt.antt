-- ===== src/Interrupt.antt =====
-- kernel/interrupt.c, kernel/keyboard_int.c, kernel/kernel_it_49.c and the set-up in kernel/clock.c: the
-- mask of the interrupt controller, the gates of the interrupts, the timer. The devices behind the
-- ports are a parameter: `inb port`, the state after it, and `outb value port`.
mod Gate
mod Mask
mod Start
mod Tests
use Prim.Native.Nat.{bit_and, bit_or}
use projet_pcsea.Common.{ℕ, ◌+◌, ◌*◌, ◌-◌, ◌%◌, ◌/◌, ◌^◌, Bool, true, false, if◌then◌else◌, List}
use projet_pcsea.EarlyMm.{Memory, write}
use projet_pcsea.Segments.{kernel_cs}
use projet_pcsea.Display.{Display}
use projet_pcsea.Clock.{Time, clockfreq, affiche_clock}

-- The table of interrupt vectors, where the linker script has `idt`.
abbrev pub vectors : ℕ
vectors = 0x1000

-- `num_IT` is not negative; the address of `traitant` has 32 bits.
unfoldable pub init_traitant_it : ℕ → ℕ → Memory → Memory
init_traitant_it num_it traitant mem =
    let premier_mot = bit_or (kernel_cs * 2 ^ 16) (bit_and traitant 0x0000ffff) in
    let deuxieme_mot = bit_or (bit_and traitant 0xffff0000) 0x0008e00 in
    write (vectors + 4 * (num_it * 2 + 1)) deuxieme_mot
      (write (vectors + 4 * (num_it * 2)) premier_mot mem)

abbrev pub quartz : ℕ
quartz = 0x1234dd

-- The new value of `masque_complet` in open_IRQ, a byte; `num_IRQ` is below 32.
unfoldable pub new_mask : ℕ → Bool → ℕ → ℕ
new_mask num_irq masque masque_complet =
    (if masque
      then bit_or masque_complet (2 ^ num_irq)
      else bit_and masque_complet (2 ^ 32 - 1 - 2 ^ num_irq))
    % 2 ^ 8

-- What the interrupt entries of kernel/traitant.S have as addresses.
pub record Entries : Type 0 where
  pub traitant_it_32 : ℕ
  pub traitant_it_33 : ℕ
  pub traitant_it_49 : ℕ

unfoldable pub init_it_superuser : Entries → Memory → Memory
unfolding init_traitant_it
init_it_superuser at mem = init_traitant_it 49 at.traitant_it_49 mem

module _ {S : Type 0} (outb : ℕ → ℕ → S → S) where
  unfoldable pub clock_freq : S → S
  clock_freq s =
      let reglage = quartz / clockfreq % 2 ^ 16 in
      let s = outb 0x34 0x43 s in
      let s = outb (reglage % 256) 0x40 s in outb (reglage / 2 ^ 8) 0x40 s

module _ {S : Type 0} (inb : ℕ → S → ℕ × S) (outb : ℕ → ℕ → S → S) where
  unfoldable pub open_irq : ℕ → Bool → S → S
  unfolding new_mask
  open_irq num_irq masque s0 =
      let (masque_complet, s) = inb 0x21 s0 in outb (new_mask num_irq masque masque_complet) 0x21 s

  unfoldable pub init_keyboard : Entries → S × Memory → S × Memory
  unfolding open_irq init_traitant_it
  init_keyboard at (s, mem) = (open_irq 1 false s, init_traitant_it 33 at.traitant_it_33 mem)

  -- `printf("%c", val)` is a parameter, on what it writes to.
  unfoldable pub tic_pit_keyboard : {D : Type 0} → (ℕ → D → D) → S × D → S × D
  tic_pit_keyboard printf_char (s, d) =
      let s = outb 0x20 0x20 s in let (val, s) = inb 0x60 s in (s, printf_char val d)

  module _ (sprintf : ℕ → ℕ → ℕ → List ℕ) (at : Entries) (time : Time) where
    unfoldable pub init_clock : S × Memory × Display → S × Memory × Display
    unfolding open_irq clock_freq init_traitant_it affiche_clock
    init_clock (s, mem, d) = (
      open_irq 0 false (clock_freq outb s),
      init_traitant_it 32 at.traitant_it_32 mem,
      affiche_clock sprintf time d,
    )

    -- The first three calls of kernel_start.
    unfoldable pub init_interrupts : S × Memory × Display → S × Memory × Display
    unfolding init_clock init_keyboard init_it_superuser
    init_interrupts m0 =
        let (s, mem, d) = init_clock m0 in
        let (s, mem) = init_keyboard at (s, mem) in (s, init_it_superuser at mem, d)
