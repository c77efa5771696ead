-- ===== src/Interrupt/Tests.antt =====
-- The theorems on the interrupts of kernel/interrupt.c at a concrete interrupt controller.
use Prim.Native.Nat.{bit_and}
use projet_pcsea.Common.{ℕ, zero, suc, ◌≡◌, ◌≢◌, refl, ◌==◌, if◌then◌else◌, arith, List, []}
use projet_pcsea.EarlyMm.{Memory}
use projet_pcsea.Segments.Tables.{setup_pic}
use projet_pcsea.Display.{Display}
use projet_pcsea.Clock.{Time}
use projet_pcsea.Interrupt.{Entries, init_interrupts}
use projet_pcsea.Interrupt.Mask.{Controller, mask}
use projet_pcsea.Interrupt.Start.{Started, init_interrupts-Started}

-- A controller: how many words of its initialisation it waits for, and its mask.
abbrev Pic : Type 0
Pic = ℕ × ℕ

-- A word at port 0x21.
abbrev accept_word : ℕ → Pic → Pic
accept_word value (zero, imr) = (zero, value)
accept_word value (suc n, imr) = (n, imr)

abbrev pic_inb : ℕ → Pic → ℕ × Pic
pic_inb port s = (if port == 0x21 then s.1 else 0, s)

abbrev pic_outb : ℕ → ℕ → Pic → Pic
pic_outb value port s =
    if port == 0x20
    then (if bit_and value 0x10 == 0 then s else (3, 0))
    else (if port == 0x21 then accept_word value s else s)

written : (v p : ℕ) (s : Pic) → p ≢ 0x20 → s.0 ≡ 0 → (pic_outb v p s).0 ≡ 0
written v p (zero, imr) n r = ground arith
written v p (suc a, imr) n r = absurd (omega arith)

holds : (v : ℕ) (s : Pic) → s.0 ≡ 0 → (pic_outb v 0x21 s).1 ≡ v
holds v (zero, imr) r = refl
holds v (suc a, imr) r = absurd (omega arith)

kept :
    (v p : ℕ) (s : Pic)
    → p ≢ 0x20
    → p ≢ 0x21
    → s.0 ≡ 0
    → (pic_inb 0x21 (pic_outb v p s)).0 ≡ (pic_inb 0x21 s).0
kept v p s n m r = ground arith

abbrev pic : Controller pic_inb pic_outb
pic = record {
  Ready = λ s. s.0 ≡ 0;
  initialised = λ s. refl;
  acknowledged = λ s r. r;
  written = written;
  read = λ p s r. r;
  holds = λ v s h r. holds v s r;
  kept = kept;
}

abbrev entries : Entries
entries = record { traitant_it_32 = 0x100a10; traitant_it_33 = 0x100a30; traitant_it_49 = 0x100a50 }

abbrev blank_memory : Memory
blank_memory a = 0

abbrev no_sprintf : ℕ → ℕ → ℕ → List ℕ
no_sprintf h m s = []

abbrev midnight : Time
midnight = record { sec = 0; min = 0; hour = 0 }

abbrev blank_display : Display
blank_display = record { cell = λ i. 0; curs_lig_pos = 0; curs_col_pos = 0; ports = [] }

init_interrupts-Started_example :
    let after =
      init_interrupts pic_inb pic_outb no_sprintf entries midnight
        (setup_pic pic_outb (2, 0x55), blank_memory, blank_display) in
    Started entries blank_memory after.1 (mask pic_inb pic_outb pic after.0)
init_interrupts-Started_example =
    init_interrupts-Started entries blank_memory (omega arith) (omega arith) (omega arith) pic_inb
      pic_outb pic no_sprintf midnight (2, 0x55) blank_display
