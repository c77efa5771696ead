-- ===== src/Debugger/Dump.antt =====
-- kernel/debugger.c: the dump of the registers on the screen.
pub mod Digits
pub mod Shown
use Prim.Native.Nat.{bit_and}
use projet_pcsea.Common.{
  ℕ, zero, suc, ◌+◌, ◌*◌, ◌-◌, ◌%◌, ◌/◌, ◌^◌, ◌==◌, ltb, if◌then◌else◌, List, [], ◌∷◌,
}
use projet_pcsea.Segments.Tables.{X86Tss}

-- The bytes from `screen_base` on.
abbrev pub Video : Type 0
Video = ℕ → ℕ

abbrev pub poke : ℕ → ℕ → Video → Video
poke a v screen = λ b. if b == a then v else screen b

-- The array of write_hex.
abbrev pub disp : ℕ → ℕ
disp i = if ltb i 10 then 48 + i else 65 + (i - 10)

-- The loop of write_hex, with `p` as an offset.
unfoldable pub hex_loop : ℕ → ℕ → ℕ → Video → Video
hex_loop zero p value screen = screen
hex_loop (suc length) p value screen =
    hex_loop length (p - 2) (value / 2 ^ 4) (poke (p - 2) (disp (bit_and value 15)) screen)

unfoldable pub write_hex : ℕ → ℕ → ℕ → ℕ → Video → Video
unfolding hex_loop
write_hex line col length value screen =
    hex_loop length ((line - 1) * 160 + (col + length - 1) * 2) value screen

-- The arguments of a call of write_hex.
pub record Field : Type 0 where
  pub line : ℕ
  pub col : ℕ
  pub digits : ℕ
  pub value : ℕ

abbrev pub at_place : ℕ → ℕ → ℕ → ℕ → Field
at_place line col digits value = record { line = line; col = col; digits = digits; value = value }

-- The calls of write_hex in dump_registers; `address` is where the task segment `t` lies.
unfoldable pub register_fields : ℕ → ℕ → ℕ → X86Tss → List Field
register_fields trapno error_code address t =
    at_place 7 21 2 trapno
    ∷ at_place 7 60 8 error_code
    ∷ at_place 9 21 8 address
    ∷ at_place 9 69 4 t.back_link
    ∷ at_place 11 11 8 t.esp
    ∷ at_place 11 32 4 t.ss
    ∷ at_place 11 52 8 t.esp0
    ∷ at_place 11 74 4 t.ss0
    ∷ at_place 13 11 8 t.esp1
    ∷ at_place 13 32 4 t.ss1
    ∷ at_place 13 52 8 t.esp2
    ∷ at_place 13 74 4 t.ss2
    ∷ at_place 15 15 8 t.eip
    ∷ at_place 15 41 4 t.cs
    ∷ at_place 15 66 8 t.eflags
    ∷ at_place 17 10 8 t.eax
    ∷ at_place 17 30 8 t.ebx
    ∷ at_place 17 50 8 t.ecx
    ∷ at_place 17 70 8 t.edx
    ∷ at_place 19 10 8 t.esi
    ∷ at_place 19 30 8 t.edi
    ∷ at_place 19 50 8 t.ebp
    ∷ at_place 19 72 4 t.ldt
    ∷ at_place 21 12 4 t.ds
    ∷ at_place 21 32 4 t.es
    ∷ at_place 21 52 4 t.fs
    ∷ at_place 21 72 4 t.gs
    ∷ at_place 23 30 8 t.cr3
    ∷ at_place 23 70 1 (bit_and t.trace_trap 1)
    ∷ []

abbrev pub write_fields : List Field → Video → Video
write_fields [] screen = screen
write_fields (f ∷ fs) screen = write_fields fs (write_hex f.line f.col f.digits f.value screen)

-- The two loops over the text, `n` columns or lines to go.
unfoldable pub text_cols : ℕ → ℕ → ℕ → (ℕ → ℕ) → Video → Video
text_cols zero i j text screen = screen
text_cols (suc n) i j text screen =
    text_cols n i (suc j) text (poke (i * 160 + j * 2) (text (i * 81 + j)) screen)

unfoldable pub text_ligs : ℕ → ℕ → (ℕ → ℕ) → Video → Video
unfolding text_cols
text_ligs zero i text screen = screen
text_ligs (suc n) i text screen = text_ligs n (suc i) text (text_cols 80 i 0 text screen)

-- The loops over the attributes, of cell `i` and those behind it.
unfoldable pub paint : ℕ → ℕ → ℕ → Video → Video
paint zero i colour screen = screen
paint (suc n) i colour screen = paint n (suc i) colour (poke (2 * i + 1) colour screen)

-- `task_dump_screen`, the text of kernel/task_dump_screen.txt, is a parameter.
unfoldable pub dump_registers : (ℕ → ℕ) → ℕ → ℕ → ℕ → X86Tss → Video → Video
unfolding text_ligs paint register_fields
dump_registers task_dump_screen trapno error_code address t screen =
    write_fields (register_fields trapno error_code address t)
      (paint 78 161 0x34 (paint (80 * 25) 0 0x30 (text_ligs 25 0 task_dump_screen screen)))
