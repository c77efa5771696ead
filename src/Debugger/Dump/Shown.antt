-- ===== src/Debugger/Dump/Shown.antt =====
-- dump_registers of kernel/debugger.c: what stands on the screen.
use projet_pcsea.Common.{
  ℕ, zero, suc, ◌+◌, ◌*◌, ◌-◌, ◌%◌, ◌/◌, ◌^◌, ◌≤◌, ◌<◌, ◌≡◌, ◌⊎◌, refl, Bool, true, false, ◌==◌,
  ◌&&◌, ◌||◌, ltb, leb, Bool-cases, inl, inr, if◌then◌else◌, arith, ◌∙◌, List, [], ◌∷◌, All,
}
use projet_pcsea.Segments.Tables.{X86Tss}
use projet_pcsea.Debugger.Dump.{
  Video, hex_loop, write_hex, Field, register_fields, write_fields, text_cols, text_ligs, paint,
  dump_registers,
}
use projet_pcsea.Debugger.Dump.Digits.{read_hex, hex_loop-outside, read_hex-hex_loop, read_hex-same}

-- The offset behind a field, and the number on the screen there.
abbrev pub behind : Field → ℕ
behind f = (f.line - 1) * 160 + (f.col + f.digits - 1) * 2

abbrev pub shown : Field → Video → ℕ
shown f screen = read_hex f.digits (behind f) screen

-- The first field lies on the screen and apart from the second.
abbrev apart : Field → Field → Bool
apart f g =
    leb (2 * f.digits) (behind f)
    && leb (2 * g.digits) (behind g)
    && (leb (behind f + 2 * g.digits) (behind g) || leb (behind g + 2 * f.digits) (behind f))

abbrev apart_from_all : Field → List Field → Bool
apart_from_all f [] = leb (2 * f.digits) (behind f)
apart_from_all f (g ∷ gs) = apart f g && apart_from_all f gs

abbrev all_apart : List Field → Bool
all_apart [] = true
all_apart (f ∷ fs) = apart_from_all f fs && all_apart fs

shown-write_hex :
    (f g : Field) (screen : Video)
    → apart f g ≡ true
    → shown f (write_hex g.line g.col g.digits g.value screen) ≡ shown f screen
unfolding write_hex
shown-write_hex f g screen h = read_hex-same f.digits (behind f) _ screen (ground arith) (λ a l l'.
    hex_loop-outside g.digits (behind g) g.value a screen (ground arith)
      (elim (Bool-cases (leb (behind f + 2 * g.digits) (behind g))) [
        | inl e ↦ inl (ground arith)
        | inr e ↦ inr (ground arith)
      ]))

shown-write_fields :
    (f : Field) (fs : List Field) (screen : Video)
    → apart_from_all f fs ≡ true
    → shown f (write_fields fs screen) ≡ shown f screen
shown-write_fields f [] screen h = refl
shown-write_fields f (g ∷ gs) screen h =
    shown-write_fields f gs _ (ground arith) ∙ shown-write_hex f g screen (ground arith)

apart_from_all-fits :
    (f : Field) (fs : List Field) → apart_from_all f fs ≡ true → 2 * f.digits ≤ behind f
apart_from_all-fits f [] h = ground arith
apart_from_all-fits f (g ∷ gs) h = ground arith

shown-own :
    (f : Field) (screen : Video)
    → 2 * f.digits ≤ behind f
    → shown f (write_hex f.line f.col f.digits f.value screen) ≡ f.value % 16 ^ f.digits
unfolding write_hex
shown-own f screen h = read_hex-hex_loop f.digits (behind f) f.value screen h

-- Every field shows the last digits of its value.
abbrev pub AllShown : List Field → Video → Type 0
AllShown fs screen = All (λ f. shown f screen ≡ f.value % 16 ^ f.digits) fs

write_fields-AllShown :
    (fs : List Field) (screen : Video) → all_apart fs ≡ true → AllShown fs (write_fields fs screen)
write_fields-AllShown [] screen h = tt
write_fields-AllShown (f ∷ fs) screen h =
    let a : apart_from_all f fs ≡ true = ground arith in
    (
      shown-write_fields f fs (write_hex f.line f.col f.digits f.value screen) a
          ∙ shown-own f screen (apart_from_all-fits f fs a),
      write_fields-AllShown fs (write_hex f.line f.col f.digits f.value screen) (ground arith),
    )

-- Fields are written to bytes of characters, on the screen only.
abbrev all_fit : List Field → Bool
all_fit [] = true
all_fit (f ∷ fs) = leb (2 * f.digits) (behind f) && leb (behind f) 4000 && all_fit fs

hex_loop-aside :
    (length p value a : ℕ) (screen : Video)
    → 2 * length ≤ p
    → p % 2 ≡ 0
    → p ≤ 4000
    → (a % 2 ≡ 1) ⊎ (4000 ≤ a)
    → hex_loop length p value screen a ≡ screen a
unfolding hex_loop
hex_loop-aside zero p value a screen h q r o = refl
hex_loop-aside (suc length) p value a screen h q r o =
    let e : (a == (p - 2)) ≡ false = elim o [ inl odd ↦ ground arith | inr far ↦ ground arith ] in
    hex_loop-aside length (p - 2) (value / 16) a _ (omega arith) (omega arith) (omega arith) o
    ∙ rw e refl

write_fields-aside :
    (fs : List Field) (a : ℕ) (screen : Video)
    → all_fit fs ≡ true
    → (a % 2 ≡ 1) ⊎ (4000 ≤ a)
    → write_fields fs screen a ≡ screen a
unfolding write_hex
write_fields-aside [] a screen h o = refl
write_fields-aside (f ∷ fs) a screen h o =
    write_fields-aside fs a _ (ground arith) o
    ∙ hex_loop-aside f.digits (behind f) f.value a screen (ground arith) (omega arith)
        (ground arith) o

paint_lem :
    (n i colour a : ℕ) (screen : Video)
    → paint n i colour screen a
      ≡ (if (a % 2 == 1) && leb i (a / 2) && ltb (a / 2) (i + n) then colour else screen a)
unfolding paint
paint_lem zero i colour a screen = ground arith
paint_lem (suc n) i colour a screen = elim (Bool-cases (a == (2 * i + 1))) [
  | inl e ↦
      let f : ((a % 2 == 1) && leb (suc i) (a / 2) && ltb (a / 2) (suc i + n)) ≡ false =
        ground arith in
      let t : ((a % 2 == 1) && leb i (a / 2) && ltb (a / 2) (i + suc n)) ≡ true = ground arith in
      paint_lem n (suc i) colour a _ ∙ rw (f, t, e) refl
  | inr e ↦
      let f : ((a % 2 == 1) && leb (suc i) (a / 2) && ltb (a / 2) (suc i + n))
          ≡ ((a % 2 == 1) && leb i (a / 2) && ltb (a / 2) (i + suc n)) =
        ground arith in
      paint_lem n (suc i) colour a _ ∙ rw (f, e) refl
]

text_cols-aside :
    (n i j a : ℕ) (text : ℕ → ℕ) (screen : Video)
    → i < 25
    → j + n ≤ 80
    → (a % 2 ≡ 1) ⊎ (4000 ≤ a)
    → text_cols n i j text screen a ≡ screen a
unfolding text_cols
text_cols-aside zero i j a text screen h k o = refl
text_cols-aside (suc n) i j a text screen h k o =
    let e : (a == (i * 160 + j * 2)) ≡ false = elim o [
      | inl q ↦ ground arith
      | inr q ↦ ground arith
    ] in
    text_cols-aside n i (suc j) a text _ h (omega arith) o ∙ rw e refl

text_ligs-aside :
    (n i a : ℕ) (text : ℕ → ℕ) (screen : Video)
    → i + n ≤ 25
    → (a % 2 ≡ 1) ⊎ (4000 ≤ a)
    → text_ligs n i text screen a ≡ screen a
unfolding text_ligs
text_ligs-aside zero i a text screen h o = refl
text_ligs-aside (suc n) i a text screen h o =
    text_ligs-aside n (suc i) a text _ (omega arith) o
    ∙ text_cols-aside 80 i 0 a text screen (omega arith) (omega arith) o

-- The screen after dump_registers: the numbers, the colours of the cells, and what lies behind it.
pub record Dumped (fs : List Field) (before after : Video) : Type 0 where
  pub numbers : AllShown fs after
  pub colours :
      (cell : ℕ)
      → cell < 2000
      → after (2 * cell + 1) ≡ (if leb 161 cell && ltb cell 239 then 0x34 else 0x30)
  pub outside : (a : ℕ) → 4000 ≤ a → after a ≡ before a

module _ (text : ℕ → ℕ) (trapno error_code address : ℕ) (t : X86Tss) (screen : Video) where
  -- dump_registers shows each of its 29 numbers, in hexadecimal with as many digits as the field has,
  -- so that none hides another; each cell has its colour; and it writes nothing outside the screen.
  pub dump_registers-Dumped :
      Dumped
        (register_fields trapno error_code address t)
        screen
        (dump_registers text trapno error_code address t screen)
  unfolding dump_registers register_fields
  dump_registers-Dumped = record {
    numbers = write_fields-AllShown (register_fields trapno error_code address t) _ refl;
    colours = λ cell h.
        let odd : (2 * cell + 1) % 2 ≡ 1 = omega arith in
        let half : (2 * cell + 1) / 2 ≡ cell = omega arith in
        let in_screen : (leb 0 cell && ltb cell (0 + 2000)) ≡ true = ground arith in
        let below = text_ligs 25 0 text screen in
        let grey : paint 2000 0 0x30 below (2 * cell + 1) ≡ 0x30 =
          paint_lem 2000 0 0x30 (2 * cell + 1) below ∙ rw (odd, half, in_screen) refl in
        write_fields-aside (register_fields trapno error_code address t) (2 * cell + 1) _ refl
          (inl (omega arith))
        ∙ paint_lem 78 161 0x34 (2 * cell + 1) (paint 2000 0 0x30 below)
        ∙ rw (odd, half, grey) refl;
    outside = λ a h.
        let off : (n i : ℕ)
            → i + n ≤ 2000
            → ((a % 2 == 1) && leb i (a / 2) && ltb (a / 2) (i + n)) ≡ false =
          λ n i l. ground arith in
        write_fields-aside (register_fields trapno error_code address t) a _ refl (inr h)
        ∙ paint_lem 78 161 0x34 a (paint 2000 0 0x30 (text_ligs 25 0 text screen))
        ∙ rw (off 78 161 (omega arith)) (
            paint_lem 2000 0 0x30 a (text_ligs 25 0 text screen)
            ∙ rw (off 2000 0 (omega arith))
                (text_ligs-aside 25 0 a text screen (omega arith) (inr h)));
  }
