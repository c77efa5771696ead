-- ===== src/Debugger/Dump/Digits.antt =====
-- hex_loop of kernel/debugger.c: the number that its digits show.
use Prim.Native.Nat.{bit_and}
use projet_pcsea.Common.{
  ℕ, zero, suc, ◌+◌, ◌*◌, ◌-◌, ◌%◌, ◌/◌, ◌^◌, ◌≤◌, ◌<◌, ◌≡◌, ◌⊎◌, refl, true, false, ◌==◌, leb,
  ◌&&◌, inl, inr, if◌then◌else◌, arith, ap, sym, ◌∙◌,
}
use native.Mathlib.Nat.{pow-suc, mod-add-div, div-div-eq-div-mul}
use projet_pcsea.Common.Bits.{bit_and-low}
use projet_pcsea.Debugger.Dump.{Video, poke, disp, hex_loop}

-- The value of a hexadecimal digit, 0 to 9 and A to F in ASCII, 16 of any other character, and of
-- `length` of them that end before offset `p`.
abbrev pub undisp : ℕ → ℕ
undisp c = if leb 48 c && leb c 57 then c - 48 else if leb 65 c && leb c 70 then c - 55 else 16

abbrev pub read_hex : ℕ → ℕ → Video → ℕ
read_hex zero p screen = 0
read_hex (suc length) p screen = read_hex length (p - 2) screen * 16 + undisp (screen (p - 2))

undisp-disp : (d : ℕ) → d < 16 → undisp (disp d) ≡ d
undisp-disp d h = ground arith

-- hex_loop writes `length` cells before offset `p`.
pub hex_loop-outside :
    (length p value a : ℕ) (screen : Video)
    → 2 * length ≤ p
    → (a + 2 * length < p) ⊎ (p ≤ a)
    → hex_loop length p value screen a ≡ screen a
unfolding hex_loop
hex_loop-outside zero p value a screen h o = refl
hex_loop-outside (suc length) p value a screen h o =
    let e : (a == (p - 2)) ≡ false = elim o [ inl q ↦ ground arith | inr q ↦ ground arith ] in
    hex_loop-outside length (p - 2) (value / 16) a _ (omega arith)
      (elim o [ inl q ↦ inl (omega arith) | inr q ↦ inr (omega arith) ])
    ∙ rw e refl

hex_of_mod : (a p : ℕ) → a % (16 * p) ≡ a / 16 % p * 16 + a % 16
hex_of_mod a p = omega (
  arith,
  mod-add-div a (16 * p),
  mod-add-div (a / 16) p,
  ap (λ t. 16 * p * t) (sym (div-div-eq-div-mul a 16 p)),
)

pub read_hex-hex_loop :
    (length p value : ℕ) (screen : Video)
    → 2 * length ≤ p
    → read_hex length p (hex_loop length p value screen) ≡ value % 16 ^ length
unfolding hex_loop
read_hex-hex_loop zero p value screen h = omega arith
read_hex-hex_loop (suc length) p value screen h =
    let b : bit_and value 15 ≡ value % 16 = bit_and-low 4 value in
    let t : ((p - 2) == (p - 2)) ≡ true = ground arith in
    let last : hex_loop length (p - 2) (value / 16) (poke (p - 2) (disp (bit_and value 15)) screen)
          (p - 2)
        ≡ disp (value % 16) =
      hex_loop-outside length (p - 2) (value / 16) (p - 2) _ (omega arith) (inr (omega arith))
      ∙ rw t (ap disp b) in
    let m : 16 ^ suc length ≡ 16 * 16 ^ length = omega (arith, pow-suc 16 length) in
    rw m (
      omega (
        arith,
        ap undisp last,
        undisp-disp (value % 16) (omega arith),
        read_hex-hex_loop length (p - 2) (value / 16)
            (poke (p - 2) (disp (bit_and value 15)) screen) (omega arith),
        hex_of_mod value (16 ^ length),
      ))

-- Two screens that agree on these cells show the same number.
pub read_hex-same :
    (length p : ℕ) (screen screen' : Video)
    → 2 * length ≤ p
    → ((a : ℕ) → p ≤ a + 2 * length → a < p → screen a ≡ screen' a)
    → read_hex length p screen ≡ read_hex length p screen'
read_hex-same zero p screen screen' h f = refl
read_hex-same (suc length) p screen screen' h f = omega (
  arith,
  read_hex-same length (p - 2) screen screen' (omega arith)
      (λ a l l'. f a (omega arith) (omega arith)),
  ap undisp (f (p - 2) (omega arith) (omega arith)),
)
