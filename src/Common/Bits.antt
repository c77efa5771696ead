-- ===== src/Common/Bits.antt =====
-- The operators `|` and `&` of C on words, one binary digit after the other and as arithmetic.
use Prim.Native.Nat.{
  ℕ, zero, suc, ◌+◌, ◌-◌, ◌*◌, ◌/◌, ◌%◌, ◌^◌, ◌≤◌, ◌<◌, min, max, bit_and, bit_or, digits,
  bit_and-bitwise, bit_or-bitwise,
}
use mathlib.Core.Path.{◌≡◌, refl, sym, ap, ◌∙◌}
use native.Mathlib.Nat.{pow-suc, one-le-pow, mod-add-div, div-div-eq-div-mul}
use native.Mathlib.Omega.{arith}
use projet_pcsea.Common.Tests.{◌==◌, if◌then◌else◌}

-- More fuel than a number is high changes nothing.
module _ (z : ℕ → ℕ) (f : ℕ → ℕ → ℕ) where
  digits_more : (n m a b : ℕ) → a ≤ n → n ≤ m → digits z f m a b ≡ digits z f n a b
  digits_more zero zero zero b h k = refl
  digits_more zero (suc m) zero b h k = refl
  digits_more zero m (suc a) b h k = absurd (omega arith)
  digits_more (suc n) zero a b h k = absurd (omega arith)
  digits_more (suc n) (suc m) zero b h k = refl
  digits_more (suc n) (suc m) (suc a) b h k =
      ap (λ t. t * 2 + f (suc a % 2) (b % 2))
        (digits_more n m (suc a / 2) (b / 2) (omega arith) (omega arith))

  digits_lowest :
      (a b : ℕ)
      → digits z f (suc a) (suc a) b
        ≡ digits z f (suc a / 2) (suc a / 2) (b / 2) * 2 + f (suc a % 2) (b % 2)
  digits_lowest a b =
      ap (λ t. t * 2 + f (suc a % 2) (b % 2))
        (digits_more (suc a / 2) a (suc a / 2) (b / 2) (omega arith) (omega arith))

pub bit_or-lowest : (a b : ℕ) → bit_or a b ≡ bit_or (a / 2) (b / 2) * 2 + max (a % 2) (b % 2)
bit_or-lowest zero b = simp bit_or-bitwise (omega arith)
bit_or-lowest (suc a) b = simp bit_or-bitwise (digits_lowest (λ y. y) max a b)

pub bit_and-lowest : (a b : ℕ) → bit_and a b ≡ bit_and (a / 2) (b / 2) * 2 + min (a % 2) (b % 2)
bit_and-lowest zero b = simp bit_and-bitwise (omega arith)
bit_and-lowest (suc a) b = simp bit_and-bitwise (digits_lowest (λ y. 0) min a b)

-- Digit `j` of a number.
abbrev pub bit_at : ℕ → ℕ → ℕ
bit_at zero a = a % 2
bit_at (suc j) a = bit_at j (a / 2)

bit_at_zero : (j : ℕ) → bit_at j 0 ≡ 0
bit_at_zero zero = refl
bit_at_zero (suc j) = bit_at_zero j

pub bit_at-le : (j a : ℕ) → bit_at j a ≤ 1
bit_at-le zero a = omega arith
bit_at-le (suc j) a = bit_at-le j (a / 2)

pub bit_at-bit_or : (j a b : ℕ) → bit_at j (bit_or a b) ≡ max (bit_at j a) (bit_at j b)
bit_at-bit_or zero a b = omega (arith, bit_or-lowest a b)
bit_at-bit_or (suc j) a b =
    let h : bit_or a b / 2 ≡ bit_or (a / 2) (b / 2) = omega (arith, bit_or-lowest a b) in
    ap (bit_at j) h ∙ bit_at-bit_or j (a / 2) (b / 2)

pub bit_at-bit_and : (j a b : ℕ) → bit_at j (bit_and a b) ≡ min (bit_at j a) (bit_at j b)
bit_at-bit_and zero a b = omega (arith, bit_and-lowest a b)
bit_at-bit_and (suc j) a b =
    let h : bit_and a b / 2 ≡ bit_and (a / 2) (b / 2) = omega (arith, bit_and-lowest a b) in
    ap (bit_at j) h ∙ bit_at-bit_and j (a / 2) (b / 2)

twice_pow : (q k : ℕ) → q * 2 ^ suc k ≡ 2 * (q * 2 ^ k)
twice_pow q k = omega (arith, ap (λ (t : ℕ). q * t) (pow-suc 2 k))

fuel_or_zero : (n b : ℕ) → b ≤ n → bit_or b 0 ≡ b
fuel_or_zero n zero h = refl
fuel_or_zero zero (suc b) h = absurd (omega arith)
fuel_or_zero (suc n) (suc b) h =
    omega (arith, bit_or-lowest (suc b) 0, fuel_or_zero n (suc b / 2) (omega arith))

fuel_zero_or : (n b : ℕ) → b ≤ n → bit_or 0 b ≡ b
fuel_zero_or n zero h = refl
fuel_zero_or zero (suc b) h = absurd (omega arith)
fuel_zero_or (suc n) (suc b) h =
    omega (arith, bit_or-lowest 0 (suc b), fuel_zero_or n (suc b / 2) (omega arith))

-- A word of two fields that do not overlap is their sum, in either order.
pub bit_or-low_high : (k q r : ℕ) → r < 2 ^ k → bit_or r (q * 2 ^ k) ≡ r + q * 2 ^ k
bit_or-low_high zero q r h =
    let z : r ≡ 0 = omega arith in rw z (fuel_zero_or (q * 1) (q * 1) (omega arith) ∙ omega arith)
bit_or-low_high (suc k) q r h = omega (
  arith,
  bit_or-lowest r (q * 2 ^ suc k),
  twice_pow q k,
  pow-suc 2 k,
  ap (λ t. bit_or (r / 2) t)
      (let e : q * 2 ^ suc k / 2 ≡ q * 2 ^ k = omega (arith, twice_pow q k) in e),
  bit_or-low_high k q (r / 2) (omega (arith, pow-suc 2 k)),
)

pub bit_or-high_low : (k q r : ℕ) → r < 2 ^ k → bit_or (q * 2 ^ k) r ≡ q * 2 ^ k + r
bit_or-high_low zero q r h =
    let z : r ≡ 0 = omega arith in rw z (fuel_or_zero (q * 1) (q * 1) (omega arith) ∙ omega arith)
bit_or-high_low (suc k) q r h = omega (
  arith,
  bit_or-lowest (q * 2 ^ suc k) r,
  twice_pow q k,
  pow-suc 2 k,
  ap (λ t. bit_or t (r / 2))
      (let e : q * 2 ^ suc k / 2 ≡ q * 2 ^ k = omega (arith, twice_pow q k) in e),
  bit_or-high_low k q (r / 2) (omega (arith, pow-suc 2 k)),
)

fuel_and_zero : (n a : ℕ) → a ≤ n → bit_and a 0 ≡ 0
fuel_and_zero n zero h = refl
fuel_and_zero zero (suc a) h = absurd (omega arith)
fuel_and_zero (suc n) (suc a) h =
    omega (arith, bit_and-lowest (suc a) 0, fuel_and_zero n (suc a / 2) (omega arith))

pow-suc_left : (k : ℕ) → 2 ^ suc k ≡ 2 * 2 ^ k
pow-suc_left k = omega (arith, pow-suc 2 k)

lowest_of_mod : (a p : ℕ) → 1 ≤ p → a % (2 * p) ≡ a / 2 % p * 2 + a % 2
lowest_of_mod a p h = omega (
  arith,
  mod-add-div a (2 * p),
  mod-add-div (a / 2) p,
  ap (λ t. 2 * p * t) (sym (div-div-eq-div-mul a 2 p)),
)

-- `&` with a mask of the lowest `k` digits.
pub bit_and-low : (k a : ℕ) → bit_and a (2 ^ k - 1) ≡ a % 2 ^ k
bit_and-low zero a = fuel_and_zero a a (omega arith) ∙ omega arith
bit_and-low (suc k) a =
    let p : 1 ≤ 2 ^ k = one-le-pow k 2 (omega arith) in
    let m : 2 ^ suc k ≡ 2 * 2 ^ k = omega (arith, pow-suc 2 k) in
    let half : (2 * 2 ^ k - 1) / 2 ≡ 2 ^ k - 1 = omega arith in
    let e : bit_and (a / 2) ((2 * 2 ^ k - 1) / 2) ≡ a / 2 % 2 ^ k =
      ap (bit_and (a / 2)) half ∙ bit_and-low k (a / 2) in
    rw m (omega (arith, bit_and-lowest a (2 * 2 ^ k - 1), e, lowest_of_mod a (2 ^ k) p))

-- The digit `k` is set by `|`, and those below stay.
pub bit_or-top : (k a : ℕ) → bit_or a (2 ^ k) % 2 ^ suc k ≡ a % 2 ^ k + 2 ^ k
bit_or-top zero a = omega (arith, bit_or-lowest a 1)
bit_or-top (suc k) a =
    let p : 1 ≤ 2 ^ suc k = one-le-pow (suc k) 2 (omega arith) in
    let q : 1 ≤ 2 ^ k = one-le-pow k 2 (omega arith) in
    let m : 2 ^ suc k ≡ 2 * 2 ^ k = omega (arith, pow-suc 2 k) in
    let half : 2 ^ suc k / 2 ≡ 2 ^ k = omega arith in
    let e : bit_or (a / 2) (2 ^ suc k / 2) % 2 ^ suc k ≡ a / 2 % 2 ^ k + 2 ^ k =
      ap (λ t. bit_or (a / 2) t % 2 ^ suc k) half ∙ bit_or-top k (a / 2) in
    let o : bit_or a (2 ^ suc k) / 2 ≡ bit_or (a / 2) (2 ^ suc k / 2) =
      omega (arith, bit_or-lowest a (2 ^ suc k)) in
    let t : bit_or a (2 ^ suc k) / 2 % 2 ^ suc k ≡ a / 2 % 2 ^ k + 2 ^ k =
      ap (λ t. t % 2 ^ suc k) o ∙ e in
    rw (pow-suc_left (suc k)) (
      lowest_of_mod (bit_or a (2 ^ suc k)) (2 ^ suc k) p
      ∙ omega
          (arith, t, bit_or-lowest a (2 ^ suc k), lowest_of_mod a (2 ^ k) q, m, ap (λ t. a % t) m))

-- `&` with a mask of digits from `k` on.
pub bit_and-high : (k a m : ℕ) → bit_and a (m * 2 ^ k) ≡ bit_and (a / 2 ^ k) m * 2 ^ k
bit_and-high zero a m =
    let e : m * 2 ^ 0 ≡ m = omega arith in
    let d : a / 2 ^ 0 ≡ a = omega arith in rw (e, d) (omega arith)
bit_and-high (suc k) a m =
    let q : 2 ^ suc k ≡ 2 * 2 ^ k = omega (arith, pow-suc 2 k) in
    let d : a / 2 ^ suc k ≡ a / 2 / 2 ^ k =
      ap (λ t. a / t) q ∙ sym (div-div-eq-div-mul a 2 (2 ^ k)) in
    let half : m * 2 ^ suc k / 2 ≡ m * 2 ^ k = omega (arith, twice_pow m k) in
    let e : bit_and (a / 2) (m * 2 ^ suc k / 2) ≡ bit_and (a / 2 / 2 ^ k) m * 2 ^ k =
      ap (bit_and (a / 2)) half ∙ bit_and-high k (a / 2) m in
    rw d (
      omega (
        arith,
        bit_and-lowest a (m * 2 ^ suc k),
        e,
        twice_pow m k,
        twice_pow (bit_and (a / 2 / 2 ^ k) m) k,
      ))

-- The digits below `w` of a number are those of its remainder by `2 ^ w`.
pub bit_at-mod : (w j a : ℕ) → j < w → bit_at j (a % 2 ^ w) ≡ bit_at j a
bit_at-mod zero j a h = absurd (omega arith)
bit_at-mod (suc w) zero a h =
    let p : 1 ≤ 2 ^ w = one-le-pow w 2 (omega arith) in
    rw (pow-suc_left w) (omega (arith, lowest_of_mod a (2 ^ w) p))
bit_at-mod (suc w) (suc j) a h =
    let p : 1 ≤ 2 ^ w = one-le-pow w 2 (omega arith) in
    let e : a % (2 * 2 ^ w) / 2 ≡ a / 2 % 2 ^ w = omega (arith, lowest_of_mod a (2 ^ w) p) in
    rw (pow-suc_left w) (ap (bit_at j) e ∙ bit_at-mod w j (a / 2) (omega arith))

pub bit_at_pow : (j n : ℕ) → bit_at j (2 ^ n) ≡ (if j == n then 1 else 0)
bit_at_pow zero zero = refl
bit_at_pow zero (suc n) = rw (pow-suc_left n) (ground arith)
bit_at_pow (suc j) zero = bit_at_zero j ∙ ground arith
bit_at_pow (suc j) (suc n) =
    let e : 2 * 2 ^ n / 2 ≡ 2 ^ n = omega arith in
    rw (pow-suc_left n) (ap (bit_at j) e ∙ bit_at_pow j n ∙ ground arith)

-- Two numbers that add up to `w` ones have opposite digits.
pub bit_at_complement : (w j a b : ℕ) → j < w → a + b + 1 ≡ 2 ^ w → bit_at j a + bit_at j b ≡ 1
bit_at_complement zero j a b h e = absurd (omega arith)
bit_at_complement (suc w) zero a b h e = omega (arith, pow-suc_left w)
bit_at_complement (suc w) (suc j) a b h e =
    bit_at_complement w j (a / 2) (b / 2) (omega arith) (omega (arith, pow-suc_left w))
