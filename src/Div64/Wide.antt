-- ===== src/Div64/Wide.antt =====
-- The branch of do_div64 for a divisor of more than 32 bits.
use native.Mathlib.Nat.{
  pow-suc, one-le-pow, div-lt_iff_lt-mul, div-add-mod', mod-eq_of_lt, mod-lt, div-mul-le_self,
  lt-mul-div-succ, mul-le-mul_left, mul-le-mul_right,
}
use projet_pcsea.Common.{
  ℕ, zero, suc, ◌+◌, ◌*◌, ◌-◌, ◌%◌, ◌/◌, ◌^◌, ◌≤◌, ◌<◌, ◌≡◌, refl, ◌≢◌, true, false, ◌==◌, ltb, leb,
  ◌||◌, Bool-cases, inl, inr, arith, ap, sym, ◌∙◌,
}
use projet_pcsea.Common.Outcome.{Outcome, ok, fault, ◌>>=◌}
use projet_pcsea.Math64.Div.{sub_multiple}
use projet_pcsea.Div64.{bsr_from, hard_bsr, rshift64_32, div64_32, correct, wide_div}

bsr_from-bounds :
    (k n : ℕ)
    → 0 < n
    → n < 2 ^ suc k
    → (2 ^ bsr_from k n ≤ n) × (n < 2 ^ suc (bsr_from k n)) × (bsr_from k n ≤ k)
unfolding bsr_from
bsr_from-bounds zero n h h' = (omega arith, omega arith, omega arith)
bsr_from-bounds (suc k) n h h' = elim (Bool-cases (leb (2 ^ suc k) n)) [
  | inl e ↦ rw e (ground arith, h', omega arith)
  | inr e ↦ let (a, b, c) = bsr_from-bounds k n h (ground arith) in rw e (a, b, omega (arith, c))
]

correct_lem :
    (fuel y q a b : ℕ)
    → a < fuel
    → b < y
    → q + a < 2 ^ 32
    → correct fuel y q (a * y + b) ≡ ok (q + a, b)
unfolding correct
correct_lem zero y q a b h hb hq = absurd (omega arith)
correct_lem (suc fuel) y q zero b h hb hq =
    let e : leb y (0 * y + b) ≡ false = ground arith in rw e (ap ok (ground arith))
correct_lem (suc fuel) y q (suc a) b h hb hq =
    let e : leb y (suc a * y + b) ≡ true = grind arith in
    let w : (q + 1) % 2 ^ 32 ≡ q + 1 = omega arith in
    let s : suc a * y + b - y ≡ a * y + b = grind arith in
    rw (e, w, s)
      (correct_lem fuel y (q + 1) a b (omega arith) hb (omega arith)
        ∙ ap (λ n. ok (n, b)) (omega arith))

-- The upper 32 bits of the divisor, from its highest bit on.
abbrev pub upper : ℕ → ℕ
upper y = y / 2 ^ (hard_bsr (y / 2 ^ 32) + 1)

le_div : (m k x : ℕ) → 0 < k → m * k ≤ x → m ≤ x / k
le_div m k x hk h = elim (Bool-cases (ltb (x / k) m)) [
  | inl e ↦ absurd (ground (arith, (div-lt_iff_lt-mul {k = k} {x = x} {y = m} hk).0 (ground arith)))
  | inr e ↦ ground arith
]

pub div_lt : (m k x : ℕ) → 0 < k → x < m * k → x / k < m
div_lt m k x hk h = (div-lt_iff_lt-mul hk).1 h

pow_next : (k : ℕ) → 2 ^ (k + 1) ≡ 2 ^ k * 2
pow_next k = ap (λ n. 2 ^ n) {x = k + 1} {y = suc k} (omega arith) ∙ pow-suc 2 k

below_next : (y m : ℕ) → 0 < m → y < (y / m + 1) * m
below_next y m h = grind (arith, lt-mul-div-succ y h)

upper-bounds :
    (y : ℕ)
    → 2 ^ 32 ≤ y
    → y < 2 ^ 64
    → (2 ^ 31 ≤ upper y) × (upper y < 2 ^ 32) × (hard_bsr (y / 2 ^ 32) ≤ 31)
upper-bounds y h h' =
    let k = hard_bsr (y / 2 ^ 32) in
    let b = bsr_from-bounds 31 (y / 2 ^ 32) (omega arith) (omega arith) in
    let p : 2 ^ suc k ≡ 2 ^ k * 2 = pow-suc 2 k in
    let q : 2 ^ (k + 1) ≡ 2 ^ k * 2 = pow_next k in
    let positive : 0 < 2 ^ (k + 1) = one-le-pow (k + 1) 2 (omega arith) in
    (
      le_div (2 ^ 31) (2 ^ (k + 1)) y positive (omega (arith, b.0)),
      div_lt (2 ^ 32) (2 ^ (k + 1)) y positive (omega (arith, b.1)),
      b.2,
    )

pub words : (x : ℕ) → x / 2 ^ 32 * 2 ^ 32 + x % 2 ^ 32 ≡ x
words x = div-add-mod' x (2 ^ 32)

rshift64_32-upper :
    (y : ℕ)
    → upper y < 2 ^ 32
    → rshift64_32 (y / 2 ^ 32) (y % 2 ^ 32) (hard_bsr (y / 2 ^ 32) + 1) ≡ upper y
rshift64_32-upper y h =
    ap (λ v. v / 2 ^ (hard_bsr (y / 2 ^ 32) + 1) % 2 ^ 32) (words y) ∙ mod-eq_of_lt h

pub div64_32-ok :
    (v y : ℕ) → 0 < y → v / y < 2 ^ 32 → div64_32 (v / 2 ^ 32) (v % 2 ^ 32) y ≡ ok (v % y, v / y)
unfolding div64_32
div64_32-ok v y h k =
    let e : ((y == 0) || leb (2 ^ 32) (v / y)) ≡ false = ground arith in rw (words v, e) refl

-- What the words after the shift and the correction make of a divisor and a quotient.
abbrev wide_from : ℕ → ℕ → ℕ → ℕ → ℕ → Outcome (ℕ × ℕ)
wide_from fuel x y v y0 = do
  (r, q) ← div64_32 (v / 2 ^ 32) (v % 2 ^ 32) ((y0 + 1) % 2 ^ 32)
  correct fuel y q ((x + 2 ^ 64 - (y * q) % 2 ^ 64) % 2 ^ 64)

wide_div-wide_from :
    (fuel x y : ℕ)
    → upper y < 2 ^ 32
    → wide_div fuel x y ≡ wide_from fuel x y (x / 2 ^ (hard_bsr (y / 2 ^ 32) + 1)) (upper y)
unfolding wide_div
wide_div-wide_from fuel x y h =
    let l = hard_bsr (y / 2 ^ 32) + 1 in
    ap (λ w. wide_from fuel x y (w / 2 ^ l) (rshift64_32 (y / 2 ^ 32) (y % 2 ^ 32) l)) (words x)
    ∙ ap (wide_from fuel x y (x / 2 ^ l)) (rshift64_32-upper y h)

-- The estimate of the quotient: it is not too high.
estimate : (x y m q yh : ℕ) → 0 < m → y < (yh + 1) * m → q * (yh + 1) ≤ x / m → q * y ≤ x
estimate x y m q yh hm hy hq =
    let a : q * y ≤ q * ((yh + 1) * m) =
      mul-le-mul_left {m = y} {n = (yh + 1) * m} q (omega arith) in
    let b : q * (yh + 1) * m ≤ x / m * m = mul-le-mul_right {m = q * (yh + 1)} {n = x / m} m hq in
    let c : q * ((yh + 1) * m) ≡ q * (yh + 1) * m = grind arith in
    omega (arith, div-mul-le_self x m)

-- The first remainder, from which the loop goes on.
first_rest :
    (x y q : ℕ)
    → x < 2 ^ 64
    → 0 < y
    → q * y ≤ x
    → (x + 2 ^ 64 - (y * q) % 2 ^ 64) % 2 ^ 64 ≡ (x / y - q) * y + x % y
first_rest x y q hx hy h =
    let c : y * q ≡ q * y = grind arith in
    let l : q ≤ x / y = le_div q y x hy h in
    let w : (y * q) % 2 ^ 64 ≡ q * y = omega arith in
    let v : (x + 2 ^ 64 - q * y) % 2 ^ 64 ≡ x - q * y = omega arith in
    rw (w, v) (ap (λ n. n - q * y) (sym (div-add-mod' x y)) ∙ sub_multiple (x / y) (x % y) y q l)

pub wide_div_lem :
    (fuel x y : ℕ)
    → x < 2 ^ 64
    → 2 ^ 32 ≤ y
    → y < 2 ^ 64
    → upper y ≢ 2 ^ 32 - 1
    → x / y < fuel
    → wide_div fuel x y ≡ ok (x / y, x % y)
wide_div_lem fuel x y hx hy hy' ne hf =
    let k = hard_bsr (y / 2 ^ 32) in
    let m = 2 ^ (k + 1) in
    let v = x / m in
    let u = upper-bounds y hy hy' in
    let b = upper y in
    let hm : 0 < m = one-le-pow (k + 1) 2 (omega arith) in
    let even : m ≡ 2 ^ k * 2 = pow_next k in
    let w : (b + 1) % 2 ^ 32 ≡ b + 1 =
      (let fits : b + 1 < 2 ^ 32 = ground (arith, u.1, ne) in omega arith) in
    let small : v < 2 ^ 63 =
      div_lt (2 ^ 63) m x hm (omega (arith, one-le-pow k 2 (omega arith), even)) in
    let q = v / (b + 1) in
    let q_small : q < 2 ^ 32 = div_lt (2 ^ 32) (b + 1) v (omega arith) (omega (arith, u.0)) in
    let low : q * y ≤ x = estimate x y m q b hm (below_next y m hm) (div-mul-le_self v (b + 1)) in
    let positive : 0 < y = omega arith in
    let l : q ≤ x / y = le_div q y x positive low in
    let top : x / y < 2 ^ 32 = div_lt (2 ^ 32) y x positive (omega arith) in
    wide_div-wide_from fuel x y u.1
    ∙ ap
        (λ d. do
          (r, p) ← div64_32 (v / 2 ^ 32) (v % 2 ^ 32) d
          correct fuel y p ((x + 2 ^ 64 - (y * p) % 2 ^ 64) % 2 ^ 64))
        w
    ∙ ap (λ o. do (r, p) ← o; correct fuel y p ((x + 2 ^ 64 - (y * p) % 2 ^ 64) % 2 ^ 64))
        (div64_32-ok v (b + 1) (omega arith) q_small)
    ∙ ap (correct fuel y q) (first_rest x y q hx (omega arith) low)
    ∙ correct_lem fuel y q (x / y - q) (x % y) (omega arith) (mod-lt x {m = y} positive)
        (omega arith)
    ∙ ap (λ n. ok (n, x % y)) {x = q + (x / y - q)} {y = x / y} (omega arith)

pub wide_div-faults :
    (fuel x y : ℕ) → 2 ^ 32 ≤ y → y < 2 ^ 64 → upper y ≡ 2 ^ 32 - 1 → wide_div fuel x y ≡ fault
unfolding div64_32
wide_div-faults fuel x y hy hy' e =
    let w : (upper y + 1) % 2 ^ 32 ≡ 0 = omega arith in
    wide_div-wide_from fuel x y (omega arith)
    ∙ ap
        (λ d. do
          (r, p) ←
              div64_32 (x / 2 ^ (hard_bsr (y / 2 ^ 32) + 1) / 2 ^ 32)
                (x / 2 ^ (hard_bsr (y / 2 ^ 32) + 1) % 2 ^ 32) d
          correct fuel y p ((x + 2 ^ 64 - (y * p) % 2 ^ 64) % 2 ^ 64))
        w
