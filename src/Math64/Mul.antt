-- ===== src/Math64/Mul.antt =====
-- mul64 of user/tests/lib/math.c against multiplication, and the random numbers made with it.
use native.Mathlib.Nat.{div-div-eq-div-mul, div-lt_iff_lt-mul, one-le-pow, pow-suc}
use projet_pcsea.Common.{
  ℕ, zero, suc, ◌+◌, ◌*◌, ◌-◌, ◌%◌, ◌/◌, ◌^◌, ◌≤◌, ◌<◌, ◌≡◌, arith, ap, sym, ◌∙◌,
}
use projet_pcsea.Math64.{digit, times, mul64, rand_bits}

-- The number of four digits to the base 2^16.
abbrev value : ℕ → ℕ → ℕ → ℕ → ℕ
value a b c d = a + b * 2 ^ 16 + c * 2 ^ 32 + d * 2 ^ 48

digit-bound : (n x : ℕ) → digit n x < 2 ^ 16
digit-bound n x = omega arith

digits : (x : ℕ) → x < 2 ^ 64 → x ≡ value (digit 0 x) (digit 1 x) (digit 2 x) (digit 3 x)
digits x h = omega arith

times_lem : (a b : ℕ) → a < 2 ^ 16 → b < 2 ^ 16 → times a b ≡ a * b
times_lem a b h k = grind arith

product :
    (a b c d e f g h : ℕ)
    → value a b c d * value e f g h
      ≡ value (a * e) (b * e + a * f) (c * e + b * f + a * g) (d * e + c * f + b * g + a * h)
        + 2 ^ 64 * value (d * f + c * g + b * h) (d * g + c * h) (d * h) 0
product a b c d e f g h = grind arith

-- The sums of mul64, of products that fit 32 bits.
collect :
    (de cf bg ah ce bf ag be af ae : ℕ)
    → ((((((((((((de + cf) % 2 ^ 64 + bg) % 2 ^ 64 + ah) % 2 ^ 64 * 2 ^ 16) % 2 ^ 64 + ce) % 2 ^ 64
                              + bf)
                            % 2 ^ 64
                          + ag)
                        % 2 ^ 64
                        * 2 ^ 16)
                      % 2 ^ 64
                    + be)
                  % 2 ^ 64
                + af)
              % 2 ^ 64
              * 2 ^ 16)
            % 2 ^ 64
          + ae)
        % 2 ^ 64
      ≡ value ae (be + af) (ce + bf + ag) (de + cf + bg + ah) % 2 ^ 64
collect de cf bg ah ce bf ag be af ae = omega arith

carry_out : (t k : ℕ) → (t + 2 ^ 64 * k) % 2 ^ 64 ≡ t % 2 ^ 64
carry_out t k = omega arith

digits-product :
    (x y : ℕ)
    → x < 2 ^ 64
    → y < 2 ^ 64
    → x * y
      ≡ value
          (digit 0 x * digit 0 y)
          (digit 1 x * digit 0 y + digit 0 x * digit 1 y)
          (digit 2 x * digit 0 y + digit 1 x * digit 1 y + digit 0 x * digit 2 y)
          (digit 3 x * digit 0 y
            + digit 2 x * digit 1 y
            + digit 1 x * digit 2 y
            + digit 0 x * digit 3 y)
        + 2 ^ 64
          * value
              (digit 3 x * digit 1 y + digit 2 x * digit 2 y + digit 1 x * digit 3 y)
              (digit 3 x * digit 2 y + digit 2 x * digit 3 y)
              (digit 3 x * digit 3 y)
              0
digits-product x y hx hy =
    ap (λ n. n * y) (digits x hx)
    ∙ ap (λ n. value (digit 0 x) (digit 1 x) (digit 2 x) (digit 3 x) * n) (digits y hy)
    ∙ product (digit 0 x) (digit 1 x) (digit 2 x) (digit 3 x) (digit 0 y) (digit 1 y) (digit 2 y)
        (digit 3 y)

-- mul64 is multiplication modulo 2^64.
pub mul64_lem : (x y : ℕ) → x < 2 ^ 64 → y < 2 ^ 64 → mul64 x y ≡ (x * y) % 2 ^ 64
unfolding mul64
mul64_lem x y hx hy =
    let t : (n m : ℕ) → times (digit n x) (digit m y) ≡ digit n x * digit m y =
      λ n m. times_lem (digit n x) (digit m y) (digit-bound n x) (digit-bound m y) in
    rw (t 3 0, t 2 1, t 1 2, t 0 3, t 2 0, t 1 1, t 0 2, t 1 0, t 0 1, t 0 0)
      (collect (digit 3 x * digit 0 y) (digit 2 x * digit 1 y) (digit 1 x * digit 2 y)
          (digit 0 x * digit 3 y) (digit 2 x * digit 0 y) (digit 1 x * digit 1 y)
          (digit 0 x * digit 2 y) (digit 1 x * digit 0 y) (digit 0 x * digit 1 y)
          (digit 0 x * digit 0 y)
        ∙ sym (ap (λ n. n % 2 ^ 64) (digits-product x y hx hy) ∙ carry_out _ _))

pow_add : (a b : ℕ) → 2 ^ (a + b) ≡ 2 ^ a * 2 ^ b
pow_add a zero = ground arith
pow_add a (suc b) = grind (arith, pow-suc 2 (a + b), pow-suc 2 b, pow_add a b)

upper : (bits n : ℕ) → bits ≤ 32 → n / 2 ^ 16 / 2 ^ (32 - bits) ≡ n / 2 ^ (48 - bits)
upper bits n h =
    div-div-eq-div-mul n (2 ^ 16) (2 ^ (32 - bits))
    ∙ ap (λ m. n / m) (sym (pow_add 16 (32 - bits)) ∙ ap (λ m. 2 ^ m) (omega arith))

-- The random numbers are those of a linear congruential generator on 48 bits: the next seed, and as
-- the number its upper bits, as many as asked for, at most 32.
pub rand_bits_lem :
    (bits seed : ℕ)
    → bits ≤ 32
    → seed < 2 ^ 64
    → ((rand_bits bits seed).0 ≡ (seed * 0x5DEECE66D + 0xB) % 2 ^ 48)
      × ((rand_bits bits seed).1 ≡ (rand_bits bits seed).0 / 2 ^ (48 - bits))
      × ((rand_bits bits seed).1 < 2 ^ bits)
unfolding rand_bits
rand_bits_lem bits seed hb hs =
    let m = (seed * 0x5DEECE66D) % 2 ^ 64 in
    let next = (m + 0xB) % 2 ^ 64 % 2 ^ 48 in
    let high : next / 2 ^ 16 % 2 ^ 32 ≡ next / 2 ^ 16 = omega arith in
    let shifted : next / 2 ^ 16 / 2 ^ (32 - bits) ≡ next / 2 ^ (48 - bits) = upper bits next hb in
    let whole : 2 ^ bits * 2 ^ (32 - bits) ≡ 2 ^ 32 =
      sym (pow_add bits (32 - bits))
      ∙ ap (λ m. 2 ^ m) {x = bits + (32 - bits)} {y = 32} (omega arith) in
    rw (mul64_lem seed 0x5DEECE66D hs (omega arith), high)
      (
        omega arith,
        shifted,
        (div-lt_iff_lt-mul (one-le-pow (32 - bits) 2 (omega arith))).1 (omega (arith, whole)),
      )
