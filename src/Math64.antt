-- ===== src/Math64.antt =====
-- user/tests/lib/math.c: 64-bit numbers for the user programs, division and multiplication, and the
-- random numbers made with them. `unsigned long` has 32 bits, `unsigned long long` has 64.
use projet_pcsea.Common.{
  ℕ, zero, suc, ◌+◌, ◌*◌, ◌-◌, ◌%◌, ◌/◌, ◌^◌, true, false, ◌==◌, ltb, ◌||◌, if◌then◌else◌,
}
use projet_pcsea.Common.Outcome.{Outcome, ok, out_of_fuel, ◌>>=◌}
pub mod Div
pub mod Mul
mod Tests

-- The first loop of div64, which doubles the divisor while its last bit is free and it fits `x`.
unfoldable pub double_loop : ℕ → ℕ → ℕ → ℕ → Outcome (ℕ × ℕ)
double_loop zero x div mul = out_of_fuel
double_loop (suc fuel) x div mul =
    let newd = (div + div) % 2 ^ 64 in
    let next = double_loop fuel x newd ((mul + mul) % 2 ^ 64) in
    if (div / 2 ^ 32 / 2 ^ 31) % 2 == 1
    then ok (div, mul)
    else if ltb x newd
    then ok (div, mul)
    else next

-- The second loop, which halves it again. The results are the quotient and the remainder.
unfoldable pub halve_loop : ℕ → ℕ → ℕ → ℕ → ℕ → Outcome (ℕ × ℕ)
halve_loop zero q x div mul = out_of_fuel
halve_loop (suc fuel) q x div mul =
    let mul1 = mul / 2 in
    let div1 = div / 2 in
    let skip = halve_loop fuel q x div1 mul1 in
    let take = halve_loop fuel ((q + mul1) % 2 ^ 64) (x - div1) div1 mul1 in
    if mul1 == 0 then ok (q, x) else if ltb x div1 then skip else take

-- The quotient, and what goes to `*rem` where `rem` is not NULL.
unfoldable pub div64 : ℕ → ℕ → ℕ → Outcome (ℕ × ℕ)
unfolding double_loop halve_loop
div64 fuel x div =
    if ltb x div || (div == 0)
    then ok (0, x)
    else (do (div1, mul) ← double_loop fuel x div 1; halve_loop fuel mul (x - div1) div1 mul)

-- `x & 0xffff`, of a number shifted by 16 bits `n` times.
abbrev pub digit : ℕ → ℕ → ℕ
digit n x = x / 2 ^ (16 * n) % 2 ^ 16

-- The product of two of them, a number of 32 bits.
abbrev pub times : ℕ → ℕ → ℕ
times a b = (a * b) % 2 ^ 32

unfoldable pub mul64 : ℕ → ℕ → ℕ
mul64 x y =
    let a = digit 0 x in
    let b = digit 1 x in
    let c = digit 2 x in
    let d = digit 3 x in
    let e = digit 0 y in
    let f = digit 1 y in
    let g = digit 2 y in
    let h = digit 3 y in
    let r0 = (((times d e + times c f) % 2 ^ 64 + times b g) % 2 ^ 64 + times a h) % 2 ^ 64 in
    let r1 = (r0 * 2 ^ 16) % 2 ^ 64 in
    let r2 = ((r1 + times c e) % 2 ^ 64 + times b f) % 2 ^ 64 in
    let r3 = ((r2 + times a g) % 2 ^ 64 * 2 ^ 16) % 2 ^ 64 in
    let r4 = ((r3 + times b e) % 2 ^ 64 + times a f) % 2 ^ 64 in
    let r5 = (r4 * 2 ^ 16) % 2 ^ 64 in (r5 + times a e) % 2 ^ 64

abbrev pub multiplier : ℕ
multiplier = 0x5DEECE66D

abbrev pub addend : ℕ
addend = 0xB

-- `_seed` as the state, and the number. It is assumed that 1 <= _bits <= 32.
unfoldable pub rand_bits : ℕ → ℕ → ℕ × ℕ
unfolding mul64
rand_bits bits seed =
    let nextseed = (mul64 seed multiplier + addend) % 2 ^ 64 % 2 ^ 48 in
    let rbits = nextseed / 2 ^ 16 % 2 ^ 32 in (nextseed, rbits / 2 ^ (32 - bits))

abbrev pub rand_short : ℕ → ℕ × ℕ
rand_short seed = rand_bits 15 seed

abbrev pub rand : ℕ → ℕ × ℕ
rand seed = rand_bits 32 seed
