-- ===== src/Div64.antt =====
-- shared/div64.c: division of 64-bit numbers with the instructions of a 32-bit processor. Each
-- instruction sequence is a function on its registers; divl faults on 0 and where the quotient does not
-- fit its register.
use projet_pcsea.Common.{
  ℕ, zero, suc, ◌+◌, ◌*◌, ◌-◌, ◌%◌, ◌/◌, ◌^◌, ◌==◌, ltb, leb, ◌||◌, if◌then◌else◌,
}
use projet_pcsea.Common.Outcome.{Outcome, ok, fault, out_of_fuel, ◌>>=◌}
pub mod Wide
pub mod Quotient
mod Tests

-- `bsr`: the place of the highest bit, from bit `k` downwards.
unfoldable pub bsr_from : ℕ → ℕ → ℕ
bsr_from zero n = 0
bsr_from (suc k) n = let lower = bsr_from k n in if leb (2 ^ suc k) n then suc k else lower

abbrev pub hard_bsr : ℕ → ℕ
hard_bsr n = bsr_from 31 n

-- Both words after the shift to the right, the upper one first.
abbrev pub rshift64 : ℕ → ℕ → ℕ → ℕ × ℕ
rshift64 x1 x0 n = let v = (x1 * 2 ^ 32 + x0) / 2 ^ n in (v / 2 ^ 32, v % 2 ^ 32)

-- The lower word alone.
abbrev pub rshift64_32 : ℕ → ℕ → ℕ → ℕ
rshift64_32 x1 x0 n = (x1 * 2 ^ 32 + x0) / 2 ^ n % 2 ^ 32

-- `divl`: the remainder and the quotient.
unfoldable pub div64_32 : ℕ → ℕ → ℕ → Outcome (ℕ × ℕ)
div64_32 x1 x0 y =
    let v = x1 * 2 ^ 32 + x0 in
    if (y == 0) || leb (2 ^ 32) (v / y) then fault else ok (v % y, v / y)

-- The loop that corrects the quotient.
unfoldable pub correct : ℕ → ℕ → ℕ → ℕ → Outcome (ℕ × ℕ)
correct zero y x0 r = out_of_fuel
correct (suc fuel) y x0 r =
    let next = correct fuel y ((x0 + 1) % 2 ^ 32) (r - y) in if leb y r then next else ok (x0, r)

-- The branch for a divisor of more than 32 bits.
unfoldable pub wide_div : ℕ → ℕ → ℕ → Outcome (ℕ × ℕ)
unfolding div64_32 correct
wide_div fuel x y =
    let l = hard_bsr (y / 2 ^ 32) + 1 in
    let y0 = rshift64_32 (y / 2 ^ 32) (y % 2 ^ 32) l in
    let (x1, x0) = rshift64 (x / 2 ^ 32) (x % 2 ^ 32) l in
    do
      (r, q) ← div64_32 x1 x0 ((y0 + 1) % 2 ^ 32)
      correct fuel y q ((x + 2 ^ 64 - (y * q) % 2 ^ 64) % 2 ^ 64)

-- The quotient, and what goes to `*rem` where `rem` is not NULL.
unfoldable pub do_div64 : ℕ → ℕ → ℕ → Outcome (ℕ × ℕ)
unfolding wide_div div64_32
do_div64 fuel x y =
    let y1 = y / 2 ^ 32 in
    let y0 = y % 2 ^ 32 in
    let x1 = x / 2 ^ 32 in
    let x0 = x % 2 ^ 32 in
    if y1 == 0
    then (if ltb x1 y0
        then (do (r, q) ← div64_32 x1 x0 y0; ok (q, r))
        else if y0 == 0
        then ok (0, x)
        else (do
          (x2, q1) ← div64_32 0 x1 y0
          (r, q0) ← div64_32 x2 x0 y0
          ok ((q1 * 2 ^ 32 + q0) % 2 ^ 64, r)))
    else wide_div fuel x y
