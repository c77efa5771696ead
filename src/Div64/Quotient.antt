-- ===== src/Div64/Quotient.antt =====
-- do_div64 of shared/div64.c against division.
use native.Mathlib.Nat.{
  div-add-mod', mod-eq_of_lt, mod-lt, div-le_self, add-mul-div_right, add-mul-mod_self_right,
}
use projet_pcsea.Common.{
  ℕ, ◌+◌, ◌*◌, ◌-◌, ◌%◌, ◌/◌, ◌^◌, ◌≤◌, ◌<◌, ◌≡◌, refl, ◌≢◌, Bool, true, false, ◌==◌, ltb, leb,
  ◌||◌, if◌then◌else◌, Bool-cases, inl, inr, arith, ap, sym, ◌∙◌,
}
use projet_pcsea.Common.Outcome.{Outcome, ok, fault, ◌>>=◌}
use projet_pcsea.Div64.{div64_32, wide_div, do_div64}
use projet_pcsea.Div64.Wide.{upper, words, div_lt, wide_div_lem, wide_div-faults}

div64_32-words :
    (x1 x0 y : ℕ)
    → x1 < y
    → x0 < 2 ^ 32
    → div64_32 x1 x0 y ≡ ok ((x1 * 2 ^ 32 + x0) % y, (x1 * 2 ^ 32 + x0) / y)
unfolding div64_32
div64_32-words x1 x0 y h h' =
    let v = x1 * 2 ^ 32 + x0 in
    let top : v / y < 2 ^ 32 = div_lt (2 ^ 32) y v (omega arith) (omega arith) in
    let e : ((y == 0) || leb (2 ^ 32) (v / y)) ≡ false = ground arith in rw e refl

-- The quotient of two words by one, digit by digit.
digits-quotient :
    (x1 x0 y : ℕ)
    → 0 < y
    → ((x1 * 2 ^ 32 + x0) / y ≡ x1 / y * 2 ^ 32 + (x1 % y * 2 ^ 32 + x0) / y)
      × ((x1 * 2 ^ 32 + x0) % y ≡ (x1 % y * 2 ^ 32 + x0) % y)
digits-quotient x1 x0 y h =
    let v = x1 % y * 2 ^ 32 + x0 in
    let a = x1 / y * 2 ^ 32 in
    let e : x1 * 2 ^ 32 + x0 ≡ v + a * y = grind (arith, div-add-mod' x1 y) in
    (
      ap (λ n. n / y) e ∙ add-mul-div_right v a h ∙ omega arith,
      ap (λ n. n % y) e ∙ add-mul-mod_self_right v a y,
    )

le_lt : (a b c : ℕ) → a ≤ b → b < c → a < c
le_lt a b c h k = omega arith

-- The branches for a divisor of one word, behind divl.
abbrev swapped : Outcome (ℕ × ℕ) → Outcome (ℕ × ℕ)
swapped o = do (r, q) ← o; ok (q, r)

abbrev joined : ℕ → Outcome (ℕ × ℕ) → Outcome (ℕ × ℕ)
joined q1 o = do (r, q0) ← o; ok ((q1 * 2 ^ 32 + q0) % 2 ^ 64, r)

abbrev second : ℕ → ℕ → Outcome (ℕ × ℕ) → Outcome (ℕ × ℕ)
second x0 y o = do (x2, q1) ← o; joined q1 (div64_32 x2 x0 y)

one_word :
    (x y : ℕ) → x / 2 ^ 32 < y → swapped (div64_32 (x / 2 ^ 32) (x % 2 ^ 32) y) ≡ ok (x / y, x % y)
one_word x y h =
    ap swapped (div64_32-words (x / 2 ^ 32) (x % 2 ^ 32) y h (omega arith))
    ∙ ap (λ n. ok (n / y, n % y)) (words x)

two_words :
    (x y : ℕ)
    → x < 2 ^ 64
    → 0 < y
    → y < 2 ^ 32
    → second (x % 2 ^ 32) y (div64_32 0 (x / 2 ^ 32) y) ≡ ok (x / y, x % y)
two_words x y hx h hy =
    let x1 = x / 2 ^ 32 in
    let x0 = x % 2 ^ 32 in
    let first : div64_32 0 x1 y ≡ ok (x1 % y, x1 / y) =
      div64_32-words 0 x1 y h (omega arith)
      ∙ ap (λ n. ok (n % y, n / y)) {x = 0 * 2 ^ 32 + x1} {y = x1} (omega arith) in
    let d = digits-quotient x1 x0 y h in
    let quotient : x1 / y * 2 ^ 32 + (x1 % y * 2 ^ 32 + x0) / y ≡ x / y =
      sym d.0 ∙ ap (λ n. n / y) (words x) in
    let rest : (x1 % y * 2 ^ 32 + x0) % y ≡ x % y = sym d.1 ∙ ap (λ n. n % y) (words x) in
    let fits : (x / y) % 2 ^ 64 ≡ x / y =
      mod-eq_of_lt (le_lt (x / y) x (2 ^ 64) (div-le_self x y) hx) in
    ap (second x0 y) first
    ∙ ap (joined (x1 / y)) (div64_32-words (x1 % y) x0 y (mod-lt x1 h) (omega arith))
    ∙ ap (λ n. ok (n % 2 ^ 64, (x1 % y * 2 ^ 32 + x0) % y)) quotient
    ∙ ap (λ n. ok (n, (x1 % y * 2 ^ 32 + x0) % y)) fits
    ∙ ap (λ n. ok (x / y, n)) rest

-- The branches for a divisor `y` of one word, by the two tests.
abbrev word_div : ℕ → ℕ → Bool → Bool → Outcome (ℕ × ℕ)
word_div x y below is_zero =
    if below
    then swapped (div64_32 (x / 2 ^ 32) (x % 2 ^ 32) y)
    else if is_zero
    then ok (0, x)
    else second (x % 2 ^ 32) y (div64_32 0 (x / 2 ^ 32) y)

do_div64-word_div :
    (fuel x y : ℕ) → y < 2 ^ 32 → do_div64 fuel x y ≡ word_div x y (ltb (x / 2 ^ 32) y) (y == 0)
unfolding do_div64
do_div64-word_div fuel x y h =
    let e : (y / 2 ^ 32 == 0) ≡ true = ground arith in
    let w : y % 2 ^ 32 ≡ y = omega arith in
    ap
      (λ b.
        if b
        then word_div x (y % 2 ^ 32) (ltb (x / 2 ^ 32) (y % 2 ^ 32)) (y % 2 ^ 32 == 0)
        else wide_div fuel x y)
      e
    ∙ ap (λ n. word_div x n (ltb (x / 2 ^ 32) n) (n == 0)) w

word_div_lem :
    (x y : ℕ)
    → x < 2 ^ 64
    → y < 2 ^ 32
    → word_div x y (ltb (x / 2 ^ 32) y) (y == 0) ≡ ok (if y == 0 then (0, x) else (x / y, x % y))
word_div_lem x y hx hy = elim (Bool-cases (y == 0)) [
  | inl z ↦
      let e : ltb (x / 2 ^ 32) y ≡ false = ground arith in
      ap (λ b. word_div x y b (y == 0)) e
      ∙ ap (word_div x y false) z
      ∙ ap (λ b. ok (if b then (0, x) else (x / y, x % y))) (sym z)
  | inr z ↦
      elim (Bool-cases (ltb (x / 2 ^ 32) y)) [
        | inl e ↦ ap (λ b. word_div x y b (y == 0)) e ∙ one_word x y (ground arith)
        | inr e ↦
            ap (λ b. word_div x y b (y == 0)) e
            ∙ ap (word_div x y false) z
            ∙ two_words x y hx (ground arith) hy
      ]
      ∙ ap (λ b. ok (if b then (0, x) else (x / y, x % y))) (sym z)
]

-- do_div64 divides two numbers of 64 bits: it ends with the quotient and the remainder, and where the
-- divisor is 0 with 0 and the number, unless the 32 bits of the divisor from its highest one on are
-- all set. The loop that corrects the quotient has more rounds than the quotient is high.
pub do_div64_lem :
    (fuel x y : ℕ)
    → x < 2 ^ 64
    → y < 2 ^ 64
    → upper y ≢ 2 ^ 32 - 1
    → x / y < fuel
    → do_div64 fuel x y ≡ ok (if y == 0 then (0, x) else (x / y, x % y))
unfolding do_div64
do_div64_lem fuel x y hx hy ne hf = elim (Bool-cases (y / 2 ^ 32 == 0)) [
  | inl small ↦ do_div64-word_div fuel x y (ground arith) ∙ word_div_lem x y hx (ground arith)
  | inr wide ↦
      let z : (y == 0) ≡ false = ground arith in
      rw (wide, z) (wide_div_lem fuel x y hx (ground arith) hy ne hf)
]

-- do_div64 faults, whatever the number, where the divisor has more than 32 bits and the 32 bits from
-- its highest one on are all set: one more than them does not fit a word, and divl gets a 0.
pub do_div64-faults :
    (fuel x y : ℕ) → 2 ^ 32 ≤ y → y < 2 ^ 64 → upper y ≡ 2 ^ 32 - 1 → do_div64 fuel x y ≡ fault
unfolding do_div64
do_div64-faults fuel x y hy hy' e =
    let wide : (y / 2 ^ 32 == 0) ≡ false = ground arith in
    rw wide (wide_div-faults fuel x y hy hy' e)
