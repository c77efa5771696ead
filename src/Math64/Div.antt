-- ===== src/Math64/Div.antt =====
-- div64 of user/tests/lib/math.c against division.
use mathlib.Core.Path.{subst}
use native.Mathlib.Nat.{
  pow-suc, one-le-pow, pow-le-pow_right, div-eq_of_lt, mod-eq_of_lt, div-add-mod',
  div-lt_iff_lt-mul,
}
use projet_pcsea.Common.{
  ℕ, zero, suc, ◌+◌, ◌*◌, ◌-◌, ◌%◌, ◌/◌, ◌^◌, ◌≤◌, ◌<◌, ◌≡◌, refl, true, false, ◌==◌, ltb, ◌||◌,
  if◌then◌else◌, Bool-cases, inl, inr, arith, ap, sym, ◌∙◌,
}
use projet_pcsea.Common.Outcome.{ok, ◌>>=◌, Returns, Returns-mono, Returns-bind, Returns-eq}
use projet_pcsea.Math64.{double_loop, halve_loop, div64}

-- The last power of two, `2 ^ j`, whose multiple of the divisor fits.
record Doubled (a d fuel : ℕ) (out : ℕ × ℕ) : Type 0 where
  pub j : ℕ
  pub few : j < fuel
  pub power : out.1 ≡ 2 ^ j
  pub multiple : out.0 ≡ 2 ^ j * d
  pub fits : 2 ^ j ≤ a
  pub last : a < 2 ^ j * 2

half_pow : (j : ℕ) → 2 ^ suc j / 2 ≡ 2 ^ j
half_pow j = omega (arith, pow-suc 2 j)

half_multiple : (j d : ℕ) → 2 ^ suc j * d / 2 ≡ 2 ^ j * d
half_multiple j d = grind (arith, pow-suc 2 j)

lt_multiple : (a r d m : ℕ) → r < d → a < m → a * d + r < m * d
lt_multiple a r d m h k = grind arith

ge_multiple : (a r d m : ℕ) → m ≤ a → m * d ≤ a * d + r
ge_multiple a r d m k = grind arith

pub sub_multiple : (a r d m : ℕ) → m ≤ a → (a * d + r) - m * d ≡ (a - m) * d + r
sub_multiple a r d m k = grind arith

le_multiple : (a r d : ℕ) → r < d → a ≤ a * d + r
le_multiple a r d h = grind arith

le_times : (m r d : ℕ) → r < d → m ≤ m * d
le_times m r d h = grind arith

double_multiple : (m d : ℕ) → m * d + m * d ≡ m * 2 * d
double_multiple m d = grind arith

move_power : (m n : ℕ) → m * (n * 2) ≡ m * 2 * n
move_power m n = grind arith

grow : (j n : ℕ) → 2 ^ j * 2 ^ suc n ≡ 2 ^ suc j * 2 ^ n
grow j n =
    ap (λ m. 2 ^ j * m) (pow-suc 2 n)
    ∙ move_power (2 ^ j) (2 ^ n)
    ∙ ap (λ m. m * 2 ^ n) (sym (pow-suc 2 j))

halve_loop_lem :
    (fuel q a r d j : ℕ)
    → j < fuel
    → r < d
    → a < 2 ^ j
    → q + a < 2 ^ 64
    → halve_loop fuel q (a * d + r) (2 ^ j * d) (2 ^ j) ≡ ok (q + a, r)
unfolding halve_loop
halve_loop_lem zero q a r d j h hr ha hq = absurd (omega arith)
halve_loop_lem (suc fuel) q a r d zero h hr ha hq = ap ok (ground arith)
halve_loop_lem (suc fuel) q a r d (suc j) h hr ha hq =
    let p : 2 ^ suc j ≡ 2 ^ j * 2 = pow-suc 2 j in
    let z : (2 ^ j == 0) ≡ false = ground (arith, one-le-pow j 2) in
    rw (half_pow j, half_multiple j d, z)
      (elim (Bool-cases (ltb a (2 ^ j))) [
        | inl e ↦
            let c : ltb (a * d + r) (2 ^ j * d) ≡ true =
              ground (arith, lt_multiple a r d (2 ^ j) hr (ground arith)) in
            rw c (halve_loop_lem fuel q a r d j (omega arith) hr (ground arith) (omega arith))
        | inr e ↦
            let l : 2 ^ j ≤ a = ground arith in
            let c : ltb (a * d + r) (2 ^ j * d) ≡ false =
              ground (arith, ge_multiple a r d (2 ^ j) l) in
            let w : (q + 2 ^ j) % 2 ^ 64 ≡ q + 2 ^ j = ground (arith, one-le-pow j 2) in
            rw (c, w, sub_multiple a r d (2 ^ j) l)
              (halve_loop_lem fuel (q + 2 ^ j) (a - 2 ^ j) r d j (omega arith) hr (omega arith)
                  (omega arith)
                ∙ ap (λ n. ok (n, r)) (omega arith))
      ])

double_loop-Doubled :
    (fuel a r d j : ℕ)
    → r < d
    → 2 ^ j ≤ a
    → a * d + r < 2 ^ 64
    → 2 ^ 64 ≤ 2 ^ j * 2 ^ fuel
    → Returns (Doubled a d (j + fuel)) (double_loop fuel (a * d + r) (2 ^ j * d) (2 ^ j))
unfolding double_loop
double_loop-Doubled zero a r d j hr ha hx hf = absurd (omega (arith, le_multiple a r d hr))
double_loop-Doubled (suc fuel) a r d j hr ha hx hf =
    let p : 2 ^ suc j ≡ 2 ^ j * 2 = pow-suc 2 j in
    let twice : 2 ^ suc j * d ≡ 2 ^ j * 2 * d = ap (λ n. n * d) p in
    let below : 2 ^ j * d ≤ a * d + r = ge_multiple a r d (2 ^ j) ha in
    elim (Bool-cases (ltb (2 ^ j * d) (2 ^ 63))) [
      | inl small ↦
          let b : ((2 ^ j * d / 2 ^ 32 / 2 ^ 31) % 2 == 1) ≡ false = ground arith in
          let w : (2 ^ j * d + 2 ^ j * d) % 2 ^ 64 ≡ 2 ^ suc j * d =
            ground (arith, twice, double_multiple (2 ^ j) d) in
          let v : (2 ^ j + 2 ^ j) % 2 ^ 64 ≡ 2 ^ suc j = ground (arith, le_times (2 ^ j) r d hr) in
          rw (b, w, v)
            (elim (Bool-cases (ltb a (2 ^ suc j))) [
              | inl e ↦
                  let c : ltb (a * d + r) (2 ^ suc j * d) ≡ true =
                    ground (arith, lt_multiple a r d (2 ^ suc j) hr (ground arith)) in
                  rw c (record {
                    j = j;
                    few = omega arith;
                    power = refl;
                    multiple = refl;
                    fits = ha;
                    last = ground arith;
                  })
              | inr e ↦
                  let l : 2 ^ suc j ≤ a = ground arith in
                  let c : ltb (a * d + r) (2 ^ suc j * d) ≡ false =
                    ground (arith, ge_multiple a r d (2 ^ suc j) l) in
                  rw c (
                    Returns-mono _ (double_loop fuel (a * d + r) (2 ^ suc j * d) (2 ^ suc j))
                      (double_loop-Doubled fuel a r d (suc j) hr l hx (omega (arith, grow j fuel)))
                      (λ out k. record {
                        j = k.j;
                        few = omega (arith, k.few);
                        power = k.power;
                        multiple = k.multiple;
                        fits = k.fits;
                        last = k.last;
                      }))
            ])
      | inr large ↦
          let b : ((2 ^ j * d / 2 ^ 32 / 2 ^ 31) % 2 == 1) ≡ true = ground arith in
          rw b (record {
            j = j;
            few = omega arith;
            power = refl;
            multiple = refl;
            fits = ha;
            last = elim (Bool-cases (ltb a (2 ^ suc j))) [
              | inl e ↦ ground arith
              | inr e ↦ absurd (
                  ground (
                    arith,
                    twice,
                    double_multiple (2 ^ j) d,
                    ge_multiple a r d (2 ^ suc j) (ground arith),
                  ))
            ];
          })
    ]

div64_from :
    (n a r d : ℕ) → r < d → 0 < a → a * d + r < 2 ^ 64 → div64 (64 + n) (a * d + r) d ≡ ok (a, r)
unfolding div64
div64_from n a r d hr ha hx =
    let x = a * d + r in
    let c : ltb x d ≡ false = ground (arith, ge_multiple a r d 1 ha) in
    let z : (d == 0) ≡ false = ground arith in
    let run = double_loop (64 + n) x d 1 in
    let wide : 2 ^ 64 ≤ 2 ^ 0 * 2 ^ (64 + n) =
      omega (arith, pow-le-pow_right {n = 2} (omega arith) {i = 64} {j = 64 + n} (omega arith)) in
    let first : Returns (Doubled a d (0 + (64 + n))) run =
      subst (λ m. Returns (Doubled a d (0 + (64 + n))) (double_loop (64 + n) x m 1)) {x = 2 ^ 0 * d}
        (omega arith) (double_loop-Doubled (64 + n) a r d 0 hr ha hx wide) in
    rw (c, z)
      (Returns-eq (do (div1, mul) ← run; halve_loop (64 + n) mul (x - div1) div1 mul) (a, r)
        (Returns-bind _ run _ first (λ (div1, mul) k.
          let l : 2 ^ k.j ≤ a = k.fits in
          rw (k.multiple, k.power, sub_multiple a r d (2 ^ k.j) l)
            (rw
              (halve_loop_lem (64 + n) (2 ^ k.j) (a - 2 ^ k.j) r d k.j (omega (arith, k.few)) hr
                (omega (arith, k.last)) (omega (arith, le_multiple a r d hr)))
              (ap (λ m. (m, r)) (omega arith))))))

-- div64 divides: it ends after at most 64 turns of each loop, with the quotient and the remainder of
-- two numbers of 64 bits. A division by 0 gives 0, and the number as the remainder.
pub div64_lem :
    (n x d : ℕ) → x < 2 ^ 64 → div64 (64 + n) x d ≡ ok (if d == 0 then (0, x) else (x / d, x % d))
unfolding div64
div64_lem n x d hx = elim (Bool-cases (ltb x d || (d == 0))) [
  | inl e ↦ rw e (
      ap ok (elim (Bool-cases (d == 0)) [
        | inl z ↦ rw z
        | inr z ↦ let l : x < d = ground arith in rw (z, div-eq_of_lt l, mod-eq_of_lt l)
      ]))
  | inr e ↦
      let z : (d == 0) ≡ false = ground arith in
      let s : x / d * d + x % d ≡ x = omega (arith, div-add-mod' x d) in
      let l : d ≤ x = ground arith in
      let p : 0 < x / d = elim (Bool-cases (ltb (x / d) 1)) [
        | inl q ↦ absurd (
            ground
              (arith, (div-lt_iff_lt-mul {k = d} {x = x} {y = 1} (ground arith)).0 (ground arith)))
        | inr q ↦ ground arith
      ] in
      subst (λ m. div64 (64 + n) m d ≡ ok (x / d, x % d)) s
        (div64_from n (x / d) (x % d) d (ground arith) p (omega arith))
      ∙ ap ok (rw z refl)
]
