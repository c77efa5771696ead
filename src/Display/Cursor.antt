-- ===== src/Display/Cursor.antt =====
-- Where traite_car of kernel/display.c leaves the cursor.
use mathlib.Core.Path.{subst}
use projet_pcsea.Common.{
  ℕ, zero, suc, ◌+◌, ◌*◌, ◌-◌, ◌≤◌, ◌<◌, ◌≡◌, refl, true, false, ◌==◌, ltb, leb, ◌&&◌, Bool-cases,
  ◌⊎◌, inl, inr, arith, ap, sym, ◌∙◌,
}
use projet_pcsea.Display.{
  Display, ecrit_car, clear_cols, place_curseur, next_tab, scroll, defilement, print_char, tab_char,
  new_line, treat, traite_car,
}

clear_cols-cursor :
    (n lig col : ℕ) (d : Display)
    → ((clear_cols n lig col d).curs_lig_pos ≡ d.curs_lig_pos)
      × ((clear_cols n lig col d).curs_col_pos ≡ d.curs_col_pos)
unfolding clear_cols
clear_cols-cursor zero lig col d = (refl, refl)
clear_cols-cursor (suc n) lig col d =
    clear_cols-cursor n lig (suc col) (ecrit_car lig col 32 15 0 0 d)

-- The cell is one of line 24.
clear_cols-other :
    (n lig col i : ℕ) (d : Display)
    → i < lig * 80 + col
    → (clear_cols n lig col d).cell i ≡ d.cell i
unfolding clear_cols
clear_cols-other zero lig col i d h = refl
clear_cols-other (suc n) lig col i d h =
    let e : (i == (lig * 80 + col)) ≡ false = ground arith in
    clear_cols-other n lig (suc col) i (ecrit_car lig col 32 15 0 0 d) (ground arith) ∙ rw e refl

defilement-cursor :
    (d : Display)
    → 1 < d.curs_lig_pos
    → ((defilement d).curs_lig_pos ≡ d.curs_lig_pos - 1)
      × ((defilement d).curs_col_pos ≡ d.curs_col_pos)
unfolding defilement
defilement-cursor d h =
    let e : ltb 1 d.curs_lig_pos ≡ true = ground arith in
    let d2 = place_curseur (d.curs_lig_pos - 1) d.curs_col_pos (scroll d) in
    rw e (clear_cols-cursor 80 24 0 d2)

defilement-cell :
    (d : Display) (k : ℕ)
    → 1 < d.curs_lig_pos
    → k < 80
    → (defilement d).cell (23 * 80 + k) ≡ d.cell (24 * 80 + k)
unfolding defilement
defilement-cell d k h hk =
    let e : ltb 1 d.curs_lig_pos ≡ true = ground arith in
    let d2 = place_curseur (d.curs_lig_pos - 1) d.curs_col_pos (scroll d) in
    let c : (leb 80 (23 * 80 + k) && ltb (23 * 80 + k) (80 + 24 * 80)) ≡ true = ground arith in
    let q : 23 * 80 + k + 80 ≡ 24 * 80 + k = omega arith in
    rw e (clear_cols-other 80 24 0 (23 * 80 + k) d2 (ground arith) ∙ rw c (ap d.cell q))

-- A newline on the last line scrolls the screen, and moves the cursor up with the text: it stands at
-- the start of the line that has just been written, which the next characters overwrite.
pub newline-rewinds :
    (d : Display) (k : ℕ)
    → d.curs_lig_pos ≡ 24
    → k < 80
    → ((traite_car 10 d).curs_lig_pos ≡ 23)
      × ((traite_car 10 d).curs_col_pos ≡ 0)
      × ((traite_car 10 d).cell (23 * 80 + k) ≡ d.cell (24 * 80 + k))
unfolding traite_car
newline-rewinds d k last h =
    let e : (d.curs_lig_pos == 24) ≡ true = ground arith in
    let l = defilement-cursor d (ground arith) in
    rw e (l.0 ∙ ground arith, refl, defilement-cell d k (ground arith) h)

-- Printing on the last column of the last line moves the cursor below the screen.
pub print-leaves_screen :
    (d : Display) (c : ℕ)
    → d.curs_lig_pos ≡ 24
    → d.curs_col_pos ≡ 79
    → 32 ≤ c
    → c ≤ 126
    → ((traite_car c d).curs_lig_pos ≡ 25) × ((traite_car c d).curs_col_pos ≡ 0)
unfolding traite_car
print-leaves_screen d c lig col low high =
    let e : (leb 32 c && leb c 126) ≡ true = ground arith in
    let e1 : (d.curs_col_pos + 1 == 80) ≡ true = ground arith in
    let e2 : (d.curs_lig_pos == 79) ≡ false = ground arith in rw (e, e1, e2) (ground arith, refl)

-- A cursor on the screen, below the first line.
abbrev pub Inside : Display → Type 0
Inside d = (1 ≤ d.curs_lig_pos) × (d.curs_lig_pos ≤ 24) × (d.curs_col_pos ≤ 79)

print-Inside :
    (c : ℕ) (d : Display)
    → Inside d
    → (d.curs_lig_pos < 24) ⊎ (d.curs_col_pos < 79)
    → Inside (print_char c d)
unfolding print_char
print-Inside c d (a, b, h) room = elim (Bool-cases (d.curs_col_pos + 1 == 80)) [
  | inl e ↦
      let e2 : (d.curs_lig_pos == 79) ≡ false = ground arith in
      rw (e, e2) (ground arith, ground arith, ground arith)
  | inr e ↦ rw e (a, b, ground arith)
]

next_tab-bound : (col : ℕ) → col ≤ 79 → (next_tab col ≤ 79) × (0 < next_tab col)
unfolding next_tab
next_tab-bound col h = ground arith

tab-Inside : (d : Display) → Inside d → Inside (tab_char d)
unfolding tab_char
tab-Inside d (a, b, h) =
    let n = next_tab-bound d.curs_col_pos h in
    let e : (next_tab d.curs_col_pos == 0) ≡ false = ground arith in rw e (a, b, n.0)

new_line-Inside : (d : Display) → Inside d → Inside (new_line d)
unfolding new_line
new_line-Inside d (a, b, h) = elim (Bool-cases (d.curs_lig_pos == 24)) [
  | inl e ↦
      let l = defilement-cursor d (ground arith) in
      let up : 1 ≤ d.curs_lig_pos - 1 = ground arith in
      let down : d.curs_lig_pos - 1 ≤ 24 = ground arith in
      rw e (subst (λ q. 1 ≤ q) (sym l.0) up, subst (λ q. q ≤ 24) (sym l.0) down, ground arith)
  | inr e ↦ rw e (ground arith, ground arith, ground arith)
]

treat-Inside :
    (c : ℕ) (d : Display)
    → Inside d
    → (d.curs_lig_pos < 24) ⊎ (d.curs_col_pos < 79)
    → Inside (treat c d)
unfolding treat
treat-Inside c d h room = elim (Bool-cases (leb 32 c && leb c 126)) [
  | inl e ↦ rw e (print-Inside c d h room)
  | inr e ↦ elim (Bool-cases (c == 8)) [
    | inl e8 ↦ elim (Bool-cases (d.curs_col_pos == 0)) [
      | inl z ↦ rw (e, e8, z) h
      | inr z ↦ rw (e, e8, z) (h.0, h.1, ground (arith, h.2))
    ]
    | inr e8 ↦ elim (Bool-cases (c == 9)) [
      | inl e9 ↦ rw (e, e8, e9) (tab-Inside d h)
      | inr e9 ↦ elim (Bool-cases (c == 10)) [
        | inl e10 ↦ rw (e, e8, e9, e10) (new_line-Inside d h)
        | inr e10 ↦ elim (Bool-cases (c == 12)) [
          | inl e12 ↦ rw (e, e8, e9, e10, e12) (ground arith, ground arith, ground arith)
          | inr e12 ↦ elim (Bool-cases (c == 13)) [
            | inl e13 ↦ rw (e, e8, e9, e10, e12, e13) (h.0, h.1, ground arith)
            | inr e13 ↦ rw (e, e8, e9, e10, e12, e13) h
          ]
        ]
      ]
    ]
  ]
]

-- Every character leaves the cursor on the screen, below the first line, when it stands there and not
-- in the last cell of the screen.
pub traite_car-Inside :
    (c : ℕ) (d : Display)
    → Inside d
    → (d.curs_lig_pos < 24) ⊎ (d.curs_col_pos < 79)
    → Inside (traite_car c d)
unfolding traite_car
traite_car-Inside c d h room = treat-Inside c d h room
